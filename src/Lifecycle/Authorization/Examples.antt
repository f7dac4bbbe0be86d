-- ===== src/Lifecycle/Authorization/Examples.antt =====
-- A request of a local identity, accepted.
use fabric_x_chaincode_compa.Prelude.Assoc.{lookup}
use fabric_x_chaincode_compa.Prelude.{
  ℕ, zero, suc, ◌≡◌, refl, true, false, Option, some, List, [], ◌∷◌, String,
}
use fabric_x_chaincode_compa.Prelude.Int.{pos}
use fabric_x_chaincode_compa.Prelude.Exec.{ok}
use fabric_x_chaincode_compa.Auth.Verifier.{authenticate, Libraries}
use fabric_x_chaincode_compa.Lifecycle.Authorization.Request.{
  SignedRequest, SignedFields, signing_bytes,
}
use fabric_x_chaincode_compa.Lifecycle.Authorization.Signing.{Signer}
use fabric_x_chaincode_compa.Lifecycle.Authorization.Check.{Authorizer, msp_of, check}
use fabric_x_chaincode_compa.Lifecycle.Authorization.Acceptance.{
  Vouched, IsAddressed, HasRight, check-ok,
}

abbrev pub bytes : ℕ → List ℕ
bytes zero = []
bytes (suc n) = let rest = bytes n in n ∷ rest

abbrev pub libraries : Libraries String
libraries = record {
  unmarshal_creator = λ creator. some ("Org1MSP", creator);
  deserialize_identity = λ msp cert. some "user";
  validate = λ id. true;
  certificate_pem = λ id. some (1 ∷ []);
  decode_pem = λ pem. some pem;
  parse_certificate = λ block. some (pos 0, pos 100);
  verify = λ id message signature. true;
  msp_identifier = λ id. "Org1MSP";
  identifier = λ id. id;
}

abbrev pub authorizer : Authorizer String
authorizer = record {
  trust = some (record { identities = some libraries });
  channel_id = "mychannel";
  msp_id = "Org1MSP";
  policies = ("install", λ id. true) ∷ [];
  orchestrators = [];
}

abbrev pub request : SignedRequest
request = record {
  version = 1;
  channel_id = "mychannel";
  operation = "install";
  internal = false;
  issued_at = pos 10;
  nonce = bytes 24;
  payload = 7 ∷ [];
  creator = 8 ∷ [];
  signature = 9 ∷ [];
}

abbrev pub marshal : SignedFields → Option (List ℕ)
marshal f = some f.payload

check_run :
    check marshal (some authorizer) (some request) "install" ("false" ∷ []) (pos 11) (pos 12)
    ≡ ok "Org1MSP"
unfolding check authenticate lookup
check_run = refl

check-ok_example :
    (message : List ℕ) × (id : String) × (signing_bytes marshal request ≡ some message)
    × Vouched authorizer.trust request message (pos 11) id
    × ("Org1MSP" ≡ msp_of authorizer.trust id)
    × IsAddressed authorizer request "install" ("false" ∷ []) (pos 12)
    × HasRight authorizer request "install" id
check-ok_example =
    check-ok marshal authorizer request "install" ("false" ∷ []) (pos 11) (pos 12) "Org1MSP"
      check_run

abbrev pub signer : Signer
signer = record { serialize = some (8 ∷ []); sign = λ message. some (9 ∷ []) }
