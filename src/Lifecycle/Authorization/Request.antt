-- ===== src/Lifecycle/Authorization/Request.antt =====
-- compatibility_service/pkg/lifecycle/request.go: the signed requests and their operations.
-- `marshal` is json.Marshal of the signed fields.
use fabric_x_chaincode_compa.Prelude.{ℕ, Bool, ◌||◌, Option, List, String, ◌==◌}
use fabric_x_chaincode_compa.Prelude.Int.{ℤ}
use fabric_x_chaincode_compa.Lifecycle.Authorization.Operation

abbrev pub request_version : ℕ
request_version = 1

abbrev pub request_nonce_size : ℕ
request_nonce_size = 24

-- five minutes in nanoseconds
abbrev pub request_max_age : ℕ
request_max_age = 300000000000

pub record SignedRequest : Type 0 where
  pub version : ℕ
  pub channel_id : String
  pub operation : String
  pub internal : Bool
  pub issued_at : ℤ
  pub nonce : List ℕ
  pub payload : List ℕ
  pub creator : List ℕ
  pub signature : List ℕ

-- The struct that is signed: a domain and all fields but the signature.
pub record SignedFields : Type 0 where
  pub domain : String
  pub version : ℕ
  pub channel_id : String
  pub operation : String
  pub internal : Bool
  pub issued_at : ℤ
  pub nonce : List ℕ
  pub creator : List ℕ
  pub payload : List ℕ

abbrev pub signed_fields : SignedRequest → SignedFields
signed_fields r = record {
  domain = "compat.lifecycle.request";
  version = r.version;
  channel_id = r.channel_id;
  operation = r.operation;
  internal = r.internal;
  issued_at = r.issued_at;
  nonce = r.nonce;
  creator = r.creator;
  payload = r.payload;
}

abbrev pub signing_bytes : (SignedFields → Option (List ℕ)) → SignedRequest → Option (List ℕ)
signing_bytes marshal r = marshal (signed_fields r)

abbrev pub internal_operation : String → Bool
internal_operation op =
    op == Operation.readiness || op == Operation.commit || op == Operation.mark_initialized
