-- ===== src/Lifecycle/Authorization/Signing.antt =====
-- compatibility_service/pkg/lifecycle/request.go: how a lifecycle request is made. The signer, the
-- JSON of a payload and the random bytes are parameters; `none` is an error of theirs.
use fabric_x_chaincode_compa.Prelude.{
  ℕ, Bool, not, ◌&&◌, ◌||◌, Option, none, some, List, [], String, ◌==◌, if◌then◌else◌,
}
use fabric_x_chaincode_compa.Prelude.Int.{ℤ}
use fabric_x_chaincode_compa.Prelude.Exec.{Result, ok, err}
use fabric_x_chaincode_compa.Lifecycle.Authorization.Operation
use fabric_x_chaincode_compa.Lifecycle.Authorization.Request.{
  SignedRequest, SignedFields, signing_bytes, internal_operation, request_version,
  request_nonce_size,
}

-- The type of a payload, as the type switch sees it.
pub data PayloadType : Type 0 where
  install_request query_installed_request approve_for_my_org_request : PayloadType
  check_commit_readiness_request commit_request query_committed_request : PayloadType
  mark_initialized_request other_type : PayloadType

unfoldable pub operation_for_payload : PayloadType → Option String
operation_for_payload install_request = some Operation.install
operation_for_payload query_installed_request = some Operation.query_installed
operation_for_payload approve_for_my_org_request = some Operation.approve
operation_for_payload check_commit_readiness_request = some Operation.readiness
operation_for_payload commit_request = some Operation.commit
operation_for_payload query_committed_request = some Operation.query_committed
operation_for_payload mark_initialized_request = some Operation.mark_initialized
operation_for_payload other_type = none

pub record Signer : Type 0 where
  pub serialize : Option (List ℕ)
  pub sign : List ℕ → Option (List ℕ)

pub data Error : Type 0 where
  no_signer unsupported_payload wrong_mode payload_failed creator_failed : Error
  nonce_failed bytes_failed signature_failed : Error

-- An operation that the mode of the request does not offer.
abbrev pub wrong_for_mode : Bool → String → Bool
wrong_for_mode internal op =
    internal && not (internal_operation op) || not internal && op == Operation.mark_initialized

abbrev pub unsigned : String → String → Bool → ℤ → List ℕ → List ℕ → List ℕ → SignedRequest
unsigned channel op internal now nonce body creator = record {
  version = request_version;
  channel_id = channel;
  operation = op;
  internal = internal;
  issued_at = now;
  nonce = nonce;
  payload = body;
  creator = creator;
  signature = [];
}

-- The end of `signRequest`.
unfoldable pub with_signature :
    (SignedFields → Option (List ℕ)) → Signer → SignedRequest → Result Error SignedRequest
with_signature marshal signer req = elim (signing_bytes marshal req) [
  | none ↦ err bytes_failed
  | some message ↦ elim (signer.sign message) [
    | none ↦ err signature_failed
    | some signature ↦ ok (record req { signature = signature })
  ]
]

-- `signRequest` for a payload with its type and JSON
unfoldable pub sign_request :
    (SignedFields → Option (List ℕ))
    → (ℕ → Option (List ℕ))
    → Option Signer
    → String
    → PayloadType
    → Option (List ℕ)
    → Bool
    → ℤ
    → Result Error SignedRequest
unfolding operation_for_payload with_signature
sign_request marshal random none channel payload body internal now = err no_signer
sign_request marshal random (some signer) channel payload body internal now =
    if channel == "" then err no_signer else elim (operation_for_payload payload) [
      | none ↦ err unsupported_payload
      | some op ↦ if wrong_for_mode internal op then err wrong_mode else elim body [
        | none ↦ err payload_failed
        | some bytes ↦ elim signer.serialize [
          | none ↦ err creator_failed
          | some creator ↦ elim (random request_nonce_size) [
            | none ↦ err nonce_failed
            | some nonce ↦
                with_signature marshal signer (unsigned channel op internal now nonce bytes creator)
          ]
        ]
      ]
    ]
