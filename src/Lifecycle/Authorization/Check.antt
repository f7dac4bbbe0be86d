-- ===== src/Lifecycle/Authorization/Check.antt =====
-- compatibility_service/pkg/lifecycle/auth.go: who may send which lifecycle request. A policy is a
-- test of one identity, `none` is a nil policy, and the values of the local-only metadata are an
-- argument.
use Prim.Native.String.{◌++◌}
use fabric_x_chaincode_compa.Prelude.{
  ℕ, ◌+◌, Bool, true, false, not, ◌&&◌, ◌||◌, Option, none, some, List, [], ◌∷◌, String, ◌==◌,
  length, nat_eq, ltb, bool_eq, if◌then◌else◌,
}
use fabric_x_chaincode_compa.Prelude.Int.{ℤ, pos_part, neg_part}
use fabric_x_chaincode_compa.Prelude.Exec.{Result, ok, err}
use fabric_x_chaincode_compa.Prelude.Assoc.{lookup}
use fabric_x_chaincode_compa.Auth.Verifier.{Verifier, identity, authenticate, is_empty}
use fabric_x_chaincode_compa.Lifecycle.Authorization.Operation
use fabric_x_chaincode_compa.Lifecycle.Authorization.Request.{
  SignedRequest, SignedFields, signing_bytes, request_version, request_nonce_size, request_max_age,
  internal_operation,
}

pub record OrchestratorIdentity : Type 0 where
  pub msp_id : String
  pub cert_path : String

pub record AuthConfig : Type 0 where
  pub policies : List (String × String)
  pub orchestrators : List OrchestratorIdentity

abbrev pub policy_text : AuthConfig → String → String
policy_text c op = elim (lookup op c.policies) [ none ↦ "" | some p ↦ p ]

abbrev pub has_policy : AuthConfig → String → Bool
has_policy c op = not (policy_text c op == "")

unfoldable pub are_complete : List OrchestratorIdentity → Bool
are_complete [] = true
are_complete (o ∷ os) = not (o.msp_id == "" || o.cert_path == "") && are_complete os

-- `AuthConfig.Validate`; the entries of the map have different keys.
unfoldable pub validate_config : AuthConfig → Bool
unfolding are_complete
validate_config c =
    has_policy c Operation.install
    && has_policy c Operation.query_installed
    && has_policy c Operation.approve
    && has_policy c Operation.readiness
    && has_policy c Operation.commit
    && has_policy c Operation.query_committed
    && nat_eq (length c.policies) 6
    && not (nat_eq (length c.orchestrators) 0)
    && are_complete c.orchestrators

-- The gRPC codes of the errors.
pub data Code : Type 0 where
  unauthenticated invalid_argument permission_denied failed_precondition unavailable internal_error
        unknown_error :
      Code

pub record Authorizer (Identity : Type 0) : Type 0 where
  pub trust : Option (Verifier Identity)
  pub channel_id : String
  pub msp_id : String
  pub policies : List (String × (Identity → Bool))
  pub orchestrators : List (String × Bool)

-- `a + d` is before `b`.
abbrev pub earlier : ℕ → ℤ → ℤ → Bool
earlier d a b = ltb (pos_part a + d + neg_part b) (pos_part b + neg_part a)

-- `issued` is within `requestMaxAge` of `now`, on either side.
abbrev pub is_fresh : ℤ → ℤ → Bool
is_fresh issued now = not (earlier request_max_age issued now || earlier request_max_age now issued)

-- The loop over the metadata values, each of which must repeat the signed mode.
unfoldable pub agrees_with_mode : Bool → List String → Bool
agrees_with_mode internal [] = true
agrees_with_mode internal (value ∷ rest) =
    let more = agrees_with_mode internal rest in
    if not (value == "true") && not (value == "false") || not (bool_eq (value == "true") internal)
    then false
    else more

abbrev pub is_local_operation : String → Bool
is_local_operation op =
    op == Operation.install || op == Operation.query_installed || op == Operation.approve

module _ {Identity : Type 0} where
  -- an identity of a verifier that is not nil
  abbrev pub msp_of : Option (Verifier Identity) → Identity → String
  msp_of none id = ""
  msp_of (some v) id = elim v.identities [ none ↦ "" | some lib ↦ lib.msp_identifier id ]

  abbrev pub key_of : Option (Verifier Identity) → Identity → String
  key_of none id = ""
  key_of (some v) id = elim v.identities [
    | none ↦ ""
    | some lib ↦ lib.msp_identifier id ++ "|" ++ lib.identifier id
  ]

  abbrev pub is_orchestrator : Authorizer Identity → Identity → Bool
  is_orchestrator a id = elim (lookup (key_of a.trust id) a.orchestrators) [
    | none ↦ false
    | some b ↦ b
  ]

  abbrev pub is_permitted : Authorizer Identity → String → Identity → Bool
  is_permitted a op id = elim (lookup op a.policies) [ none ↦ false | some policy ↦ policy id ]

  -- `ValidateOrchestrator`
  unfoldable pub validate_orchestrator : Authorizer Identity → List ℕ → ℤ → Bool
  validate_orchestrator a creator now = elim (identity a.trust creator now) [
    | err e ↦ false
    | ok id ↦ is_orchestrator a id
  ]

  -- The part of `check` after the authentication, by the caller `id`.
  unfoldable pub authorize :
      Authorizer Identity → SignedRequest → String → List String → ℤ → Identity → Result Code String
  unfolding agrees_with_mode
  authorize a req op values now id =
      if not (nat_eq req.version request_version)
        || not (nat_eq (length req.nonce) request_nonce_size)
        || is_empty req.payload
      then err invalid_argument
      else if not (req.channel_id == a.channel_id) || not (req.operation == op)
      then err permission_denied
      else if not (is_fresh req.issued_at now)
      then err unauthenticated
      else if not (agrees_with_mode req.internal values)
      then err permission_denied
      else if req.internal
      then (if not (internal_operation op) || not (is_orchestrator a id)
          then err permission_denied
          else ok (msp_of a.trust id))
      else if is_local_operation op && not (msp_of a.trust id == a.msp_id)
      then err permission_denied
      else if not (is_permitted a op id)
      then err permission_denied
      else ok (msp_of a.trust id)

  -- `check`, which reads the clock twice
  unfoldable pub check :
      (SignedFields → Option (List ℕ))
      → Option (Authorizer Identity)
      → Option SignedRequest
      → String
      → List String
      → ℤ
      → ℤ
      → Result Code String
  unfolding authorize
  check marshal none req op values first now = err unauthenticated
  check marshal (some a) none op values first now = err unauthenticated
  check marshal (some a) (some req) op values first now = elim (signing_bytes marshal req) [
    | none ↦ err invalid_argument
    | some message ↦ elim (authenticate a.trust req.creator message req.signature first) [
      | err e ↦ err unauthenticated
      | ok id ↦ authorize a req op values now id
    ]
  ]
