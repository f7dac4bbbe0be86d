-- ===== src/Lifecycle/Server/Refusal.antt =====
-- What a request that is not accepted cannot do, and what no request can.
use fabric_x_chaincode_compa.Prelude.{
  ℕ, ◌≡◌, refl, ◌⊎◌, inl, inr, Option, none, some, List, String, ◌==◌, eq_iff, arith, Bool-cases,
}
use fabric_x_chaincode_compa.Prelude.Exec.{Result, Result-cases, ok, err, ◌>>=◌}
use fabric_x_chaincode_compa.Lifecycle.Definition.{ChaincodeDefinition}
use fabric_x_chaincode_compa.Lifecycle.Authorization.Check.{Code, internal_error}
use fabric_x_chaincode_compa.Lifecycle.Store.State.{Store}
use fabric_x_chaincode_compa.Lifecycle.Server.State.{Server, Incoming, S, verify_and_unmarshal}
use fabric_x_chaincode_compa.Lifecycle.Authorization.Operation
use fabric_x_chaincode_compa.Lifecycle.Authorization.Check.{check}
use fabric_x_chaincode_compa.Lifecycle.Authorization.Signing.{
  PayloadType, operation_for_payload, install_request, query_installed_request,
  approve_for_my_org_request, check_commit_readiness_request, commit_request,
  query_committed_request, mark_initialized_request,
}
use fabric_x_chaincode_compa.Lifecycle.Server.Handlers.{
  install, query_installed, approve_for_my_org, readiness, commit, query_committed,
  mark_initialized,
}

-- A method with the decoder of its payload.
pub data Method : Type 0 where
  installing : (List ℕ → Option (List ℕ)) → Method
  querying_installed : (List ℕ → Option (Unit {0})) → Method
  approving : (List ℕ → Option (ChaincodeDefinition × String)) → Method
  asking_readiness : (List ℕ → Option ChaincodeDefinition) → Method
  committing : (List ℕ → Option ChaincodeDefinition) → Method
  querying_committed : (List ℕ → Option (String × String)) → Method
  initializing : (List ℕ → Option ChaincodeDefinition) → Method

abbrev pub operation_of : Method → String
operation_of (installing d) = Operation.install
operation_of (querying_installed d) = Operation.query_installed
operation_of (approving d) = Operation.approve
operation_of (asking_readiness d) = Operation.readiness
operation_of (committing d) = Operation.commit
operation_of (querying_committed d) = Operation.query_committed
operation_of (initializing d) = Operation.mark_initialized

abbrev pub error_of : {A : Type 0} → Result Code A × Store → Option Code × Store
error_of (ok a, s) = (none, s)
error_of (err e, s) = (some e, s)

module _ {Identity : Type 0} (srv : Server Identity) (call : Incoming) where
  -- The error and the store that a method leaves.
  abbrev pub serve : Method → Store → Option Code × Store
  serve (installing d) s = error_of (install srv call d s)
  serve (querying_installed d) s = error_of (query_installed srv call d s)
  serve (approving d) s = error_of (approve_for_my_org srv call d s)
  serve (asking_readiness d) s = error_of (readiness srv call d s)
  serve (committing d) s = error_of (commit srv call d s)
  serve (querying_committed d) s = error_of (query_committed srv call d s)
  serve (initializing d) s = error_of (mark_initialized srv call d s)

  abbrev pub IsAccepted : String → Store → Type 0
  IsAccepted op s =
      (msp : String) × (check srv.marshal srv.auth call.request op call.metadata call.first call.now
        ≡ ok msp)
      × (s.channel_id ≡ srv.channel_id)

  refused_or_IsAccepted :
      {A : Type 0} (type : PayloadType) (decode : List ℕ → Option A) (op : String) (s : Store)
      → operation_for_payload type ≡ some op
      → ((e : Code) × (verify_and_unmarshal srv call type decode s ≡ (err e, s))) ⊎ IsAccepted op s
  unfolding verify_and_unmarshal
  refused_or_IsAccepted type decode op s h =
      elim (Result-cases
        (check srv.marshal srv.auth call.request op call.metadata call.first call.now)) [
          | inl (e, k) ↦ inl (e, ground arith)
          | inr (msp, k) ↦ elim (Bool-cases (s.channel_id == srv.channel_id)) [
            | inl c ↦ inr (msp, k, (eq_iff _ _).0 c)
            | inr c ↦ inl (internal_error, ground arith)
          ]
        ]

  refused :
      {A B : Type 0} (type : PayloadType) (decode : List ℕ → Option A) (f : String × A → S B)
      (op : String) (s : Store)
      → operation_for_payload type ≡ some op
      → ((e : Code) × (error_of ((verify_and_unmarshal srv call type decode >>= f) s)
            ≡ (some e, s)))
        ⊎ IsAccepted op s
  unfolding ◌>>=◌
  refused type decode f op s h = elim (refused_or_IsAccepted type decode op s h) [
    | inl (e, k) ↦ inl (e, rw k refl)
    | inr a ↦ inr a
  ]

  -- A request that the authorizer does not accept for the operation of the called method, or that
  -- meets a store of another channel, is answered by an error and leaves the store as it was.
  pub serve_refuses :
      (m : Method) (s : Store)
      → ((e : Code) × (serve m s ≡ (some e, s))) ⊎ IsAccepted (operation_of m) s
  unfolding install query_installed approve_for_my_org readiness commit query_committed
      mark_initialized operation_for_payload
  serve_refuses (installing d) s = refused install_request d _ _ s refl
  serve_refuses (querying_installed d) s = refused query_installed_request d _ _ s refl
  serve_refuses (approving d) s = refused approve_for_my_org_request d _ _ s refl
  serve_refuses (asking_readiness d) s = refused check_commit_readiness_request d _ _ s refl
  serve_refuses (committing d) s = refused commit_request d _ _ s refl
  serve_refuses (querying_committed d) s = refused query_committed_request d _ _ s refl
  serve_refuses (initializing d) s = refused mark_initialized_request d _ _ s refl
