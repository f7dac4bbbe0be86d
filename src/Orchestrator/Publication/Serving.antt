-- ===== src/Orchestrator/Publication/Serving.antt =====
-- The methods of rpc.go on the ledger backend of the orchestrator, whose LedgerFinalizer is
-- FinalizeLifecycleDefinition of compatibility_service/pkg/orchestrator/lifecycle_ledger.go.
use fabric_x_chaincode_compa.Prelude.{
  ◌≡◌, subst, inl, inr, Bool, Option, none, some, Option-cases, false,
}
use fabric_x_chaincode_compa.Prelude.Int.{pos}
use fabric_x_chaincode_compa.Prelude.Exec.{Result, ok, err, Keeps}
use fabric_x_chaincode_compa.Lifecycle.Definition.{ChaincodeDefinition}
use fabric_x_chaincode_compa.Lifecycle.Authorization.Check.{Code, unknown_error}
use fabric_x_chaincode_compa.Lifecycle.Store.State.{Store, CommittedDefinition}
use fabric_x_chaincode_compa.Lifecycle.Store.Revisions.{Advances, Advances-IsOrder}
use fabric_x_chaincode_compa.Lifecycle.Server.State.{Backend, Server, Incoming, S}
use fabric_x_chaincode_compa.Lifecycle.Server.Refusal.{Method, serve}
use fabric_x_chaincode_compa.Lifecycle.Server.Monotone.{serve-Advances}
use fabric_x_chaincode_compa.Orchestrator.Publication.Pending.{State}
use fabric_x_chaincode_compa.Orchestrator.Publication.Advance.{Environment}
use fabric_x_chaincode_compa.Orchestrator.Publication.Finalize.{
  FinalizeError, FinalizeResult, not_reconciled, finalize_lifecycle_definition,
}
use fabric_x_chaincode_compa.Orchestrator.Publication.Steps.{Reach-Advances}
use fabric_x_chaincode_compa.Orchestrator.Publication.Methods.{finalize_lifecycle_definition-Reach}

-- `CommittedDefinition{}`, which a superseded operation gives.
abbrev no_definition : CommittedDefinition
no_definition = record {
  definition = record { name = ""; version = ""; sequence = pos 0; init_required = false };
  committed_at = "";
  initialized = false;
}

-- An error that is not a gRPC status has the code of an unknown error.
abbrev error_code : FinalizeError → Code
error_code (not_reconciled c) = c
error_code _ = unknown_error

abbrev answer : FinalizeResult → Result Code CommittedDefinition
answer (inl e) = err unknown_error
answer (inr (err e)) = err (error_code e)
answer (inr (ok none)) = ok no_definition
answer (inr (ok (some c))) = ok c

module _ {Identity : Type 0} (srv : Server Identity) where
  -- What `FinalizeLifecycleDefinition` answers and does to the lifecycle store, when it meets these
  -- services and this table of pending operations.
  unfoldable pub ledger_finalizer :
      Environment → Bool → Bool → Bool → State → ChaincodeDefinition → Bool → S CommittedDefinition
  unfolding finalize_lifecycle_definition
  ledger_finalizer env live still lockable pending def initialized store =
      elim (finalize_lifecycle_definition srv env def initialized live still lockable
        (pending, store)) [ none ↦ (err unknown_error, store) | some x ↦ (answer x.0, x.1.1) ]

  ledger_finalizer-Advances :
      (env : Environment) (live still lockable : Bool) (pending : State) (def : ChaincodeDefinition)
      (initialized : Bool)
      → Keeps Advances (ledger_finalizer env live still lockable pending def initialized)
  unfolding ledger_finalizer
  ledger_finalizer-Advances env live still lockable pending def initialized = record {
    at = λ store.
        elim (Option-cases (
          finalize_lifecycle_definition srv env def initialized live still lockable
            (pending, store))) [
              | inl e ↦ rw (e, ledger_finalizer) (Advances-IsOrder.same store)
              | inr ((r, b), e) ↦
                  rw (e, ledger_finalizer)
                    (Reach-Advances Identity (
                      finalize_lifecycle_definition-Reach srv env def initialized live still
                        lockable pending store e))
            ];
  }

-- The backend of the server with this finalizer.
abbrev pub finalized_by :
    Option Backend → (ChaincodeDefinition → Bool → S CommittedDefinition) → Option Backend
finalized_by none f = none
finalized_by (some b) f = some (record b { finalizer = some f })

finalized_by-Keeps :
    (o : Option Backend) (own f : ChaincodeDefinition → Bool → S CommittedDefinition) (b : Backend)
    → ((def : ChaincodeDefinition) (initialized : Bool) → Keeps Advances (own def initialized))
    → finalized_by o own ≡ some b
    → b.finalizer ≡ some f
    → (def : ChaincodeDefinition) (initialized : Bool) → Keeps Advances (f def initialized)
finalized_by-Keeps none own f b k e h def initialized = absurd (cc)
finalized_by-Keeps (some c) own f b k e h def initialized =
    let same : own ≡ f = cc in
    subst (λ x. Keeps Advances (x def initialized)) same (k def initialized)

module _ {Identity : Type 0} (srv : Server Identity) where
  -- The server on the ledger backend of the orchestrator.
  abbrev pub on_ledger : Environment → Bool → Bool → Bool → State → Server Identity
  on_ledger env live still lockable pending = record srv {
    ledger = finalized_by srv.ledger (ledger_finalizer srv env live still lockable pending);
  }

  -- Whatever request a server answers with whatever method, where its ledger backend finalizes a
  -- commitment by FinalizeLifecycleDefinition, whatever the ledger and the other services answer
  -- and whatever operations are pending, none of the lifecycle store's definitions is lost or moves
  -- back.
  pub serve-on_ledger-Advances :
      (env : Environment) (live still lockable : Bool) (pending : State) (call : Incoming)
      (m : Method) (s : Store)
      → Advances s (serve (on_ledger env live still lockable pending) call m s).1
  serve-on_ledger-Advances env live still lockable pending call m s =
      let own = ledger_finalizer srv env live still lockable pending in
      serve-Advances (on_ledger env live still lockable pending)
        (λ b f e h.
          finalized_by-Keeps srv.ledger own f b
            (ledger_finalizer-Advances srv env live still lockable pending) e h)
        call m s
