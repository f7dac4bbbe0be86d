-- ===== src/Orchestrator/Publication/Finalize.antt =====
-- submitLifecycleDefinition, finalizeLifecycleOperation and reconcileLifecyclePending of
-- compatibility_service/pkg/orchestrator/lifecycle_ledger.go, which act on the pending operations
-- and, through the lifecycle server, on the lifecycle store.
use fabric_x_chaincode_compa.Prelude.{
  ℕ, zero, suc, Bool, true, false, not, ◌&&◌, Option, none, some, List, [], ◌∷◌, String, ◌==◌,
  get_elem?, if◌then◌else◌, ◌⊎◌, inl, inr,
}
use fabric_x_chaincode_compa.Prelude.Int.{ltb_ℤ}
use fabric_x_chaincode_compa.Prelude.Exec.{Result, ok, err}
use fabric_x_chaincode_compa.Lifecycle.Definition.{ChaincodeDefinition}
use fabric_x_chaincode_compa.Lifecycle.Store.State.{Store, CommittedDefinition}
use fabric_x_chaincode_compa.Lifecycle.Server.State.{Server, DefinitionPropagation}
use fabric_x_chaincode_compa.Lifecycle.Server.Handlers.{reconcile_definition}
use fabric_x_chaincode_compa.Lifecycle.Authorization.Check.{Code}
use fabric_x_chaincode_compa.Lifecycle.Ledger.{LedgerDefinition}
use fabric_x_chaincode_compa.Orchestrator.Publication.Preparation
use fabric_x_chaincode_compa.Orchestrator.Publication.Preparation.{
  is_initialized_event, event_commit, read_lifecycle_definition,
}
use fabric_x_chaincode_compa.Orchestrator.Publication.Pending.{
  PendingLifecycle, State, Error, write, reserve, lock, unlock, remove_operation, is_current,
}
use fabric_x_chaincode_compa.Orchestrator.Publication.Advance.{Environment, Outcome, advance}

pub data FinalizeError : Type 0 where
  unread : Preparation.Error → FinalizeError
  not_reconciled : Code → FinalizeError
  no_operation : FinalizeError

-- The ledger has a newer definition than the operation's.
abbrev pub is_newer : PendingLifecycle → Option LedgerDefinition → Bool
is_newer r none = false
is_newer r (some d) = ltb_ℤ r.definition.sequence d.sequence

abbrev pub settled :
    ℕ
    → PendingLifecycle
    → (Result Code CommittedDefinition × DefinitionPropagation) × Store
    → State
    → Result FinalizeError (Option CommittedDefinition) × (State × Store)
settled p r ((ok c, left), store) s =
    (ok (some c), (remove_operation p (write p (record r { propagation = left }) s), store))
settled p r ((err e, left), store) s =
    (err (not_reconciled e), (write p (record r { propagation = left }) s, store))

module _ {Identity : Type 0} (srv : Server Identity) where
  -- `finalizeLifecycleOperation`; `none` is the empty definition of a superseded operation.
  unfoldable pub finalize :
      Environment
      → ℕ
      → State × Store
      → Result FinalizeError (Option CommittedDefinition) × (State × Store)
  unfolding reconcile_definition remove_operation
  finalize env p (s, store) = elim (get_elem? s.heap p) [
    | none ↦ (err no_operation, (s, store))
    | some r ↦ elim (read_lifecycle_definition env.ledger r.definition) [
      | err e ↦ (err (unread e), (s, store))
      | ok found ↦
          if is_newer r found
          then (ok none, (remove_operation p s, store))
          else settled p r
              (reconcile_definition srv r.definition (is_initialized_event r.operation.event)
                r.propagation store)
              s
    ]
  ]

  -- The operation `p` of a pass, whose gate the pass has taken.
  unfoldable pub recover_locked : Environment → ℕ → PendingLifecycle → State × Store → State × Store
  unfolding advance finalize
  recover_locked env p r (s, store) =
      if not (is_current p s)
      then (s, store)
      else if r.operation.event == event_commit && r.result.tx_id == "" && r.result.status == ""
      then (remove_operation p s, store)
      else let (outcome, s') = advance env false p s in
        elim outcome.1 [ some e ↦ (s', store) | none ↦ (finalize env p (s', store)).1 ]

abbrev pub unlocked : ℕ → State → State
unlocked p s = elim (unlock p s) [ none ↦ s | some t ↦ t ]

module _ {Identity : Type 0} (srv : Server Identity) where
  -- The body of the loop of `reconcileLifecyclePending`.
  unfoldable pub recover : Environment → ℕ → State × Store → State × Store
  unfolding recover_locked lock
  recover env p (s, store) = elim (get_elem? s.heap p) [
    | none ↦ (s, store)
    | some r ↦
        if r.locked
        then (s, store)
        else let (s', store') =
            recover_locked srv env p r (write p (record r { locked = true }) s, store) in
          (unlocked p s', store')
  ]

  -- The loop over the batch, with the services at each operation and the number of its checks of
  -- the context that pass.
  unfoldable pub recover_batch : (ℕ → Environment) → List ℕ → ℕ → State × Store → State × Store
  unfolding recover
  recover_batch env [] live s = s
  recover_batch env (p ∷ ps) zero s = s
  recover_batch env (p ∷ ps) (suc live) s = recover_batch env ps live (recover (env p) p s)

abbrev pub recovery_batch_size : ℕ
recovery_batch_size = 32

-- At most `n` operations of the table, in the order in which the map gives them.
unfoldable pub batch : ℕ → List ℕ → List ℕ
batch zero ps = []
batch (suc n) [] = []
batch (suc n) (p ∷ ps) = p ∷ batch n ps

module _ {Identity : Type 0} (srv : Server Identity) where
  -- `reconcileLifecyclePending`, with the operations of the table in the order of the map
  unfoldable pub reconcile_pending : (ℕ → Environment) → List ℕ → ℕ → State × Store → State × Store
  unfolding recover_batch batch
  reconcile_pending env order live s =
      recover_batch srv env (batch recovery_batch_size order) live s

abbrev pub lock_result : ℕ → Option (Option Error × State) → Option (Result Error ℕ × State)
lock_result p none = none
lock_result p (some (some e, t)) = some (err e, t)
lock_result p (some (none, t)) = some (ok p, t)

-- The end of `lifecycleOperation`, after its critical section: an operation that was there is locked.
unfoldable pub obtain : Result Error (ℕ × Bool) → Bool → State → Option (Result Error ℕ × State)
unfolding lock
obtain (err e) lockable s = some (err e, s)
obtain (ok (p, true)) lockable s = some (ok p, s)
obtain (ok (p, false)) lockable s = lock_result p (lock p lockable s)

-- `lifecycleOperation`; `none` is a call that still waits for the gate.
unfoldable pub lifecycle_operation :
    ChaincodeDefinition → Bool → Bool → Bool → Bool → State → Option (Result Error ℕ × State)
unfolding reserve obtain
lifecycle_operation def initialized live still lockable s =
    let (reserved, t) = reserve def initialized live still s in obtain reserved lockable t

-- The end of `submitLifecycleDefinition`, after the transaction was advanced.
abbrev pub abandoned : ChaincodeDefinition → String → ℕ → Outcome → State → State
abandoned def event p (result, none) s = s
abandoned def event p (result, some e) s =
    if result.tx_id == "" && event == event_commit then remove_operation p s else s

-- What `submitLifecycleDefinition` does with the operation that it has obtained.
unfoldable pub submit_obtained :
    Environment
    → ChaincodeDefinition
    → String
    → Option (Result Error ℕ × State)
    → Option (Result Error Outcome × State)
unfolding advance
submit_obtained env def event none = none
submit_obtained env def event (some (err e, s)) = some (err e, s)
submit_obtained env def event (some (ok p, s)) =
    let (outcome, t) = advance env true p s in
    some (ok outcome, unlocked p (abandoned def event p outcome t))

-- `submitLifecycleDefinition`
unfoldable pub submit_lifecycle_definition :
    Environment
    → ChaincodeDefinition
    → String
    → Bool
    → Bool
    → Bool
    → State
    → Option (Result Error Outcome × State)
unfolding lifecycle_operation submit_obtained
submit_lifecycle_definition env def event live still lockable s =
    submit_obtained env def event
      (lifecycle_operation def (is_initialized_event event) live still lockable s)

abbrev pub FinalizeResult : Type 0
FinalizeResult = Error ⊎ Result FinalizeError (Option CommittedDefinition)

module _ {Identity : Type 0} (srv : Server Identity) where
  unfoldable pub finalize_obtained :
      Environment
      → Option (Result Error ℕ × State)
      → Store
      → Option (FinalizeResult × (State × Store))
  unfolding finalize
  finalize_obtained env none store = none
  finalize_obtained env (some (err e, s)) store = some (inl e, (s, store))
  finalize_obtained env (some (ok p, s)) store =
      let (r, (t, store')) = finalize srv env p (s, store) in some (inr r, (unlocked p t, store'))

  -- `FinalizeLifecycleDefinition`
  unfoldable pub finalize_lifecycle_definition :
      Environment
      → ChaincodeDefinition
      → Bool
      → Bool
      → Bool
      → Bool
      → State × Store
      → Option (FinalizeResult × (State × Store))
  unfolding lifecycle_operation finalize_obtained
  finalize_lifecycle_definition env def initialized live still lockable (s, store) =
      finalize_obtained env (lifecycle_operation def initialized live still lockable s) store
