-- ===== src/Orchestrator/Publication/Steps.antt =====
-- The steps of the callers of pending lifecycle operations, in any order.
use fabric_x_chaincode_compa.Prelude.{
  ℕ, ◌≡◌, inl, inr, Bool, true, false, Option, some, [], get_elem?, Bool-cases, Option-cases,
}
use fabric_x_chaincode_compa.Prelude.Exec.{Result, Result-cases, ok, err}
use fabric_x_chaincode_compa.Lifecycle.Definition.{ChaincodeDefinition}
use fabric_x_chaincode_compa.Lifecycle.Store.State.{Store, CommittedDefinition}
use fabric_x_chaincode_compa.Lifecycle.Store.Revisions.{Advances, Advances-IsOrder}
use fabric_x_chaincode_compa.Lifecycle.Server.State.{Server, DefinitionPropagation}
use fabric_x_chaincode_compa.Lifecycle.Authorization.Check.{Code}
use fabric_x_chaincode_compa.Lifecycle.Server.Monotone.{reconcile_definition-Advances}
use fabric_x_chaincode_compa.Orchestrator.Publication.Preparation.{
  is_initialized_event, read_lifecycle_definition,
}
use fabric_x_chaincode_compa.Orchestrator.Publication.Pending.{
  PendingLifecycle, State, Error, reserve, lock, unlock, remove_operation,
}
use fabric_x_chaincode_compa.Orchestrator.Publication.Advance.{Environment, advance}
use fabric_x_chaincode_compa.Orchestrator.Publication.Finalize.{finalize, settled, is_newer}

finalize-Advances :
    {Identity : Type 0} (srv : Server Identity) (env : Environment) (p : ℕ) (s : State)
    (store : Store)
    → Advances store (finalize srv env p (s, store)).1.1
unfolding finalize
finalize-Advances srv env p s store = elim (Option-cases (get_elem? s.heap p)) [
  | inl e ↦ rw (e, finalize) (Advances-IsOrder.same store)
  | inr (r, e) ↦ elim (Result-cases (read_lifecycle_definition env.ledger r.definition)) [
    | inl (x, k) ↦ rw (e, finalize) (rw k (Advances-IsOrder.same store))
    | inr (found, k) ↦ elim (Bool-cases (is_newer r found)) [
      | inl b ↦ rw (e, finalize) (rw (k, b) (Advances-IsOrder.same store))
      | inr b ↦
          rw (e, finalize)
            (rw (k, b)
              (kept r _ (
                reconcile_definition-Advances srv r.definition
                  (is_initialized_event r.operation.event) r.propagation store)))
    ]
  ]
]
  where
    kept :
        (r : PendingLifecycle)
        (x : (Result Code CommittedDefinition × DefinitionPropagation) × Store)
        → Advances store x.1
        → Advances store (settled p r x s).1.1
    kept r ((ok c, left), store') a = a
    kept r ((err e, left), store') a = a

abbrev pub new_service : State
new_service = record { heap = []; table = []; closed = false; log = [] }

-- A step is one critical section, or what one caller does with the fields of an operation between
-- taking its gate and giving it back.
module _ (Identity : Type 0) where
  pub data Step : State × Store → State × Store → Type 0 where
    reserves :
        (def : ChaincodeDefinition) (initialized live still : Bool) (s : State) (store : Store)
        → Step (s, store) ((reserve def initialized live still s).1, store)
    locks :
        (p : ℕ) (live : Bool) (s : State) (store : Store) {o : Option Error} {t : State}
        → lock p live s ≡ some (o, t)
        → Step (s, store) (t, store)
    unlocks :
        (p : ℕ) (s : State) (store : Store) {t : State}
        → unlock p s ≡ some t
        → Step (s, store) (t, store)
    advances :
        (env : Environment) (wait : Bool) (p : ℕ) (s : State) (store : Store)
        → Step (s, store) ((advance env wait p s).1, store)
    finalizes :
        (srv : Server Identity) (env : Environment) (p : ℕ) (s : State) (store : Store)
        → Step (s, store) (finalize srv env p (s, store)).1
    removes : (p : ℕ) (s : State) (store : Store) → Step (s, store) (remove_operation p s, store)
    closes : (s : State) (store : Store) → Step (s, store) (record s { closed = true }, store)

  pub data Reach (s : State × Store) : State × Store → Type 0 where
    here : Reach s s
    after : {t u : State × Store} → Reach s t → Step t u → Reach s u

  Step-Advances : {a b : State × Store} → Step a b → Advances a.1 b.1
  Step-Advances (reserves def initialized live still s store) = Advances-IsOrder.same store
  Step-Advances (locks p live s store h) = Advances-IsOrder.same store
  Step-Advances (unlocks p s store h) = Advances-IsOrder.same store
  Step-Advances (advances env wait p s store) = Advances-IsOrder.same store
  Step-Advances (finalizes srv env p s store) = finalize-Advances srv env p s store
  Step-Advances (removes p s store) = Advances-IsOrder.same store
  Step-Advances (closes s store) = Advances-IsOrder.same store

  pub Reach-trans : {a b c : State × Store} → Reach a b → Reach b c → Reach a c
  Reach-trans r here = r
  Reach-trans r (after q step) = after (Reach-trans r q) step

  pub Reach-Advances : {a b : State × Store} → Reach a b → Advances a.1 b.1
  Reach-Advances {a} here = Advances-IsOrder.same a.1
  Reach-Advances {a} (after {t = t} {u = u} r step) =
      Advances-IsOrder.chain a.1 t.1 u.1 (Reach-Advances r) (Step-Advances step)
