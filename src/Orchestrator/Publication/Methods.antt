-- ===== src/Orchestrator/Publication/Methods.antt =====
-- The methods on pending lifecycle operations are sequences of the steps.
use fabric_x_chaincode_compa.Prelude.{
  ℕ, ◌≡◌, refl, subst, inl, inr, Bool, true, false, Option, none, some, List, [], ◌∷◌, String,
  arith, Option-cases,
}
use fabric_x_chaincode_compa.Prelude.Exec.{Result, ok, err}
use fabric_x_chaincode_compa.Lifecycle.Definition.{ChaincodeDefinition}
use fabric_x_chaincode_compa.Lifecycle.Store.State.{Store}
use fabric_x_chaincode_compa.Lifecycle.Server.State.{Server}
use fabric_x_chaincode_compa.Orchestrator.Publication.Pending.{State, Error, reserve, lock, unlock}
use fabric_x_chaincode_compa.Orchestrator.Publication.Advance.{Environment}
use fabric_x_chaincode_compa.Orchestrator.Publication.Finalize.{
  finalize, reconcile_pending, unlocked, lock_result, obtain, lifecycle_operation,
  finalize_obtained, submit_lifecycle_definition, FinalizeResult, finalize_lifecycle_definition,
}
use fabric_x_chaincode_compa.Orchestrator.Publication.Steps.{
  Step, reserves, locks, unlocks, finalizes, Reach, here, after, Reach-trans,
}

module _ (Identity : Type 0) where
  abbrev Leads : State × Store → State × Store → Type 0
  Leads a b = Reach Identity a b

  one : {a b : State × Store} → Step Identity a b → Leads a b
  one s = after here s

  two : {a b c : State × Store} → Step Identity a b → Step Identity b c → Leads a c
  two s t = after (after here s) t

  unlocked-Reach : (p : ℕ) (s : State) (store : Store) → Leads (s, store) (unlocked p s, store)
  unlocked-Reach p s store = elim (Option-cases (unlock p s)) [
    | inl e ↦ rw (e, unlocked) here
    | inr (t, e) ↦ rw (e, unlocked) (one (unlocks p s store e))
  ]

  moved :
      {a : State × Store} {t u : State} (store : Store)
      → t ≡ u
      → Leads a (t, store)
      → Leads a (u, store)
  moved {a} store e r = subst (λ x. Leads a (x, store)) e r

  obtain-Reach :
      (x : Result Error (ℕ × Bool)) (lockable : Bool) (s : State) (store : Store)
      {r : Result Error ℕ} {t : State}
      → obtain x lockable s ≡ some (r, t)
      → Leads (s, store) (t, store)
  unfolding obtain
  obtain-Reach (err e) lockable s store h =
      subst (λ x. Leads (s, store) (x, store)) (ground arith) here
  obtain-Reach (ok (p, true)) lockable s store h =
      subst (λ x. Leads (s, store) (x, store)) (ground arith) here
  obtain-Reach (ok (p, false)) lockable s store {r} {t} h = go (lock p lockable s) refl h
    where
      go :
          (o : Option (Option Error × State))
          → lock p lockable s ≡ o
          → lock_result p o ≡ some (r, t)
          → Leads (s, store) (t, store)
      go none e k = cc
      go (some (some x, u)) e k = moved store (ground arith) (one (locks p lockable s store e))
      go (some (none, u)) e k = moved store (ground arith) (one (locks p lockable s store e))

  lifecycle_operation-Reach :
      (def : ChaincodeDefinition) (initialized live still lockable : Bool) (s : State)
      (store : Store) {r : Result Error ℕ} {t : State}
      → lifecycle_operation def initialized live still lockable s ≡ some (r, t)
      → Leads (s, store) (t, store)
  unfolding lifecycle_operation
  lifecycle_operation-Reach def initialized live still lockable s store h =
      Reach-trans Identity (one (reserves def initialized live still s store)) (
        obtain-Reach (reserve def initialized live still s).0 lockable
          (reserve def initialized live still s).1 store h)

module _ {Identity : Type 0} (srv : Server Identity) where
  finalize_obtained-Reach :
      (env : Environment) (o : Option (Result Error ℕ × State)) (s : State) (store : Store)
      → ((r : Result Error ℕ) (u : State) → o ≡ some (r, u) → Leads Identity (s, store) (u, store))
      → {r : FinalizeResult} {b : State × Store} → finalize_obtained srv env o store ≡ some (r, b)
      → Leads Identity (s, store) b
  unfolding finalize_obtained
  finalize_obtained-Reach env none s store before k = cc
  finalize_obtained-Reach env (some (err x, u)) s store before k =
      subst (Leads Identity (s, store)) (ground arith) (before (err x) u refl)
  finalize_obtained-Reach env (some (ok p, u)) s store before k =
      subst (Leads Identity (s, store)) (ground arith) (
        Reach-trans Identity (after (before (ok p) u refl) (finalizes srv env p u store)) (
          unlocked-Reach Identity p (finalize srv env p (u, store)).1.0
            (finalize srv env p (u, store)).1.1))

  pub finalize_lifecycle_definition-Reach :
      (env : Environment) (def : ChaincodeDefinition) (initialized live still lockable : Bool)
      (s : State) (store : Store) {r : FinalizeResult} {b : State × Store}
      → finalize_lifecycle_definition srv env def initialized live still lockable (s, store)
        ≡ some (r, b)
      → Leads Identity (s, store) b
  unfolding finalize_lifecycle_definition
  finalize_lifecycle_definition-Reach env def initialized live still lockable s store =
      finalize_obtained-Reach env _ s store
        (λ r u e. lifecycle_operation-Reach Identity def initialized live still lockable s store e)

-- The calls of the methods on pending operations, one after another; a call that waits for a gate
-- has done nothing yet.
pub data Call (Identity : Type 0) : Type 0 where
  submits : Environment → ChaincodeDefinition → String → Bool → Bool → Bool → Call Identity
  finishes :
      Server Identity
      → Environment
      → ChaincodeDefinition
      → Bool
      → Bool
      → Bool
      → Bool
      → Call Identity
  reconciles : Server Identity → (ℕ → Environment) → List ℕ → ℕ → Call Identity

module _ {Identity : Type 0} where
  unfoldable pub answer : State × Store → Call Identity → State × Store
  unfolding submit_lifecycle_definition finalize_lifecycle_definition reconcile_pending
  answer (s, store) (submits env def event live still lockable) =
      elim (submit_lifecycle_definition env def event live still lockable s) [
        | none ↦ (s, store)
        | some (r, t) ↦ (t, store)
      ]
  answer a (finishes srv env def initialized live still lockable) =
      elim (finalize_lifecycle_definition srv env def initialized live still lockable a) [
        | none ↦ a
        | some (r, b) ↦ b
      ]
  answer a (reconciles srv env order live) = reconcile_pending srv env order live a

  unfoldable pub run : State × Store → List (Call Identity) → State × Store
  unfolding answer
  run a [] = a
  run a (c ∷ cs) = run (answer a c) cs
