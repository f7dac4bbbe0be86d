-- ===== src/Orchestrator/Publication/Sending.antt =====
-- An operation never sends a second transaction while the outcome of the first is not known.
use fabric_x_chaincode_compa.Prelude.{
  ℕ, ◌≡◌, refl, sym, subst, ◌∙◌, ap, ◌⊎◌, inl, inr, Bool, true, false, Option, none, some, List, [],
  ◌∷◌, ◌++◌, String, ◌==◌, arith, get_elem?, nat_eq, nat_eq→eq, nat_eq_refl, Bool-cases,
  Option-cases, if◌then◌else◌, get_elem?-set_self, get_elem?-set_ne, get_elem?-append_old,
}
use fabric_x_chaincode_compa.Prelude.Int.{eqb_ℤ}
use fabric_x_chaincode_compa.Prelude.Exec.{Result-cases}
use fabric_x_chaincode_compa.Lifecycle.Server.State.{no_result}
use fabric_x_chaincode_compa.Orchestrator.Finality.Status.{
  StatusCodes, TxStatus, Subscription, absent, failed_to_open, waiting, is_final_status,
  query_transaction_status, subscribe_finality, wait_status,
}
use fabric_x_chaincode_compa.Orchestrator.Finality.Submitter.{SubmitError, submit, is_uncertain}
use fabric_x_chaincode_compa.Orchestrator.Publication.Preparation.{
  is_initialized_event, prepare_lifecycle_transaction,
}
use fabric_x_chaincode_compa.Orchestrator.Publication.Pending.{
  PendingLifecycle, State, Event, sent, rejected, write, remove_operation,
}
use fabric_x_chaincode_compa.Orchestrator.Publication.Advance.{
  Environment, logged, observe, await, deliver, delivered, handed, deliver_subscribed, send, start,
  check_again, advance, with_tx, is_superseded,
}

-- The transaction of the operation that was sent and was not seen to be rejected since.
unfoldable pub outstanding : ℕ → List Event → Option String
outstanding p [] = none
outstanding p (sent q tx ∷ log) =
    let before = outstanding p log in if nat_eq q p then some tx else before
outstanding p (rejected q tx ∷ log) =
    let before = outstanding p log in if nat_eq q p then none else before

-- At each send, the operation that sends has no transaction outstanding.
abbrev pub Alternates : List Event → Type 0
Alternates [] = Unit
Alternates (sent q tx ∷ log) = (outstanding q log ≡ none) × Alternates log
Alternates (rejected q tx ∷ log) = Alternates log

-- The operation keeps the ID of the transaction that is outstanding.
abbrev pub Remembers : State → ℕ → String → Type 0
Remembers s p tx =
    (r : PendingLifecycle) × (get_elem? s.heap p ≡ some r)
    × (r.result.tx_id ≡ tx)
    × ((tx == "") ≡ false)

pub record IsSound (s : State) : Type 0 where
  pub saved : (p : ℕ) (tx : String) → outstanding p s.log ≡ some tx → Remembers s p tx
  pub alternates : Alternates s.log

outstanding_sent_ne :
    (p q : ℕ) (tx : String) (log : List Event)
    → nat_eq q p ≡ false
    → outstanding p (sent q tx ∷ log) ≡ outstanding p log
unfolding outstanding
outstanding_sent_ne p q tx log h = ground arith

outstanding_sent_self :
    (p q : ℕ) (tx : String) (log : List Event)
    → nat_eq q p ≡ true
    → outstanding p (sent q tx ∷ log) ≡ some tx
unfolding outstanding
outstanding_sent_self p q tx log h = ground arith

outstanding_rejected :
    (p q : ℕ) (tx x : String) (log : List Event)
    → outstanding p (rejected q tx ∷ log) ≡ some x
    → outstanding p log ≡ some x
unfolding outstanding
outstanding_rejected p q tx x log h = ground arith

outstanding_rejected_self :
    (p : ℕ) (tx : String) (log : List Event) → outstanding p (rejected p tx ∷ log) ≡ none
unfolding outstanding
outstanding_rejected_self p tx log = ground (arith, nat_eq_refl p)

module _ (s : State) (sound : IsSound s) where
  -- a state with the same operations and log
  pub same_IsSound : (t : State) → t.heap ≡ s.heap → t.log ≡ s.log → IsSound t
  same_IsSound t h l = record {
    saved = λ p tx e.
        let (r, at, is, n) = sound.saved p tx (subst (λ x. outstanding p x ≡ some tx) l e) in
        (r, subst (λ x. get_elem? x p ≡ some r) (sym h) at, is, n);
    alternates = subst Alternates (sym l) sound.alternates;
  }

  pub write-IsSound :
      (p : ℕ) (r new : PendingLifecycle)
      → get_elem? s.heap p ≡ some r
      → (new.result.tx_id ≡ r.result.tx_id) ⊎ (outstanding p s.log ≡ none)
      → IsSound (write p new s)
  write-IsSound p r new at keeps = record {
    saved = λ q tx e. elim (Bool-cases (nat_eq p q)) [
      | inl b ↦
          let same = nat_eq→eq p q b in
          let e' : outstanding p s.log ≡ some tx =
            subst (λ x. outstanding x s.log ≡ some tx) (sym same) e in
          let (r', at', is, n) = sound.saved p tx e' in
          subst (λ x. Remembers (write p new s) x tx) same
            (
              new,
              get_elem?-set_self s.heap p r new at,
              elim keeps [
                | inl k ↦ k ∙ ground (arith, at, at', is)
                | inr k ↦ absurd (ground arith)
              ],
              n,
            )
      | inr b ↦
          let (r', at', is, n) = sound.saved q tx e in
          (r', get_elem?-set_ne s.heap p q new (λ x. ground (arith, nat_eq_refl p)) ∙ at', is, n)
    ];
    alternates = sound.alternates;
  }

  sent_IsSound :
      (p : ℕ) (r : PendingLifecycle)
      → get_elem? s.heap p ≡ some r
      → (r.result.tx_id == "") ≡ false
      → outstanding p s.log ≡ none
      → IsSound (logged (sent p r.result.tx_id) s)
  sent_IsSound p r at n free = record {
    saved = λ q tx e. elim (Bool-cases (nat_eq p q)) [
      | inl b ↦
          let is : r.result.tx_id ≡ tx =
            ground (arith, outstanding_sent_self q p r.result.tx_id s.log b) in
          (
            r,
            subst (λ x. get_elem? s.heap x ≡ some r) (nat_eq→eq p q b) at,
            is,
            subst (λ x. (x == "") ≡ false) is n,
          )
      | inr b ↦ sound.saved q tx (sym (outstanding_sent_ne q p r.result.tx_id s.log b) ∙ e)
    ];
    alternates = (free, sound.alternates);
  }

  rejected_IsSound : (p : ℕ) (tx : String) → IsSound (logged (rejected p tx) s)
  rejected_IsSound p tx = record {
    saved = λ q x e. sound.saved q x (outstanding_rejected q p tx x s.log e);
    alternates = sound.alternates;
  }

  none-outstanding :
      (p : ℕ) (r : PendingLifecycle)
      → get_elem? s.heap p ≡ some r
      → (r.result.tx_id == "") ≡ true
      → outstanding p s.log ≡ none
  none-outstanding p r at e = elim (Option-cases (outstanding p s.log)) [
    | inl n ↦ n
    | inr (tx, o) ↦
        let (r', at', is, n) = sound.saved p tx o in
        let same : r ≡ r' = ground arith in absurd (ground (arith, ap (λ x. x.result.tx_id) same))
  ]

  pub append_IsSound :
      (new : PendingLifecycle) (t : State) → t.heap ≡ s.heap ++ new ∷ [] → t.log ≡ s.log → IsSound t
  append_IsSound new t h l = record {
    saved = λ p tx e.
        let (r, at, is, n) = sound.saved p tx (subst (λ x. outstanding p x ≡ some tx) l e) in
        (
          r,
          subst (λ x. get_elem? x p ≡ some r) (sym h) (get_elem?-append_old s.heap new r p at),
          is,
          n,
        );
    alternates = subst Alternates (sym l) sound.alternates;
  }

remove_heap :
    (p : ℕ) (s : State)
    → ((remove_operation p s).heap ≡ s.heap) × ((remove_operation p s).log ≡ s.log)
unfolding remove_operation
remove_heap p s = (ground arith, ground arith)

pub remove_IsSound : (p : ℕ) (s : State) → IsSound s → IsSound (remove_operation p s)
remove_IsSound p s v = same_IsSound s v _ (remove_heap p s).0 (remove_heap p s).1

-- Each part of `advanceLifecycleTransaction` keeps it, for the operation `r` at `p`.
module _ (p : ℕ) (r : PendingLifecycle) where
  abbrev IsAt : State → Type 0
  IsAt s = get_elem? s.heap p ≡ some r

  observe-IsSound :
      (codes : StatusCodes) (st : TxStatus) (s : State)
      → IsSound s
      → IsAt s
      → IsSound (observe codes p r st s).1
  unfolding observe
  observe-IsSound codes st s v at = elim (Bool-cases (eqb_ℤ st.status codes.committed)) [
    | inl b ↦ rw (b, observe) (write-IsSound s v p r _ at (inl refl))
    | inr b ↦ elim (Bool-cases (is_initialized_event r.operation.event)) [
      | inl i ↦
          rw (b, observe)
            (rw i (
              write-IsSound (logged (rejected p r.result.tx_id) s)
                (rejected_IsSound s v p r.result.tx_id) p r (record r { result = no_result }) at
                (inr (outstanding_rejected_self p r.result.tx_id s.log))))
      | inr i ↦
          rw (b, observe)
            (rw i (rejected_IsSound (remove_operation p s) (remove_IsSound p s v) p r.result.tx_id))
    ]
  ]

  await-IsSound :
      (env : Environment) (wait : Bool) (subscription : Subscription) (s : State)
      → IsSound s
      → IsAt s
      → IsSound (await env wait p r subscription s).1
  unfolding await
  await-IsSound env wait absent s v at = v
  await-IsSound env wait failed_to_open s v at = v
  await-IsSound env false (waiting responses) s v at = v
  await-IsSound env true (waiting responses) s v at =
      elim (Option-cases (wait_status r.result.tx_id (waiting responses))) [
        | inl e ↦ rw (e, await) v
        | inr (st, e) ↦ elim (Bool-cases (is_final_status env.codes r.result.tx_id (some st))) [
          | inl b ↦ rw (e, await) (rw b (observe-IsSound env.codes st s v at))
          | inr b ↦ rw (e, await) (rw b v)
        ]
      ]

  deliver-IsSound :
      (env : Environment) (wait : Bool) (subscription : Subscription) (s : State)
      → IsSound s
      → IsAt s
      → (r.result.tx_id == "") ≡ false
      → outstanding p s.log ≡ none
      → IsSound (deliver env wait p r subscription s).1
  unfolding deliver delivered handed
  deliver-IsSound env wait subscription s v at n free = go (submit (env.attempt r.result.tx_id))
    where
      go :
          (o : Option SubmitError)
          → IsSound (delivered env wait p r subscription o (handed p r.result.tx_id o s)).1
      go none =
          await-IsSound env wait subscription (logged (sent p r.result.tx_id) s)
            (sent_IsSound s v p r at n free) at
      go (some e) = elim (Bool-cases (is_uncertain e)) [
        | inl b ↦ rw b (sent_IsSound s v p r at n free)
        | inr b ↦ rw b (write-IsSound s v p r _ at (inr free))
      ]

module _ (p : ℕ) (r : PendingLifecycle) (s : State) (v : IsSound s)
    (at : get_elem? s.heap p ≡ some r) where
  send-IsSound :
      (env : Environment) (wait : Bool) (tx : String)
      → outstanding p s.log ≡ none
      → IsSound (send env wait p r tx s).1
  unfolding send deliver_subscribed
  send-IsSound env wait tx free = elim (Bool-cases (tx == "")) [
    | inl b ↦ rw (b, send) (write-IsSound s v p r _ at (inr free))
    | inr b ↦ elim (Bool-cases wait) [
      | inr w ↦ rw (b, send) (rw w (delivered false absent b))
      | inl w ↦ rw (b, send) (rw w (subscribed b (subscribe_finality env.notifier tx)))
    ]
  ]
    where
      saved : PendingLifecycle
      saved = record r { result = with_tx env r tx }

      delivered :
          (w : Bool) (subscription : Subscription)
          → (tx == "") ≡ false
          → IsSound (deliver env w p saved subscription (write p saved s)).1
      delivered w subscription n =
          deliver-IsSound p saved env w subscription (write p saved s)
            (write-IsSound s v p r saved at (inr free)) (get_elem?-set_self s.heap p r saved at) n
            free

      subscribed :
          (tx == "") ≡ false → (x : Subscription) → IsSound (deliver_subscribed env p saved x s).1
      subscribed n absent = delivered true absent n
      subscribed n failed_to_open = write-IsSound s v p r _ at (inr free)
      subscribed n (waiting responses) = delivered true (waiting responses) n

  start-IsSound :
      (env : Environment) (wait : Bool)
      → (r.result.tx_id == "") ≡ true
      → IsSound (start env wait p r s).1
  unfolding start
  start-IsSound env wait n =
      elim (Result-cases
        (prepare_lifecycle_transaction env.ledger env.endorse r.definition r.operation.event)) [
          | inl (e, k) ↦ rw (k, start) (either (is_superseded e))
          | inr (tx, k) ↦ rw (k, start) (send-IsSound env wait tx (none-outstanding s v p r at n))
        ]
    where
      either : (b : Bool) → IsSound (if b then remove_operation p s else s)
      either true = remove_IsSound p s v
      either false = v

  check_again-IsSound : (env : Environment) → IsSound (check_again env p r s).1
  unfolding check_again
  check_again-IsSound env =
      elim (Option-cases (query_transaction_status env.codes env.query r.result.tx_id)) [
        | inl e ↦ rw (e, check_again) v
        | inr (o, e) ↦ elim (Option-cases o) [
          | inl n ↦ rw (e, check_again) (rw n v)
          | inr (st, k) ↦ rw (e, check_again) (rw k (observe-IsSound p r env.codes st s v at))
        ]
      ]

pub advance-IsSound :
    (env : Environment) (wait : Bool) (p : ℕ) (s : State)
    → IsSound s
    → IsSound (advance env wait p s).1
unfolding advance
advance-IsSound env wait p s v = elim (Option-cases (get_elem? s.heap p)) [
  | inl e ↦ rw (e, advance) v
  | inr (r, e) ↦ elim (Bool-cases (r.result.status == env.codes.text env.codes.committed)) [
    | inl b ↦ rw (e, advance) (rw b v)
    | inr b ↦ elim (Bool-cases (r.result.tx_id == "")) [
      | inl n ↦ rw (e, advance) (rw (b, n) (start-IsSound p r s v e env wait n))
      | inr n ↦ rw (e, advance) (rw (b, n) (check_again-IsSound p r s v e env))
    ]
  ]
]
