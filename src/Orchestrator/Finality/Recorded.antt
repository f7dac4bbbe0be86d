-- ===== src/Orchestrator/Finality/Recorded.antt =====
-- What the passes over pending invocations do to the records.
use fabric_x_chaincode_compa.Prelude.{
  ℕ, ◌≡◌, refl, sym, subst, ◌∙◌, ap, inl, inr, true, false, Option, none, some, List, String, ◌==◌,
  arith, get_elem?, set, nat_eq, nat_eq→eq, get_elem?-set_self, get_elem?-set_ne, Bool-cases,
  Option-cases,
}
use fabric_x_chaincode_compa.Orchestrator.Idempotency.State.{
  SubmittedInvocation, Request, Store, completed, is_submitted, write, pending, try_lock_finality,
  unlock_finality, confirm_finality,
}
use fabric_x_chaincode_compa.Orchestrator.Idempotency.Invariant.{IsValid, heap-remove}
use fabric_x_chaincode_compa.Orchestrator.Idempotency.Steps.{
  Step-IsValid, locks, unlocks, confirms, unlocked,
}
use fabric_x_chaincode_compa.Orchestrator.Finality.Status.{StatusCodes, TxStatus, IsFinal}
use fabric_x_chaincode_compa.Orchestrator.Finality.Record.{finished_response}

abbrev pub invocation : Request → SubmittedInvocation
invocation r = record { response = r.response; event = r.event; after_commit = r.after_commit }

-- `heard` are the statuses that the pass was told.
module _ (codes : StatusCodes) (heard : TxStatus → Type 0) where
  -- A record only has its finality lock changed; or it was pending, the pass was told a final status
  -- of exactly its transaction, and it is completed with the response that this status makes.
  pub data Moves (r u : Request) : Type 0 where
    kept : u ≡ record r { finality_locked = u.finality_locked } → Moves r u
    settled :
        (st : TxStatus)
        → is_submitted r.state ≡ true
        → heard st
        → IsFinal codes r.response.tx_id st
        → u.state ≡ completed
        → u.response ≡ finished_response codes (invocation r) st
        → Moves r u

  Moves-trans : (r u w : Request) → Moves r u → Moves u w → Moves r w
  Moves-trans r u w (kept e) (kept f) =
      kept (f ∙ ap (λ (x : Request). record x { finality_locked = w.finality_locked }) e)
  Moves-trans r u w (kept e) (settled st h told final done response) =
      settled st (ap (λ (x : Request). is_submitted x.state) (sym e) ∙ h) told
        (subst (λ (x : Request). IsFinal codes x.response.tx_id st) e final) done
        (response ∙ ap (λ (x : Request). finished_response codes (invocation x) st) e)
  Moves-trans r u w (settled st h told final done response) (kept f) =
      settled st h told final (ap (λ (x : Request). x.state) f ∙ done)
        (ap (λ (x : Request). x.response) f ∙ response)
  Moves-trans r u w (settled st h told final done response)
        (settled st' h' told' final' done' response') =
      absurd (ground arith)

  -- What the passes do, one thing after another.
  pub data Observes (s : Store) : Store → Type 0 where
    locking : (p : ℕ) → Observes s (try_lock_finality p s).1
    unlocking : (p : ℕ) {t : Store} → unlock_finality p s ≡ some t → Observes s t
    finalising :
        (p : ℕ) (inv : SubmittedInvocation) (st : TxStatus) (error : Option String) (now : ℕ)
        {t : Store}
        → pending (some p) s ≡ some inv
        → heard st
        → IsFinal codes inv.response.tx_id st
        → confirm_finality (some p) (finished_response codes inv st) error now s ≡ some t
        → Observes s t

  pub data Observations (s : Store) : Store → Type 0 where
    nothing : Observations s s
    also : {t u : Store} → Observations s t → Observes t u → Observations s u

  pub Observations-trans : {s t u : Store} → Observations s t → Observations t u → Observations s u
  Observations-trans a nothing = a
  Observations-trans a (also b o) = also (Observations-trans a b) o

  Observes-IsValid : {s t : Store} → Observes s t → IsValid s → IsValid t
  Observes-IsValid (locking p) v = Step-IsValid (locks p) v
  Observes-IsValid (unlocking p h) v = Step-IsValid (unlocks p h) v
  Observes-IsValid (finalising p inv st error now e told f h) v =
      Step-IsValid (confirms (some p) (finished_response codes inv st) error now h) v

  pub Observations-IsValid : {s t : Store} → Observations s t → IsValid s → IsValid t
  Observations-IsValid nothing v = v
  Observations-IsValid (also a o) v = Observes-IsValid o (Observations-IsValid a v)

  -- The record at `p` is still there, and has moved from `r`.
  abbrev pub MovesAt : ℕ → Request → Store → Type 0
  MovesAt p r t = (u : Request) × (get_elem? t.heap p ≡ some u) × Moves r u

  module _ (s : Store) (p : ℕ) (r : Request) (at : get_elem? s.heap p ≡ some r) where
    same-Moves : (t : Store) → t.heap ≡ s.heap → MovesAt p r t
    same-Moves t e = (r, ap (λ (h : List Request). get_elem? h p) e ∙ at, kept refl)

    write-Moves :
        (q : ℕ) (old new : Request) (t : Store)
        → get_elem? s.heap q ≡ some old
        → Moves old new
        → t.heap ≡ set s.heap q new
        → MovesAt p r t
    write-Moves q old new t e m h = elim (Bool-cases (nat_eq q p)) [
      | inl same ↦
          let is = nat_eq→eq q p same in
          let was : old ≡ r = ground arith in
          (
            new,
            rw h (
                subst (λ i. get_elem? (set s.heap q new) i ≡ some new) is
                  (get_elem?-set_self s.heap q old new e)),
            subst (λ x. Moves x new) was m,
          )
      | inr other ↦
          (r, rw h (get_elem?-set_ne s.heap q p new (λ k. ground (arith, k)) ∙ at), kept refl)
    ]

  locked-Moves :
      (s : Store) (p : ℕ) (r : Request) (q : ℕ)
      → get_elem? s.heap p ≡ some r
      → MovesAt p r (try_lock_finality q s).1
  unfolding try_lock_finality
  locked-Moves s p r q at = elim (Option-cases (get_elem? s.heap q)) [
    | inl e ↦ same-Moves s p r at (try_lock_finality q s).1 (rw (e, try_lock_finality) refl)
    | inr (old, e) ↦ elim (Bool-cases old.finality_locked) [
      | inl b ↦
          same-Moves s p r at (try_lock_finality q s).1 (rw (e, try_lock_finality) (rw b refl))
      | inr b ↦
          write-Moves s p r at q old (record old { finality_locked = true })
            (try_lock_finality q s).1 e (kept refl) (rw (e, try_lock_finality) (rw b refl))
    ]
  ]

  finalised-Moves :
      (s : Store) (p : ℕ) (r : Request) (q : ℕ) (inv : SubmittedInvocation) (st : TxStatus)
      (error : Option String) (now : ℕ) {t : Store}
      → get_elem? s.heap p ≡ some r
      → pending (some q) s ≡ some inv
      → heard st
      → IsFinal codes inv.response.tx_id st
      → confirm_finality (some q) (finished_response codes inv st) error now s ≡ some t
      → MovesAt p r t
  unfolding pending confirm_finality
  finalised-Moves s p r q inv st error now {t} at e told final h =
      elim (Option-cases (get_elem? s.heap q)) [
        | inl n ↦ absurd (ground arith)
        | inr (old, k) ↦ elim (Bool-cases (is_submitted old.state)) [
          | inr b ↦ absurd (ground arith)
          | inl b ↦ elim (Bool-cases (codes.text st.status == "")) [
            | inl blank ↦ same-Moves s p r at t (ground arith)
            | inr some_text ↦ elim (Bool-cases old.done_closed) [
              | inl closed ↦ absurd (ground arith)
              | inr still ↦
                  let is : invocation old ≡ inv = ground arith in
                  let new : Request = record old {
                    response = finished_response codes inv st;
                    error = error;
                    state = completed;
                    updated_at = now;
                    after_commit = none;
                    event = none;
                    done_closed = true;
                  } in
                  write-Moves s p r at q old new t k
                    (settled st b told
                      (subst (λ (x : SubmittedInvocation). IsFinal codes x.response.tx_id st)
                        (sym is) final)
                      refl
                      (ap (λ (x : SubmittedInvocation). finished_response codes x st) (sym is)))
                    (ground (arith, heap-remove q old.key (write q new s)))
            ]
          ]
        ]
      ]

  Observes-Moves :
      {s t : Store} (p : ℕ) (r : Request)
      → Observes s t
      → get_elem? s.heap p ≡ some r
      → MovesAt p r t
  Observes-Moves {s} p r (locking q) at = locked-Moves s p r q at
  Observes-Moves {s} {t} p r (unlocking q h) at =
      let (old, e, is) = unlocked s q h in
      write-Moves s p r at q old (record old { finality_locked = false }) t e (kept refl)
        (ap (λ (x : Store). x.heap) is)
  Observes-Moves {s} p r (finalising q inv st error now e told final h) at =
      finalised-Moves s p r q inv st error now at e told final h

  pub Observations-Moves :
      {s t : Store} (p : ℕ) (r : Request)
      → Observations s t
      → get_elem? s.heap p ≡ some r
      → MovesAt p r t
  Observations-Moves p r nothing at = (r, at, kept refl)
  Observations-Moves p r (also a o) at =
      let (u, e, m) = Observations-Moves p r a at in
      let (w, f, n) = Observes-Moves p u o e in (w, f, Moves-trans r u w m n)
