-- ===== src/Orchestrator/Idempotency/Outcomes.antt =====
-- What the callers that hold a record see of it over time.
use fabric_x_chaincode_compa.Prelude.{
  ℕ, ◌≡◌, refl, subst, ◌∙◌, ap, ◌⊎◌, inl, inr, Bool, true, false, not, ◌||◌, Option, none, some,
  List, String, ◌==◌, arith, get_elem?, set, nat_eq, nat_eq→eq, get_elem?-set_self,
  get_elem?-set_ne, get_elem?-append_old, Bool-cases, Option-cases,
}
use fabric_x_chaincode_compa.Orchestrator.Idempotency.State.{
  ChaincodeEvent, submitted, completed, executed, InvocationResponse, Request, Store, write,
  new_request, begin, is_finished, is_submitted, mark_executed, mark_submission, complete,
  confirm_finality, ended, try_lock_finality,
}
use fabric_x_chaincode_compa.Lifecycle.Definition.{ChaincodeDefinition}
use fabric_x_chaincode_compa.Orchestrator.Idempotency.Invariant.{heap-remove}
use fabric_x_chaincode_compa.Orchestrator.Idempotency.Steps.{
  Step, begins, executes, submits, completes, confirms, locks, unlocks, Reach, here, next, unlocked,
  begin_store,
}

-- What a record keeps: its identity for ever, its submission until finality, its end for ever.
pub record Evolves (r t : Request) : Type 0 where
  pub key : t.key ≡ r.key
  pub digest : t.digest ≡ r.digest
  pub final :
      is_finished r.state ≡ true
      → (t.state ≡ r.state) × (t.response ≡ r.response) × (t.error ≡ r.error)
  pub sent :
      is_submitted r.state ≡ true
      → ((t.state ≡ completed)
          ⊎ ((is_submitted t.state ≡ true)
              × (t.response ≡ r.response)
              × (t.error ≡ r.error)
              × (t.event ≡ r.event)
              × (t.after_commit ≡ r.after_commit)))

pub Evolves-refl : (r : Request) → Evolves r r
Evolves-refl r = record {
  key = refl;
  digest = refl;
  final = λ h. (refl, refl, refl);
  sent = λ h. inr (h, refl, refl, refl, refl);
}

completed_stays : (r t : Request) → Evolves r t → r.state ≡ completed → t.state ≡ completed
completed_stays r t e h = ground (arith, e.final)

pub Evolves-trans : (r t u : Request) → Evolves r t → Evolves t u → Evolves r u
Evolves-trans r t u p q = record {
  key = q.key ∙ p.key;
  digest = q.digest ∙ p.digest;
  final = λ h. ground (arith, p.final, q.final);
  sent = λ h. elim (p.sent h) [
    | inl e ↦ inl (completed_stays t u q e)
    | inr (k, a, b, c, d) ↦ elim (q.sent k) [
      | inl e ↦ inl e
      | inr (k', a', b', c', d') ↦ inr (k', a' ∙ a, b' ∙ b, c' ∙ c, d' ∙ d)
    ]
  ];
}

-- The record that `p` points to is still there, and has evolved from `r`.
abbrev pub Persists : ℕ → Request → Store → Type 0
Persists p r t = (u : Request) × (get_elem? t.heap p ≡ some u) × Evolves r u

module _ (s : Store) (p : ℕ) (r : Request) (at : get_elem? s.heap p ≡ some r) where
  same-Persists : (t : Store) → t.heap ≡ s.heap → Persists p r t
  same-Persists t e = (r, ap (λ (h : List Request). get_elem? h p) e ∙ at, Evolves-refl r)

  write-Persists :
      (q : ℕ) (old new : Request) (t : Store)
      → get_elem? s.heap q ≡ some old
      → Evolves old new
      → t.heap ≡ set s.heap q new
      → Persists p r t
  write-Persists q old new t e ev h = elim (Bool-cases (nat_eq q p)) [
    | inl same ↦
        let is = nat_eq→eq q p same in
        let was : old ≡ r = ground arith in
        (
          new,
          rw h (
              subst (λ i. get_elem? (set s.heap q new) i ≡ some new) is
                (get_elem?-set_self s.heap q old new e)),
          subst (λ x. Evolves x new) was ev,
        )
    | inr other ↦
        (r, rw h (get_elem?-set_ne s.heap q p new (λ k. ground (arith, k)) ∙ at), Evolves-refl r)
  ]

-- A write to a record that was neither submitted nor finished, under its identity.
fresh-Evolves :
    (old new : Request)
    → (is_submitted old.state || is_finished old.state) ≡ false
    → new.key ≡ old.key
    → new.digest ≡ old.digest
    → Evolves old new
fresh-Evolves old new f k d = record {
  key = k;
  digest = d;
  final = λ h. absurd (ground arith);
  sent = λ h. absurd (ground arith);
}

confirmed-Evolves :
    (old new : Request)
    → is_submitted old.state ≡ true
    → new.key ≡ old.key
    → new.digest ≡ old.digest
    → new.state ≡ completed
    → Evolves old new
confirmed-Evolves old new f k d c = record {
  key = k;
  digest = d;
  final = λ h. absurd (ground arith);
  sent = λ h. inl c;
}

lock-Evolves : (old : Request) (b : Bool) → Evolves old (record old { finality_locked = b })
lock-Evolves old b = record {
  key = refl;
  digest = refl;
  final = λ h. (refl, refl, refl);
  sent = λ h. inr (h, refl, refl, refl, refl);
}

-- A step leaves the heap as it is, or writes one record in a way that it may evolve.
abbrev Changes : Store → Store → Type 0
Changes s t =
    (t.heap ≡ s.heap)
    ⊎ ((q : ℕ) × (old : Request) × (new : Request) × (get_elem? s.heap q ≡ some old)
        × Evolves old new
        × (t.heap ≡ set s.heap q new))

Changes-Persists :
    (s t : Store) (p : ℕ) (r : Request) → get_elem? s.heap p ≡ some r → Changes s t → Persists p r t
Changes-Persists s t p r at (inl e) = same-Persists s p r at t e
Changes-Persists s t p r at (inr (q, old, new, e, ev, h)) =
    write-Persists s p r at q old new t e ev h

module _ (s : Store) {t : Store} where
  submits-Changes :
      (p : Option ℕ) (response : InvocationResponse) (event : Option ChaincodeEvent)
      (after : Option ChaincodeDefinition) (submit_err : Option String) (now : ℕ)
      → mark_submission p response event after submit_err now s ≡ some t
      → Changes s t
  unfolding mark_submission
  submits-Changes none response event after submit_err now h = inl (ground arith)
  submits-Changes (some p) response event after submit_err now h =
      elim (Option-cases (get_elem? s.heap p)) [
        | inl e ↦ inl (ground arith)
        | inr (r, e) ↦ elim (Bool-cases (is_submitted r.state || is_finished r.state)) [
          | inl f ↦ inl (ground arith)
          | inr f ↦
              let new : Request = record r {
                response = record response { finality_pending = true };
                error = submit_err;
                event = event;
                after_commit = after;
                state = submitted;
                updated_at = now;
                submitted_closed = true;
              } in
              inr (p, r, new, e, fresh-Evolves r new f refl refl, ground arith)
        ]
      ]

  completes-Changes :
      (p : Option ℕ) (response : InvocationResponse) (error : Option String) (now : ℕ)
      → complete p response error now s ≡ some t
      → Changes s t
  unfolding complete
  completes-Changes none response error now h = inl (ground arith)
  completes-Changes (some p) response error now h = elim (Option-cases (get_elem? s.heap p)) [
    | inl e ↦ inl (ground arith)
    | inr (r, e) ↦ elim (Bool-cases (is_submitted r.state || is_finished r.state)) [
      | inl f ↦ inl (ground arith)
      | inr f ↦
          let new : Request = record r {
            response = response;
            error = error;
            state = ended error;
            updated_at = now;
            done_closed = true;
          } in
          inr (
            p,
            r,
            new,
            e,
            fresh-Evolves r new f refl refl,
            ground (arith, heap-remove p r.key (write p new s)),
          )
    ]
  ]

  confirms-Changes :
      (p : Option ℕ) (response : InvocationResponse) (error : Option String) (now : ℕ)
      → confirm_finality p response error now s ≡ some t
      → Changes s t
  unfolding confirm_finality
  confirms-Changes none response error now h = inl (ground arith)
  confirms-Changes (some p) response error now h = elim (Option-cases (get_elem? s.heap p)) [
    | inl e ↦ inl (ground arith)
    | inr (r, e) ↦ elim (Bool-cases (not (is_submitted r.state) || response.commit_status == "")) [
      | inl f ↦ inl (ground arith)
      | inr f ↦
          let new : Request = record r {
            response = record response { finality_pending = false };
            error = error;
            state = completed;
            updated_at = now;
            after_commit = none;
            event = none;
            done_closed = true;
          } in
          inr (
            p,
            r,
            new,
            e,
            confirmed-Evolves r new (ground arith) refl refl refl,
            ground (arith, heap-remove p r.key (write p new s)),
          )
    ]
  ]

executed_heap :
    (s : Store) (q : ℕ) (old : Request) (tx_id : String) (now : ℕ)
    → get_elem? s.heap q ≡ some old
    → (mark_executed (some q) tx_id now s).heap
      ≡ set s.heap q (record old { helper_tx_id = tx_id; state = executed; updated_at = now })
unfolding mark_executed
executed_heap s q old tx_id now e = ground arith

locked-Changes : (s : Store) (q : ℕ) → Changes s (try_lock_finality q s).1
unfolding try_lock_finality
locked-Changes s q = elim (Option-cases (get_elem? s.heap q)) [
  | inl e ↦ inl (ground arith)
  | inr (r, e) ↦ elim (Bool-cases r.finality_locked) [
    | inl f ↦ inl (ground arith)
    | inr f ↦ inr (q, r, record r { finality_locked = true }, e, lock-Evolves r true, ground arith)
  ]
]

Step-Persists :
    {s t : Store} → Step s t → (p : ℕ) (r : Request) → get_elem? s.heap p ≡ some r → Persists p r t
Step-Persists {s} (begins key digest now) p r at = elim (begin_store s key digest now) [
  | inl e ↦ same-Persists s p r at (begin key digest now s).1 (ap (λ (x : Store). x.heap) e)
  | inr e ↦ (
    r,
    ap (λ (x : Store). get_elem? x.heap p) e
        ∙ get_elem?-append_old s.heap (new_request key digest now) r p at,
    Evolves-refl r,
  )
]
Step-Persists {s} (executes q old tx_id now e f) p r at =
    let new : Request = record old { helper_tx_id = tx_id; state = executed; updated_at = now } in
    write-Persists s p r at q old new (mark_executed (some q) tx_id now s) e
      (fresh-Evolves old new f refl refl) (executed_heap s q old tx_id now e)
Step-Persists {s} {t} (submits q response event after submit_err now h) p r at =
    Changes-Persists s t p r at (submits-Changes s q response event after submit_err now h)
Step-Persists {s} {t} (completes q response error now h) p r at =
    Changes-Persists s t p r at (completes-Changes s q response error now h)
Step-Persists {s} {t} (confirms q response error now h) p r at =
    Changes-Persists s t p r at (confirms-Changes s q response error now h)
Step-Persists {s} (locks q) p r at =
    Changes-Persists s (try_lock_finality q s).1 p r at (locked-Changes s q)
Step-Persists {s} {t} (unlocks q h) p r at =
    let (old, e, is) = unlocked s q h in
    write-Persists s p r at q old (record old { finality_locked = false }) t e
      (lock-Evolves old false) (ap (λ (x : Store). x.heap) is)

-- Along any steps a record stays where its holders found it. Its key and digest never change. Once
-- it is submitted, its response, error, event and callback stay until it is completed; once it is
-- finished, its state, response and error stay for ever.
pub Reach-Persists :
    {s t : Store} (p : ℕ) (r : Request) → get_elem? s.heap p ≡ some r → Reach s t → Persists p r t
Reach-Persists p r at here = (r, at, Evolves-refl r)
Reach-Persists p r at (next path st) =
    let (u, e, ev) = Reach-Persists p r at path in
    let (w, e', ev') = Step-Persists st p u e in (w, e', Evolves-trans r u w ev ev')
