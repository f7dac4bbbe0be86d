-- ===== src/Orchestrator/Idempotency/Recovery.antt =====
-- The bounded recovery pass: which records it takes.
use fabric_x_chaincode_compa.Prelude.{
  ℕ, suc, ◌+◌, ◌≤◌, ◌<◌, ◌≡◌, refl, sym, ◌∙◌, ap, Bool, true, false, ◌&&◌, leb, nat_eq, inl, inr,
  Option, ◌⊎◌, ◌∈◌, none, some, List, [], ◌∷◌, String, arith, length, get_elem?, All, Option-cases,
  Bool-cases, if◌then◌else◌,
}
use fabric_x_chaincode_compa.Orchestrator.Idempotency.State.{
  Request, Store, is_due, is_submitted, submitted, pending_from, pending_records_before,
}
use fabric_x_chaincode_compa.Orchestrator.Idempotency.State

-- The record that `p` points to is submitted, and was not updated after the cutoff, if there is one.
pub record Submitted (cutoff : Option ℕ) (s : Store) (p : ℕ) : Type 0 where
  pub request : Request
  pub at : get_elem? s.heap p ≡ some request
  pub is_sent : request.state ≡ submitted
  pub old : (c : ℕ) → cutoff ≡ some c → request.updated_at ≤ c

state_submitted : (x : State.State) → is_submitted x ≡ true → x ≡ submitted
state_submitted State.in_progress h = absurd (ground arith)
state_submitted State.executed h = absurd (ground arith)
state_submitted State.submitted h = refl
state_submitted State.completed h = absurd (ground arith)
state_submitted State.failed h = absurd (ground arith)

due-Submitted :
    (cutoff : Option ℕ) (s : Store) (p : ℕ) (r : Request)
    → get_elem? s.heap p ≡ some r
    → is_due cutoff r ≡ true
    → Submitted cutoff s p
due-Submitted none s p r e h = record {
  request = r;
  at = e;
  is_sent = state_submitted r.state h;
  old = λ c k. absurd (cc);
}
due-Submitted (some cutoff) s p r e h = record {
  request = r;
  at = e;
  is_sent = state_submitted r.state (ground arith);
  old = λ c k. ground arith;
}

Submitted-due :
    (cutoff : Option ℕ) (s : Store) (p : ℕ) (r : Request)
    → get_elem? s.heap p ≡ some r
    → Submitted cutoff s p
    → is_due cutoff r ≡ true
Submitted-due none s p r e d =
    let is : r ≡ d.request = ground (arith, d.at) in
    ap (λ (x : Request). is_submitted x.state) is ∙ ap is_submitted d.is_sent
Submitted-due (some cutoff) s p r e d =
    let is : r ≡ d.request = ground (arith, d.at) in
    let sent : is_submitted r.state ≡ true =
      ap (λ (x : Request). is_submitted x.state) is ∙ ap is_submitted d.is_sent in
    ground (arith, d.old cutoff refl)

All-cut : (P : ℕ → Type 0) (ps : List ℕ) (b : Bool) → All P ps → All P (if b then [] else ps)
All-cut P ps true h = tt
All-cut P ps false h = h

pending_from-Submitted :
    (cutoff : Option ℕ) (limit taken : ℕ) (order : List (String × ℕ)) (s : Store)
    → All (Submitted cutoff s) (pending_from cutoff limit taken order s)
unfolding pending_from
pending_from-Submitted cutoff limit taken [] s = tt
pending_from-Submitted cutoff limit taken ((k, p) ∷ rest) s =
    elim (Option-cases (get_elem? s.heap p)) [
      | inl e ↦ rw (e, pending_from) (pending_from-Submitted cutoff limit taken rest s)
      | inr (r, e) ↦ elim (Bool-cases (is_due cutoff r)) [
        | inl due ↦
            rw (e, pending_from)
              (rw due (
                due-Submitted cutoff s p r e due,
                All-cut (Submitted cutoff s) (pending_from cutoff limit (suc taken) rest s)
                    (leb 1 limit && nat_eq (suc taken) limit)
                    (pending_from-Submitted cutoff limit (suc taken) rest s),
              ))
        | inr early ↦
            rw (e, pending_from) (rw early (pending_from-Submitted cutoff limit taken rest s))
      ]
    ]

-- The record is taken, or the pass has reached its limit.
abbrev pub Taken : ℕ → ℕ → List ℕ → ℕ → Type 0
Taken limit taken ps p = (p ∈ ps) ⊎ ((0 < limit) × (length ps + taken ≡ limit))

Taken-later :
    (limit taken : ℕ) (ps : List ℕ) (p q : ℕ) (b : Bool)
    → (leb 1 limit && nat_eq (suc taken) limit) ≡ b
    → Taken limit (suc taken) ps p
    → Taken limit taken (q ∷ (if b then [] else ps)) p
Taken-later limit taken ps p q true stop h = inr (ground arith)
Taken-later limit taken ps p q false stop (inl i) = inl (inr i)
Taken-later limit taken ps p q false stop (inr (l, e)) = inr (l, omega arith)

pending_from-Taken :
    (cutoff : Option ℕ) (limit taken : ℕ) (order : List (String × ℕ)) (s : Store) (k : String)
    (p : ℕ)
    → (k, p) ∈ order
    → Submitted cutoff s p
    → Taken limit taken (pending_from cutoff limit taken order s) p
unfolding pending_from
pending_from-Taken cutoff limit taken [] s k p i d = absurd i
pending_from-Taken cutoff limit taken ((k', q) ∷ rest) s k p (inl i) d =
    let due = Submitted-due cutoff s p d.request d.at d in
    let is : p ≡ q = ap (λ x. x.1) i in
    let e : get_elem? s.heap q ≡ some d.request = ap (λ x. get_elem? s.heap x) (sym is) ∙ d.at in
    rw (e, pending_from) (rw due (inl (inl is)))
pending_from-Taken cutoff limit taken ((k', q) ∷ rest) s k p (inr i) d =
    let skip = pending_from-Taken cutoff limit taken rest s k p i d in
    let more = pending_from-Taken cutoff limit (suc taken) rest s k p i d in
    elim (Option-cases (get_elem? s.heap q)) [
      | inl e ↦ rw (e, pending_from) skip
      | inr (r, e) ↦ elim (Bool-cases (is_due cutoff r)) [
        | inl due ↦
            rw (e, pending_from)
              (rw due (
                Taken-later limit taken (pending_from cutoff limit (suc taken) rest s) p q
                  (leb 1 limit && nat_eq (suc taken) limit) refl more))
        | inr early ↦ rw (e, pending_from) (rw early skip)
      ]
    ]

pending_from-le :
    (cutoff : Option ℕ) (limit taken : ℕ) (order : List (String × ℕ)) (s : Store)
    → taken < limit
    → length (pending_from cutoff limit taken order s) + taken ≤ limit
unfolding pending_from
pending_from-le cutoff limit taken [] s h = omega arith
pending_from-le cutoff limit taken ((k, p) ∷ rest) s h = ground (
  arith,
  pending_from-le cutoff limit taken rest s,
  pending_from-le cutoff limit (suc taken) rest s,
)

-- In whatever order the map's entries come, a recovery pass takes only records that are submitted
-- and were not updated after the cutoff, and no more than its limit, if that is not zero. Each
-- entry of the map with such a record is taken, unless the pass has reached this limit.
pub pending_records-bounded :
    (cutoff : Option ℕ) (limit : ℕ) (order : List (String × ℕ)) (s : Store)
    → All (Submitted cutoff s) (pending_records_before cutoff limit order s)
      × (0 < limit → length (pending_records_before cutoff limit order s) ≤ limit)
      × ((k : String) (p : ℕ)
          → (k, p) ∈ order
          → Submitted cutoff s p
          → Taken limit 0 (pending_records_before cutoff limit order s) p)
unfolding pending_records_before
pending_records-bounded cutoff limit order s = (
  pending_from-Submitted cutoff limit 0 order s,
  λ h. omega (arith, pending_from-le cutoff limit 0 order s h),
  λ k p. pending_from-Taken cutoff limit 0 order s k p,
)
