-- ===== src/Orchestrator/Idempotency/Invariant.antt =====
-- The invariant of the idempotency store, and that every step of its callers keeps it.
use fabric_x_chaincode_compa.Prelude.{
  ℕ, ◌≡◌, ◌≢◌, sym, subst, ◌∙◌, ap, ◌⊎◌, inl, inr, Bool, true, false, some, String, arith, eq_iff,
  eq_refl, get_elem?, set, nat_eq, nat_eq→eq, get_elem?-set_self, get_elem?-set_ne, Bool-cases,
}
use fabric_x_chaincode_compa.Prelude.Assoc.{lookup, lookup-delete}
use fabric_x_chaincode_compa.Orchestrator.Idempotency.State.{
  State, in_progress, executed, submitted, completed, failed, Request, Store, new_idempotency_store,
  write, is_finished, remove,
}

-- Which channels are closed in which state.
abbrev pub Channels : State → Bool → Bool → Type 0
Channels in_progress sent done = (sent ≡ false) × (done ≡ false)
Channels executed sent done = (sent ≡ false) × (done ≡ false)
Channels submitted sent done = (sent ≡ true) × (done ≡ false)
Channels completed sent done = done ≡ true
Channels failed sent done = done ≡ true

abbrev pub IsConsistent : Request → Type 0
IsConsistent r = Channels r.state r.submitted_closed r.done_closed

-- The map holds, under its own key, a record that is not finished.
abbrev pub Holds : Store → String → ℕ → Type 0
Holds s key p =
    (r : Request) × (get_elem? s.heap p ≡ some r) × (r.key ≡ key) × (is_finished r.state ≡ false)

pub record IsValid (s : Store) : Type 0 where
  pub channels : (p : ℕ) (r : Request) → get_elem? s.heap p ≡ some r → IsConsistent r
  pub reserved : (key : String) (p : ℕ) → lookup key s.records ≡ some p → Holds s key p
  pub tracked :
      (p : ℕ) (r : Request)
      → get_elem? s.heap p ≡ some r
      → is_finished r.state ≡ false
      → lookup r.key s.records ≡ some p

pub new_store-IsValid : IsValid new_idempotency_store
unfolding lookup
new_store-IsValid = record {
  channels = λ p r h. absurd (cc);
  reserved = λ k p h. absurd (cc);
  tracked = λ p r h f. absurd (cc);
}

-- What a write to the record `p` keeps: its key, and that it is finished only if it was.
module _ (s : Store) (v : IsValid s) (p : ℕ) (old new : Request)
    (at : get_elem? s.heap p ≡ some old) where
  split_write :
      (q : ℕ) (r : Request)
      → get_elem? (set s.heap p new) q ≡ some r
      → (r ≡ new) ⊎ (get_elem? s.heap q ≡ some r)
  split_write q r h = elim (Bool-cases (nat_eq p q)) [
    | inl e ↦
        let same = nat_eq→eq p q e in
        inl (ground (arith, same, get_elem?-set_self s.heap p old new at))
    | inr e ↦ inr (sym (get_elem?-set_ne s.heap p q new (λ k. ground (arith, k))) ∙ h)
  ]

  channels-write :
      IsConsistent new
      → (q : ℕ) (r : Request) → get_elem? (set s.heap p new) q ≡ some r
      → IsConsistent r
  channels-write c q r h = elim (split_write q r h) [
    | inl e ↦ subst IsConsistent (sym e) c
    | inr e ↦ v.channels q r e
  ]

  Holds-write_ne : (key : String) (q : ℕ) → p ≢ q → Holds s key q → Holds (write p new s) key q
  Holds-write_ne key q ne (r, e, k, live) = (r, get_elem?-set_ne s.heap p q new ne ∙ e, k, live)

  Holds-write_self :
      (key : String)
      → new.key ≡ old.key
      → is_finished new.state ≡ is_finished old.state
      → Holds s key p
      → Holds (write p new s) key p
  Holds-write_self key same live (r, e, k, unfinished) = (
    new,
    get_elem?-set_self s.heap p old new at,
    ground (arith, at, e, k, same),
    live ∙ ground (arith, at, e, unfinished),
  )

  -- a write that does not finish the record
  pub write-IsValid :
      IsConsistent new
      → new.key ≡ old.key
      → is_finished new.state ≡ is_finished old.state
      → IsValid (write p new s)
  write-IsValid c same live = record {
    channels = channels-write c;
    reserved = λ key q h. elim (Bool-cases (nat_eq p q)) [
      | inl e ↦
          let is = nat_eq→eq p q e in
          subst (Holds (write p new s) key) is
            (Holds-write_self key same live (subst (Holds s key) (sym is) (v.reserved key q h)))
      | inr e ↦ Holds-write_ne key q (λ k. ground (arith, k)) (v.reserved key q h)
    ];
    tracked = λ q r h f. elim (Bool-cases (nat_eq p q)) [
      | inl e ↦
          let is : r ≡ new =
            ground (arith, nat_eq→eq p q e, get_elem?-set_self s.heap p old new at) in
          let was : is_finished old.state ≡ false =
            sym live ∙ subst (λ x. is_finished x.state ≡ false) is f in
          ground (arith, nat_eq→eq p q e, same, v.tracked p old at was)
      | inr e ↦ v.tracked q r (sym (get_elem?-set_ne s.heap p q new (λ k. ground (arith, k))) ∙ h) f
    ];
  }

-- What the map holds after a removal of the record `p` was there before, and is not `p` under
-- its own key.
lookup-remove :
    (p : ℕ) (key k : String) (q : ℕ) (s : Store)
    → lookup k (remove p key s).records ≡ some q
    → lookup k s.records ≡ some q
unfolding remove
lookup-remove p key k q s h = ground (arith, lookup-delete key k s.records)

removed : (p : ℕ) (key : String) (s : Store) → lookup key (remove p key s).records ≢ some p
unfolding remove
removed p key s h = ground (arith, lookup-delete key key s.records, eq_refl key)

kept :
    (p : ℕ) (key k : String) (q : ℕ) (s : Store)
    → lookup k s.records ≡ some q
    → q ≢ p
    → lookup k (remove p key s).records ≡ some q
unfolding remove
kept p key k q s h ne = ground (arith, lookup-delete key k s.records, eq_iff key k, ne)

pub heap-remove : (p : ℕ) (key : String) (s : Store) → (remove p key s).heap ≡ s.heap
unfolding remove
heap-remove p key s = ground arith

module _ (s : Store) (v : IsValid s) (p : ℕ) (old new : Request)
    (at : get_elem? s.heap p ≡ some old) where
  -- The key under which the map may hold `p` is the record's own.
  own_key : (key : String) → lookup key s.records ≡ some p → old.key ≡ key
  own_key key h = let (r, e, k, live) = v.reserved key p h in ground (arith, at, e, k)

  -- a write that finishes the record, with its removal from the map
  pub finish-IsValid :
      IsConsistent new → is_finished new.state ≡ true → IsValid (remove p old.key (write p new s))
  finish-IsValid c over = record {
    channels = λ q r h. channels-write s v p old new at c q r (rw heap-remove at h);
    reserved = λ key q h.
        let before = lookup-remove p old.key key q (write p new s) h in
        let ne : p ≢ q = λ e.
          let mine : lookup key s.records ≡ some p = before ∙ ap some (sym e) in
          removed p old.key (write p new s) (
            subst (λ k. lookup k (remove p old.key (write p new s)).records ≡ some p)
              (sym (own_key key mine)) (h ∙ ap some (sym e))) in
        let (r, e, k, live) = Holds-write_ne s v p old new at key q ne (v.reserved key q before) in
        (r, rw heap-remove e, k, live);
    tracked = λ q r h f. elim (Bool-cases (nat_eq p q)) [
      | inl e ↦ absurd (
          ground (
            arith,
            nat_eq→eq p q e,
            get_elem?-set_self s.heap p old new at,
            over,
            heap-remove p old.key (write p new s),
          ))
      | inr e ↦
          let ne : p ≢ q = λ k. ground (arith, k) in
          let there = sym (get_elem?-set_ne s.heap p q new ne) ∙ rw heap-remove at h in
          kept p old.key r.key q (write p new s) (v.tracked q r there f) (λ k. ne (sym k))
    ];
  }
