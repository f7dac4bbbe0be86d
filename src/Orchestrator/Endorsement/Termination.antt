-- ===== src/Orchestrator/Endorsement/Termination.antt =====
-- The fuel of searchSignatureOrders is enough.
use fabric_x_chaincode_compa.Prelude.{
  ℕ, zero, suc, ◌+◌, ◌<◌, ◌≡◌, refl, sym, subst, ◌∙◌, ap, inl, inr, Bool, true, false, not, ◌&&◌,
  ◌||◌, List, [], ◌∷◌, arith, length, set, nat_eq, Bool-cases, if◌then◌else◌,
}
use fabric_x_chaincode_compa.Orchestrator.Endorsement.Selection.{
  is_used, any, has_seen, Evaluate, Orders, try_profiles, orders, extended, restored, profiles,
  unused, with_context, search_signature_orders,
}

-- The candidates that are not in use.
abbrev pub free : List Bool → ℕ
free [] = 0
free (true ∷ bs) = free bs
free (false ∷ bs) = suc (free bs)

set-free :
    (used : List Bool) (i : ℕ)
    → i < length used
    → is_used used i ≡ false
    → suc (free (set used i true)) ≡ free used
set-free [] i h k = absurd (omega arith)
set-free (true ∷ bs) zero h k = cc
set-free (false ∷ bs) zero h k = refl
set-free (true ∷ bs) (suc i) h k = set-free bs i (omega arith) k
set-free (false ∷ bs) (suc i) h k = ap suc (set-free bs i (omega arith) k)

set-back :
    (used : List Bool) (i : ℕ) → is_used used i ≡ false → set (set used i true) i false ≡ used
set-back [] i k = refl
set-back (true ∷ bs) zero k = cc
set-back (false ∷ bs) zero k = refl
set-back (b ∷ bs) (suc i) k = ap (λ x. b ∷ x) (set-back bs i k)

length-set : (used : List Bool) (i : ℕ) (b : Bool) → length (set used i b) ≡ length used
length-set [] i b = refl
length-set (x ∷ xs) zero b = refl
length-set (x ∷ xs) (suc i) b = ap suc (length-set xs i b)

module _ (evaluate : Evaluate) where
  -- A failing search leaves the marks as they were.
  abbrev Restores : (Orders → Bool × Orders) → Type 0
  Restores f = (s : Orders) → (f s).0 ≡ false → (f s).1.used ≡ s.used

  unused_here : (a b c : Bool) → a || b || c ≡ false → a ≡ false
  unused_here false b c h = refl
  unused_here true b c h = h

  back_used :
      (down : Orders → Bool × Orders) (i : ℕ) (s : Orders)
      → Restores down
      → (down (extended i s)).0 ≡ false
      → is_used s.used i ≡ false
      → (restored i s.order (down (extended i s)).1).used ≡ s.used
  back_used down i s g t k =
      ap (λ (u : List Bool). set u i false) (g (extended i s) t) ∙ set-back s.used i k

  try_profiles-Restores :
      (down : Orders → Bool × Orders) (ps : List (List Bool)) (i : ℕ) (seen : List (List Bool))
      → Restores down
      → Restores (try_profiles down ps i seen)
  unfolding try_profiles
  try_profiles-Restores down [] i seen g s h = refl
  try_profiles-Restores down (p ∷ ps) i seen g s h =
      elim (Bool-cases (is_used s.used i || not (any p) || has_seen p seen)) [
        | inl b ↦
            rw (b, try_profiles)
              (try_profiles-Restores down ps (suc i) seen g s (rw (b, try_profiles) at h))
        | inr b ↦ elim (Bool-cases (down (extended i s)).0) [
          | inl t ↦ absurd (ground arith)
          | inr t ↦
              rw (b, t, try_profiles)
                (try_profiles-Restores down ps (suc i) (p ∷ seen) g
                    (restored i s.order (down (extended i s)).1) (rw (b, t, try_profiles) at h)
                  ∙ back_used down i s g t
                      (unused_here (is_used s.used i) (not (any p)) (has_seen p seen) b))
        ]
      ]

  -- One call of the search: the budget, the test of the order, and the loop.
  abbrev turn : (Orders → Bool × Orders) → List (List Bool) → Orders → ℕ → Bool → Bool × Orders
  turn deeper all s zero b = (false, s)
  turn deeper all s (suc n) true = (true, record s { live = n; selected = s.order })
  turn deeper all s (suc n) false = try_profiles deeper all 0 [] (record s { live = n })

  turn_lem :
      (deeper : Orders → Bool × Orders) (all : List (List Bool)) (s : Orders) (live : ℕ) (b : Bool)
      → (elim live as (λ _. Bool × Orders) [
        | zero ↦ (false, s)
        | suc n ↦
            if b
            then (true, record s { live = n; selected = s.order })
            else try_profiles deeper all 0 [] (record s { live = n })
      ])
        ≡ turn deeper all s live b
  turn_lem deeper all s zero b = refl
  turn_lem deeper all s (suc n) true = refl
  turn_lem deeper all s (suc n) false = refl

  is_complete : Orders → Bool
  is_complete s = not (nat_eq (length s.order) 0) && evaluate s.order

  orders-turn :
      (all : List (List Bool)) (fuel : ℕ) (s : Orders)
      → orders evaluate all (suc fuel) s
        ≡ turn (orders evaluate all fuel) all s s.live (is_complete s)
  unfolding orders is_complete
  orders-turn all fuel s =
      turn_lem (orders evaluate all fuel) all s s.live
        (not (nat_eq (length s.order) 0) && evaluate s.order)

  turn-Restores :
      (deeper : Orders → Bool × Orders) (all : List (List Bool)) (s : Orders) (live : ℕ) (b : Bool)
      → Restores deeper
      → (turn deeper all s live b).0 ≡ false
      → (turn deeper all s live b).1.used ≡ s.used
  turn-Restores deeper all s zero b r h = refl
  turn-Restores deeper all s (suc n) true r h = absurd (ground arith)
  turn-Restores deeper all s (suc n) false r h =
      try_profiles-Restores deeper all 0 [] r (record s { live = n }) h

  orders-Restores : (all : List (List Bool)) (fuel : ℕ) → Restores (orders evaluate all fuel)
  unfolding orders
  orders-Restores all zero s h = refl
  orders-Restores all (suc fuel) s h =
      let e = orders-turn all fuel s in
      ap (λ r. r.1.used) e
      ∙ turn-Restores (orders evaluate all fuel) all s s.live (is_complete s)
          (orders-Restores all fuel) (sym (ap (λ r. r.0) e) ∙ h)

  -- Both searches agree where fewer than `k` of `n` candidates are free.
  abbrev Agree : ℕ → ℕ → (Orders → Bool × Orders) → (Orders → Bool × Orders) → Type 0
  Agree n k f g = (s : Orders) → length s.used ≡ n → free s.used < k → f s ≡ g s

  try_profiles-Agree :
      (n k : ℕ) (f g : Orders → Bool × Orders) (ps : List (List Bool)) (i : ℕ)
      (seen : List (List Bool))
      → Agree n k f g
      → Restores f
      → i + length ps ≡ n
      → Agree n (suc k) (try_profiles f ps i seen) (try_profiles g ps i seen)
  unfolding try_profiles
  try_profiles-Agree n k f g [] i seen same back size s wide few = refl
  try_profiles-Agree n k f g (p ∷ ps) i seen same back size s wide few =
      elim (Bool-cases (is_used s.used i || not (any p) || has_seen p seen)) [
        | inl b ↦
            rw (b, try_profiles)
              (try_profiles-Agree n k f g ps (suc i) seen same back (omega arith) s wide few)
        | inr b ↦
            let less =
              set-free s.used i (omega arith)
                (unused_here (is_used s.used i) (not (any p)) (has_seen p seen) b) in
            let tried : f (extended i s) ≡ g (extended i s) =
              same (extended i s) (length-set s.used i true ∙ wide) (omega arith) in
            elim (Bool-cases (f (extended i s)).0) [
              | inl t ↦ rw (b, try_profiles, ← tried, t) refl
              | inr t ↦
                  rw (b, try_profiles, ← tried, t)
                    (try_profiles-Agree n k f g ps (suc i) (p ∷ seen) same back (omega arith)
                      (restored i s.order (f (extended i s)).1)
                      (ap length (
                          back_used f i s back t
                            (unused_here (is_used s.used i) (not (any p)) (has_seen p seen) b))
                        ∙ wide)
                      (subst (λ u. free u < suc k)
                        (sym (
                          back_used f i s back t
                            (unused_here (is_used s.used i) (not (any p)) (has_seen p seen) b)))
                        few))
            ]
      ]

  turn-Agree :
      (k : ℕ) (f g : Orders → Bool × Orders) (all : List (List Bool)) (s : Orders) (live : ℕ)
      (b : Bool)
      → Agree (length all) k f g
      → Restores f
      → length s.used ≡ length all
      → free s.used < suc k
      → turn f all s live b ≡ turn g all s live b
  turn-Agree k f g all s zero b same back wide few = refl
  turn-Agree k f g all s (suc n) true same back wide few = refl
  turn-Agree k f g all s (suc n) false same back wide few =
      try_profiles-Agree (length all) k f g all 0 [] same back (omega arith) (record s { live = n })
        wide few

  orders-Agree :
      (all : List (List Bool)) (extra k : ℕ)
      → Agree (length all) k (orders evaluate all (k + extra)) (orders evaluate all k)
  orders-Agree all extra zero s wide few = absurd (omega arith)
  orders-Agree all extra (suc k) s wide few =
      ap (λ m. orders evaluate all m s) (omega arith)
      ∙ orders-turn all (k + extra) s
      ∙ turn-Agree k (orders evaluate all (k + extra)) (orders evaluate all k) all s s.live
          (is_complete s) (orders-Agree all extra k) (orders-Restores all (k + extra)) wide few
      ∙ sym (orders-turn all k s)

length-unused : (n : ℕ) → length (unused n) ≡ n
length-unused zero = refl
length-unused (suc n) = ap suc (length-unused n)

free-unused : (n : ℕ) → free (unused n) ≡ n
free-unused zero = refl
free-unused (suc n) = ap suc (free-unused n)

length-profiles : (matches : List (List Bool)) (n i : ℕ) → length (profiles matches n i) ≡ n
length-profiles matches zero i = refl
length-profiles matches (suc n) i = ap suc (length-profiles matches n (suc i))

-- The start of the search: no endorsement is in use.
abbrev pub initial_orders : ℕ → ℕ → Orders
initial_orders n live = record { used = unused n; order = []; selected = []; live = live }

-- The depth that searchSignatureOrders is given, one more than the number of endorsements, is
-- enough: from the start of the search, with no endorsement in use, every larger depth gives the
-- same verdict, selection, order, marks and remaining budget, and so the same result of
-- searchSignatureOrders.
pub orders-fuel_enough :
    (evaluate : Evaluate) (matches : List (List Bool)) (n live extra : ℕ)
    → let deeper = orders evaluate (profiles matches n 0) (suc n + extra) (initial_orders n live) in
      (deeper ≡ orders evaluate (profiles matches n 0) (suc n) (initial_orders n live))
      × (with_context deeper.1.selected deeper.1.live
          ≡ search_signature_orders evaluate matches n live)
unfolding search_signature_orders
orders-fuel_enough evaluate matches n live extra =
    let same =
      orders-Agree evaluate (profiles matches n 0) extra (suc n) (initial_orders n live)
        (length-unused n ∙ sym (length-profiles matches n 0))
        (subst (λ f. f < suc n) (sym (free-unused n)) (omega arith)) in
    (same, ap (λ t. with_context t.1.selected t.1.live) same)
