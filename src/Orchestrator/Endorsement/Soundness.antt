-- ===== src/Orchestrator/Endorsement/Soundness.antt =====
-- What is selected is accepted by the policy.
use fabric_x_chaincode_compa.Prelude.{
  ℕ, zero, suc, ◌-◌, ◌≡◌, ◌≢◌, refl, ◌⊎◌, inl, inr, Bool, true, false, not, ◌&&◌, ◌||◌, some, List,
  [], ◌∷◌, ◌++◌, arith, length, nat_eq, Bool-cases, ltb, if◌then◌else◌,
}
use fabric_x_chaincode_compa.Prelude.Int.{pos_part}
use fabric_x_chaincode_compa.Orchestrator.Endorsement.Rules.{
  SignaturePolicy, missing, other, no_threshold, signed_by, n_out_of, Rules, nil, cons, count_rules,
}
use fabric_x_chaincode_compa.Orchestrator.Endorsement.Selection.{
  Search, Outcome, checked, is_used, mark, Next, try_signers, row, any, has_seen, search, choose,
  Evaluate, or_first, accept, Selected, with_context, Orders, try_profiles, orders, extended,
  restored, search_signature_orders, first_indices, profiles, select_otherwise, select_with,
  select_endorsements, unused,
}

-- Nothing is selected, or what the evaluator accepts.
abbrev pub Accepted : Evaluate → List ℕ → Type 0
Accepted evaluate is = (is ≡ []) ⊎ (evaluate is ≡ true)

either : {A : Type 0} (P : A → Type 0) (b : Bool) (x y : A) → P x → P y → P (if b then x else y)
either P true x y p q = p
either P false x y p q = q

where_true :
    {A : Type 0} (P : A → Type 0) (b : Bool) (x y : A)
    → (b ≡ true → P x)
    → P y
    → P (if b then x else y)
where_true P true x y p q = p refl
where_true P false x y p q = q

second : (b c : Bool) → (b && c) ≡ true → c ≡ true
second b c h = ground arith

both : (b c : Bool) → (not b && c) ≡ true → c ≡ true
both b c h = ground arith

module _ (evaluate : Evaluate) where
  abbrev Fine : Outcome → Type 0
  Fine r = Accepted evaluate r.1.selected

  abbrev Good : (Search → Outcome) → Type 0
  Good f = (s : Search) → Accepted evaluate s.selected → Fine (f s)

  abbrev GoodNext : Next → Type 0
  GoodNext next = (order : List ℕ) → Good (next order)

  checked-Good : (f : Search → Outcome) → Good f → Good (checked f)
  checked-Good f g s h = go s.live
    where
      go : (n : ℕ) → Fine (elim n [ zero ↦ (false, s) | suc m ↦ f (record s { live = m }) ])
      go zero = h
      go (suc m) = g (record s { live = m }) h

  abbrev quiet : Search → Outcome
  quiet s = (false, s)

  accept-Good : GoodNext (accept evaluate)
  unfolding accept
  accept-Good order s h = elim (Bool-cases (evaluate (or_first order))) [
    | inl e ↦ rw (e, accept) (inr e)
    | inr e ↦ rw (e, accept) h
  ]

  try_signers-Good :
      (next : Next) (order : List ℕ) (bits : List Bool) (i : ℕ)
      → GoodNext next
      → Good (try_signers next order bits i)
  unfolding try_signers
  try_signers-Good next order [] i g s h = h
  try_signers-Good next order (b ∷ bits) i g s h =
      let tried = next (order ++ i ∷ []) (mark i true s) in
      let back = mark i false tried.1 in
      let ok_tried : Fine tried = g (order ++ i ∷ []) (mark i true s) h in
      let skip = try_signers next order bits (suc i) s in
      let others = try_signers next order bits (suc i) back in
      either Fine (is_used s.used i || not b) skip (if tried.0 then (true, back) else others)
        (try_signers-Good next order bits (suc i) g s h)
        (either Fine tried.0 (true, back) others ok_tried
          (try_signers-Good next order bits (suc i) g back ok_tried))

  mutual
    unfolding search choose

    search-Good :
        (matches : List (List Bool)) (rule : SignaturePolicy) (order : List ℕ) (next : Next)
        → GoodNext next
        → Good (search matches rule order next)
    search-Good matches missing order next g = checked-Good quiet (λ s h. h)
    search-Good matches other order next g = checked-Good quiet (λ s h. h)
    search-Good matches no_threshold order next g = checked-Good quiet (λ s h. h)
    search-Good matches (signed_by i) order next g =
        checked-Good (try_signers next order (row matches i) 0)
          (try_signers-Good next order (row matches i) 0 g)
    search-Good matches (n_out_of n rs) order next g =
        checked-Good (choose matches rs (pos_part n) order next)
          (choose-Good matches rs (pos_part n) order next g)

    choose-Good :
        (matches : List (List Bool)) (rules : Rules) (remaining : ℕ) (order : List ℕ) (next : Next)
        → GoodNext next
        → Good (choose matches rules remaining order next)
    choose-Good matches nil remaining order next g =
        checked-Good (λ s. if nat_eq remaining 0 then next order s else (false, s))
          (λ s h. either Fine (nat_eq remaining 0) (next order s) (false, s) (g order s h) h)
    choose-Good matches (cons r rs) remaining order next g =
        checked-Good
          (λ s.
            let with_rule =
              search matches r order (λ o. choose matches rs (remaining - 1) o next) s in
            let without = choose matches rs remaining order next with_rule.1 in
            if nat_eq remaining 0
            then next order s
            else if ltb (count_rules (cons r rs)) remaining
            then (false, s)
            else if with_rule.0
            then with_rule
            else without)
          (λ s h.
            let with_rule =
              search matches r order (λ o. choose matches rs (remaining - 1) o next) s in
            let without = choose matches rs remaining order next with_rule.1 in
            let first : Fine with_rule =
              search-Good matches r order (λ o. choose matches rs (remaining - 1) o next)
                (λ o. choose-Good matches rs (remaining - 1) o next g) s h in
            let second : Fine without =
              choose-Good matches rs remaining order next g with_rule.1 first in
            let rest = if with_rule.0 then with_rule else without in
            either Fine (nat_eq remaining 0) (next order s)
              (if ltb (count_rules (cons r rs)) remaining then (false, s) else rest) (g order s h)
              (either Fine (ltb (count_rules (cons r rs)) remaining) (false, s) rest h
                (either Fine with_rule.0 with_rule without first second)))

  abbrev FineOrders : Bool × Orders → Type 0
  FineOrders r = Accepted evaluate r.1.selected

  abbrev GoodOrders : (Orders → Bool × Orders) → Type 0
  GoodOrders f = (s : Orders) → Accepted evaluate s.selected → FineOrders (f s)

  try_profiles-Good :
      (down : Orders → Bool × Orders) (ps : List (List Bool)) (i : ℕ) (seen : List (List Bool))
      → GoodOrders down
      → GoodOrders (try_profiles down ps i seen)
  unfolding try_profiles
  try_profiles-Good down [] i seen g s h = h
  try_profiles-Good down (p ∷ ps) i seen g s h =
      let tried = down (extended i s) in
      let first : FineOrders tried = g (extended i s) h in
      let skip = try_profiles down ps (suc i) seen s in
      let others = try_profiles down ps (suc i) (p ∷ seen) (restored i s.order tried.1) in
      either FineOrders (is_used s.used i || not (any p) || has_seen p seen) skip
        (if tried.0 then tried else others) (try_profiles-Good down ps (suc i) seen g s h)
        (either FineOrders tried.0 tried others first
          (try_profiles-Good down ps (suc i) (p ∷ seen) g (restored i s.order tried.1) first))

  -- one level of `orders`, with what it does at an accepted order and otherwise
  level-Good :
      (deeper : Orders → Bool × Orders) (all : List (List Bool)) (s : Orders) (live : ℕ)
      → GoodOrders deeper
      → Accepted evaluate s.selected
      → FineOrders (
          if not (nat_eq (length s.order) 0) && evaluate s.order
          then (true, record s { live = live; selected = s.order })
          else try_profiles deeper all 0 [] (record s { live = live }))
  level-Good deeper all s live g h =
      where_true FineOrders (not (nat_eq (length s.order) 0) && evaluate s.order)
        (true, record s { live = live; selected = s.order })
        (try_profiles deeper all 0 [] (record s { live = live }))
        (λ e. inr (both (nat_eq (length s.order) 0) (evaluate s.order) e))
        (try_profiles-Good deeper all 0 [] g (record s { live = live }) h)

  orders-Good : (all : List (List Bool)) (fuel : ℕ) → GoodOrders (orders evaluate all fuel)
  unfolding orders
  orders-Good all zero s h = h
  orders-Good all (suc fuel) s h = go (orders evaluate all fuel) (orders-Good all fuel) s.live
    where
      go :
          (deeper : Orders → Bool × Orders)
          → GoodOrders deeper
          → (live : ℕ)
          → FineOrders (elim live [
            | zero ↦ (false, s)
            | suc n ↦
                if not (nat_eq (length s.order) 0) && evaluate s.order
                then (true, record s { live = n; selected = s.order })
                else try_profiles deeper all 0 [] (record s { live = n })
          ])
      go deeper g zero = h
      go deeper g (suc n) = level-Good deeper all s n g h

  with_context-Accepted :
      (is : List ℕ) (live : ℕ) → Accepted evaluate is → Accepted evaluate (with_context is live).0
  with_context-Accepted is zero h = h
  with_context-Accepted is (suc n) h = h

  search_signature_orders-Accepted :
      (matches : List (List Bool)) (n live : ℕ)
      → Accepted evaluate (search_signature_orders evaluate matches n live).0
  unfolding search_signature_orders
  search_signature_orders-Accepted matches n live =
      let s : Orders = record { used = unused n; order = []; selected = []; live = live } in
      let t = (orders evaluate (profiles matches n 0) (suc n) s).1 in
      with_context-Accepted t.selected t.live
        (orders-Good (profiles matches n 0) (suc n) s (inl refl))

  select_otherwise-Accepted :
      (matches : List (List Bool)) (n : ℕ) (w : Bool) (live : ℕ)
      → Accepted evaluate (select_otherwise evaluate matches n w live).0
  unfolding select_otherwise
  select_otherwise-Accepted matches n w zero = inl refl
  select_otherwise-Accepted matches n w (suc zero) =
      where_true (λ (x : Selected). Accepted evaluate x.0) (evaluate (first_indices n 0))
        (first_indices n 0, false) ([], true) inr (inl refl)
  select_otherwise-Accepted matches n w (suc (suc l)) =
      let rest = if w then search_signature_orders evaluate matches n l else with_context [] l in
      where_true (λ (x : Selected). Accepted evaluate x.0) (evaluate (first_indices n 0))
        (first_indices n 0, false) rest inr
        (either (λ (x : Selected). Accepted evaluate x.0) w
          (search_signature_orders evaluate matches n l) (with_context [] l)
          (search_signature_orders-Accepted matches n l) (with_context-Accepted [] l (inl refl)))

  select_with-Accepted :
      (rule : SignaturePolicy) (matches : List (List Bool)) (n live : ℕ)
      → Accepted evaluate (select_with evaluate rule matches n live).0
  unfolding select_with
  select_with-Accepted rule matches n live =
      let s : Search = record {
        used = unused n;
        selected = [];
        has_witness = false;
        live = live;
      } in
      let t = (search matches rule [] (accept evaluate) s).1 in
      let found : Accepted evaluate t.selected =
        search-Good matches rule [] (accept evaluate) accept-Good s (inl refl) in
      let last =
        if nat_eq (length t.selected) 0
        then select_otherwise evaluate matches n t.has_witness t.live
        else with_context t.selected t.live in
      where_true (λ (x : Selected). Accepted evaluate x.0)
        (nat_eq n 1 && evaluate (first_indices n 0)) (first_indices n 0, false) last
        (λ e. inr (second (nat_eq n 1) (evaluate (first_indices n 0)) e))
        (either (λ (x : Selected). Accepted evaluate x.0) (nat_eq (length t.selected) 0)
          (select_otherwise evaluate matches n t.has_witness t.live)
          (with_context t.selected t.live)
          (select_otherwise-Accepted matches n t.has_witness t.live)
          (with_context-Accepted t.selected t.live found))

  -- where the evaluator accepts all candidates together, one of them is there to select
  otherwise-rejects :
      (matches : List (List Bool)) (n : ℕ) (w : Bool) (live : ℕ)
      → select_otherwise evaluate matches (suc n) w live ≡ ([], false)
      → evaluate (first_indices (suc n) 0) ≡ false
  unfolding select_otherwise
  otherwise-rejects matches n w zero h = absurd (cc)
  otherwise-rejects matches n w (suc live) h =
      elim (Bool-cases (evaluate (first_indices (suc n) 0))) [
        | inl e ↦ absurd (ground arith)
        | inr e ↦ e
      ]

  context-rejects :
      (is : List ℕ) (live : ℕ) → nat_eq (length is) 0 ≡ false → with_context is live ≢ ([], false)
  context-rejects is zero e h = cc
  context-rejects is (suc n) e h = absurd (ground arith)

  select_with-rejects :
      (rule : SignaturePolicy) (matches : List (List Bool)) (n live : ℕ)
      → select_with evaluate rule matches (suc n) live ≡ ([], false)
      → evaluate (first_indices (suc n) 0) ≡ false
  unfolding select_with
  select_with-rejects rule matches n live h =
      let s : Search = record {
        used = unused (suc n);
        selected = [];
        has_witness = false;
        live = live;
      } in
      let t = (search matches rule [] (accept evaluate) s).1 in
      elim (Bool-cases (nat_eq (length t.selected) 0)) [
        | inl e ↦ elim (Bool-cases (nat_eq (suc n) 1 && evaluate (first_indices (suc n) 0))) [
          | inl f ↦ absurd (ground arith)
          | inr f ↦ otherwise-rejects matches n t.has_witness t.live (ground arith)
        ]
        | inr e ↦ elim (Bool-cases (nat_eq (suc n) 1 && evaluate (first_indices (suc n) 0))) [
          | inl f ↦ absurd (ground arith)
          | inr f ↦ absurd (context-rejects t.selected t.live e (ground arith))
        ]
      ]

  -- For any policy rule and any candidates, and whenever the context ends during the search, a
  -- selection is empty or one that the policy's evaluator accepts in the selected order. If it is
  -- empty without an error, there are no candidates, or the evaluator rejects all of them
  -- together.
  pub select_endorsements_sound :
      (rule : SignaturePolicy) (matches : List (List Bool)) (n live : ℕ)
      → Accepted evaluate (select_endorsements (some evaluate) rule matches n live).0
        × (select_endorsements (some evaluate) rule matches n live ≡ ([], false)
            → (n ≡ 0) ⊎ (evaluate (first_indices n 0) ≡ false))
  unfolding select_endorsements
  select_endorsements_sound rule matches n zero = (inl refl, λ h. absurd (cc))
  select_endorsements_sound rule matches zero (suc live) = (inl refl, λ h. inl refl)
  select_endorsements_sound rule matches (suc n) (suc live) =
      let some_candidate : nat_eq (suc n) 0 ≡ false = ground arith in
      rw some_candidate (
        select_with-Accepted rule matches (suc n) live,
        λ h. inr (select_with-rejects rule matches n live h),
      )
