-- ===== src/Orchestrator/Endorsement/Selection.antt =====
-- `selectEndorsements` and `searchSignatureOrders` of endorsement_policy.go.
use fabric_x_chaincode_compa.Prelude.{
  ℕ, zero, suc, ◌-◌, Bool, true, false, not, ◌&&◌, ◌||◌, Option, none, some, List, [], ◌∷◌, ◌++◌,
  length, get_elem?, set, ltb, nat_eq, bool_eq, if◌then◌else◌,
}
use fabric_x_chaincode_compa.Prelude.Int.{ℤ, pos_part}
use fabric_x_chaincode_compa.Orchestrator.Endorsement.Rules.{
  SignaturePolicy, missing, other, no_threshold, signed_by, n_out_of, Rules, nil, cons, count_rules,
}

-- The variables that the closures of a search share. `live` is the number of checks of the
-- context that pass before it ends.
pub record Search : Type 0 where
  pub used : List Bool
  pub selected : List ℕ
  pub has_witness : Bool
  pub live : ℕ

abbrev pub Outcome : Type 0
Outcome = Bool × Search

-- `if ctx.Err() != nil { return false }`
abbrev pub checked : (Search → Outcome) → Search → Outcome
checked f s = elim s.live [ zero ↦ (false, s) | suc n ↦ f (record s { live = n }) ]

abbrev pub is_used : List Bool → ℕ → Bool
is_used used i = elim (get_elem? used i) [ none ↦ false | some b ↦ b ]

abbrev pub mark : ℕ → Bool → Search → Search
mark i b s = record s { used = set s.used i b }

abbrev pub Next : Type 0
Next = List ℕ → Search → Outcome

-- The loop over the candidates of one principal, from candidate `i` on.
unfoldable pub try_signers : Next → List ℕ → List Bool → ℕ → Search → Outcome
try_signers next order [] i s = (false, s)
try_signers next order (matches ∷ rest) i s =
    let skip = try_signers next order rest (suc i) s in
    let tried = next (order ++ i ∷ []) (mark i true s) in
    let back = mark i false tried.1 in
    let others = try_signers next order rest (suc i) back in
    if is_used s.used i || not matches then skip else if tried.0 then (true, back) else others

-- the row of a principal in `matches`; a rule that was inspected has no index out of range
abbrev pub row : List (List Bool) → ℤ → List Bool
row matches i = elim (get_elem? matches (pos_part i)) [ none ↦ [] | some r ↦ r ]

unfoldable mutual
  unfolding try_signers

  pub search : List (List Bool) → SignaturePolicy → List ℕ → Next → Search → Outcome
  search matches missing order next = checked (λ s. (false, s))
  search matches other order next = checked (λ s. (false, s))
  search matches no_threshold order next = checked (λ s. (false, s))
  search matches (signed_by i) order next = checked (try_signers next order (row matches i) 0)
  search matches (n_out_of n rs) order next = checked (choose matches rs (pos_part n) order next)

  pub choose : List (List Bool) → Rules → ℕ → List ℕ → Next → Search → Outcome
  choose matches nil remaining order next =
      checked (λ s. if nat_eq remaining 0 then next order s else (false, s))
  choose matches (cons r rs) remaining order next = checked (λ s.
      let with_rule = search matches r order (λ o. choose matches rs (remaining - 1) o next) s in
      let without = choose matches rs remaining order next with_rule.1 in
      if nat_eq remaining 0
      then next order s
      else if ltb (count_rules (cons r rs)) remaining
      then (false, s)
      else if with_rule.0
      then with_rule
      else without)

-- `p.policy.EvaluateIdentities` of the candidates with these indices, in this order: the
-- evaluator of Fabric, a parameter. True is acceptance.
abbrev pub Evaluate : Type 0
Evaluate = List ℕ → Bool

abbrev pub or_first : List ℕ → List ℕ
or_first [] = 0 ∷ []
or_first (i ∷ is) = i ∷ is

-- The continuation that `selectEndorsements` gives to its search.
unfoldable pub accept : Evaluate → Next
accept evaluate order s =
    let s' = record s { has_witness = true } in
    if evaluate (or_first order)
    then (true, record s' { selected = or_first order })
    else (false, s')

abbrev pub Selected : Type 0
Selected = List ℕ × Bool

-- `return selected, ctx.Err()`; the second part tells of an error
abbrev pub with_context : List ℕ → ℕ → Selected
with_context selected live = elim live [ zero ↦ (selected, true) | suc n ↦ (selected, false) ]

-- The variables of `searchSignatureOrders`; `chosen` goes with `order`.
pub record Orders : Type 0 where
  pub used : List Bool
  pub order : List ℕ
  pub selected : List ℕ
  pub live : ℕ

abbrev pub column : List (List Bool) → ℕ → List Bool
column [] j = []
column (r ∷ rs) j = let rest = column rs j in is_used r j ∷ rest

abbrev pub any : List Bool → Bool
any [] = false
any (b ∷ bs) = let rest = any bs in b || rest

-- The principals that the candidate satisfies; `[]` is the empty text of one that satisfies none.
abbrev pub profile : List (List Bool) → ℕ → List Bool
profile matches j = if any (column matches j) then column matches j else []

-- the profiles of the last `n` of `n + i` candidates
abbrev pub profiles : List (List Bool) → ℕ → ℕ → List (List Bool)
profiles matches zero i = []
profiles matches (suc n) i = let rest = profiles matches n (suc i) in profile matches i ∷ rest

abbrev pub same_profile : List Bool → List Bool → Bool
same_profile [] [] = true
same_profile [] (c ∷ cs) = false
same_profile (b ∷ bs) [] = false
same_profile (b ∷ bs) (c ∷ cs) = let rest = same_profile bs cs in bool_eq b c && rest

abbrev pub has_seen : List Bool → List (List Bool) → Bool
has_seen p [] = false
has_seen p (q ∷ qs) = let rest = has_seen p qs in same_profile p q || rest

abbrev pub extended : ℕ → Orders → Orders
extended i s = record s { used = set s.used i true; order = s.order ++ i ∷ [] }

-- `order[:len(order)-1]` gives the order back that the loop had.
abbrev pub restored : ℕ → List ℕ → Orders → Orders
restored i order s = record s { used = set s.used i false; order = order }

-- The loop over the candidates, from `i` on, with the profiles that were seen.
unfoldable pub try_profiles :
    (Orders → Bool × Orders) → List (List Bool) → ℕ → List (List Bool) → Orders → Bool × Orders
try_profiles down [] i seen s = (false, s)
try_profiles down (p ∷ ps) i seen s =
    let skip = try_profiles down ps (suc i) seen s in
    let tried = down (extended i s) in
    let others = try_profiles down ps (suc i) (p ∷ seen) (restored i s.order tried.1) in
    if is_used s.used i || not (any p) || has_seen p seen
    then skip
    else if tried.0
    then tried
    else others

-- Each level uses one more candidate, so `n + 1` levels are enough.
unfoldable pub orders : Evaluate → List (List Bool) → ℕ → Orders → Bool × Orders
unfolding try_profiles
orders evaluate all zero s = (false, s)
orders evaluate all (suc fuel) s =
    let deeper = orders evaluate all fuel in
    elim s.live [
      | zero ↦ (false, s)
      | suc n ↦
          if not (nat_eq (length s.order) 0) && evaluate s.order
          then (true, record s { live = n; selected = s.order })
          else try_profiles deeper all 0 [] (record s { live = n })
    ]

abbrev pub unused : ℕ → List Bool
unused zero = []
unused (suc n) = let rest = unused n in false ∷ rest

unfoldable pub search_signature_orders : Evaluate → List (List Bool) → ℕ → ℕ → Selected
unfolding orders
search_signature_orders evaluate matches n live =
    let s : Orders = record { used = unused n; order = []; selected = []; live = live } in
    let t = (orders evaluate (profiles matches n 0) (suc n) s).1 in with_context t.selected t.live

abbrev pub first_indices : ℕ → ℕ → List ℕ
first_indices zero i = []
first_indices (suc n) i = let rest = first_indices n (suc i) in i ∷ rest

-- `selectEndorsements` after the search, with no selection from it.
unfoldable pub select_otherwise : Evaluate → List (List Bool) → ℕ → Bool → ℕ → Selected
unfolding search_signature_orders
select_otherwise evaluate matches n has_witness zero = ([], true)
select_otherwise evaluate matches n has_witness (suc live) =
    let all = first_indices n 0 in
    if evaluate all then (all, false) else elim live [
      | zero ↦ ([], true)
      | suc l ↦
          if has_witness then search_signature_orders evaluate matches n l else with_context [] l
    ]

unfoldable pub select_with : Evaluate → SignaturePolicy → List (List Bool) → ℕ → ℕ → Selected
unfolding search accept select_otherwise
select_with evaluate rule matches n live =
    let s : Search = record { used = unused n; selected = []; has_witness = false; live = live } in
    let t = (search matches rule [] (accept evaluate) s).1 in
    if nat_eq n 1 && evaluate (first_indices n 0)
    then (first_indices n 0, false)
    else if nat_eq (length t.selected) 0
    then select_otherwise evaluate matches n t.has_witness t.live
    else with_context t.selected t.live

-- `selectEndorsements` for `n` candidates; `matches` holds which candidate satisfies which
-- principal of the policy, as the MSP tells, and a nil policy is `none`.
unfoldable pub select_endorsements :
    Option Evaluate → SignaturePolicy → List (List Bool) → ℕ → ℕ → Selected
unfolding select_with
select_endorsements policy rule matches n zero = ([], true)
select_endorsements policy rule matches n (suc live) =
    if nat_eq n 0 then ([], false) else elim policy [
      | none ↦ (0 ∷ [], false)
      | some evaluate ↦ select_with evaluate rule matches n live
    ]
