-- ===== src/Orchestrator/Endorsement/Examples.antt =====
-- Two candidates under a policy that asks for both principals.
use fabric_x_chaincode_compa.Prelude.{
  ◌≡◌, refl, ◌⊎◌, Bool, true, false, some, List, [], ◌∷◌, nat_eq, length, ℕ, zero, suc, ◌+◌,
}
use fabric_x_chaincode_compa.Prelude.Int.{pos}
use fabric_x_chaincode_compa.Orchestrator.Endorsement.Rules.{
  SignaturePolicy, signed_by, n_out_of, nil, cons,
}
use fabric_x_chaincode_compa.Orchestrator.Endorsement.Selection.{
  Evaluate, first_indices, select_endorsements, orders, profiles, with_context,
  search_signature_orders,
}
use fabric_x_chaincode_compa.Orchestrator.Endorsement.Termination.{
  initial_orders, orders-fuel_enough,
}
use fabric_x_chaincode_compa.Orchestrator.Endorsement.Soundness.{
  Accepted, select_endorsements_sound,
}

abbrev two : Evaluate
two is = nat_eq (length is) 2

abbrev both_sign : SignaturePolicy
both_sign = n_out_of (pos 2) (cons (signed_by (pos 0)) (cons (signed_by (pos 1)) nil))

abbrev table : List (List Bool)
table = (true ∷ true ∷ []) ∷ (true ∷ false ∷ []) ∷ []

-- The second principal needs the first candidate, so the search backtracks.
backtracks : select_endorsements (some two) both_sign table 2 100 ≡ (1 ∷ 0 ∷ [], false)
unfolding select_endorsements
backtracks = refl

select_endorsements_sound_example :
    Accepted two (select_endorsements (some two) both_sign table 2 100).0
    × (select_endorsements (some two) both_sign table 2 100 ≡ ([], false)
        → (◌≡◌ {A = ℕ} 2 0) ⊎ (two (first_indices 2 0) ≡ false))
select_endorsements_sound_example = select_endorsements_sound two both_sign table 2 100

-- A policy that reads the order: only the second candidate before the first is accepted.
abbrev second_first : Evaluate
second_first (suc zero ∷ zero ∷ []) = true
second_first _ = false

orders_back : search_signature_orders second_first table 2 100 ≡ (1 ∷ 0 ∷ [], false)
unfolding search_signature_orders
orders_back = refl

orders-fuel_enough_example :
    let deeper = orders second_first (profiles table 2 0) (3 + 7) (initial_orders 2 100) in
    (deeper ≡ orders second_first (profiles table 2 0) 3 (initial_orders 2 100))
    × (with_context deeper.1.selected deeper.1.live
        ≡ search_signature_orders second_first table 2 100)
orders-fuel_enough_example = orders-fuel_enough second_first table 2 100 7
