-- ===== src/Orchestrator/LedgerRows.antt =====
-- `lifecycleRow` of compatibility_service/pkg/orchestrator/lifecycle_ledger.go. What the query
-- service answers to a namespace and a key is a parameter; `none` is its error.
use fabric_x_chaincode_compa.Prelude.{
  ℕ, not, Option, none, some, List, [], ◌∷◌, String, ◌==◌, if◌then◌else◌,
}
use fabric_x_chaincode_compa.Lifecycle.Ledger.{Codec}

-- The value of a row and the number of the block that wrote it, its version.
abbrev pub Row : Type 0
Row = List ℕ × ℕ

-- An answer of `GetRows`: for each namespace, its rows.
abbrev pub Answer : Type 0
Answer = List (String × List (String × Row))

pub record Service : Type 0 where
  pub channel_id : String
  pub namespace : String
  pub codec : Codec
  pub get_rows : String → String → Option Answer

unfoldable pub find_row : String → List (String × Row) → Option Row
find_row key [] = none
find_row key ((k, row) ∷ rows) = if k == key then some row else find_row key rows

unfoldable pub find_namespace : String → String → Answer → Option Row
unfolding find_row
find_namespace namespace key [] = none
find_namespace namespace key ((ns, rows) ∷ rest) =
    let more = find_namespace namespace key rest in
    if not (ns == namespace)
    then more
    else elim (find_row key rows) [ none ↦ more | some row ↦ some row ]

-- `none` is the query's error, `some none` that there is no such row.
unfoldable pub lifecycle_row : Service → String → Option (Option Row)
unfolding find_namespace
lifecycle_row s key = elim (s.get_rows s.namespace key) [
  | none ↦ none
  | some answer ↦ some (find_namespace s.namespace key answer)
]
