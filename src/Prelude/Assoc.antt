-- ===== src/Prelude/Assoc.antt =====
-- Go maps with text keys, as association lists.
use mathlib.Core.Path.{◌≡◌, refl}
use mathlib.Core.Option.{Option, none, some}
use mathlib.Core.List.{List, [], ◌∷◌}
use native.Mathlib.Omega.{arith}
use text.Mathlib.Text.{◌==◌}
use text.Mathlib.TextEquality.{eq_iff}
use Prim.Native.String.{String}
use fabric_x_chaincode_compa.Prelude.Tests.{if◌then◌else◌}

module _ {V : Type 0} where
  -- `m[key]`: the first entry counts
  unfoldable pub lookup : String → List (String × V) → Option V
  lookup key [] = none
  lookup key (entry ∷ m) =
      let below = lookup key m in if entry.0 == key then some entry.1 else below

  -- `m[key] = value`
  unfoldable pub insert : String → V → List (String × V) → List (String × V)
  insert key value [] = (key, value) ∷ []
  insert key value (entry ∷ m) =
      let below = insert key value m in if entry.0 == key then (key, value) ∷ m else entry ∷ below

  -- `delete(m, key)`
  unfoldable pub delete : String → List (String × V) → List (String × V)
  delete key [] = []
  delete key (entry ∷ m) =
      let below = delete key m in if entry.0 == key then below else entry ∷ below

  pub lookup-delete :
      (gone key : String) (m : List (String × V))
      → lookup key (delete gone m) ≡ (if gone == key then none else lookup key m)
  unfolding lookup delete
  lookup-delete gone key [] = ground arith
  lookup-delete gone key (entry ∷ m) =
      ground
        (lookup-delete gone key m, eq_iff entry.0 gone, eq_iff entry.0 key, eq_iff gone key, arith)

  pub lookup-insert :
      (added key : String) (value : V) (m : List (String × V))
      → lookup key (insert added value m) ≡ (if added == key then some value else lookup key m)
  unfolding lookup insert
  lookup-insert added key value [] = refl
  lookup-insert added key value (entry ∷ m) = ground (
    lookup-insert added key value m,
    eq_iff entry.0 added,
    eq_iff entry.0 key,
    eq_iff added key,
    arith,
  )
