-- ===== src/Lifecycle/Store/Table.antt =====
-- The SQL statements of store.go on a table, which is the list of its rows.
use fabric_x_chaincode_compa.Prelude.{
  ◌≡◌, refl, Bool, true, false, inl, inr, Option, none, some, List, [], ◌∷◌, arith, Bool-cases,
  if◌then◌else◌,
}

module _ {A : Type 0} where
  -- `SELECT … WHERE hit`, read as one row
  unfoldable pub select : (A → Bool) → List A → Option A
  select hit [] = none
  select hit (r ∷ rs) = if hit r then some r else select hit rs

  -- `INSERT … ON CONFLICT(key) DO UPDATE SET …`; `hit` finds the row with the inserted key
  unfoldable pub upsert : (A → Bool) → (A → A) → A → List A → List A
  upsert hit update new [] = new ∷ []
  upsert hit update new (r ∷ rs) =
      let rest = upsert hit update new rs in if hit r then update r ∷ rs else r ∷ rest

  -- `UPDATE … SET … WHERE hit`
  unfoldable pub update_where : (A → Bool) → (A → A) → List A → List A
  update_where hit update [] = []
  update_where hit update (r ∷ rs) = (if hit r then update r else r) ∷ update_where hit update rs

  -- `DELETE … WHERE hit`
  unfoldable pub delete_where : (A → Bool) → List A → List A
  delete_where hit [] = []
  delete_where hit (r ∷ rs) = let rest = delete_where hit rs in if hit r then rest else r ∷ rest

  -- `SELECT … WHERE hit`, read as all rows
  unfoldable pub select_all : (A → Bool) → List A → List A
  select_all hit [] = []
  select_all hit (r ∷ rs) = let rest = select_all hit rs in if hit r then r ∷ rest else rest

  abbrev pub upserted : (A → A) → A → Option A → A
  upserted update new none = new
  upserted update new (some r) = update r

  -- What an upsert leaves at its own key, where the update does not change the key.
  pub select-upsert_self :
      (hit : A → Bool) (update : A → A) (new : A) (rs : List A)
      → hit new ≡ true
      → ((r : A) → hit r ≡ true → hit (update r) ≡ true)
      → select hit (upsert hit update new rs) ≡ some (upserted update new (select hit rs))
  unfolding select upsert
  select-upsert_self hit update new [] h keep = rw h
  select-upsert_self hit update new (r ∷ rs) h keep = elim (Bool-cases (hit r)) [
    | inl e ↦ rw e (rw (keep r e))
    | inr e ↦ rw e (rw e (select-upsert_self hit update new rs h keep))
  ]

  -- An upsert leaves the other keys alone.
  pub select-upsert_ne :
      (hit other : A → Bool) (update : A → A) (new : A) (rs : List A)
      → other new ≡ false
      → ((r : A) → hit r ≡ true → (other r ≡ false) × (other (update r) ≡ false))
      → select other (upsert hit update new rs) ≡ select other rs
  unfolding select upsert
  select-upsert_ne hit other update new [] h keep = rw h
  select-upsert_ne hit other update new (r ∷ rs) h keep = elim (Bool-cases (hit r)) [
    | inl e ↦ rw e (rw ((keep r e).0, (keep r e).1))
    | inr e ↦ rw e (ground (arith, select-upsert_ne hit other update new rs h keep))
  ]

  pub select-update_where_ne :
      (hit other : A → Bool) (update : A → A) (rs : List A)
      → ((r : A) → hit r ≡ true → (other r ≡ false) × (other (update r) ≡ false))
      → select other (update_where hit update rs) ≡ select other rs
  unfolding select update_where
  select-update_where_ne hit other update [] keep = refl
  select-update_where_ne hit other update (r ∷ rs) keep = elim (Bool-cases (hit r)) [
    | inl e ↦
        rw e (rw ((keep r e).0, (keep r e).1) (select-update_where_ne hit other update rs keep))
    | inr e ↦ rw e (ground (arith, select-update_where_ne hit other update rs keep))
  ]

  -- An update that leaves the keys alone is seen in the row that is found.
  pub select-update_where :
      (hit other : A → Bool) (update : A → A) (rs : List A)
      → ((r : A) → hit r ≡ true → other (update r) ≡ other r)
      → select other (update_where hit update rs)
        ≡ (elim (select other rs) [ none ↦ none | some r ↦ some (if hit r then update r else r) ])
  unfolding select update_where
  select-update_where hit other update [] keep = refl
  select-update_where hit other update (r ∷ rs) keep = elim (Bool-cases (hit r)) [
    | inl e ↦ rw e (rw (keep r e) (ground (arith, select-update_where hit other update rs keep)))
    | inr e ↦ rw e (ground (arith, select-update_where hit other update rs keep))
  ]

  pub select-delete_where_self :
      (hit : A → Bool) (rs : List A) → select hit (delete_where hit rs) ≡ none
  unfolding select delete_where
  select-delete_where_self hit [] = refl
  select-delete_where_self hit (r ∷ rs) = ground (arith, select-delete_where_self hit rs)

  pub select-delete_where_ne :
      (hit other : A → Bool) (rs : List A)
      → ((r : A) → hit r ≡ true → other r ≡ false)
      → select other (delete_where hit rs) ≡ select other rs
  unfolding select delete_where
  select-delete_where_ne hit other [] keep = refl
  select-delete_where_ne hit other (r ∷ rs) keep = elim (Bool-cases (hit r)) [
    | inl e ↦ rw e (rw (keep r e) (select-delete_where_ne hit other rs keep))
    | inr e ↦ rw e (ground (arith, select-delete_where_ne hit other rs keep))
  ]

  -- A row that a query returns fits its condition.
  pub hit-select : (hit : A → Bool) (rs : List A) {r : A} → select hit rs ≡ some r → hit r ≡ true
  unfolding select
  hit-select hit [] {r} h = cc
  hit-select hit (x ∷ rs) {r} h =
      ground (arith, λ (p : select hit rs ≡ some r). hit-select hit rs p)
