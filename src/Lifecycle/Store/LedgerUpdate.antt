-- ===== src/Lifecycle/Store/LedgerUpdate.antt =====
-- `UpsertCommittedFromLedger` against what it means: the ledger's definitions are facts, and a
-- store keeps for each name the fact of the greatest sequence.
use fabric_x_chaincode_compa.Prelude.{
  ℕ, ◌+◌, ◌≡◌, refl, Bool, true, false, inl, inr, Bool-cases, bool_eq, ◌&&◌, ◌||◌, Option, none,
  some, String, arith, ◌==◌, eq_refl, if◌then◌else◌,
}
use fabric_x_chaincode_compa.Prelude.Int.{eqb_ℤ, ltb_ℤ}
use fabric_x_chaincode_compa.Prelude.Exec.{Result, ok, ◌>>=◌}
use fabric_x_chaincode_compa.Lifecycle.Definition.{
  ChaincodeDefinition, Error, validate_definition, definition_matches_refl,
}
use fabric_x_chaincode_compa.Lifecycle.Store.State.{
  Store, CommittedDefinition, statement, query, execute, check, present,
}
use fabric_x_chaincode_compa.Lifecycle.Store.Table.{upserted}
use fabric_x_chaincode_compa.Lifecycle.Store.Operations.{or_now, get_committed}
use fabric_x_chaincode_compa.Lifecycle.Store.Commits.{
  merge_committed, put_committed, check_active, upsert_committed, hydrate,
  upsert_committed_from_ledger,
}
use fabric_x_chaincode_compa.Lifecycle.Store.Revisions.{view, view-name, view-put_committed_self}

-- A definition that the ledger holds, with its initialization flag.
pub record Fact : Type 0 where
  pub definition : ChaincodeDefinition
  pub initialized : Bool

abbrev pub fact : Option CommittedDefinition → Option Fact
fact none = none
fact (some c) = some (record { definition = c.definition; initialized = c.initialized })

-- The greater sequence wins, and at the same sequence the flags are joined.
abbrev pub absorb : Fact → Option Fact → Option Fact
absorb f none = some f
absorb f (some g) =
    if ltb_ℤ f.definition.sequence g.definition.sequence
    then some g
    else if ltb_ℤ g.definition.sequence f.definition.sequence
    then some f
    else some (record { definition = g.definition; initialized = g.initialized || f.initialized })

-- No statement fails.
pub record IsHealthy (s : Store) : Type 0 where
  pub works : (n : ℕ) → s.broken n ≡ false

-- The row of this name, if its sequence is the fact's, is of the fact's definition.
abbrev pub Agrees : Fact → Option CommittedDefinition → Type 0
Agrees f none = Unit
Agrees f (some c) =
    (eqb_ℤ c.definition.sequence f.definition.sequence ≡ true) → (c.definition ≡ f.definition)

abbrev ledger_row : String → ChaincodeDefinition → Bool → CommittedDefinition
ledger_row now def b = record { definition = def; committed_at = or_now now now; initialized = b }

abbrev tick : Store → Store
tick s = record s { statements = s.statements + 1 }

get_committed-run :
    (name : String) (s : Store)
    → IsHealthy s
    → (name == "") ≡ false
    → get_committed name s ≡ (ok (view s name), tick s)
unfolding get_committed present query statement view ◌>>=◌
get_committed-run name s h e = ground (arith, h.works s.statements)

valid-name : (def : ChaincodeDefinition) → validate_definition def ≡ none → (def.name == "") ≡ false
unfolding validate_definition
valid-name def v = ground arith

put_committed-IsHealthy :
    (row : CommittedDefinition) (s : Store) → IsHealthy s → IsHealthy (put_committed row s)
unfolding put_committed
put_committed-IsHealthy row s h = record { works = h.works }

tick-IsHealthy : (s : Store) → IsHealthy s → IsHealthy (tick s)
tick-IsHealthy s h = record { works = h.works }

view-tick : (s : Store) (name : String) → view (tick s) name ≡ view s name
unfolding view
view-tick s name = refl

upsert_committed-run :
    (now : String) (def : ChaincodeDefinition) (b : Bool) (s : Store)
    → IsHealthy s
    → validate_definition def ≡ none
    → upsert_committed now (record { definition = def; committed_at = now; initialized = b }) s
      ≡ check_active def
          (some (
            upserted
              (merge_committed (ledger_row now def b))
              (ledger_row now def b)
              (view s def.name)))
          (tick (put_committed (ledger_row now def b) (tick s)))
unfolding upsert_committed check execute statement ◌>>=◌
upsert_committed-run now def b s h v =
    let row = ledger_row now def b in
    let t = put_committed row (tick s) in
    rw (v, h.works s.statements)
      (rw
        (get_committed-run def.name t (put_committed-IsHealthy row (tick s) (tick-IsHealthy s h))
          (valid-name def v))
        (rw (view-put_committed_self row (tick s)) (rw (view-tick s def.name) refl)))

-- The definition that a fact agrees with survives the merge as the fact is absorbed.
merged-fact :
    (now : String) (def : ChaincodeDefinition) (b : Bool) (o : Option CommittedDefinition)
    → ((c : CommittedDefinition) → o ≡ some c → c.definition.name ≡ def.name)
    → Agrees (record { definition = def; initialized = b }) o
    → fact (some (upserted (merge_committed (ledger_row now def b)) (ledger_row now def b) o))
      ≡ absorb (record { definition = def; initialized = b }) (fact o)
unfolding merge_committed
merged-fact now def b none n a = refl
merged-fact now def b (some c) n a = ground (arith, a, eq_refl def.version)

merged-Agrees :
    (now : String) (def : ChaincodeDefinition) (b : Bool) (o : Option CommittedDefinition)
    → ((c : CommittedDefinition) → o ≡ some c → c.definition.name ≡ def.name)
    → Agrees (record { definition = def; initialized = b }) o
    → Agrees
        (record { definition = def; initialized = b })
        (some (upserted (merge_committed (ledger_row now def b)) (ledger_row now def b) o))
unfolding merge_committed
merged-Agrees now def b none n a h = refl
merged-Agrees now def b (some c) n a h = ground (arith, a)

check_active-Agrees :
    (def : ChaincodeDefinition) (b : Bool) (c : CommittedDefinition) (s : Store)
    → Agrees (record { definition = def; initialized = b }) (some c)
    → check_active def (some c) s ≡ (ok c, s)
unfolding check_active ◌>>=◌
check_active-Agrees def b c s a = ground (arith, a, definition_matches_refl def)

-- The outcome of an update: it returns the row that is then active, whose fact is this one.
abbrev pub Updates :
    ChaincodeDefinition → Option Fact → Result Error CommittedDefinition × Store → Type 0
Updates def f r =
    (c : CommittedDefinition) × (r.0 ≡ ok c) × (view r.1 def.name ≡ some c) × (fact (some c) ≡ f)

module _ (now : String) (def : ChaincodeDefinition) (b : Bool)
    (v : validate_definition def ≡ none) where
  abbrev the_fact : Fact
  the_fact = record { definition = def; initialized = b }

  upsert-Updates :
      (s : Store)
      → IsHealthy s
      → Agrees the_fact (view s def.name)
      → Updates def (absorb the_fact (fact (view s def.name))) (
          upsert_committed now (record { definition = def; committed_at = now; initialized = b }) s)
  upsert-Updates s h a =
      let row = ledger_row now def b in
      let c = upserted (merge_committed row) row (view s def.name) in
      rw (upsert_committed-run now def b s h v) (
        rw (check_active-Agrees def b c _ (merged-Agrees now def b _ (view-name s def.name) a)) (
          c,
          refl,
          rw (view-tick (put_committed row (tick s)) def.name)
              (rw (view-put_committed_self row (tick s)) (rw (view-tick s def.name))),
          merged-fact now def b _ (view-name s def.name) a,
        ))

  -- the rows that an update leaves as they are
  abbrev settled : CommittedDefinition → Bool
  settled c =
      ltb_ℤ def.sequence c.definition.sequence
      || (eqb_ℤ c.definition.sequence def.sequence && (c.initialized || bool_eq c.initialized b))

  hydrate-some :
      (s : Store) (c : CommittedDefinition)
      → Agrees the_fact (some c)
      → hydrate now def b (some c) s ≡ (
          if settled c
          then (ok c, s)
          else upsert_committed now
              (record { definition = def; committed_at = now; initialized = b })
              s)
  unfolding hydrate ◌>>=◌
  hydrate-some s c a = ground (arith, a, definition_matches_refl def)

  settled-absorb :
      (c : CommittedDefinition)
      → Agrees the_fact (some c)
      → settled c ≡ true
      → fact (some c) ≡ absorb the_fact (fact (some c))
  settled-absorb c a h = ground (arith, a)

  hydrate-Updates :
      (s : Store) (o : Option CommittedDefinition)
      → IsHealthy s
      → view s def.name ≡ o
      → Agrees the_fact o
      → Updates def (absorb the_fact (fact o)) (hydrate now def b o s)
  unfolding hydrate
  hydrate-Updates s none h e a = rw e at (upsert-Updates s h (rw e a))
  hydrate-Updates s (some c) h e a = rw (hydrate-some s c a) (elim (Bool-cases (settled c)) [
    | inl old ↦ rw old (c, refl, e, settled-absorb c a old)
    | inr new ↦ rw new (rw e at (upsert-Updates s h (rw e a)))
  ])

  -- With a working database, an update by a valid definition that agrees with the row of its
  -- sequence succeeds, returns the row that is then active, and leaves for its name what absorbing the
  -- fact means: the greater sequence, and at the same sequence the join of the flags.
  pub ledger_update-refines :
      (s : Store)
      → IsHealthy s
      → Agrees the_fact (view s def.name)
      → Updates def
          (absorb the_fact (fact (view s def.name)))
          (upsert_committed_from_ledger now def b s)
  unfolding upsert_committed_from_ledger check ◌>>=◌
  ledger_update-refines s h a = rw v (
      rw (get_committed-run def.name s h (valid-name def v))
        (hydrate-Updates (tick s) (view s def.name) (tick-IsHealthy s h) (view-tick s def.name) a))
