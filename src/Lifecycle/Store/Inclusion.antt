-- ===== src/Lifecycle/Store/Inclusion.antt =====
-- What an update from the ledger leaves in the lifecycle store.
use fabric_x_chaincode_compa.Prelude.{
  ◌≡◌, sym, subst, ◌∙◌, ap, ◌⊎◌, inl, inr, Bool, Option, none, some, String, arith,
}
use fabric_x_chaincode_compa.Prelude.Int.{◌≤ℤ◌}
use fabric_x_chaincode_compa.Prelude.Exec.{ok, pure, fail, bind-ok}
use fabric_x_chaincode_compa.Lifecycle.Definition.{ChaincodeDefinition}
use fabric_x_chaincode_compa.Lifecycle.Store.State.{Store, CommittedDefinition, check}
use fabric_x_chaincode_compa.Lifecycle.Store.Table.{upserted}
use fabric_x_chaincode_compa.Lifecycle.Store.Operations.{get_committed}
use fabric_x_chaincode_compa.Lifecycle.Store.Commits.{
  merge_committed, upsert_committed, hydrate, upsert_committed_from_ledger,
}
use fabric_x_chaincode_compa.Lifecycle.Store.Lookups.{get_committed-ok}
use fabric_x_chaincode_compa.Lifecycle.Store.Activation.{
  stamped, upsert_committed-ok, upsert_committed-view, view-SameTables,
}
use fabric_x_chaincode_compa.Lifecycle.Store.Revisions.{view, Later}

-- The store has an active definition of this name that is not older than `def`.
abbrev pub Includes : ChaincodeDefinition → Option CommittedDefinition → Type 0
Includes def none = ⊥
Includes def (some c) = def.sequence ≤ℤ c.definition.sequence

pub Includes-Later :
    (def : ChaincodeDefinition) (o p : Option CommittedDefinition)
    → Includes def o
    → Later o p
    → Includes def p
Includes-Later def none p h k = absurd h
Includes-Later def (some c) none h k = absurd k
Includes-Later def (some c) (some d) h (inl k) = omega arith
Includes-Later def (some c) (some d) h (inr (e, k)) = subst (λ x. def.sequence ≤ℤ x.sequence) e h

merged-Includes :
    (row : CommittedDefinition) (o : Option CommittedDefinition)
    → Includes row.definition (some (upserted (merge_committed row) row o))
unfolding merge_committed
merged-Includes row none = omega arith
merged-Includes row (some old) = ground arith

upsert-Includes :
    (now : String) (row : CommittedDefinition) (s : Store) {t : Store} {c : CommittedDefinition}
    → upsert_committed now row s ≡ (ok c, t)
    → Includes row.definition (view t row.definition.name)
upsert-Includes now row s h =
    let (e, after) = upsert_committed-ok now row s h in
    subst (Includes row.definition) (sym (upsert_committed-view now row s h ∙ ap some e))
      (merged-Includes (stamped now row) (view s row.definition.name))

hydrate-Includes :
    (now : String) (def : ChaincodeDefinition) (b : Bool) (o : Option CommittedDefinition)
    (s : Store) {t : Store} {c : CommittedDefinition}
    → view s def.name ≡ o
    → hydrate now def b o s ≡ (ok c, t)
    → Includes def (view t def.name)
unfolding hydrate pure fail
hydrate-Includes now def b none s e h =
    upsert-Includes now (record { definition = def; committed_at = now; initialized = b }) s h
hydrate-Includes now def b (some c) s {t} {c = d} e h = elim either [
  | inl k ↦
      upsert-Includes now (record { definition = def; committed_at = now; initialized = b }) s k
  | inr (same, k) ↦ rw (ap (λ x. view x def.name) same ∙ e) k
]
  where
    either :
        (upsert_committed now (record { definition = def; committed_at = now; initialized = b }) s
          ≡ (ok d, t))
        ⊎ ((t ≡ s) × (def.sequence ≤ℤ c.definition.sequence))
    either = ground arith

pub update-Includes :
    (now : String) (def : ChaincodeDefinition) (b : Bool) (s : Store) {t : Store}
    {c : CommittedDefinition}
    → upsert_committed_from_ledger now def b s ≡ (ok c, t)
    → Includes def (view t def.name)
unfolding upsert_committed_from_ledger
update-Includes now def b s h =
    let (u, s1, checked, h1) = bind-ok (check _) _ h in
    let (o, s2, looked, h2) = bind-ok (get_committed def.name) _ h1 in
    let (is, same) = get_committed-ok def.name looked in
    hydrate-Includes now def b o s2 (view-SameTables def.name same ∙ sym is) h2
