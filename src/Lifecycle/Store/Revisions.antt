-- ===== src/Lifecycle/Store/Revisions.antt =====
-- The active definition of a name only moves forward, whatever the store is asked to do.
use fabric_x_chaincode_compa.Prelude.{
  ◌≡◌, refl, subst, ◌∙◌, Bool, true, false, ◌&&◌, ◌⊎◌, inl, inr, Option, none, some, String, arith,
  ◌==◌, eq_iff, eq_refl, Bool-cases, if◌then◌else◌,
}
use fabric_x_chaincode_compa.Prelude.Int.{◌<ℤ◌, eqb_ℤ}
use fabric_x_chaincode_compa.Prelude.Exec.{IsOrder}
use fabric_x_chaincode_compa.Lifecycle.Definition.{ChaincodeDefinition}
use fabric_x_chaincode_compa.Lifecycle.Store.State.{Store, CommittedDefinition}
use fabric_x_chaincode_compa.Lifecycle.Store.Table.{
  select, upserted, select-upsert_self, select-upsert_ne, select-update_where, hit-select,
}
use fabric_x_chaincode_compa.Lifecycle.Store.Operations.{has_name}
use fabric_x_chaincode_compa.Lifecycle.Store.Commits.{
  merge_committed, put_committed, set_initialized,
}

-- The active definition of a name, as a query sees it.
unfoldable pub view : Store → String → Option CommittedDefinition
view s name = select (has_name name) s.committed

-- A later sequence, or the same definition with an initialization that is not lost.
abbrev pub Follows : CommittedDefinition → CommittedDefinition → Type 0
Follows c d =
    (c.definition.sequence <ℤ d.definition.sequence)
    ⊎ ((c.definition ≡ d.definition) × (c.initialized ≡ true → d.initialized ≡ true))

abbrev pub Later : Option CommittedDefinition → Option CommittedDefinition → Type 0
Later none o = Unit
Later (some c) none = ⊥
Later (some c) (some d) = Follows c d

pub Follows-trans : (a b c : CommittedDefinition) → Follows a b → Follows b c → Follows a c
Follows-trans a b c (inl p) (inl q) = inl (omega arith)
Follows-trans a b c (inl p) (inr q) = inl (ground arith)
Follows-trans a b c (inr p) (inl q) = inl (ground arith)
Follows-trans a b c (inr p) (inr q) = inr (p.0 ∙ q.0, λ h. q.1 (p.1 h))

pub Later-refl : (o : Option CommittedDefinition) → Later o o
Later-refl none = tt
Later-refl (some c) = inr (refl, λ h. h)

pub Later-trans : (o p q : Option CommittedDefinition) → Later o p → Later p q → Later o q
Later-trans none p q h k = tt
Later-trans (some c) none q h k = absurd h
Later-trans (some c) (some d) none h k = absurd k
Later-trans (some c) (some d) (some e) h k = Follows-trans c d e h k

pub record Advances (s t : Store) : Type 0 where
  pub at_name : (name : String) → Later (view s name) (view t name)

pub Advances-IsOrder : IsOrder Advances
Advances-IsOrder = record {
  same = λ s. record { at_name = λ n. Later-refl (view s n) };
  chain = λ s t u p q. record {
    at_name = λ n. Later-trans (view s n) (view t n) (view u n) (p.at_name n) (q.at_name n);
  };
}

-- Where the committed table is the same, so is the view.
pub Advances-same : (s t : Store) → t.committed ≡ s.committed → Advances s t
unfolding view
Advances-same s t e = record { at_name = λ n. rw e (Later-refl (select (has_name n) s.committed)) }

pub merge_committed-Follows :
    (row old : CommittedDefinition)
    → old.definition.name ≡ row.definition.name
    → Follows old (merge_committed row old)
unfolding merge_committed
merge_committed-Follows row old e =
    ground (arith, eq_iff row.definition.version old.definition.version)

merge_committed-name :
    (row old : CommittedDefinition)
    → old.definition.name ≡ row.definition.name
    → (merge_committed row old).definition.name ≡ row.definition.name
unfolding merge_committed
merge_committed-name row old e = ground arith

upserted-Later :
    (row : CommittedDefinition) (o : Option CommittedDefinition)
    → ((c : CommittedDefinition) → o ≡ some c → c.definition.name ≡ row.definition.name)
    → Later o (some (upserted (merge_committed row) row o))
upserted-Later row none h = tt
upserted-Later row (some c) h = merge_committed-Follows row c (h c refl)

named : {n m : String} → (n == m) ≡ true → n ≡ m
named {n} {m} h = (eq_iff n m).0 h

same_name : (n : String) → (n == n) ≡ true
same_name n = eq_refl n

pub view-name :
    (s : Store) (n : String) (c : CommittedDefinition) → view s n ≡ some c → c.definition.name ≡ n
unfolding view
view-name s n c h = named (hit-select (has_name n) s.committed h)

module _ (row : CommittedDefinition) (s : Store) where
  -- What a name's view becomes by the insertion of a committed definition.
  pub view-put_committed_self :
      view (put_committed row s) row.definition.name
      ≡ some (upserted (merge_committed row) row (view s row.definition.name))
  unfolding view put_committed
  view-put_committed_self =
      select-upsert_self (has_name row.definition.name) (merge_committed row) row s.committed
        (same_name row.definition.name)
        λ r h. rw (merge_committed-name row r (named h)) (same_name row.definition.name)

  pub view-put_committed_ne :
      (n : String) → (row.definition.name == n) ≡ false → view (put_committed row s) n ≡ view s n
  unfolding view put_committed
  view-put_committed_ne n ne =
      select-upsert_ne (has_name row.definition.name) (has_name n) (merge_committed row) row
        s.committed ne λ r h. (rw (named h) ne, rw (merge_committed-name row r (named h)) ne)

  put_committed-Later :
      (n : String)
      → ((row.definition.name == n) ≡ true) ⊎ ((row.definition.name == n) ≡ false)
      → Later (view s n) (view (put_committed row s) n)
  put_committed-Later n (inl e) =
      subst (λ m. Later (view s m) (view (put_committed row s) m)) (named e)
        (rw view-put_committed_self
          (upserted-Later row (view s row.definition.name) (view-name s row.definition.name)))
  put_committed-Later n (inr e) = rw (view-put_committed_ne n e) (Later-refl (view s n))

  pub put_committed-Advances : Advances s (put_committed row s)
  put_committed-Advances = record {
    at_name = λ n. put_committed-Later n (Bool-cases (row.definition.name == n));
  }

-- `UPDATE … SET initialized = 1` touches no definition and no other flag.
marked-Later :
    (hit : CommittedDefinition → Bool) (now : String) (o : Option CommittedDefinition)
    → Later o (elim o [
      | none ↦ none
      | some r ↦ some (if hit r then record r { initialized = true; committed_at = now } else r)
    ])
marked-Later hit now none = tt
marked-Later hit now (some c) = inr (ground arith, λ h. ground arith)

pub set_initialized-Advances :
    (now : String) (def : ChaincodeDefinition) (s : Store) → Advances s (set_initialized now def s)
unfolding view set_initialized
set_initialized-Advances now def s = record {
  at_name = λ n.
      rw
        (select-update_where
          (λ r.
            r.definition.name == def.name
            && eqb_ℤ r.definition.sequence def.sequence
            && r.definition.version == def.version
            && r.definition.init_required)
          (has_name n) (λ r. record r { initialized = true; committed_at = now }) s.committed
          (λ r h. refl))
        (marked-Later _ now (select (has_name n) s.committed));
}
