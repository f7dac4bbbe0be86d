-- ===== src/Lifecycle/Store/Resolution.antt =====
-- `ResolveCommittedPackage` finds the package that the local organization approved.
use fabric_x_chaincode_compa.Prelude.{
  suc, length, eq_iff, ◌≡◌, refl, sym, subst, ◌∙◌, ap, Bool, true, false, false≢true, ◌⊎◌, inl, inr,
  Option, none, some, List, [], ◌∷◌, String, arith, ◌==◌, Bool-cases,
}
use fabric_x_chaincode_compa.Prelude.Exec.{ok, bind-ok, pure, fail, ◌>>=◌}
use fabric_x_chaincode_compa.Lifecycle.Definition.{Error, definition_matches, definition_matches→eq}
use fabric_x_chaincode_compa.Lifecycle.Store.State.{
  M, Store, InstalledPackage, ApprovedDefinition, CommittedDefinition, statement, query, found,
  present,
}
use fabric_x_chaincode_compa.Lifecycle.Store.Table.{select_all}
use fabric_x_chaincode_compa.Lifecycle.Store.Operations.{get_installed, get_approval}
use fabric_x_chaincode_compa.Lifecycle.Store.Listing.{
  insert_ordered, order_by, pair_leb, listed, list_committed, resolve_approved, resolve_listed,
  resolve_committed_package,
}
use fabric_x_chaincode_compa.Lifecycle.Store.Lookups.{
  SameTables, approval_of, installed_of, get_approval-ok, query-ok,
}
use fabric_x_chaincode_compa.Lifecycle.Store.Activation.{approval_of-SameTables}

module _ {A : Type 0} where
  abbrev pub Among : A → List A → Type 0
  Among x [] = ⊥
  Among x (y ∷ ys) = (x ≡ y) ⊎ Among x ys

  Among-insert_ordered :
      (before : A → A → Bool) (x a : A) (ys : List A)
      → Among x (insert_ordered before a ys)
      → Among x (a ∷ ys)
  unfolding insert_ordered
  Among-insert_ordered before x a [] h = h
  Among-insert_ordered before x a (y ∷ ys) h = ground (arith, Among-insert_ordered before x a ys)

  pub Among-order_by :
      (before : A → A → Bool) (x : A) (ys : List A) → Among x (order_by before ys) → Among x ys
  unfolding order_by
  Among-order_by before x [] h = h
  Among-order_by before x (y ∷ ys) h =
      ground
        (arith, Among-insert_ordered before x y (order_by before ys), Among-order_by before x ys)

  pub Among-select_all :
      (hit : A → Bool) (x : A) (ys : List A)
      → Among x (select_all hit ys)
      → Among x ys × (hit x ≡ true)
  unfolding select_all
  Among-select_all hit x [] h = absurd h
  Among-select_all hit x (y ∷ ys) h = ground (arith, Among-select_all hit x ys)

-- The local approval of the definition `c` names the installed package `p`.
abbrev pub Resolves : String → Store → CommittedDefinition → InstalledPackage → Type 0
Resolves msp s c p =
    (a : ApprovedDefinition) × (approval_of s c.definition msp ≡ some a)
    × (a.definition ≡ c.definition)
    × (installed_of s a.package_id ≡ some p)

installed_of-SameTables :
    {s t : Store} (id : String) → SameTables s t → installed_of t id ≡ installed_of s id
unfolding installed_of
installed_of-SameTables id h = rw h.installed

resolve_approved-ok :
    (c : CommittedDefinition) (msp : String) (o : Option ApprovedDefinition) (s : Store) {t : Store}
    {d : CommittedDefinition} {p : InstalledPackage}
    → approval_of s c.definition msp ≡ o
    → resolve_approved c msp o s ≡ (ok (some (d, p)), t)
    → (d ≡ c) × Resolves msp s c p
unfolding resolve_approved get_installed present query statement found installed_of ◌>>=◌
resolve_approved-ok c msp none s {t} {d} {p} e h = absurd (cc)
resolve_approved-ok c msp (some a) s {t} {d} {p} e h =
    let m : definition_matches a.definition c.definition ≡ true = ground arith in
    let (same, inst) : (d ≡ c) × (installed_of s a.package_id ≡ some p) = ground arith in
    (same, (a, e, definition_matches→eq a.definition c.definition m, inst))

-- the approval of a listed definition, and then its package
abbrev resolve_one :
    CommittedDefinition → String → M (Option (CommittedDefinition × InstalledPackage))
resolve_one c msp = do approval ← get_approval c.definition msp; resolve_approved c msp approval

resolve_one-ok :
    (c : CommittedDefinition) (msp : String) (s : Store) {t : Store} {d : CommittedDefinition}
    {p : InstalledPackage}
    → resolve_one c msp s ≡ (ok (some (d, p)), t)
    → (d ≡ c) × Resolves msp s c p
resolve_one-ok c msp s h =
    let (o, s1, looked, h1) = bind-ok (get_approval c.definition msp) _ h in
    let (valid, is, same) = get_approval-ok c.definition msp looked in
    let (e, (a, seen, def, inst)) =
      resolve_approved-ok c msp o s1 (approval_of-SameTables c.definition msp same ∙ sym is) h1 in
    (
      e,
      (
        a,
        sym (approval_of-SameTables c.definition msp same) ∙ seen,
        def,
        sym (installed_of-SameTables a.package_id same) ∙ inst,
      ),
    )

resolve_listed-ok :
    (name msp : String) (cs : List CommittedDefinition) (s : Store) {t : Store}
    {d : CommittedDefinition} {p : InstalledPackage}
    → resolve_listed name msp cs s ≡ (ok (some (d, p)), t)
    → Among d cs × ((name == "") ≡ true → cs ≡ d ∷ []) × Resolves msp s d p
unfolding resolve_listed pure fail
resolve_listed-ok name msp [] s h = absurd (cc)
resolve_listed-ok name msp (c ∷ []) s {t} {d} {p} h =
    let (e, r) = resolve_one-ok c msp s h in
    (inl e, λ _. ap (λ x. x ∷ []) (sym e), subst (λ x. Resolves msp s x p) (sym e) r)
resolve_listed-ok name msp (c ∷ c' ∷ more) s {t} {d} {p} h = elim (Bool-cases (name == "")) [
  | inl e ↦ absurd (many_fail (rw e at h))
  | inr e ↦
      let (same, r) = resolve_one-ok c msp s (rw e at h) in
      (inl same, λ k. absurd (false≢true (sym e ∙ k)), subst (λ x. Resolves msp s x p) (sym same) r)
]
  where
    many_fail :
        fail {S = Store} {A = Option (CommittedDefinition × InstalledPackage)} Error.many_committed
            s
          ≡ (ok (some (d, p)), t)
        → ⊥
    many_fail k = cc

module _ {A : Type 0} (before : A → A → Bool) where
  length-insert_ordered :
      (a : A) (ys : List A) → length (insert_ordered before a ys) ≡ suc (length ys)
  unfolding insert_ordered
  length-insert_ordered a [] = refl
  length-insert_ordered a (y ∷ ys) = ground (arith, length-insert_ordered a ys)

  length-order_by : (ys : List A) → length (order_by before ys) ≡ length ys
  unfolding order_by
  length-order_by [] = refl
  length-order_by (y ∷ ys) =
      length-insert_ordered y (order_by before ys) ∙ ap suc (length-order_by ys)

  order_by-single : (ys : List A) (d : A) → order_by before ys ≡ d ∷ [] → ys ≡ d ∷ []
  order_by-single [] d h = absurd (omega (arith, length-order_by [], ap length h))
  order_by-single (y ∷ []) d h = unfold order_by insert_ordered in h
  order_by-single (y ∷ z ∷ ys) d h =
      absurd (omega (arith, length-order_by (y ∷ z ∷ ys), ap length h))

all_listed :
    (name : String) (cs : List CommittedDefinition)
    → (name == "") ≡ true
    → select_all (listed name "") cs ≡ cs
unfolding select_all
all_listed name [] e = refl
all_listed name (c ∷ cs) e = rw e (ap (λ x. c ∷ x) (all_listed name cs e))

named_row :
    (name : String) (d : CommittedDefinition)
    → (name == "") ≡ false
    → listed name "" d ≡ true
    → (d.definition.name == name) ≡ true
named_row name d e h = ground arith

abbrev by_name : CommittedDefinition → CommittedDefinition → Bool
by_name c d = pair_leb c.definition.name c.definition.version d.definition.name d.definition.version

-- A resolution that succeeds returns a committed definition together with the installed package
-- that the local organization's approval of exactly this definition names. If a name was given,
-- the definition has that name; if none was, the definition is the only committed one.
pub resolve_committed_package-ok :
    (name msp : String) (s : Store) {t : Store} {d : CommittedDefinition} {p : InstalledPackage}
    → resolve_committed_package name msp s ≡ (ok (some (d, p)), t)
    → Among d s.committed
      × ((name == "") ≡ false → d.definition.name ≡ name)
      × ((name == "") ≡ true → s.committed ≡ d ∷ [])
      × Resolves msp s d p
unfolding resolve_committed_package list_committed
resolve_committed_package-ok name msp s {t} {d} {p} h =
    let (cs, s1, listing, h1) = bind-ok (list_committed name "") _ h in
    let (is, same) = query-ok _ listing in
    let (among, single, r) = resolve_listed-ok name msp cs s1 h1 in
    let (a, seen, def, inst) = r in
    let here : Among d s.committed × (listed name "" d ≡ true) =
      Among-select_all (listed name "") d s.committed
        (Among-order_by by_name d _ (subst (Among d) is among)) in
    (
      here.0,
      λ e. (eq_iff d.definition.name name).0 (named_row name d e here.1),
      λ e.
          sym (all_listed name s.committed e)
          ∙ order_by-single by_name (select_all (listed name "") s.committed) d (sym is ∙ single e),
      (
        a,
        sym (approval_of-SameTables d.definition msp same) ∙ seen,
        def,
        sym (installed_of-SameTables a.package_id same) ∙ inst,
      ),
    )
