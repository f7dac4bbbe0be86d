-- ===== src/Lifecycle/Store/Approval.antt =====
-- What a successful approval needs and does.
use fabric_x_chaincode_compa.Prelude.{
  ◌≡◌, sym, subst, ◌∙◌, ap, true, false, ◌⊎◌, inl, inr, Option, none, some, List, String, arith,
  eq_iff, eq_refl, Bool-cases, if◌then◌else◌,
}
use fabric_x_chaincode_compa.Prelude.Int.{eqb_ℤ}
use fabric_x_chaincode_compa.Prelude.Exec.{ok, bind-ok, pure-ok, pure, ◌>>=◌, ◌>>◌}
use fabric_x_chaincode_compa.Lifecycle.Definition.{
  ChaincodeDefinition, Error, validate_definition, validate_next_sequence, definition_matches,
  definition_matches→eq,
}
use fabric_x_chaincode_compa.Lifecycle.Store.State.{
  Store, InstalledPackage, ApprovedDefinition, ApprovalRow, CommittedDefinition, M, statement,
  execute, check, found, present,
}
use fabric_x_chaincode_compa.Lifecycle.Store.Table.{
  select, select-upsert_self, select-delete_where_self,
}
use fabric_x_chaincode_compa.Lifecycle.Store.Operations.{
  has_id, has_approval_key, has_connection_key, joined, approval_matches, active_definition,
  get_installed, get_committed, get_approval, check_revision, put_approval, drop_connection,
  record_approval, approve_or_reuse, approve_for_my_org,
}
use fabric_x_chaincode_compa.Lifecycle.Store.Revisions.{view}
use fabric_x_chaincode_compa.Lifecycle.Store.Lookups.{
  SameTables, SameTables-refl, SameTables-trans, approval_of, installed_of, check-ok, present-ok,
  get_committed-ok, get_installed-ok, get_approval-ok,
}
use fabric_x_chaincode_compa.Lifecycle.Store.Activation.{
  view-SameTables, approval_of-SameTables, validate_next-ok,
}

-- The revision is the active one itself, or passes the revision rule.
abbrev pub Allowed : ChaincodeDefinition → Option CommittedDefinition → Type 0
Allowed def o =
    (active_definition o ≡ some def) ⊎ (validate_next_sequence (active_definition o) def ≡ none)

check_revision-ok :
    (def : ChaincodeDefinition) (o : Option CommittedDefinition) {s t : Store} {u : Unit {0}}
    → view s def.name ≡ o
    → check_revision def o s ≡ (ok u, t)
    → Allowed def o × SameTables s t
unfolding check_revision
check_revision-ok def none e h =
    let (valid, tables) = validate_next-ok def h in (inr (rw e at valid), tables)
check_revision-ok def (some c) {s} {t} e h =
    go (Bool-cases (eqb_ℤ c.definition.sequence def.sequence)) h
  where
    go :
        ((eqb_ℤ c.definition.sequence def.sequence ≡ true)
          ⊎ (eqb_ℤ c.definition.sequence def.sequence ≡ false))
        → check_revision def (some c) s ≡ (ok tt, t)
        → Allowed def (some c) × SameTables s t
    go (inl same) k =
        let (m, e') =
          check-ok
            (if definition_matches c.definition def then none else some Error.approval_mismatch)
            (rw same at k) in
        (
          inl (ap some (definition_matches→eq c.definition def (ground arith))),
          subst (SameTables s) e' (SameTables-refl s),
        )
    go (inr other) k =
        let (valid, tables) = validate_next-ok def (rw other at k) in (inr (rw e at valid), tables)

same_key :
    (def : ChaincodeDefinition) (msp id now : String)
    → has_approval_key def msp
        (record { definition = def; package_id = id; approving_msp = msp; approved_at = now })
      ≡ true
same_key def msp id now = ground (arith, eq_refl def.name, eq_refl msp)

record_approval-ok :
    (now : String) (def : ChaincodeDefinition) (id address msp : String) (s : Store) {t : Store}
    {a : ApprovedDefinition}
    → record_approval now def id address msp s ≡ (ok a, t)
    → (a ≡ record {
      definition = def;
      package_id = id;
      approving_msp = msp;
      approved_at = now;
      package_address = address;
    })
      × (select (has_approval_key def msp) t.approved
          ≡ some (record {
            definition = def;
            package_id = id;
            approving_msp = msp;
            approved_at = now;
          }))
      × (select (has_connection_key msp def) t.connections ≡ none)
      × (t.installed ≡ s.installed)
      × (t.committed ≡ s.committed)
unfolding record_approval execute statement put_approval drop_connection ◌>>=◌
record_approval-ok now def id address msp s h =
    let row : ApprovalRow = record {
      definition = def;
      package_id = id;
      approving_msp = msp;
      approved_at = now;
    } in
    ground (
      arith,
      select-upsert_self (has_approval_key def msp) (λ _. row) row s.approved
          (same_key def msp id now) (λ r _. same_key def msp id now),
      select-delete_where_self (has_connection_key msp def) s.connections,
    )

-- What an approval on record says, for the package that its request named.
abbrev pub Binds : ChaincodeDefinition → String → InstalledPackage → ApprovedDefinition → Type 0
Binds def id p a = (a.definition ≡ def) × (a.package_id ≡ id) × (a.package_address ≡ p.address)

joined-address :
    (installed : List InstalledPackage) (o : Option ApprovalRow) (p : InstalledPackage)
    (a : ApprovedDefinition)
    → joined installed o ≡ some a
    → select (has_id a.package_id) installed ≡ some p
    → a.package_address ≡ p.address
unfolding joined
joined-address installed none p a h e = cc
joined-address installed (some row) p a h e = ground arith

-- The outcome of an approval in the store `s`.
abbrev pub Approves :
    ChaincodeDefinition
    → String
    → String
    → InstalledPackage
    → Store
    → ApprovedDefinition
    → Store
    → Type 0
Approves def id msp p s a t =
    Binds def id p a
    × (approval_of t def msp ≡ some a)
    × (t.committed ≡ s.committed)
    × ((approval_of s def msp ≡ some a)
        ⊎ (select (has_connection_key msp def) t.connections ≡ none))

module _ (now : String) (def : ChaincodeDefinition) (id msp : String) (p : InstalledPackage)
    (s0 s : Store) {t : Store} {a : ApprovedDefinition} (same : SameTables s0 s)
    (inst : installed_of s0 id ≡ some p) where
  recorded-Approves :
      record_approval now def id p.address msp s ≡ (ok a, t) → Approves def id msp p s0 a t
  unfolding approval_of installed_of joined
  recorded-Approves h =
      let (is, row, dropped, installed, committed) =
        record_approval-ok now def id p.address msp s h in
      (
        ground arith,
        rw (row, installed, same.installed, inst) (ground arith),
        committed ∙ same.committed,
        inr dropped,
      )

  reused-Approves :
      approval_of s0 def msp ≡ some a
      → approval_matches a def id ≡ true
      → t ≡ s
      → Approves def id msp p s0 a t
  unfolding approval_of installed_of
  reused-Approves e m is =
      let same_id : a.package_id ≡ id = (eq_iff a.package_id id).0 (ground arith) in
      let bound : select (has_id a.package_id) s0.installed ≡ some p = rw same_id inst in
      (
        (
          definition_matches→eq a.definition def (ground arith),
          same_id,
          joined-address s0.installed (select (has_approval_key def msp) s0.approved) p a e bound,
        ),
        rw (is, same.installed, same.approved) e,
        ap (λ (x : Store). x.committed) is ∙ same.committed,
        inl e,
      )

  approve_or_reuse-Approves :
      (o : Option ApprovedDefinition)
      → approval_of s0 def msp ≡ o
      → approve_or_reuse now def id p.address msp o s ≡ (ok a, t)
      → Approves def id msp p s0 a t
  unfolding approve_or_reuse pure
  approve_or_reuse-Approves none e h = recorded-Approves h
  approve_or_reuse-Approves (some b) e h = elim (Bool-cases (approval_matches b def id)) [
    | inl m ↦
        let (is, kept) = pure-ok (rw m at h) in reused-Approves (e ∙ ap some is) (rw is at m) kept
    | inr m ↦ recorded-Approves (rw m at h)
  ]

-- The steps of an approval after its package is looked up.
abbrev pub approve_installed :
    String → ChaincodeDefinition → String → String → InstalledPackage → M ApprovedDefinition
approve_installed now def id msp p = do
  current ← get_committed def.name
  check_revision def current
  existing ← get_approval def msp
  approve_or_reuse now def id p.address msp existing

approve_installed-ok :
    (now : String) (def : ChaincodeDefinition) (id msp : String) (p : InstalledPackage)
    (s0 s : Store) {t : Store} {a : ApprovedDefinition}
    → SameTables s0 s
    → installed_of s0 id ≡ some p
    → approve_installed now def id msp p s ≡ (ok a, t)
    → Allowed def (view s0 def.name) × Approves def id msp p s0 a t
approve_installed-ok now def id msp p s0 s same inst h =
    let (o, s1, looked, h1) = bind-ok (get_committed def.name) _ h in
    let (current, same1) = get_committed-ok def.name looked in
    let (u, s2, checked, h2) = bind-ok (check_revision def o) _ h1 in
    let at1 = SameTables-trans same same1 in
    let seen : view s1 def.name ≡ o = view-SameTables def.name same1 ∙ sym current in
    let (allowed, same2) = check_revision-ok def o seen checked in
    let (e, s3, looked', h3) = bind-ok (get_approval def msp) _ h2 in
    let at2 = SameTables-trans at1 same2 in
    let (valid, existing, same3) = get_approval-ok def msp looked' in
    (
      subst (Allowed def) (current ∙ view-SameTables def.name same) allowed,
      approve_or_reuse-Approves now def id msp p s0 s3 (SameTables-trans at2 same3) inst e
          (sym (existing ∙ approval_of-SameTables def msp at2)) h3,
    )

pub found-ok :
    {A : Type 0} (e : Error) (o : Option A) {s t : Store} {a : A}
    → found e o s ≡ (ok a, t)
    → (o ≡ some a) × (t ≡ s)
unfolding found ◌>>=◌
found-ok e none h = ground arith
found-ok e (some b) h = ground arith

-- An approval that succeeds is of a valid definition and of a package that is installed under the
-- given ID; the definition is the active revision or passes the revision rule. The returned
-- approval binds exactly this definition and package, with the package's address, and is the one
-- on record afterwards. It changes no committed definition, and either it was there before, or no
-- cached connection is left for its MSP, name and sequence.
pub approve_for_my_org-ok :
    (now : String) (def : ChaincodeDefinition) (id msp : String) (s : Store) {t : Store}
    {a : ApprovedDefinition}
    → approve_for_my_org now def id msp s ≡ (ok a, t)
    → (validate_definition def ≡ none)
      × Allowed def (view s def.name)
      × ((p : InstalledPackage) × (installed_of s id ≡ some p) × Approves def id msp p s a t)
unfolding approve_for_my_org
approve_for_my_org-ok now def id msp s h =
    let (u, s1, checked, h1) = bind-ok (check (validate_definition def)) _ h in
    let (valid, e1) = check-ok (validate_definition def) checked in
    let (v, s2, given, h2) = bind-ok (present Error.package_id_required id) _ h1 in
    let (some_id, e2) = present-ok Error.package_id_required id given in
    let (w, s3, given', h3) = bind-ok (present Error.approving_msp_required msp) _ h2 in
    let (some_msp, e3) = present-ok Error.approving_msp_required msp given' in
    let (o, s4, looked, h4) = bind-ok (get_installed id) _ h3 in
    let (inst, same) = get_installed-ok id looked in
    let (p, s5, got, h5) = bind-ok (found Error.not_installed o) _ h4 in
    let (is, e5) = found-ok Error.not_installed o got in
    let from : s ≡ s3 = e1 ∙ e2 ∙ e3 in
    let inst' : installed_of s id ≡ some p =
      subst (λ x. installed_of x id ≡ some p) (sym from) (sym inst ∙ is) in
    let same' : SameTables s s5 =
      subst (λ x. SameTables x s5) (sym from) (subst (SameTables s3) (sym e5) same) in
    let (allowed, approves) = approve_installed-ok now def id msp p s s5 same' inst' h5 in
    (valid, allowed, (p, inst', approves))
