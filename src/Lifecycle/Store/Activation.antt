-- ===== src/Lifecycle/Store/Activation.antt =====
-- What a successful commitment of a definition needs and does.
use fabric_x_chaincode_compa.Prelude.{
  ◌+◌, ◌≡◌, refl, sym, subst, ◌∙◌, ap, Bool, true, false, not, Option, none, some, String, arith,
  if◌then◌else◌,
}
use fabric_x_chaincode_compa.Prelude.Exec.{ok, bind-ok, ◌>>=◌}
use fabric_x_chaincode_compa.Lifecycle.Definition.{
  ChaincodeDefinition, Error, validate_definition, validate_next_sequence, definition_matches→eq,
}
use fabric_x_chaincode_compa.Lifecycle.Store.State.{
  Store, ApprovedDefinition, CommittedDefinition, statement, query, execute, check, present,
}
use fabric_x_chaincode_compa.Lifecycle.Store.Table.{upserted}
use fabric_x_chaincode_compa.Lifecycle.Store.Commits.{
  merge_committed, put_committed, check_active, upsert_committed, commit_definition,
}
use fabric_x_chaincode_compa.Lifecycle.Store.Operations.{
  or_now, matches, active_definition, get_committed, get_approval, has_matching_approval,
  validate_next, validate_commit_definition,
}
use fabric_x_chaincode_compa.Lifecycle.Store.Revisions.{view, view-put_committed_self}
use fabric_x_chaincode_compa.Lifecycle.Store.Lookups.{
  SameTables, SameTables-trans, approval_of, check-ok, get_committed-ok,
}

pub view-SameTables : {s t : Store} (name : String) → SameTables s t → view t name ≡ view s name
unfolding view
view-SameTables name h = ground arith

pub approval_of-SameTables :
    {s t : Store} (def : ChaincodeDefinition) (msp : String)
    → SameTables s t
    → approval_of t def msp ≡ approval_of s def msp
unfolding approval_of
approval_of-SameTables def msp h = rw (h.installed, h.approved)

pub validate_next-ok :
    (def : ChaincodeDefinition) {s t : Store} {u : Unit {0}}
    → validate_next def s ≡ (ok u, t)
    → (validate_next_sequence (active_definition (view s def.name)) def ≡ none) × SameTables s t
unfolding validate_next
validate_next-ok def h =
    let (o, s1, looked, rest) = bind-ok (get_committed def.name) _ h in
    let (same, tables) = get_committed-ok def.name looked in
    let (valid, e) = check-ok (validate_next_sequence (active_definition o) def) rest in
    (rw same at valid, subst (SameTables _) e tables)

pub has_matching_approval-ok :
    (def : ChaincodeDefinition) (msp : String) {s t : Store} {b : Bool}
    → has_matching_approval def msp s ≡ (ok b, t)
    → (b ≡ matches def (approval_of s def msp)) × SameTables s t
unfolding has_matching_approval check query statement get_approval approval_of ◌>>=◌
has_matching_approval-ok def msp h = ground arith

pub matched :
    (def : ChaincodeDefinition) (o : Option ApprovedDefinition)
    → matches def o ≡ true
    → (a : ApprovedDefinition) × (o ≡ some a) × (a.definition ≡ def)
matched def none h = cc
matched def (some a) h = (a, refl, definition_matches→eq a.definition def h)

pub validate_commit_definition-ok :
    (def : ChaincodeDefinition) (msp : String) {s t : Store} {u : Unit {0}}
    → validate_commit_definition def msp s ≡ (ok u, t)
    → (validate_next_sequence (active_definition (view s def.name)) def ≡ none)
      × (matches def (approval_of s def msp) ≡ true)
      × SameTables s t
unfolding validate_commit_definition
validate_commit_definition-ok def msp {s} {t} h =
    let (b, s1, looked, rest) = bind-ok (has_matching_approval def msp) _ h in
    let (same, tables) = has_matching_approval-ok def msp looked in
    let (u, s2, checked, next) =
      bind-ok (check (if b then none else some Error.not_approved)) _ rest in
    let (approved, e) = check-ok (if b then none else some Error.not_approved) checked in
    let (valid, tables') = validate_next-ok def next in
    let back = subst (SameTables s) e tables in
    (
      rw (view-SameTables def.name back) at valid,
      sym same ∙ was_approved b approved,
      SameTables-trans back tables',
    )
  where
    was_approved : (b : Bool) → (if b then none else some Error.not_approved) ≡ none → b ≡ true
    was_approved true p = refl
    was_approved false p = cc

abbrev pub stamped : String → CommittedDefinition → CommittedDefinition
stamped now c = record c { committed_at = or_now c.committed_at now }

-- A successful upsert returns the row that is then active.
pub upsert_committed-ok :
    (now : String) (row : CommittedDefinition) (s : Store) {t : Store} {c : CommittedDefinition}
    → upsert_committed now row s ≡ (ok c, t)
    → (c
        ≡ upserted
            (merge_committed (stamped now row))
            (stamped now row)
            (view s row.definition.name))
      × (t.committed ≡ (put_committed (stamped now row) s).committed)
unfolding upsert_committed check execute statement get_committed present query check_active view
    put_committed ◌>>=◌
upsert_committed-ok now row s h =
    ground (
      arith,
      view-put_committed_self (stamped now row) (record s { statements = s.statements + 1 }),
    )

view-of_committed :
    (s t : Store) (name : String) → t.committed ≡ s.committed → view t name ≡ view s name
unfolding view
view-of_committed s t name e = rw e

pub upsert_committed-view :
    (now : String) (row : CommittedDefinition) (s : Store) {t : Store} {c : CommittedDefinition}
    → upsert_committed now row s ≡ (ok c, t)
    → view t row.definition.name ≡ some c
upsert_committed-view now row s h =
    let (e, after) = upsert_committed-ok now row s h in
    view-of_committed (put_committed (stamped now row) s) _ row.definition.name after
    ∙ view-put_committed_self (stamped now row) s
    ∙ ap some (sym e)

-- A definition that passes the revision rule replaces the row that is there.
pub upserted_next :
    (row : CommittedDefinition) (o : Option CommittedDefinition)
    → validate_next_sequence (active_definition o) row.definition ≡ none
    → upserted (merge_committed row) row o ≡ row
unfolding merge_committed validate_next_sequence validate_definition
upserted_next row none h = refl
upserted_next row (some old) h = ground arith

-- A commitment that succeeds was allowed and approved: the revision rule accepts the definition
-- after the one that was active, and this MSP's approval, joined with an installed package, is of
-- exactly this definition. Afterwards the returned definition is the active one, and it is
-- initialized if and only if it needs no initialization.
pub commit_definition-ok :
    (now : String) (def : ChaincodeDefinition) (msp : String) (s : Store) {t : Store}
    {c : CommittedDefinition}
    → commit_definition now def msp s ≡ (ok c, t)
    → (validate_next_sequence (active_definition (view s def.name)) def ≡ none)
      × ((a : ApprovedDefinition) × (approval_of s def msp ≡ some a) × (a.definition ≡ def))
      × (view t def.name ≡ some c)
      × (c.definition ≡ def)
      × (c.initialized ≡ not def.init_required)
unfolding commit_definition
commit_definition-ok now def msp s {t} {c} h =
    let row : CommittedDefinition = record {
      definition = def;
      committed_at = now;
      initialized = not def.init_required;
    } in
    let (u, s1, validated, h1) = bind-ok (validate_commit_definition def msp) _ h in
    let (valid, approved, tables) = validate_commit_definition-ok def msp validated in
    let valid' : validate_next_sequence (active_definition (view s1 def.name)) def ≡ none =
      rw (view-SameTables def.name tables) valid in
    let (e, after) = upsert_committed-ok now row s1 h1 in
    let e' = e ∙ upserted_next (stamped now row) (view s1 def.name) valid' in
    (
      valid,
      matched def (approval_of s def msp) approved,
      upsert_committed-view now row s1 h1,
      ap (λ (x : CommittedDefinition). x.definition) e',
      ap (λ (x : CommittedDefinition). x.initialized) e',
    )
