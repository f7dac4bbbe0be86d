-- ===== src/Lifecycle/Store/Initialization.antt =====
-- What a successful `MarkInitialized` needs and does.
use fabric_x_chaincode_compa.Prelude.{
  ◌+◌, ◌≡◌, refl, sym, subst, ◌∙◌, true, ◌&&◌, some, String, arith, ◌==◌, eq_refl,
}
use fabric_x_chaincode_compa.Prelude.Int.{eqb_ℤ-refl, eqb_ℤ}
use fabric_x_chaincode_compa.Prelude.Exec.{ok, bind-ok, ◌>>=◌}
use fabric_x_chaincode_compa.Lifecycle.Definition.{
  ChaincodeDefinition, Error, validate_definition, definition_matches, definition_matches→eq,
}
use fabric_x_chaincode_compa.Lifecycle.Store.State.{
  Store, CommittedDefinition, statement, execute, check, found,
}
use fabric_x_chaincode_compa.Lifecycle.Store.Table.{select-update_where}
use fabric_x_chaincode_compa.Lifecycle.Store.Operations.{has_name, get_committed}
use fabric_x_chaincode_compa.Lifecycle.Store.Commits.{
  set_initialized, mark_committed, mark_initialized,
}
use fabric_x_chaincode_compa.Lifecycle.Store.Revisions.{view}
use fabric_x_chaincode_compa.Lifecycle.Store.Lookups.{check-ok, get_committed-ok}
use fabric_x_chaincode_compa.Lifecycle.Store.Activation.{view-SameTables}
use fabric_x_chaincode_compa.Lifecycle.Store.Approval.{found-ok}

-- The row of this very definition becomes the initialized one.
view-set_initialized :
    (now : String) (c : CommittedDefinition) (s : Store)
    → view s c.definition.name ≡ some c
    → c.definition.init_required ≡ true
    → view (set_initialized now c.definition s) c.definition.name
      ≡ some (record c { initialized = true; committed_at = now })
unfolding view set_initialized
view-set_initialized now c s e r =
    let def = c.definition in
    select-update_where
      (λ x.
        x.definition.name == def.name
        && eqb_ℤ x.definition.sequence def.sequence
        && x.definition.version == def.version
        && x.definition.init_required)
      (has_name def.name) (λ x. record x { initialized = true; committed_at = now }) s.committed
      (λ x h. refl)
    ∙ rw e (rw (eq_refl def.name, eqb_ℤ-refl def.sequence, eq_refl def.version, r) refl)

-- The outcome of a call for `def`, from the row `c` to the returned row `d` in the store `t`.
abbrev pub Initializes :
    ChaincodeDefinition → CommittedDefinition → CommittedDefinition → Store → Type 0
Initializes def c d t =
    (c.definition ≡ def)
    × (def.init_required ≡ true)
    × (d.definition ≡ def)
    × (d.initialized ≡ true)
    × (view t def.name ≡ some d)

mark_self-ok :
    (now : String) (c : CommittedDefinition) (s : Store) {t : Store} {d : CommittedDefinition}
    → view s c.definition.name ≡ some c
    → mark_committed now c.definition c s ≡ (ok d, t)
    → Initializes c.definition c d t
unfolding mark_committed execute statement view ◌>>=◌
mark_self-ok now c s e h =
    ground (arith, view-set_initialized now c (record s { statements = s.statements + 1 }) e)

marked_matches :
    (now : String) (def : ChaincodeDefinition) (c : CommittedDefinition) (s : Store) {t : Store}
    {d : CommittedDefinition}
    → mark_committed now def c s ≡ (ok d, t)
    → definition_matches c.definition def ≡ true
unfolding mark_committed ◌>>=◌
marked_matches now def c s h = ground arith

mark_committed-ok :
    (now : String) (def : ChaincodeDefinition) (c : CommittedDefinition) (s : Store) {t : Store}
    {d : CommittedDefinition}
    → view s def.name ≡ some c
    → mark_committed now def c s ≡ (ok d, t)
    → Initializes def c d t
mark_committed-ok now def c s {t} {d} e h =
    subst
      (λ (x : ChaincodeDefinition).
        view s x.name ≡ some c → mark_committed now x c s ≡ (ok d, t) → Initializes x c d t)
      (definition_matches→eq c.definition def (marked_matches now def c s h))
      (λ e h. mark_self-ok now c s e h) e h

-- A call that succeeds is for exactly the definition that was active, which needs initialization.
-- The returned row is of this definition, is initialized, and is the active one afterwards.
pub mark_initialized-ok :
    (now : String) (def : ChaincodeDefinition) (s : Store) {t : Store} {d : CommittedDefinition}
    → mark_initialized now def s ≡ (ok d, t)
    → (c : CommittedDefinition) × (view s def.name ≡ some c) × Initializes def c d t
unfolding mark_initialized
mark_initialized-ok now def s h =
    let (u, s1, checked, h1) = bind-ok (check (validate_definition def)) _ h in
    let (valid, e1) = check-ok (validate_definition def) checked in
    let (o, s2, looked, h2) = bind-ok (get_committed def.name) _ h1 in
    let (is, same) = get_committed-ok def.name looked in
    let (c, s3, got, h3) = bind-ok (found Error.not_committed o) _ h2 in
    let (e, kept) = found-ok Error.not_committed o got in
    let seen : view s1 def.name ≡ some c = sym is ∙ e in
    let now_seen : view s3 def.name ≡ some c =
      subst (λ x. view x def.name ≡ some c) (sym kept) (view-SameTables def.name same ∙ seen) in
    (
      c,
      subst (λ x. view x def.name ≡ some c) (sym e1) seen,
      mark_committed-ok now def c s3 now_seen h3,
    )
