-- ===== src/Lifecycle/Store/Commits.antt =====
-- The methods of `Store` in store.go that work on committed definitions and on connections.
use fabric_x_chaincode_compa.Prelude.{
  Bool, true, false, not, ◌&&◌, ◌||◌, Option, none, some, String, ◌==◌, bool_eq, if◌then◌else◌,
}
use fabric_x_chaincode_compa.Prelude.Int.{pos, eqb_ℤ, ltb_ℤ}
use fabric_x_chaincode_compa.Prelude.Exec.{◌>>=◌, ◌>>◌, pure, fail}
use fabric_x_chaincode_compa.Lifecycle.Definition.{
  ChaincodeDefinition, Error, validate_definition, definition_matches,
}
use fabric_x_chaincode_compa.Lifecycle.Store.State.{
  Store, CommittedDefinition, ResolvedConnection, M, query, execute, check, found, present,
}
use fabric_x_chaincode_compa.Lifecycle.Store.Table.{select, upsert, update_where}
use fabric_x_chaincode_compa.Lifecycle.Store.Operations.{
  has_name, has_connection_key, or_now, get_committed, validate_commit_definition,
}

-- The `DO UPDATE SET … WHERE …` of `upsertCommitted`: a row gives way to a later sequence, and to
-- the same definition, whose flag it keeps.
unfoldable pub merge_committed : CommittedDefinition → CommittedDefinition → CommittedDefinition
merge_committed excluded old =
    let new = excluded.definition in
    let was = old.definition in
    if ltb_ℤ was.sequence new.sequence
      || (eqb_ℤ new.sequence was.sequence
          && new.version == was.version
          && bool_eq new.init_required was.init_required)
    then record {
      definition = new;
      committed_at = excluded.committed_at;
      initialized =
          if eqb_ℤ was.sequence new.sequence
          then old.initialized || excluded.initialized
          else excluded.initialized;
    }
    else old

-- `INSERT INTO committed_definitions …`
unfoldable pub put_committed : CommittedDefinition → Store → Store
put_committed row s = record s {
  committed = upsert (has_name row.definition.name) (merge_committed row) row s.committed;
}

-- The zero value of the Go struct, which a lookup without a row returns.
abbrev pub no_definition : CommittedDefinition
no_definition = record {
  definition = record { name = ""; version = ""; sequence = pos 0; init_required = false };
  committed_at = "";
  initialized = false;
}

abbrev pub or_zero : Option CommittedDefinition → CommittedDefinition
or_zero none = no_definition
or_zero (some c) = c

-- The row that is read back must not be another definition of the same sequence.
unfoldable pub check_active :
    ChaincodeDefinition → Option CommittedDefinition → M CommittedDefinition
check_active def looked_up =
    let active = or_zero looked_up in
    if eqb_ℤ active.definition.sequence def.sequence
      && not (definition_matches active.definition def)
    then fail Error.conflicting_ledger
    else pure active

unfoldable pub upsert_committed : String → CommittedDefinition → M CommittedDefinition
unfolding put_committed check_active get_committed
upsert_committed now c = do
  check (validate_definition c.definition)
  execute (put_committed (record c { committed_at = or_now c.committed_at now }))
  active ← get_committed c.definition.name
  check_active c.definition active

unfoldable pub commit_definition : String → ChaincodeDefinition → String → M CommittedDefinition
unfolding validate_commit_definition upsert_committed
commit_definition now def local_msp = do
  validate_commit_definition def local_msp
  upsert_committed now
      (record { definition = def; committed_at = now; initialized = not def.init_required })

-- What a ledger definition does to the row that is there.
unfoldable pub hydrate :
    String → ChaincodeDefinition → Bool → Option CommittedDefinition → M CommittedDefinition
unfolding upsert_committed
hydrate now def initialized none =
    upsert_committed now
      (record { definition = def; committed_at = now; initialized = initialized })
hydrate now def initialized (some existing) =
    let update =
      upsert_committed now
        (record { definition = def; committed_at = now; initialized = initialized }) in
    if ltb_ℤ def.sequence existing.definition.sequence
    then pure existing
    else if eqb_ℤ existing.definition.sequence def.sequence
    then (if definition_matches existing.definition def
        then (if existing.initialized || bool_eq existing.initialized initialized
            then pure existing
            else update)
        else fail Error.conflicting_ledger)
    else update

unfoldable pub upsert_committed_from_ledger :
    String → ChaincodeDefinition → Bool → M CommittedDefinition
unfolding hydrate get_committed
upsert_committed_from_ledger now def initialized = do
  check (validate_definition def)
  existing ← get_committed def.name
  hydrate now def initialized existing

-- `UPDATE committed_definitions SET initialized = 1 …`
unfoldable pub set_initialized : String → ChaincodeDefinition → Store → Store
set_initialized now def s = record s {
  committed =
      update_where
        (λ r.
          r.definition.name == def.name
          && eqb_ℤ r.definition.sequence def.sequence
          && r.definition.version == def.version
          && r.definition.init_required)
        (λ r. record r { initialized = true; committed_at = now }) s.committed;
}

unfoldable pub mark_committed :
    String → ChaincodeDefinition → CommittedDefinition → M CommittedDefinition
unfolding set_initialized
mark_committed now def c =
    if definition_matches c.definition def
    then (if c.definition.init_required
        then (if c.initialized then pure c else do
          execute (set_initialized now def)
          pure (record c { initialized = true; committed_at = now }))
        else fail Error.init_not_required)
    else fail Error.init_mismatch

unfoldable pub mark_initialized : String → ChaincodeDefinition → M CommittedDefinition
unfolding get_committed mark_committed
mark_initialized now def = do
  check (validate_definition def)
  looked_up ← get_committed def.name
  c ← found Error.not_committed looked_up
  mark_committed now def c

unfoldable pub get_resolved_connection :
    String → ChaincodeDefinition → M (Option ResolvedConnection)
get_resolved_connection msp def = do
  present Error.msp_required msp
  check (validate_definition def)
  row ← query (λ s. select (has_connection_key msp def) s.connections)
  pure (of_version row)
  where
    of_version : Option ResolvedConnection → Option ResolvedConnection
    of_version none = none
    of_version (some c) = if c.version == def.version then some c else none

abbrev pub connection_definition : ResolvedConnection → ChaincodeDefinition
connection_definition c = record {
  name = c.name;
  version = c.version;
  sequence = c.sequence;
  init_required = false;
}

unfoldable pub put_resolved_connection : String → ResolvedConnection → M ResolvedConnection
put_resolved_connection now conn = do
  present Error.msp_required conn.msp_id
  check (validate_definition (connection_definition conn))
  present Error.address_required conn.address
  let row = record conn {
    tls_mode = if conn.tls_mode == "" then "none" else conn.tls_mode;
    cached_at = or_now conn.cached_at now;
  }
  execute (λ s. record s {
    connections =
        upsert (has_connection_key conn.msp_id (connection_definition conn)) (λ _. row) row
          s.connections;
  })
  pure row
