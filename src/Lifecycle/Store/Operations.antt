-- ===== src/Lifecycle/Store/Operations.antt =====
-- The methods of `Store` in store.go. `now` is the time that a call reads, already formatted.
use fabric_x_chaincode_compa.Prelude.{
  Bool, false, ◌&&◌, Option, none, some, List, String, ◌==◌, if◌then◌else◌,
}
use mathlib.Core.Option
use fabric_x_chaincode_compa.Prelude.Int.{eqb_ℤ}
use fabric_x_chaincode_compa.Prelude.Exec.{◌>>=◌, ◌>>◌, pure}
use fabric_x_chaincode_compa.Lifecycle.Definition.{
  ChaincodeDefinition, Error, validate_definition, definition_matches, validate_next_sequence,
}
use fabric_x_chaincode_compa.Lifecycle.Store.State.{
  Store, InstalledPackage, ApprovedDefinition, ApprovalRow, CommittedDefinition, ResolvedConnection,
  M, query, execute, check, found, present,
}
use fabric_x_chaincode_compa.Lifecycle.Store.Table.{select, upsert, delete_where}

-- the primary keys
abbrev pub has_id : String → InstalledPackage → Bool
has_id id r = r.package_id == id

abbrev pub has_name : String → CommittedDefinition → Bool
has_name name r = r.definition.name == name

abbrev pub has_approval_key : ChaincodeDefinition → String → ApprovalRow → Bool
has_approval_key def msp r =
    r.definition.name == def.name
    && eqb_ℤ r.definition.sequence def.sequence
    && r.approving_msp == msp

abbrev pub has_connection_key : String → ChaincodeDefinition → ResolvedConnection → Bool
has_connection_key msp def r =
    r.msp_id == msp && r.name == def.name && eqb_ℤ r.sequence def.sequence

abbrev pub or_now : String → String → String
or_now stamp now = if stamp == "" then now else stamp

unfoldable pub install : String → InstalledPackage → M (Unit {0})
install now pkg = do
  present Error.package_id_required pkg.package_id
  let row = record pkg { installed_at = or_now pkg.installed_at now }
  execute (λ s. record s { installed = upsert (has_id pkg.package_id) (λ _. row) row s.installed })

unfoldable pub get_installed : String → M (Option InstalledPackage)
get_installed id = do
  present Error.package_id_required id
  query (λ s. select (has_id id) s.installed)

unfoldable pub get_committed : String → M (Option CommittedDefinition)
get_committed name = do
  present Error.name_required name
  query (λ s. select (has_name name) s.committed)

-- The approval joined with its installed package: no row where the package is gone.
unfoldable pub joined : List InstalledPackage → Option ApprovalRow → Option ApprovedDefinition
joined installed none = none
joined installed (some a) =
    Option.map
      (λ (p : InstalledPackage). record {
        definition = a.definition;
        package_id = a.package_id;
        approving_msp = a.approving_msp;
        approved_at = a.approved_at;
        package_address = p.address;
      })
      (select (has_id a.package_id) installed)

unfoldable pub get_approval : ChaincodeDefinition → String → M (Option ApprovedDefinition)
unfolding joined
get_approval def msp = do
  check (validate_definition def)
  query (λ s. joined s.installed (select (has_approval_key def msp) s.approved))

abbrev pub matches : ChaincodeDefinition → Option ApprovedDefinition → Bool
matches def none = false
matches def (some a) = definition_matches a.definition def

unfoldable pub has_matching_approval : ChaincodeDefinition → String → M Bool
unfolding get_approval
has_matching_approval def msp = do
  check (validate_definition def)
  approval ← get_approval def msp
  pure (matches def approval)

abbrev pub active_definition : Option CommittedDefinition → Option ChaincodeDefinition
active_definition none = none
active_definition (some c) = some c.definition

-- the method `validateNextSequence`
unfoldable pub validate_next : ChaincodeDefinition → M (Unit {0})
unfolding get_committed
validate_next def = do
  existing ← get_committed def.name
  check (validate_next_sequence (active_definition existing) def)

unfoldable pub validate_commit_definition : ChaincodeDefinition → String → M (Unit {0})
unfolding has_matching_approval validate_next
validate_commit_definition def msp = do
  approved ← has_matching_approval def msp
  check (if approved then none else some Error.not_approved)
  validate_next def

-- An approval is of the active revision itself, or of the next one.
unfoldable pub check_revision : ChaincodeDefinition → Option CommittedDefinition → M (Unit {0})
unfolding validate_next
check_revision def none = validate_next def
check_revision def (some current) =
    if eqb_ℤ current.definition.sequence def.sequence
    then check
        (if definition_matches current.definition def then none else some Error.approval_mismatch)
    else validate_next def

abbrev pub approval_matches : ApprovedDefinition → ChaincodeDefinition → String → Bool
approval_matches a def package_id =
    a.package_id == package_id && definition_matches a.definition def

-- `INSERT INTO approved_definitions …`
unfoldable pub put_approval : ApprovalRow → Store → Store
put_approval row s = record s {
  approved = upsert (has_approval_key row.definition row.approving_msp) (λ _. row) row s.approved;
}

-- `DELETE FROM resolved_connections …`
unfoldable pub drop_connection : ChaincodeDefinition → String → Store → Store
drop_connection def msp s = record s {
  connections = delete_where (has_connection_key msp def) s.connections;
}

unfoldable pub record_approval :
    String → ChaincodeDefinition → String → String → String → M ApprovedDefinition
unfolding put_approval drop_connection
record_approval now def package_id address msp = do
  execute (
      put_approval (record {
        definition = def;
        package_id = package_id;
        approving_msp = msp;
        approved_at = now;
      }))
  execute (drop_connection def msp)
  pure (record {
    definition = def;
    package_id = package_id;
    approving_msp = msp;
    approved_at = now;
    package_address = address;
  })

-- An approval that is there already is returned as it is.
unfoldable pub approve_or_reuse :
    String
    → ChaincodeDefinition
    → String
    → String
    → String
    → Option ApprovedDefinition
    → M ApprovedDefinition
unfolding record_approval
approve_or_reuse now def package_id address msp none =
    record_approval now def package_id address msp
approve_or_reuse now def package_id address msp (some existing) =
    if approval_matches existing def package_id
    then pure existing
    else record_approval now def package_id address msp

unfoldable pub approve_for_my_org :
    String → ChaincodeDefinition → String → String → M ApprovedDefinition
unfolding get_installed get_committed get_approval check_revision approve_or_reuse
approve_for_my_org now def package_id msp = do
  check (validate_definition def)
  present Error.package_id_required package_id
  present Error.approving_msp_required msp
  looked_up ← get_installed package_id
  pkg ← found Error.not_installed looked_up
  current ← get_committed def.name
  check_revision def current
  existing ← get_approval def msp
  approve_or_reuse now def package_id pkg.address msp existing
