-- ===== src/Lifecycle/Server/Examples.antt =====
-- A server of one organization with one remote peer, and the theorems about rpc.go and package.go.
use fabric_x_chaincode_compa.Lifecycle.Store.Table.{upsert, select}
use fabric_x_chaincode_compa.Lifecycle.Store.Commits.{upsert_committed_from_ledger}
use fabric_x_chaincode_compa.Lifecycle.Authorization.Signing.{sign_request}
use fabric_x_chaincode_compa.Prelude.{
  ℕ, ◌≡◌, refl, ◌⊎◌, Bool, true, false, none, some, List, [], ◌∷◌, String,
}
use fabric_x_chaincode_compa.Prelude.Int.{pos}
use fabric_x_chaincode_compa.Prelude.Exec.{ok, ◌>>=◌}
use fabric_x_chaincode_compa.Prelude.Assoc.{lookup, insert}
use fabric_x_chaincode_compa.Lifecycle.Definition.{
  validate_definition, definition_matches, validate_next_sequence,
}
use fabric_x_chaincode_compa.Lifecycle.Ledger.{LedgerDefinition}
use fabric_x_chaincode_compa.Lifecycle.Authorization.Check.{Code}
use fabric_x_chaincode_compa.Lifecycle.Authorization.Examples.{
  authorizer, request, marshal, signer, bytes,
}
use fabric_x_chaincode_compa.Lifecycle.Store.State.{
  query, present, execute, check, Store, CommittedDefinition, ApprovedDefinition,
}
use fabric_x_chaincode_compa.Lifecycle.Store.Examples.{asset, approved_store}
use fabric_x_chaincode_compa.Lifecycle.Store.Operations
use fabric_x_chaincode_compa.Lifecycle.Store.Lookups.{approval_of}
use fabric_x_chaincode_compa.Lifecycle.Store.Revisions.{view, Advances}
use fabric_x_chaincode_compa.Lifecycle.Store.Inclusion.{Includes}
use fabric_x_chaincode_compa.Lifecycle.Package.{
  ArchiveLibraries, TarEntry, PackageDescriptor, tar_name, inspect_package_bytes,
}
use fabric_x_chaincode_compa.Lifecycle.Package.Inspected.{Inspected, inspect_package_bytes-ok}
use fabric_x_chaincode_compa.Lifecycle.Server.State.{
  sign_internal, Peer, no_result, Backend, Server, Incoming, DefinitionPropagation, no_propagation,
  apply_ledger_definition,
}
use fabric_x_chaincode_compa.Lifecycle.Server.Handlers.{reconcile_definition, commit_publicly}
use fabric_x_chaincode_compa.Lifecycle.Server.Mirror.{Confirmed, apply_ledger_definition-ok}
use fabric_x_chaincode_compa.Lifecycle.Server.Publication.{Asked, IsPublished, commit_publicly-ok}
use fabric_x_chaincode_compa.Lifecycle.Server.Refusal.{
  Method, installing, serve, IsAccepted, serve_refuses,
}

abbrev pub asset_record : LedgerDefinition
asset_record = record {
  channel_id = "mychannel";
  name = "asset";
  version = "1.0";
  sequence = pos 1;
  init_required = true;
  initialized = false;
}

abbrev peer : Peer
peer = record {
  msp_id = "Org2MSP";
  check_commit_readiness = λ req. some (("Org2MSP", true) ∷ []);
  commit = λ req. true;
  mark_initialized = λ req. true;
}

abbrev backend : Backend
backend = record {
  read_definition = λ def. some (some asset_record);
  commit_definition = λ def. some no_result;
  finalizer = none;
}

abbrev tar_entry : String → List ℕ → TarEntry
tar_entry name value = record { name = name; is_regular = true; value = some value }

-- Archive 1 is the package, archive 2 its code.
abbrev archives : ArchiveLibraries
archives = record {
  tar_entries = λ b. some (
    tar_entry "metadata.json" (3 ∷ [])
        ∷ tar_entry "code.tar.gz" (2 ∷ [])
        ∷ tar_entry "connection.json" (4 ∷ [])
        ∷ [],
    false,
  );
  json_texts =
      λ b. some (("label", "asset") ∷ ("type", "external") ∷ ("address", "host:9999") ∷ []);
  clean = λ path. path;
  sha256_hex = λ b. "00";
}

abbrev pub server : Server String
server = record {
  channel_id = "mychannel";
  msp_id = "Org1MSP";
  auth = some authorizer;
  marshal = marshal;
  signing = record {
    signer = some signer;
    body = λ type def. some (7 ∷ []);
    random = λ n. some (bytes n);
    now = pos 10;
  };
  ledger = some backend;
  remotes = λ def. some (peer ∷ []);
  archives = archives;
  clock = "t";
}

apply_ledger_definition-ok_example :
    Advances approved_store (apply_ledger_definition server asset false approved_store).1
    × ((c : CommittedDefinition) (t : Store)
        → apply_ledger_definition server asset false approved_store ≡ (ok c, t)
        → Confirmed server asset false × Includes asset (view t "asset"))
apply_ledger_definition-ok_example = apply_ledger_definition-ok server asset false approved_store

abbrev row : CommittedDefinition
row = record { definition = asset; committed_at = "t"; initialized = false }

abbrev all_reached : DefinitionPropagation
all_reached = record { resolved = true; organizations = [] }

abbrev reconciled_store : Store
reconciled_store = (reconcile_definition server asset false no_propagation approved_store).1

abbrev approvals : List (String × Bool)
approvals = ("Org1MSP", true) ∷ ("Org2MSP", true) ∷ []

abbrev published_store : Store
published_store = (commit_publicly server asset approved_store).1

commit_run :
    commit_publicly server asset approved_store ≡ (ok (row, approvals, no_result), published_store)
unfolding commit_publicly ◌>>=◌ Operations.has_matching_approval check validate_definition query
    sign_internal sign_request insert select definition_matches
    Operations.validate_commit_definition present validate_next_sequence
    upsert_committed_from_ledger execute upsert lookup
commit_run = refl

commit_publicly-ok_example :
    Asked server asset approvals
    × (validate_next_sequence (Operations.active_definition (view approved_store "asset")) asset
        ≡ none)
    × ((a : ApprovedDefinition) × (approval_of approved_store asset "Org1MSP" ≡ some a)
        × (a.definition ≡ asset))
    × IsPublished server asset no_result published_store
commit_publicly-ok_example = commit_publicly-ok server asset approved_store commit_run

-- A request whose metadata contradicts it.
abbrev call : Incoming
call = record { request = some request; metadata = "true" ∷ []; first = pos 11; now = pos 12 }

abbrev install_call : Method
install_call = installing (λ b. some b)

serve_refuses_example :
    ((e : Code) × (serve server call install_call approved_store ≡ (some e, approved_store)))
    ⊎ IsAccepted server call "install" approved_store
serve_refuses_example = serve_refuses server call install_call approved_store

abbrev descriptor : PackageDescriptor
descriptor = record {
  label = "asset";
  kind = "external";
  package_id = "asset:00";
  address = "host:9999";
  metadata_json = 3 ∷ [];
  connection_json = 4 ∷ [];
  package_tgz = 1 ∷ [];
}

inspect_run : inspect_package_bytes archives (1 ∷ []) ≡ ok descriptor
unfolding inspect_package_bytes lookup insert
inspect_run = refl

inspect_package_bytes-ok_example : Inspected archives (1 ∷ []) descriptor
inspect_package_bytes-ok_example = inspect_package_bytes-ok archives (1 ∷ []) inspect_run

-- A path out of the archive is refused.
outside : tar_name (λ path. path) "a/../../b" ≡ none
unfolding tar_name
outside = refl

inside : tar_name (λ path. path) "a/..b" ≡ some "a/..b"
unfolding tar_name
inside = refl
