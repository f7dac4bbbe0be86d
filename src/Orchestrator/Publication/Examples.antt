-- ===== src/Orchestrator/Publication/Examples.antt =====
-- The publication of one definition on an empty ledger.
use fabric_x_chaincode_compa.Lifecycle.Server.Handlers.{propagate_definition, commit}
use fabric_x_chaincode_compa.Prelude.Assoc.{insert, lookup}
use fabric_x_chaincode_compa.Lifecycle.Authorization.Signing.{sign_request}
use fabric_x_chaincode_compa.Orchestrator.Finality.Submitter.{submit}
use fabric_x_chaincode_compa.Lifecycle.Store.Table.{upsert, select}
use fabric_x_chaincode_compa.Lifecycle.Store.Commits.{upsert_committed_from_ledger}
use fabric_x_chaincode_compa.Prelude.{
  ◌≡◌, refl, Bool, true, false, Option, none, some, List, [], ◌∷◌, String, arith, get_elem?,
  if◌then◌else◌,
}
use fabric_x_chaincode_compa.Prelude.Int.{pos}
use fabric_x_chaincode_compa.Prelude.Exec.{ok, ◌>>=◌}
use fabric_x_chaincode_compa.Lifecycle.Definition.{
  validate_next_sequence, validate_definition, definition_matches,
}
use fabric_x_chaincode_compa.Lifecycle.Ledger.{
  unmarshal_ledger_definition, unmarshal_index_entry, unmarshal_high_watermark,
  marshal_ledger_definition, Codec, LifecycleIndexEntry, ledger_key, index_entry_key,
  high_watermark_key,
}
use fabric_x_chaincode_compa.Lifecycle.Store.State.{
  query, present, execute, check, Store, CommittedDefinition,
}
use fabric_x_chaincode_compa.Lifecycle.Store.Revisions.{view, Advances}
use fabric_x_chaincode_compa.Lifecycle.Store.Inclusion.{Includes}
use fabric_x_chaincode_compa.Lifecycle.Store.Examples.{asset, approved_store}
use fabric_x_chaincode_compa.Lifecycle.Server.State.{
  LedgerCommitResult, no_result, no_propagation, sign_internal, Incoming, Server,
}
use fabric_x_chaincode_compa.Lifecycle.Server.Examples.{asset_record, server}
use fabric_x_chaincode_compa.Orchestrator.LedgerRows.{lifecycle_row, Service, Answer}
use fabric_x_chaincode_compa.Orchestrator.Finality.Status.{
  wait_status, subscribe_finality, is_final_status, StatusCodes, TxStatus, NotificationResponse,
}
use fabric_x_chaincode_compa.Orchestrator.Synchronization.Loop.{sync_lifecycle_from_ledger}
use fabric_x_chaincode_compa.Orchestrator.Publication.Preparation.{
  prepare_lifecycle_transaction, ReadWriteSet, read_write_set, plan, read_watermark,
  read_lifecycle_definition,
}
use fabric_x_chaincode_compa.Orchestrator.Publication.Prepared.{Planned, plan-Planned}
use fabric_x_chaincode_compa.Orchestrator.Publication.Visible.{
  with_rows, Holds, IsReadable, published_is_synchronized,
}
use fabric_x_chaincode_compa.Orchestrator.Publication.Pending.{
  State, PendingLifecycle, operation_for, is_current, reserve,
}
use fabric_x_chaincode_compa.Orchestrator.Publication.Advance.{Environment, advance}
use fabric_x_chaincode_compa.Orchestrator.Publication.Finalize.{
  finalize, finalize_lifecycle_definition,
}
use fabric_x_chaincode_compa.Orchestrator.Publication.Outcomes.{
  Evidence, IsSettled, advance-committed, finalize-ok,
}
use fabric_x_chaincode_compa.Orchestrator.Publication.Steps.{new_service}
use fabric_x_chaincode_compa.Orchestrator.Publication.Serving.{
  on_ledger, ledger_finalizer, serve-on_ledger-Advances,
}
use fabric_x_chaincode_compa.Lifecycle.Server.Refusal.{Method, committing, serve}
use fabric_x_chaincode_compa.Lifecycle.Authorization.Check.{Code}
use fabric_x_chaincode_compa.Lifecycle.Authorization.Check as AuthCheck
use fabric_x_chaincode_compa.Auth.Verifier
use fabric_x_chaincode_compa.Lifecycle.Store.Operations
use fabric_x_chaincode_compa.Lifecycle.Authorization.Examples.{authorizer, request}
use fabric_x_chaincode_compa.Orchestrator.Publication.Methods.{Call, submits, reconciles}

abbrev entry : LifecycleIndexEntry
entry = record {
  schema_version = 2;
  number = 1;
  event_type = "commit";
  definition_key = "_lifecycle/channels/mychannel/chaincodes/asset";
  channel_id = "mychannel";
  name = "asset";
  version = "1.0";
  sequence = pos 1;
  init_required = true;
  initialized = false;
}

abbrev codec : Codec
codec = record {
  path_escape = λ s. s;
  format_padded = λ n. "1";
  marshal_definition = λ d. some (1 ∷ []);
  unmarshal_definition = λ b. some asset_record;
  marshal_entry = λ e. some (2 ∷ []);
  unmarshal_entry = λ b. some entry;
  format_uint = λ n. n ∷ [];
  parse_uint = λ b. some 1;
}

abbrev empty_ledger : Service
empty_ledger = record {
  channel_id = "mychannel";
  namespace = "ns";
  codec = codec;
  get_rows = λ ns key. some [];
}

abbrev write_set : ReadWriteSet
write_set = read_write_set empty_ledger asset none none 1 (1 ∷ []) (2 ∷ [])

plan_run : plan empty_ledger asset "commit" ≡ ok (some write_set)
unfolding plan lifecycle_row validate_next_sequence validate_definition marshal_ledger_definition
plan_run = refl

plan-Planned_example : Planned empty_ledger asset "commit" write_set
plan-Planned_example = plan-Planned empty_ledger asset "commit" plan_run

abbrev rows : String → String → Option Answer
rows ns key = some (
    (
      "ns",
      (ledger_key codec "mychannel" "asset", (1 ∷ [], 4))
          ∷ (index_entry_key codec "mychannel" 1, (2 ∷ [], 4))
          ∷ (high_watermark_key codec "mychannel", (1 ∷ [], 4))
          ∷ [],
    )
    ∷ [])

abbrev synchronized : Store
synchronized = (sync_lifecycle_from_ledger "t" (with_rows empty_ledger rows) approved_store).1

sync_run :
    sync_lifecycle_from_ledger "t" (with_rows empty_ledger rows) approved_store
    ≡ (ok tt, synchronized)
unfolding sync_lifecycle_from_ledger ◌>>=◌ unmarshal_high_watermark unmarshal_index_entry
    unmarshal_ledger_definition validate_definition upsert_committed_from_ledger check present query
    select execute upsert definition_matches
sync_run = refl

watermark_run : read_watermark empty_ledger ≡ ok (0, none)
unfolding read_watermark lifecycle_row
watermark_run = refl

readable : IsReadable codec "mychannel" asset "commit" 1
unfolding unmarshal_high_watermark
readable = record {
  definition = (1 ∷ [], refl, refl);
  entry = (2 ∷ [], refl, refl);
  watermark = refl;
}

held : Holds (with_rows empty_ledger rows) write_set
unfolding lifecycle_row
held = ((4, refl), ((4, refl), ((4, refl), tt)))

published_is_synchronized_example : Includes asset (view synchronized "asset")
published_is_synchronized_example =
    published_is_synchronized empty_ledger rows asset "commit" "t" approved_store synchronized 0
      none plan_run watermark_run (omega arith) readable held sync_run

abbrev codes : StatusCodes
codes = record {
  unspecified = pos 0;
  committed = pos 1;
  is_known = λ n. true;
  text = λ n. "COMMITTED";
}

abbrev committed : TxStatus
committed = record { tx_id = "tx1"; status = pos 1; block_num = 7; tx_num = 0 }

abbrev notified : NotificationResponse
notified = record { tx_status_events = committed ∷ []; timeout_tx_ids = []; rejected_tx_ids = [] }

-- An environment in which the acknowledgment of the first delivery is lost.
abbrev environment : Bool → Environment
environment acknowledged = record {
  ledger = empty_ledger;
  endorse = λ rws. some "tx1";
  codes = codes;
  query = some (λ ids. some []);
  notifier = some (λ tx. some (record { accepts = true; responses = notified ∷ [] }));
  attempt = λ tx. record {
    packaged = true;
    opened = true;
    sent = true;
    received = if acknowledged then some true else none;
  };
}

abbrev calls : List (Call String)
calls =
    submits (environment false) asset "commit" true true true
    ∷ submits (environment true) asset "commit" true true true
    ∷ reconciles server (λ p. environment true) (0 ∷ []) 1
    ∷ []

abbrev reserved : State
reserved = record {
  heap =
      record {
        operation = operation_for asset false;
        definition = asset;
        result = no_result;
        propagation = no_propagation;
        locked = true;
      }
      ∷ [];
  table = (operation_for asset false, 0) ∷ [];
  closed = false;
  log = [];
}

abbrev result : LedgerCommitResult
result = record {
  tx_id = "tx1";
  status = "COMMITTED";
  block_num = 7;
  tx_num = 0;
  namespace = "ns";
  key = ledger_key codec "mychannel" "asset";
}

abbrev advanced : State
advanced = (advance (environment true) true 0 reserved).1

advance_run : advance (environment true) true 0 reserved ≡ ((result, none), advanced)
unfolding advance prepare_lifecycle_transaction lifecycle_row validate_next_sequence
    validate_definition marshal_ledger_definition subscribe_finality submit wait_status
    is_final_status
advance_run = refl

advance-committed_example :
    (r : PendingLifecycle) × (get_elem? reserved.heap 0 ≡ some r)
    × Evidence (environment true) r result
advance-committed_example = advance-committed (environment true) 0 true reserved advance_run

abbrev first_step : State
first_step = (reserve asset false true true new_service).1

abbrev second_step : State
second_step = (advance (environment false) true 0 first_step).1

abbrev row : CommittedDefinition
row = record { definition = asset; committed_at = "t"; initialized = false }

abbrev finalized : State × Store
finalized = (finalize server (environment true) 0 (reserved, approved_store)).1

finalize_run :
    finalize server (environment true) 0 (reserved, approved_store) ≡ (ok (some row), finalized)
unfolding finalize lifecycle_row read_lifecycle_definition ◌>>=◌ definition_matches
    upsert_committed_from_ledger check present query validate_definition sign_internal sign_request
    insert lookup select execute upsert propagate_definition
finalize_run = refl

finalize-ok_example :
    (r : PendingLifecycle) × (get_elem? reserved.heap 0 ≡ some r)
    × IsSettled server (environment true) 0 r (some row) approved_store finalized.1
    × (is_current 0 finalized.0 ≡ false)
finalize-ok_example = finalize-ok server (environment true) 0 reserved approved_store finalize_run

-- An accepted public commitment, and the ledger that meets it.
abbrev commit_call : Incoming
commit_call = record {
  request = some (record request { operation = "commit" });
  metadata = "false" ∷ [];
  first = pos 11;
  now = pos 12;
}

abbrev committer : Server String
committer = record server {
  auth = some (record authorizer { policies = ("commit", λ id. true) ∷ [] });
}

abbrev committing_asset : Method
committing_asset = committing (λ b. some asset)

abbrev served : Option Code × Store
served =
    serve (on_ledger committer (environment true) true true true new_service) commit_call
      committing_asset approved_store

-- The lifecycle store has the definition afterwards.
served_run :
    (served.0 ≡ none) × (view served.1 "asset" ≡ some row) × (view approved_store "asset" ≡ none)
unfolding commit ◌>>=◌ AuthCheck.check Verifier.authenticate lookup Operations.has_matching_approval
    check validate_definition query sign_internal sign_request insert select definition_matches
    Operations.validate_commit_definition present validate_next_sequence ledger_finalizer
    propagate_definition upsert_committed_from_ledger execute upsert lifecycle_row finalize
    finalize_lifecycle_definition read_lifecycle_definition reserve view
served_run = (refl, refl, refl)

serve-on_ledger-Advances_example : Advances approved_store served.1
serve-on_ledger-Advances_example =
    serve-on_ledger-Advances committer (environment true) true true true new_service commit_call
      committing_asset approved_store
