-- ===== src/Orchestrator/Synchronization/Examples.antt =====
-- A ledger with one index entry.
use fabric_x_chaincode_compa.Lifecycle.Store.Table.{upsert, select}
use fabric_x_chaincode_compa.Lifecycle.Store.Operations.{get_committed}
use fabric_x_chaincode_compa.Lifecycle.Store.Commits.{upsert_committed_from_ledger}
use fabric_x_chaincode_compa.Prelude.{
  ℕ, ◌≡◌, refl, true, false, Option, none, some, List, [], ◌∷◌, ◌==◌,
}
use fabric_x_chaincode_compa.Prelude.Int.{pos}
use fabric_x_chaincode_compa.Prelude.Exec.{◌>>=◌, ok}
use fabric_x_chaincode_compa.Lifecycle.Definition.{
  definition_matches, ChaincodeDefinition, validate_definition,
}
use fabric_x_chaincode_compa.Lifecycle.Ledger.{
  unmarshal_high_watermark, Codec, LedgerDefinition, LifecycleIndexEntry, marshal_ledger_definition,
  marshal_index_entry, unmarshal_ledger_definition, unmarshal_index_entry, ledger_definition,
  new_index_entry, ledger_round_trip,
}
use fabric_x_chaincode_compa.Lifecycle.Store.State.{query, present, execute, check, Store}
use fabric_x_chaincode_compa.Orchestrator.Initialization.{
  InvocationRequest, validate_init_state, Passes, row_for, query_operation, validate_init_state-ok,
}
use fabric_x_chaincode_compa.Orchestrator.LedgerRows.{Service}
use fabric_x_chaincode_compa.Orchestrator.Synchronization.Loop.{sync_lifecycle_from_ledger}

abbrev asset : ChaincodeDefinition
asset = record { name = "asset"; version = "1.0"; sequence = pos 3; init_required = true }

abbrev entry : LifecycleIndexEntry
entry = record {
  schema_version = 2;
  number = 1;
  event_type = "committed";
  definition_key = "_lifecycle/channels/ch/chaincodes/asset";
  channel_id = "ch";
  name = "asset";
  version = "1.0";
  sequence = pos 3;
  init_required = true;
  initialized = false;
}

abbrev asset_record : LedgerDefinition
asset_record = record {
  channel_id = "ch";
  name = "asset";
  version = "1.0";
  sequence = pos 3;
  init_required = true;
  initialized = false;
}

abbrev codec : Codec
codec = record {
  path_escape = λ s. s;
  format_padded = λ n. "1";
  marshal_definition = λ d. some (1 ∷ []);
  unmarshal_definition = λ b. some asset_record;
  marshal_entry = λ e. some (2 ∷ []);
  unmarshal_entry = λ b. some entry;
  format_uint = λ n. n ∷ [];
  parse_uint = λ b. some 1;
}

ledger_round_trip_example :
    ((bytes : List ℕ) × (marshal_ledger_definition codec "ch" asset false ≡ ok bytes)
      × (unmarshal_ledger_definition codec bytes ≡ ok (ledger_definition codec "ch" asset false)))
    × ((bytes : List ℕ) × (marshal_index_entry codec
            (new_index_entry codec "ch" 1 "committed" asset false)
          ≡ ok bytes)
        × (unmarshal_index_entry codec bytes
            ≡ ok (new_index_entry codec "ch" 1 "committed" asset false)))
unfolding validate_definition
ledger_round_trip_example =
    ledger_round_trip codec "ch" 1 "committed" asset false (1 ∷ [], refl, refl) (2 ∷ [], refl, refl)
      refl refl

abbrev service : Service
service = record {
  channel_id = "ch";
  namespace = "ns";
  codec = codec;
  get_rows = λ ns key. some (("ns", (key, (1 ∷ [], 4)) ∷ []) ∷ []);
}

abbrev empty_store : Store
empty_store = record {
  channel_id = "ch";
  installed = [];
  approved = [];
  committed = [];
  connections = [];
  broken = λ n. false;
  statements = 0;
}

sync_run :
    (sync_lifecycle_from_ledger "t" service empty_store).1.committed
    ≡ record { definition = asset; committed_at = "t"; initialized = false } ∷ []
unfolding sync_lifecycle_from_ledger ◌>>=◌ unmarshal_high_watermark unmarshal_index_entry
    unmarshal_ledger_definition validate_definition upsert_committed_from_ledger check present query
    select execute upsert definition_matches
sync_run = refl

abbrev init_request : InvocationRequest
init_request = record { definition = none; chaincode_name = "asset"; is_init = true }

abbrev waiting_store : Store
waiting_store = record empty_store {
  committed = record { definition = asset; committed_at = "t"; initialized = false } ∷ [];
}

abbrev after_check : Option Store
after_check = (validate_init_state (some waiting_store) init_request "invoke").1

init_run :
    validate_init_state (some waiting_store) init_request "invoke" ≡ (ok (some asset), after_check)
unfolding validate_init_state get_committed ◌>>=◌ present query select
init_run = refl

validate_init_state-ok_example :
    (true ≡ true → ("invoke" == query_operation) ≡ false)
    × Passes init_request (row_for init_request waiting_store) (some asset)
validate_init_state-ok_example =
    validate_init_state-ok waiting_store init_request "invoke" refl init_run
