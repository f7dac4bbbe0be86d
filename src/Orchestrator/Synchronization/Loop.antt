-- ===== src/Orchestrator/Synchronization/Loop.antt =====
-- compatibility_service/pkg/orchestrator/lifecycle_sync.go: the store is filled from
-- the index on the ledger.
-- The service has a lifecycle store and a query service; without them the method does nothing.
use fabric_x_chaincode_compa.Prelude.{
  ℕ, zero, suc, not, ◌||◌, none, some, List, String, ◌==◌, nat_eq, if◌then◌else◌,
}
use fabric_x_chaincode_compa.Prelude.Exec.{Result, ok, err, Exec, pure, fail, ◌>>=◌, ◌>>◌}
use fabric_x_chaincode_compa.Lifecycle.Store.State.{Store, M}
use fabric_x_chaincode_compa.Lifecycle.Store.Commits.{upsert_committed_from_ledger}
use fabric_x_chaincode_compa.Lifecycle.Definition
use fabric_x_chaincode_compa.Orchestrator.LedgerRows.{Service, lifecycle_row}
use fabric_x_chaincode_compa.Lifecycle.Ledger.{
  LedgerDefinition, LifecycleIndexEntry, from_ledger, high_watermark_key, index_entry_key,
  unmarshal_high_watermark, unmarshal_index_entry, unmarshal_ledger_definition,
}

pub data Error : Type 0 where
  query_failed missing_entry undecodable_entry entry_mismatch missing_key : Error
  missing_definition undecodable_definition definition_mismatch undecodable_watermark : Error
  hydration : Definition.Error → Error

-- a row that must be there
unfoldable pub required_row : Service → String → Error → Result Error (List ℕ)
unfolding lifecycle_row
required_row s key missing = elim (lifecycle_row s key) [
  | none ↦ err query_failed
  | some none ↦ err missing
  | some (some row) ↦ ok row.0
]

unfoldable pub read_entry : Service → ℕ → Result Error LifecycleIndexEntry
unfolding required_row
read_entry s i = elim (required_row s (index_entry_key s.codec s.channel_id i) missing_entry) [
  | err e ↦ err e
  | ok value ↦ elim (unmarshal_index_entry s.codec value) [
    | err e ↦ err undecodable_entry
    | ok entry ↦
        if not (entry.channel_id == s.channel_id) || not (nat_eq entry.number i)
        then err entry_mismatch
        else if entry.definition_key == ""
        then err missing_key
        else ok entry
  ]
]

unfoldable pub read_definition : Service → LifecycleIndexEntry → Result Error LedgerDefinition
unfolding required_row
read_definition s entry = elim (required_row s entry.definition_key missing_definition) [
  | err e ↦ err e
  | ok value ↦ elim (unmarshal_ledger_definition s.codec value) [
    | err e ↦ err undecodable_definition
    | ok d ↦
        if not (d.channel_id == s.channel_id) || not (d.name == entry.name)
        then err definition_mismatch
        else ok d
  ]
]

-- The ledger definition that the index entry `i` leads to.
unfoldable pub ledger_definition_at : Service → ℕ → Result Error LedgerDefinition
unfolding read_entry read_definition
ledger_definition_at s i = elim (read_entry s i) [
  | err e ↦ err e
  | ok entry ↦ read_definition s entry
]

abbrev pub S : Type 0 → Type 0
S A = Exec Store Error A

abbrev pub of_result : {A : Type 0} → Result Error A → S A
of_result (ok a) = pure a
of_result (err e) = fail e

-- `fmt.Errorf("hydrate lifecycle definition …", err)`
unfoldable pub wrap : {A : Type 0} → M A → S A
wrap m s = elim (m s).0 [ ok a ↦ (ok a, (m s).1) | err e ↦ (err (hydration e), (m s).1) ]

unfoldable pub hydrate_entry : String → Service → ℕ → S (Unit {0})
unfolding ledger_definition_at wrap
hydrate_entry now s i = do
  d ← of_result (ledger_definition_at s i)
  wrap (upsert_committed_from_ledger now (from_ledger s.codec d) d.initialized)
  pure tt

-- The loop from the entry `i` over the next `count` ones.
unfoldable pub hydrate_entries : String → Service → ℕ → ℕ → S (Unit {0})
unfolding hydrate_entry
hydrate_entries now s zero i = pure tt
hydrate_entries now s (suc count) i = do hydrate_entry now s i; hydrate_entries now s count (suc i)

-- `highWatermark`: none where the ledger has no index.
unfoldable pub high_watermark : Service → Result Error ℕ
unfolding lifecycle_row
high_watermark s = elim (lifecycle_row s (high_watermark_key s.codec s.channel_id)) [
  | none ↦ err query_failed
  | some none ↦ ok 0
  | some (some row) ↦ elim (unmarshal_high_watermark s.codec row.0) [
    | err e ↦ err undecodable_watermark
    | ok n ↦ ok n
  ]
]

-- `syncLifecycleFromLedger`
unfoldable pub sync_lifecycle_from_ledger : String → Service → S (Unit {0})
unfolding high_watermark hydrate_entries
sync_lifecycle_from_ledger now s = do n ← of_result (high_watermark s); hydrate_entries now s n 1
