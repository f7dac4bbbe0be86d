-- ===== src/Orchestrator/Publication/Preparation.antt =====
-- `prepareLifecycleTransaction` and `ReadLifecycleDefinition` of
-- compatibility_service/pkg/orchestrator/lifecycle_ledger.go. Making the proposal and endorsing the
-- read-write set, which are calls of the SDK, are the parameter `endorse`; `none` is an error.
use fabric_x_chaincode_compa.Prelude.{
  ℕ, ◌+◌, ◌^◌, ◌%◌, Bool, true, false, not, ◌&&◌, ◌||◌, Option, none, some, List, [], ◌∷◌, String,
  ◌==◌, if◌then◌else◌,
}
use fabric_x_chaincode_compa.Prelude.Int.{ltb_ℤ}
use fabric_x_chaincode_compa.Prelude.Exec.{Result, ok, err}
use fabric_x_chaincode_compa.Lifecycle.Definition.{
  ChaincodeDefinition, definition_matches, validate_next_sequence,
}
use fabric_x_chaincode_compa.Lifecycle.Ledger.{
  LedgerDefinition, from_ledger, ledger_key, high_watermark_key, index_entry_key, new_index_entry,
  marshal_ledger_definition, unmarshal_ledger_definition, marshal_index_entry,
  marshal_high_watermark, unmarshal_high_watermark,
}
use fabric_x_chaincode_compa.Orchestrator.LedgerRows.{Service, lifecycle_row}

abbrev pub event_commit : String
event_commit = "commit"

abbrev pub event_initialized : String
event_initialized = "initialized"

pub data Error : Type 0 where
  unreadable undecodable identity_mismatch superseded marker_mismatch invalid_revision : Error
  not_marshalled watermark_unreadable watermark_undecodable index_unreadable index_exists : Error
  not_endorsed : Error

pub record Read : Type 0 where
  pub key : String
  pub version : Option ℕ

pub record Write : Type 0 where
  pub key : String
  pub value : List ℕ

pub record ReadWriteSet : Type 0 where
  pub reads : List Read
  pub writes : List Write

abbrev pub is_initialized_event : String → Bool
is_initialized_event event = event == event_initialized

-- The record that is active, as `current` with its flag and version; `none` is an absent row.
pub record Active : Type 0 where
  pub current : Option LedgerDefinition
  pub version : Option ℕ

unfoldable pub read_active : Service → ChaincodeDefinition → Result Error Active
read_active s def = elim (lifecycle_row s (ledger_key s.codec s.channel_id def.name)) [
  | none ↦ err unreadable
  | some none ↦ ok (record { current = none; version = none })
  | some (some row) ↦ elim (unmarshal_ledger_definition s.codec row.0) [
    | err e ↦ err undecodable
    | ok d ↦
        if not (d.channel_id == s.channel_id) || not (d.name == def.name)
        then err identity_mismatch
        else ok (record { current = some d; version = some row.1 })
  ]
]

abbrev pub active_definition : Service → Option LedgerDefinition → Option ChaincodeDefinition
active_definition s none = none
active_definition s (some d) = some (from_ledger s.codec d)

-- What the active record says of the request: it is superseded, or done already, or it is to be
-- written with this initialization flag.
pub data Verdict : Type 0 where
  refused : Error → Verdict
  done : Verdict
  to_write : Bool → Verdict

-- `active == def && (eventType == LifecycleEventCommit || record.Initialized)`
abbrev pub is_done : Service → ChaincodeDefinition → String → LedgerDefinition → Bool
is_done s def event d =
    definition_matches (from_ledger s.codec d) def && (event == event_commit || d.initialized)

abbrev pub matches_active : Service → ChaincodeDefinition → Option LedgerDefinition → Bool
matches_active s def none = false
matches_active s def (some d) = definition_matches (from_ledger s.codec d) def

abbrev pub writes_flag : Service → ChaincodeDefinition → String → Option LedgerDefinition → Verdict
writes_flag s def event current =
    if is_initialized_event event
    then (if matches_active s def current then to_write true else refused marker_mismatch)
    else elim (validate_next_sequence (active_definition s current) def) [
      | some e ↦ refused invalid_revision
      | none ↦ to_write (not def.init_required)
    ]

unfoldable pub verdict : Service → ChaincodeDefinition → String → Option LedgerDefinition → Verdict
verdict s def event none = writes_flag s def event none
verdict s def event (some d) =
    if ltb_ℤ def.sequence d.sequence
    then refused superseded
    else if is_done s def event d
    then done
    else writes_flag s def event (some d)

-- The watermark that is there, 0 where there is none, and its version.
unfoldable pub read_watermark : Service → Result Error (ℕ × Option ℕ)
read_watermark s = elim (lifecycle_row s (high_watermark_key s.codec s.channel_id)) [
  | none ↦ err watermark_unreadable
  | some none ↦ ok (0, none)
  | some (some row) ↦ elim (unmarshal_high_watermark s.codec row.0) [
    | err e ↦ err watermark_undecodable
    | ok n ↦ ok (n, some row.1)
  ]
]

-- `highWatermark + 1` on uint64
abbrev pub next_index : ℕ → ℕ
next_index n = (n + 1) % 2 ^ 64

-- `lifecycleKeyVersion` of the index key, which must be absent
unfoldable pub check_index : Service → ℕ → Option Error
check_index s i = elim (lifecycle_row s (index_entry_key s.codec s.channel_id i)) [
  | none ↦ some index_unreadable
  | some none ↦ none
  | some (some row) ↦ some index_exists
]

abbrev pub read_write_set :
    Service → ChaincodeDefinition → Option ℕ → Option ℕ → ℕ → List ℕ → List ℕ → ReadWriteSet
read_write_set s def def_version high_version i value entry =
    let key = ledger_key s.codec s.channel_id def.name in
    let high = high_watermark_key s.codec s.channel_id in
    let index = index_entry_key s.codec s.channel_id i in
    record {
      reads =
          record { key = key; version = def_version }
          ∷ record { key = high; version = high_version }
          ∷ record { key = index; version = none }
          ∷ [];
      writes =
          record { key = key; value = value }
          ∷ record { key = index; value = entry }
          ∷ record { key = high; value = marshal_high_watermark s.codec i }
          ∷ [];
    }

-- The part of the method from the marshalling on, up to the read-write set.
unfoldable pub assemble :
    Service → ChaincodeDefinition → String → Bool → Option ℕ → Result Error ReadWriteSet
unfolding read_watermark check_index
assemble s def event initialized version =
    elim (marshal_ledger_definition s.codec s.channel_id def initialized) [
      | err e ↦ err not_marshalled
      | ok value ↦ elim (read_watermark s) [
        | err e ↦ err e
        | ok high ↦ elim (check_index s (next_index high.0)) [
          | some e ↦ err e
          | none ↦
              elim (marshal_index_entry s.codec
                (new_index_entry s.codec s.channel_id (next_index high.0) event def initialized)) [
                  | err e ↦ err not_marshalled
                  | ok entry ↦
                      ok (read_write_set s def version high.1 (next_index high.0) value entry)
                ]
        ]
      ]
    ]

-- The read-write set to endorse; `none` where the ledger shows that no transaction is needed.
unfoldable pub plan : Service → ChaincodeDefinition → String → Result Error (Option ReadWriteSet)
unfolding read_active verdict assemble
plan s def event = elim (read_active s def) [
  | err e ↦ err e
  | ok active ↦ elim (verdict s def event active.current) [
    | refused e ↦ err e
    | done ↦ ok none
    | to_write b ↦ elim (assemble s def event b active.version) [
      | err e ↦ err e
      | ok rws ↦ ok (some rws)
    ]
  ]
]

-- `prepareLifecycleTransaction`; the empty transaction ID is that of no transaction.
unfoldable pub prepare_lifecycle_transaction :
    Service → (ReadWriteSet → Option String) → ChaincodeDefinition → String → Result Error String
unfolding plan
prepare_lifecycle_transaction s endorse def event = elim (plan s def event) [
  | err e ↦ err e
  | ok none ↦ ok ""
  | ok (some rws) ↦ elim (endorse rws) [ none ↦ err not_endorsed | some tx ↦ ok tx ]
]

-- `ReadLifecycleDefinition`
unfoldable pub read_lifecycle_definition :
    Service → ChaincodeDefinition → Result Error (Option LedgerDefinition)
read_lifecycle_definition s def =
    elim (lifecycle_row s (ledger_key s.codec s.channel_id def.name)) [
      | none ↦ err unreadable
      | some none ↦ ok none
      | some (some row) ↦ elim (unmarshal_ledger_definition s.codec row.0) [
        | err e ↦ err undecodable
        | ok d ↦ if d.channel_id == s.channel_id then ok (some d) else err identity_mismatch
      ]
    ]
