-- ===== src/Lifecycle/Ledger.antt =====
-- compatibility_service/pkg/lifecycle/ledger.go: the keys and values of the lifecycle records on
-- the ledger. `Codec` is what the code takes from encoding/json, net/url, fmt and strconv.
use Prim.Native.String.{◌++◌}
use fabric_x_chaincode_compa.Prelude.{
  ℕ, ◌≡◌, refl, Bool, false, not, ◌||◌, Option, none, some, List, [], ◌∷◌, String, ◌==◌, arith,
  eq_refl, nat_eq, if◌then◌else◌,
}
use fabric_x_chaincode_compa.Prelude.Int.{ℤ}
use fabric_x_chaincode_compa.Prelude.Exec.{Result, ok, err}
use fabric_x_chaincode_compa.Lifecycle.Definition.{ChaincodeDefinition, validate_definition}

pub record LedgerDefinition : Type 0 where
  pub channel_id : String
  pub name : String
  pub version : String
  pub sequence : ℤ
  pub init_required : Bool
  pub initialized : Bool

pub record LifecycleIndexEntry : Type 0 where
  pub schema_version : ℕ
  pub number : ℕ
  pub event_type : String
  pub definition_key : String
  pub channel_id : String
  pub name : String
  pub version : String
  pub sequence : ℤ
  pub init_required : Bool
  pub initialized : Bool

-- Functions of the standard library; `none` is an error.
pub record Codec : Type 0 where
  pub path_escape : String → String
  pub format_padded : ℕ → String  -- `%020d`
  pub marshal_definition : LedgerDefinition → Option (List ℕ)
  pub unmarshal_definition : List ℕ → Option LedgerDefinition
  pub marshal_entry : LifecycleIndexEntry → Option (List ℕ)
  pub unmarshal_entry : List ℕ → Option LifecycleIndexEntry
  pub format_uint : ℕ → List ℕ
  pub parse_uint : List ℕ → Option ℕ

-- The bytes that the value is marshalled to are read back as it.
abbrev pub ReadsBack : {A : Type 0} → (A → Option (List ℕ)) → (List ℕ → Option A) → A → Type 0
ReadsBack marshal unmarshal a =
    (bytes : List ℕ) × (marshal a ≡ some bytes) × (unmarshal bytes ≡ some a)

pub data Error : Type 0 where
  no_channel invalid_definition marshal_failed undecodable legacy_record invalid_entry : Error

-- `lifecycleLedgerSchema`
abbrev pub lifecycle_ledger_schema : ℕ
lifecycle_ledger_schema = 2

valid_name : (def : ChaincodeDefinition) → validate_definition def ≡ none → (def.name == "") ≡ false
unfolding validate_definition
valid_name def v = ground arith

module _ (k : Codec) where
  abbrev pub channel_key_prefix : String → String
  channel_key_prefix channel = "_lifecycle/channels/" ++ k.path_escape channel ++ "/"

  abbrev pub ledger_key : String → String → String
  ledger_key channel name = channel_key_prefix channel ++ "chaincodes/" ++ k.path_escape name

  abbrev pub high_watermark_key : String → String
  high_watermark_key channel = channel_key_prefix channel ++ "index/high_watermark"

  abbrev pub index_entry_key : String → ℕ → String
  index_entry_key channel number = channel_key_prefix channel ++ "index/" ++ k.format_padded number

  abbrev pub ledger_definition : String → ChaincodeDefinition → Bool → LedgerDefinition
  ledger_definition channel def initialized = record {
    channel_id = channel;
    name = def.name;
    version = def.version;
    sequence = def.sequence;
    init_required = def.init_required;
    initialized = initialized;
  }

  abbrev pub marshalled : Option (List ℕ) → Result Error (List ℕ)
  marshalled none = err marshal_failed
  marshalled (some bytes) = ok bytes

  unfoldable pub marshal_ledger_definition :
      String → ChaincodeDefinition → Bool → Result Error (List ℕ)
  marshal_ledger_definition channel def initialized =
      if channel == "" then err no_channel else elim (validate_definition def) [
        | some e ↦ err invalid_definition
        | none ↦ marshalled (k.marshal_definition (ledger_definition channel def initialized))
      ]

  abbrev pub from_ledger : LedgerDefinition → ChaincodeDefinition
  from_ledger v = record {
    name = v.name;
    version = v.version;
    sequence = v.sequence;
    init_required = v.init_required;
  }

  unfoldable pub unmarshal_ledger_definition : List ℕ → Result Error LedgerDefinition
  unmarshal_ledger_definition bytes = elim (k.unmarshal_definition bytes) [
    | none ↦ err undecodable
    | some v ↦
        if v.channel_id == ""
        then err legacy_record
        else elim (validate_definition (from_ledger v)) [
          | some e ↦ err invalid_definition
          | none ↦ ok v
        ]
  ]

  abbrev pub new_index_entry :
      String → ℕ → String → ChaincodeDefinition → Bool → LifecycleIndexEntry
  new_index_entry channel number event def initialized = record {
    schema_version = lifecycle_ledger_schema;
    number = number;
    event_type = event;
    definition_key = ledger_key channel def.name;
    channel_id = channel;
    name = def.name;
    version = def.version;
    sequence = def.sequence;
    init_required = def.init_required;
    initialized = initialized;
  }

  abbrev pub marshal_index_entry : LifecycleIndexEntry → Result Error (List ℕ)
  marshal_index_entry e = marshalled (k.marshal_entry e)

  unfoldable pub unmarshal_index_entry : List ℕ → Result Error LifecycleIndexEntry
  unmarshal_index_entry bytes = elim (k.unmarshal_entry bytes) [
    | none ↦ err undecodable
    | some e ↦
        if not (nat_eq e.schema_version lifecycle_ledger_schema)
          || e.channel_id == ""
          || e.name == ""
          || not (e.definition_key == ledger_key e.channel_id e.name)
        then err invalid_entry
        else ok e
  ]

  abbrev pub marshal_high_watermark : ℕ → List ℕ
  marshal_high_watermark n = k.format_uint n

  unfoldable pub unmarshal_high_watermark : List ℕ → Result Error ℕ
  unmarshal_high_watermark [] = ok 0
  unmarshal_high_watermark (x ∷ xs) = elim (k.parse_uint (x ∷ xs)) [
    | none ↦ err undecodable
    | some n ↦ ok n
  ]

  -- For a channel with a name and a valid definition, whose JSON is read back as it was written,
  -- the definition record and the index entry that are written are read as they are: the checks of
  -- the readers accept what the writers make.
  pub ledger_round_trip :
      (channel : String) (number : ℕ) (event : String) (def : ChaincodeDefinition) (b : Bool)
      → ReadsBack k.marshal_definition k.unmarshal_definition (ledger_definition channel def b)
      → ReadsBack k.marshal_entry k.unmarshal_entry (new_index_entry channel number event def b)
      → (channel == "") ≡ false
      → validate_definition def ≡ none
      → ((bytes : List ℕ) × (marshal_ledger_definition channel def b ≡ ok bytes)
          × (unmarshal_ledger_definition bytes ≡ ok (ledger_definition channel def b)))
        × ((bytes : List ℕ) × (marshal_index_entry (new_index_entry channel number event def b)
              ≡ ok bytes)
            × (unmarshal_index_entry bytes ≡ ok (new_index_entry channel number event def b)))
  unfolding marshal_ledger_definition unmarshal_ledger_definition unmarshal_index_entry
  ledger_round_trip channel number event def b (bytes, w, r) (bytes', w', r') e v =
      let named : (def.name == "") ≡ false = valid_name def v in
      (
        (bytes, rw e (rw v (rw w refl)), rw (r, unmarshal_ledger_definition) (rw e (rw v refl))),
        (
          bytes',
          rw w' refl,
          rw (r', unmarshal_index_entry)
              (rw e (rw named (rw (eq_refl (ledger_key channel def.name)) refl))),
        ),
      )
