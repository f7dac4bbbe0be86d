-- ===== src/Orchestrator/Publication/Visible.antt =====
-- A prepared transaction that took effect is what a later synchronization reads.
use Prim.Native.String.{◌++◌, len}
use text.Mathlib.TextPositions.{len-append}
use text.Mathlib.TextLemmas.{append-ne-nil_of_right_ne-nil}
use fabric_x_chaincode_compa.Prelude.{
  ℕ, ◌+◌, ◌^◌, ◌<◌, ◌≡◌, refl, sym, subst, ap, Bool, false, Option, none, some, List, String, ◌==◌,
  eq_refl, eq_iff, arith, Bool-cases, inl, inr, All,
}
use fabric_x_chaincode_compa.Prelude.Exec.{ok}
use fabric_x_chaincode_compa.Lifecycle.Definition.{ChaincodeDefinition, validate_definition}
use fabric_x_chaincode_compa.Lifecycle.Ledger.{
  Codec, LedgerDefinition, LifecycleIndexEntry, ReadsBack, from_ledger, channel_key_prefix,
  ledger_definition, ledger_key, index_entry_key, new_index_entry, marshal_ledger_definition,
  unmarshal_ledger_definition, marshal_index_entry, unmarshal_index_entry, unmarshal_high_watermark,
  marshal_high_watermark,
}
use fabric_x_chaincode_compa.Lifecycle.Store.State.{Store}
use fabric_x_chaincode_compa.Lifecycle.Store.Inclusion.{Includes}
use fabric_x_chaincode_compa.Lifecycle.Store.Revisions.{view}
use fabric_x_chaincode_compa.Orchestrator.LedgerRows.{Service, Answer, Row, lifecycle_row}
use fabric_x_chaincode_compa.Orchestrator.Publication.Preparation.{
  Write, ReadWriteSet, next_index, read_watermark, plan,
}
use fabric_x_chaincode_compa.Orchestrator.Publication.Prepared.{Assembled, flag, plan-Planned}
use fabric_x_chaincode_compa.Orchestrator.Synchronization.Loop.{
  required_row, read_entry, read_definition, ledger_definition_at, high_watermark,
  sync_lifecycle_from_ledger,
}
use fabric_x_chaincode_compa.Orchestrator.Synchronization.Coverage.{sync_lifecycle-covers}

-- The same service later, when the ledger has other rows.
abbrev pub with_rows : Service → (String → String → Option Answer) → Service
with_rows s rows = record s { get_rows = rows }

-- The ledger holds what the transaction wrote.
abbrev pub Holds : Service → ReadWriteSet → Type 0
Holds s rws =
    All (λ (w : Write). (v : ℕ) × (lifecycle_row s w.key ≡ some (some (w.value, v)))) rws.writes

-- What is written for this index is read back as it was.
pub record IsReadable (k : Codec) (channel : String) (def : ChaincodeDefinition) (event : String)
    (i : ℕ) : Type 0 where
  pub definition :
      ReadsBack k.marshal_definition k.unmarshal_definition
        (ledger_definition k channel def (flag def event))
  pub entry :
      ReadsBack k.marshal_entry k.unmarshal_entry
        (new_index_entry k channel i event def (flag def event))
  pub watermark : unmarshal_high_watermark k (marshal_high_watermark k i) ≡ ok i

key_not_empty : (k : Codec) (channel name : String) → (ledger_key k channel name == "") ≡ false
key_not_empty k channel name = elim (Bool-cases (ledger_key k channel name == "")) [
  | inl e ↦ absurd (
      append-ne-nil_of_right_ne-nil (channel_key_prefix k channel)
        {t = "chaincodes/" ++ k.path_escape name}
        (λ h. absurd (omega (arith, len-append "chaincodes/" (k.path_escape name), ap len h)))
        ((eq_iff _ _).0 e))
  | inr e ↦ e
]

valid_name : (def : ChaincodeDefinition) → validate_definition def ≡ none → (def.name == "") ≡ false
unfolding validate_definition
valid_name def v = ground arith

-- A value that the writer makes is accepted by the reader.
value_read :
    (k : Codec) (channel : String) (def : ChaincodeDefinition) (b : Bool) {value : List ℕ}
    → ReadsBack k.marshal_definition k.unmarshal_definition (ledger_definition k channel def b)
    → marshal_ledger_definition k channel def b ≡ ok value
    → (unmarshal_ledger_definition k value ≡ ok (ledger_definition k channel def b))
      × ((channel == "") ≡ false)
      × (validate_definition def ≡ none)
unfolding marshal_ledger_definition unmarshal_ledger_definition
value_read k channel def b (bytes, w, r) h = (ground arith, ground arith, ground arith)

entry_read :
    (k : Codec) (channel : String) (i : ℕ) (event : String) (def : ChaincodeDefinition) (b : Bool)
    {entry : List ℕ}
    → ReadsBack k.marshal_entry k.unmarshal_entry (new_index_entry k channel i event def b)
    → (channel == "") ≡ false
    → (def.name == "") ≡ false
    → marshal_index_entry k (new_index_entry k channel i event def b) ≡ ok entry
    → unmarshal_index_entry k entry ≡ ok (new_index_entry k channel i event def b)
unfolding unmarshal_index_entry
entry_read k channel i event def b {entry} (bytes, w, r) e n h =
    let same : entry ≡ bytes = ground arith in
    ground (arith, eq_refl (ledger_key k channel def.name))

next_index_lem : (n : ℕ) → n + 1 < 2 ^ 64 → next_index n ≡ n + 1
next_index_lem n h = omega arith

read_entry-found :
    (s : Service) (i : ℕ) (row : Row) (e : LifecycleIndexEntry)
    → lifecycle_row s (index_entry_key s.codec s.channel_id i) ≡ some (some row)
    → unmarshal_index_entry s.codec row.0 ≡ ok e
    → e.channel_id ≡ s.channel_id
    → e.number ≡ i
    → (e.definition_key == "") ≡ false
    → read_entry s i ≡ ok e
unfolding read_entry required_row
read_entry-found s i row e at is c n k = ground (arith, eq_iff e.channel_id s.channel_id)

read_definition-found :
    (s : Service) (entry : LifecycleIndexEntry) (row : Row) (d : LedgerDefinition)
    → lifecycle_row s entry.definition_key ≡ some (some row)
    → unmarshal_ledger_definition s.codec row.0 ≡ ok d
    → d.channel_id ≡ s.channel_id
    → d.name ≡ entry.name
    → read_definition s entry ≡ ok d
unfolding read_definition required_row
read_definition-found s entry row d at is c n =
    ground (arith, eq_iff d.channel_id s.channel_id, eq_iff d.name entry.name)

module _ (s : Service) (rows : String → String → Option Answer) (def : ChaincodeDefinition)
    (event : String) where
  published_rows :
      {version : Option ℕ} {rws : ReadWriteSet}
      (a : Assembled s def event (flag def event) version rws)
      → IsReadable s.codec s.channel_id def event (next_index a.watermark)
      → Holds (with_rows s rows) rws
      → (high_watermark (with_rows s rows) ≡ ok (next_index a.watermark))
        × (ledger_definition_at (with_rows s rows) (next_index a.watermark)
            ≡ ok (ledger_definition s.codec s.channel_id def (flag def event)))
  unfolding high_watermark ledger_definition_at
  published_rows a readable holds =
      let i = next_index a.watermark in
      let entry_is = new_index_entry s.codec s.channel_id i event def (flag def event) in
      let ((v, def_row), ((v', entry_row), ((v'', high_row), u))) =
        subst (Holds (with_rows s rows)) a.is holds in
      let (value, named, valid) =
        value_read s.codec s.channel_id def (flag def event) readable.definition a.value_made in
      let entry =
        entry_read s.codec s.channel_id i event def (flag def event) readable.entry named
          (valid_name def valid) a.entry_made in
      let read : read_entry (with_rows s rows) i ≡ ok entry_is =
        read_entry-found (with_rows s rows) i (a.entry, v') entry_is entry_row entry refl refl
          (key_not_empty s.codec s.channel_id def.name) in
      (
        rw (high_row, high_watermark) (rw readable.watermark refl),
        rw (read, ledger_definition_at)
            (read_definition-found (with_rows s rows) entry_is (a.value, v)
              (ledger_definition s.codec s.channel_id def (flag def event)) def_row value refl
              refl),
      )

  -- A transaction is prepared where the watermark is below the largest uint64, and later the
  -- ledger holds its writes, which are read back as they were written. Then every synchronization
  -- that succeeds on this ledger leaves a store whose active definition of the name is no older
  -- than the prepared definition.
  pub published_is_synchronized :
      {rws : ReadWriteSet} (now : String) (t u : Store) (watermark : ℕ) (version : Option ℕ)
      → plan s def event ≡ ok (some rws)
      → read_watermark s ≡ ok (watermark, version)
      → watermark + 1 < 2 ^ 64
      → IsReadable s.codec s.channel_id def event (watermark + 1)
      → Holds (with_rows s rows) rws
      → sync_lifecycle_from_ledger now (with_rows s rows) t ≡ (ok tt, u)
      → Includes def (view u def.name)
  published_is_synchronized now t u watermark version planned read small readable holds run =
      let (active, e, permits, a) = plan-Planned s def event planned in
      let same : a.watermark ≡ watermark = ground (arith, a.watermark_read) in
      let i : next_index a.watermark ≡ watermark + 1 = rw same (next_index_lem watermark small) in
      let (high, at) =
        published_rows a (subst (IsReadable s.codec s.channel_id def event) (sym i) readable)
          holds in
      let (n, is, covered) = (sync_lifecycle-covers now (with_rows s rows) t).1 u run in
      let last : n ≡ watermark + 1 = ground (arith, is, high, i) in
      let (d, found, included) =
        covered (next_index a.watermark) (omega (arith, i)) (omega (arith, i, last)) in
      let it : d ≡ ledger_definition s.codec s.channel_id def (flag def event) =
        ground (arith, found, at) in
      subst (λ (x : LedgerDefinition). Includes (from_ledger s.codec x) (view u x.name)) it included
