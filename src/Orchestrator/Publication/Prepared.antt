-- ===== src/Orchestrator/Publication/Prepared.antt =====
-- What a prepared lifecycle transaction writes, and that a synchronization finds it.
use fabric_x_chaincode_compa.Prelude.{
  ℕ, ◌≡◌, refl, subst, ap, Bool, true, false, not, ◌||◌, inl, inr, Option, none, some, List, [],
  ◌∷◌, String, arith, Option-cases,
}
use fabric_x_chaincode_compa.Prelude.Exec.{Result, ok, err, Result-cases}
use fabric_x_chaincode_compa.Lifecycle.Definition.{
  ChaincodeDefinition, definition_matches→eq, validate_next_sequence,
}
use fabric_x_chaincode_compa.Lifecycle.Ledger.{
  LedgerDefinition, from_ledger, ledger_key, high_watermark_key, marshal_high_watermark,
  index_entry_key, new_index_entry, marshal_ledger_definition, marshal_index_entry,
}
use fabric_x_chaincode_compa.Orchestrator.LedgerRows.{Service, lifecycle_row}
use fabric_x_chaincode_compa.Orchestrator.Publication.Preparation.{
  Active, Error, Verdict, to_write, refused, done, is_initialized_event, read_active,
  active_definition, verdict, writes_flag, matches_active, read_watermark, next_index, check_index,
  ReadWriteSet, read_write_set, assemble, plan,
}

-- The flag that is written: a marker's is set, and a commitment's where no init is required.
abbrev pub flag : ChaincodeDefinition → String → Bool
flag def event = is_initialized_event event || not def.init_required

-- The rule on what may follow the active record.
abbrev pub Permits : Service → ChaincodeDefinition → String → Option LedgerDefinition → Type 0
Permits s def event current =
    (is_initialized_event event ≡ true → active_definition s current ≡ some def)
    × (is_initialized_event event ≡ false
        → validate_next_sequence (active_definition s current) def ≡ none)

matches_active-eq :
    (s : Service) (def : ChaincodeDefinition) (current : Option LedgerDefinition)
    → matches_active s def current ≡ true
    → active_definition s current ≡ some def
matches_active-eq s def none h = absurd (cc)
matches_active-eq s def (some d) h = ap some (definition_matches→eq (from_ledger s.codec d) def h)

writes_flag-Permits :
    (s : Service) (def : ChaincodeDefinition) (event : String) (current : Option LedgerDefinition)
    {b : Bool}
    → writes_flag s def event current ≡ to_write b
    → (b ≡ flag def event) × Permits s def event current
writes_flag-Permits s def event current h =
    (ground arith, (λ e. matches_active-eq s def current (ground arith), λ e. ground arith))

verdict-Permits :
    (s : Service) (def : ChaincodeDefinition) (event : String) (current : Option LedgerDefinition)
    {b : Bool}
    → verdict s def event current ≡ to_write b
    → (b ≡ flag def event) × Permits s def event current
unfolding verdict
verdict-Permits s def event none h = writes_flag-Permits s def event none h
verdict-Permits s def event (some d) h = writes_flag-Permits s def event (some d) (ground arith)

-- The parts of a read-write set that `assemble` puts together.
pub record Assembled (s : Service) (def : ChaincodeDefinition) (event : String) (b : Bool)
    (version : Option ℕ) (rws : ReadWriteSet) : Type 0 where
  pub watermark : ℕ
  pub high_version : Option ℕ
  pub value : List ℕ
  pub entry : List ℕ
  pub watermark_read : read_watermark s ≡ ok (watermark, high_version)
  pub index_free :
      lifecycle_row s (index_entry_key s.codec s.channel_id (next_index watermark)) ≡ some none
  pub value_made : marshal_ledger_definition s.codec s.channel_id def b ≡ ok value
  pub entry_made :
      marshal_index_entry s.codec
        (new_index_entry s.codec s.channel_id (next_index watermark) event def b)
      ≡ ok entry
  pub is : rws ≡ read_write_set s def version high_version (next_index watermark) value entry
  pub reads :
      rws.reads
      ≡ record { key = ledger_key s.codec s.channel_id def.name; version = version }
        ∷ record { key = high_watermark_key s.codec s.channel_id; version = high_version }
        ∷ record {
          key = index_entry_key s.codec s.channel_id (next_index watermark);
          version = none;
        }
        ∷ []
  pub writes :
      rws.writes
      ≡ record { key = ledger_key s.codec s.channel_id def.name; value = value }
        ∷ record {
          key = index_entry_key s.codec s.channel_id (next_index watermark);
          value = entry;
        }
        ∷ record {
          key = high_watermark_key s.codec s.channel_id;
          value = marshal_high_watermark s.codec (next_index watermark);
        }
        ∷ []

check_index-free :
    (s : Service) (i : ℕ)
    → check_index s i ≡ none
    → lifecycle_row s (index_entry_key s.codec s.channel_id i) ≡ some none
unfolding check_index
check_index-free s i h =
    elim (Option-cases (lifecycle_row s (index_entry_key s.codec s.channel_id i))) [
      | inl e ↦ absurd (ground arith)
      | inr (none, e) ↦ e
      | inr (some row, e) ↦ absurd (ground arith)
    ]

assemble-ok :
    (s : Service) (def : ChaincodeDefinition) (event : String) (b : Bool) (version : Option ℕ)
    {rws : ReadWriteSet}
    → assemble s def event b version ≡ ok rws
    → Assembled s def event b version rws
unfolding assemble
assemble-ok s def event b version {rws} h =
    elim (Result-cases (marshal_ledger_definition s.codec s.channel_id def b)) [
      | inl (x, e) ↦ absurd (ground arith)
      | inr (value, e) ↦ elim (Result-cases (read_watermark s)) [
        | inl (x, f) ↦ absurd (ground arith)
        | inr ((n, hv), f) ↦ elim (Option-cases (check_index s (next_index n))) [
          | inr (x, g) ↦ absurd (ground arith)
          | inl g ↦
              elim (Result-cases (
                marshal_index_entry s.codec
                  (new_index_entry s.codec s.channel_id (next_index n) event def b))) [
                    | inl (x, k) ↦ absurd (ground arith)
                    | inr (entry, k) ↦
                        let is : rws ≡ read_write_set s def version hv (next_index n) value entry =
                          ground arith in
                        record {
                          watermark = n;
                          high_version = hv;
                          value = value;
                          entry = entry;
                          watermark_read = f;
                          index_free = check_index-free s (next_index n) g;
                          value_made = e;
                          entry_made = k;
                          is = is;
                          reads = ap (λ (x : ReadWriteSet). x.reads) (is);
                          writes = ap (λ (x : ReadWriteSet). x.writes) (is);
                        }
                  ]
        ]
      ]
    ]

-- A planned transaction: what was read, that the rule permits it, and what it holds.
abbrev pub Planned : Service → ChaincodeDefinition → String → ReadWriteSet → Type 0
Planned s def event rws =
    (active : Active) × (read_active s def ≡ ok active)
    × Permits s def event active.current
    × Assembled s def event (flag def event) active.version rws

-- A transaction that is prepared has read the active record. The record permits it: a marker is
-- for exactly the active definition, and a commitment passes the revision rule. Its read-write set
-- reads the versions of the definition's key and of the watermark and the absence of the next
-- index entry, which it found absent, and writes the definition, that entry and the next
-- watermark.
pub plan-Planned :
    (s : Service) (def : ChaincodeDefinition) (event : String) {rws : ReadWriteSet}
    → plan s def event ≡ ok (some rws)
    → Planned s def event rws
unfolding plan
plan-Planned s def event {rws} h = elim (Result-cases (read_active s def)) [
  | inl (x, e) ↦ absurd (ground arith)
  | inr (active, e) ↦ go active e (verdict s def event active.current) refl (ground arith)
]
  where
    go :
        (active : Active)
        → read_active s def ≡ ok active
        → (v : Verdict) → verdict s def event active.current ≡ v
        → ◌≡◌ {A = Result Error (Option ReadWriteSet)}
            (elim v [
              | refused x ↦ err x
              | done ↦ ok none
              | to_write b ↦ elim (assemble s def event b active.version) [
                | err x ↦ err x
                | ok r ↦ ok (some r)
              ]
            ])
            (ok (some rws))
        → Planned s def event rws
    go active e (refused x) k h = absurd (ground arith)
    go active e done k h = absurd (ground arith)
    go active e (to_write b) k h =
        let (same, permits) = verdict-Permits s def event active.current k in
        let made : assemble s def event b active.version ≡ ok rws = ground arith in
        (
          active,
          e,
          permits,
          subst (λ x. Assembled s def event x active.version rws) same
              (assemble-ok s def event b active.version made),
        )
