-- ===== src/Orchestrator/Idempotency/State.antt =====
-- compatibility_service/pkg/orchestrator/idempotency.go: the store of requests that are under way.
-- A `*idempotencyRecord` is an index into the heap of all records that were made, so that a caller
-- may still hold a record that the map has dropped. `none` is the nil pointer. An operation that
-- closes a channel returns an `Option`: `none` is the panic of a second close.
use fabric_x_chaincode_compa.Prelude.{
  ℕ, suc, Bool, true, false, not, ◌&&◌, ◌||◌, Option, none, some, List, [], ◌∷◌, ◌++◌, String, ◌==◌,
  length, get_elem?, set, leb, nat_eq, if◌then◌else◌,
}
use fabric_x_chaincode_compa.Prelude.Int.{ℤ, pos}
use fabric_x_chaincode_compa.Prelude.Exec.{Result, ok, err}
use fabric_x_chaincode_compa.Prelude.Assoc.{lookup, insert, delete}
use fabric_x_chaincode_compa.Lifecycle.Definition.{ChaincodeDefinition}

pub data State : Type 0 where
  in_progress executed submitted completed failed : State

pub record ChaincodeEvent : Type 0 where
  pub chaincode_id : String
  pub tx_id : String
  pub event_name : String
  pub payload : String

pub record LifecycleBinding : Type 0 where
  pub msp_id : String
  pub namespace : String
  pub chaincode_name : String
  pub chaincode_version : String
  pub sequence : ℤ
  pub package_id : String
  pub package_address : String

pub record InvocationResponse : Type 0 where
  pub tx_id : String
  pub status : ℤ
  pub message : String
  pub payload : String
  pub payload_base64 : String
  pub submitted : Bool
  pub finality_pending : Bool
  pub commit_status : String
  pub block_num : ℕ
  pub tx_num : ℕ
  pub idempotency_key : String
  pub idempotent_replay : Bool
  pub chaincode_event : Option ChaincodeEvent
  pub lifecycle_bindings : List LifecycleBinding

abbrev pub no_response : InvocationResponse
no_response = record {
  tx_id = "";
  status = pos 0;
  message = "";
  payload = "";
  payload_base64 = "";
  submitted = false;
  finality_pending = false;
  commit_status = "";
  block_num = 0;
  tx_num = 0;
  idempotency_key = "";
  idempotent_replay = false;
  chaincode_event = none;
  lifecycle_bindings = [];
}

-- Times are nanoseconds. The callback after a commit is `markInitializedAfterCommit` for a
-- definition, the only one that the program makes.
pub record Request : Type 0 where
  pub key : String
  pub digest : String
  pub state : State
  pub helper_tx_id : String
  pub response : InvocationResponse
  pub error : Option String
  pub created_at : ℕ
  pub updated_at : ℕ
  pub submitted_closed : Bool
  pub done_closed : Bool
  pub finality_locked : Bool  -- the one slot of `finalityCheck` is taken
  pub after_commit : Option ChaincodeDefinition
  pub event : Option ChaincodeEvent

pub record Store : Type 0 where
  pub heap : List Request
  pub records : List (String × ℕ)

abbrev pub new_idempotency_store : Store
new_idempotency_store = record { heap = []; records = [] }

pub data Error : Type 0 where
  conflict missing_key nil_record : Error

abbrev pub deref : Store → Option ℕ → Option Request
deref s none = none
deref s (some p) = get_elem? s.heap p

abbrev pub write : ℕ → Request → Store → Store
write p r s = record s { heap = set s.heap p r }

-- the record that is reserved for a key, with its pointer
unfoldable pub existing : String → String → Store → Result Error (Option ℕ)
existing key digest s = elim (lookup key s.records) [
  | none ↦ ok none
  | some p ↦ elim (get_elem? s.heap p) [
    | none ↦ ok none
    | some r ↦ if r.digest == digest then ok (some p) else err conflict
  ]
]

abbrev pub new_request : String → String → ℕ → Request
new_request key digest now = record {
  key = key;
  digest = digest;
  state = in_progress;
  helper_tx_id = "";
  response = no_response;
  error = none;
  created_at = now;
  updated_at = now;
  submitted_closed = false;
  done_closed = false;
  finality_locked = false;
  after_commit = none;
  event = none;
}

-- The second part is `firstRequest`.
unfoldable pub begin : String → String → ℕ → Store → Result Error (ℕ × Bool) × Store
begin key digest now s =
    let fresh : Store = record {
      heap = s.heap ++ new_request key digest now ∷ [];
      records = insert key (length s.heap) s.records;
    } in
    if key == "" || digest == "" then (err missing_key, s) else elim (lookup key s.records) [
      | none ↦ (ok (length s.heap, true), fresh)
      | some p ↦ elim (get_elem? s.heap p) [
        | none ↦ (ok (length s.heap, true), fresh)
        | some r ↦ if r.digest == digest then (ok (p, false), s) else (err conflict, s)
      ]
    ]

abbrev pub is_finished : State → Bool
is_finished completed = true
is_finished failed = true
is_finished _ = false

abbrev pub is_submitted : State → Bool
is_submitted submitted = true
is_submitted _ = false

-- `waitResult`: what a caller gets whose wait ended with `wait_err`
unfoldable pub wait_result : Request → Option String → InvocationResponse × Option String
wait_result r wait_err =
    let out = record r.response { idempotency_key = r.key } in
    if is_submitted r.state
    then (record out { finality_pending = true }, none)
    else if is_finished r.state
    then (out, r.error)
    else (out, wait_err)

-- What ends the `select` of `wait`; a case can be taken when its channel is closed.
pub data Wake : Type 0 where
  by_done by_submitted : Wake
  by_context : String → Wake

abbrev pub can_wake : Request → Wake → Bool
can_wake r by_done = r.done_closed
can_wake r by_submitted = r.submitted_closed
can_wake r (by_context e) = true

abbrev wake_error : Wake → Option String
wake_error (by_context e) = some e
wake_error _ = none

-- The result of `wait` when this case of its `select` is taken; `none` is the nil record.
unfoldable pub wait : Option Request → Wake → InvocationResponse × Option String
unfolding wait_result
wait none w = (no_response, some "idempotency record is nil")
wait (some r) w = wait_result r (wake_error w)

unfoldable pub mark_executed : Option ℕ → String → ℕ → Store → Store
mark_executed none tx_id now s = s
mark_executed (some p) tx_id now s = elim (get_elem? s.heap p) [
  | none ↦ s
  | some r ↦ write p (record r { helper_tx_id = tx_id; state = executed; updated_at = now }) s
]

-- `markSubmission`; the event is what `eventFromEndorsement` finds.
unfoldable pub mark_submission :
    Option ℕ
    → InvocationResponse
    → Option ChaincodeEvent
    → Option ChaincodeDefinition
    → Option String
    → ℕ
    → Store
    → Option Store
mark_submission none response event after_commit submit_err now s = some s
mark_submission (some p) response event after_commit submit_err now s = elim (get_elem? s.heap p) [
  | none ↦ some s
  | some r ↦
      if is_submitted r.state || is_finished r.state
      then some s
      else if r.submitted_closed
      then none
      else some (
          write p
            (record r {
              response = record response { finality_pending = true };
              error = submit_err;
              event = event;
              after_commit = after_commit;
              state = submitted;
              updated_at = now;
              submitted_closed = true;
            })
            s)
]

-- `submissionOutcome`
unfoldable pub submission_outcome : Request → Bool × Option String
submission_outcome r =
    if is_submitted r.state
    then (r.response.submitted, r.error)
    else if r.response.submitted
    then (true, none)
    else (false, r.error)

-- Only the record that the map holds for its key is removed.
unfoldable pub remove : ℕ → String → Store → Store
remove p key s = elim (lookup key s.records) [
  | none ↦ s
  | some q ↦ if nat_eq q p then record s { records = delete key s.records } else s
]

abbrev pub ended : Option String → State
ended none = completed
ended (some e) = failed

unfoldable pub complete : Option ℕ → InvocationResponse → Option String → ℕ → Store → Option Store
unfolding remove
complete none response error now s = some s
complete (some p) response error now s = elim (get_elem? s.heap p) [
  | none ↦ some s
  | some r ↦
      if is_submitted r.state || is_finished r.state
      then some s
      else if r.done_closed
      then none
      else some (
          remove p r.key (
            write p
              (record r {
                response = response;
                error = error;
                state = ended error;
                updated_at = now;
                done_closed = true;
              })
              s))
]

unfoldable pub confirm_finality :
    Option ℕ → InvocationResponse → Option String → ℕ → Store → Option Store
unfolding remove
confirm_finality none response error now s = some s
confirm_finality (some p) response error now s = elim (get_elem? s.heap p) [
  | none ↦ some s
  | some r ↦
      if not (is_submitted r.state) || response.commit_status == ""
      then some s
      else if r.done_closed
      then none
      else some (
          remove p r.key (
            write p
              (record r {
                response = record response { finality_pending = false };
                error = error;
                state = completed;
                updated_at = now;
                after_commit = none;
                event = none;
                done_closed = true;
              })
              s))
]

pub record SubmittedInvocation : Type 0 where
  pub response : InvocationResponse
  pub event : Option ChaincodeEvent
  pub after_commit : Option ChaincodeDefinition

unfoldable pub pending : Option ℕ → Store → Option SubmittedInvocation
pending p s = elim (deref s p) [
  | none ↦ none
  | some r ↦
      if is_submitted r.state
      then some (record { response = r.response; event = r.event; after_commit = r.after_commit })
      else none
]

-- a record that `pendingRecordsBefore` collects; no cutoff is the zero time
abbrev pub is_due : Option ℕ → Request → Bool
is_due none r = is_submitted r.state
is_due (some cutoff) r = is_submitted r.state && leb r.updated_at cutoff

-- The loop over the map, whose entries come in the order of the list; `limit` 0 is no limit, and
-- `taken` counts what was collected.
unfoldable pub pending_from : Option ℕ → ℕ → ℕ → List (String × ℕ) → Store → List ℕ
pending_from cutoff limit taken [] s = []
pending_from cutoff limit taken ((k, p) ∷ rest) s =
    let more = pending_from cutoff limit (suc taken) rest s in
    let skip = pending_from cutoff limit taken rest s in
    elim (get_elem? s.heap p) [
      | none ↦ skip
      | some r ↦
          if is_due cutoff r
          then p ∷ (if leb 1 limit && nat_eq (suc taken) limit then [] else more)
          else skip
    ]

unfoldable pub pending_records_before : Option ℕ → ℕ → List (String × ℕ) → Store → List ℕ
unfolding pending_from
pending_records_before cutoff limit order s = pending_from cutoff limit 0 order s

-- `tryLockFinality`
unfoldable pub try_lock_finality : ℕ → Store → Bool × Store
try_lock_finality p s = elim (get_elem? s.heap p) [
  | none ↦ (false, s)
  | some r ↦
      if r.finality_locked
      then (false, s)
      else (true, write p (record r { finality_locked = true }) s)
]

-- `unlockFinality`; a receive from the empty channel blocks, and has no result.
unfoldable pub unlock_finality : ℕ → Store → Option Store
unlock_finality p s = elim (get_elem? s.heap p) [
  | none ↦ none
  | some r ↦
      if r.finality_locked then some (write p (record r { finality_locked = false }) s) else none
]

-- `lockFinality` with the state of its context: `none` is a call that still waits for the slot.
unfoldable pub lock_finality : ℕ → Option String → Store → Option (Option String × Store)
unfolding try_lock_finality
lock_finality p (some e) s = some (some e, s)
lock_finality p none s =
    let (taken, s') = try_lock_finality p s in if taken then some (none, s') else none
