-- ===== src/Orchestrator/Finality/Record.antt =====
-- recordFinality, refreshObservedFinality and reconcilePendingBefore of
-- compatibility_service/pkg/orchestrator/execution.go, on the store of requests. The callback after
-- a commit is a parameter with its error. The caller holds the finality lock of the record.
use fabric_x_chaincode_compa.Prelude.{
  ℕ, Bool, true, false, Option, none, some, List, [], ◌∷◌, ◌++◌, String, ◌==◌, if◌then◌else◌,
}
use fabric_x_chaincode_compa.Prelude.Int.{eqb_ℤ}
use fabric_x_chaincode_compa.Prelude.Assoc.{lookup, insert}
use fabric_x_chaincode_compa.Lifecycle.Definition.{ChaincodeDefinition}
use fabric_x_chaincode_compa.Orchestrator.Idempotency.State.{
  InvocationResponse, SubmittedInvocation, Store, pending, pending_records_before,
  try_lock_finality, unlock_finality, confirm_finality,
}
use fabric_x_chaincode_compa.Orchestrator.Finality.Status.{StatusCodes, TxStatus, is_final_status}

abbrev pub AfterCommit : Type 0
AfterCommit = ChaincodeDefinition → Option String

abbrev pub is_committed : StatusCodes → TxStatus → Bool
is_committed codes st = eqb_ℤ st.status codes.committed

-- The response that a final status makes of a pending one.
abbrev pub finished_response : StatusCodes → SubmittedInvocation → TxStatus → InvocationResponse
finished_response codes inv st = record inv.response {
  commit_status = codes.text st.status;
  block_num = st.block_num;
  tx_num = st.tx_num;
  finality_pending = false;
  chaincode_event = if is_committed codes st then inv.event else inv.response.chaincode_event;
}

abbrev pub callback_error : AfterCommit → Option ChaincodeDefinition → Option String
callback_error after none = none
callback_error after (some def) = after def

abbrev pub finality_error :
    StatusCodes → AfterCommit → SubmittedInvocation → TxStatus → Option String
finality_error codes after inv st =
    if is_committed codes st then callback_error after inv.after_commit else none

-- `recordFinality`; its error is logged by the callers. `none` is a panic.
unfoldable pub record_finality : StatusCodes → AfterCommit → ℕ → TxStatus → ℕ → Store → Option Store
record_finality codes after p st now s = elim (pending (some p) s) [
  | none ↦ some s
  | some inv ↦
      if is_final_status codes inv.response.tx_id (some st)
      then confirm_finality (some p) (finished_response codes inv st)
          (finality_error codes after inv st) now s
      else some s
]

abbrev pub released : ℕ → Store → Store
released p s = elim (unlock_finality p s) [ none ↦ s | some t ↦ t ]

-- A loop whose body may panic.
unfoldable pub each : {A : Type 0} → (A → Store → Option Store) → List A → Store → Option Store
each f [] s = some s
each f (a ∷ as') s = elim (f a s) [ none ↦ none | some t ↦ each f as' t ]

abbrev pub recorded_locked :
    StatusCodes → AfterCommit → ℕ → TxStatus → ℕ → Bool × Store → Option Store
recorded_locked codes after p st now (false, s) = some s
recorded_locked codes after p st now (true, s) = elim (record_finality codes after p st now s) [
  | none ↦ none
  | some t ↦ some (released p t)
]

-- The body of the loop of `refreshObservedFinality`.
unfoldable pub refresh_record : StatusCodes → AfterCommit → TxStatus → ℕ → ℕ → Store → Option Store
unfolding record_finality
refresh_record codes after st now p s = elim (pending (some p) s) [
  | none ↦ some s
  | some inv ↦
      if inv.response.tx_id == st.tx_id
      then recorded_locked codes after p st now (try_lock_finality p s)
      else some s
]

-- `refreshObservedFinality`; the records come in the order in which the map gives them.
unfoldable pub refresh_observed_finality :
    StatusCodes → AfterCommit → TxStatus → ℕ → List (String × ℕ) → Store → Option Store
unfolding refresh_record each
refresh_observed_finality codes after st now order s =
    each (refresh_record codes after st now) (pending_records_before none 0 order s) s

-- The records that a pass has locked, by their transaction IDs, and these IDs.
pub record Batch : Type 0 where
  pub locked : List (String × ℕ)
  pub tx_ids : List String

abbrev pub collect_locked : ℕ → Option SubmittedInvocation → Batch → Store → Batch × Store
collect_locked p none b s = (b, released p s)
collect_locked p (some inv) b s = (
  record {
    locked = insert inv.response.tx_id p b.locked;
    tx_ids = b.tx_ids ++ inv.response.tx_id ∷ [];
  },
  s,
)

abbrev pub collect_one : ℕ → Bool × Store → Batch → Batch × Store
collect_one p (false, s) b = (b, s)
collect_one p (true, s) b = collect_locked p (pending (some p) s) b s

-- The first loop of `reconcilePendingBefore`.
unfoldable pub collect : List ℕ → Batch → Store → Batch × Store
collect [] b s = (b, s)
collect (p ∷ ps) b s = let (c, t) = collect_one p (try_lock_finality p s) b in collect ps c t

-- The body of its second loop.
unfoldable pub apply_status :
    StatusCodes → AfterCommit → ℕ → List (String × ℕ) → TxStatus → Store → Option Store
unfolding record_finality
apply_status codes after now locked st s = elim (lookup st.tx_id locked) [
  | none ↦ some s
  | some p ↦
      if is_final_status codes st.tx_id (some st)
      then record_finality codes after p st now s
      else some s
]

-- The deferred unlocking of the batch.
unfoldable pub release_all : List (String × ℕ) → Store → Store
release_all [] s = s
release_all ((tx, p) ∷ rest) s = release_all rest (released p s)

abbrev pub recovery_batch_size : ℕ
recovery_batch_size = 32

-- The part of `reconcilePendingBefore` after its first loop.
unfoldable pub settle_batch :
    StatusCodes
    → AfterCommit
    → (List String → Option (List TxStatus))
    → ℕ
    → Batch × Store
    → Option Store
unfolding apply_status each release_all
settle_batch codes after get now (b, s) = elim b.tx_ids [
  | [] ↦ some s
  | tx ∷ more ↦ elim (get (tx ∷ more)) [
    | none ↦ some (release_all b.locked s)
    | some statuses ↦ elim (each (apply_status codes after now b.locked) statuses s) [
      | none ↦ none
      | some t ↦ some (release_all b.locked t)
    ]
  ]
]

-- `reconcilePendingBefore` with a query service and a context without an error
unfoldable pub reconcile_pending_before :
    StatusCodes
    → AfterCommit
    → (List String → Option (List TxStatus))
    → ℕ
    → ℕ
    → List (String × ℕ)
    → Store
    → Option Store
unfolding collect settle_batch
reconcile_pending_before codes after get cutoff now order s = settle_batch codes after get now (
    collect (pending_records_before (some cutoff) recovery_batch_size order s)
      (record { locked = []; tx_ids = [] }) s)
