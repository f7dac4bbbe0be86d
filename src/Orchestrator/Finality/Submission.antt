-- ===== src/Orchestrator/Finality/Submission.antt =====
-- submitTransaction and submitAndWaitFinality of
-- compatibility_service/pkg/orchestrator/execution.go, for the record of one invocation.
use fabric_x_chaincode_compa.Prelude.{
  ℕ, Bool, true, Option, none, some, String, get_elem?, if◌then◌else◌,
}
use fabric_x_chaincode_compa.Prelude.Exec.{Result, ok, err}
use fabric_x_chaincode_compa.Lifecycle.Definition.{ChaincodeDefinition}
use fabric_x_chaincode_compa.Orchestrator.Idempotency.State.{
  InvocationResponse, ChaincodeEvent, Store, mark_submission, lock_finality, wait_result,
}
use fabric_x_chaincode_compa.Orchestrator.Finality.Status.{
  StatusCodes, TxStatus, Notifier, is_final_status, subscribe_finality, wait_status,
}
use fabric_x_chaincode_compa.Orchestrator.Finality.Submitter.{
  Attempt, SubmitError, submit, is_uncertain,
}
use fabric_x_chaincode_compa.Orchestrator.Finality.Record.{AfterCommit, record_finality, released}

pub data SubmissionError : Type 0 where
  no_record context_ended : SubmissionError
  submit_failed : SubmitError → SubmissionError
  recorded : String → SubmissionError

-- An invocation whose endorsements are collected. `event` is what `eventFromEndorsement` finds, and
-- `describe` the text of an error of the submitter.
pub record Endorsed : Type 0 where
  pub response : InvocationResponse
  pub tx_id : String
  pub event : Option ChaincodeEvent
  pub after_commit : Option ChaincodeDefinition
  pub attempt : Attempt
  pub describe : SubmitError → String

abbrev pub submitted_response : InvocationResponse → InvocationResponse
submitted_response out = record out { submitted = true; finality_pending = true }

-- The response with the error beside it; `none` in the place of the whole is a panic.
abbrev pub Reply : Type 0
Reply = InvocationResponse × Option SubmissionError

abbrev pub replied : Reply → Option Store → Option (Reply × Store)
replied r none = none
replied r (some s) = some (r, s)

abbrev pub after_submit : Endorsed → ℕ → ℕ → Option SubmitError → Store → Option (Reply × Store)
after_submit e p now none s =
    replied (submitted_response e.response, none)
      (mark_submission (some p) (submitted_response e.response) e.event e.after_commit none now s)
after_submit e p now (some x) s =
    if is_uncertain x
    then replied (submitted_response e.response, some (submit_failed x))
        (mark_submission (some p) (submitted_response e.response) e.event e.after_commit
          (some (e.describe x)) now s)
    else some ((e.response, some (submit_failed x)), s)

-- `submitTransaction` with an ordering client; `live` tells that the context has no error.
unfoldable pub submit_transaction : Endorsed → ℕ → Bool → ℕ → Store → Option (Reply × Store)
submit_transaction e p live now s =
    if live
    then after_submit e p now (submit e.attempt) s
    else some ((e.response, some context_ended), s)

abbrev pub recorded_error : Option String → Option SubmissionError
recorded_error none = none
recorded_error (some e) = some (recorded e)

-- `waitResult` without an error of the wait
abbrev pub result_of : ℕ → Reply → Store → Reply
result_of p reply s = elim (get_elem? s.heap p) [
  | none ↦ reply
  | some r ↦ ((wait_result r none).0, recorded_error (wait_result r none).1)
]

abbrev pub finished :
    StatusCodes → AfterCommit → ℕ → String → Option TxStatus → ℕ → Store → Option Store
finished codes after p tx_id none now s = some s
finished codes after p tx_id (some st) now s =
    if is_final_status codes tx_id (some st) then record_finality codes after p st now s else some s

-- What follows `submitTransaction` in `submitAndWaitFinality`, up to the release of the lock.
-- `interrupted` tells that the context ended while `WaitAfterSubmit` passed.
abbrev pub after_transaction :
    StatusCodes
    → AfterCommit
    → ℕ
    → String
    → Option TxStatus
    → Bool
    → ℕ
    → Option (Reply × Store)
    → Option (Reply × Store)
after_transaction codes after p tx_id status interrupted now none = none
after_transaction codes after p tx_id status interrupted now (some ((out, some e), s)) =
    some ((out, some e), released p s)
after_transaction codes after p tx_id status interrupted now (some ((out, none), s)) =
    elim (if interrupted then some s else finished codes after p tx_id status now s) [
      | none ↦ none
      | some t ↦ some (result_of p (out, none) t, released p t)
    ]

pub data Waited : Type 0 where
  blocked : Waited
  panicked : Waited

abbrev pub done : Option (Reply × Store) → Result Waited (Reply × Store)
done none = err panicked
done (some x) = ok x

-- `submitAndWaitFinality`. The context error is that of the lock, `live` that of the submission.
unfoldable pub submit_and_wait_finality :
    StatusCodes
    → AfterCommit
    → Notifier
    → Endorsed
    → ℕ
    → Option String
    → Bool
    → Bool
    → ℕ
    → Store
    → Result Waited (Reply × Store)
unfolding lock_finality submit_transaction record_finality
submit_and_wait_finality codes after notifier e p context live interrupted now s =
    elim (lock_finality p context s) [
      | none ↦ err blocked
      | some (some x, t) ↦ ok ((e.response, some context_ended), t)
      | some (none, t) ↦ done (
          after_transaction codes after p e.tx_id
            (wait_status e.tx_id (subscribe_finality notifier e.tx_id)) interrupted now
            (submit_transaction e p live now t))
    ]
