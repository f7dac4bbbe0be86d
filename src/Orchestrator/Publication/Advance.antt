-- ===== src/Orchestrator/Publication/Advance.antt =====
-- The transaction of a pending operation: advanceLifecycleTransaction and observeLifecycleFinality
-- of compatibility_service/pkg/orchestrator/lifecycle_ledger.go. The caller holds the gate.
use fabric_x_chaincode_compa.Prelude.{
  ℕ, Bool, true, false, not, Option, none, some, ◌∷◌, String, ◌==◌, get_elem?, if◌then◌else◌,
}
use fabric_x_chaincode_compa.Prelude.Int.{eqb_ℤ}
use fabric_x_chaincode_compa.Prelude.Exec.{ok, err}
use fabric_x_chaincode_compa.Lifecycle.Ledger.{ledger_key}
use fabric_x_chaincode_compa.Lifecycle.Server.State.{LedgerCommitResult, no_result}
use fabric_x_chaincode_compa.Orchestrator.LedgerRows.{Service}
use fabric_x_chaincode_compa.Orchestrator.Finality.Status.{
  StatusCodes, TxStatus, QueryService, Notifier, Subscription, absent, failed_to_open, waiting,
  is_final_status, query_transaction_status, subscribe_finality, wait_status,
}
use fabric_x_chaincode_compa.Orchestrator.Finality.Submitter.{
  Attempt, SubmitError, submit, is_uncertain,
}
use fabric_x_chaincode_compa.Orchestrator.Publication.Preparation
use fabric_x_chaincode_compa.Orchestrator.Publication.Preparation.{
  ReadWriteSet, is_initialized_event, prepare_lifecycle_transaction,
}
use fabric_x_chaincode_compa.Orchestrator.Publication.Pending.{
  PendingLifecycle, State, Event, sent, rejected, Error, pending, status_unavailable,
  not_subscribed, not_submitted, rejected_status, no_such_pending, not_prepared, write,
  remove_operation,
}

-- The services while one call runs.
pub record Environment : Type 0 where
  pub ledger : Service
  pub endorse : ReadWriteSet → Option String
  pub codes : StatusCodes
  pub query : QueryService
  pub notifier : Notifier
  pub attempt : String → Attempt

abbrev pub Outcome : Type 0
Outcome = LedgerCommitResult × Option Error

abbrev pub logged : Event → State → State
logged e s = record s { log = e ∷ s.log }

abbrev pub with_status : StatusCodes → TxStatus → LedgerCommitResult → LedgerCommitResult
with_status codes st r = record r {
  status = codes.text st.status;
  block_num = st.block_num;
  tx_num = st.tx_num;
}

-- `observeLifecycleFinality` with the pending operation `r` at `p`.
unfoldable pub observe : StatusCodes → ℕ → PendingLifecycle → TxStatus → State → Outcome × State
unfolding remove_operation
observe codes p r st s =
    let result = with_status codes st r.result in
    if eqb_ℤ st.status codes.committed
    then ((result, none), write p (record r { result = result }) s)
    else (
      (result, some rejected_status),
      logged (rejected p r.result.tx_id) (
          if is_initialized_event r.operation.event
          then write p (record r { result = no_result }) s
          else remove_operation p s),
    )

abbrev pub with_tx : Environment → PendingLifecycle → String → LedgerCommitResult
with_tx env r tx = record {
  tx_id = tx;
  status = "";
  block_num = 0;
  tx_num = 0;
  namespace = env.ledger.namespace;
  key = ledger_key env.ledger.codec env.ledger.channel_id r.definition.name;
}

-- The wait for the finality of a transaction that was delivered.
unfoldable pub await :
    Environment → Bool → ℕ → PendingLifecycle → Subscription → State → Outcome × State
unfolding observe
await env wait p r absent s = ((r.result, some pending), s)
await env wait p r failed_to_open s = ((r.result, some pending), s)
await env wait p r (waiting responses) s =
    if not wait
    then ((r.result, some pending), s)
    else elim (wait_status r.result.tx_id (waiting responses)) [
      | none ↦ ((r.result, some pending), s)
      | some st ↦
          if is_final_status env.codes r.result.tx_id (some st)
          then observe env.codes p r st s
          else ((r.result, some pending), s)
    ]

-- The log after `Submit` returned: the transaction may have reached the ordering service unless the
-- error is a certain one.
unfoldable pub handed : ℕ → String → Option SubmitError → State → State
handed p tx none s = logged (sent p tx) s
handed p tx (some e) s = if is_uncertain e then logged (sent p tx) s else s

-- What follows `Submit` with this error, for the operation `r` at `p` that has saved its
-- transaction.
unfoldable pub delivered :
    Environment
    → Bool
    → ℕ
    → PendingLifecycle
    → Subscription
    → Option SubmitError
    → State
    → Outcome × State
unfolding await
delivered env wait p r subscription none s = await env wait p r subscription s
delivered env wait p r subscription (some e) s =
    let result = record r.result { tx_id = "" } in
    if is_uncertain e
    then ((r.result, some not_submitted), s)
    else ((result, some not_submitted), write p (record r { result = result }) s)

unfoldable pub deliver :
    Environment → Bool → ℕ → PendingLifecycle → Subscription → State → Outcome × State
unfolding delivered handed
deliver env wait p r subscription s =
    let error = submit (env.attempt r.result.tx_id) in
    delivered env wait p r subscription error (handed p r.result.tx_id error s)

-- The operation `r` at `p` has got its transaction, and the caller wants to wait.
unfoldable pub deliver_subscribed :
    Environment → ℕ → PendingLifecycle → Subscription → State → Outcome × State
unfolding deliver
deliver_subscribed env p r failed_to_open s =
    let result = record r.result { tx_id = "" } in
    ((result, some not_subscribed), write p (record r { result = result }) s)
deliver_subscribed env p r absent s = deliver env true p r absent (write p r s)
deliver_subscribed env p r (waiting responses) s =
    deliver env true p r (waiting responses) (write p r s)

-- What follows the preparation of the transaction `tx`.
unfoldable pub send : Environment → Bool → ℕ → PendingLifecycle → String → State → Outcome × State
unfolding deliver_subscribed
send env wait p r tx s =
    let result = with_tx env r tx in
    let saved = record r { result = result } in
    if tx == ""
    then (let committed = record result { status = env.codes.text env.codes.committed } in
        ((committed, none), write p (record r { result = committed }) s))
    else if not wait
    then deliver env wait p saved absent (write p saved s)
    else deliver_subscribed env p saved (subscribe_finality env.notifier tx) s

abbrev pub is_superseded : Preparation.Error → Bool
is_superseded Preparation.superseded = true
is_superseded _ = false

-- The operation `r` at `p` has no transaction yet.
unfoldable pub start : Environment → Bool → ℕ → PendingLifecycle → State → Outcome × State
unfolding send
start env wait p r s =
    elim (prepare_lifecycle_transaction env.ledger env.endorse r.definition r.operation.event) [
      | err e ↦
          ((r.result, some (not_prepared e)), if is_superseded e then remove_operation p s else s)
      | ok tx ↦ send env wait p r tx s
    ]

-- The operation `r` at `p` has a transaction whose outcome is not known.
unfoldable pub check_again : Environment → ℕ → PendingLifecycle → State → Outcome × State
unfolding observe
check_again env p r s = elim (query_transaction_status env.codes env.query r.result.tx_id) [
  | none ↦ ((r.result, some status_unavailable), s)
  | some none ↦ ((r.result, some pending), s)
  | some (some st) ↦ observe env.codes p r st s
]

-- `advanceLifecycleTransaction`
unfoldable pub advance : Environment → Bool → ℕ → State → Outcome × State
unfolding start check_again
advance env wait p s = elim (get_elem? s.heap p) [
  | none ↦ ((no_result, some no_such_pending), s)
  | some r ↦
      if r.result.status == env.codes.text env.codes.committed
      then ((r.result, none), s)
      else if not (r.result.tx_id == "")
      then check_again env p r s
      else start env wait p r s
]
