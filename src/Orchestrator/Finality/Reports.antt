-- ===== src/Orchestrator/Finality/Reports.antt =====
-- Where a status comes from: an answer of the query service (queryTransactionStatus of
-- compatibility_service/pkg/orchestrator/execution.go), or an event of the notification stream
-- (waitForNotification of service.go there).
use fabric_x_chaincode_compa.Prelude.{
  ◌≡◌, refl, ◌∙◌, ap, inl, inr, Option, none, some, List, [], ◌∷◌, String, ◌==◌, arith, ◌∈◌,
  Bool-cases, Option-cases,
}
use fabric_x_chaincode_compa.Orchestrator.Finality.Status.{
  StatusCodes, TxStatus, QueryService, Notifier, NotificationResponse, Stream, waiting,
  is_final_status, first_final, query_transaction_status, event_of, match_notification,
  wait_for_notification, wait_status, subscribe_finality,
}

-- The committer reported this status of the transaction, asked for it or on the stream for it.
pub data Reported (query : QueryService) (notifier : Notifier) (tx_id : String) (st : TxStatus)
    : Type 0 where
  queried :
      (get : List String → Option (List TxStatus)) (statuses : List TxStatus)
      → query ≡ some get
      → get (tx_id ∷ []) ≡ some statuses
      → st ∈ statuses
      → Reported query notifier tx_id st
  notified :
      (open_stream : String → Option Stream) (stream : Stream) (res : NotificationResponse)
      → notifier ≡ some open_stream
      → open_stream tx_id ≡ some stream
      → res ∈ stream.responses
      → st ∈ res.tx_status_events
      → Reported query notifier tx_id st

first_final-In :
    (codes : StatusCodes) (tx_id : String) (statuses : List TxStatus) {st : TxStatus}
    → first_final codes tx_id statuses ≡ some st
    → st ∈ statuses
unfolding first_final
first_final-In codes tx_id [] h = absurd (cc)
first_final-In codes tx_id (x ∷ rest) h = elim (Bool-cases (is_final_status codes tx_id (some x))) [
  | inl b ↦ inl (ground arith)
  | inr b ↦ inr (first_final-In codes tx_id rest (ground arith))
]

pub query_status-Reported :
    (codes : StatusCodes) (query : QueryService) (notifier : Notifier) (tx_id : String)
    {st : TxStatus}
    → query_transaction_status codes query tx_id ≡ some (some st)
    → Reported query notifier tx_id st
unfolding query_transaction_status
query_status-Reported codes none notifier tx_id h = absurd (ground arith)
query_status-Reported codes (some get) notifier tx_id h = elim (Option-cases (get (tx_id ∷ []))) [
  | inl e ↦ absurd (ground arith)
  | inr (statuses, e) ↦
      queried get statuses refl e (first_final-In codes tx_id statuses (ground arith))
]

event_of-In :
    (tx_id : String) (events : List TxStatus) {st : TxStatus}
    → event_of tx_id events ≡ some st
    → st ∈ events
unfolding event_of
event_of-In tx_id [] h = absurd (cc)
event_of-In tx_id (x ∷ rest) h = elim (Bool-cases (x.tx_id == tx_id)) [
  | inl b ↦ inl (ground arith)
  | inr b ↦ inr (event_of-In tx_id rest (ground arith))
]

match_notification-In :
    (tx_id : String) (res : NotificationResponse) {st : TxStatus}
    → match_notification tx_id res ≡ some (some st)
    → st ∈ res.tx_status_events
unfolding match_notification
match_notification-In tx_id res h = elim (Option-cases (event_of tx_id res.tx_status_events)) [
  | inl e ↦ absurd (ground arith)
  | inr (x, e) ↦ event_of-In tx_id res.tx_status_events (ground arith)
]

wait_for_notification-In :
    (tx_id : String) (responses : List NotificationResponse) {st : TxStatus}
    → wait_for_notification tx_id responses ≡ some st
    → (res : NotificationResponse) × (res ∈ responses) × (st ∈ res.tx_status_events)
unfolding wait_for_notification
wait_for_notification-In tx_id [] h = absurd (cc)
wait_for_notification-In tx_id (res ∷ rest) {st} h =
    elim (Option-cases (match_notification tx_id res)) [
      | inl e ↦
          let (found, i, j) = wait_for_notification-In tx_id rest {st = st} (ground arith) in
          (found, inr i, j)
      | inr (o, e) ↦ (
        res,
        inl refl,
        match_notification-In tx_id res (e ∙ ap some (rw (e, wait_for_notification) at h)),
      )
    ]

pub wait_status-Reported :
    (query : QueryService) (notifier : Notifier) (tx_id : String)
    {responses : List NotificationResponse} {st : TxStatus}
    → subscribe_finality notifier tx_id ≡ waiting responses
    → wait_status tx_id (waiting responses) ≡ some st
    → Reported query notifier tx_id st
unfolding subscribe_finality wait_status
wait_status-Reported query none tx_id e h = absurd (ground arith)
wait_status-Reported query (some open_stream) tx_id {responses} {st} e h =
    elim (Option-cases (open_stream tx_id)) [
      | inl n ↦ absurd (ground arith)
      | inr (stream, n) ↦
          let is : stream.responses ≡ responses = ground arith in
          let (res, i, j) =
            wait_for_notification-In tx_id stream.responses {st = st}
              (ap (wait_for_notification tx_id) is ∙ h) in
          notified open_stream stream res refl n i j
    ]
