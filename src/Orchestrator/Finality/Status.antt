-- ===== src/Orchestrator/Finality/Status.antt =====
-- The known outcomes of a transaction: isFinalStatus and queryTransactionStatus of
-- compatibility_service/pkg/orchestrator/execution.go, and the notifications of service.go there.
-- The status codes of the committer's protocol are a parameter.
use fabric_x_chaincode_compa.Prelude.{
  ℕ, ◌≡◌, Bool, true, false, not, ◌&&◌, ◌||◌, Option, none, some, List, [], ◌∷◌, String, ◌==◌,
  eq_iff, arith, if◌then◌else◌, inl, inr, Bool-cases, Option-cases, subst,
}
use fabric_x_chaincode_compa.Prelude.Int.{ℤ, eqb_ℤ}

-- `Status_STATUS_UNSPECIFIED`, `Status_COMMITTED`, the keys of `Status_name`, and `String()`
pub record StatusCodes : Type 0 where
  pub unspecified : ℤ
  pub committed : ℤ
  pub is_known : ℤ → Bool
  pub text : ℤ → String

-- `committerpb.TxStatus`; an absent reference has the empty ID and the numbers 0.
pub record TxStatus : Type 0 where
  pub tx_id : String
  pub status : ℤ
  pub block_num : ℕ
  pub tx_num : ℕ

unfoldable pub is_final_status : StatusCodes → String → Option TxStatus → Bool
is_final_status codes tx_id none = false
is_final_status codes tx_id (some st) =
    st.tx_id == tx_id && not (eqb_ℤ st.status codes.unspecified) && codes.is_known st.status

-- The loop over the statuses of an answer.
unfoldable pub first_final : StatusCodes → String → List TxStatus → Option TxStatus
unfolding is_final_status
first_final codes tx_id [] = none
first_final codes tx_id (st ∷ rest) =
    let more = first_final codes tx_id rest in
    if is_final_status codes tx_id (some st) then some st else more

-- `GetTransactionStatus` of the query service, which may be absent; `none` is its error.
abbrev pub QueryService : Type 0
QueryService = Option (List String → Option (List TxStatus))

-- `none` is an error, `some none` an outcome that is not known.
unfoldable pub query_transaction_status :
    StatusCodes → QueryService → String → Option (Option TxStatus)
unfolding first_final
query_transaction_status codes none tx_id = none
query_transaction_status codes (some get) tx_id = elim (get (tx_id ∷ [])) [
  | none ↦ none
  | some statuses ↦ some (first_final codes tx_id statuses)
]

pub record NotificationResponse : Type 0 where
  pub tx_status_events : List TxStatus
  pub timeout_tx_ids : List String
  pub rejected_tx_ids : List String

unfoldable pub event_of : String → List TxStatus → Option TxStatus
event_of tx_id [] = none
event_of tx_id (st ∷ rest) =
    let more = event_of tx_id rest in if st.tx_id == tx_id then some st else more

unfoldable pub contains : String → List String → Bool
contains x [] = false
contains x (y ∷ ys) = let more = contains x ys in y == x || more

-- `none` is no match; an error of the match is `some none`.
unfoldable pub match_notification : String → NotificationResponse → Option (Option TxStatus)
unfolding event_of contains
match_notification tx_id res = elim (event_of tx_id res.tx_status_events) [
  | some st ↦ some (some st)
  | none ↦
      if contains tx_id res.timeout_tx_ids || contains tx_id res.rejected_tx_ids
      then some none
      else none
]

-- The loop over what the stream receives; after the last response it ends with an error.
unfoldable pub wait_for_notification : String → List NotificationResponse → Option TxStatus
unfolding match_notification
wait_for_notification tx_id [] = none
wait_for_notification tx_id (res ∷ rest) =
    let more = wait_for_notification tx_id rest in
    elim (match_notification tx_id res) [ none ↦ more | some found ↦ found ]

-- A stream that the notifier opened: whether the request could be sent, and what comes back.
pub record Stream : Type 0 where
  pub accepts : Bool
  pub responses : List NotificationResponse

-- `OpenNotificationStream` for a transaction; `none` outside is an absent notifier.
abbrev pub Notifier : Type 0
Notifier = Option (String → Option Stream)

-- `absent` is the nil subscription without an error.
pub data Subscription : Type 0 where
  absent failed_to_open : Subscription
  waiting : List NotificationResponse → Subscription

unfoldable pub subscribe_finality : Notifier → String → Subscription
subscribe_finality none tx_id = absent
subscribe_finality (some open_stream) tx_id = elim (open_stream tx_id) [
  | none ↦ failed_to_open
  | some stream ↦ if stream.accepts then waiting stream.responses else failed_to_open
]

-- `finalitySubscription.Wait`; an error and the nil subscription give no status.
unfoldable pub wait_status : String → Subscription → Option TxStatus
unfolding wait_for_notification
wait_status tx_id absent = none
wait_status tx_id failed_to_open = none
wait_status tx_id (waiting responses) = wait_for_notification tx_id responses

-- The status is of this transaction, has a known code and is not the unspecified one.
pub record IsFinal (codes : StatusCodes) (tx_id : String) (st : TxStatus) : Type 0 where
  pub own : st.tx_id ≡ tx_id
  pub specified : eqb_ℤ st.status codes.unspecified ≡ false
  pub known : codes.is_known st.status ≡ true

pub is_final_status-IsFinal :
    (codes : StatusCodes) (tx_id : String) (st : TxStatus)
    → is_final_status codes tx_id (some st) ≡ true
    → IsFinal codes tx_id st
unfolding is_final_status
is_final_status-IsFinal codes tx_id st h = record {
  own = (eq_iff _ _).0 (ground arith);
  specified = ground arith;
  known = ground arith;
}

first_final-IsFinal :
    (codes : StatusCodes) (tx_id : String) (statuses : List TxStatus) {st : TxStatus}
    → first_final codes tx_id statuses ≡ some st
    → IsFinal codes tx_id st
unfolding first_final
first_final-IsFinal codes tx_id [] h = cc
first_final-IsFinal codes tx_id (x ∷ rest) {st} h =
    elim (Bool-cases (is_final_status codes tx_id (some x))) [
      | inl b ↦
          let same : x ≡ st = ground arith in
          subst (IsFinal codes tx_id) same (is_final_status-IsFinal codes tx_id x b)
      | inr b ↦ first_final-IsFinal codes tx_id rest (ground arith)
    ]

pub query_status-IsFinal :
    (codes : StatusCodes) (q : QueryService) (tx_id : String) {st : TxStatus}
    → query_transaction_status codes q tx_id ≡ some (some st)
    → IsFinal codes tx_id st
unfolding query_transaction_status
query_status-IsFinal codes none tx_id h = absurd (ground arith)
query_status-IsFinal codes (some get) tx_id h = elim (Option-cases (get (tx_id ∷ []))) [
  | inl e ↦ absurd (ground arith)
  | inr (statuses, e) ↦ first_final-IsFinal codes tx_id statuses (ground arith)
]
