-- ===== src/Orchestrator/Finality/Waiting.antt =====
-- An explicit request for a transaction's status: waitForTransactionStatus of
-- compatibility_service/pkg/orchestrator/execution.go. The turns of its loop are a list: what the
-- query service answers in the turn, whether the context is done after that, and which channel the
-- select takes. The list ends where the context does.
use fabric_x_chaincode_compa.Prelude.{
  ◌≡◌, refl, inl, inr, Bool, true, false, not, ◌&&◌, Option, none, some, List, [], ◌∷◌, ◌++◌,
  String, arith, if◌then◌else◌, Bool-cases,
}
use fabric_x_chaincode_compa.Orchestrator.Finality.Status.{
  StatusCodes, TxStatus, QueryService, Subscription, absent, failed_to_open, waiting, IsFinal,
  is_final_status, is_final_status-IsFinal, query_transaction_status, query_status-IsFinal,
}

-- The channel that the select takes; `notified none` is a closed stream or one without a status.
pub data Signal : Type 0 where
  context_done recheck last_check : Signal
  notified : Option TxStatus → Signal

pub record Turn : Type 0 where
  pub query : QueryService
  pub is_done : Bool
  pub wake : Signal

-- `unavailable` is the error of the first query, `ended` that of the context.
pub data StatusWaited : Type 0 where
  found : TxStatus → StatusWaited
  unavailable ended : StatusWaited

-- The channel of the notifications is nil unless a stream was opened.
abbrev pub has_channel : Subscription → Bool
has_channel absent = false
has_channel failed_to_open = false
has_channel (waiting responses) = true

-- An error of the query is logged.
abbrev pub after_query : Option (Option TxStatus) → StatusWaited → StatusWaited
after_query none other = other
after_query (some none) other = other
after_query (some (some st)) other = found st

-- The select; a nil channel is never ready. `more` is the loop with the channel or without it.
unfoldable pub after_wake :
    StatusCodes → String → Bool → Signal → (Bool → StatusWaited) → StatusWaited
after_wake codes tx_id channel context_done more = ended
after_wake codes tx_id channel recheck more = more channel
after_wake codes tx_id channel last_check more = more channel
after_wake codes tx_id channel (notified none) more = more false
after_wake codes tx_id channel (notified (some st)) more =
    if channel && is_final_status codes tx_id (some st) then found st else more false

unfoldable pub wait_turns : StatusCodes → String → List Turn → Bool → StatusWaited
unfolding after_wake
wait_turns codes tx_id [] channel = ended
wait_turns codes tx_id (r ∷ rest) channel =
    let more = wait_turns codes tx_id rest in
    if r.is_done
    then ended
    else after_query (query_transaction_status codes r.query tx_id)
        (after_wake codes tx_id channel r.wake more)

abbrev pub first_answer : Option (Option TxStatus) → StatusWaited → StatusWaited
first_answer none other = unavailable
first_answer (some none) other = other
first_answer (some (some st)) other = found st

unfoldable pub wait_for_transaction_status :
    StatusCodes → String → QueryService → Subscription → List Turn → StatusWaited
unfolding wait_turns
wait_for_transaction_status codes tx_id query subscription turns =
    first_answer (query_transaction_status codes query tx_id)
      (wait_turns codes tx_id turns (has_channel subscription))

abbrev is_context_done : Signal → Bool
is_context_done context_done = true
is_context_done recheck = false
is_context_done last_check = false
is_context_done (notified o) = false

-- The context lives through all these turns.
abbrev pub is_live : List Turn → Bool
is_live [] = true
is_live (r ∷ rs) = let rest = is_live rs in not r.is_done && not (is_context_done r.wake) && rest

-- The wait returns a known outcome of this transaction.
abbrev pub Finds : StatusCodes → String → StatusWaited → Type 0
Finds codes tx_id w = (st : TxStatus) × (w ≡ found st) × IsFinal codes tx_id st

module _ (codes : StatusCodes) (tx_id : String) where
  after_query-Finds :
      (q : QueryService) (a : Option (Option TxStatus)) (other : StatusWaited)
      → query_transaction_status codes q tx_id ≡ a
      → Finds codes tx_id other
      → Finds codes tx_id (after_query a other)
  after_query-Finds q none other e f = f
  after_query-Finds q (some none) other e f = f
  after_query-Finds q (some (some st)) other e f = (st, refl, query_status-IsFinal codes q tx_id e)

  after_wake-Finds :
      (channel : Bool) (w : Signal) (more : Bool → StatusWaited)
      → is_context_done w ≡ false
      → ((c : Bool) → Finds codes tx_id (more c))
      → Finds codes tx_id (after_wake codes tx_id channel w more)
  unfolding after_wake
  after_wake-Finds channel context_done more h f = absurd (ground arith)
  after_wake-Finds channel recheck more h f = f channel
  after_wake-Finds channel last_check more h f = f channel
  after_wake-Finds channel (notified none) more h f = f false
  after_wake-Finds channel (notified (some st)) more h f =
      elim (Bool-cases (channel && is_final_status codes tx_id (some st))) [
        | inl b ↦
            (st, rw (b, after_wake) refl, is_final_status-IsFinal codes tx_id st (ground arith))
        | inr b ↦ rw (b, after_wake) (f false)
      ]

  wait_turns-Finds :
      (before : List Turn) (r : Turn) (after : List Turn) {st : TxStatus} (channel : Bool)
      → is_live before ≡ true
      → r.is_done ≡ false
      → query_transaction_status codes r.query tx_id ≡ some (some st)
      → Finds codes tx_id (wait_turns codes tx_id (before ++ r ∷ after) channel)
  unfolding wait_turns
  wait_turns-Finds [] r after {st} channel live d q =
      (st, rw (d, q, wait_turns) refl, query_status-IsFinal codes r.query tx_id q)
  wait_turns-Finds (b ∷ bs) r after channel live d q =
      let now : b.is_done ≡ false = ground arith in
      rw (now, wait_turns)
        (after_query-Finds b.query (query_transaction_status codes b.query tx_id)
          (after_wake codes tx_id channel b.wake (wait_turns codes tx_id (bs ++ r ∷ after))) refl
          (after_wake-Finds channel b.wake (wait_turns codes tx_id (bs ++ r ∷ after)) (ground arith)
            (λ c. wait_turns-Finds bs r after c (ground arith) d q)))

-- When the first query of waitForTransactionStatus answers, and the context lives until a query of
-- its loop answers with the known outcome of the transaction, the wait returns a known outcome of
-- this transaction, whatever became of the subscription, of its notifications and of the other
-- queries.
pub wait_for_transaction_status-Finds :
    (codes : StatusCodes) (tx_id : String) (query : QueryService) (subscription : Subscription)
    (before : List Turn) (r : Turn) (after : List Turn) {o : Option TxStatus} {st : TxStatus}
    → query_transaction_status codes query tx_id ≡ some o
    → is_live before ≡ true
    → r.is_done ≡ false
    → query_transaction_status codes r.query tx_id ≡ some (some st)
    → Finds codes tx_id
        (wait_for_transaction_status codes tx_id query subscription (before ++ r ∷ after))
unfolding wait_for_transaction_status
wait_for_transaction_status-Finds codes tx_id query subscription before r after {o = none} a live d
      q =
    rw (a, wait_for_transaction_status)
      (wait_turns-Finds codes tx_id before r after (has_channel subscription) live d q)
wait_for_transaction_status-Finds codes tx_id query subscription before r after {o = some found_st}
      a live d q =
    (found_st, rw (a, wait_for_transaction_status) refl, query_status-IsFinal codes query tx_id a)
