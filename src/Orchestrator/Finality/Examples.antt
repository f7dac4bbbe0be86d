-- ===== src/Orchestrator/Finality/Examples.antt =====
-- One pending invocation and one that is about to be submitted.
use fabric_x_chaincode_compa.Prelude.{
  ℕ, ◌≡◌, refl, true, false, ◌&&◌, Option, none, some, List, [], ◌∷◌, ◌++◌, String, get_elem?,
}
use fabric_x_chaincode_compa.Prelude.Int.{pos}
use fabric_x_chaincode_compa.Prelude.Exec.{ok}
use fabric_x_chaincode_compa.Prelude.Assoc.{insert, lookup}
use fabric_x_chaincode_compa.Orchestrator.Idempotency.State.{
  InvocationResponse, Request, Store, no_response, new_request, new_idempotency_store, submitted,
  begin,
}
use fabric_x_chaincode_compa.Orchestrator.Idempotency.Invariant.{IsValid}
use fabric_x_chaincode_compa.Orchestrator.Idempotency.Steps.{
  Reach, here, next, begins, reachable_operations,
}
use fabric_x_chaincode_compa.Orchestrator.Finality.Status.{
  StatusCodes, TxStatus, QueryService, waiting, query_transaction_status,
}
use fabric_x_chaincode_compa.Orchestrator.Finality.Waiting.{
  Turn, recheck, notified, found, wait_for_transaction_status, Finds,
  wait_for_transaction_status-Finds,
}
use fabric_x_chaincode_compa.Orchestrator.Finality.Submitter.{submit}
use fabric_x_chaincode_compa.Orchestrator.Finality.Record.{AfterCommit}
use fabric_x_chaincode_compa.Orchestrator.Finality.Submission.{
  Endorsed, Reply, submit_and_wait_finality,
}
use fabric_x_chaincode_compa.Orchestrator.Finality.Submitted.{
  IsTracked, may_have_arrived, submit_and_wait_finality-IsTracked,
}

abbrev codes : StatusCodes
codes = record {
  unspecified = pos 0;
  committed = pos 1;
  is_known = λ n. true;
  text = λ n. "COMMITTED";
}

abbrev response : InvocationResponse
response = record no_response { tx_id = "tx1" }

abbrev fresh : Request
fresh = new_request "k" "d" 5

abbrev begun : Store
begun = record { heap = fresh ∷ []; records = ("k", 0) ∷ [] }

abbrev sent : Request
sent = record fresh {
  response = record response { finality_pending = true };
  state = submitted;
  updated_at = 7;
  submitted_closed = true;
}

abbrev sent_store : Store
sent_store = record { heap = sent ∷ []; records = ("k", 0) ∷ [] }

begun_reached : Reach new_idempotency_store begun
unfolding begin lookup insert
begun_reached = next here (begins "k" "d" 5)

begun-IsValid : IsValid begun
begun-IsValid = (reachable_operations begun begun_reached).0

abbrev status : TxStatus
status = record { tx_id = "tx1"; status = pos 1; block_num = 7; tx_num = 2 }

abbrev after_commit : AfterCommit
after_commit def = none

abbrev statuses : List String → Option (List TxStatus)
statuses ids = some (status ∷ [])

abbrev order : List (String × ℕ)
order = ("k", 0) ∷ []

-- The acknowledgment of the delivery is lost.
abbrev endorsed : Endorsed
endorsed = record {
  response = response;
  tx_id = "tx1";
  event = none;
  after_commit = none;
  attempt = record { packaged = true; opened = true; sent = true; received = none };
  describe = λ e. "deadline exceeded";
}

submit_and_wait_finality-IsTracked_example :
    (reply : Reply) × (t : Store) × (submit_and_wait_finality codes after_commit none endorsed 0
        none true false 6 begun
      ≡ ok (reply, t))
    × IsValid t
    × (true && may_have_arrived (submit endorsed.attempt) ≡ true → IsTracked 0 t)
    × (true && may_have_arrived (submit endorsed.attempt) ≡ false → get_elem? t.heap 0 ≡ some fresh)
submit_and_wait_finality-IsTracked_example =
    submit_and_wait_finality-IsTracked codes after_commit none endorsed 0 true false 6 begun fresh
      begun-IsValid refl refl refl

abbrev answers : List TxStatus → QueryService
answers found_statuses = some (λ ids. some found_statuses)

abbrev lost : QueryService
lost = some (λ ids. none)

-- The stream closes without an outcome, a query fails, and the next one knows the outcome.
abbrev early : List Turn
early =
    record { query = answers []; is_done = false; wake = notified none }
    ∷ record { query = lost; is_done = false; wake = recheck }
    ∷ []

abbrev last_turn : Turn
last_turn = record { query = answers (status ∷ []); is_done = false; wake = recheck }

waits :
    wait_for_transaction_status codes "tx1" (answers []) (waiting []) (early ++ last_turn ∷ [])
    ≡ found status
unfolding wait_for_transaction_status query_transaction_status
waits = refl

wait_for_transaction_status-Finds_example :
    Finds codes "tx1"
      (wait_for_transaction_status codes "tx1" (answers []) (waiting []) (early ++ last_turn ∷ []))
unfolding query_transaction_status
wait_for_transaction_status-Finds_example =
    wait_for_transaction_status-Finds codes "tx1" (answers []) (waiting []) early last_turn [] refl
      refl refl refl
