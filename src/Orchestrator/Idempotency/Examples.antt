-- ===== src/Orchestrator/Idempotency/Examples.antt =====
-- A short history of the idempotency store, and the theorems about idempotency.go at it.
use fabric_x_chaincode_compa.Prelude.{
  ℕ, zero, suc, ◌<◌, ◌≤◌, ◌≡◌, ◌≢◌, refl, sym, ap, true, false, Option, none, some, [], ◌∷◌, String,
  ◌==◌, length, get_elem?, All, ◌∈◌, if◌then◌else◌,
}
use fabric_x_chaincode_compa.Prelude.Exec.{ok, err}
use fabric_x_chaincode_compa.Prelude.Assoc.{delete, insert, lookup}
use fabric_x_chaincode_compa.Lifecycle.Definition.{ChaincodeDefinition}
use fabric_x_chaincode_compa.Orchestrator.Idempotency.State.{
  InvocationResponse, ChaincodeEvent, Request, Store, conflict, new_idempotency_store, new_request,
  no_response, submitted, completed, begin, existing, is_finished, mark_submission, complete,
  confirm_finality, pending_records_before,
}
use fabric_x_chaincode_compa.Orchestrator.Idempotency.Invariant.{IsValid}
use fabric_x_chaincode_compa.Orchestrator.Idempotency.Steps.{
  Reach, here, next, begins, submits, confirms, reachable_operations,
}
use fabric_x_chaincode_compa.Orchestrator.Idempotency.Outcomes.{Persists, Reach-Persists}
use fabric_x_chaincode_compa.Orchestrator.Idempotency.Retries.{begin_again, begin_after_end}
use fabric_x_chaincode_compa.Orchestrator.Idempotency.Recovery.{
  Submitted, Taken, pending_records-bounded,
}

abbrev one : Request
one = new_request "k" "d" 5

abbrev begun : Store
begun = record { heap = one ∷ []; records = ("k", 0) ∷ [] }

abbrev sent : Request
sent = record one {
  response = record no_response { finality_pending = true };
  state = submitted;
  updated_at = 7;
  submitted_closed = true;
}

abbrev sent_store : Store
sent_store = record { heap = sent ∷ []; records = ("k", 0) ∷ [] }

begin_run : (begin "k" "d" 5 new_idempotency_store).1 ≡ begun
unfolding begin lookup insert
begin_run = refl

submit_run : mark_submission (some 0) no_response none none none 7 begun ≡ some sent_store
unfolding mark_submission
submit_run = refl

reached : Reach new_idempotency_store sent_store
unfolding begin mark_submission lookup insert
reached =
    next (next here (begins "k" "d" 5)) (submits (some 0) no_response none none none 7 submit_run)

reachable_operations_example :
    IsValid sent_store
    × ((p : Option ℕ) (response : InvocationResponse) (event : Option ChaincodeEvent)
          (after : Option ChaincodeDefinition) (submit_err : Option String) (now : ℕ)
        → mark_submission p response event after submit_err now sent_store ≢ none)
    × ((p : Option ℕ) (response : InvocationResponse) (error : Option String) (now : ℕ)
        → complete p response error now sent_store ≢ none)
    × ((p : Option ℕ) (response : InvocationResponse) (error : Option String) (now : ℕ)
        → confirm_finality p response error now sent_store ≢ none)
reachable_operations_example = reachable_operations sent_store reached

begin_again_example :
    (begin "k" "e" 9 sent_store
      ≡ (if "d" == "e" then (ok (0, false), sent_store) else (err conflict, sent_store)))
    × (existing "k" "e" sent_store ≡ (if "d" == "e" then ok (some 0) else err conflict))
begin_again_example = begin_again sent_store 0 sent "e" 9 reached refl refl refl

abbrev confirmed : InvocationResponse
confirmed = record no_response { tx_id = "tx"; commit_status = "VALID" }

abbrev confirmed_store : Store
confirmed_store = record {
  heap =
      record sent {
        response = record confirmed { finality_pending = false };
        state = completed;
        updated_at = 9;
        done_closed = true;
      }
      ∷ [];
  records = [];
}

confirm_run : confirm_finality (some 0) confirmed none 9 sent_store ≡ some confirmed_store
unfolding confirm_finality lookup delete
confirm_run = refl

Reach-Persists_example : Persists 0 sent confirmed_store
Reach-Persists_example =
    Reach-Persists 0 sent refl (next here (confirms (some 0) confirmed none 9 confirm_run))

pending_records-bounded_example :
    All
      (Submitted (some 8) sent_store)
      (pending_records_before (some 8) 1 (("k", 0) ∷ []) sent_store)
    × (0 < 1 → length (pending_records_before (some 8) 1 (("k", 0) ∷ []) sent_store) ≤ 1)
    × ((k : String) (p : ℕ)
        → ◌∈◌ {A = String × ℕ} (k, p) (("k", 0) ∷ [])
        → Submitted (some 8) sent_store p
        → Taken 1 0 (pending_records_before (some 8) 1 (("k", 0) ∷ []) sent_store) p)
pending_records-bounded_example = pending_records-bounded (some 8) 1 (("k", 0) ∷ []) sent_store

ended :
    (p : ℕ) (r : Request)
    → get_elem? confirmed_store.heap p ≡ some r
    → r.key ≡ "k"
    → is_finished r.state ≡ true
ended zero r at e =
    ap (λ (o : Option Request). elim o [ none ↦ true | some x ↦ is_finished x.state ]) (sym at)
ended (suc p) r at e = absurd (cc)

-- The key of the confirmed invocation, with another digest.
begin_after_end_example :
    (existing "k" "e" confirmed_store ≡ ok none)
    × ((p : ℕ) × ((begin "k" "e" 9 confirmed_store).0 ≡ ok (p, true))
        × (get_elem? (begin "k" "e" 9 confirmed_store).1.heap p ≡ some (new_request "k" "e" 9)))
begin_after_end_example =
    begin_after_end confirmed_store "k" "e" 9
      (next reached (confirms (some 0) confirmed none 9 confirm_run)) refl ended
