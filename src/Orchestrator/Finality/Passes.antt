-- ===== src/Orchestrator/Finality/Passes.antt =====
-- The passes over pending invocations of compatibility_service/pkg/orchestrator/execution.go: what
-- they observe, and what they do with each record.
use fabric_x_chaincode_compa.Prelude.{
  ℕ, ◌≡◌, refl, inl, inr, Option, some, List, String, ◌∈◌, Bool-cases, Option-cases,
}
use fabric_x_chaincode_compa.Orchestrator.Idempotency.State.{Store, pending, unlock_finality}
use fabric_x_chaincode_compa.Orchestrator.Idempotency.Invariant.{IsValid}
use fabric_x_chaincode_compa.Orchestrator.Idempotency.Steps.{confirm_finality-Returns}
use fabric_x_chaincode_compa.Orchestrator.Finality.Status.{
  StatusCodes, TxStatus, is_final_status, is_final_status-IsFinal,
}
use fabric_x_chaincode_compa.Orchestrator.Finality.Record.{
  AfterCommit, finished_response, finality_error, record_finality, released,
}
use fabric_x_chaincode_compa.Orchestrator.Finality.Recorded.{
  Observes, unlocking, finalising, Observations, nothing, also,
}

module _ (codes : StatusCodes) (heard : TxStatus → Type 0) where
  -- The pass returns, and has only observed.
  abbrev pub Works : Store → Option Store → Type 0
  Works s o = (t : Store) × (o ≡ some t) × Observations codes heard s t

  one : {s t : Store} → Observes codes heard s t → Observations codes heard s t
  one o = also nothing o

  pub released-Observations : (p : ℕ) (s : Store) → Observations codes heard s (released p s)
  released-Observations p s = elim (Option-cases (unlock_finality p s)) [
    | inl e ↦ rw (e, released) nothing
    | inr (t, e) ↦ rw (e, released) (one (unlocking p e))
  ]

  pub record_finality-Works :
      (after : AfterCommit) (p : ℕ) (st : TxStatus) (now : ℕ) (s : Store)
      → heard st
      → IsValid s
      → Works s (record_finality codes after p st now s)
  unfolding record_finality
  record_finality-Works after p st now s told v = elim (Option-cases (pending (some p) s)) [
    | inl e ↦ (s, rw (e, record_finality) refl, nothing)
    | inr (inv, e) ↦ elim (Bool-cases (is_final_status codes inv.response.tx_id (some st))) [
      | inr b ↦ (s, rw (e, record_finality) (rw b refl), nothing)
      | inl b ↦
          let error = finality_error codes after inv st in
          let (t, k, u) =
            confirm_finality-Returns s v (some p) (finished_response codes inv st) error now in
          (
            t,
            rw (e, record_finality) (rw b k),
            one (
                finalising p inv st error now e told
                  (is_final_status-IsFinal codes inv.response.tx_id st b) k),
          )
    ]
  ]

-- The committer's answer to a query of the pass has this status.
abbrev pub Answered : (List String → Option (List TxStatus)) → TxStatus → Type 0
Answered get st =
    (ids : List String) × (statuses : List TxStatus) × (get ids ≡ some statuses) × (st ∈ statuses)
