-- ===== src/Orchestrator/Finality/Submitter.antt =====
-- `fabricXSubmitter.Submit` of compatibility_service/pkg/orchestrator/execution.go. The packager and
-- the broadcast stream are a parameter.
use fabric_x_chaincode_compa.Prelude.{Bool, true, false, not, Option, none, some, if◌then◌else◌}

-- An error of `Submit`: one before anything was tried, or an `orderingSubmissionError`.
pub data SubmitError : Type 0 where
  not_packaged : SubmitError
  ordering_error : Bool → SubmitError  -- the field `uncertain`

-- One attempt: whether the package is made, the stream opened, and the envelope sent; and, if a
-- response is received, whether its status is success.
pub record Attempt : Type 0 where
  pub packaged : Bool
  pub opened : Bool
  pub sent : Bool
  pub received : Option Bool

unfoldable pub submit : Attempt → Option SubmitError
submit a =
    if not a.packaged
    then some not_packaged
    else if not a.opened
    then some (ordering_error false)
    else if not a.sent
    then some (ordering_error true)
    else elim a.received [
      | none ↦ some (ordering_error true)
      | some success ↦ if success then none else some (ordering_error false)
    ]

-- `errors.As(err, &delivery) && delivery.uncertain`
abbrev pub is_uncertain : SubmitError → Bool
is_uncertain not_packaged = false
is_uncertain (ordering_error uncertain) = uncertain
