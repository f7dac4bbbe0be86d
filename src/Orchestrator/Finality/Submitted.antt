-- ===== src/Orchestrator/Finality/Submitted.antt =====
-- A transaction that may have reached the ordering service is not lost.
use fabric_x_chaincode_compa.Prelude.{
  ℕ, ◌≡◌, refl, sym, subst, ◌∙◌, ap, ◌⊎◌, inl, inr, Bool, true, false, ◌||◌, ◌&&◌, Option, none,
  some, String, if◌then◌else◌, arith, get_elem?, get_elem?-set_self, Bool-cases,
}
use fabric_x_chaincode_compa.Prelude.Exec.{ok}
use fabric_x_chaincode_compa.Lifecycle.Definition.{ChaincodeDefinition}
use fabric_x_chaincode_compa.Orchestrator.Idempotency.State.{
  InvocationResponse, ChaincodeEvent, Request, Store, submitted, completed, is_submitted,
  is_finished, write, mark_submission, try_lock_finality, unlock_finality, lock_finality,
}
use fabric_x_chaincode_compa.Orchestrator.Idempotency.Invariant.{IsValid}
use fabric_x_chaincode_compa.Orchestrator.Idempotency.Steps.{mark_submission-Returns, lock-IsValid}
use fabric_x_chaincode_compa.Orchestrator.Finality.Status.{
  StatusCodes, TxStatus, Notifier, is_final_status, subscribe_finality, wait_status,
}
use fabric_x_chaincode_compa.Orchestrator.Finality.Submitter.{SubmitError, submit, is_uncertain}
use fabric_x_chaincode_compa.Orchestrator.Finality.Record.{AfterCommit, released}
use fabric_x_chaincode_compa.Orchestrator.Finality.Recorded.{
  kept, settled, Observations, nothing, Observations-trans, Observations-IsValid,
  Observations-Moves,
}
use fabric_x_chaincode_compa.Orchestrator.Finality.Passes.{
  Works, released-Observations, record_finality-Works,
}
use fabric_x_chaincode_compa.Orchestrator.Finality.Submission.{
  Endorsed, Reply, SubmissionError, submitted_response, replied, after_submit, submit_transaction,
  result_of, finished, after_transaction, done, submit_and_wait_finality, context_ended,
  submit_failed,
}

-- Tracking a record asks for no source of a status.
abbrev Unasked : TxStatus → Type 0
Unasked st = Unit

-- `Submit` may have handed the transaction to the ordering service.
abbrev pub may_have_arrived : Option SubmitError → Bool
may_have_arrived none = true
may_have_arrived (some x) = is_uncertain x

-- The record at `p` is pending or has its outcome.
abbrev pub IsTracked : ℕ → Store → Type 0
IsTracked p t =
    (u : Request) × (get_elem? t.heap p ≡ some u)
    × ((is_submitted u.state ≡ true) ⊎ (u.state ≡ completed))

module _ (p : ℕ) where
  marked :
      (s : Store) (r : Request) (response : InvocationResponse) (event : Option ChaincodeEvent)
      (after : Option ChaincodeDefinition) (submit_err : Option String) (now : ℕ) {t : Store}
      → get_elem? s.heap p ≡ some r
      → (is_submitted r.state || is_finished r.state) ≡ false
      → mark_submission (some p) response event after submit_err now s ≡ some t
      → (u : Request) × (get_elem? t.heap p ≡ some u) × (is_submitted u.state ≡ true)
  unfolding mark_submission
  marked s r response event after submit_err now {t} at fresh h =
      elim (Bool-cases r.submitted_closed) [
        | inl closed ↦ absurd (ground arith)
        | inr still ↦
            let new : Request = record r {
              response = record response { finality_pending = true };
              error = submit_err;
              event = event;
              after_commit = after;
              state = submitted;
              updated_at = now;
              submitted_closed = true;
            } in
            let is : write p new s ≡ t = ground arith in
            (
              new,
              subst (λ (x : Store). get_elem? x.heap p ≡ some new) is
                  (get_elem?-set_self s.heap p r new at),
              refl,
            )
      ]

  tracked :
      (codes : StatusCodes) {s t : Store} (u : Request)
      → get_elem? s.heap p ≡ some u
      → is_submitted u.state ≡ true
      → Observations codes Unasked s t
      → IsTracked p t
  tracked codes u at h o =
      let (w, e, m) = Observations-Moves codes Unasked p u o at in
      elim m [
        | kept k ↦ (w, e, inl (ap (λ (x : Request). is_submitted x.state) k ∙ h))
        | settled st a told b c d ↦ (w, e, inr c)
      ]

  lock-free :
      (s : Store) (r : Request)
      → get_elem? s.heap p ≡ some r
      → r.finality_locked ≡ false
      → lock_finality p none s ≡ some (none, write p (record r { finality_locked = true }) s)
  unfolding lock_finality try_lock_finality
  lock-free s r at free = ground arith

  released-back :
      (s : Store) (r : Request)
      → get_elem? s.heap p ≡ some r
      → r.finality_locked ≡ false
      → get_elem? (released p (write p (record r { finality_locked = true }) s)).heap p ≡ some r
  unfolding unlock_finality
  released-back s r at free =
      let held = write p (record r { finality_locked = true }) s in
      let there = get_elem?-set_self s.heap p r (record r { finality_locked = true }) at in
      let open_again : unlock_finality p held
          ≡ some (write p (record r { finality_locked = false }) held) =
        rw (there, unlock_finality) refl in
      rw (open_again, released)
        (get_elem?-set_self held.heap p (record r { finality_locked = true })
            (record r { finality_locked = false }) there
          ∙ ap (λ b. some (record r { finality_locked = b })) (sym free))

module _ (codes : StatusCodes) (after : AfterCommit) (e : Endorsed) (p : ℕ) (r : Request) where
  -- The call returns with this reply; `b` tells that the transaction may have arrived.
  abbrev pub Ends : Bool → Option (Reply × Store) → Type 0
  Ends b x =
      (reply : Reply) × (t : Store) × (x ≡ some (reply, t))
      × IsValid t
      × (b ≡ true → IsTracked p t)
      × (b ≡ false → get_elem? t.heap p ≡ some r)

  module _ (tx_id : String) (status : Option TxStatus) (interrupted : Bool) (now : ℕ) where
    finished-Works :
        (s : Store)
        → IsValid s
        → Works codes Unasked s
            (if interrupted then some s else finished codes after p tx_id status now s)
    finished-Works s v = go interrupted status
      where
        go :
            (i : Bool) (o : Option TxStatus)
            → Works codes Unasked s (if i then some s else finished codes after p tx_id o now s)
        go true o = (s, refl, nothing)
        go false none = (s, refl, nothing)
        go false (some st) = elim (Bool-cases (is_final_status codes tx_id (some st))) [
          | inl b ↦ rw b (record_finality-Works codes Unasked after p st now s tt v)
          | inr b ↦ rw b (s, refl, nothing)
        ]

    -- after a submission that marked the record `u`
    marked-Ends :
        (s : Store) (u : Request) (out : InvocationResponse) (error : Option SubmissionError)
        → IsValid s
        → get_elem? s.heap p ≡ some u
        → is_submitted u.state ≡ true
        → Ends true
            (after_transaction codes after p tx_id status interrupted now (some ((out, error), s)))
    marked-Ends s u out (some x) v at h =
        let o = released-Observations codes Unasked p s in
        (
          (out, some x),
          released p s,
          refl,
          Observations-IsValid codes Unasked o v,
          λ _. tracked p codes u at h o,
          λ k. cc,
        )
    marked-Ends s u out none v at h =
        let (t, k, o) = finished-Works s v in
        let all = Observations-trans codes Unasked o (released-Observations codes Unasked p t) in
        (
          result_of p (out, none) t,
          released p t,
          rw (k, after_transaction) refl,
          Observations-IsValid codes Unasked all v,
          λ _. tracked p codes u at h all,
          λ k. cc,
        )

    submitted-Ends :
        (live : Bool) (o : Option SubmitError) (s : Store)
        → IsValid (write p (record r { finality_locked = true }) s)
        → get_elem? s.heap p ≡ some r
        → (is_submitted r.state || is_finished r.state) ≡ false
        → r.finality_locked ≡ false
        → IsValid (released p (write p (record r { finality_locked = true }) s))
        → Ends (live && may_have_arrived o) (
            after_transaction codes after p tx_id status interrupted now (
              if live
              then after_submit e p now o (write p (record r { finality_locked = true }) s)
              else some (
                (e.response, some context_ended),
                write p (record r { finality_locked = true }) s,
              )))
    submitted-Ends live o s v at fresh free v' = go live o
      where
        held : Store
        held = write p (record r { finality_locked = true }) s

        there : get_elem? held.heap p ≡ some (record r { finality_locked = true })
        there = get_elem?-set_self s.heap p r (record r { finality_locked = true }) at

        unsent : (x : SubmissionError) → Ends false (some ((e.response, some x), released p held))
        unsent x = (
          (e.response, some x),
          released p held,
          refl,
          v',
          λ k. cc,
          λ _. released-back p s r at free,
        )

        sent :
            (error : Option SubmissionError) (text : Option String)
            → Ends true (
                after_transaction codes after p tx_id status interrupted now (
                  replied
                    (submitted_response e.response, error)
                    (mark_submission
                      (some p)
                      (submitted_response e.response)
                      e.event
                      e.after_commit
                      text
                      now
                      held)))
        sent error text =
            let (t, k, w) =
              mark_submission-Returns held v (some p) (submitted_response e.response) e.event
                e.after_commit text now in
            let (u, h, is) =
              marked p held (record r { finality_locked = true }) (submitted_response e.response)
                e.event e.after_commit text now there fresh k in
            let (reply, end, ends, valid, arrived, lost) =
              marked-Ends t u (submitted_response e.response) error w h is in
            (reply, end, rw k ends, valid, arrived, lost)

        go :
            (l : Bool) (x : Option SubmitError)
            → Ends (l && may_have_arrived x) (
                after_transaction codes after p tx_id status interrupted now (
                  if l
                  then after_submit e p now x held
                  else some ((e.response, some context_ended), held)))
        go false x = unsent context_ended
        go true none = sent none none
        go true (some x) = elim (Bool-cases (is_uncertain x)) [
          | inl b ↦ rw b (sent (some (submit_failed x)) (some (e.describe x)))
          | inr b ↦ rw b (unsent (submit_failed x))
        ]

-- In a valid store, a call of submitAndWaitFinality for a record that is not yet submitted, whose
-- finality lock is free, returns and leaves a valid store, whatever the ordering service and the
-- notifier do. If it called Submit, and Submit returned no error or an uncertain one, then the
-- record is pending or completed afterwards. Else the record is as it was before.
pub submit_and_wait_finality-IsTracked :
    (codes : StatusCodes) (after : AfterCommit) (notifier : Notifier) (e : Endorsed) (p : ℕ)
    (live interrupted : Bool) (now : ℕ) (s : Store) (r : Request)
    → IsValid s
    → get_elem? s.heap p ≡ some r
    → (is_submitted r.state || is_finished r.state) ≡ false
    → r.finality_locked ≡ false
    → (reply : Reply) × (t : Store) × (submit_and_wait_finality codes after notifier e p none live
          interrupted now s
        ≡ ok (reply, t))
      × IsValid t
      × (live && may_have_arrived (submit e.attempt) ≡ true → IsTracked p t)
      × (live && may_have_arrived (submit e.attempt) ≡ false → get_elem? t.heap p ≡ some r)
unfolding submit_and_wait_finality submit_transaction
submit_and_wait_finality-IsTracked codes after notifier e p live interrupted now s r v at fresh
      free =
    let held = write p (record r { finality_locked = true }) s in
    let valid = lock-IsValid s v p r true at in
    let (reply, t, ends, valid', arrived, lost) =
      submitted-Ends codes after e p r e.tx_id
        (wait_status e.tx_id (subscribe_finality notifier e.tx_id)) interrupted now live
        (submit e.attempt) s valid at fresh free
        (Observations-IsValid codes Unasked (released-Observations codes Unasked p held) valid) in
    (
      reply,
      t,
      rw (lock-free p s r at free, submit_and_wait_finality) (ap done ends),
      valid',
      arrived,
      lost,
    )
