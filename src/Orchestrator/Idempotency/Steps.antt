-- ===== src/Orchestrator/Idempotency/Steps.antt =====
-- Every step keeps the invariant, and none closes a channel twice.
use fabric_x_chaincode_compa.Prelude.{
  ℕ, ◌≡◌, ◌≢◌, refl, sym, subst, ◌∙◌, ◌⊎◌, inl, inr, Bool, true, false, not, ◌||◌, Option, none,
  some, [], ◌∷◌, ◌++◌, String, ◌==◌, arith, eq_iff, eq_refl, length, get_elem?,
  get_elem?-append_new, get_elem?-append_old, get_elem?-append_cases, Bool-cases, Option-cases,
}
use fabric_x_chaincode_compa.Prelude.Assoc.{lookup, insert, lookup-insert}
use fabric_x_chaincode_compa.Lifecycle.Definition.{ChaincodeDefinition}
use fabric_x_chaincode_compa.Orchestrator.Idempotency.State.{
  executed, submitted, completed, ChaincodeEvent, InvocationResponse, Request, Store,
  new_idempotency_store, write, new_request, begin, is_finished, is_submitted, mark_executed,
  mark_submission, remove, complete, confirm_finality, ended, try_lock_finality, unlock_finality,
}
use fabric_x_chaincode_compa.Orchestrator.Idempotency.Invariant.{
  Channels, IsConsistent, IsValid, new_store-IsValid, write-IsValid, finish-IsValid,
}

-- before its submission a record's channels are open
still_open :
    (r : Request)
    → IsConsistent r
    → (is_submitted r.state || is_finished r.state) ≡ false
    → (r.submitted_closed ≡ false) × (r.done_closed ≡ false)
still_open r c h = ground arith

submitted_open :
    (r : Request) → IsConsistent r → is_submitted r.state ≡ true → r.done_closed ≡ false
submitted_open r c h = ground arith

ended-Channels : (e : Option String) (sent : Bool) → Channels (ended e) sent true
ended-Channels none sent = refl
ended-Channels (some e) sent = refl

ended-finished : (e : Option String) → is_finished (ended e) ≡ true
ended-finished none = refl
ended-finished (some e) = refl

-- The operation returns, and leaves a valid store.
abbrev pub Returns : Option Store → Type 0
Returns o = (t : Store) × (o ≡ some t) × IsValid t

module _ (s : Store) where
  pub begin_store :
      (key digest : String) (now : ℕ)
      → ((begin key digest now s).1 ≡ s)
        ⊎ ((begin key digest now s).1 ≡ record {
          heap = s.heap ++ new_request key digest now ∷ [];
          records = insert key (length s.heap) s.records;
        })
  unfolding begin
  begin_store key digest now = ground arith

  begin_reserved :
      (key digest : String) (now : ℕ) (p : ℕ) (r : Request)
      → lookup key s.records ≡ some p
      → get_elem? s.heap p ≡ some r
      → (begin key digest now s).1 ≡ s
  unfolding begin
  begin_reserved key digest now p r e at = ground arith

  pub unlocked :
      (p : ℕ) {t : Store}
      → unlock_finality p s ≡ some t
      → (r : Request) × (get_elem? s.heap p ≡ some r)
        × (t ≡ write p (record r { finality_locked = false }) s)
  unfolding unlock_finality
  unlocked p h = elim (Option-cases (get_elem? s.heap p)) [
    | inl e ↦ absurd (ground arith)
    | inr (r, e) ↦ (r, e, ground arith)
  ]

module _ (s : Store) (v : IsValid s) where
  pub mark_submission-Returns :
      (p : Option ℕ) (response : InvocationResponse) (event : Option ChaincodeEvent)
      (after : Option ChaincodeDefinition) (submit_err : Option String) (now : ℕ)
      → Returns (mark_submission p response event after submit_err now s)
  unfolding mark_submission
  mark_submission-Returns none response event after submit_err now = (s, refl, v)
  mark_submission-Returns (some p) response event after submit_err now =
      elim (Option-cases (get_elem? s.heap p)) [
        | inl e ↦ (s, ground arith, v)
        | inr (r, e) ↦ elim (Bool-cases (is_submitted r.state || is_finished r.state)) [
          | inl f ↦ (s, ground arith, v)
          | inr f ↦
              let (sent, done) = still_open r (v.channels p r e) f in
              let new : Request = record r {
                response = record response { finality_pending = true };
                error = submit_err;
                event = event;
                after_commit = after;
                state = submitted;
                updated_at = now;
                submitted_closed = true;
              } in
              (
                write p new s,
                ground arith,
                write-IsValid s v p r new e (refl, done) refl (ground arith),
              )
        ]
      ]

  complete-Returns :
      (p : Option ℕ) (response : InvocationResponse) (error : Option String) (now : ℕ)
      → Returns (complete p response error now s)
  unfolding complete
  complete-Returns none response error now = (s, refl, v)
  complete-Returns (some p) response error now = elim (Option-cases (get_elem? s.heap p)) [
    | inl e ↦ (s, ground arith, v)
    | inr (r, e) ↦ elim (Bool-cases (is_submitted r.state || is_finished r.state)) [
      | inl f ↦ (s, ground arith, v)
      | inr f ↦
          let (sent, done) = still_open r (v.channels p r e) f in
          let new : Request = record r {
            response = response;
            error = error;
            state = ended error;
            updated_at = now;
            done_closed = true;
          } in
          (
            remove p r.key (write p new s),
            ground arith,
            finish-IsValid s v p r new e (ended-Channels error r.submitted_closed)
                (ended-finished error),
          )
    ]
  ]

  pub confirm_finality-Returns :
      (p : Option ℕ) (response : InvocationResponse) (error : Option String) (now : ℕ)
      → Returns (confirm_finality p response error now s)
  unfolding confirm_finality
  confirm_finality-Returns none response error now = (s, refl, v)
  confirm_finality-Returns (some p) response error now = elim (Option-cases (get_elem? s.heap p)) [
    | inl e ↦ (s, ground arith, v)
    | inr (r, e) ↦ elim (Bool-cases (not (is_submitted r.state) || response.commit_status == "")) [
      | inl f ↦ (s, ground arith, v)
      | inr f ↦
          let done = submitted_open r (v.channels p r e) (ground arith) in
          let new : Request = record r {
            response = record response { finality_pending = false };
            error = error;
            state = completed;
            updated_at = now;
            after_commit = none;
            event = none;
            done_closed = true;
          } in
          (remove p r.key (write p new s), ground arith, finish-IsValid s v p r new e refl refl)
    ]
  ]

  -- `markExecuted` has no guard of its own: its callers use it on a record that was not submitted.
  mark_executed-IsValid :
      (p : ℕ) (r : Request) (tx_id : String) (now : ℕ)
      → get_elem? s.heap p ≡ some r
      → (is_submitted r.state || is_finished r.state) ≡ false
      → IsValid (mark_executed (some p) tx_id now s)
  unfolding mark_executed
  mark_executed-IsValid p r tx_id now e f =
      rw (e, mark_executed)
        (write-IsValid s v p r
          (record r { helper_tx_id = tx_id; state = executed; updated_at = now }) e
          (still_open r (v.channels p r e) f) refl (ground arith))

  reserve-IsValid :
      (key digest : String) (now : ℕ)
      → lookup key s.records ≡ none
      → IsValid (record {
        heap = s.heap ++ new_request key digest now ∷ [];
        records = insert key (length s.heap) s.records;
      })
  reserve-IsValid key digest now free = record {
    channels = λ q r h. elim (get_elem?-append_cases s.heap (new_request key digest now) r q h) [
      | inl e ↦ v.channels q r e
      | inr (at, is) ↦ subst IsConsistent (sym is) (refl, refl)
    ];
    reserved = λ k q h. elim (Bool-cases (key == k)) [
      | inl e ↦
          let at : length s.heap ≡ q =
            ground (arith, lookup-insert key k (length s.heap) s.records) in
          (
            new_request key digest now,
            subst
                (λ i.
                  get_elem? (s.heap ++ new_request key digest now ∷ []) i
                  ≡ some (new_request key digest now))
                at (get_elem?-append_new s.heap (new_request key digest now)),
            (eq_iff key k).0 e,
            refl,
          )
      | inr e ↦
          let before : lookup k s.records ≡ some q =
            ground (arith, lookup-insert key k (length s.heap) s.records) in
          let (r, found, own, live) = v.reserved k q before in
          (r, get_elem?-append_old s.heap (new_request key digest now) r q found, own, live)
    ];
    tracked = λ q r h f. elim (get_elem?-append_cases s.heap (new_request key digest now) r q h) [
      | inl e ↦
          let before = v.tracked q r e f in
          lookup-insert key r.key (length s.heap) s.records
          ∙ ground (arith, eq_iff key r.key, before, free)
      | inr (at, is) ↦
          ground (arith, at, is, lookup-insert key key (length s.heap) s.records, eq_refl key)
    ];
  }

  begin-IsValid : (key digest : String) (now : ℕ) → IsValid (begin key digest now s).1
  begin-IsValid key digest now = elim (Option-cases (lookup key s.records)) [
    | inl free ↦ elim (begin_store s key digest now) [
      | inl e ↦ subst IsValid (sym e) v
      | inr e ↦ subst IsValid (sym e) (reserve-IsValid key digest now free)
    ]
    | inr (p, e) ↦
        let (r, at, own, live) = v.reserved key p e in
        subst IsValid (sym (begin_reserved s key digest now p r e at)) v
  ]

  pub lock-IsValid :
      (p : ℕ) (r : Request) (b : Bool)
      → get_elem? s.heap p ≡ some r
      → IsValid (write p (record r { finality_locked = b }) s)
  lock-IsValid p r b e =
      write-IsValid s v p r (record r { finality_locked = b }) e (v.channels p r e) refl refl

  try_lock-IsValid : (p : ℕ) → IsValid (try_lock_finality p s).1
  unfolding try_lock_finality
  try_lock-IsValid p = elim (Option-cases (get_elem? s.heap p)) [
    | inl e ↦ rw (e, try_lock_finality) v
    | inr (r, e) ↦ elim (Bool-cases r.finality_locked) [
      | inl f ↦ rw (e, try_lock_finality) (rw f v)
      | inr f ↦ rw (e, try_lock_finality) (rw f (lock-IsValid p r true e))
    ]
  ]

-- The steps of the callers. A record is marked executed before its submission, by the caller that
-- began it; the others may come at any time, from any caller.
pub data Step (s : Store) : Store → Type 0 where
  begins : (key digest : String) (now : ℕ) → Step s (begin key digest now s).1
  executes :
      (p : ℕ) (r : Request) (tx_id : String) (now : ℕ)
      → get_elem? s.heap p ≡ some r
      → (is_submitted r.state || is_finished r.state) ≡ false
      → Step s (mark_executed (some p) tx_id now s)
  submits :
      (p : Option ℕ) (response : InvocationResponse) (event : Option ChaincodeEvent)
      (after : Option ChaincodeDefinition) (submit_err : Option String) (now : ℕ) {t : Store}
      → mark_submission p response event after submit_err now s ≡ some t
      → Step s t
  completes :
      (p : Option ℕ) (response : InvocationResponse) (error : Option String) (now : ℕ) {t : Store}
      → complete p response error now s ≡ some t
      → Step s t
  confirms :
      (p : Option ℕ) (response : InvocationResponse) (error : Option String) (now : ℕ) {t : Store}
      → confirm_finality p response error now s ≡ some t
      → Step s t
  locks : (p : ℕ) → Step s (try_lock_finality p s).1
  unlocks : (p : ℕ) {t : Store} → unlock_finality p s ≡ some t → Step s t

pub data Reach (s : Store) : Store → Type 0 where
  here : Reach s s
  next : {t u : Store} → Reach s t → Step t u → Reach s u

returned : {o : Option Store} {t : Store} → Returns o → o ≡ some t → IsValid t
returned (u, e, v) h = subst IsValid (ground arith) v

pub Step-IsValid : {s t : Store} → Step s t → IsValid s → IsValid t
Step-IsValid {s} (begins key digest now) v = begin-IsValid s v key digest now
Step-IsValid {s} (executes p r tx_id now e f) v = mark_executed-IsValid s v p r tx_id now e f
Step-IsValid {s} (submits p response event after submit_err now h) v =
    returned (mark_submission-Returns s v p response event after submit_err now) h
Step-IsValid {s} (completes p response error now h) v =
    returned (complete-Returns s v p response error now) h
Step-IsValid {s} (confirms p response error now h) v =
    returned (confirm_finality-Returns s v p response error now) h
Step-IsValid {s} (locks p) v = try_lock-IsValid s v p
Step-IsValid {s} (unlocks p h) v =
    let (r, e, is) = unlocked s p h in subst IsValid (sym is) (lock-IsValid s v p r false e)

pub Reach-IsValid : {s t : Store} → IsValid s → Reach s t → IsValid t
Reach-IsValid v here = v
Reach-IsValid v (next r st) = Step-IsValid st (Reach-IsValid v r)

-- In every store that the callers' steps can reach from the empty one, the map holds only
-- unfinished records under their own keys, each record's channels are closed as its state says,
-- and submission, completion and confirmation return a store: none closes a channel twice.
pub reachable_operations :
    (s : Store)
    → Reach new_idempotency_store s
    → IsValid s
      × ((p : Option ℕ) (response : InvocationResponse) (event : Option ChaincodeEvent)
            (after : Option ChaincodeDefinition) (submit_err : Option String) (now : ℕ)
          → mark_submission p response event after submit_err now s ≢ none)
      × ((p : Option ℕ) (response : InvocationResponse) (error : Option String) (now : ℕ)
          → complete p response error now s ≢ none)
      × ((p : Option ℕ) (response : InvocationResponse) (error : Option String) (now : ℕ)
          → confirm_finality p response error now s ≢ none)
reachable_operations s r =
    let v = Reach-IsValid new_store-IsValid r in
    (
      v,
      λ p response event after submit_err now h.
          let (t, e, k) = mark_submission-Returns s v p response event after submit_err now in cc,
      λ p response error now h. let (t, e, k) = complete-Returns s v p response error now in cc,
      λ p response error now h.
          let (t, e, k) = confirm_finality-Returns s v p response error now in cc,
    )
