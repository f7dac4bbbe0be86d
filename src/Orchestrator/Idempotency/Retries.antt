-- ===== src/Orchestrator/Idempotency/Retries.antt =====
-- What a repeated request gets while the first one is under way, and after it.
use fabric_x_chaincode_compa.Prelude.{
  ℕ, ◌≡◌, sym, ◌∙◌, true, false, ◌||◌, none, some, String, ◌==◌, arith, length, get_elem?,
  get_elem?-append_new, Option-cases, inl, inr, false≢true, if◌then◌else◌,
}
use fabric_x_chaincode_compa.Prelude.Exec.{ok, err}
use fabric_x_chaincode_compa.Prelude.Assoc.{lookup}
use fabric_x_chaincode_compa.Orchestrator.Idempotency.State.{
  Request, Store, conflict, new_idempotency_store, new_request, begin, existing, is_finished,
}
use fabric_x_chaincode_compa.Orchestrator.Idempotency.Invariant.{new_store-IsValid}
use fabric_x_chaincode_compa.Orchestrator.Idempotency.Steps.{Reach, Reach-IsValid}

-- While the record of a key is unfinished in a store that is reached from the new one, and the key
-- and the digest of a request are not empty, the request with that key and the same digest gets
-- that record and is not the first one, one with another digest is a conflict, and neither changes
-- the store. `existing` answers alike.
pub begin_again :
    (s : Store) (p : ℕ) (r : Request) (digest : String) (now : ℕ)
    → Reach new_idempotency_store s
    → get_elem? s.heap p ≡ some r
    → is_finished r.state ≡ false
    → (r.key == "" || digest == "") ≡ false
    → (begin r.key digest now s
        ≡ (if r.digest == digest then (ok (p, false), s) else (err conflict, s)))
      × (existing r.key digest s ≡ (if r.digest == digest then ok (some p) else err conflict))
unfolding begin existing
begin_again s p r digest now path at live given =
    let held : lookup r.key s.records ≡ some p =
      (Reach-IsValid new_store-IsValid path).tracked p r at live in
    (ground arith, ground arith)

-- Once every record of a key is finished in a store that is reached from the new one, nothing of it
-- is retained: the next request with that key is the first one again, whatever its digest, if
-- neither the key nor the digest is empty.
pub begin_after_end :
    (s : Store) (key digest : String) (now : ℕ)
    → Reach new_idempotency_store s
    → (key == "" || digest == "") ≡ false
    → ((p : ℕ) (r : Request)
        → get_elem? s.heap p ≡ some r
        → r.key ≡ key
        → is_finished r.state ≡ true)
    → existing key digest s ≡ ok none
      × ((p : ℕ) × ((begin key digest now s).0 ≡ ok (p, true))
          × (get_elem? (begin key digest now s).1.heap p ≡ some (new_request key digest now)))
unfolding begin existing
begin_after_end s key digest now path given ended = elim (Option-cases (lookup key s.records)) [
  | inl free ↦ (
    ground arith,
    (
      length s.heap,
      ground arith,
      rw (given, begin) (rw free (get_elem?-append_new s.heap (new_request key digest now))),
    ),
  )
  | inr (p, e) ↦
      let (r, at, own, live) = (Reach-IsValid new_store-IsValid path).reserved key p e in
      absurd (false≢true (sym live ∙ ended p r at own))
]
