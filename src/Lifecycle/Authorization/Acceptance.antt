-- ===== src/Lifecycle/Authorization/Acceptance.antt =====
-- What an accepted lifecycle request shows of its sender.
use fabric_x_chaincode_compa.Prelude.{
  ℕ, ◌≡◌, Bool, true, false, Option, some, List, [], ◌∷◌, String, arith, eq_iff, length, All, inl,
  inr, Option-cases,
}
use fabric_x_chaincode_compa.Prelude.Int.{ℤ}
use fabric_x_chaincode_compa.Prelude.Exec.{ok, Result-cases}
use fabric_x_chaincode_compa.Auth.Verifier.{Verifier, identity, authenticate, verified, is_empty}
use fabric_x_chaincode_compa.Lifecycle.Authorization.Request.{
  SignedRequest, SignedFields, signing_bytes, internal_operation,
}
use fabric_x_chaincode_compa.Lifecycle.Authorization.Check.{
  Authorizer, is_fresh, agrees_with_mode, is_local_operation, msp_of, is_orchestrator, is_permitted,
  authorize, check,
}

-- the text that repeats the mode
abbrev pub mode_text : Bool → String
mode_text true = "true"
mode_text false = "false"

agrees_with_mode-All :
    (internal : Bool) (values : List String)
    → agrees_with_mode internal values ≡ true
    → All (λ v. v ≡ mode_text internal) values
unfolding agrees_with_mode
agrees_with_mode-All internal [] h = tt
agrees_with_mode-All true (v ∷ vs) h =
    (ground (arith, eq_iff v "true"), agrees_with_mode-All true vs (ground arith))
agrees_with_mode-All false (v ∷ vs) h =
    (ground (arith, eq_iff v "false"), agrees_with_mode-All false vs (ground arith))

module _ {Identity : Type 0} where
  -- The sender's right to the operation: an orchestrator's for an internal request, and otherwise
  -- a local identity's, where the operation is local, that the operation's policy accepts.
  abbrev pub HasRight : Authorizer Identity → SignedRequest → String → Identity → Type 0
  HasRight a req op id =
      (req.internal ≡ true → (internal_operation op ≡ true) × (is_orchestrator a id ≡ true))
      × (req.internal ≡ false
          → (is_local_operation op ≡ true → msp_of a.trust id ≡ a.msp_id)
            × (is_permitted a op id ≡ true))

  -- The request is one for this channel and operation, is fresh, and its mode is what all
  -- metadata says.
  abbrev pub IsAddressed : Authorizer Identity → SignedRequest → String → List String → ℤ → Type 0
  IsAddressed a req op values now =
      (req.version ≡ 1)
      × (length req.nonce ≡ 24)
      × (is_empty req.payload ≡ false)
      × (req.channel_id ≡ a.channel_id)
      × (req.operation ≡ op)
      × (is_fresh req.issued_at now ≡ true)
      × All (λ v. v ≡ mode_text req.internal) values

  -- Membership and signature, as the libraries tell.
  abbrev pub Vouched : Option (Verifier Identity) → SignedRequest → List ℕ → ℤ → Identity → Type 0
  Vouched v req message now id =
      (identity v req.creator now ≡ ok id)
      × (is_empty message ≡ false)
      × (verified v id message req.signature ≡ true)

  authenticate-ok :
      (v : Option (Verifier Identity)) (req : SignedRequest) (message : List ℕ) (now : ℤ)
      (id : Identity)
      → authenticate v req.creator message req.signature now ≡ ok id
      → Vouched v req message now id
  unfolding authenticate
  authenticate-ok v req message now id h = ground arith

  authorize-ok :
      (a : Authorizer Identity) (req : SignedRequest) (op : String) (values : List String) (now : ℤ)
      (id : Identity) (msp : String)
      → authorize a req op values now id ≡ ok msp
      → (msp ≡ msp_of a.trust id) × IsAddressed a req op values now × HasRight a req op id
  unfolding authorize
  authorize-ok a req op values now id msp h =
      let same : (agrees_with_mode req.internal values ≡ true) × (msp ≡ msp_of a.trust id) =
        ground arith in
      let addressed : (req.version ≡ 1)
          × (length req.nonce ≡ 24)
          × (is_empty req.payload ≡ false)
          × (req.channel_id ≡ a.channel_id)
          × (req.operation ≡ op)
          × (is_fresh req.issued_at now ≡ true) =
        ground (arith, eq_iff req.channel_id a.channel_id, eq_iff req.operation op) in
      let (v, n, p, c, o, f) = addressed in
      (
        same.1,
        (v, n, p, c, o, f, agrees_with_mode-All req.internal values same.0),
        (
          λ e. ground arith,
          λ e. (λ l. ground (arith, eq_iff (msp_of a.trust id) a.msp_id), ground arith),
        ),
      )

  -- A request that `check` accepts is signed: its creator is an identity that the verifier
  -- admits, whose signature verifies the bytes of all other fields. It is for this channel and
  -- operation, has a payload and a nonce of 24 bytes, is at most five minutes off the clock, and
  -- all metadata repeats its mode. An internal one is for an internal operation, from a configured
  -- orchestrator; any other one passes the operation's policy and, for a local operation, is from
  -- the local organization. The result is the MSP ID of its creator.
  pub check-ok :
      (marshal : SignedFields → Option (List ℕ)) (a : Authorizer Identity) (req : SignedRequest)
      (op : String) (values : List String) (first now : ℤ) (msp : String)
      → check marshal (some a) (some req) op values first now ≡ ok msp
      → (message : List ℕ) × (id : Identity) × (signing_bytes marshal req ≡ some message)
        × Vouched a.trust req message first id
        × (msp ≡ msp_of a.trust id)
        × IsAddressed a req op values now
        × HasRight a req op id
  unfolding check
  check-ok marshal a req op values first now msp h =
      elim (Option-cases (signing_bytes marshal req)) [
        | inl e ↦ absurd (ground arith)
        | inr (message, e) ↦
            elim (Result-cases (authenticate a.trust req.creator message req.signature first)) [
              | inl (x, f) ↦ absurd (ground arith)
              | inr (id, f) ↦
                  let (is, addressed, right) =
                    authorize-ok a req op values now id msp (ground arith) in
                  (
                    message,
                    id,
                    e,
                    authenticate-ok a.trust req message first id f,
                    is,
                    addressed,
                    right,
                  )
            ]
      ]
