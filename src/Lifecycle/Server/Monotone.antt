-- ===== src/Lifecycle/Server/Monotone.antt =====
-- The methods of rpc.go never move a definition back.
use fabric_x_chaincode_compa.Prelude.{
  ℕ, ◌≡◌, refl, subst, inl, inr, Bool, true, false, Option, some, List, String, arith, Option-cases,
  if◌then◌else◌,
}
use fabric_x_chaincode_compa.Prelude.Exec.{
  Result, Result-cases, ok, err, pure, ◌>>=◌, Keeps, Keeps-pure, Keeps-fail, Keeps-bind,
}
use fabric_x_chaincode_compa.Lifecycle.Definition.{ChaincodeDefinition}
use fabric_x_chaincode_compa.Lifecycle.Authorization.Check.{Code}
use fabric_x_chaincode_compa.Lifecycle.Store.State.{Store, CommittedDefinition}
use fabric_x_chaincode_compa.Lifecycle.Store.Revisions.{Advances, Advances-IsOrder}
use fabric_x_chaincode_compa.Lifecycle.Server.State.{
  Backend, Server, Incoming, DefinitionPropagation, no_propagation, S, lift, require,
  verify_and_unmarshal,
}
use fabric_x_chaincode_compa.Lifecycle.Store.History.{
  install-Safe, has_matching_approval-Safe, approve_for_my_org-Safe,
  validate_commit_definition-Safe, list_installed-Safe, list_committed-Safe,
}
use fabric_x_chaincode_compa.Lifecycle.Authorization.Signing.{
  PayloadType, install_request, query_installed_request, approve_for_my_org_request,
  check_commit_readiness_request, commit_request, query_committed_request, mark_initialized_request,
}
use fabric_x_chaincode_compa.Lifecycle.Server.Handlers.{
  install, query_installed, approve_for_my_org, readiness, commit, query_committed,
  mark_initialized, check_commit_readiness, publish, commit_publicly, finish_commit, backend_of,
  reconcile_definition, is_internal,
}
use fabric_x_chaincode_compa.Lifecycle.Server.Mirror.{
  lift-Advances, with_code-Advances, apply-Advances,
}
use fabric_x_chaincode_compa.Lifecycle.Server.Refusal.{
  Method, installing, querying_installed, approving, asking_readiness, committing,
  querying_committed, initializing, error_of, serve,
}

abbrev Safe : {A : Type 0} → S A → Type 0
Safe m = Keeps Advances m

bind : {A B : Type 0} (m : S A) (f : A → S B) → Safe m → ((a : A) → Safe (f a)) → Safe (m >>= f)
bind m f = Keeps-bind Advances-IsOrder m f

pure-Safe : {A : Type 0} (a : A) → Safe (pure a)
pure-Safe a = Keeps-pure Advances-IsOrder a

if-Safe : {A : Type 0} (b : Bool) (m n : S A) → Safe m → Safe n → Safe (if b then m else n)
if-Safe true m n km kn = km
if-Safe false m n km kn = kn

bind_result :
    {A B : Type 0} (r : Result Code A) (f : A → S B)
    → ((a : A) → r ≡ ok a → Safe (f a))
    → Safe (lift r >>= f)
unfolding ◌>>=◌
bind_result (err e) f k = record { at = Advances-IsOrder.same }
bind_result (ok a) f k = record { at = λ s. (k a refl).at s }

require-Safe : (b : Bool) (c : Code) → Safe (require b c)
require-Safe true c = pure-Safe tt
require-Safe false c = Keeps-fail Advances-IsOrder c

module _ {Identity : Type 0} (srv : Server Identity) where
  -- Where the backend has a finalizer, that one moves no definition back.
  abbrev pub FinalizerAdvances : Type 0
  FinalizerAdvances =
      (b : Backend) (f : ChaincodeDefinition → Bool → S CommittedDefinition)
      → srv.ledger ≡ some b
      → b.finalizer ≡ some f
      → (def : ChaincodeDefinition) (initialized : Bool) → Keeps Advances (f def initialized)

  verify-state :
      {A : Type 0} (call : Incoming) (type : PayloadType) (decode : List ℕ → Option A) (s : Store)
      → s ≡ (verify_and_unmarshal srv call type decode s).1
  unfolding verify_and_unmarshal
  verify-state call type decode s = ground arith

  verify-Safe :
      {A : Type 0} (call : Incoming) (type : PayloadType) (decode : List ℕ → Option A)
      → Safe (verify_and_unmarshal srv call type decode)
  verify-Safe call type decode = record {
    at = λ s. subst (Advances s) (verify-state call type decode s) (Advances-IsOrder.same s);
  }

  readiness-Safe : (def : ChaincodeDefinition) (b : Bool) → Safe (check_commit_readiness srv def b)
  unfolding check_commit_readiness
  readiness-Safe def b =
      bind _ _ (with_code-Advances _ _ (has_matching_approval-Safe def srv.msp_id))
        λ own. if-Safe b _ _ (lift-Advances _) (pure-Safe _)

  pub reconcile_definition-Advances :
      (def : ChaincodeDefinition) (b : Bool) (progress : DefinitionPropagation) (s : Store)
      → Advances s (reconcile_definition srv def b progress s).1
  unfolding reconcile_definition
  reconcile_definition-Advances def b progress s =
      subst (Advances s) (ground arith) ((apply-Advances srv def b).at s)

  module _ (safe : FinalizerAdvances) where
    finish-Safe :
        (def : ChaincodeDefinition) (b : Backend)
        → srv.ledger ≡ some b
        → Safe (finish_commit srv b def)
    finish-Safe def b e = elim (Option-cases b.finalizer) [
      | inl n ↦ record { at = λ s. rw n (reconcile_definition-Advances def false no_propagation s) }
      | inr (f, k) ↦ record { at = λ s. rw k ((safe b f e k def false).at s) }
    ]

    publish-Safe :
        (def : ChaincodeDefinition) (approvals : List (String × Bool))
        → Safe (publish srv def approvals)
    unfolding publish
    publish-Safe def approvals = bind_result (backend_of srv) _ λ b e.
        bind _ _ (lift-Advances _)
          λ r. bind _ _ (finish-Safe def b (configured b e)) λ c. pure-Safe _
      where
        configured : (b : Backend) → backend_of srv ≡ ok b → srv.ledger ≡ some b
        configured b e = ground arith

    commit_publicly-Safe : (def : ChaincodeDefinition) → Safe (commit_publicly srv def)
    unfolding commit_publicly
    commit_publicly-Safe def = bind _ _ (readiness-Safe def true) λ approvals.
        bind _ _ (require-Safe _ _) λ _.
          bind _ _ (with_code-Advances _ _ (validate_commit_definition-Safe def srv.msp_id))
            λ _. publish-Safe def approvals

    commit-Safe :
        (call : Incoming) (d : List ℕ → Option ChaincodeDefinition) → Safe (commit srv call d)
    unfolding commit
    commit-Safe call d = bind _ _ (verify-Safe call commit_request d) λ p.
        if-Safe (is_internal call.request) _ _
          (bind _ _ (apply-Advances srv p.1 false) λ c. pure-Safe _) (commit_publicly-Safe p.1)

    error-Advances : {A : Type 0} (m : S A) → Safe m → (s : Store) → Advances s (error_of (m s)).1
    error-Advances m k s = elim (Result-cases (m s).0) [
      | inl (e, h) ↦ subst (Advances s) (ground arith) (k.at s)
      | inr (a, h) ↦ subst (Advances s) (ground arith) (k.at s)
    ]

    -- Whatever request a server answers with whatever method, none of the store's definitions is
    -- lost or moves back, if the finalizer of its backend keeps to this where it has one.
    pub serve-Advances :
        (call : Incoming) (m : Method) (s : Store) → Advances s (serve srv call m s).1
    unfolding install query_installed approve_for_my_org readiness query_committed mark_initialized
    serve-Advances call (installing d) s =
        error-Advances _
          (bind _ _ (verify-Safe call install_request d) λ p. bind _ _ (lift-Advances _) λ pkg.
            bind _ _ (with_code-Advances _ _ (install-Safe _ _))
              λ _. bind _ _ (with_code-Advances _ _ list_installed-Safe) λ ps. lift-Advances _)
          s
    serve-Advances call (querying_installed d) s =
        error-Advances _
          (bind _ _ (verify-Safe call query_installed_request d)
            λ p. bind _ _ (with_code-Advances _ _ list_installed-Safe) λ ps. pure-Safe _)
          s
    serve-Advances call (approving d) s =
        error-Advances _
          (bind _ _ (verify-Safe call approve_for_my_org_request d)
            λ p. with_code-Advances _ _ (approve_for_my_org-Safe _ _ _ _))
          s
    serve-Advances call (asking_readiness d) s =
        error-Advances _
          (bind _ _ (verify-Safe call check_commit_readiness_request d) λ p. readiness-Safe _ _) s
    serve-Advances call (committing d) s = error-Advances _ (commit-Safe call d) s
    serve-Advances call (querying_committed d) s =
        error-Advances _
          (bind _ _ (verify-Safe call query_committed_request d)
            λ p. with_code-Advances _ _ (list_committed-Safe _ _))
          s
    serve-Advances call (initializing d) s =
        error-Advances _
          (bind _ _ (verify-Safe call mark_initialized_request d) λ p. apply-Advances srv p.1 true)
          s
