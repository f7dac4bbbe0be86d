-- ===== src/Lifecycle/Server/Publication.antt =====
-- What a successful commitment shows (ReconcileDefinition and Commit of rpc.go).
use fabric_x_chaincode_compa.Prelude.{
  ◌≡◌, refl, sym, subst, ◌∙◌, ap, ◌⊎◌, inl, inr, Bool, true, false, none, some, List, [], ◌∷◌, ◌++◌,
  Option, ◌==◌, if◌then◌else◌, String, arith, Option-cases,
}
use fabric_x_chaincode_compa.Prelude.Exec.{Result-cases, ok, pure, fail, bind-ok, pure-ok}
use fabric_x_chaincode_compa.Prelude.Assoc.{lookup, insert, lookup-insert}
use fabric_x_chaincode_compa.Lifecycle.Definition.{ChaincodeDefinition}
use fabric_x_chaincode_compa.Lifecycle.Authorization.Check.{
  Code, invalid_argument, failed_precondition,
}
use fabric_x_chaincode_compa.Lifecycle.Store.State.{Store, CommittedDefinition}
use fabric_x_chaincode_compa.Lifecycle.Store.Revisions.{view}
use fabric_x_chaincode_compa.Lifecycle.Store.Inclusion.{Includes}
use fabric_x_chaincode_compa.Lifecycle.Server.State.{
  Peer, LedgerCommitResult, Backend, Server, DefinitionPropagation, no_propagation, lift, with_code,
  require, sign_internal, apply_ledger_definition,
}
use fabric_x_chaincode_compa.Lifecycle.Authorization.Request.{SignedRequest}
use fabric_x_chaincode_compa.Lifecycle.Authorization.Signing.{check_commit_readiness_request}
use fabric_x_chaincode_compa.Lifecycle.Definition.{validate_next_sequence}
use fabric_x_chaincode_compa.Lifecycle.Store.State.{ApprovedDefinition}
use fabric_x_chaincode_compa.Lifecycle.Store.Operations
use fabric_x_chaincode_compa.Lifecycle.Store.Lookups.{approval_of, SameTables}
use fabric_x_chaincode_compa.Lifecycle.Store.Activation.{
  validate_commit_definition-ok, has_matching_approval-ok, view-SameTables, matched,
  approval_of-SameTables,
}
use fabric_x_chaincode_compa.Lifecycle.Server.Handlers.{
  ask_peers, ask_remotes, add_approvals, all_ready, propagate_definition, reconcile_definition,
  is_propagated, check_commit_readiness, commit_publicly, publish, finish_commit, backend_of,
  submitted,
}
use fabric_x_chaincode_compa.Lifecycle.Server.Mirror.{
  Confirmed, apply_ledger_definition-ok, lift-ok, with_code-ok,
}
use fabric_x_chaincode_compa.Lifecycle.Server.Propagation.{propagate_definition_progress}

module _ {Identity : Type 0} (srv : Server Identity) (def : ChaincodeDefinition) where
  propagated_left :
      (initialized : Bool) (progress : DefinitionPropagation)
      → (propagate_definition srv def initialized progress).0 ≡ none
      → is_propagated (propagate_definition srv def initialized progress).1 ≡ true
  propagated_left initialized progress h =
      elim (propagate_definition_progress srv def initialized progress) [
        | inl (unknown, e) ↦ absurd (ground arith)
        | inr (peers, known, served, flag) ↦ rw (flag, served.ends h) refl
      ]

  reconciled :
      (initialized : Bool) (progress : DefinitionPropagation) (s : Store) {t : Store}
      {left : DefinitionPropagation} {c : CommittedDefinition}
      → reconcile_definition srv def initialized progress s ≡ ((ok c, left), t)
      → (apply_ledger_definition srv def initialized s ≡ (ok c, t))
        × (((left ≡ progress) × (is_propagated progress ≡ true))
            ⊎ (propagate_definition srv def initialized progress ≡ (none, left)))
  unfolding reconcile_definition
  reconciled initialized progress s h = ground arith

  pub reconcile_definition-ok :
      (initialized : Bool) (progress : DefinitionPropagation) (s : Store) {t : Store}
      {left : DefinitionPropagation} {c : CommittedDefinition}
      → reconcile_definition srv def initialized progress s ≡ ((ok c, left), t)
      → Confirmed srv def initialized × Includes def (view t def.name) × (is_propagated left ≡ true)
  reconcile_definition-ok initialized progress s {t} {left} {c} h =
      let (applied, spread) = reconciled initialized progress s h in
      let (confirmed, included) =
        (apply_ledger_definition-ok srv def initialized s).1 c t applied in
      (
        confirmed,
        included,
        elim spread [
          | inl (same, done) ↦ rw same done
          | inr e ↦
              subst (λ x. is_propagated x ≡ true) (ap (λ x. x.1) e)
                (propagated_left initialized progress (ap (λ x. x.0) e))
        ],
      )

  -- The answers to the request of all these peers, one after the other.
  abbrev pub Answers : SignedRequest → List Peer → List (String × Bool) → Type 0
  Answers req [] answers = answers ≡ []
  Answers req (p ∷ ps) answers =
      (own : List (String × Bool)) × (more : List (String × Bool)) × (p.check_commit_readiness req
        ≡ some own)
      × (answers ≡ own ++ more)
      × Answers req ps more

  -- What the answers say last of an organization, and `before` where they do not name it.
  abbrev pub latest : String → List (String × Bool) → Option Bool → Option Bool
  latest msp [] before = before
  latest msp ((x, ready) ∷ more) before = latest msp more (if x == msp then some ready else before)

  latest-append :
      (msp : String) (a b : List (String × Bool)) (before : Option Bool)
      → latest msp (a ++ b) before ≡ latest msp b (latest msp a before)
  latest-append msp [] b before = refl
  latest-append msp ((x, ready) ∷ a) b before =
      latest-append msp a b (if x == msp then some ready else before)

  lookup-add_approvals :
      (msp : String) (answer m : List (String × Bool))
      → lookup msp (add_approvals answer m) ≡ latest msp answer (lookup msp m)
  lookup-add_approvals msp [] m = refl
  lookup-add_approvals msp ((x, ready) ∷ more) m =
      lookup-add_approvals msp more (insert x ready m)
      ∙ ap (latest msp more) (lookup-insert x msp ready m)

  ask_peers-ok :
      (req : SignedRequest) (ps : List Peer) (m : List (String × Bool)) {out : List (String × Bool)}
      → ask_peers req ps m ≡ ok out
      → (answers : List (String × Bool)) × Answers req ps answers
        × ((msp : String) → lookup msp out ≡ latest msp answers (lookup msp m))
  unfolding ask_peers
  ask_peers-ok req [] m {out} h =
      let is : m ≡ out = ground arith in ([], refl, λ msp. ap (lookup msp) (sym is))
  ask_peers-ok req (p ∷ ps) m {out} h = elim (Option-cases (p.check_commit_readiness req)) [
    | inl e ↦ absurd (ground arith)
    | inr (own, e) ↦
        let (more, asked, said) =
          ask_peers-ok req ps (add_approvals own m) {out = out} (ground arith) in
        (
          own ++ more,
          (own, more, e, refl, asked),
          λ msp.
              said msp
              ∙ ap (latest msp more) (lookup-add_approvals msp own m)
              ∙ sym (latest-append msp own more (lookup msp m)),
        )
  ]

  all_ready-lookup :
      (m : List (String × Bool)) (msp : String) (b : Bool)
      → all_ready m ≡ true
      → lookup msp m ≡ some b
      → b ≡ true
  unfolding lookup
  all_ready-lookup [] msp b h k = cc
  all_ready-lookup ((x, ready) ∷ more) msp b h k = ground (arith, all_ready-lookup more msp b)

  -- What is asked before a public commitment.
  pub record Asked (approvals : List (String × Bool)) : Type 0 where
    pub peers : List Peer
    pub resolved : srv.remotes def ≡ some peers
    pub request : SignedRequest
    pub signed : sign_internal srv check_commit_readiness_request def ≡ ok request
    pub answers : List (String × Bool)
    pub answered : Answers request peers answers
    pub collected :
        (msp : String)
        → lookup msp approvals ≡ latest msp answers (if srv.msp_id == msp then some true else none)
    pub ready :
        (msp : String) (b : Bool)
        → latest msp answers (if srv.msp_id == msp then some true else none) ≡ some b
        → b ≡ true

  ask_remotes-ok :
      (own approvals : List (String × Bool))
      → ask_remotes srv def own ≡ ok approvals
      → (peers : List Peer) × (req : SignedRequest) × (srv.remotes def ≡ some peers)
        × (sign_internal srv check_commit_readiness_request def ≡ ok req)
        × (ask_peers req peers own ≡ ok approvals)
  unfolding ask_remotes
  ask_remotes-ok own approvals h = elim (Option-cases (srv.remotes def)) [
    | inl e ↦ absurd (ground arith)
    | inr (peers, e) ↦ elim (Result-cases (sign_internal srv check_commit_readiness_request def)) [
      | inl (x, f) ↦ absurd (ground arith)
      | inr (req, f) ↦ (peers, req, e, f, ground arith)
    ]
  ]

  collected_ready :
      (approvals : List (String × Bool)) (peers : List Peer) (req : SignedRequest)
      (answers : List (String × Bool))
      → srv.remotes def ≡ some peers
      → sign_internal srv check_commit_readiness_request def ≡ ok req
      → Answers req peers answers
      → ((msp : String)
          → lookup msp approvals
            ≡ latest msp answers (if srv.msp_id == msp then some true else none))
      → all_ready approvals ≡ true
      → Asked approvals
  collected_ready approvals peers req answers resolved signed answered collected ready = record {
    peers = peers;
    resolved = resolved;
    request = req;
    signed = signed;
    answers = answers;
    answered = answered;
    collected = collected;
    ready = λ msp b e. all_ready-lookup approvals msp b ready (collected msp ∙ e);
  }

  lookup-one :
      (key : String) (b : Bool) (msp : String)
      → lookup msp ((key, b) ∷ []) ≡ (if key == msp then some b else none)
  unfolding lookup
  lookup-one key b msp = refl

  readiness-ok :
      {s t : Store} {approvals : List (String × Bool)}
      → check_commit_readiness srv def true s ≡ (ok approvals, t)
      → all_ready approvals ≡ true
      → (Operations.matches def (approval_of s def srv.msp_id) ≡ true → Asked approvals)
        × SameTables s t
  unfolding check_commit_readiness
  readiness-ok {s} {t} {approvals} h ready =
      let (own, s1, looked, rest) =
        bind-ok (with_code invalid_argument (Operations.has_matching_approval def srv.msp_id)) _
          h in
      let (asked, same) = lift-ok (ask_remotes srv def ((srv.msp_id, own) ∷ [])) rest in
      let (approval, tables) =
        has_matching_approval-ok def srv.msp_id (
          with_code-ok invalid_argument (Operations.has_matching_approval def srv.msp_id) looked) in
      let (peers, req, resolved, signed, all_asked) =
        ask_remotes-ok ((srv.msp_id, own) ∷ []) approvals asked in
      let (answers, answered, said) = ask_peers-ok req peers ((srv.msp_id, own) ∷ []) all_asked in
      (
        λ approved.
            collected_ready approvals peers req answers resolved signed answered
              (λ msp.
                said msp
                ∙ ap (latest msp answers) (
                    lookup-one srv.msp_id own msp
                    ∙ ap (λ (b : Bool). if srv.msp_id == msp then some b else none)
                        (approval ∙ approved)))
              ready,
        subst (SameTables s) (sym same) tables,
      )

  require-ok :
      (b : Bool) (e : Code) {u : Unit {0}} {s t : Store}
      → require b e s ≡ (ok u, t)
      → (b ≡ true) × (t ≡ s)
  unfolding pure fail
  require-ok true e h = (refl, ground arith)
  require-ok false e h = absurd (ground arith)

  backend_of-ok : (b : Backend) → backend_of srv ≡ ok b → srv.ledger ≡ some b
  backend_of-ok b h = ground arith

  submitted-ok :
      (b : Backend) (r : LedgerCommitResult)
      → submitted b def ≡ ok r
      → b.commit_definition def ≡ some r
  submitted-ok b r h = ground arith

  finish_commit-reconciled :
      (b : Backend) (s : Store) {t : Store} {c : CommittedDefinition}
      → b.finalizer ≡ none
      → finish_commit srv b def s ≡ (ok c, t)
      → (left : DefinitionPropagation) × (reconcile_definition srv def false no_propagation s
          ≡ ((ok c, left), t))
  finish_commit-reconciled b s h k =
      ((reconcile_definition srv def false no_propagation s).0.1, ground arith)

  -- What a publication has done.
  abbrev pub IsPublished : LedgerCommitResult → Store → Type 0
  IsPublished result t =
      (b : Backend) × (srv.ledger ≡ some b)
      × (b.commit_definition def ≡ some result)
      × (b.finalizer ≡ none → Confirmed srv def false × Includes def (view t def.name))

  publish-ok :
      (before : List (String × Bool)) (s : Store) {t : Store} {c : CommittedDefinition}
      {approvals : List (String × Bool)} {result : LedgerCommitResult}
      → publish srv def before s ≡ (ok (c, approvals, result), t)
      → (before ≡ approvals) × IsPublished result t
  unfolding publish pure
  publish-ok before s {t} {c} {approvals} {result} h =
      let (b, s4, configured, h4) = bind-ok (lift (backend_of srv)) _ h in
      let (r, s5, sent, h5) = bind-ok (lift (submitted b def)) _ h4 in
      let (c', s6, finished, h6) = bind-ok (finish_commit srv b def) _ h5 in
      let (is, same) = pure-ok h6 in
      (
        ap (λ x. x.1) is,
        (
          b,
          backend_of-ok b (lift-ok (backend_of srv) configured).0,
          submitted-ok b r (lift-ok (submitted b def) sent).0 ∙ ap (λ x. some x.2) is,
          λ plain.
              let (left, k) = finish_commit-reconciled b s5 plain finished in
              let (confirmed, included, done) = reconcile_definition-ok false no_propagation s5 k in
              (confirmed, subst (λ x. Includes def (view x def.name)) (sym same) included),
        ),
      )

  -- A successful public commitment had been prepared: every remote orchestrator answered a request
  -- that this server signed; the collected approvals hold for each organization what the answers,
  -- taken in their order after the local approval, say last of it, and that is for no organization
  -- that it is not ready; the revision rule accepts the definition after the active one, and the local organization approved
  -- exactly this definition. The result is what the ledger backend returned for it. Without a
  -- finalizer, the ledger's record then confirms the definition and the store includes it.
  pub commit_publicly-ok :
      (s : Store) {t : Store} {c : CommittedDefinition} {approvals : List (String × Bool)}
      {result : LedgerCommitResult}
      → commit_publicly srv def s ≡ (ok (c, approvals, result), t)
      → Asked approvals
        × (validate_next_sequence (Operations.active_definition (view s def.name)) def ≡ none)
        × ((a : ApprovedDefinition) × (approval_of s def srv.msp_id ≡ some a)
            × (a.definition ≡ def))
        × IsPublished result t
  unfolding commit_publicly
  commit_publicly-ok s {t} {c} {approvals} {result} h =
      let (approvals', s1, collected, h1) = bind-ok (check_commit_readiness srv def true) _ h in
      let (u, s2, ready, h2) = bind-ok (require (all_ready approvals') failed_precondition) _ h1 in
      let (u', s3, validated, h3) =
        bind-ok
          (with_code failed_precondition (Operations.validate_commit_definition def srv.msp_id)) _
          h2 in
      let (asked, tables) =
        readiness-ok collected (require-ok (all_ready approvals') failed_precondition ready).0 in
      let same = (require-ok (all_ready approvals') failed_precondition ready).1 in
      let back = subst (SameTables s) (sym same) tables in
      let (valid, approved, tables') = validate_commit_definition-ok def srv.msp_id (
        with_code-ok failed_precondition (Operations.validate_commit_definition def srv.msp_id)
          validated) in
      let (same', published) = publish-ok approvals' s3 h3 in
      (
        subst Asked same' (asked (rw (approval_of-SameTables def srv.msp_id back) at approved)),
        rw (view-SameTables def.name back) at valid,
        matched def _ (rw (approval_of-SameTables def srv.msp_id back) at approved),
        published,
      )
