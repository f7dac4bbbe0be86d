-- ===== src/Lifecycle/Server/Handlers.antt =====
-- The methods of `Server` in compatibility_service/pkg/lifecycle/rpc.go.
use fabric_x_chaincode_compa.Prelude.{
  ℕ, Bool, true, false, not, ◌&&◌, Option, none, some, List, [], ◌∷◌, ◌++◌, map, String, ◌==◌,
  if◌then◌else◌,
}
use fabric_x_chaincode_compa.Prelude.Exec.{Result, ok, err, pure, ◌>>=◌, ◌>>◌}
use fabric_x_chaincode_compa.Prelude.Assoc.{lookup, insert}
use fabric_x_chaincode_compa.Lifecycle.Definition.{ChaincodeDefinition}
use fabric_x_chaincode_compa.Lifecycle.Authorization.Request.{SignedRequest}
use fabric_x_chaincode_compa.Lifecycle.Authorization.Check.{
  Code, failed_precondition, unavailable, internal_error, unknown_error, invalid_argument,
}
use fabric_x_chaincode_compa.Lifecycle.Authorization.Signing.{
  install_request, query_installed_request, approve_for_my_org_request,
  check_commit_readiness_request, commit_request, query_committed_request, mark_initialized_request,
}
use fabric_x_chaincode_compa.Lifecycle.Store.State.{
  Store, InstalledPackage, ApprovedDefinition, CommittedDefinition,
}
use fabric_x_chaincode_compa.Lifecycle.Store.Operations
use fabric_x_chaincode_compa.Lifecycle.Store.Listing
use fabric_x_chaincode_compa.Lifecycle.Package.{PackageDescriptor, inspect_package_bytes}
use fabric_x_chaincode_compa.Lifecycle.Server.State.{
  Peer, LedgerCommitResult, no_result, Inspection, Backend, Server, Incoming, DefinitionPropagation,
  no_propagation, S, lift, with_code, require, verify_and_unmarshal, sign_internal,
  apply_ledger_definition,
}

-- `approvals[mspID] = ready` for the entries of an answer
abbrev pub add_approvals : List (String × Bool) → List (String × Bool) → List (String × Bool)
add_approvals [] m = m
add_approvals ((msp, ready) ∷ more) m = add_approvals more (insert msp ready m)

-- The loop over the peers of `checkCommitReadiness`; a peer that fails ends it.
unfoldable pub ask_peers :
    SignedRequest → List Peer → List (String × Bool) → Result Code (List (String × Bool))
ask_peers req [] m = ok m
ask_peers req (p ∷ ps) m = elim (p.check_commit_readiness req) [
  | none ↦ err internal_error
  | some answer ↦ ask_peers req ps (add_approvals answer m)
]

-- The map from MSPs to peers; the last one of an MSP stays.
abbrev pub by_msp : List Peer → List (String × Peer) → List (String × Peer)
by_msp [] m = m
by_msp (p ∷ ps) m = by_msp ps (insert p.msp_id p m)

-- The organizations of the peers, each at its first peer.
abbrev pub first_seen : List Peer → List (String × Peer) → List String
first_seen [] m = []
first_seen (p ∷ ps) m =
    let rest = first_seen ps (insert p.msp_id p m) in
    elim (lookup p.msp_id m) [ none ↦ p.msp_id ∷ rest | some q ↦ rest ]

abbrev pub updates : Bool → SignedRequest → Peer → Bool
updates initialized req p = if initialized then p.mark_initialized req else p.commit req

-- The loop over the organizations that are left, with what is left of them where it stops.
unfoldable pub propagate :
    Bool → SignedRequest → List (String × Peer) → List String → Option Code × List String
propagate initialized req peers [] = (none, [])
propagate initialized req peers (msp ∷ more) =
    let rest = propagate initialized req peers more in
    elim (lookup msp peers) [
      | none ↦ (some unavailable, msp ∷ more)
      | some p ↦ if updates initialized req p then rest else (some unavailable, msp ∷ more)
    ]

-- `progress` after the peers are known
abbrev pub resolve_progress : List Peer → DefinitionPropagation → DefinitionPropagation
resolve_progress peers progress =
    if progress.resolved
    then progress
    else record { resolved = true; organizations = progress.organizations ++ first_seen peers [] }

abbrev pub outcome : {A : Type 0} → A → Option Code → Result Code A
outcome a none = ok a
outcome a (some e) = err e

abbrev pub is_propagated : DefinitionPropagation → Bool
is_propagated p = p.resolved && elim p.organizations [ [] ↦ true | m ∷ ms ↦ false ]

abbrev pub all_ready : List (String × Bool) → Bool
all_ready [] = true
all_ready ((msp, ready) ∷ more) = ready && all_ready more

abbrev pub submitted : Backend → ChaincodeDefinition → Result Code LedgerCommitResult
submitted b def = elim (b.commit_definition def) [ none ↦ err internal_error | some r ↦ ok r ]

abbrev pub is_internal : Option SignedRequest → Bool
is_internal none = false
is_internal (some req) = req.internal

-- the installed package with this ID
unfoldable pub find_package : String → List InstalledPackage → Option InstalledPackage
find_package id [] = none
find_package id (p ∷ ps) = if p.package_id == id then some p else find_package id ps

abbrev pub installed_package : PackageDescriptor → String → InstalledPackage
installed_package d msp = record {
  package_id = d.package_id;
  label = d.label;
  kind = d.kind;
  address = d.address;
  installed_by_msp = msp;
  installed_at = "";
  metadata_json = d.metadata_json;
  connection_json = d.connection_json;
  package_tgz = d.package_tgz;
}

abbrev pub written : Option InstalledPackage → Result Code InstalledPackage
written none = err internal_error
written (some p) = ok p

abbrev pub inspected : Inspection → Result Code PackageDescriptor
inspected (ok d) = ok d
inspected (err e) = err invalid_argument

module _ {Identity : Type 0} where
  -- The answers of all remote orchestrators, beside the local one.
  unfoldable pub ask_remotes :
      Server Identity
      → ChaincodeDefinition
      → List (String × Bool)
      → Result Code (List (String × Bool))
  unfolding ask_peers
  ask_remotes srv def approvals = elim (srv.remotes def) [
    | none ↦ err unknown_error
    | some peers ↦ elim (sign_internal srv check_commit_readiness_request def) [
      | err e ↦ err e
      | ok req ↦ ask_peers req peers approvals
    ]
  ]

  unfoldable pub check_commit_readiness :
      Server Identity → ChaincodeDefinition → Bool → S (List (String × Bool))
  unfolding with_code ask_remotes
  check_commit_readiness srv def aggregate = do
    approved ← with_code invalid_argument (Operations.has_matching_approval def srv.msp_id)
    let approvals = (srv.msp_id, approved) ∷ []
    if aggregate then lift (ask_remotes srv def approvals) else pure approvals

  -- The organizations that are left are asked with one signed request.
  abbrev pub ask_organizations :
      Server Identity
      → ChaincodeDefinition
      → Bool
      → List Peer
      → DefinitionPropagation
      → List String
      → Option Code × DefinitionPropagation
  ask_organizations srv def initialized peers known [] = (none, known)
  ask_organizations srv def initialized peers known (msp ∷ more) =
      elim (sign_internal srv (if initialized then mark_initialized_request else commit_request)
        def) [
          | err e ↦ (some e, known)
          | ok req ↦
              let left = propagate initialized req (by_msp peers []) (msp ∷ more) in
              (left.0, record known { organizations = left.1 })
        ]

  -- What `ReconcileDefinition` does after the local update, with the progress that it leaves.
  unfoldable pub propagate_definition :
      Server Identity
      → ChaincodeDefinition
      → Bool
      → DefinitionPropagation
      → Option Code × DefinitionPropagation
  unfolding propagate
  propagate_definition srv def initialized progress = elim (srv.remotes def) [
    | none ↦ (some unavailable, progress)
    | some peers ↦
        let known = resolve_progress peers progress in
        ask_organizations srv def initialized peers known known.organizations
  ]

  -- `ReconcileDefinition`; the progress is the caller's, and comes back beside the result.
  unfoldable pub reconcile_definition :
      Server Identity
      → ChaincodeDefinition
      → Bool
      → DefinitionPropagation
      → Store
      → (Result Code CommittedDefinition × DefinitionPropagation) × Store
  unfolding apply_ledger_definition propagate_definition
  reconcile_definition srv def initialized progress s =
      let (applied, s') = apply_ledger_definition srv def initialized s in
      elim applied [
        | err e ↦ ((err e, progress), s')
        | ok c ↦
            if is_propagated progress
            then ((ok c, progress), s')
            else let (error, left) = propagate_definition srv def initialized progress in
              ((outcome c error, left), s')
      ]

  -- the end of `Commit`, after the transaction
  abbrev pub finish_commit : Server Identity → Backend → ChaincodeDefinition → S CommittedDefinition
  finish_commit srv backend def s = elim backend.finalizer [
    | some finalize ↦ finalize def false s
    | none ↦ let (r, s') = reconcile_definition srv def false no_propagation s in (r.0, s')
  ]

  abbrev pub backend_of : Server Identity → Result Code Backend
  backend_of srv = elim srv.ledger [ none ↦ err failed_precondition | some b ↦ ok b ]

  -- The transaction of `Commit` and what follows it.
  unfoldable pub publish :
      Server Identity
      → ChaincodeDefinition
      → List (String × Bool)
      → S (CommittedDefinition × List (String × Bool) × LedgerCommitResult)
  unfolding reconcile_definition
  publish srv def approvals = do
    backend ← lift (backend_of srv)
    result ← lift (submitted backend def)
    c ← finish_commit srv backend def
    pure (c, approvals, result)

  -- `Commit` for a public request
  unfoldable pub commit_publicly :
      Server Identity
      → ChaincodeDefinition
      → S (CommittedDefinition × List (String × Bool) × LedgerCommitResult)
  unfolding check_commit_readiness publish
  commit_publicly srv def = do
    approvals ← check_commit_readiness srv def true
    require (all_ready approvals) failed_precondition
    with_code failed_precondition (Operations.validate_commit_definition def srv.msp_id)
    publish srv def approvals

  unfoldable pub commit :
      Server Identity
      → Incoming
      → (List ℕ → Option ChaincodeDefinition)
      → S (CommittedDefinition × List (String × Bool) × LedgerCommitResult)
  unfolding verify_and_unmarshal apply_ledger_definition commit_publicly
  commit srv call decode = do
    p ← verify_and_unmarshal srv call commit_request decode
    if is_internal call.request
        then (do c ← apply_ledger_definition srv p.1 false; pure (c, [], no_result))
        else commit_publicly srv p.1

  unfoldable pub install :
      Server Identity → Incoming → (List ℕ → Option (List ℕ)) → S InstalledPackage
  unfolding verify_and_unmarshal with_code find_package
  install srv call decode = do
    p ← verify_and_unmarshal srv call install_request decode
    d ← lift (inspected (inspect_package_bytes srv.archives p.1))
    with_code internal_error (Operations.install srv.clock (installed_package d p.0))
    packages ← with_code internal_error Listing.list_installed
    lift (written (find_package d.package_id packages))

  -- The label and the ID of each package.
  unfoldable pub query_installed :
      Server Identity → Incoming → (List ℕ → Option (Unit {0})) → S (List (String × String))
  unfolding verify_and_unmarshal with_code
  query_installed srv call decode = do
    p ← verify_and_unmarshal srv call query_installed_request decode
    packages ← with_code internal_error Listing.list_installed
    pure (map (λ (x : InstalledPackage). (x.label, x.package_id)) packages)

  -- The payload is a definition and a package ID.
  unfoldable pub approve_for_my_org :
      Server Identity
      → Incoming
      → (List ℕ → Option (ChaincodeDefinition × String))
      → S ApprovedDefinition
  unfolding verify_and_unmarshal with_code
  approve_for_my_org srv call decode = do
    p ← verify_and_unmarshal srv call approve_for_my_org_request decode
    with_code invalid_argument (Operations.approve_for_my_org srv.clock p.1.0 p.1.1 p.0)

  -- `CheckCommitReadiness`
  unfoldable pub readiness :
      Server Identity → Incoming → (List ℕ → Option ChaincodeDefinition) → S (List (String × Bool))
  unfolding verify_and_unmarshal check_commit_readiness
  readiness srv call decode = do
    p ← verify_and_unmarshal srv call check_commit_readiness_request decode
    check_commit_readiness srv p.1 (not (is_internal call.request))

  unfoldable pub mark_initialized :
      Server Identity → Incoming → (List ℕ → Option ChaincodeDefinition) → S CommittedDefinition
  unfolding verify_and_unmarshal apply_ledger_definition
  mark_initialized srv call decode = do
    p ← verify_and_unmarshal srv call mark_initialized_request decode
    apply_ledger_definition srv p.1 true

  -- The payload is a name and a version.
  unfoldable pub query_committed :
      Server Identity
      → Incoming
      → (List ℕ → Option (String × String))
      → S (List CommittedDefinition)
  unfolding verify_and_unmarshal with_code
  query_committed srv call decode = do
    p ← verify_and_unmarshal srv call query_committed_request decode
    with_code invalid_argument (Listing.list_committed p.1.0 p.1.1)
