-- ===== src/Lifecycle/Store/Examples.antt =====
-- A small store, and the theorems about store.go at it.
use fabric_x_chaincode_compa.Lifecycle.Store.Table.{upsert, select_all, select}
use fabric_x_chaincode_compa.Prelude.{◌≡◌, refl, true, false, not, none, some, [], ◌∷◌, ◌==◌}
use fabric_x_chaincode_compa.Prelude.Int.{pos}
use fabric_x_chaincode_compa.Prelude.Exec.{◌>>=◌, ok}
use fabric_x_chaincode_compa.Lifecycle.Definition.{
  definition_matches, ChaincodeDefinition, validate_definition, validate_next_sequence,
}
use fabric_x_chaincode_compa.Lifecycle.Store.State.{
  query, present, found, execute, check, Store, InstalledPackage, ApprovedDefinition,
  CommittedDefinition, ApprovalRow,
}
use fabric_x_chaincode_compa.Lifecycle.Store.Operations.{active_definition, approve_for_my_org}
use fabric_x_chaincode_compa.Lifecycle.Store.Commits.{
  commit_definition, upsert_committed_from_ledger,
}
use fabric_x_chaincode_compa.Lifecycle.Store.Commits
use fabric_x_chaincode_compa.Lifecycle.Store.Listing.{resolve_committed_package}
use fabric_x_chaincode_compa.Lifecycle.Store.Revisions.{view, Advances}
use fabric_x_chaincode_compa.Lifecycle.Store.History.{
  run, commit, mark_initialized, ledger_update, run-Advances,
}
use fabric_x_chaincode_compa.Lifecycle.Store.Lookups.{approval_of, installed_of}
use fabric_x_chaincode_compa.Lifecycle.Store.Activation.{commit_definition-ok}
use fabric_x_chaincode_compa.Lifecycle.Store.LedgerUpdate.{
  fact, absorb, IsHealthy, Updates, ledger_update-refines,
}
use fabric_x_chaincode_compa.Lifecycle.Store.Convergence.{updated, updates_commute}
use fabric_x_chaincode_compa.Lifecycle.Store.Approval.{Allowed, Approves, approve_for_my_org-ok}
use fabric_x_chaincode_compa.Lifecycle.Store.Initialization.{Initializes, mark_initialized-ok}
use fabric_x_chaincode_compa.Lifecycle.Store.Resolution.{
  Among, Resolves, resolve_committed_package-ok,
}

abbrev pub asset : ChaincodeDefinition
asset = record { name = "asset"; version = "1.0"; sequence = pos 1; init_required = true }

abbrev asset_two : ChaincodeDefinition
asset_two = record { name = "asset"; version = "2.0"; sequence = pos 2; init_required = false }

abbrev pub asset_package : InstalledPackage
asset_package = record {
  package_id = "asset:1";
  label = "asset";
  kind = "ccaas";
  address = "host:9999";
  installed_by_msp = "Org1MSP";
  installed_at = "t0";
  metadata_json = [];
  connection_json = [];
  package_tgz = [];
}

abbrev approval_row : ApprovalRow
approval_row = record {
  definition = asset;
  package_id = "asset:1";
  approving_msp = "Org1MSP";
  approved_at = "t1";
}

abbrev installed_store : Store
installed_store = record {
  channel_id = "mychannel";
  installed = asset_package ∷ [];
  approved = [];
  committed = [];
  connections = [];
  broken = λ n. false;
  statements = 0;
}

abbrev pub approved_store : Store
approved_store = record installed_store { approved = approval_row ∷ [] }

abbrev committed_row : CommittedDefinition
committed_row = record { definition = asset; committed_at = "t2"; initialized = false }

abbrev initialized_row : CommittedDefinition
initialized_row = record { definition = asset; committed_at = "t3"; initialized = true }

abbrev committed_store : Store
committed_store = record approved_store { committed = committed_row ∷ [] }

abbrev approval : ApprovedDefinition
approval = record {
  definition = asset;
  package_id = "asset:1";
  approving_msp = "Org1MSP";
  approved_at = "t1";
  package_address = "host:9999";
}

run-Advances_example : Advances approved_store (
    run approved_store (
      commit "t2" asset "Org1MSP"
      ∷ mark_initialized "t3" asset
      ∷ ledger_update "t4" asset_two false
      ∷ ledger_update "t5" asset true
      ∷ []))
run-Advances_example = run-Advances approved_store (
    commit "t2" asset "Org1MSP"
    ∷ mark_initialized "t3" asset
    ∷ ledger_update "t4" asset_two false
    ∷ ledger_update "t5" asset true
    ∷ [])

abbrev after_commit : Store
after_commit = (commit_definition "t2" asset "Org1MSP" approved_store).1

commit_definition_run :
    commit_definition "t2" asset "Org1MSP" approved_store ≡ (ok committed_row, after_commit)
unfolding commit_definition ◌>>=◌ check validate_definition query select definition_matches present
    validate_next_sequence execute upsert
commit_definition_run = refl

commit_definition-ok_example :
    (validate_next_sequence (active_definition (view approved_store "asset")) asset ≡ none)
    × ((a : ApprovedDefinition) × (approval_of approved_store asset "Org1MSP" ≡ some a)
        × (a.definition ≡ asset))
    × (view after_commit "asset" ≡ some committed_row)
    × (committed_row.definition ≡ asset)
    × (committed_row.initialized ≡ not asset.init_required)
commit_definition-ok_example =
    commit_definition-ok "t2" asset "Org1MSP" approved_store commit_definition_run

healthy : IsHealthy committed_store
healthy = record { works = λ n. refl }

ledger_update-refines_example :
    Updates asset_two
      (absorb
        (record { definition = asset_two; initialized = false })
        (fact (view committed_store "asset")))
      (upsert_committed_from_ledger "t4" asset_two false committed_store)
unfolding select
ledger_update-refines_example =
    ledger_update-refines "t4" asset_two false (unfold validate_definition in refl) committed_store
      healthy (unfold view in λ e. absurd (cc))

updates_commute_example :
    fact (
      view
        (updated "t4"
          (record { definition = asset; initialized = true })
          (updated "t4" (record { definition = asset_two; initialized = false }) committed_store))
        "asset")
    ≡ fact (
        view
          (updated "t4"
            (record { definition = asset_two; initialized = false })
            (updated "t4" (record { definition = asset; initialized = true }) committed_store))
          "asset")
unfolding select
updates_commute_example =
    updates_commute "t4" "asset" (record { definition = asset_two; initialized = false })
      (record { definition = asset; initialized = true }) committed_store healthy
      (unfold validate_definition in refl) (unfold validate_definition in refl) refl refl
      (λ e. absurd (cc)) (unfold view in λ e. absurd (cc)) (unfold view in λ e. refl)

abbrev after_approval : Store
after_approval = (approve_for_my_org "t1" asset "asset:1" "Org1MSP" installed_store).1

approve_run :
    approve_for_my_org "t1" asset "asset:1" "Org1MSP" installed_store
    ≡ (ok approval, after_approval)
unfolding approve_for_my_org ◌>>=◌ check validate_definition present query found select
    validate_next_sequence execute
approve_run = refl

approve_for_my_org-ok_example :
    (validate_definition asset ≡ none)
    × Allowed asset (view installed_store "asset")
    × ((p : InstalledPackage) × (installed_of installed_store "asset:1" ≡ some p)
        × Approves asset "asset:1" "Org1MSP" p installed_store approval after_approval)
approve_for_my_org-ok_example =
    approve_for_my_org-ok "t1" asset "asset:1" "Org1MSP" installed_store approve_run

abbrev after_init : Store
after_init = (Commits.mark_initialized "t3" asset committed_store).1

mark_initialized_run :
    Commits.mark_initialized "t3" asset committed_store ≡ (ok initialized_row, after_init)
unfolding Commits.mark_initialized ◌>>=◌ check validate_definition present query found select
    definition_matches execute
mark_initialized_run = refl

mark_initialized-ok_example :
    (c : CommittedDefinition) × (view committed_store "asset" ≡ some c)
    × Initializes asset c initialized_row after_init
mark_initialized-ok_example = mark_initialized-ok "t3" asset committed_store mark_initialized_run

abbrev after_resolution : Store
after_resolution = (resolve_committed_package "asset" "Org1MSP" committed_store).1

resolve_run :
    resolve_committed_package "asset" "Org1MSP" committed_store
    ≡ (ok (some (committed_row, asset_package)), after_resolution)
unfolding resolve_committed_package ◌>>=◌ query select_all check validate_definition select
    definition_matches present found
resolve_run = refl

resolve_committed_package-ok_example :
    Among committed_row committed_store.committed
    × (("asset" == "") ≡ false → committed_row.definition.name ≡ "asset")
    × (("asset" == "") ≡ true → committed_store.committed ≡ committed_row ∷ [])
    × Resolves "Org1MSP" committed_store committed_row asset_package
resolve_committed_package-ok_example =
    resolve_committed_package-ok "asset" "Org1MSP" committed_store resolve_run
