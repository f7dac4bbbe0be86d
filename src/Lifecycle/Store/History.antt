-- ===== src/Lifecycle/Store/History.antt =====
-- Every method of the store, whether it succeeds or fails, only moves definitions forward.
use fabric_x_chaincode_compa.Prelude.{
  ◌≡◌, refl, arith, Bool, true, false, Option, none, some, List, [], ◌∷◌, String, ◌==◌,
  if◌then◌else◌,
}
use fabric_x_chaincode_compa.Prelude.Exec.{
  Keeps, Keeps-pure, Keeps-fail, Keeps-bind, pure, fail, modify, ◌>>=◌,
}
use fabric_x_chaincode_compa.Lifecycle.Definition.{ChaincodeDefinition, Error}
use fabric_x_chaincode_compa.Lifecycle.Store.State.{
  Store, InstalledPackage, ApprovedDefinition, CommittedDefinition, ResolvedConnection, M,
  statement, query, execute, check, found, present,
}
use fabric_x_chaincode_compa.Lifecycle.Store.Operations
use fabric_x_chaincode_compa.Lifecycle.Store.Commits
use fabric_x_chaincode_compa.Lifecycle.Store.Listing
use fabric_x_chaincode_compa.Lifecycle.Store.Revisions.{
  Advances, Advances-IsOrder, Advances-same, put_committed-Advances, set_initialized-Advances,
}

abbrev pub Safe : {A : Type 0} → M A → Type 0
Safe m = Keeps Advances m

module _ {A : Type 0} where
  pure-Safe : (a : A) → Safe (pure a)
  pure-Safe a = Keeps-pure Advances-IsOrder a

  fail-Safe : (e : Error) → Safe (fail {A = A} e)
  fail-Safe e = Keeps-fail Advances-IsOrder e

  query-Safe : (f : Store → A) → Safe (query f)
  unfolding query statement ◌>>=◌
  query-Safe f = record { at = λ s. Advances-same s _ (ground arith) }

  if-Safe : (b : Bool) (m k : M A) → Safe m → Safe k → Safe (if b then m else k)
  if-Safe true m k p q = p
  if-Safe false m k p q = q

  found-Safe : (e : Error) (o : Option A) → Safe (found e o)
  unfolding found
  found-Safe e none = fail-Safe e
  found-Safe e (some a) = Keeps-pure Advances-IsOrder a

bind-Safe :
    {A B : Type 0} (m : M A) (f : A → M B) → Safe m → ((a : A) → Safe (f a)) → Safe (m >>= f)
bind-Safe m f = Keeps-bind Advances-IsOrder m f

statement-Safe : Safe statement
unfolding statement
statement-Safe = record { at = λ s. Advances-same s _ (ground arith) }

modify-Safe : (f : Store → Store) → ((s : Store) → Advances s (f s)) → Safe (modify f)
unfolding modify
modify-Safe f h = record { at = h }

execute-Safe : (f : Store → Store) → ((s : Store) → Advances s (f s)) → Safe (execute f)
unfolding execute
execute-Safe f h = bind-Safe statement (λ _. modify f) statement-Safe (λ _. modify-Safe f h)

-- a statement on another table
other_table-Safe :
    (f : Store → Store) → ((s : Store) → (f s).committed ≡ s.committed) → Safe (execute f)
other_table-Safe f e = execute-Safe f (λ s. Advances-same s (f s) (e s))

check-Safe : (e : Option Error) → Safe (check e)
unfolding check
check-Safe none = pure-Safe tt
check-Safe (some e) = fail-Safe e

present-Safe : (e : Error) (x : String) → Safe (present e x)
unfolding present
present-Safe e x = if-Safe (x == "") _ _ (fail-Safe e) (pure-Safe tt)

ruleset safe_rules =
    (pure-Safe, fail-Safe, query-Safe, if-Safe, found-Safe, bind-Safe, check-Safe, present-Safe)

get_installed-Safe : (id : String) → Safe (Operations.get_installed id)
unfolding Operations.get_installed
get_installed-Safe id = search safe_rules

get_committed-Safe : (name : String) → Safe (Operations.get_committed name)
unfolding Operations.get_committed
get_committed-Safe name = search safe_rules

get_approval-Safe :
    (def : ChaincodeDefinition) (msp : String) → Safe (Operations.get_approval def msp)
unfolding Operations.get_approval
get_approval-Safe def msp = search safe_rules

ruleset lookup_rules = (safe_rules, get_installed-Safe, get_committed-Safe, get_approval-Safe)

pub install-Safe : (now : String) (pkg : InstalledPackage) → Safe (Operations.install now pkg)
unfolding Operations.install
install-Safe now pkg = bind-Safe _ _ (present-Safe _ _) (λ _. other_table-Safe _ (λ s. refl))

pub has_matching_approval-Safe :
    (def : ChaincodeDefinition) (msp : String) → Safe (Operations.has_matching_approval def msp)
unfolding Operations.has_matching_approval
has_matching_approval-Safe def msp = search lookup_rules

validate_next-Safe : (def : ChaincodeDefinition) → Safe (Operations.validate_next def)
unfolding Operations.validate_next
validate_next-Safe def = search lookup_rules

pub validate_commit_definition-Safe :
    (def : ChaincodeDefinition) (msp : String)
    → Safe (Operations.validate_commit_definition def msp)
unfolding Operations.validate_commit_definition
validate_commit_definition-Safe def msp =
    search (lookup_rules, has_matching_approval-Safe, validate_next-Safe)

check_revision-Safe :
    (def : ChaincodeDefinition) (o : Option CommittedDefinition)
    → Safe (Operations.check_revision def o)
unfolding Operations.check_revision
check_revision-Safe def none = validate_next-Safe def
check_revision-Safe def (some c) = search (safe_rules, validate_next-Safe)

record_approval-Safe :
    (now : String) (def : ChaincodeDefinition) (id address msp : String)
    → Safe (Operations.record_approval now def id address msp)
unfolding Operations.record_approval
record_approval-Safe now def id address msp =
    bind-Safe _ _ (other_table-Safe _ (λ s. unfold Operations.put_approval in refl)) λ _.
      bind-Safe _ _ (other_table-Safe _ (λ s. unfold Operations.drop_connection in refl))
        λ _. pure-Safe _

approve_or_reuse-Safe :
    (now : String) (def : ChaincodeDefinition) (id address msp : String)
    (o : Option ApprovedDefinition)
    → Safe (Operations.approve_or_reuse now def id address msp o)
unfolding Operations.approve_or_reuse
approve_or_reuse-Safe now def id address msp none = record_approval-Safe now def id address msp
approve_or_reuse-Safe now def id address msp (some a) = search (safe_rules, record_approval-Safe)

pub approve_for_my_org-Safe :
    (now : String) (def : ChaincodeDefinition) (id msp : String)
    → Safe (Operations.approve_for_my_org now def id msp)
unfolding Operations.approve_for_my_org
approve_for_my_org-Safe now def id msp =
    search (lookup_rules, check_revision-Safe, approve_or_reuse-Safe) depth 12

check_active-Safe :
    (def : ChaincodeDefinition) (o : Option CommittedDefinition) → Safe (Commits.check_active def o)
unfolding Commits.check_active
check_active-Safe def o = search safe_rules

upsert_committed-Safe :
    (now : String) (c : CommittedDefinition) → Safe (Commits.upsert_committed now c)
unfolding Commits.upsert_committed
upsert_committed-Safe now c = bind-Safe _ _ (check-Safe _) λ _.
    bind-Safe _ _ (execute-Safe _ (put_committed-Advances _))
      λ _. search (lookup_rules, check_active-Safe)

commit_definition-Safe :
    (now : String) (def : ChaincodeDefinition) (msp : String)
    → Safe (Commits.commit_definition now def msp)
unfolding Commits.commit_definition
commit_definition-Safe now def msp =
    search (safe_rules, validate_commit_definition-Safe, upsert_committed-Safe)

hydrate-Safe :
    (now : String) (def : ChaincodeDefinition) (b : Bool) (o : Option CommittedDefinition)
    → Safe (Commits.hydrate now def b o)
unfolding Commits.hydrate
hydrate-Safe now def b none = search (upsert_committed-Safe)
hydrate-Safe now def b (some c) = search (safe_rules, upsert_committed-Safe) depth 8

pub upsert_committed_from_ledger-Safe :
    (now : String) (def : ChaincodeDefinition) (b : Bool)
    → Safe (Commits.upsert_committed_from_ledger now def b)
unfolding Commits.upsert_committed_from_ledger
upsert_committed_from_ledger-Safe now def b = search (lookup_rules, hydrate-Safe)

set_initialized-Safe :
    (now : String) (def : ChaincodeDefinition) → Safe (execute (Commits.set_initialized now def))
set_initialized-Safe now def = execute-Safe _ (set_initialized-Advances now def)

mark_committed-Safe :
    (now : String) (def : ChaincodeDefinition) (c : CommittedDefinition)
    → Safe (Commits.mark_committed now def c)
unfolding Commits.mark_committed
mark_committed-Safe now def c = search (safe_rules, set_initialized-Safe) depth 9

mark_initialized-Safe :
    (now : String) (def : ChaincodeDefinition) → Safe (Commits.mark_initialized now def)
unfolding Commits.mark_initialized
mark_initialized-Safe now def = search (lookup_rules, mark_committed-Safe)

put_resolved_connection-Safe :
    (now : String) (c : ResolvedConnection) → Safe (Commits.put_resolved_connection now c)
unfolding Commits.put_resolved_connection
put_resolved_connection-Safe now c = bind-Safe _ _ (present-Safe _ _) λ _.
    bind-Safe _ _ (check-Safe _) λ _.
      bind-Safe _ _ (present-Safe _ _)
        λ _. bind-Safe _ _ (other_table-Safe _ (λ s. refl)) (λ _. pure-Safe _)

get_resolved_connection-Safe :
    (msp : String) (def : ChaincodeDefinition) → Safe (Commits.get_resolved_connection msp def)
unfolding Commits.get_resolved_connection
get_resolved_connection-Safe msp def = search lookup_rules

resolve_approved-Safe :
    (c : CommittedDefinition) (msp : String) (o : Option ApprovedDefinition)
    → Safe (Listing.resolve_approved c msp o)
unfolding Listing.resolve_approved
resolve_approved-Safe c msp none = fail-Safe _
resolve_approved-Safe c msp (some a) = search lookup_rules depth 8

resolve_listed-Safe :
    (name msp : String) (cs : List CommittedDefinition) → Safe (Listing.resolve_listed name msp cs)
unfolding Listing.resolve_listed
resolve_listed-Safe name msp [] = pure-Safe none
resolve_listed-Safe name msp (c ∷ []) = search (lookup_rules, resolve_approved-Safe)
resolve_listed-Safe name msp (c ∷ d ∷ more) = search (lookup_rules, resolve_approved-Safe) depth 8

resolve_committed_package-Safe :
    (name msp : String) → Safe (Listing.resolve_committed_package name msp)
unfolding Listing.resolve_committed_package Listing.list_committed
resolve_committed_package-Safe name msp = search (lookup_rules, resolve_listed-Safe)

pub list_installed-Safe : Safe Listing.list_installed
unfolding Listing.list_installed
list_installed-Safe = query-Safe _

pub list_committed-Safe : (name version : String) → Safe (Listing.list_committed name version)
unfolding Listing.list_committed
list_committed-Safe name version = query-Safe _

-- The public methods, each with its arguments and the time that it reads.
pub data Call : Type 0 where
  install : String → InstalledPackage → Call
  get_installed : String → Call
  list_installed : Call
  approve : String → ChaincodeDefinition → String → String → Call
  get_approval has_matching_approval validate_commit : ChaincodeDefinition → String → Call
  commit : String → ChaincodeDefinition → String → Call
  ledger_update : String → ChaincodeDefinition → Bool → Call
  mark_initialized : String → ChaincodeDefinition → Call
  get_committed : String → Call
  list_committed resolve_package : String → String → Call
  get_connection : String → ChaincodeDefinition → Call
  put_connection : String → ResolvedConnection → Call

unfoldable pub step : Store → Call → Store
step s (install now pkg) = (Operations.install now pkg s).1
step s (get_installed id) = (Operations.get_installed id s).1
step s list_installed = (Listing.list_installed s).1
step s (approve now def id msp) = (Operations.approve_for_my_org now def id msp s).1
step s (get_approval def msp) = (Operations.get_approval def msp s).1
step s (has_matching_approval def msp) = (Operations.has_matching_approval def msp s).1
step s (validate_commit def msp) = (Operations.validate_commit_definition def msp s).1
step s (commit now def msp) = (Commits.commit_definition now def msp s).1
step s (ledger_update now def b) = (Commits.upsert_committed_from_ledger now def b s).1
step s (mark_initialized now def) = (Commits.mark_initialized now def s).1
step s (get_committed name) = (Operations.get_committed name s).1
step s (list_committed name version) = (Listing.list_committed name version s).1
step s (resolve_package name msp) = (Listing.resolve_committed_package name msp s).1
step s (get_connection msp def) = (Commits.get_resolved_connection msp def s).1
step s (put_connection now c) = (Commits.put_resolved_connection now c s).1

unfoldable pub run : Store → List Call → Store
unfolding step
run s [] = s
run s (c ∷ cs) = run (step s c) cs

step-Advances : (s : Store) (c : Call) → Advances s (step s c)
unfolding step Listing.list_installed Listing.list_committed
step-Advances s (install now pkg) = (install-Safe now pkg).at s
step-Advances s (get_installed id) = (get_installed-Safe id).at s
step-Advances s list_installed = (query-Safe _).at s
step-Advances s (approve now def id msp) = (approve_for_my_org-Safe now def id msp).at s
step-Advances s (get_approval def msp) = (get_approval-Safe def msp).at s
step-Advances s (has_matching_approval def msp) = (has_matching_approval-Safe def msp).at s
step-Advances s (validate_commit def msp) = (validate_commit_definition-Safe def msp).at s
step-Advances s (commit now def msp) = (commit_definition-Safe now def msp).at s
step-Advances s (ledger_update now def b) = (upsert_committed_from_ledger-Safe now def b).at s
step-Advances s (mark_initialized now def) = (mark_initialized-Safe now def).at s
step-Advances s (get_committed name) = (get_committed-Safe name).at s
step-Advances s (list_committed name version) = (query-Safe _).at s
step-Advances s (resolve_package name msp) = (resolve_committed_package-Safe name msp).at s
step-Advances s (get_connection msp def) = (get_resolved_connection-Safe msp def).at s
step-Advances s (put_connection now c) = (put_resolved_connection-Safe now c).at s

-- From any store, along any calls, failing ones and refused statements included, each name's
-- active definition is never lost and never goes back: at the end its sequence is greater, or the
-- definition is the same one and is initialized if it was.
pub run-Advances : (s : Store) (cs : List Call) → Advances s (run s cs)
unfolding run
run-Advances s [] = Advances-IsOrder.same s
run-Advances s (c ∷ cs) =
    Advances-IsOrder.chain s (step s c) (run (step s c) cs) (step-Advances s c)
      (run-Advances (step s c) cs)
