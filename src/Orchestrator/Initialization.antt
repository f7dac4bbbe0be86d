-- ===== src/Orchestrator/Initialization.antt =====
-- compatibility_service/pkg/orchestrator/init.go: whether an invocation may run, given the
-- initialization of its chaincode.
use fabric_x_chaincode_compa.Prelude.{
  ◌≡◌, refl, ap, Bool, true, false, not, ◌&&◌, Option, none, some, List, [], ◌∷◌, String, ◌==◌,
  arith, bool_eq, if◌then◌else◌,
}
use fabric_x_chaincode_compa.Prelude.Exec.{Result, ok, err}
use fabric_x_chaincode_compa.Lifecycle.Definition
use fabric_x_chaincode_compa.Lifecycle.Definition.{ChaincodeDefinition}
use fabric_x_chaincode_compa.Lifecycle.Store.State.{Store, CommittedDefinition}
use fabric_x_chaincode_compa.Lifecycle.Store.Operations.{get_committed}
use fabric_x_chaincode_compa.Lifecycle.Store.Revisions.{view}
use fabric_x_chaincode_compa.Lifecycle.Store.Lookups.{get_committed-ok}

-- The errors of `validateInitMetadata` and `validateInitState`.
pub data Error : Type 0 where
  invalid_metadata metadata_conflict init_query no_lifecycle no_chaincode_name : Error
  not_committed init_not_required already_initialized requires_init : Error
  lifecycle : Definition.Error → Error

-- The fields of `InvocationRequest` that the check reads.
pub record InvocationRequest : Type 0 where
  pub definition : Option CommittedDefinition
  pub chaincode_name : String
  pub is_init : Bool

-- `GRPCOperationQuery`
abbrev pub query_operation : String
query_operation = "query"

unfoldable pub validate_init_metadata : List String → Bool → Option Error
validate_init_metadata [] is_init = none
validate_init_metadata (value ∷ rest) is_init =
    let more = validate_init_metadata rest is_init in
    if not (value == "true") && not (value == "false")
    then some invalid_metadata
    else if not (bool_eq (value == "true") is_init)
    then some metadata_conflict
    else more

-- The decision on the committed definition, if there is one.
unfoldable pub init_decision :
    InvocationRequest → Option CommittedDefinition → Result Error (Option ChaincodeDefinition)
init_decision req none = if req.is_init then err not_committed else ok none
init_decision req (some c) =
    if req.is_init
    then (if not c.definition.init_required
        then err init_not_required
        else if c.initialized
        then err already_initialized
        else ok (some c.definition))
    else if c.definition.init_required && not c.initialized
    then err requires_init
    else ok none

-- The definition that the request carries has precedence over the store's, whose lookup comes
-- first all the same.
abbrev pub committed_for :
    InvocationRequest
    → Result Definition.Error (Option CommittedDefinition)
    → Result Error (Option CommittedDefinition)
committed_for req looked_up = elim req.definition [
  | some c ↦ ok (some c)
  | none ↦ elim looked_up [ ok o ↦ ok o | err e ↦ err (lifecycle e) ]
]

abbrev pub decide :
    InvocationRequest
    → Result Error (Option CommittedDefinition)
    → Result Error (Option ChaincodeDefinition)
decide req (ok o) = init_decision req o
decide req (err e) = err e

-- `validateInitState`; no store is the nil `s.lifecycle`. The store comes back for the count of
-- its statements.
unfoldable pub validate_init_state :
    Option Store
    → InvocationRequest
    → String
    → Result Error (Option ChaincodeDefinition) × Option Store
unfolding init_decision
validate_init_state store req operation =
    if req.is_init && operation == query_operation then (err init_query, store) else elim store [
      | none ↦ if req.is_init then (err no_lifecycle, none) else (ok none, none)
      | some s ↦
          if req.chaincode_name == ""
          then (if req.is_init then (err no_chaincode_name, some s) else (ok none, some s))
          else let (looked_up, s') = get_committed req.chaincode_name s in
            (decide req (committed_for req looked_up), some s')
    ]

-- What a decision that lets the invocation pass says of the row.
abbrev pub Passes :
    InvocationRequest → Option CommittedDefinition → Option ChaincodeDefinition → Type 0
Passes req row o =
    (req.is_init ≡ true
      → (c : CommittedDefinition) × (row ≡ some c)
        × (o ≡ some c.definition)
        × (c.definition.init_required ≡ true)
        × (c.initialized ≡ false))
    × (req.is_init ≡ false
        → (o ≡ none)
          × ((c : CommittedDefinition)
              → row ≡ some c
              → c.definition.init_required ≡ true
              → c.initialized ≡ true))

init_decision-Passes :
    (req : InvocationRequest) (row : Option CommittedDefinition) {o : Option ChaincodeDefinition}
    → init_decision req row ≡ ok o
    → Passes req row o
unfolding init_decision
init_decision-Passes req none h =
    (λ e. absurd (ground arith), λ e. (ground arith, λ c k. absurd (ground arith)))
init_decision-Passes req (some d) h = (
  λ e. (d, refl, ground arith, ground arith, ground arith),
  λ e. (ground arith, λ c k i. ground arith),
)

-- the row that the check is about
abbrev pub row_for : InvocationRequest → Store → Option CommittedDefinition
row_for req s = elim req.definition [ some c ↦ some c | none ↦ view s req.chaincode_name ]

decided-row :
    (req : InvocationRequest) (s : Store)
    (looked : Result Definition.Error (Option CommittedDefinition)) {o : Option ChaincodeDefinition}
    → ((found : Option CommittedDefinition) → looked ≡ ok found → found ≡ view s req.chaincode_name)
    → decide req (committed_for req looked) ≡ ok o
    → init_decision req (row_for req s) ≡ ok o
decided-row req s (ok found) k h = let e = k found refl in ground (arith, e)
decided-row req s (err x) k h = ground arith

-- With a lifecycle store and a chaincode name, an invocation that the check lets pass is one of
-- two kinds. An initialization is no query, and its definition is committed, needs
-- initialization, is not initialized yet, and is returned. Any other invocation returns no
-- definition, and if its chaincode needs initialization it is initialized.
pub validate_init_state-ok :
    (s : Store) (req : InvocationRequest) (operation : String) {o : Option ChaincodeDefinition}
    {t : Option Store}
    → (req.chaincode_name == "") ≡ false
    → validate_init_state (some s) req operation ≡ (ok o, t)
    → (req.is_init ≡ true → (operation == query_operation) ≡ false) × Passes req (row_for req s) o
unfolding validate_init_state
validate_init_state-ok s req operation {o} {t} named h =
    let decided : decide req (committed_for req (get_committed req.chaincode_name s).0) ≡ ok o =
      ground arith in
    (
      λ e. ground arith,
      init_decision-Passes req (row_for req s) (
          decided-row req s (get_committed req.chaincode_name s).0
            (λ found e.
              (get_committed-ok req.chaincode_name
                (ap (λ r. (r, (get_committed req.chaincode_name s).1)) e)).0)
            decided),
    )
