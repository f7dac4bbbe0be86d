-- ===== src/Orchestrator/Publication/Pending.antt =====
-- The pending lifecycle operations of compatibility_service/pkg/orchestrator/lifecycle_ledger.go.
-- A `*pendingLifecycle` is an index into the heap of all that were made. Each critical section of
-- `recoveryMu` is one function; the gate of an operation gives one caller at a time its fields.
use fabric_x_chaincode_compa.Prelude.{
  ℕ, Bool, true, false, not, ◌&&◌, Option, none, some, List, [], ◌∷◌, ◌++◌, String, ◌==◌, length,
  get_elem?, set, nat_eq, if◌then◌else◌,
}
use fabric_x_chaincode_compa.Prelude.Int.{ℤ, eqb_ℤ}
use fabric_x_chaincode_compa.Prelude.Exec.{Result, ok, err}
use fabric_x_chaincode_compa.Lifecycle.Definition.{ChaincodeDefinition, definition_matches}
use fabric_x_chaincode_compa.Lifecycle.Server.State.{
  LedgerCommitResult, no_result, DefinitionPropagation, no_propagation,
}
use fabric_x_chaincode_compa.Orchestrator.Publication.Preparation
use fabric_x_chaincode_compa.Orchestrator.Publication.Preparation.{event_commit, event_initialized}

pub record LifecycleOperation : Type 0 where
  pub name : String
  pub sequence : ℤ
  pub event : String

abbrev pub operation_eq : LifecycleOperation → LifecycleOperation → Bool
operation_eq a b = a.name == b.name && eqb_ℤ a.sequence b.sequence && a.event == b.event

-- `locked` tells that the one slot of `gate` is taken.
pub record PendingLifecycle : Type 0 where
  pub operation : LifecycleOperation
  pub definition : ChaincodeDefinition
  pub result : LedgerCommitResult
  pub propagation : DefinitionPropagation
  pub locked : Bool

-- What may have reached the ordering service, and which transactions were seen to be rejected.
pub data Event : Type 0 where
  sent rejected : ℕ → String → Event

-- `log`, with the newest event first, is a record of the calls and is no part of the service.
pub record State : Type 0 where
  pub heap : List PendingLifecycle
  pub table : List (LifecycleOperation × ℕ)
  pub closed : Bool
  pub log : List Event

pub data Error : Type 0 where
  closed_service conflicting context_ended no_such_pending : Error
  pending superseded status_unavailable not_subscribed not_submitted rejected_status : Error
  not_prepared : Preparation.Error → Error

unfoldable pub find_operation : LifecycleOperation → List (LifecycleOperation × ℕ) → Option ℕ
find_operation op [] = none
find_operation op ((o, p) ∷ rest) =
    let more = find_operation op rest in if operation_eq o op then some p else more

unfoldable pub delete_operation :
    LifecycleOperation → List (LifecycleOperation × ℕ) → List (LifecycleOperation × ℕ)
delete_operation op [] = []
delete_operation op ((o, p) ∷ rest) =
    let more = delete_operation op rest in if operation_eq o op then more else (o, p) ∷ more

abbrev pub write : ℕ → PendingLifecycle → State → State
write p r s = record s { heap = set s.heap p r }

abbrev pub operation_for : ChaincodeDefinition → Bool → LifecycleOperation
operation_for def initialized = record {
  name = def.name;
  sequence = def.sequence;
  event = if initialized then event_initialized else event_commit;
}

abbrev pub new_pending : ChaincodeDefinition → Bool → Bool → PendingLifecycle
new_pending def initialized locked = record {
  operation = operation_for def initialized;
  definition = def;
  result = no_result;
  propagation = no_propagation;
  locked = locked;
}

abbrev pub added : ChaincodeDefinition → Bool → Bool → State → State
added def initialized locked s = record s {
  heap = s.heap ++ new_pending def initialized locked ∷ [];
  table = (operation_for def initialized, length s.heap) ∷ s.table;
}

-- The critical section of `lifecycleOperation`. `live` and `still` tell at its two checks that the
-- context has no error. The second part of the result tells that the operation is locked already;
-- else the caller has to lock it.
unfoldable pub reserve :
    ChaincodeDefinition → Bool → Bool → Bool → State → Result Error (ℕ × Bool) × State
unfolding find_operation
reserve def initialized live still s =
    if s.closed
    then (err closed_service, s)
    else elim (find_operation (operation_for def initialized) s.table) [
      | some p ↦ elim (get_elem? s.heap p) [
        | none ↦ (err no_such_pending, s)
        | some r ↦
            if definition_matches r.definition def then (ok (p, false), s) else (err conflicting, s)
      ]
      | none ↦
          if not live && not initialized
          then (err context_ended, s)
          else if not still
          then (err context_ended, added def initialized false s)
          else (ok (length s.heap, true), added def initialized true s)
    ]

-- `lock`; `none` is a call that still waits for the gate.
unfoldable pub lock : ℕ → Bool → State → Option (Option Error × State)
lock p live s = if not live then some (some context_ended, s) else elim (get_elem? s.heap p) [
  | none ↦ some (some no_such_pending, s)
  | some r ↦ if r.locked then none else some (none, write p (record r { locked = true }) s)
]

-- `unlock`; a receive from the empty gate blocks, and has no result.
unfoldable pub unlock : ℕ → State → Option State
unlock p s = elim (get_elem? s.heap p) [
  | none ↦ none
  | some r ↦ if r.locked then some (write p (record r { locked = false }) s) else none
]

-- `removeLifecycleOperation`
unfoldable pub remove_operation : ℕ → State → State
unfolding find_operation delete_operation
remove_operation p s = elim (get_elem? s.heap p) [
  | none ↦ s
  | some r ↦ elim (find_operation r.operation s.table) [
    | none ↦ s
    | some q ↦ if nat_eq q p then record s { table = delete_operation r.operation s.table } else s
  ]
]

-- The check of `reconcileLifecyclePending` that the table still holds the operation.
unfoldable pub is_current : ℕ → State → Bool
unfolding find_operation
is_current p s = elim (get_elem? s.heap p) [
  | none ↦ false
  | some r ↦ elim (find_operation r.operation s.table) [ none ↦ false | some q ↦ nat_eq q p ]
]
