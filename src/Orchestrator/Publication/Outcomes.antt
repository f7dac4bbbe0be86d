-- ===== src/Orchestrator/Publication/Outcomes.antt =====
-- What the outcomes of a pending operation show.
use fabric_x_chaincode_compa.Prelude.{
  ℕ, ◌≡◌, refl, sym, subst, ◌∙◌, ap, inl, inr, Bool, true, false, Option, none, some, List, [], ◌∷◌,
  String, ◌==◌, arith, eq_iff, get_elem?, nat_eq, Bool-cases, Option-cases,
}
use fabric_x_chaincode_compa.Prelude.Int.{eqb_ℤ}
use fabric_x_chaincode_compa.Prelude.Exec.{Result, Result-cases, ok, err}
use fabric_x_chaincode_compa.Lifecycle.Ledger.{LedgerDefinition}
use fabric_x_chaincode_compa.Lifecycle.Store.State.{Store, CommittedDefinition}
use fabric_x_chaincode_compa.Lifecycle.Store.Revisions.{view}
use fabric_x_chaincode_compa.Lifecycle.Store.Inclusion.{Includes}
use fabric_x_chaincode_compa.Lifecycle.Server.State.{
  Server, LedgerCommitResult, DefinitionPropagation,
}
use fabric_x_chaincode_compa.Lifecycle.Server.Mirror.{Confirmed}
use fabric_x_chaincode_compa.Lifecycle.Server.Handlers.{reconcile_definition}
use fabric_x_chaincode_compa.Lifecycle.Server.Publication.{reconcile_definition-ok}
use fabric_x_chaincode_compa.Lifecycle.Authorization.Check.{Code}
use fabric_x_chaincode_compa.Orchestrator.Finality.Status.{
  TxStatus, NotificationResponse, Subscription, absent, failed_to_open, waiting, is_final_status,
  query_transaction_status, subscribe_finality, wait_status, IsFinal, is_final_status-IsFinal,
  query_status-IsFinal,
}
use fabric_x_chaincode_compa.Orchestrator.Finality.Reports.{
  Reported, query_status-Reported, wait_status-Reported,
}
use fabric_x_chaincode_compa.Orchestrator.Finality.Submitter.{submit}
use fabric_x_chaincode_compa.Orchestrator.Publication.Preparation.{
  is_initialized_event, prepare_lifecycle_transaction, read_lifecycle_definition,
}
use fabric_x_chaincode_compa.Orchestrator.Publication.Pending.{
  LifecycleOperation, PendingLifecycle, State, write, remove_operation, find_operation,
  delete_operation, operation_eq, is_current,
}
use fabric_x_chaincode_compa.Orchestrator.Publication.Advance.{
  Environment, Outcome, observe, await, deliver, deliver_subscribed, send, start, check_again,
  advance, with_tx, with_status,
}
use fabric_x_chaincode_compa.Orchestrator.Publication.Finalize.{finalize, settled, is_newer}

-- Why an operation counts as committed.
pub data Evidence (env : Environment) (r : PendingLifecycle) (result : LedgerCommitResult)
    : Type 0 where
  already :
      result ≡ r.result
      → (r.result.status == env.codes.text env.codes.committed) ≡ true
      → Evidence env r result
  unneeded :
      prepare_lifecycle_transaction env.ledger env.endorse r.definition r.operation.event ≡ ok ""
      → result.tx_id ≡ ""
      → Evidence env r result
  observed :
      (st : TxStatus)
      → Reported env.query env.notifier result.tx_id st
      → IsFinal env.codes result.tx_id st
      → eqb_ℤ st.status env.codes.committed ≡ true
      → result.status ≡ env.codes.text st.status
      → Evidence env r result

module _ (env : Environment) (p : ℕ) where
  observe-none :
      (r old : PendingLifecycle) (st : TxStatus) (s : State) {result : LedgerCommitResult}
      → (observe env.codes p r st s).0 ≡ (result, none)
      → Reported env.query env.notifier r.result.tx_id st
      → IsFinal env.codes r.result.tx_id st
      → Evidence env old result
  unfolding observe
  observe-none r old st s {result} h told final =
      elim (Bool-cases (eqb_ℤ st.status env.codes.committed)) [
        | inl b ↦
            let is : with_status env.codes st r.result ≡ result = ground arith in
            let same : r.result.tx_id ≡ result.tx_id = ap (λ x. x.tx_id) is in
            observed st (subst (λ x. Reported env.query env.notifier x st) same told)
              (subst (λ x. IsFinal env.codes x st) same final) b (sym (ap (λ x. x.status) is))
        | inr b ↦ absurd (ground arith)
      ]

  -- A stream that is open is the one for the transaction of the result.
  abbrev Own : PendingLifecycle → Subscription → Type 0
  Own r subscription =
      (responses : List NotificationResponse)
      → subscription ≡ waiting responses
      → subscribe_finality env.notifier r.result.tx_id ≡ waiting responses

  absent-Own : (r : PendingLifecycle) → Own r absent
  absent-Own r responses e = absurd (cc)

  await-none :
      (r old : PendingLifecycle) (wait : Bool) (subscription : Subscription) (s : State)
      {result : LedgerCommitResult}
      → Own r subscription
      → (await env wait p r subscription s).0 ≡ (result, none)
      → Evidence env old result
  unfolding await
  await-none r old wait absent s own h = absurd (ground arith)
  await-none r old wait failed_to_open s own h = absurd (ground arith)
  await-none r old false (waiting responses) s own h = absurd (ground arith)
  await-none r old true (waiting responses) s {result} own h =
      elim (Option-cases (wait_status r.result.tx_id (waiting responses))) [
        | inl e ↦ absurd (ground arith)
        | inr (st, e) ↦ elim (Bool-cases (is_final_status env.codes r.result.tx_id (some st))) [
          | inl b ↦
              observe-none r old st s {result = result} (ground arith)
                (wait_status-Reported env.query env.notifier r.result.tx_id (own responses refl) e)
                (is_final_status-IsFinal env.codes r.result.tx_id st b)
          | inr b ↦ absurd (ground arith)
        ]
      ]

  deliver-none :
      (r old : PendingLifecycle) (wait : Bool) (subscription : Subscription) (s : State)
      {result : LedgerCommitResult}
      → Own r subscription
      → (deliver env wait p r subscription s).0 ≡ (result, none)
      → Evidence env old result
  unfolding deliver
  deliver-none r old wait subscription s {result} own h =
      elim (Option-cases (submit (env.attempt r.result.tx_id))) [
        | inl e ↦ await-none r old wait subscription _ {result = result} own (rw (e, deliver) at h)
        | inr (e, k) ↦ absurd (ground arith)
      ]

  subscribed-none :
      (r old : PendingLifecycle) (subscription : Subscription) (s : State)
      {result : LedgerCommitResult}
      → Own r subscription
      → (deliver_subscribed env p r subscription s).0 ≡ (result, none)
      → Evidence env old result
  unfolding deliver_subscribed
  subscribed-none r old absent s {result} own h =
      deliver-none r old true absent _ {result = result} own h
  subscribed-none r old failed_to_open s own h = absurd (ground arith)
  subscribed-none r old (waiting responses) s {result} own h =
      deliver-none r old true (waiting responses) _ {result = result} own h

  send-none :
      (r : PendingLifecycle) (wait : Bool) (tx : String) (s : State) {result : LedgerCommitResult}
      → prepare_lifecycle_transaction env.ledger env.endorse r.definition r.operation.event ≡ ok tx
      → (send env wait p r tx s).0 ≡ (result, none)
      → Evidence env r result
  unfolding send
  send-none r wait tx s {result} k h = elim (Bool-cases (tx == "")) [
    | inl b ↦
        let blank : tx ≡ "" = (eq_iff _ _).0 b in
        unneeded (k ∙ ap ok blank)
          (sym (ap (λ (x : Outcome). x.0.tx_id) (rw (b, send) at h)) ∙ blank)
    | inr b ↦ elim (Bool-cases wait) [
      | inl w ↦
          subscribed-none (record r { result = with_tx env r tx }) r
            (subscribe_finality env.notifier tx) s {result = result} (λ responses e. e)
            (ground arith)
      | inr w ↦
          deliver-none (record r { result = with_tx env r tx }) r false absent
            (write p (record r { result = with_tx env r tx }) s) {result = result}
            (absent-Own (record r { result = with_tx env r tx })) (ground arith)
    ]
  ]

  check_again-none :
      (r : PendingLifecycle) (s : State) {result : LedgerCommitResult}
      → (check_again env p r s).0 ≡ (result, none)
      → Evidence env r result
  unfolding check_again
  check_again-none r s {result} h =
      elim (Option-cases (query_transaction_status env.codes env.query r.result.tx_id)) [
        | inl e ↦ absurd (ground arith)
        | inr (o, e) ↦ elim (Option-cases o) [
          | inl n ↦ absurd (ground arith)
          | inr (st, k) ↦
              observe-none r r st s {result = result} (ground arith)
                (query_status-Reported env.codes env.query env.notifier r.result.tx_id
                  (e ∙ ap some k))
                (query_status-IsFinal env.codes env.query r.result.tx_id (e ∙ ap some k))
        ]
      ]

  start-none :
      (r : PendingLifecycle) (wait : Bool) (s : State) {result : LedgerCommitResult}
      → (start env wait p r s).0 ≡ (result, none)
      → Evidence env r result
  unfolding start
  start-none r wait s {result} h =
      elim (Result-cases
        (prepare_lifecycle_transaction env.ledger env.endorse r.definition r.operation.event)) [
          | inl (e, k) ↦ absurd (ground arith)
          | inr (tx, k) ↦ send-none r wait tx s {result = result} k (rw (k, start) at h)
        ]

  -- When advanceLifecycleTransaction reports no error for an operation, then either the operation
  -- had the committed status already, or the preparation found that the ledger needs no
  -- transaction, or the query service's answer or the notification stream for exactly the
  -- transaction of the result has a status of it, with a known code, that it is committed.
  pub advance-committed :
      (wait : Bool) (s : State) {t : State} {result : LedgerCommitResult}
      → advance env wait p s ≡ ((result, none), t)
      → (r : PendingLifecycle) × (get_elem? s.heap p ≡ some r) × Evidence env r result
  unfolding advance
  advance-committed wait s {t} {result} h = elim (Option-cases (get_elem? s.heap p)) [
    | inl e ↦ absurd (ground arith)
    | inr (r, e) ↦ elim (Bool-cases (r.result.status == env.codes.text env.codes.committed)) [
      | inl b ↦ (r, e, already (ground arith) b)
      | inr b ↦ elim (Bool-cases (r.result.tx_id == "")) [
        | inl n ↦ (
          r,
          e,
          start-none r wait s {result = result} (ap (λ x. x.0) (rw (e, b, n, advance) at h)),
        )
        | inr n ↦ (
          r,
          e,
          check_again-none r s {result = result} (ap (λ x. x.0) (rw (e, b, n, advance) at h)),
        )
      ]
    ]
  ]

find-delete :
    (op : LifecycleOperation) (table : List (LifecycleOperation × ℕ))
    → find_operation op (delete_operation op table) ≡ none
unfolding find_operation delete_operation
find-delete op [] = refl
find-delete op ((o, q) ∷ rest) = elim (Bool-cases (operation_eq o op)) [
  | inl b ↦ rw b (find-delete op rest)
  | inr b ↦ rw b (rw b (find-delete op rest))
]

-- A removed operation is no longer current.
remove-gone : (p : ℕ) (s : State) → is_current p (remove_operation p s) ≡ false
unfolding is_current remove_operation
remove-gone p s = elim (Option-cases (get_elem? s.heap p)) [
  | inl e ↦ ground arith
  | inr (r, e) ↦ elim (Option-cases (find_operation r.operation s.table)) [
    | inl n ↦ ground arith
    | inr (q, n) ↦ elim (Bool-cases (nat_eq q p)) [
      | inl b ↦ ground (arith, find-delete r.operation s.table)
      | inr b ↦ ground arith
    ]
  ]
]

module _ {Identity : Type 0} (srv : Server Identity) (env : Environment) (p : ℕ) where
  -- What a finalization has found and done for the operation `r`.
  abbrev pub IsSettled : PendingLifecycle → Option CommittedDefinition → Store → Store → Type 0
  IsSettled r none before after =
      (d : LedgerDefinition) × (read_lifecycle_definition env.ledger r.definition ≡ ok (some d))
      × (is_newer r (some d) ≡ true)
      × (after ≡ before)
  IsSettled r (some c) before after =
      Confirmed srv r.definition (is_initialized_event r.operation.event)
      × Includes r.definition (view after r.definition.name)

  settled-ok :
      (r : PendingLifecycle) (s : State) (store : Store)
      (x : (Result Code CommittedDefinition × DefinitionPropagation) × Store)
      {o : Option CommittedDefinition} {b : State × Store}
      → reconcile_definition srv r.definition
          (is_initialized_event r.operation.event)
          r.propagation
          store
        ≡ x
      → settled p r x s ≡ (ok o, b)
      → IsSettled r o store b.1 × (is_current p b.0 ≡ false)
  settled-ok r s store ((err e, left), after) k h = absurd (ground arith)
  settled-ok r s store ((ok c, left), after) {o} {b} k h =
      let (confirmed, included, spread) =
        reconcile_definition-ok srv r.definition (is_initialized_event r.operation.event)
          r.propagation store k in
      let it : some c ≡ o = ground arith in
      let end : (remove_operation p (write p (record r { propagation = left }) s), after) ≡ b =
        ground arith in
      (
        subst (λ (x : Option CommittedDefinition). IsSettled r x store b.1) it
            (
              confirmed,
              subst (λ (x : State × Store). Includes r.definition (view x.1 r.definition.name)) end
                  included,
            ),
        subst (λ (x : State × Store). is_current p x.0 ≡ false) end (remove-gone p _),
      )

  superseded-ok :
      (r : PendingLifecycle) (s : State) (store : Store) (found : Option LedgerDefinition)
      {o : Option CommittedDefinition} {b : State × Store}
      → read_lifecycle_definition env.ledger r.definition ≡ ok found
      → is_newer r found ≡ true
      → o ≡ none
      → b ≡ (remove_operation p s, store)
      → IsSettled r o store b.1 × (is_current p b.0 ≡ false)
  superseded-ok r s store none k n is end = cc
  superseded-ok r s store (some d) k n is end = rw (is, end) ((d, k, n, refl), remove-gone p s)

  -- When a finalization succeeds, its operation is no longer in the table. Either the ledger has a
  -- newer definition of the name, and the lifecycle store is left alone; or the server's ledger
  -- confirms the definition and the store's active definition of the name is no older.
  pub finalize-ok :
      (s : State) (store : Store) {o : Option CommittedDefinition} {b : State × Store}
      → finalize srv env p (s, store) ≡ (ok o, b)
      → (r : PendingLifecycle) × (get_elem? s.heap p ≡ some r)
        × IsSettled r o store b.1
        × (is_current p b.0 ≡ false)
  unfolding finalize
  finalize-ok s store {o} {b} h = elim (Option-cases (get_elem? s.heap p)) [
    | inl e ↦ absurd (ground arith)
    | inr (r, e) ↦ elim (Result-cases (read_lifecycle_definition env.ledger r.definition)) [
      | inl (x, k) ↦ absurd (ground arith)
      | inr (found, k) ↦ elim (Bool-cases (is_newer r found)) [
        | inr n ↦
            let (settles, gone) =
              settled-ok r s store _ {o = o} {b = b} refl (rw (e, k, n, finalize) at h) in
            (r, e, settles, gone)
        | inl n ↦
            let (settles, gone) =
              superseded-ok r s store found {o = o} {b = b} k n (ground arith) (ground arith) in
            (r, e, settles, gone)
      ]
    ]
  ]
