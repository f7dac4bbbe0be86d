-- ===== src/Orchestrator/Synchronization/Coverage.antt =====
-- After a synchronization no definition of the ledger's index is missing.
use fabric_x_chaincode_compa.Prelude.{
  ℕ, zero, suc, ◌+◌, ◌≤◌, ◌<◌, ◌≡◌, sym, subst, ap, inl, inr, String, arith, ltb, Bool-cases,
}
use fabric_x_chaincode_compa.Prelude.Exec.{
  Result, Result-cases, ok, err, Keeps, Keeps-pure, Keeps-fail, Keeps-bind, pure, fail, bind-ok,
  pure-ok,
}
use fabric_x_chaincode_compa.Lifecycle.Store.State.{Store, M}
use fabric_x_chaincode_compa.Lifecycle.Store.Commits.{upsert_committed_from_ledger}
use fabric_x_chaincode_compa.Lifecycle.Store.Revisions.{view, Advances, Advances-IsOrder}
use fabric_x_chaincode_compa.Lifecycle.Store.History.{upsert_committed_from_ledger-Safe}
use fabric_x_chaincode_compa.Lifecycle.Ledger.{LedgerDefinition, from_ledger}
use fabric_x_chaincode_compa.Lifecycle.Store.Inclusion.{Includes, Includes-Later, update-Includes}
use fabric_x_chaincode_compa.Orchestrator.LedgerRows.{Service}
use fabric_x_chaincode_compa.Orchestrator.Synchronization.Loop.{
  Error, of_result, wrap, ledger_definition_at, hydrate_entry, hydrate_entries, high_watermark,
  sync_lifecycle_from_ledger,
}

-- What the index entry `i` leads to, as a definition.
abbrev pub IsCovered : Service → ℕ → Store → Type 0
IsCovered s i t =
    (d : LedgerDefinition) × (ledger_definition_at s i ≡ ok d)
    × Includes (from_ledger s.codec d) (view t d.name)

IsCovered-Advances :
    (s : Service) (i : ℕ) (t u : Store) → IsCovered s i t → Advances t u → IsCovered s i u
IsCovered-Advances s i t u (d, e, k) a = (
  d,
  e,
  Includes-Later (from_ledger s.codec d) (view t d.name) (view u d.name) k (a.at_name d.name),
)

module _ (now : String) (s : Service) where
  wrap-state : {A : Type 0} (m : M A) (t : Store) → (wrap m t).1 ≡ (m t).1
  unfolding wrap
  wrap-state m t = elim (Result-cases (m t).0) [
    | inl (x, e) ↦ ground arith
    | inr (a, e) ↦ ground arith
  ]

  wrapped : {A : Type 0} (m : M A) → Keeps Advances m → Keeps Advances (wrap m)
  wrapped m k = record { at = λ t. subst (Advances t) (sym (wrap-state m t)) (k.at t) }

  result-Advances : {A : Type 0} (r : Result Error A) → Keeps Advances (of_result r)
  result-Advances (ok a) = Keeps-pure Advances-IsOrder a
  result-Advances (err e) = Keeps-fail Advances-IsOrder e

  hydrate_entry-Advances : (i : ℕ) → Keeps Advances (hydrate_entry now s i)
  unfolding hydrate_entry
  hydrate_entry-Advances i =
      Keeps-bind Advances-IsOrder _ _ (result-Advances (ledger_definition_at s i)) λ d.
        Keeps-bind Advances-IsOrder _ _
          (wrapped _ (upsert_committed_from_ledger-Safe now (from_ledger s.codec d) d.initialized))
          λ _. Keeps-pure Advances-IsOrder tt

  hydrate_entries-Advances : (count i : ℕ) → Keeps Advances (hydrate_entries now s count i)
  unfolding hydrate_entries
  hydrate_entries-Advances zero i = Keeps-pure Advances-IsOrder tt
  hydrate_entries-Advances (suc count) i =
      Keeps-bind Advances-IsOrder _ _ (hydrate_entry-Advances i)
        λ _. hydrate_entries-Advances count (suc i)

  result-ok :
      {A : Type 0} (r : Result Error A) {t u : Store} {a : A}
      → of_result r t ≡ (ok a, u)
      → (r ≡ ok a) × (u ≡ t)
  unfolding pure fail
  result-ok (ok a) h = ground arith
  result-ok (err e) h = absurd (ground arith)

  wrap-ok :
      {A : Type 0} (m : M A) (t : Store) {u : Store} {a : A}
      → wrap m t ≡ (ok a, u)
      → m t ≡ (ok a, u)
  unfolding wrap
  wrap-ok m t h = elim (Result-cases (m t).0) [
    | inl (x, e) ↦ absurd (ground arith)
    | inr (a, e) ↦ ground arith
  ]

  hydrate_entry-covers :
      (i : ℕ) (t : Store) {u : Store} → hydrate_entry now s i t ≡ (ok tt, u) → IsCovered s i u
  unfolding hydrate_entry pure
  hydrate_entry-covers i t h =
      let (d, t1, read, h1) = bind-ok (of_result (ledger_definition_at s i)) _ h in
      let (e, same) = result-ok (ledger_definition_at s i) read in
      let (c, t2, updated, h2) =
        bind-ok (wrap (upsert_committed_from_ledger now (from_ledger s.codec d) d.initialized)) _
          h1 in
      let at = update-Includes now (from_ledger s.codec d) d.initialized t1 (
        wrap-ok (upsert_committed_from_ledger now (from_ledger s.codec d) d.initialized) t1
          updated) in
      (d, e, subst (λ x. Includes (from_ledger s.codec d) (view x d.name)) (sym (pure-ok h2).1) at)

  hydrate_entries-cover :
      (count i : ℕ) (t : Store) {u : Store}
      → hydrate_entries now s count i t ≡ (ok tt, u)
      → (j : ℕ) → i ≤ j
      → j < i + count
      → IsCovered s j u
  unfolding hydrate_entries
  hydrate_entries-cover zero i t h j p q = absurd (omega arith)
  hydrate_entries-cover (suc count) i t {u} h j p q =
      let (y, t1, first, rest) = bind-ok (hydrate_entry now s i) _ h in
      elim (Bool-cases (ltb i j)) [
        | inl later ↦ hydrate_entries-cover count (suc i) t1 rest j (ground arith) (omega arith)
        | inr now ↦
            let same : i ≡ j = ground arith in
            subst (λ x. IsCovered s x u) same
              (IsCovered-Advances s i t1 u (hydrate_entry-covers i t first) (
                subst (Advances t1) (ap (λ r. r.1) rest)
                  ((hydrate_entries-Advances count (suc i)).at t1)))
      ]

  sync-Advances : Keeps Advances (sync_lifecycle_from_ledger now s)
  unfolding sync_lifecycle_from_ledger
  sync-Advances =
      Keeps-bind Advances-IsOrder _ _ (result-Advances (high_watermark s))
        λ n. hydrate_entries-Advances n 1

  pub sync_lifecycle-covers :
      (t : Store)
      → Advances t (sync_lifecycle_from_ledger now s t).1
        × ((u : Store)
            → sync_lifecycle_from_ledger now s t ≡ (ok tt, u)
            → (n : ℕ) × (high_watermark s ≡ ok n) × ((i : ℕ) → 1 ≤ i → i ≤ n → IsCovered s i u))
  unfolding sync_lifecycle_from_ledger
  sync_lifecycle-covers t = (
    sync-Advances.at t,
    λ u h.
        let (n, t1, read, h1) = bind-ok (of_result (high_watermark s)) _ h in
        let (e, same) = result-ok (high_watermark s) read in
        (n, e, λ i p q. hydrate_entries-cover n 1 t1 h1 i p (omega arith)),
  )
