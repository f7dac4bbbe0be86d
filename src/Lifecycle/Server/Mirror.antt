-- ===== src/Lifecycle/Server/Mirror.antt =====
-- What the local mirror of a definition shows about the ledger (applyLedgerDefinition of rpc.go).
use fabric_x_chaincode_compa.Prelude.{
  ◌≡◌, sym, subst, ap, inl, inr, Bool, true, not, ◌&&◌, ◌||◌, some, eq_iff, arith,
}
use fabric_x_chaincode_compa.Prelude.Exec.{
  Result, Result-cases, ok, err, pure, fail, bind-ok, Keeps, Keeps-pure, Keeps-fail, Keeps-bind,
}
use fabric_x_chaincode_compa.Lifecycle.Definition.{ChaincodeDefinition, definition_matches→eq}
use fabric_x_chaincode_compa.Lifecycle.Ledger.{LedgerDefinition}
use fabric_x_chaincode_compa.Lifecycle.Authorization.Check.{Code, internal_error}
use fabric_x_chaincode_compa.Lifecycle.Store.State.{Store, CommittedDefinition, M}
use fabric_x_chaincode_compa.Lifecycle.Store.Revisions.{view, Advances, Advances-IsOrder}
use fabric_x_chaincode_compa.Lifecycle.Store.History.{upsert_committed_from_ledger-Safe}
use fabric_x_chaincode_compa.Lifecycle.Store.Inclusion.{Includes, update-Includes}
use fabric_x_chaincode_compa.Lifecycle.Store.Commits.{upsert_committed_from_ledger}
use fabric_x_chaincode_compa.Lifecycle.Server.State.{
  Backend, Server, lift, with_code, confirms, ledger_record, apply_ledger_definition,
}

module _ {A : Type 0} where
  pub with_code-ok :
      (c : Code) (m : M A) {s t : Store} {a : A} → with_code c m s ≡ (ok a, t) → m s ≡ (ok a, t)
  unfolding with_code
  with_code-ok c m {s} h = elim (Result-cases (m s).0) [
    | inl (x, e) ↦ absurd (ground arith)
    | inr (a, e) ↦ ground arith
  ]

  pub lift-ok :
      (r : Result Code A) {s t : Store} {a : A} → lift r s ≡ (ok a, t) → (r ≡ ok a) × (t ≡ s)
  unfolding pure fail
  lift-ok (ok a) h = ground arith
  lift-ok (err e) h = absurd (ground arith)

  pub with_code-state : (c : Code) (m : M A) (s : Store) → (with_code c m s).1 ≡ (m s).1
  unfolding with_code
  with_code-state c m s = elim (Result-cases (m s).0) [
    | inl (x, e) ↦ ground arith
    | inr (a, e) ↦ ground arith
  ]

  pub lift-Advances : (r : Result Code A) → Keeps Advances (lift r)
  lift-Advances (ok a) = Keeps-pure Advances-IsOrder a
  lift-Advances (err e) = Keeps-fail Advances-IsOrder e

  pub with_code-Advances : (c : Code) (m : M A) → Keeps Advances m → Keeps Advances (with_code c m)
  with_code-Advances c m k = record {
    at = λ s. subst (Advances s) (sym (with_code-state c m s)) (k.at s);
  }

-- The ledger, as the backend reads it, has this definition on the channel.
pub record Confirmed {Identity : Type 0} (srv : Server Identity) (def : ChaincodeDefinition)
    (initialized : Bool) : Type 0 where
  pub backend : Backend
  pub configured : srv.ledger ≡ some backend
  pub record_of : LedgerDefinition
  pub read : backend.read_definition def ≡ some (some record_of)
  pub name : record_of.name ≡ def.name
  pub version : record_of.version ≡ def.version
  pub sequence : record_of.sequence ≡ def.sequence
  pub init_required : record_of.init_required ≡ def.init_required
  pub channel : record_of.channel_id ≡ srv.channel_id
  pub flag : initialized ≡ true → record_of.initialized ≡ true

module _ {Identity : Type 0} (srv : Server Identity) (def : ChaincodeDefinition)
    (initialized : Bool) where
  ledger_record-read :
      {d : LedgerDefinition}
      → ledger_record srv def initialized ≡ ok d
      → (b : Backend) × (srv.ledger ≡ some b)
        × (b.read_definition def ≡ some (some d))
        × (confirms srv def initialized d ≡ true)
  unfolding ledger_record
  ledger_record-read {d} h = ground arith

  ledger_record-Confirmed :
      {d : LedgerDefinition}
      → ledger_record srv def initialized ≡ ok d
      → Confirmed srv def initialized
  ledger_record-Confirmed {d} h =
      let (b, configured, read, test) = ledger_record-read h in
      let (both, flag) = conjunction test in
      let (matches, channel) = conjunction both in
      let same = definition_matches→eq _ def matches in
      record {
        backend = b;
        configured = configured;
        record_of = d;
        read = read;
        name = ap (λ x. x.name) same;
        version = ap (λ x. x.version) same;
        sequence = ap (λ x. x.sequence) same;
        init_required = ap (λ x. x.init_required) same;
        channel = (eq_iff _ _).0 channel;
        flag = λ asked. implied initialized d.initialized flag asked;
      }
    where
      conjunction : {a b : Bool} → a && b ≡ true → (a ≡ true) × (b ≡ true)
      conjunction h = ground arith

      implied : (a b : Bool) → not a || b ≡ true → a ≡ true → b ≡ true
      implied a b h k = ground arith

  pub apply-Advances : Keeps Advances (apply_ledger_definition srv def initialized)
  unfolding apply_ledger_definition
  apply-Advances =
      Keeps-bind Advances-IsOrder _ _ (lift-Advances (ledger_record srv def initialized)) λ d.
        with_code-Advances internal_error _
          (upsert_committed_from_ledger-Safe srv.clock def d.initialized)

  -- When the local update from the ledger succeeds, the ledger's record that the backend reads is
  -- of exactly this definition and channel, is initialized if initialization was asked for, and
  -- the store's active definition of the name is no older. Whether it succeeds or fails, no
  -- definition of the store moves back.
  pub apply_ledger_definition-ok :
      (s : Store)
      → Advances s (apply_ledger_definition srv def initialized s).1
        × ((c : CommittedDefinition) (t : Store)
            → apply_ledger_definition srv def initialized s ≡ (ok c, t)
            → Confirmed srv def initialized × Includes def (view t def.name))
  unfolding apply_ledger_definition
  apply_ledger_definition-ok s = (
    apply-Advances.at s,
    λ c t h.
        let (d, t1, recorded, updated) = bind-ok (lift (ledger_record srv def initialized)) _ h in
        let (is, same) = lift-ok (ledger_record srv def initialized) recorded in
        (
          ledger_record-Confirmed is,
          update-Includes srv.clock def d.initialized t1 (
              with_code-ok internal_error (upsert_committed_from_ledger srv.clock def d.initialized)
                updated),
        ),
  )
