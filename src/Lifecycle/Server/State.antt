-- ===== src/Lifecycle/Server/State.antt =====
-- The server of compatibility_service/pkg/lifecycle/rpc.go, its peers and its ledger backend. A
-- method acts on the lifecycle store; its errors are gRPC codes.
use fabric_x_chaincode_compa.Prelude.{
  ℕ, Bool, true, false, not, ◌&&◌, ◌||◌, Option, none, some, List, [], String, ◌==◌, if◌then◌else◌,
}
use fabric_x_chaincode_compa.Prelude.Int.{ℤ}
use fabric_x_chaincode_compa.Prelude.Exec.{Result, ok, err, Exec, pure, fail, ◌>>=◌}
use fabric_x_chaincode_compa.Lifecycle.Definition.{ChaincodeDefinition, definition_matches}
use fabric_x_chaincode_compa.Lifecycle.Ledger.{LedgerDefinition}
use fabric_x_chaincode_compa.Lifecycle.Authorization.Request.{SignedRequest, SignedFields}
use fabric_x_chaincode_compa.Lifecycle.Authorization.Check.{
  Code, Authorizer, failed_precondition, unavailable, internal_error, invalid_argument, check,
}
use fabric_x_chaincode_compa.Lifecycle.Authorization.Signing.{
  PayloadType, Signer, operation_for_payload, sign_request,
}
use fabric_x_chaincode_compa.Lifecycle.Store.State.{Store, CommittedDefinition, M}
use fabric_x_chaincode_compa.Lifecycle.Store.Commits.{upsert_committed_from_ledger}
use fabric_x_chaincode_compa.Lifecycle.Package
use fabric_x_chaincode_compa.Lifecycle.Package.{ArchiveLibraries, PackageDescriptor}

-- What a remote orchestrator answers to an internal request; `none` and `false` are its errors.
pub record Peer : Type 0 where
  pub msp_id : String
  pub check_commit_readiness : SignedRequest → Option (List (String × Bool))
  pub commit : SignedRequest → Bool
  pub mark_initialized : SignedRequest → Bool

pub record LedgerCommitResult : Type 0 where
  pub tx_id : String
  pub status : String
  pub block_num : ℕ
  pub tx_num : ℕ
  pub namespace : String
  pub key : String

abbrev pub no_result : LedgerCommitResult
no_result = record { tx_id = ""; status = ""; block_num = 0; tx_num = 0; namespace = ""; key = "" }

abbrev pub S : Type 0 → Type 0
S A = Exec Store Code A

-- The ledger backend while one request is served. `finalizer` is the method of a backend that is a
-- `LedgerFinalizer` too.
pub record Backend : Type 0 where
  pub read_definition : ChaincodeDefinition → Option (Option LedgerDefinition)
  pub commit_definition : ChaincodeDefinition → Option LedgerCommitResult
  pub finalizer : Option (ChaincodeDefinition → Bool → S CommittedDefinition)

-- What the signing of a request takes: the JSON of a payload with this definition, the random
-- bytes, the clock.
pub record SigningContext : Type 0 where
  pub signer : Option Signer
  pub body : PayloadType → ChaincodeDefinition → Option (List ℕ)
  pub random : ℕ → Option (List ℕ)
  pub now : ℤ

-- `clock` is the time that the store's methods read.
pub record Server (Identity : Type 0) : Type 0 where
  pub channel_id : String
  pub msp_id : String
  pub auth : Option (Authorizer Identity)
  pub marshal : SignedFields → Option (List ℕ)
  pub signing : SigningContext
  pub ledger : Option Backend
  pub remotes : ChaincodeDefinition → Option (List Peer)
  pub archives : ArchiveLibraries
  pub clock : String

-- A call as the server gets it, with the metadata and the two times that its check reads.
pub record Incoming : Type 0 where
  pub request : Option SignedRequest
  pub metadata : List String
  pub first : ℤ
  pub now : ℤ

pub record DefinitionPropagation : Type 0 where
  pub resolved : Bool
  pub organizations : List String

abbrev pub no_propagation : DefinitionPropagation
no_propagation = record { resolved = false; organizations = [] }

abbrev pub lift : {A : Type 0} → Result Code A → S A
lift (ok a) = pure a
lift (err e) = fail e

-- An error of the store becomes one of this code.
unfoldable pub with_code : {A : Type 0} → Code → M A → S A
with_code c m s = elim (m s).0 [ ok a ↦ (ok a, (m s).1) | err e ↦ (err c, (m s).1) ]

abbrev pub Inspection : Type 0
Inspection = Result Package.Error PackageDescriptor

abbrev pub require : Bool → Code → S (Unit {0})
require true c = pure tt
require false c = fail c

abbrev pub decoded : {A : Type 0} → Option A → Result Code A
decoded none = err invalid_argument
decoded (some a) = ok a

module _ {Identity : Type 0} where
  -- `verifyAndUnmarshal` for a payload type and its JSON decoder
  unfoldable pub verify_and_unmarshal :
      {A : Type 0} → Server Identity → Incoming → PayloadType → (List ℕ → Option A) → S (String × A)
  unfolding operation_for_payload
  verify_and_unmarshal srv call type decode s = elim (operation_for_payload type) [
    | none ↦ (err invalid_argument, s)
    | some op ↦
        elim (check srv.marshal srv.auth call.request op call.metadata call.first call.now) [
          | err e ↦ (err e, s)
          | ok msp ↦
              if not (s.channel_id == srv.channel_id)
              then (err internal_error, s)
              else elim call.request [
                | none ↦ (err invalid_argument, s)
                | some req ↦ elim (decode req.payload) [
                  | none ↦ (err invalid_argument, s)
                  | some a ↦ (ok (msp, a), s)
                ]
              ]
        ]
  ]

  unfoldable pub sign_internal :
      Server Identity → PayloadType → ChaincodeDefinition → Result Code SignedRequest
  sign_internal srv type def =
      elim (sign_request srv.marshal srv.signing.random srv.signing.signer srv.channel_id type
        (srv.signing.body type def) true srv.signing.now) [
          | err e ↦ err internal_error
          | ok req ↦ ok req
        ]

  -- The condition on the ledger's record in `applyLedgerDefinition`.
  abbrev pub confirms : Server Identity → ChaincodeDefinition → Bool → LedgerDefinition → Bool
  confirms srv def initialized d =
      definition_matches
        (record {
          name = d.name;
          version = d.version;
          sequence = d.sequence;
          init_required = d.init_required;
        })
        def
      && d.channel_id == srv.channel_id
      && (not initialized || d.initialized)

  unfoldable pub ledger_record :
      Server Identity → ChaincodeDefinition → Bool → Result Code LedgerDefinition
  ledger_record srv def initialized = elim srv.ledger [
    | none ↦ err failed_precondition
    | some backend ↦ elim (backend.read_definition def) [
      | none ↦ err unavailable
      | some none ↦ err failed_precondition
      | some (some d) ↦ if confirms srv def initialized d then ok d else err failed_precondition
    ]
  ]

  unfoldable pub apply_ledger_definition :
      Server Identity → ChaincodeDefinition → Bool → S CommittedDefinition
  unfolding ledger_record with_code
  apply_ledger_definition srv def initialized = do
    d ← lift (ledger_record srv def initialized)
    with_code internal_error (upsert_committed_from_ledger srv.clock def d.initialized)
