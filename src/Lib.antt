-- ===== src/Lib.antt =====
-- The Fabric-X chaincode compatibility service: the parts that decide which chaincode definition
-- is active, who may change it, and what becomes of an invocation.
--
-- The program. Each organization runs an orchestrator (compatibility_service). Its lifecycle store
-- (pkg/lifecycle/store.go) mirrors the channel's chaincode definitions: packages are installed,
-- definitions approved and committed, and initialization is marked. The shared truth is on the
-- ledger; on a start the store is filled from an index there (pkg/orchestrator/lifecycle_sync.go),
-- whose records pkg/lifecycle/ledger.go encodes. Lifecycle requests are signed, and
-- pkg/lifecycle/auth.go with pkg/auth/msp.go decides who may send them. An invocation is checked
-- against the initialization of its chaincode (pkg/orchestrator/init.go), shares a record with the
-- requests of its idempotency key until it ends (pkg/orchestrator/idempotency.go), and its
-- endorsements are selected by the namespace's policy (pkg/orchestrator/endorsement_policy.go).
-- Its transaction is handed to the ordering service and its outcome recorded by
-- pkg/orchestrator/execution.go.
--
-- A commitment of a definition starts as a request to the lifecycle server (pkg/lifecycle/rpc.go).
-- The server asks the other organizations for their approvals, has its ledger backend publish the
-- definition, and then asks the other organizations to mirror it. The backend is the orchestrator
-- (pkg/orchestrator/lifecycle_ledger.go): it prepares the transaction, submits it once, keeps what
-- is pending and finishes it later, on requests and on lazy passes.
--
-- The files. All paths of the program are below compatibility_service/.
--   Prelude: tests, lists, int64 as integers, the monad of methods that may fail, and Go maps.
--   Lifecycle/Definition: ChaincodeDefinition, validateDefinition, ValidateNextSequence.
--   Lifecycle/Store: State has the tables, Table the SQL statements on one of them; Operations,
--     Commits and Listing have the methods, by the names of the source in snake case. Revisions,
--     History, Lookups, Activation, Approval, Initialization and Resolution prove what the methods
--     keep and return; LedgerUpdate and Convergence relate the ledger's updates to a specification.
--   Lifecycle/Ledger: pkg/lifecycle/ledger.go.
--   Lifecycle/Package: pkg/lifecycle/package.go as far as it reads packages; Package/Inspected proves
--     what an accepted one holds.
--   Lifecycle/Server: State and Handlers are pkg/lifecycle/rpc.go. Mirror is about
--     applyLedgerDefinition, Propagation and Publication about ReconcileDefinition and Commit,
--     Refusal and Monotone about all methods.
--   Lifecycle/Authorization: Operation, Request and Signing are pkg/lifecycle/request.go, Check is
--     auth.go; Acceptance proves what an accepted request shows.
--   Auth/Verifier: pkg/auth/msp.go.
--   Orchestrator/Idempotency: State has the store and its operations; Steps has the steps of the
--     callers as a relation.
--   Orchestrator/Endorsement: Rules has the inspection of a policy, Selection the two searches of
--     selectEndorsements.
--   Orchestrator/Synchronization: Loop is lifecycle_sync.go.
--   Orchestrator/Initialization: init.go.
--   Orchestrator/LedgerRows: lifecycleRow of lifecycle_ledger.go.
--   Orchestrator/Publication: Preparation is prepareLifecycleTransaction, Pending the table of
--     pending operations, Advance advanceLifecycleTransaction, Finalize the methods on pending
--     operations. Prepared and Visible are about the transaction, Sending and Steps about what is
--     sent, Methods makes the methods sequences of steps, Outcomes is about their results. Serving
--     puts the server of rpc.go on the orchestrator's ledger backend.
--   Orchestrator/Finality: Status has the known outcomes of execution.go and the notifications of
--     service.go, Submitter is fabricXSubmitter.Submit, Record and Submission are the functions of
--     execution.go that record an outcome and submit, Waiting is waitForTransactionStatus. Reports
--     says where a status comes from; Recorded, Passes and Submitted are about what they do to the
--     records.
--   Modules named Examples hold concrete runs.
--
-- Correspondence. A method is a function from a state to its result and the state after it; what
-- was written before an error stays written. A statement that the database refuses is one that the
-- `broken` predicate of the store names, so every error path of the methods can be taken. The
-- clock is an argument. In the idempotency store a pointer is an index into a heap of all records
-- that were made, a closed channel is a flag, and closing one twice gives no state. Each critical
-- section of its mutex is one step, in any order of callers. A context that ends is a count of the
-- checks that still pass. A pending lifecycle operation is an index into a heap too; its gate is a
-- flag, and what a caller does while it holds the gate is one step. The log of what was handed to
-- the ordering service is kept beside the state for the theorems. int64 values are integers; `+ 1`
-- on them wraps around as written.
--
-- Bounds. searchSignatureOrders recurs once for each candidate that it adds, so its fuel is the
-- number of candidates and one more. All other recursion is on the structure of the data; the loop
-- of the synchronization runs over the entries up to the high watermark.
--
-- Parameters. The MSP, certificate and protobuf libraries, Fabric's policy evaluator, JSON, URL and
-- decimal functions, paths, archives and hashes, the query service of the ledger, the packager and the
-- broadcast stream, the notifier, the remote orchestrators, the endorsement of a read-write set and
-- the callback after a commit are arguments of the definitions.
--
-- Not modelled. gRPC and command line plumbing, configuration, the streams to chaincode processes,
-- the building of packages and proposals, and the execution by the helper: they are input and
-- output, or calls into libraries. Close and ChannelID of the store have no behaviour of their own.
mod Prelude
pub mod Auth
pub mod Lifecycle
pub mod Orchestrator
