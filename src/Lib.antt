-- ===== src/Lib.antt =====
-- Verification of snagline: the authority that commits cases, advice and registries, the outbox that
-- carries them to the delivery stream, the registry snapshots that say who may issue and sign, and the
-- store of an edge with the consumer that fills it from the stream and recovers it from the authority.
--
-- The program and the files that model it:
--
-- - internal/authority/authority.go: Authority/Request (requests, receipts, errors, validation).
-- - internal/authority/postgres/store.go: Authority/Tables (the tables as lists of rows, newest
--   first), Authority/Sql (allocateRevision, allocateDeliverySequence, insertEdgeDelivery, recordAudit,
--   insertOutbox, registryHeadForUpdate, haltRegistryHead), Authority/Cases, Authority/Advice and
--   Authority/Registries (the bodies of CommitCase, CommitAdvice and CommitRegistry),
--   Authority/Transactions (the function transaction and the three commits through it),
--   Authority/Reads (ListEdgeDeliveries, ResolveCase, ResolveRegistry, CurrentRegistryHead) and
--   Authority/Projection (ListProjectionFacts).
-- - internal/authority/postgres/outbox.go: Authority/Outbox (Claim) and Authority/Closures
--   (MarkPublished and Release).
-- - internal/delivery/outbox/worker.go: Delivery/Request (publishRequest) and Delivery/Worker (RunOnce
--   over a record of the operations of its source, publisher, context and clock).
-- - internal/deliverystream/stream.go: Delivery/Stream (subjects, tokens, messages, consumers).
-- - internal/registry/registry.go and epoch.go: Registry/Snapshot.
-- - internal/sspedge/store.go: Edge/Vault (seal and open over a cipher.AEAD), Edge/Tables,
--   Edge/Validate (validateDelivery, tokens), Edge/Cursor (deliveryStateTx, requireReconciliationTx,
--   advanceDeliveryStateTx, RequireReconciliation, DeliveryState, CompleteReconciliation),
--   Edge/Projection (claimIdentity, persistProjection), Edge/Apply (applyVerified), Edge/Clock
--   (sqlTime as SQLite compares it) and Edge/Front (ClaimFrontDeliveries, MarkFrontDelivered).
-- - internal/sspedge/consumer.go: Edge/Consumer (routeMatches, Handle, Process) and Edge/Reconcile
--   (Reconcile); authority_reconciler.go: Edge/Fetch (FetchAfter); dispatcher_turn_store.go: Edge/Turns.
--
-- Authority/History has the reachable states: any sequence of committed bodies of valid requests,
-- operations on the outbox, and losses of revisions. Authority/Effects says once what each body may
-- do, and the invariants are inductions over these effects. Authority/Bindings, Authority/Logs and
-- Authority/Emitted hold the specifications, as do Authority/Claims for a claim and Delivery/Calls for
-- the calls of a pass. Delivery/RoutedStates and Delivery/Deliverable join the authority to the
-- worker. Scenario and LeaseScenario are the concrete runs that
-- Examples and LeaseExamples apply the theorems to.
--
-- Edge/History has the reachable states of an edge's store: any sequence of its operations, which its
-- write lock orders. Edge/Applied, Edge/Facts,
-- Edge/FrontEffects and Edge/Delivered say what an operation writes. Edge/Recovered
-- joins the authority to the edge: pages of the gapless log are batches of a reconciliation.
-- Edge/Scenario is the concrete run of Edge/Examples; Edge/TurnExamples and Edge/ReceiptExamples have
-- their own.
--
-- Bounds. The transaction loop makes at most three rounds, which are three arguments. Every other loop
-- is structural on a list of rows, items, edges or characters, so that no definition has fuel but
-- decimal, whose 20 rounds print every 64-bit number.
--
-- How the model stands to the code:
--
-- - A transaction at the isolation level serializable is a function of the committed state that it
--   began with. A body that fails leaves no state. The revisions that a failed body has taken stay
--   taken, since a PostgreSQL identity sequence is not rolled back: they are steps of their own. The
--   identity sequence is one for all tenants; the code orders the commits of one tenant by the lock of
--   its head row.
-- - int64 fields of requests are natural numbers: callers take them from verified envelopes. A time is
--   a count of nanoseconds, 0 for the zero time; that PostgreSQL keeps microseconds is not modelled.
--   Each statement reads the clock once.
-- - SHA-256, the collation of ORDER BY, the rows that other transactions lock, lease tokens and clock
--   readings are parameters. No property assumes more of them than it says.
-- - An edge's store holds one table for each table of the schema but the pending records; the turns,
--   which no other operation touches, are a table of their own. The AEAD, the nonces and tokens that
--   crypto/rand writes, the encoding/json of a case's payload, the verifier and the carrier are
--   parameters. A failing Reconcile keeps what it has committed, and its partial result is left out.
--   States and modes that only the code itself writes are data types, so that no other text stands there.
-- - UPDATE is on all rows that match; primary keys are stated as invariants where they matter.
-- - Errors of the database driver appear in the transaction loop. They are left out of the reads and of
--   the outbox, where they are returned to the caller. A connection that is lost during COMMIT leaves
--   the call with an error and without knowledge of the outcome.
-- - A Go map of edges is a list by ascending identifier, and an indexed registry is a function of names.
--
-- Not modelled: migrations and roles, the calls to JetStream, and the packages of
-- envelopes, the control API, the edge's pending records, verifier and service, the Buzz projection, the dispatcher and the commands.
pub mod Prelude
pub mod Tx
pub mod Authority
pub mod Delivery
pub mod Edge
pub mod Registry
