-- ===== src/Lib.antt =====
-- The Go services of a hiring platform: the recorded events of interview sessions, what is derived
-- from them, and the monthly invoices of the companies.
--
-- Events (internal/events): the event types, the envelope and the payloads that others read.
--
-- EventStore (internal/store/postgres, internal/outbox). Every event of an interview gets its next
-- sequence number in the transaction that records it, and waits in the outbox until the relay has
-- handed it to the broker. A transaction is a function from the tables to the tables after it and
-- its result; one that returns an error returns the tables as they were.
--   EventStore/Tables    the tables
--   EventStore/Sequence  allocateSequence, RecordEvents, RecordDiff
--   EventStore/Sessions  StartSession
--   EventStore/Scores    SaveScore, ScoreExists
--   EventStore/Outbox    insertOutbox, Drain, NewMessage
--   EventStore/Trace     sequences of transactions and relays
-- Allocation, Numbers, Numbering, Written, Transactions, Relay, Delivery, Diffs, Once and Invites hold the lemmas and theorems.
--
-- Metrics (internal/scoring/metrics/metrics.go): Compute and Dedupe, with a state of the loop
-- variables. Canonical and Bounds hold the theorems.
--
-- Scoring (internal/scoring). The consumer reads the events that end a session and calls
-- `Service.Score`, which waits for the event log to be caught up, computes the metrics, asks for a
-- recommendation and saves the score with SaveScore of the event store.
--   Scoring/Scorer    ParseTrigger, CaughtUp, Score, recommend
--   Scoring/Consumer  handle, Run, Backoff
-- The loop of `handle` is on fuel; as much as the attempts allowed is enough. What the log and the
-- database do at each attempt is an argument. Contents, Idempotence, Retries and Backoffs hold the
-- theorems.
--
-- Live (internal/livemonitor).
--   Live/Bus   the MemoryBus (bus.go) with its rings and subscriptions
--   Live/Feed  a viewer (http.go): Live, catchUp, send, LastEventID
-- The ring at each read, the durable history, what the select finds and which writes fail are arguments.
-- Rings, Isolation, Viewing, Sending and CatchUp hold the theorems.
--
-- Access (internal/auth, internal/rbac, internal/domain).
--   Access/Policy    the roles and the matrix of permissions, Can
--   Access/Bearer    BearerToken, on the bytes of the header
--   Access/Resolver  FindSessionByTokenHash, Resolve, Middleware, Require, CanTransitionTo
-- Privilege, Tokens, Guard and Lifecycle hold the theorems.
--
-- Workspace (internal/candidateworkspace).
--   Workspace/Unidiff  countUnifiedDiff, on the bytes of a patch
--   Workspace/Diff     DiffService.Submit, validateDiff
--   Workspace/Run      RunService.Run with its lock and its two events, capOutput
-- Counts, Ordering, Recorded and Capped hold the theorems.
--
-- Gateway (internal/aigateway, internal/aigateway/byok). A completion resolves the company's key, streams
-- from the provider, wipes the key and records one event. Keys live in a heap, since they are shared by
-- pointer and overwritten in place. The resolver is its critical sections, run one after the other for one
-- caller (ResolveKey) or in any interleaving of all callers (`perform_all`).
--   Gateway/Keys       Key: NewKey, Reveal, Clone, Zeroed, Zero
--   Gateway/Request    CompleteRequest.Validate
--   Gateway/Anthropic  AnthropicProvider.Stream, finishReason, classifyAnthropicError
--   Gateway/Complete   Gateway.Complete, resolveKey, errorCode
--   Gateway/Envelope   Seal, open
--   Gateway/Cache      the critical sections of the resolver, fetch, Invalidate, Sweep, Close
--   Gateway/Resolve    ResolveKey, load, and interleavings
-- KMS, AES-GCM, the encoding of JSON, the SDK and Secrets Manager are arguments. Entries, Custody, Handing,
-- Loading, Interleaved, Performed, Lifetimes, Accounted, Recorded, Sealed and Validity hold the lemmas and theorems.
--
-- Sandbox (internal/sandbox: sandbox.go, container.go). What a specification of an execution must pass,
-- and the calls of a run with its result.
--   Sandbox/Paths  validPath, with path.Clean of a relative path, on bytes
--   Sandbox/Spec   Spec, Limits, normalize, withDefaults, within
--   Sandbox/Container  ContainerRunner.Run, limitedBuffer
-- A limit on CPUs is the integer of the bits of its float64; NaN is left out. What the engine
-- and the file system do at each call is an argument. Elements, Inside, Runnable, Output, Contained and
-- Reported hold the lemmas and theorems.
--
-- Sse (internal/sse/sse.go). Sse/Stream has the writer and the reader, on bytes; RoundTrip the theorem.
--
-- Housekeeper (internal/housekeeper, internal/store/postgres/housekeeper.go). A run lists candidates and
-- purges each: the external deletes, which a rollback does not undo, then a transaction on Postgres.
--   Housekeeper/Stores  the stores, purgeEligible, the deletes, the skeleton, purge_log
--   Housekeeper/Purge   Run, deleteExternal, Candidates, Purge
-- Others, Protected, Cleared, Erased and Retries hold the lemmas and theorems.
--
-- Pipeline (internal/eventlogwriter, internal/eventindexer). Both consumers fetch batches, write them, and
-- commit; a broker is the list of what its fetches give, and more fuel than fetches is enough. The table of
-- events is what a query with FINAL sees.
--   Pipeline/Batches    fetchBatch and Run
--   Pipeline/LogWriter  Decode, Insert and Run of the event log writer
--   Pipeline/Indexer    Decode, index and Run of the event indexer
-- Runs, Delivered, Redelivered and Indexed hold the lemmas and theorems.
--
-- Billing (internal/billing, internal/store/postgres/billing.go). `Closer.Close` reads the usage
-- and the companies, and closes each company on its own: `Price` turns usage and a price table
-- into charge lines, `ApplyCredits` adds the credit lines, `Totals` sums them, all inside the
-- transaction of `BillingStore.WriteDraft`, which finds or makes the invoice of the month, nets
-- the credits against the other invoices, and replaces the lines of a draft.
--   Billing/Pricing   ParsePriceTable, Price, perMillionCeil
--   Billing/Credits   ApplyCredits, sortCredits
--   Billing/Totals    Totals
--   Billing/Store     WriteDraft, availableCredits, IssueInvoice
--   Billing/Close     closeCompany and Close, which thread the tables through the companies
-- Rounding, Spending, Charges, InvoiceTotal, Order, Ledger, Solvency, Recompute and Closing hold
-- the lemmas and theorems.
--
-- Prelude: signed integers with the wrap-around of int64 (Prelude/Int), a stable sort by
-- insertion, which returns what sort.SliceStable and the sorts by distinct keys return
-- (Prelude/Sorting), sets of list members (Prelude/Membership), results (Prelude/Results).
--
-- Loops over slices are structural recursion. Decoding of JSON and parsing of UUIDs are
-- arguments. A Boolean says that a statement of a transaction, or its commit, fails. Identifiers
-- are numbers, and an invoice is known by its company and period. Times are counted in
-- nanoseconds from Go's zero time; the calendar is an argument.
--
-- Not modelled: the flags of a sandbox container and its HTTP service, the ingest and the Redis bus of
-- the live monitor, replay, search, the dashboard, the admin API, the flow of a prompt, HTTP, the clients
-- of Kafka, Redis, S3, ClickHouse and Typesense, generated code, and the web applications.
pub mod Prelude
pub mod Events
pub mod EventStore
pub mod Metrics
pub mod Scoring
pub mod Live
pub mod Access
pub mod Gateway
pub mod Sandbox
pub mod Sse
pub mod Housekeeper
pub mod Pipeline
pub mod Workspace
pub mod Billing
mod Examples
