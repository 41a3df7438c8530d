-- ===== src/Lib.antt =====
-- irl_notifs: a model of the delivery service (delivery-api), which takes messages from apps, sends
-- them to webhooks, Discord and ntfy, and watches heartbeat checks of jobs and sites, and of one part
-- of provisioning-api. Paths below are from the repository's root.
--
-- Base (with Tests, Lists, Int, Time, Bytes, Sorting): Go's int and int64 (integers with two's
--   complement written out), time.Time and time.Duration (nanoseconds; Sub saturates, Add of an
--   instant does not wrap), strings (lists of bytes), sorting by a test, and the tests and lemmas that
--   the parts share.
-- Heartbeat: delivery-api/internal/heartbeat.
--   Types: types.go. StoredCheck, ProbeState and the other structs are records with the fields of the
--     source, a pointer is an Option, a string of fixed values is a data type with one more
--     constructor for any other string.
--   Machine: machine.go. ApplyPing is apply_ping, AdvanceTick is advance_tick, and so on; a function
--     that returns a changed copy returns the new record. SanitizeProbeDetail is a parameter.
--     History is a sequence of such calls; Probe, Outbox, Threshold and Schedule are about it.
--   Validate, Patch: validate.go and the partial updates of types.go (ApplyPatch, mergeProbeConfig,
--     ProbeConfigChanged). Whether a URL or a body match is well formed is a parameter.
--   Flush: flush of service.go and ClearPendingAlert of pgstore.go. The rendered alert and the answer
--     of the message service are parameters.
--   Probing: runProbe and classifyProbeError of probe_eval.go, over an interface of the HTTP client, and
--     RecordProbeResult of probe_store.go on the row that it locks.
-- Message: delivery-api/internal/message.
--   Types, Status: types.go with DeriveStatus. Columns: what a row keeps of an envelope, a parameter (an
--     instance): jsonb writes a payload anew, and deliver_at is kept as a timestamptz. The other instants
--     keep their nanoseconds, which their columns cut to microseconds.
--   Lifecycle: one stored message under its row lock: the inserted rows (insertDeliveries), cancel,
--     ReplaceScheduledMessage, and what ReleaseDue and ClaimDue (pgstore_scheduled.go, pgstore.go) do to
--     a row that they have selected. Phases is an abstract machine of four phases, which Refinement and Runs
--     relate to the rows.
--   Attempts: RecordAttempt, validateAttemptResult and Replay of pgstore.go, on the locked delivery
--     row and its attempt log. The cleaning of stored texts is a parameter; a database error, which
--     leaves the row as it was, has no case of its own.
--   Table: the messages table as a list. insertOnce and insertWithRetry with the caps on scheduled messages,
--     InsertHeldMessage (pgstore_held.go) with the caps on held ones, GetMessageByKey. A second attempt of
--     an insert meets a table of its own, since the first transaction has ended. Claims is ClaimDue with
--     its selection, where the rows locked by other transactions are a parameter; Releases is ReleaseDue,
--     with the probe and the update on one table; Expiry is DeleteExpired
--     and DeleteExpiredHeld in batches, each at one instant of the table. Events is a history of such statements.
--   Equality: equality.go, over decoded JSON values; big.Rat and the decoder are parameters.
--   Validate (with Payload): validate.go and email.go, the scans of numbers and escapes byte by byte;
--     utf8, json.Valid, net/url and the functions of strings and unicode are a record of parameters.
--   Targets, Service: service.go. Submit takes the tables that its statements meet, one for each, since
--     other requests run in between, and the registry's answers; it gives the reply, the table that its
--     last statement left, and whether it woke the worker. Config: NewService and the settings. Reads: Get,
--     GetByKey, the cancels, ListDeliveries, and Await as polls of the store.
-- Registry: delivery-api/internal/registry.
--   Types, Match: the types that matching and the worker read; match.go.
--   Fields: validate.go. Service: Resolve, the patches, the rotation of a secret and the disabling of
--     service.go, with UpdateDestination of pgstore.go. Sealing and time.Format are parameters.
-- Dispatch: delivery-api/internal/dispatch.
--   Policy: policy.go. float64 enters only in the jitter and is the interface Floats: an order with
--     zero, a minimum with one, and a share of a duration that a number in [0, 1] keeps within it.
--   Worker: worker.go. process gives the effects of one claim in order (a send, the recording of the
--     result, kept or lost, the disabling of a destination); the registry, the recipient resolver, the
--     sinks and the answers to the writes of a recording are the interface Services, a panic of a sink
--     included. Pace: NewWorker, claimBackoff, record.
--   Release, Sweeper: a run of release.go, and a sweep of sweeper.go with its settings, over the table of
--     messages; the tickers are left out.
--   Retries: Decide and RecordAttempt in turn, over one delivery's life.
-- ResetLimit: delivery-api/internal/resetlimit: Reserve on the table of attempts, each statement with its
--   own reading of the clock.
-- Provisioning.Throttle: provisioning-api/internal/provisioning/attemptthrottle.go: allow and sweep on the
--   map of attempts. The mutex makes each call one step.
-- Examples: the properties at concrete inputs.
--
-- An envelope goes from Message.Service (validation, the key, the targets that Registry resolves) to
-- Message.Table (the insert); a claimed delivery goes from Message.Table.Claims through Worker (which
-- destination it means now, the send) and Policy (what the outcome means) to Attempts (the row); Status
-- reads the rows of a message.
--
-- Loops: every loop is recursion on its list or on a bound from the source. Backoff's loop runs on
-- its own counter (budgetAttempts - 1 rounds), record's on its three attempts, an insert on its two, a
-- deletion on its 200 batches of 500, a release on its 50 of 100; printing a number has fuel for 20 digits, which is enough for 64
-- bits. Await runs over the list of what its select meets (a tick, its deadline, the end of the context).
--
-- Not modelled: logging, contexts and timeouts, goroutines and tickers, SQL and HTTP themselves, the
-- list views, the services for apps and the creation and
-- deletion of destinations and routes, identities and keys, the other services.
pub mod Base
pub mod Heartbeat
pub mod Message
pub mod Registry
pub mod Dispatch
pub mod ResetLimit
pub mod Provisioning
pub mod Examples
