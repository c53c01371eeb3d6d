-- ===== src/Lib.antt =====
-- The delivery path, the response actions and the identity of the agent, as a library of checked
-- models.
--
-- A finding is written to the spool before it is sent, and leaves it when the server has confirmed
-- it: the sender (internal/sender/sender.go) enqueues an envelope in the spool
-- (internal/spool/spool.go), posts it with retries, and acknowledges, rejects or keeps the entry;
-- Flush drains the spool later through the same post. The server's answers to a version mismatch
-- are decoded by protocol/error.go, next to the negotiation of protocol/version.go. Response
-- actions are normalised (protocol/response_action.go), staged in memory
-- (internal/responseactions/stage.go), and recorded in a journal on disk
-- (internal/responseactions/journal.go) while they are executed
-- (internal/responseactions/executor.go); internal/runtime/controlplane.go takes them from the stage
-- to the journal, runs them, and reports their results. An agent without an identity that the server
-- takes enrolls with a token (internal/enrollment/manager.go and pending.go), which ends with the
-- swap of its certificate and key (internal/certrenew/certrenew.go).
--
-- Prelude holds the shared helpers: tests, lists and signed integers over the native numbers, and
-- the functions of Go's packages strings, strconv and path/filepath that the source uses. Assoc is
-- a Go map with integer keys, as an association list.
-- Spool.State, Spool.Files, Spool.Retention, Spool.Queue and Spool.Drain model spool.go: State has
-- the struct and its counters (recordRemovalLocked is record_removal, persistStatsLocked is
-- persist_stats), Retention is enforceRetentionLocked, Queue is New, EnqueuePriority,
-- Acknowledge and Reject, Drain is Drain with its snapshot, in two halves before and after the
-- callback. The other modules of Spool are proofs, named for what they are about.
-- Sender.Classify, Sender.Post and Sender.Deliver model sender.go: the classification of errors,
-- postOnce and postWithRetry with the checks of a response, and deliver, Flush and the Send
-- methods.
-- Stage models stage.go with its maps and its two orders.
-- Journal.State, Journal.Entries and Journal.Operations model journal.go: validation, reading and
-- writing of entries, and the methods.
-- Executor models executor.go: Execute is Execute with its gates and its switch, Kill, Firewall,
-- Quarantine and Shell are the privileged actions (parseKillProcessPayload is
-- parse_kill_process_payload, runKillProcess is run_kill_process, and so on), Options the limits of
-- the two collections, and Outcome Go's pairs of a value and an error.
-- Control models the part of controlplane.go from stageResponseActions to
-- recordResponseActionReportError; Lifecycle is the transition system that its proofs are about.
-- Renewal models certrenew.go: Issued is ValidateIssuedPair and NeedsRenewal, Steps the steps that
-- change the files, each of which may work, fail, or be cut by a crash, Recover is recoverPair with
-- cleanupPairArtifacts, and Persist is PersistPair with replaceBackup. The trimmed paths are taken
-- to be given and different. What crypto/tls and crypto/x509 read from a pair is an argument.
-- Enrollment models manager.go of the enrollment: Backoff is shouldAttemptIdentityRecovery,
-- nextRecoveryBackoff with stableJitter, and recordRecoveryFailure; Tokens is
-- availableRecoveryMethods with its helpers and ApplyCredentialUpdate; Pending is pending.go, and
-- Recover is attemptPendingEnrollment and RecoverIdentity, one call at a time.
-- TopK models the table of the most frequent keys, TopKInt of internal/collectors/ddos/topk.go.
-- Protocol.Action, Protocol.Incompatibility and Protocol.Negotiate model the package protocol.
--
-- What the file system, the encoder, the network, the clock and the random ids answer is an
-- argument of each operation. Times are numbers of nanoseconds since Go's zero time. A
-- counter that only grows is a natural number and its overflow is not modelled; the
-- size of the handled list wraps around in 64 bits as in the source. The loops are structural
-- recursion, but for SendEvents, which has one unit of fuel more than there are events, enough
-- since each round takes at least one event. The loops that the source bounds keep their bounds:
-- 128 rounds of iptables -D, and eight staged actions in a call of processResponseActions.
--
-- Not modelled: HTTP, JSON and the file system themselves, the nil receivers, the random event
-- identities, the other collectors and the configuration; of the executor, what a triage bundle and
-- an inventory snapshot collect; of the enrollment, the locks and EnsureInitialIdentity.
pub mod Prelude
pub mod Assoc
pub mod Protocol
pub mod Stage
pub mod Spool
pub mod Sender
pub mod Journal
pub mod TopK
pub mod Executor
pub mod Control
pub mod Renewal
pub mod Enrollment
