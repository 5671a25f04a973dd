-- ===== src/Lib.antt =====
-- Verification library of NurProxy.
--
-- NurProxy is an orchestrator with agents: an agent watches a reverse proxy, repairs known faults
-- through a fixed diagram of operation states, and reports every operation to the orchestrator, which
-- stores its history. The parts modelled here, with paths from the repository's root:
--
-- * Base, Dict, Text, Names: what the components share. Booleans, lists and lookups; Go's maps as
--   association lists; `strings.TrimSpace`; closed string enums and their JSON decoding.
-- * Limiter (internal/shared/ratelimit/ratelimit.go): the record `Limiter` is the struct, `allow`,
--   `fail` and `reset` are its methods, and `fail` is composed of `make_room` (prune, then evict),
--   `admit` and `count_on`, which are the parts of `Fail`.
-- * RecoveryModel (internal/shared/recoverymodel/model.go): the enums, one module each, and in Report
--   the operation reports with `validate` (`OperationReport.Validate`), in States which texts are
--   read as a state, in Requests the requests, in
--   Diagnostic the diagnostics and capabilities.
-- * HelperProtocol (internal/shared/helperprotocol/types.go): enums of the privileged helper.
-- * History (internal/orchestrator/db/recovery.go): Graph has the successors of each state, the legal
--   transitions and the search over them; Reports the comparisons and validations of reports; Store
--   the tables and `AdvanceRepairOperation`; Create `createRepairOperation`. The other modules hold
--   what is proved about them: the diagram as a relation (Graph, Reachable), histories as walks along
--   it (Walk, Outcomes), one call (Cases, Advance) and any list of calls (Life). Restart has
--   `RestartDispositionFor` of internal/agent/recovery/state.go. Status has the breaker status of one
--   key, which Newest, Latching and Opening describe; Decide is about the choice that `AdvanceRepairOperation` makes.
-- * Breaker (internal/agent/recovery/breaker.go): the circuit breaker of the agent, with `allow`,
--   `record_outcome`, `close`, the write-through of `persistOrRestore`, and `load`, the
--   checks that `NewPersistentBreaker` makes of a file.
-- * Manifests and Snapshots (internal/agent/recovery/snapshot.go): `validate_manifest`, and the store
--   with `load`, `transition` and `prepare_restart`, cut at the load. Moves and Lives follow a manifest
--   through one call and through any calls, Reached has the state in which a call leaves it. The
--   coordinator's repair has the store's answers in its record `Answers`; its `Recover` runs on this
--   model.
-- * Coordinator (internal/agent/recovery/coordinator.go): `repair` is `repairLocked`, cut into `start`,
--   `consider`, `prepare`, `snapshot`, `apply_action`, `execute` and `complete` in the order of its
--   text; `rollback` is `rollbackLocked`, with `restore_state` and `conclude`; `handle_request` and
--   `auto_repair` are the callers. The record `Answers` has what the snapshot store, the path guard
--   and the backend answer. Told, Emissions, Chains and Accepted are about the reports, Phases
--   and Guarded about the order of the effects. A repair asks Breaker, and its reports meet
--   the decisions of History.Store in Accepted. Resume has `recover`, which runs on the store of
--   Snapshots, cut into one function per branch; Resumption and Kept are about its end and about the
--   manifests that it leaves. Inspect has `inspect`, the loop of `inspectLocked` and what it forgets;
--   Found is about the diagnostics that are active after it. Samples has data for the tests.
-- * Wire (internal/shared/proxymodel/wire.go): a recovery report and the validation of its envelope.
-- * Reporter (internal/agent/recovery/reporter.go): the record `BoundedReporter` is the struct. Queue
--   has `enqueue`, in the parts `key_of`, `make_way`, `verdict` and `admit`; Flush has the sections of
--   `Flush` that hold the lock as steps, `begin`, `next` up to the call of the sender and `settle`
--   after it, and the `attempts` in between; Run mixes calls and steps. Lists, Order, Fifo, Delivery,
--   Calm and Promise follow the order of an operation's reports; Lanes, Held, Entering, Bounds,
--   Steady, Admission, Remembered and Limits follow the counts of the lanes and the bounds. The coordinator's
--   `emitted` is not composed with this queue.
-- * HelperProtocol.Transitions and Journal (internal/agent/helper/journal.go): `begin_operation`, in
--   the parts `claim_grant` and `begin_record`, `transition` and `get_receipt` are the methods of the
--   helper's journal; each directory is a map of files.
--
-- The agent's breaker decides whether a repair may start; the states it runs through are those of
-- History.Graph, where internal/agent/recovery/state.go has the agent's own copy of the diagram; the
-- orchestrator validates each report with RecoveryModel.Report and then stores it by History.Store.
--
-- Times are native numbers of nanoseconds, with Go's zero time as 0. A method under a lock, or in a
-- database transaction, is one step. The clock is an argument, the outcome of a file write is an
-- argument, and `SanitizeEvidence`, which rests on regular expressions, is a parameter with no
-- assumption on it. A failed file write stands for one that changed nothing; one whose error comes
-- after the file was replaced leaves the file of a successful write, and only the answer differs. The
-- search over the diagram runs on fuel for as many rounds as there can be entries in its queue.
--
-- Not modelled: HTTP, SQL and JSON text, the file system, templates, and the external services. Of
-- the recovery subsystem, the capture and the restoring of files, the search for candidates and the
-- classification of errors are not modelled, nor are the reporter's waits and its `Run`.
pub mod Base
pub mod Breaker
pub mod Coordinator
pub mod Wire
pub mod Reporter
pub mod Samples
pub mod Manifests
pub mod Snapshots
pub mod Dict
pub mod Names
pub mod RecoveryModel
pub mod HelperProtocol
pub mod Text
pub mod History
pub mod Journal
pub mod Limiter
