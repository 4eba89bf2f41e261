-- ===== src/Lib.antt =====
-- O_Rabbit moves tables from source databases into Iceberg tables on object storage. A master
-- keeps jobs, runs, tasks and attempts in SQLite and leases tasks to workers over gRPC; a worker
-- reads one partition of the source, uploads Parquet files and reports a result; the master then
-- commits the run and queues its registration with a catalog. The core of this is who may do
-- what, and that each row is exported once: which master may write, which runs are active, which
-- worker holds a task, whose result counts, how many upload at a time, who publishes a run, which
-- rows each task reads, and where the next run resumes. This library models those parts and
-- proves them correct.
--
-- The parts and the files that model them:
--
-- - Table.antt, Table/: the SQL statements of the store (SELECT, COUNT, EXISTS, UPDATE ... WHERE)
--   on tables as lists of rows, and their laws. Store.antt, Store/: the tables that are shared
--   (internal/db/migrate.go, internal/db/store_tasks.go, store_runs.go), the artifact rows with
--   the constraints of their table, the uploads, cleanup candidates and registrations that runs
--   write, the events of attempts and runs, and results of transactions. An operation is a
--   function from the database to a result with the new database; an error carries none, as the
--   transaction is rolled back.
-- - Lease.antt, Lease/ (internal/db/attempts.go): Policy is LeasePolicy.normalized and
--   retryBackoff; Select is the query, and Assign the transaction, of
--   AssignNextPendingTaskInPool; Renew is RenewTaskLease, UpdateTaskProgressFencedAt and
--   CancelActiveAttempts; Expire is ExpireTaskAttempts; Judge and Complete are
--   completeTaskAttemptAt with resultDigest, and Classes is ClassificationFromMessage
--   (internal/artifact/failure.go); Abandon is AbandonTaskAttemptWithPolicy; Reject is
--   InsertAttemptRejectionEvent. WellFormed, Preserve, PreserveResults, PreserveAssign and
--   AssignLaws are about the invariant, Extends and ExtendsSteps about what no operation changes,
--   Steps about histories of operations, and Fencing, Stale, Accepted, Once, SweepRounds, Sweep,
--   Given and Serving about single guarantees.
-- - Runs.antt, Runs/ (internal/db/store_runs.go, run_admission.go, run_failure.go,
--   commit_reconciliation.go): Admit is CreateRun, FindActiveRunByDatasetKey, admitRunTx,
--   AdmitPendingRuns and FailAbandonedPlanningRuns; Cancel is CancelRun with
--   createCanceledObjectCandidatesTx (internal/db/canceled_objects.go); Finalize is
--   TryFinalizeRun, taskFailureSummary and RecordRunFailure; Register is ensureRegistrationTx
--   (internal/db/registrations.go); Commit is SaveCommitIntent, SetCommitPhase and
--   CompleteRunCommit; Claim is ClaimCommittingRun, RenewCommitClaim, ReleaseCommitClaim,
--   ListCommittingRunIDsAt and RecordCommitReconciliationFailure. Life is the life cycle of a run
--   as an abstract machine, Consistent is about its invariant, Refine, RefineCommit and Leases
--   about single operations as moves of it, Steps about histories of operations on runs and
--   leases, and Capacity, CancelLaws, Exclusive, Decide, Outcomes and Completion about single
--   guarantees.
-- - Leadership.antt, Leadership/ (internal/db/leadership.go): Row is AcquireLeadership,
--   RenewLeadership, ReleaseLeadership, AssertLeadership and RecordLeadershipEvent; Fence is
--   ActivateLeadershipFence; Controller is LeadershipController, with its goroutine as a tick that a stop may
--   interrupt;
--   Terms is about histories of these.
-- - Uploads.antt, Uploads/ (internal/db/upload_capacity.go): Slots is AcquireUploadCapacity and
--   ReleaseUploadCapacity, which check the attempt by the conditions of a lease; Grants and
--   Capacity are about their histories.
-- - Planning.antt, Planning/: Split is SplitCursorRange (internal/connectors/source.go) and
--   buildOrderedCursorRangeTasks (internal/planner/autotune.go); Ranges is about the ranges of
--   the tasks.
-- - TypeSystem.antt, TypeSystem/ (internal/typesystem/kind.go, logical_type.go, logical_field.go,
--   parser.go): the logical types and their constructors; Print is String, Validate is Validate,
--   and Parse/ is ParseType, with one function for each method of typeParser. Bytes has what the
--   parser takes from packages strings, strconv and unicode; Equal is Equal and its theorem.
--   Printable, Numbers, RoundTrip, Records and ParsePrint are about parsing what was printed, and
--   Fuel, Scalars and Terminates about the end of the parser.
-- - LogBuffer.antt, LogBuffer/ (internal/logbuffer/buffer.go): Ring is New, add and LatestSeq,
--   and Query is Query with matches and canonicalLevel; Recent is about the ring as a bounded
--   list, and Search about queries on it.
-- - RateLimit.antt, RateLimit/ (internal/ratelimit): ClientIp is ClientIP of clientip.go, and
--   Forged about hops that a client made up; Limiter is New, Allow and Exhausted of limiter.go,
--   and Bounded about the number of its keys.
-- - Boundary.antt, Boundary/ (internal/hwmboundary): Tracker is the tracker of a task's rows,
--   State is PlanSkip and ForState; Kept, Largest, Observed and Exact are about them.
-- - Tests.antt, Tests/: concrete databases, masters, rows, ranges, types, logs, clients and
--   limits, with runs of the operations.
--
-- Conventions. Ids, tokens, worker names, pools and hashes are numbers, since the code only
-- compares them; 0 is the empty text. A timestamp is a number of nanoseconds, or of milliseconds
-- for leadership. In the texts of types a byte is a number; the parser
-- tests single bytes, and TrimSpace decodes their UTF-8. A duration is an int64 bit pattern
-- where the code computes it, and otherwise a number. SHA-256 is a parameter, a function of the
-- parts that the source joins; nothing is assumed of it. The decoding of JSON, the cipher of
-- stored configurations, lower-casing and the wording of a failure summary are parameters as
-- well, and so are the addresses of net/netip and the buckets of golang.org/x/time/rate. Random
-- ids and tokens are arguments; what needs them to be new says so. Loops are structural recursion
-- on their lists, or on their number of rounds. Only the parser of types, whose calls nest, takes
-- fuel: the bytes of its input and one, since each call reads a name first.
--
-- Not modelled: SQLITE_BUSY retries and other failures of SQLite; foreign keys; the validation
-- and sorting of artifact records before a result is recorded; StartRunWithTasks and the writing
-- of tasks; UpdateRunStatus, which writes any status but SUCCEEDED to any run, and so is outside
-- of the life cycle that the operations above keep; the registration of a commit after it is
-- queued, the Iceberg commit itself, the cleanup of canceled objects after they are found; the
-- HTTP and gRPC layers, connectors, Parquet and object storage, conversions of values; the choice
-- of the number of tasks; the parsing of cursor values, and the hash of a row; the subscribers of
-- the log buffer and the conversion of slog records; the texts of errors.
pub mod Prelude
pub mod Table
pub mod Store
pub mod Lease
pub mod Runs
pub mod Leadership
pub mod LogBuffer
pub mod RateLimit
pub mod Boundary
pub mod Uploads
pub mod Planning
pub mod TypeSystem
pub mod Tests
