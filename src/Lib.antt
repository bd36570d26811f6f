-- ===== src/Lib.antt =====
-- Verification of the Hostlet control plane (crates/control) and of its shared contract
-- (crates/protocol), and of the backup archives of the database worker (crates/database).
--
-- The control plane is an HTTP service over one PostgreSQL database. Owners create and cancel jobs;
-- workers lease jobs, keep their leases alive, read the secrets that a job binds, and report an
-- outcome. All state is rows; every handler is one transaction that locks the rows it works on.
--
-- Files:
--   Base, Base/*        shared tests, lists, text (a Rust `str` as its Unicode scalar values) and
--                       tables: SELECT, UPDATE and how a table grows under its primary key.
--   Api                 crates/control/src/error.rs: `ApiError`, a result type.
--   Api/Transactions, Api/Answers
--                       transactions of the handlers, and how to argue about those that answer, fail
--                       or end.
--   Jobs/Model          the rows of the tables (migrations/0003_jobs_secrets.sql, `JobRow`).
--   Jobs/Messages       requests and responses; `Env`, what third-party code computes.
--   Jobs/Checks         constants and request checks (`valid_worker_id`, `valid_outcome`).
--   Jobs/Store          the SQL that several handlers share (`load_job`, `worker_audit`).
--   Jobs/Intent         crates/control/src/intent.rs: idempotency keys, If-Match, stored answers.
--   Jobs/Create, Jobs/Cancel, Jobs/Reap, Jobs/Lease, Jobs/Complete, Jobs/Credentials
--                       the handlers `create_job`, `cancel_job`, `reap_expired`, `lease_job` and
--                       `renew_job`, `complete_job`, `resolve_credentials` (with
--                       `resolve_for_locked_live_job` of crates/control/src/secrets.rs).
--   Jobs/Steps, Jobs/CommitLaws, Jobs/StepLaws
--                       the specification: what one job may do, and its invariants.
--   Jobs/Advance, Jobs/LeaseSteps, Jobs/ReportSteps, Jobs/OwnerSteps
--                       the handlers against the specification.
--   Jobs/Machine, Jobs/Fencing
--                       all handlers as one machine, and what holds of its runs.
--   Jobs/RecordLaws, Jobs/WorkerRecords, Jobs/OwnerRecords, Jobs/IntentLaws, Jobs/CreateLaws,
--   Jobs/CancelLaws, Jobs/Retries
--                       answers that are stored under an idempotency key, and requests sent again.
--   Jobs/EffectLaws, Jobs/EffectsSame, Jobs/Outcomes
--                       the effects of jobs through all handlers.
--   Jobs/Drain          how many jobs the reaper takes off the list.
--   Jobs/LeaseLaws      the choice of the job to lease.
--   Jobs/SecretLaws, Jobs/ReleaseLaws
--                       the secrets that are given out, and to whom.
--   Jobs/Samples, Jobs/Tests, Jobs/AnswerTests, Jobs/SecretTests
--                       small runs.
--   Admission/Model, Admission/Messages
--                       the tables, requests and responses of crates/control/src/admission.rs.
--   Admission/Store, Admission/Context, Admission/Receipts
--                       the statements and checks that its handlers share (`pool_slot_use`,
--                       `expire_holds_for_scope`, `validate_source_proof`, `fixture_replay`).
--   Admission/Hold, Admission/Admit, Admission/Capacity, Admission/Proofs, Admission/Observe,
--   Admission/Usage, Admission/Queries
--                       the handlers `create_hold`, `admit`, `put_capacity_fixture` and
--                       `put_entitlement_fixture`, `put_source_proof`,
--                       `record_resource_observation`, `record_build_usage`, and the queries with
--                       `reconcile`.
--   Admission/Machine   all of them as one machine.
--   Admission/Limits, Admission/Meter
--                       the condition on capacity and the one on build seconds, and how statements
--                       on single tables keep them.
--   Admission/HoldLimits, Admission/AdmitLimits, Admission/CapacityLimits, Admission/AdmitKeeps,
--   Admission/FixtureKeeps, Admission/ObserveKeeps, Admission/UsageKeeps, Admission/Safety
--                       the handlers and their runs against these conditions.
--   Admission/AdmitLaws, Admission/FailLaws
--                       admissions that answer and that fail.
--   Admission/ReceiptKeeps, Admission/ReceiptEvents, Admission/ReceiptRuns, Admission/ReceiptLaws
--                       the receipts of events through the handlers, and events that are sent again.
--   Admission/Samples, Admission/Tests
--                       small runs.
--   Archive/Format      the pieces of the backup format of crates/database/src/archive.rs.
--   Archive/Seal, Archive/Open, Archive/Repository
--                       the file that `seal` writes, the one that `authenticate_to` reads, and the
--                       repository with `seal`, `authenticate_to` and `expire`.
--   Archive/HexLaws, Archive/RoundTrip, Archive/FileRoundTrip
--                       what the pieces, the chunks and a file read back as.
--   Archive/OpenLaws    that reading ends.
--   Archive/RepositoryLaws, Archive/SealLaws
--                       sealing in the repository, once and again.
--   Archive/ExpireLaws  what an expiry removes.
--   Archive/Samples, Archive/Tests
--                       a small cipher and runs.
--   Runtime/Receipt, Runtime/Store, Runtime/Observe, Runtime/Record
--                       crates/control/src/runtime_policy.rs: executor receipts and their validation,
--                       the evidence store, the transitions of an allocation, and the handler
--                       `record_observation`.
--   Runtime/Steps       what observations may do to the tables, and the handler against it.
--   Runtime/Lives, Runtime/History
--                       allocations through runs of the handler.
--   Runtime/Again, Runtime/Resend, Runtime/Retries
--                       observations that are sent again.
--   Runtime/Evidence, Runtime/Healthy
--                       the receipts on which states are recorded.
--   Runtime/Tests       a runtime that starts and stops.
--   Project/Spec        the project contract of crates/protocol/src/project.rs.
--   Project/Issues, Project/Paths, Project/Services, Project/Resources, Project/Validate
--                       its validation: each check gives the list of the issues that the code pushes
--                       (`StandardProjectSpec::validate`, `validate_services`, `safe_relative_path`).
--   Project/Benchmarks  the adopted limits, one for each kind of resource.
--   Project/IssueLaws, Project/PathLaws, Project/TallyLaws, Project/ServiceLaws,
--   Project/ResourceLaws, Project/ResourceChecks, Project/PlaceLaws
--                       an independent description of accepted projects, and the code against it.
--   Project/Tests       a project that is accepted.
--
-- How the code is read. A handler is a function of the database, of its request, of the readings of
-- the database's clock in the order in which its statements take them, and of the fresh UUIDs that
-- it draws; it returns the new database and the answer. A rollback returns the database that the
-- transaction began with, and an `Err` after a commit returns the committed one. Interleavings are
-- lists of requests, since the row locks put transactions on one job in an order; rows that another
-- transaction holds locked (SKIP LOCKED) do not arise. INSERTs check the primary key and the UNIQUE
-- constraints and fail with `database_unavailable`; the CHECKs are not tests in the model,
-- but for the one on the reasons of runtime_observations; the one on the size of its safe_receipt
-- is among those left out. Where one statement reads the clock twice, for the lease of a job and that
-- of its attempt, the two readings are one. A negative generation or fence in a request
-- to record an observation, which matches no allocation, is left out.
-- In admission the foreign keys are not tests either; the conditions on the tables are proved of the
-- statements themselves. `i32` and `i64` fields of its requests are integers, negative ones included.
-- A UUID is a number, a time is a number, and counters (bigint, integer) do not overflow. The
-- reaper's 64 rounds are the code's own bound.
--
-- A backup archive is a list of bytes and its repository a list of named ones; a panic of the
-- code is a result of its own, and the source is the parts that its reads return, which do not
-- change between two readings. Opening an archive is fuelled with the length of its file and
-- one, since every chunk takes some bytes.
--
-- Third-party code is a field of `Env`: UUID text and its parser, SHA-256 over serde_json, JSON
-- of responses (encoding a response cannot fail, decoding can), AES-GCM decryption; of
-- `ArchiveEnv`: XChaCha20-Poly1305 under the key, SHA-256, JSON of a manifest; of `RuntimeEnv`:
-- the files of the evidence store, SHA-256, JSON of a receipt, the calendar.
--
-- Not modelled: the file system around archives (permissions, links, staging files, I/O errors),
-- routing, bearer tokens, the texts of errors, the owner's endpoints for secrets, and the other
-- components of the workspace (the rest of the runtime policy, compatibility, project graph,
-- releases, builds, portfolio, GitHub, builder, the rest of the database worker, runtime worker,
-- publisher).
pub mod Admission
mod Base
pub mod Api
pub mod Jobs
pub mod Project
pub mod Archive
pub mod Runtime
