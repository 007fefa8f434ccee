-- ===== src/Lib.antt =====
-- Verification library of the football prediction crawler: a crawler that dispatches sources on a
-- schedule, runs each source under a Redis lease, retries and breaks circuits, keeps the state of
-- browser sessions, and reports runs as log lines, metrics and alerts.
--
-- The program is the Python package src/multisite_crawler. Its scheduler loop (scheduler_service.py)
-- calls the scheduler (scheduler.py), which hands due sources to a queue; a worker runs a source
-- through tasks.py, which takes the lease of locking.py and emits the events of observability.py; the
-- fetching code uses the policies of resilience.py; a page that asks for a login is recorded by
-- browser_session.py; browser_runtime.py runs an adapter's operation in a local browser, and
-- browser_artifacts.py keeps a redacted table of a page that failed; metrics.py counts runs in Redis and
-- writes them for Prometheus; alerts.py turns metrics into notifications. The tables of the collected
-- records are made by the revisions in migrations/versions.
--
-- Files:
--   Prelude      names of the libraries, lists, texts, dictionaries, results and exceptions with state
--   Patterns     the identifier patterns that several modules of the program compile
--   Moment       datetime values with a zone, their ISO texts and their differences
--   Document     a JSON value of an object in Redis
--   Store        Redis as two interfaces, without and with expiry; Store.Sample has a value of each
--   Resilience   resilience.py: Retry, Breaker, RateLimit, RedisBreaker
--   Locking      locking.py: RedisLease, the scripts and the heartbeat; World has the steps of many owners
--   Scheduler    scheduler.py, and scheduler_service.py in Scheduler.Cycle; Scheduler.Decisions has the
--                pure part: next_run_at, should_dispatch, and what a tick reads and writes
--   Session      browser_session.py: BrowserSessionManager; Session.Codec has the stored object
--   Alerts       alerts.py: AlertEvaluator
--   Observability  observability.py: RunContext, RunEvent, JsonEventFormatter and redact_value
--   Inspection   inspection.py: the daily report; Inspection.Input has the validation of its input,
--                Findings what a source without findings is like
--   Adapters     adapters/base.py: AdapterRunner; the two hash functions are parameters that may raise
--   Records      record_repository.py: RecordRepository over a table; Records.Sample has a table
--   Tasks        tasks.py: run_with_source_lease, with one logger for its messages and its events
--   Artifacts    browser_artifacts.py: Validator and Sanitizer are the two parsers, as handlers of a
--                list of calls; Writer has the files. Grammar describes the text of a redacted table by
--                itself, as an indexed data type. Erasure, Table, SelfClosing and Directory have the
--                proofs; Shape, Composition, Inside and Within follow the two parsers call by call
--                for Table, Parts and Printed what the sanitizer keeps and writes
--   BrowserRuntime  browser_runtime.py: Settings, the protocols in Host, ManagedEdgeRuntime in Run; the
--                calls of the browser are noted in a trace. Its artifact writer is that of Artifacts
--   Metrics      metrics.py: Recording has RedisMetricsStore, Rendering the Prometheus text, Lines the
--                lines of a source as they should read; Hashes is the interface of Redis, Sample a
--                value of it
--   Snapshots    failure_snapshots.py: the writer and the removal of old files
--   Migrations   migrations/versions: Revisions has the upgrades and downgrades, Schema the interface of
--                the database, Sample a value of it
-- A function of the source keeps its name, without a leading underscore. A class becomes a record of
-- its fields, and a method a function that takes the record or the store.
--
-- Conventions. Exceptions are the results `err`; code that writes and may raise keeps what it wrote
-- before the raise (Prelude.Exec). Numbers are natural numbers: a clock reading is a count of seconds,
-- or of microseconds in Moment, a delay a count of milliseconds. A ratio that the code keeps as a
-- float is an exact fraction, and a jitter draw an exact multiple of 2^-53. Texts are ASCII where the
-- code folds case or tests character classes. Redis is an interface of named laws on get, set, expiry
-- and deletion; the functions that a service or a caller provides (an operation, a dispatch callback, a
-- metric store, urllib.parse) are parameters. The one loop on a count is run_with_retry, whose
-- count is the configured number of attempts; a Redis script is one step, and the
-- interleavings of many owners are sequences of steps.
--
-- Playwright, pathlib, float, html.parser and the database behind Alembic are parameters: a function or
-- a record of operations, with laws where a theorem needs them.
--
-- Not modelled: config.py; the remaining settings and Celery tasks of
-- tasks.py, hashing.py and the demo adapter; and, as wiring or tests, database.py, mock_server.py,
-- queueing.py but QueueDepths, browser_worker.py, metrics_service.py, browser_session_cli.py and
-- migrations/env.py.
pub mod Adapters
pub mod Alerts
pub mod Artifacts
pub mod BrowserRuntime
pub mod Document
pub mod Inspection
pub mod Locking
pub mod Metrics
pub mod Migrations
pub mod Moment
pub mod Observability
pub mod Patterns
pub mod Prelude
pub mod Records
pub mod Resilience
pub mod Scheduler
pub mod Session
pub mod Snapshots
pub mod Store
pub mod Tasks
