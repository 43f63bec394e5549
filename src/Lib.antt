-- ===== src/Lib.antt =====
-- Relay: jobs of several companies, submitted to an HTTP API and processed by worker processes that
-- share one PostgreSQL database.
--
-- The API turns each request into one transaction on the tables (api/modules/jobs/service.py). A
-- worker claims the oldest ready job under a lease, renews the lease from a second thread, listens
-- for a cancellation in a third, and ends the job with a result or a failure
-- (worker/modules/jobs/processor.py). The two sides meet only in the tables.
--
-- Prelude: the libraries' names passed on, Boolean tests, lists measured by native numbers (Lists),
--   signed integers for the quota (Int), numbers printed (Decimal), pages of a query (Pages, Every),
--   texts as code points (Text) and `str.strip` (Strip, and Trim for strings).
-- Db: the tables of db/migrations. Schema has one record for each row and the record `Db` of all
--   tables; Query has the SQL statements of the Python code as functions; Laws, Counts and Local are
--   their lemmas.
-- Service: the methods of `JobsService`: `create_job`, `cancel_job` and `retry_job` are actions of
--   the monad in Service/Monad, whose errors are api/modules/jobs/errors.py. Submission, Serial,
--   Transitions and Isolation are what they promise.
-- Worker: the transactions of processor.py: `recover_stale_jobs`, `_claim_next` (claim_next),
--   `_finalize`, `_acknowledge_cancellation`, `_record_failure`, `_renew_lease`. Queue, Leases,
--   Fencing and Quota are what they promise. Worker/Process is `process_next`, whose threads are a
--   record `Environment` of everything that they can do to it.
--   Heartbeat is the loop that renews the lease. Worker/Monitor is `cancellation_monitor`: its thread,
--   its caller and the cancelling transactions as a transition system; Watch is the watch that it
--   refines (Causes, Refines), Heard and Liveness are about what it hears, Placed, Supervised and
--   Joined about the end of its thread and the connection that it gives back.
--   Loop, Wait and Worker/Main are worker/main.py: `drain`, the sleep of an idle worker, and `main`.
-- Service/Reads and Admin: list_jobs, count_jobs, get_job and get_result of the service, and
--   api/modules/admin/service.py; Admin/Routes is api/modules/admin/routes.py.
-- Http: the handlers of api/modules/jobs/routes.py: the service's result becomes a status, and the
--   connection commits or rolls back. Http/Schemas is api/modules/jobs/schemas.py: the texts and
--   ranges that a request may have, and the validation of the answers.
-- Auth: api/modules/auth/context.py, whose header becomes the context of a request, with pydantic's
--   validation as a parameter.
-- Config: {api,worker}/shared/config/env.py, with the file system as a parameter; Config/Settings is
--   settings.py and the pool of {api,worker}/shared/db/pool.py, with pydantic's parsing as a parameter.
-- Gateway: api/shared/http/graceful_shutdown.py and the middleware of api/main.py: the gate that each
--   request passes, its drain (Drain) and the lifespan around it (Lifespan), which requests are
--   logged (Logs), the events of {api,worker}/shared/logging/wide_event.py (Events, and Printed for
--   the lines that they print), and the filter of the access log (Filters).
-- Migrations: api/shared/db/migrate.py, with the execution of SQL as a parameter; Lock has several
--   processes that call `run_migrations` at once, over the advisory lock.
-- Invariant: what holds of the tables between transactions, and that every transaction keeps it.
-- System: the tables and the workers' claims as a transition system, with crashes and time; Lifecycle
--   is the state diagram of a job over its steps and the store of jobs that the system refines
--   (System/Lifecycle/Abstract), Fits keeps what the validation of an answer asks
--   of a row, from the text of a request on (System/Fits/Submitted).
-- Tests: concrete tables, and runs on them.
--
-- A transaction is atomic, and `Db.now` is its start. `create_job` takes what other transactions
-- commit while it waits for the company's row; FOR UPDATE SKIP LOCKED takes the set of rows that
-- other transactions hold. Times are microseconds. A statement by primary key takes the first row
-- with that key; that there is no second one, and that the unique indexes hold, is part of the
-- invariant and not assumed. The quota is an integer without bounds, where the column is 32 bits.
-- A LIMIT, an OFFSET or a company's number beyond 9223372036854775807 is an exception of the lists
-- that read pages, which their handlers answer with 500. Dead letters of one time have no order in
-- the query: `list_dead_letters` takes any.
-- The ten slices of simulated work are eleven tests of the cancellation token. Four loops run on
-- fuel. `drain` needs more than the number of queued jobs (Worker/Loop); `_wait_for_work` needs 31
-- turns, one for each second of the longest poll timeout and one more, `_reconnect_listener` the
-- turns before a server accepts or the shutdown is set (Worker/Main/Waits), and `main` the turns
-- before the shutdown is set (Worker/Main/Keeps).
--
-- `process_next` takes any behaviour of its threads as an `Environment`; what the cancellation
-- monitor can do is Worker/Monitor, and the two are not composed.
--
-- Not modelled: errors of the connection but those that `main` catches, metrics but the count of
-- wake-ups, the command line of the migrations, the documentation pages and the texts of the
-- OpenAPI document, the CORS middleware, the web client.
-- The loss of a connection in the middle of a migration that is not transactional is not modelled.
-- Columns that no Python statement reads or writes are left out, and so is the waiting time that
-- `_claim_next` observes for a metric.
pub mod Prelude
pub mod Db
pub mod Service
pub mod Worker
pub mod Invariant
pub mod Admin
pub mod Migrations
pub mod Http
pub mod Auth
pub mod Config
pub mod Gateway
pub mod System
mod Tests
