-- ===== src/Db/Schema.antt =====
-- The tables of db/migrations that the Python code reads and writes, one record for each row.
-- Times are microseconds (the resolution of TIMESTAMPTZ). Columns that no Python statement names
-- (created_by, metadata, the surrogate key of job_results) are left out.
use case_fullstack_senior.Prelude.{ℕ, String, Bool, true, false, Option, List}
use case_fullstack_senior.Prelude.Int.{ℤ}

-- The values that ck_jobs_status allows.
pub data Status : Type 0 where
  queued running done failed cancelled : Status

abbrev pub is_queued : Status → Bool
is_queued queued = true
is_queued _ = false

abbrev pub is_running : Status → Bool
is_running running = true
is_running _ = false

abbrev pub is_done : Status → Bool
is_done done = true
is_done _ = false

abbrev pub is_failed : Status → Bool
is_failed failed = true
is_failed _ = false

abbrev pub is_cancelled : Status → Bool
is_cancelled cancelled = true
is_cancelled _ = false

-- `status IN ('queued', 'running')`
abbrev pub is_active : Status → Bool
is_active queued = true
is_active running = true
is_active _ = false

abbrev pub same_status : Status → Status → Bool
same_status queued s = is_queued s
same_status running s = is_running s
same_status done s = is_done s
same_status failed s = is_failed s
same_status cancelled s = is_cancelled s

pub record Company : Type 0 where
  pub id : ℕ
  pub name : String
  pub max_concurrent_jobs : ℕ
  pub job_quota : ℤ

pub record Job : Type 0 where
  pub id : ℕ
  pub company_id : ℕ
  pub kind : String
  pub status : Status
  pub attempts : ℕ
  pub created_at : ℕ
  pub updated_at : ℕ
  pub trace_id : Option String
  pub last_error : Option String
  pub idempotency_key : Option String
  pub next_attempt_at : Option ℕ
  pub locked_at : Option ℕ
  pub worker_id : Option String

pub record JobResult : Type 0 where
  pub job_id : ℕ
  pub payload : String

pub data EventType : Type 0 where
  submitted cancelled retry_requested completed failed : EventType

pub record AuditEvent : Type 0 where
  pub id : ℕ
  pub job_id : ℕ
  pub company_id : ℕ
  pub event_type : EventType
  pub actor : String
  pub occurred_at : ℕ
  pub trace_id : Option String

-- The code deletes no job, so that a row keeps its job_id (ON DELETE SET NULL never fires).
pub record DeadLetter : Type 0 where
  pub id : ℕ
  pub job_id : ℕ
  pub company_id : ℕ
  pub kind : String
  pub attempts : ℕ
  pub last_error : String
  pub trace_id : Option String
  pub job_created_at : ℕ
  pub failed_at : ℕ

pub data Channel : Type 0 where
  jobs_queued jobs_cancelled : Channel

pub record Notification : Type 0 where
  pub channel : Channel
  pub payload : ℕ

-- `now` is the start of the current transaction; `next_…` are the sequences of the SERIAL keys;
-- `notifications` are the pg_notify calls, which PostgreSQL delivers at the commit.
pub record Db : Type 0 where
  pub now : ℕ
  pub companies : List Company
  pub jobs : List Job
  pub job_results : List JobResult
  pub audit_events : List AuditEvent
  pub dead_letters : List DeadLetter
  pub notifications : List Notification
  pub next_job_id : ℕ
  pub next_event_id : ℕ
  pub next_letter_id : ℕ
