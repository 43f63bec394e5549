-- ===== src/Db/Query.antt =====
-- The statements that the Python code sends, as functions on the tables.
use case_fullstack_senior.Prelude.{
  ℕ, ◌+◌, String, Bool, true, false, ◌&&◌, Option, none, some, List, [], ◌∷◌, ◌++◌, ◌==◌, str_eq,
  leb, if◌then◌else◌, count,
}
use case_fullstack_senior.Prelude.Int.{pos, ◌-ℤ◌}
use case_fullstack_senior.Db.Schema.{
  Company, Job, JobResult, EventType, AuditEvent, DeadLetter, Channel, Db, is_active,
}

-- `column = %s` on a nullable text column: NULL is equal to nothing.
-- The values that PostgreSQL has room for in a bigint; a parameter beyond them is an exception where
-- the statement casts it, and LIMIT and OFFSET do.
abbrev pub fits_bigint : ℕ → Bool
fits_bigint n = leb n 9223372036854775807

abbrev pub text_is : Option String → String → Bool
text_is none t = false
text_is (some s) t = str_eq s t

-- SELECT … FROM jobs WHERE id = k, by the primary key.
unfoldable pub find : ℕ → List Job → Option Job
find k [] = none
find k (j ∷ js) = if j.id == k then some j else find k js

-- The row with primary key k becomes j.
unfoldable pub replace : ℕ → Job → List Job → List Job
replace k j [] = []
replace k j (i ∷ js) = if i.id == k then j ∷ js else i ∷ replace k j js

-- UPDATE jobs SET f WHERE id = k AND test RETURNING …, `fetchone`
unfoldable pub update_job : ℕ → (Job → Bool) → (Job → Job) → Db → Option Job × Db
update_job k test f db = elim (find k db.jobs) [
  | none ↦ (none, db)
  | some j ↦
      if test j then (some (f j), record db { jobs = replace k (f j) db.jobs }) else (none, db)
]

unfoldable pub find_company : ℕ → List Company → Option Company
find_company c [] = none
find_company c (co ∷ cs) = if co.id == c then some co else find_company c cs

-- UPDATE companies SET job_quota = job_quota - 1 WHERE id = c
unfoldable pub charge : ℕ → List Company → List Company
charge c [] = []
charge c (co ∷ cs) =
    if co.id == c then record co { job_quota = co.job_quota -ℤ pos 1 } ∷ cs else co ∷ charge c cs

-- SELECT count(*) FROM jobs WHERE company_id = c AND status IN ('queued', 'running')
abbrev pub active_jobs : ℕ → List Job → ℕ
active_jobs c = count (λ j. j.company_id == c && is_active j.status)

abbrev pub result_count : ℕ → List JobResult → ℕ
result_count k = count (λ r. r.job_id == k)

abbrev pub letter_count : ℕ → List DeadLetter → ℕ
letter_count k = count (λ d. d.job_id == k)

abbrev pub same_event : EventType → EventType → Bool
same_event EventType.submitted EventType.submitted = true
same_event EventType.cancelled EventType.cancelled = true
same_event EventType.retry_requested EventType.retry_requested = true
same_event EventType.completed EventType.completed = true
same_event EventType.failed EventType.failed = true
same_event _ _ = false

abbrev pub event_count : EventType → ℕ → List AuditEvent → ℕ
event_count t k = count (λ e. e.job_id == k && same_event t e.event_type)

-- INSERT INTO job_audit_events
unfoldable pub insert_event : ℕ → ℕ → EventType → String → Option String → Db → Db
insert_event k c t actor trace db = record db {
  audit_events =
      db.audit_events
      ++ record {
        id = db.next_event_id;
        job_id = k;
        company_id = c;
        event_type = t;
        actor = actor;
        occurred_at = db.now;
        trace_id = trace;
      }
        ∷ [];
  next_event_id = db.next_event_id + 1;
}

-- The partial unique indexes uq_job_audit_submitted and uq_job_audit_cancelled.
abbrev pub is_indexed : EventType → Bool
is_indexed EventType.submitted = true
is_indexed EventType.cancelled = true
is_indexed _ = false

-- INSERT INTO job_audit_events … ON CONFLICT DO NOTHING
unfoldable pub insert_event_once : ℕ → ℕ → EventType → String → Option String → Db → Db
unfolding insert_event
insert_event_once k c t actor trace db =
    if is_indexed t && leb 1 (event_count t k db.audit_events)
    then db
    else insert_event k c t actor trace db

-- INSERT INTO job_results … ON CONFLICT (job_id) DO NOTHING, with its `rowcount`
unfoldable pub insert_result : ℕ → String → Db → ℕ × Db
insert_result k payload db = if leb 1 (result_count k db.job_results) then (0, db) else (
  1,
  record db { job_results = db.job_results ++ record { job_id = k; payload = payload } ∷ [] },
)

-- INSERT INTO dead_letter_jobs … ON CONFLICT (job_id) … DO NOTHING, for a row that was selected
unfoldable pub insert_letter : Job → String → Db → Db
insert_letter j error db = if leb 1 (letter_count j.id db.dead_letters) then db else record db {
  dead_letters =
      db.dead_letters
      ++ record {
        id = db.next_letter_id;
        job_id = j.id;
        company_id = j.company_id;
        kind = j.kind;
        attempts = j.attempts;
        last_error = error;
        trace_id = j.trace_id;
        job_created_at = j.created_at;
        failed_at = db.now;
      }
        ∷ [];
  next_letter_id = db.next_letter_id + 1;
}

-- SELECT pg_notify(channel, k)
unfoldable pub notify : Channel → ℕ → Db → Db
notify ch k db = record db {
  notifications = db.notifications ++ record { channel = ch; payload = k } ∷ [];
}
