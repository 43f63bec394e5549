-- ===== src/Service.antt =====
-- api/modules/jobs/service.py: the methods of `JobsService`, each an action on the tables inside
-- the transaction of its request, and api/modules/jobs/errors.py.
pub mod Monad
pub mod Cases
pub mod Submission
pub mod Serial
pub mod Reads
pub mod Transitions
pub mod Isolation
use case_fullstack_senior.Prelude.{
  ℕ, ◌+◌, ◌-◌, ◌*◌, ◌^◌, String, Bool, true, false, ◌&&◌, Option, none, some, List, [], ◌∷◌, ◌++◌,
  ◌==◌, ltb, leb, str_eq, if◌then◌else◌, select, fetchone,
}
use case_fullstack_senior.Db.Schema.{
  Status, queued, running, done, failed, cancelled, is_active, is_failed, Company, Job, EventType,
  AuditEvent, Channel, Db,
}
use case_fullstack_senior.Db.Query.{
  text_is, find, update_job, find_company, active_jobs, insert_event_once, notify,
}
use Monad.{
  Result, ok, err, Action, pure, raise, gets, modify, ◌>>=◌, ◌>>◌, JobsError, job_not_found,
  company_unknown, concurrency_limit, idempotency_key_conflict, invalid_job_state, retry_limit,
}

abbrev pub max_attempts : ℕ
max_attempts = 3

-- The columns that the statements of create, cancel and retry return; `attempts` only by the last.
pub record JobRef : Type 0 where
  pub id : ℕ
  pub status : Status
  pub attempts : ℕ

abbrev pub ref_of : Job → JobRef
ref_of j = record { id = j.id; status = j.status; attempts = j.attempts }

-- `_find_by_idempotency_key`
unfoldable pub find_by_key : ℕ → String → Db → Option Job
find_by_key c key db =
    fetchone (select (λ j. j.company_id == c && text_is j.idempotency_key key) db.jobs)

-- `_replay`, with the `False` that its callers add
unfoldable pub replay : Job → String → Action (JobRef × Bool)
replay existing kind =
    if str_eq existing.kind kind
    then pure (ref_of existing, false)
    else raise (idempotency_key_conflict existing.kind)

-- The row that the INSERT of `create_job` gives, with the defaults of its columns.
abbrev pub new_job : ℕ → String → Option String → String → Db → Job
new_job c kind trace key db = record {
  id = db.next_job_id;
  company_id = c;
  kind = kind;
  status = queued;
  attempts = 0;
  created_at = db.now;
  updated_at = db.now;
  trace_id = trace;
  last_error = none;
  idempotency_key = some key;
  next_attempt_at = none;
  locked_at = none;
  worker_id = none;
}

-- INSERT INTO jobs … ON CONFLICT (company_id, idempotency_key) DO NOTHING RETURNING id, status
unfoldable pub insert_job : ℕ → String → Option String → String → Action (Option Job)
unfolding find_by_key
insert_job c kind trace key db = elim (find_by_key c key db) [
  | some _ ↦ (ok none, record db { next_job_id = db.next_job_id + 1 })
  | none ↦
      let j = new_job c kind trace key db in
      (ok (some j), record db { jobs = db.jobs ++ j ∷ []; next_job_id = db.next_job_id + 1 })
]

-- The last statements of `create_job`: the audit event, if an actor is given, and the wake-up.
unfoldable pub submit : Job → ℕ → Option String → Option String → Action (JobRef × Bool)
submit j c none trace = do modify (notify Channel.jobs_queued j.id); pure (ref_of j, true)
submit j c (some actor) trace = do
  modify (insert_event_once j.id c EventType.submitted actor trace)
  modify (notify Channel.jobs_queued j.id)
  pure (ref_of j, true)

-- A `None` from the INSERT: another request with the same key won.
unfoldable pub submit_or_replay :
    Option Job → ℕ → String → String → Option String → Option String → Action (JobRef × Bool)
unfolding submit replay find_by_key
submit_or_replay (some j) c kind key by trace = submit j c by trace
submit_or_replay none c kind key by trace = do
  winner ← gets (find_by_key c key)
  elim winner [ none ↦ raise JobsError.missing_row | some j ↦ replay j kind ]

-- `create_job` from the second lookup on, under the lock of the company's row.
unfoldable pub create_locked :
    Company → ℕ → String → Option String → String → Option String → Action (JobRef × Bool)
unfolding submit_or_replay insert_job
create_locked company c kind trace key by = do
  existing ← gets (find_by_key c key)
  elim existing [
    | some j ↦ replay j kind
    | none ↦ do
      active ← gets (λ db. active_jobs c db.jobs)
      if leb company.max_concurrent_jobs active
          then raise (concurrency_limit company.max_concurrent_jobs active)
          else do
            inserted ← insert_job c kind trace key
            submit_or_replay inserted c kind key by trace
  ]

-- `create_job`. `others` is what other transactions commit while this one waits for the lock of
-- the company's row; the identity, if it does not wait.
unfoldable pub create_job :
    (Db → Db) → ℕ → String → Option String → String → Option String → Action (JobRef × Bool)
unfolding create_locked
create_job others c kind trace key by = do
  existing ← gets (find_by_key c key)
  elim existing [
    | some j ↦ replay j kind
    | none ↦ do
      modify others
      company ← gets (λ db. find_company c db.companies)
      elim company [
        | none ↦ raise (company_unknown c)
        | some co ↦ create_locked co c kind trace key by
      ]
  ]

-- SELECT … FROM jobs WHERE id = k AND company_id = c
unfoldable pub owned_job : ℕ → ℕ → Db → Option Job
owned_job c k db = elim (find k db.jobs) [
  | none ↦ none
  | some j ↦ if j.company_id == c then some j else none
]

-- The part of `get_job` that can raise.
unfoldable pub require_job : ℕ → ℕ → Action Job
unfolding owned_job
require_job c k = do
  row ← gets (owned_job c k)
  elim row [ none ↦ raise (job_not_found k) | some j ↦ pure j ]

abbrev pub is_cancellable : ℕ → Job → Bool
is_cancellable c j = j.company_id == c && is_active j.status

abbrev pub cancel_row : ℕ → Job → Job
cancel_row now j = record j {
  status = cancelled;
  locked_at = none;
  worker_id = none;
  updated_at = now;
}

unfoldable pub cancel_job : ℕ → ℕ → String → Option String → Action JobRef
unfolding update_job require_job
cancel_job c k by trace = do
  row ← λ db. let (r, db') = update_job k (is_cancellable c) (cancel_row db.now) db in (ok r, db')
  elim row [
    | some j ↦ do
      modify (insert_event_once k c EventType.cancelled by trace)
      modify (notify Channel.jobs_cancelled k)
      pure (ref_of j)
    | none ↦ do current ← require_job c k; raise (invalid_job_state current.status)
  ]

-- `5 * power(2, greatest(attempts, 1) - 1)` seconds, in microseconds
unfoldable pub backoff : ℕ → ℕ
backoff attempts = 5 * 2 ^ ((if ltb attempts 1 then 1 else attempts) - 1) * 1000000

-- `COALESCE(trace_id, %s)`
abbrev pub coalesce : Option String → Option String → Option String
coalesce none d = d
coalesce (some s) d = some s

abbrev pub is_retryable : ℕ → Job → Bool
is_retryable c j = j.company_id == c && is_failed j.status && ltb j.attempts max_attempts

abbrev pub retry_row : ℕ → Option String → Job → Job
retry_row now trace j = record j {
  status = queued;
  last_error = none;
  next_attempt_at = some (now + backoff j.attempts);
  locked_at = none;
  worker_id = none;
  trace_id = coalesce j.trace_id trace;
  updated_at = now;
}

unfoldable pub retry_job : ℕ → ℕ → String → Option String → Action JobRef
unfolding update_job require_job
retry_job c k by trace = do
  row ←
      λ db. let (r, db') = update_job k (is_retryable c) (retry_row db.now trace) db in (ok r, db')
  elim row [
    | some j ↦ do
      modify (insert_event_once k c EventType.retry_requested by trace)
      modify (notify Channel.jobs_queued j.id)
      pure (ref_of j)
    | none ↦ do
      current ← require_job c k
      if is_failed current.status
          then raise (retry_limit current.attempts max_attempts)
          else raise (invalid_job_state current.status)
  ]
