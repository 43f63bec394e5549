-- ===== src/Worker.antt =====
-- worker/modules/jobs/processor.py: the transactions of the worker on the tables. `Process` is
-- `process_next`, which composes them.
pub mod Order
pub mod Leases
pub mod Cases
pub mod Queue
pub mod Fencing
pub mod Quota
pub mod Heartbeat
pub mod Wait
pub mod Loop
pub mod Process
pub mod Monitor
pub mod Main
use case_fullstack_senior.Prelude.{
  ℕ, ◌+◌, String, Bool, true, false, ◌&&◌, Option, none, some, List, [], ◌∷◌, map, foldl, ltb, leb,
  not, if◌then◌else◌, select, length,
}
use case_fullstack_senior.Db.Schema.{
  Status, running, done, failed, cancelled, is_queued, is_running, is_cancelled, Job, EventType, Db,
}
use case_fullstack_senior.Db.Query.{
  text_is, find, update_job, charge, insert_event, insert_result, insert_letter,
}
use case_fullstack_senior.Prelude.Decimal.{decimal}
use Prim.Native.String.{◌++◌}

abbrev pub max_attempts : ℕ
max_attempts = 3

-- LEASE_TIMEOUT_S, in microseconds
abbrev pub lease_timeout : ℕ
lease_timeout = 30000000

abbrev pub system_actor : String
system_actor = "system:worker"

-- The dict that `_claim_next` returns, and that the worker keeps while it processes the job.
pub record Claim : Type 0 where
  pub id : ℕ
  pub company_id : ℕ
  pub kind : String
  pub trace_id : Option String
  pub attempts : ℕ
  pub worker_id : String

-- `_record_audit_event`; its event types are not in a unique index.
unfoldable pub record_event : ℕ → ℕ → Option String → EventType → Db → Db
unfolding insert_event
record_event k c trace t = insert_event k c t system_actor trace

-- `_send_to_dlq`: INSERT … SELECT … FROM jobs WHERE id = k
unfoldable pub send_to_dlq : ℕ → String → Db → Db
unfolding insert_letter
send_to_dlq k error db = elim (find k db.jobs) [ none ↦ db | some j ↦ insert_letter j error db ]

-- The SET clause of a failure, in `_record_failure` and `recover_stale_jobs`.
abbrev pub fail_row : ℕ → String → Job → Job
fail_row now error j = record j {
  status = failed;
  last_error = some error;
  next_attempt_at = none;
  locked_at = none;
  worker_id = none;
  updated_at = now;
}

-- `locked_at IS NULL OR locked_at < now() - make_interval(secs => lease)`
abbrev pub lease_expired : ℕ → ℕ → Option ℕ → Bool
lease_expired lease now none = true
lease_expired lease now (some t) = ltb (t + lease) now

abbrev pub is_stale : ℕ → ℕ → Job → Bool
is_stale lease now j = is_running j.status && lease_expired lease now j.locked_at

abbrev pub lease_error : String
lease_error = "WorkerLeaseExpired: worker parou antes de finalizar o job"

-- The body of the loop of `recover_stale_jobs`, and the end of `_record_failure`, for the job with
-- key k of company c.
unfoldable pub settle_failure : ℕ → ℕ → Option String → ℕ → String → Db → Db
unfolding record_event send_to_dlq
settle_failure k c trace attempts error db =
    let recorded = record_event k c trace EventType.failed db in
    if leb max_attempts attempts then send_to_dlq k error recorded else recorded

abbrev pub settle_stale : Db → Job → Db
settle_stale db j = settle_failure j.id j.company_id j.trace_id j.attempts lease_error db

-- The UPDATE of `recover_stale_jobs`, on every stale row at once.
unfoldable pub fail_stale : ℕ → Db → Db
fail_stale lease db = record db {
  jobs = map (λ j. if is_stale lease db.now j then fail_row db.now lease_error j else j) db.jobs;
}

unfoldable pub stale_jobs : ℕ → Db → List Job
stale_jobs lease db = map (fail_row db.now lease_error) (select (is_stale lease db.now) db.jobs)

-- `recover_stale_jobs`, with the number of jobs that it returns
unfoldable pub recover_stale_jobs : ℕ → Db → ℕ × Db
unfolding fail_stale stale_jobs settle_failure
recover_stale_jobs lease db =
    let stale = stale_jobs lease db in
    (length stale, foldl settle_stale (fail_stale lease db) stale)

abbrev pub is_due : ℕ → Option ℕ → Bool
is_due now none = true
is_due now (some t) = leb t now

-- The WHERE clause of the SELECT of `_claim_next`
abbrev pub is_ready : ℕ → Job → Bool
is_ready now j = is_queued j.status && ltb j.attempts max_attempts && is_due now j.next_attempt_at

-- ORDER BY id LIMIT 1
unfoldable pub first_by_id : List Job → Option Job
first_by_id [] = none
first_by_id (j ∷ js) = elim (first_by_id js) [
  | none ↦ some j
  | some i ↦ if leb j.id i.id then some j else some i
]

abbrev pub claim_row : ℕ → String → Job → Job
claim_row now worker j = record j {
  status = running;
  attempts = j.attempts + 1;
  locked_at = some now;
  worker_id = some worker;
  updated_at = now;
}

abbrev pub claim_of : String → Job → Claim
claim_of worker j = record {
  id = j.id;
  company_id = j.company_id;
  kind = j.kind;
  trace_id = j.trace_id;
  attempts = j.attempts;
  worker_id = worker;
}

-- `vanished` is the RuntimeError "job … sumiu durante o claim".
pub data Claimed : Type 0 where
  idle : Claimed
  claimed : Claim → Claimed
  vanished : ℕ → Claimed

-- The job that the SELECT … FOR UPDATE SKIP LOCKED returns; `locked` tells which rows other
-- transactions hold.
unfoldable pub next_ready : (ℕ → Bool) → Db → Option Job
unfolding first_by_id
next_ready locked db = first_by_id (select (λ j. is_ready db.now j && not (locked j.id)) db.jobs)

unfoldable pub claim_next : String → (ℕ → Bool) → Db → Claimed × Db
unfolding next_ready update_job
claim_next worker locked db = elim (next_ready locked db) [
  | none ↦ (idle, db)
  | some j ↦
      let (row, db') = update_job j.id (λ _. true) (claim_row db.now worker) db in
      elim row [
        | none ↦ (vanished j.id, db')
        | some i ↦ (claimed (record (claim_of worker j) { attempts = i.attempts }), db')
      ]
]

-- f"resultado sensível da empresa {company_id}"
unfoldable pub payload_of : ℕ → String
unfolding decimal
payload_of c = "resultado sensível da empresa " ++ decimal c

-- `WHERE id = %s AND status = 'running' AND worker_id = %s`
abbrev pub holds_lease : String → Job → Bool
holds_lease worker j = is_running j.status && text_is j.worker_id worker

abbrev pub finish_row : ℕ → Job → Job
finish_row now j = record j { status = done; locked_at = none; worker_id = none; updated_at = now }

-- The rest of `_finalize` once the UPDATE has found its row.
unfoldable pub settle_result : Claim → Db → Db
unfolding record_event insert_result
settle_result c db =
    let (inserted, stored) = insert_result c.id (payload_of c.company_id) db in
    let recorded = record_event c.id c.company_id c.trace_id EventType.completed stored in
    if ltb 0 inserted
    then record recorded { companies = charge c.company_id recorded.companies }
    else recorded

unfoldable pub finalize : Claim → Db → Status × Db
unfolding update_job settle_result
finalize c db =
    let (row, db') = update_job c.id (holds_lease c.worker_id) (finish_row db.now) db in
    elim row [ none ↦ (cancelled, db') | some _ ↦ (done, settle_result c db') ]

abbrev pub release_row : ℕ → Job → Job
release_row now j = record j { locked_at = none; worker_id = none; updated_at = now }

abbrev pub is_cancelled_row : Option Job → Bool
is_cancelled_row none = false
is_cancelled_row (some j) = is_cancelled j.status

unfoldable pub acknowledge_cancellation : Claim → Db → Bool × Db
unfolding update_job
acknowledge_cancellation c db =
    let test = λ (j : Job). is_cancelled j.status && text_is j.worker_id c.worker_id in
    (is_cancelled_row (find c.id db.jobs), (update_job c.id test (release_row db.now) db).1)

-- `_record_failure`; `error` is the text "type: message" of the exception.
unfoldable pub record_failure : Claim → String → Db → Status × Db
unfolding update_job settle_failure
record_failure c error db =
    let (row, db') = update_job c.id (holds_lease c.worker_id) (fail_row db.now error) db in
    elim row [
      | none ↦ (cancelled, db')
      | some j ↦ (j.status, settle_failure c.id c.company_id c.trace_id c.attempts error db')
    ]

-- `_renew_lease`; `false` is LeaseLostError
unfoldable pub renew_lease : Claim → Db → Bool × Db
unfolding update_job
renew_lease c db =
    let (row, db') =
      update_job c.id (holds_lease c.worker_id) (λ j. record j { locked_at = some db.now }) db in
    elim row [ none ↦ (false, db') | some _ ↦ (true, db') ]
