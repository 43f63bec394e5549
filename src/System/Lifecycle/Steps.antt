-- ===== src/System/Lifecycle/Steps.antt =====
-- Each transaction moves the rows along the state diagram.
use case_fullstack_senior.Prelude.{
  ℕ, String, Bool, refl, ◌∙◌, ap, Option, some, arith, if◌then◌else◌, inl, inr, Bool-cases,
}
use case_fullstack_senior.Db.Schema.{Status, Job, Db}
use case_fullstack_senior.Db.Query.{find}
use case_fullstack_senior.Db.Laws.{find-append}
use case_fullstack_senior.Service.{
  JobRef, create_job, cancel_job, cancel_row, retry_job, retry_row, new_job,
}
use case_fullstack_senior.Service.Monad.{Result}
use case_fullstack_senior.Service.Cases.{
  jobs-written, appended, create_job-cases, cancel_job-cases, retry_job-cases,
}
use case_fullstack_senior.Worker.{
  Claim, Claimed, claim_next, claim_row, finalize, finish_row, record_failure, fail_row,
  renew_lease, recover_stale_jobs, lease_error, is_stale,
}
use case_fullstack_senior.Worker.Cases.{
  claim_next-cases, finalize-cases, record_failure-cases, renew_lease-cases, rewritten, jobs-settle,
  jobs-recover_stale_jobs,
}
use case_fullstack_senior.Invariant.{IsUnique}
use case_fullstack_senior.Invariant.Create.{jobs-announced}
use case_fullstack_senior.Invariant.Finish.{jobs-settle_result}
use case_fullstack_senior.Invariant.Recover.{find-fail_stale}
use case_fullstack_senior.System.Lifecycle.{
  Follows, follows, Follows-same, moves-same, Evolves, Evolves-jobs, Evolves-replace,
}

pub claim_next-Evolves :
    (w : String) (locked : ℕ → Bool) (db : Db)
    → IsUnique db.jobs
    → Evolves db.jobs (claim_next w locked db).1.jobs
claim_next-Evolves w locked db u = elim (claim_next-cases w locked db u) [
  | inl (idle, _) ↦ Evolves-jobs (ap (λ (r : Claimed × Db). r.1.jobs) idle)
  | inr (j, found, _, ready, made) ↦
      Evolves-replace j.id j (claim_row db.now w j) db.jobs found refl
        (ap (λ (r : Claimed × Db). r.1.jobs) made)
        (follows (ground arith) (omega arith) refl refl refl refl)
]

pub create_job-Evolves :
    (c : ℕ) (kind : String) (trace : Option String) (key : String) (by : Option String) (db : Db)
    → Evolves db.jobs (create_job (λ db. db) c kind trace key by db).1.jobs
create_job-Evolves c kind trace key by db =
    elim (create_job-cases c kind trace key by (λ db. db) db) [
      | inl (inl same, _) ↦ Evolves-jobs (ap (λ (d : Db). d.jobs) same)
      | inl (inr same, _) ↦ Evolves-jobs (ap (λ (d : Db). d.jobs) same)
      | inr (co, known, room, (new, e)) ↦ λ k j found.
          let row = new_job c kind trace key db in
          let tables =
            ap (λ (r : Result (JobRef × Bool) × Db). r.1.jobs) e
            ∙ jobs-announced row c by trace (appended row db) in
          let there = find-append k db.jobs row in
          (j, ap (find k) tables ∙ ground arith, Follows-same j)
    ]

pub cancel_job-Evolves :
    (c k : ℕ) (by : String) (trace : Option String) (db : Db)
    → Evolves db.jobs (cancel_job c k by trace db).1.jobs
cancel_job-Evolves c k by trace db = elim (cancel_job-cases c k by trace db) [
  | inl (same, _) ↦ Evolves-jobs (ap (λ (d : Db). d.jobs) same)
  | inr (j, found, active, made) ↦
      Evolves-replace k j (cancel_row db.now j) db.jobs found refl
        (ap (λ (r : Result JobRef × Db). r.1.jobs) made
          ∙ jobs-written k (cancel_row db.now j) c _ by trace _ db)
        (follows (ground arith) (omega arith) refl refl refl refl)
]

pub retry_job-Evolves :
    (c k : ℕ) (by : String) (trace : Option String) (db : Db)
    → Evolves db.jobs (retry_job c k by trace db).1.jobs
retry_job-Evolves c k by trace db = elim (retry_job-cases c k by trace db) [
  | inl (same, _) ↦ Evolves-jobs (ap (λ (d : Db). d.jobs) same)
  | inr (j, found, retryable, made) ↦
      Evolves-replace k j (retry_row db.now trace j) db.jobs found refl
        (ap (λ (r : Result JobRef × Db). r.1.jobs) made
          ∙ jobs-written k (retry_row db.now trace j) c _ by trace _ db)
        (follows (ground arith) (omega arith) refl refl refl refl)
]

pub finalize-Evolves : (c : Claim) (db : Db) → Evolves db.jobs (finalize c db).1.jobs
finalize-Evolves c db = elim (finalize-cases c db) [
  | inl lost ↦ Evolves-jobs (ap (λ (r : Status × Db). r.1.jobs) lost)
  | inr (j, found, held, made) ↦
      Evolves-replace c.id j (finish_row db.now j) db.jobs found refl
        (ap (λ (r : Status × Db). r.1.jobs) made
          ∙ jobs-settle_result c (rewritten c.id (finish_row db.now j) db))
        (follows (ground arith) (omega arith) refl refl refl refl)
]

pub record_failure-Evolves :
    (c : Claim) (error : String) (db : Db) → Evolves db.jobs (record_failure c error db).1.jobs
record_failure-Evolves c error db = elim (record_failure-cases c db error) [
  | inl lost ↦ Evolves-jobs (ap (λ (r : Status × Db). r.1.jobs) lost)
  | inr (j, found, held, made) ↦
      Evolves-replace c.id j (fail_row db.now error j) db.jobs found refl
        (ap (λ (r : Status × Db). r.1.jobs) made
          ∙ jobs-settle c.id c.company_id c.trace_id c.attempts error
              (rewritten c.id (fail_row db.now error j) db))
        (follows (ground arith) (omega arith) refl refl refl refl)
]

pub renew_lease-Evolves : (c : Claim) (db : Db) → Evolves db.jobs (renew_lease c db).1.jobs
renew_lease-Evolves c db = elim (renew_lease-cases c db) [
  | inl lost ↦ Evolves-jobs (ap (λ (r : Bool × Db). r.1.jobs) lost)
  | inr (j, found, held, made) ↦
      Evolves-replace c.id j (record j { locked_at = some db.now }) db.jobs found refl
        (ap (λ (r : Bool × Db). r.1.jobs) made)
        (follows (moves-same j.status) (omega arith) refl refl refl refl)
]

fail_row-Follows :
    (lease now : ℕ) (j : Job)
    → Follows j (if is_stale lease now j then fail_row now lease_error j else j)
fail_row-Follows lease now j = elim (Bool-cases (is_stale lease now j)) [
  | inl stale ↦ rw stale (follows (ground arith) (omega arith) refl refl refl refl)
  | inr live ↦ rw live (Follows-same j)
]

pub recover_stale_jobs-Evolves :
    (lease : ℕ) (db : Db) → Evolves db.jobs (recover_stale_jobs lease db).1.jobs
recover_stale_jobs-Evolves lease db k j found =
    let at = find-fail_stale lease db k in
    (
      if is_stale lease db.now j then fail_row db.now lease_error j else j,
      ap (find k) (jobs-recover_stale_jobs lease db) ∙ at ∙ rw found refl,
      fail_row-Follows lease db.now j,
    )
