-- ===== src/Service/Transitions.antt =====
-- `cancel_job` and `retry_job`: what each answers for a job of the company in each status, and for
-- a job that the company does not have.
use case_fullstack_senior.Prelude.{
  ℕ, String, ◌≡◌, ◌∙◌, ap, sym, Option, none, some, arith, ltb, inl, inr, if◌then◌else◌,
  Option-cases,
}
use case_fullstack_senior.Db.Schema.{
  queued, cancelled, is_active, is_failed, Job, EventType, Channel, Db,
}
use case_fullstack_senior.Db.Query.{find}
use case_fullstack_senior.Db.Laws.{find-id, find-replace}
use case_fullstack_senior.Service.{
  JobRef, cancel_job, cancel_row, retry_job, retry_row, ref_of, owned_job, max_attempts,
}
use case_fullstack_senior.Service.Monad.{
  Result, ok, err, job_not_found, invalid_job_state, retry_limit,
}
use case_fullstack_senior.Service.Cases.{written, cancel_job-cases, retry_job-cases, jobs-written}

module _ (c k : ℕ) (by : String) (trace : Option String) (db : Db) where
  -- If the company has no job with the number, be it missing or another company's, then a
  -- cancellation and a retry both answer that it is not found, and nothing changes.
  pub foreign_job-not_found :
      owned_job c k db ≡ none
      → (cancel_job c k by trace db ≡ (err (job_not_found k), db))
        × (retry_job c k by trace db ≡ (err (job_not_found k), db))
  unfolding cancel_job retry_job owned_job
  foreign_job-not_found h = (ground arith, ground arith)

  -- A cancellation of a job of the company succeeds exactly if the job is queued or running; the
  -- row is then `cancelled` and without a lease, and the audit event and the notification are
  -- written. Otherwise it is refused with the job's status, and nothing changes.
  pub cancel_job-by_status :
      {j : Job}
      → owned_job c k db ≡ some j
      → cancel_job c k by trace db ≡ (
          if is_active j.status
          then (
            ok (ref_of (cancel_row db.now j)),
            written k
                (cancel_row db.now j)
                c
                EventType.cancelled
                by
                trace
                Channel.jobs_cancelled
                db,
          )
          else (err (invalid_job_state j.status), db))
  unfolding cancel_job owned_job
  cancel_job-by_status {j} owned = elim (Option-cases (find k db.jobs)) [
    | inl gone ↦ absurd (ground arith)
    | inr (i, found) ↦ ground arith
  ]

  -- A retry of a job of the company succeeds exactly if the job has failed with fewer than three
  -- attempts; the row is then queued with its backoff, and the audit event and the notification
  -- are written. At the third attempt it is refused with the retry limit, in another status with
  -- that status, and nothing changes.
  pub retry_job-by_status :
      {j : Job}
      → owned_job c k db ≡ some j
      → retry_job c k by trace db ≡ (
          if is_failed j.status
          then (if ltb j.attempts max_attempts
              then (
                ok (ref_of (retry_row db.now trace j)),
                written k
                    (retry_row db.now trace j)
                    c
                    EventType.retry_requested
                    by
                    trace
                    Channel.jobs_queued
                    db,
              )
              else (err (retry_limit j.attempts max_attempts), db))
          else (err (invalid_job_state j.status), db))
  unfolding retry_job owned_job
  retry_job-by_status {j} owned = elim (Option-cases (find k db.jobs)) [
    | inl gone ↦ absurd (ground arith)
    | inr (i, found) ↦ ground (arith, find-id k db.jobs found)
  ]

module _ (c k : ℕ) (by by' : String) (trace trace' : Option String) (db : Db) {r : JobRef}
    {db' : Db} where
  -- The row of the job after a request that succeeded.
  pub cancelled_row :
      cancel_job c k by trace db ≡ (ok r, db')
      → (j : Job) × (owned_job c k db' ≡ some (cancel_row db.now j))
  unfolding owned_job
  cancelled_row e = elim (cancel_job-cases c k by trace db) [
    | inl (_, refused) ↦ absurd (refused (rw e tt))
    | inr (j, found, active, made) ↦
        let there : find k db'.jobs ≡ some (cancel_row db.now j) =
          ap (λ (x : Result JobRef × Db). find k x.1.jobs) (sym e ∙ made)
          ∙ ap (find k) (jobs-written k (cancel_row db.now j) c _ by trace _ db)
          ∙ ground
              (arith, find-replace k k (cancel_row db.now j) db.jobs (find-id k db.jobs found)) in
        (j, ground arith)
  ]

  -- If a cancellation succeeds, a second one of the same job is refused with the status
  -- `cancelled`, and changes nothing.
  pub cancel_job-twice :
      cancel_job c k by trace db ≡ (ok r, db')
      → cancel_job c k by' trace' db' ≡ (err (invalid_job_state cancelled), db')
  cancel_job-twice e =
      let (j, owned) = cancelled_row e in cancel_job-by_status c k by' trace' db' owned

  retried_row :
      retry_job c k by trace db ≡ (ok r, db')
      → (j : Job) × (owned_job c k db' ≡ some (retry_row db.now trace j))
  unfolding owned_job
  retried_row e = elim (retry_job-cases c k by trace db) [
    | inl (_, refused) ↦ absurd (refused (rw e tt))
    | inr (j, found, active, made) ↦
        let there : find k db'.jobs ≡ some (retry_row db.now trace j) =
          ap (λ (x : Result JobRef × Db). find k x.1.jobs) (sym e ∙ made)
          ∙ ap (find k) (jobs-written k (retry_row db.now trace j) c _ by trace _ db)
          ∙ ground (
            arith,
            find-replace k k (retry_row db.now trace j) db.jobs (find-id k db.jobs found),
          ) in
        (j, ground arith)
  ]

  -- If a retry succeeds, a second one on the tables that it left is refused with the status
  -- `queued`, and changes nothing.
  pub retry_job-twice :
      retry_job c k by trace db ≡ (ok r, db')
      → retry_job c k by' trace' db' ≡ (err (invalid_job_state queued), db')
  retry_job-twice e = let (j, owned) = retried_row e in retry_job-by_status c k by' trace' db' owned
