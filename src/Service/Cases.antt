-- ===== src/Service/Cases.antt =====
-- Each method either writes to exactly one job, or leaves every table as it was and raises (or, in
-- a replay, returns the job that is there).
use case_fullstack_senior.Prelude.{
  ℕ, ◌+◌, ◌<◌, String, Bool, true, false, ◌≡◌, ◌⊎◌, inl, inr, Option, none, some, [], ◌∷◌, ◌++◌,
  leb, arith, Option-cases, Bool-cases,
}
use case_fullstack_senior.Db.Schema.{Company, Job, EventType, Channel, Db}
use case_fullstack_senior.Db.Query.{
  find, find_company, replace, active_jobs, insert_event_once, notify,
}
use case_fullstack_senior.Db.Laws.{find-id}
use case_fullstack_senior.Service.{
  JobRef, ref_of, new_job, find_by_key, create_locked, create_job, cancel_job, is_cancellable,
  cancel_row, retry_job, is_retryable, retry_row,
}
use case_fullstack_senior.Service.Monad.{Result, ok, err}

-- The tables after the UPDATE of one row to j, its audit event and its notification.
abbrev pub written : ℕ → Job → ℕ → EventType → String → Option String → Channel → Db → Db
written k j c t by trace ch db =
    notify ch k (insert_event_once k c t by trace (record db { jobs = replace k j db.jobs }))

pub jobs-written :
    (k : ℕ) (j : Job) (c : ℕ) (t : EventType) (by : String) (trace : Option String) (ch : Channel)
    (db : Db)
    → (written k j c t by trace ch db).jobs ≡ replace k j db.jobs
unfolding notify insert_event_once
jobs-written k j c t by trace ch db = ground arith

abbrev pub IsOk : {A : Type 0} → Result A → Type 0
IsOk (ok _) = Unit
IsOk (err _) = ⊥

module _ (c k : ℕ) (by : String) (trace : Option String) (db : Db) where
  pub cancel_job-cases :
      (((cancel_job c k by trace db).1 ≡ db) × ¬ IsOk (cancel_job c k by trace db).0)
      ⊎ ((j : Job) × (find k db.jobs ≡ some j)
          × (is_cancellable c j ≡ true)
          × (cancel_job c k by trace db ≡ (
            ok (ref_of (cancel_row db.now j)),
            written k
                (cancel_row db.now j)
                c
                EventType.cancelled
                by
                trace
                Channel.jobs_cancelled
                db,
          )))
  unfolding cancel_job
  cancel_job-cases = elim (Option-cases (find k db.jobs)) [
    | inl gone ↦ inl (ground arith, ground arith)
    | inr (j, found) ↦ elim (Bool-cases (is_cancellable c j)) [
      | inl yes' ↦ inr (j, found, yes', ground arith)
      | inr no' ↦ inl (ground arith, ground arith)
    ]
  ]

  pub retry_job-cases :
      (((retry_job c k by trace db).1 ≡ db) × ¬ IsOk (retry_job c k by trace db).0)
      ⊎ ((j : Job) × (find k db.jobs ≡ some j)
          × (is_retryable c j ≡ true)
          × (retry_job c k by trace db ≡ (
            ok (ref_of (retry_row db.now trace j)),
            written k
                (retry_row db.now trace j)
                c
                EventType.retry_requested
                by
                trace
                Channel.jobs_queued
                db,
          )))
  unfolding retry_job
  retry_job-cases = elim (Option-cases (find k db.jobs)) [
    | inl gone ↦ inl (ground arith, ground arith)
    | inr (j, found) ↦ elim (Bool-cases (is_retryable c j)) [
      | inl yes' ↦ inr (j, found, yes', ground (arith, find-id k db.jobs found))
      | inr no' ↦ inl (ground arith, ground arith)
    ]
  ]

-- The tables after the INSERT of j, its audit event and its notification.
abbrev pub announced : Job → ℕ → Option String → Option String → Db → Db
announced j c none trace db = notify Channel.jobs_queued j.id db
announced j c (some actor) trace db =
    notify Channel.jobs_queued j.id (insert_event_once j.id c EventType.submitted actor trace db)

abbrev pub appended : Job → Db → Db
appended j db = record db { jobs = db.jobs ++ j ∷ []; next_job_id = db.next_job_id + 1 }

-- The `created` that the service returns.
abbrev pub is_new : Result (JobRef × Bool) → Bool
is_new (ok (_, created)) = created
is_new (err _) = false

-- What `create_job` does when it creates a job.
abbrev pub Creates :
    ℕ → String → Option String → String → Option String → Result (JobRef × Bool) × Db → Db → Type 0
Creates c kind trace key by result db =
    let j = new_job c kind trace key db in
    (find_by_key c key db ≡ none)
    × (result ≡ (ok (ref_of j, true), announced j c by trace (appended j db)))

module _ (c : ℕ) (kind : String) (trace : Option String) (key : String) (by : Option String) where
  pub create_locked-made :
      (co : Company) (db : Db)
      → find_by_key c key db ≡ none
      → leb co.max_concurrent_jobs (active_jobs c db.jobs) ≡ false
      → Creates c kind trace key by (create_locked co c kind trace key by db) db
  unfolding create_locked
  create_locked-made co db new room = (new, ground arith)

  create_locked-cases :
      (co : Company) (db : Db)
      → let result = create_locked co c kind trace key by db in
        (result.1 ≡ db) × (is_new result.0 ≡ false)
        ⊎ (active_jobs c db.jobs < co.max_concurrent_jobs) × Creates c kind trace key by result db
  unfolding create_locked
  create_locked-cases co db = elim (Option-cases (find_by_key c key db)) [
    | inr (j, found) ↦ inl (ground arith, ground arith)
    | inl new ↦ elim (Bool-cases (leb co.max_concurrent_jobs (active_jobs c db.jobs))) [
      | inl full ↦ inl (ground arith, ground arith)
      | inr room ↦ inr (ground arith, create_locked-made co db new room)
    ]
  ]

  pub create_job-unlocked :
      (others : Db → Db) (db : Db) {co : Company}
      → find_by_key c key db ≡ none
      → find_company c (others db).companies ≡ some co
      → create_job others c kind trace key by db ≡ create_locked co c kind trace key by (others db)
  unfolding create_job
  create_job-unlocked others db new known = ground arith

  -- `create_job` leaves the tables alone, or as the other transactions left them, or creates a job
  -- below the limit of its company.
  pub create_job-cases :
      (others : Db → Db) (db : Db)
      → let result = create_job others c kind trace key by db in
        ((result.1 ≡ db) ⊎ (result.1 ≡ others db)) × (is_new result.0 ≡ false)
        ⊎ ((co : Company) × (find_company c (others db).companies ≡ some co)
            × (active_jobs c (others db).jobs < co.max_concurrent_jobs)
            × Creates c kind trace key by result (others db))
  unfolding create_job
  create_job-cases others db = elim (Option-cases (find_by_key c key db)) [
    | inr (j, found) ↦ inl (inl (ground arith), ground arith)
    | inl new ↦ elim (Option-cases (find_company c (others db).companies)) [
      | inl unknown ↦ inl (inr (ground arith), ground arith)
      | inr (co, known) ↦ elim (create_locked-cases co (others db)) [
        | inl (same, old) ↦ inl (
          inr (rw (create_job-unlocked others db new known) same),
          rw (create_job-unlocked others db new known) old,
        )
        | inr (room, made) ↦
            inr (co, known, room, rw (create_job-unlocked others db new known) made)
      ]
    ]
  ]
