-- ===== src/Tests/Requests.antt =====
-- The requests of the API on concrete tables.
use case_fullstack_senior.Prelude.{◌+◌, ◌≤◌, true, ◌≡◌, ◌≢◌, refl, none, some, arith}
use case_fullstack_senior.Db.Schema.{queued, failed, cancelled, Company, Job, Db}
use case_fullstack_senior.Db.Query.{
  find, replace, find_company, active_jobs, notify, insert_event_once,
}
use case_fullstack_senior.Service.{
  JobRef, create_job, cancel_job, retry_job, find_by_key, owned_job, new_job,
}
use case_fullstack_senior.Service.Monad.{ok}
use case_fullstack_senior.Service.Serial.{submission, create_job-submission, create_job-serial}
use case_fullstack_senior.Service.Submission.{create_job-within_limit}
use case_fullstack_senior.Service.Isolation.{requests-isolated}
use case_fullstack_senior.Worker.{claim_next, record_failure}
use case_fullstack_senior.Tests.{alone, acme, empty, submitted_db, shared_db, failed_db}

abbrev first_job : Job
first_job = new_job 1 "report" (some "r-1") "k-1" empty

abbrev first_ref : JobRef
first_ref = record { id = 1; status = queued; attempts = 0 }

submitted_lem :
    create_job alone 1 "report" (some "r-1") "k-1" (some "1:user") empty
    ≡ (ok (first_ref, true), submitted_db)
unfolding create_job find_company notify insert_event_once find replace
submitted_lem = refl

create_job-within_limit_example :
    (co : Company) × (find_company 1 empty.companies ≡ some co)
    × (active_jobs 1 submitted_db.jobs ≡ active_jobs 1 empty.jobs + 1)
    × (active_jobs 1 submitted_db.jobs ≤ co.max_concurrent_jobs)
create_job-within_limit_example =
    create_job-within_limit alone 1 "report" (some "r-1") "k-1" (some "1:user") empty submitted_lem

no_key : find_by_key 1 "k-1" empty ≡ none
unfolding find_by_key
no_key = refl

-- Another request with the same key commits while this one waits for the lock.
abbrev rival : Db → Db
rival db = (create_job alone 1 "report" (some "r-1") "k-1" (some "1:user") db).1

acme_there : find_company 1 submitted_db.companies ≡ some acme
unfolding create_job find_company notify insert_event_once find replace
acme_there = refl

create_job-serial_example :
    create_job rival 1 "report" (some "r-2") "k-1" (some "1:user") empty
    ≡ create_job alone 1 "report" (some "r-2") "k-1" (some "1:user") submitted_db
create_job-serial_example =
    create_job-serial 1 "report" (some "r-2") "k-1" (some "1:user") empty rival no_key acme_there

create_job-submission_example :
    create_job alone 1 "report" (some "r-1") "k-1" none empty
    ≡ submission 1 "report" (some "r-1") "k-1" none empty
create_job-submission_example = create_job-submission 1 "report" (some "r-1") "k-1" none empty

not_owned : owned_job 2 1 submitted_db ≡ none
unfolding create_job find_company notify insert_event_once owned_job find replace
not_owned = refl

first_owned : owned_job 1 1 submitted_db ≡ some first_job
unfolding create_job find_company notify insert_event_once owned_job find replace
first_owned = refl

abbrev cancelled_db : Db
cancelled_db = (cancel_job 1 1 "1:user" none submitted_db).1

cancelled_lem :
    cancel_job 1 1 "1:user" none submitted_db
    ≡ (ok (record { id = 1; status = cancelled; attempts = 0 }), cancelled_db)
unfolding create_job find_company notify insert_event_once cancel_job find replace
cancelled_lem = refl

abbrev failed_job : Job
failed_job = record first_job { status = failed; attempts = 1; last_error = some "RuntimeError: x" }

failed_owned : owned_job 1 1 failed_db ≡ some failed_job
unfolding create_job find_company notify insert_event_once claim_next record_failure owned_job find
    replace
failed_owned = refl

abbrev retried_db : Db
retried_db = (retry_job 1 1 "1:user" (some "r-4") failed_db).1

retried_lem :
    retry_job 1 1 "1:user" (some "r-4") failed_db
    ≡ (ok (record { id = 1; status = queued; attempts = 1 }), retried_db)
unfolding create_job find_company notify insert_event_once claim_next record_failure retry_job find
    replace
retried_lem = refl

first_found : find 1 shared_db.jobs ≡ some first_job
unfolding create_job find_company notify insert_event_once find replace
first_found = refl

foreign : first_job.company_id ≢ 2
foreign = λ e. absurd (ground arith)

requests-isolated_example :
    (find 1 (create_job alone 2 "report" none "k-1" none shared_db).1.jobs ≡ some first_job)
    × (find 1 (cancel_job 2 1 "2:user" none shared_db).1.jobs ≡ some first_job)
    × (find 1 (retry_job 2 1 "2:user" none shared_db).1.jobs ≡ some first_job)
requests-isolated_example =
    requests-isolated 2 1 first_job shared_db first_found foreign 1 "report" "k-1" "2:user" none
      none
