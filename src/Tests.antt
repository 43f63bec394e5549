-- ===== src/Tests.antt =====
-- Tables for the tests: two companies, and the states that a job of the first one goes through.
mod Requests
mod Workers
mod Runs
mod Interface
mod Operations
mod Principals
mod Monitoring
mod Answers
mod Submissions
mod Runners
mod Logging
mod Environments
use case_fullstack_senior.Prelude.{
  ℕ, String, Bool, true, false, ◌≡◌, refl, Option, none, some, List, [], ◌∷◌, arith,
}
use case_fullstack_senior.Prelude.Int.{ℤ, pos}
use case_fullstack_senior.Db.Schema.{Company, Job, Db}
use case_fullstack_senior.Db.Query.{find}
use case_fullstack_senior.Service.{create_job}
use case_fullstack_senior.Worker.{
  Claim, claim_next, finalize, record_failure, recover_stale_jobs, lease_timeout,
}
use case_fullstack_senior.Invariant.{IsValid, IsKeyed, IsBacked}
use case_fullstack_senior.Invariant.Create.{create_job-IsValid}
use case_fullstack_senior.Invariant.Claim.{claim_next-IsValid}
use case_fullstack_senior.Invariant.Finish.{record_failure-IsValid}

abbrev pub alone : Db → Db
alone db = db

abbrev pub unlocked : ℕ → Bool
unlocked k = false

abbrev pub acme : Company
acme = record { id = 1; name = "Acme"; max_concurrent_jobs = 2; job_quota = pos 5 }

abbrev pub globex : Company
globex = record { id = 2; name = "Globex"; max_concurrent_jobs = 1; job_quota = pos 9 }

abbrev pub empty : Db
empty = record {
  now = 1000000;
  companies = acme ∷ globex ∷ [];
  jobs = [];
  job_results = [];
  audit_events = [];
  dead_letters = [];
  notifications = [];
  next_job_id = 1;
  next_event_id = 1;
  next_letter_id = 1;
}

pub empty-IsValid : IsValid empty
unfolding find
empty-IsValid = record {
  keyed = record { unique = tt; fresh = λ k h. refl; keys = λ c key. ground arith };
  rows = λ k. record { results = refl; completions = refl; cancellations = refl; letters = refl };
}

-- A job of Acme, then one of Globex.
abbrev pub submitted_db : Db
submitted_db = (create_job alone 1 "report" (some "r-1") "k-1" (some "1:user") empty).1

pub submitted_db-IsValid : IsValid submitted_db
submitted_db-IsValid =
    create_job-IsValid alone 1 "report" (some "r-1") "k-1" (some "1:user") empty empty-IsValid
      empty-IsValid

abbrev pub shared_db : Db
shared_db = (create_job alone 2 "export" (some "r-2") "k-1" (some "2:user") submitted_db).1

pub shared_db-IsValid : IsValid shared_db
shared_db-IsValid =
    create_job-IsValid alone 2 "export" (some "r-2") "k-1" (some "2:user") submitted_db
      submitted_db-IsValid submitted_db-IsValid

-- The worker w-1 has claimed Acme's job.
abbrev pub running_db : Db
running_db = (claim_next "w-1" unlocked shared_db).1

pub running_db-IsValid : IsValid running_db
running_db-IsValid = claim_next-IsValid "w-1" unlocked shared_db shared_db-IsValid

abbrev pub first_claim : Claim
first_claim = record {
  id = 1;
  company_id = 1;
  kind = "report";
  trace_id = some "r-1";
  attempts = 1;
  worker_id = "w-1";
}

-- The worker has failed the job.
abbrev pub failed_db : Db
failed_db = (record_failure first_claim "RuntimeError: x" running_db).1
