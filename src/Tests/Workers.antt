-- ===== src/Tests/Workers.antt =====
-- The worker's transactions on concrete tables.
use case_fullstack_senior.Prelude.{
  ℕ, ◌+◌, ◌≤◌, ◌<◌, ◌&&◌, ◌==◌, if◌then◌else◌, Bool, true, false, ◌≡◌, refl, none, some, arith,
}
use case_fullstack_senior.Db.Schema.{running, done, cancelled, is_done, Job, Db}
use case_fullstack_senior.Db.Query.{find, replace, find_company, notify, insert_event_once}
use case_fullstack_senior.Service.{create_job, cancel_job, new_job}
use case_fullstack_senior.Service.Monad.{ok}
use case_fullstack_senior.Worker.{
  Claimed, claimed, claim_next, claim_of, claim_row, finalize, recover_stale_jobs,
  acknowledge_cancellation, is_ready, is_stale, lease_timeout,
}
use case_fullstack_senior.Worker.Queue.{claim_next-first}
use case_fullstack_senior.Worker.Fencing.{
  IsFenced, cancel_job-IsFenced, finalize-IsFenced, recover_stale_jobs-IsFenced,
}
use case_fullstack_senior.Worker.Quota.{quota, less_one, quota-finalize}
use case_fullstack_senior.Worker.Process.{Environment, process, process_next}
use case_fullstack_senior.Worker.Process.Ends.{IsReleased, process-IsReleased}
use case_fullstack_senior.Worker.Process.Keeps.{IsFair, process_next-IsValid}
use case_fullstack_senior.Invariant.{IsValid}
use case_fullstack_senior.Invariant.Service.{cancel_job-IsValid}
use case_fullstack_senior.Invariant.Claim.{acknowledge_cancellation-idle}
use case_fullstack_senior.System.Reachable.{wait-IsValid}
use case_fullstack_senior.System.Kept.{cancel_job-NoNewLease}
use case_fullstack_senior.Tests.{
  unlocked, empty, submitted_db, shared_db, shared_db-IsValid, running_db, running_db-IsValid,
  first_claim,
}

abbrev first_job : Job
first_job = new_job 1 "report" (some "r-1") "k-1" empty

abbrev running_job : Job
running_job = record first_job {
  status = running;
  attempts = 1;
  locked_at = some 1000000;
  worker_id = some "w-1";
}

first_claimed : (claim_next "w-1" unlocked shared_db).0 ≡ claimed first_claim
unfolding create_job find_company notify insert_event_once claim_next find replace
first_claimed = refl

claim_next-first_example :
    (j : Job) × (find 1 shared_db.jobs ≡ some j)
    × (is_ready shared_db.now j ≡ true)
    × (false ≡ false)
    × (first_claim ≡ claim_of "w-1" (claim_row shared_db.now "w-1" j))
    × ((k : ℕ) (i : Job)
        → find k shared_db.jobs ≡ some i
        → is_ready shared_db.now i ≡ true
        → unlocked k ≡ false
        → 1 ≤ k)
claim_next-first_example =
    claim_next-first "w-1" unlocked shared_db shared_db-IsValid.keyed.unique first_claimed

abbrev one_locked : ℕ → Bool
one_locked k = true

nothing_free : (claim_next "w-2" one_locked submitted_db).0 ≡ Claimed.idle
unfolding create_job find_company notify insert_event_once claim_next find replace
nothing_free = refl

first_found : find 1 submitted_db.jobs ≡ some first_job
unfolding create_job find_company notify insert_event_once find replace
first_found = refl

first_ready : is_ready submitted_db.now first_job ≡ true
unfolding create_job find_company notify insert_event_once find replace
first_ready = refl

one_attempt : running_job.attempts < 3
one_attempt = omega arith

abbrev stopped_db : Db
stopped_db = (cancel_job 1 1 "1:user" none running_db).1

stopped_lem :
    cancel_job 1 1 "1:user" none running_db
    ≡ (ok (record { id = 1; status = cancelled; attempts = 1 }), stopped_db)
unfolding create_job find_company notify insert_event_once claim_next cancel_job find replace
stopped_lem = refl

cancel_job-IsFenced_example :
    IsFenced first_claim stopped_db × ((acknowledge_cancellation first_claim stopped_db).0 ≡ true)
cancel_job-IsFenced_example =
    cancel_job-IsFenced 1 1 "1:user" none running_db first_claim stopped_lem refl

stopped_db-IsValid : IsValid stopped_db
stopped_db-IsValid = cancel_job-IsValid 1 1 "1:user" none running_db running_db-IsValid

acknowledge_cancellation-idle_example :
    (acknowledge_cancellation first_claim stopped_db).1 ≡ stopped_db
acknowledge_cancellation-idle_example =
    acknowledge_cancellation-idle first_claim stopped_db stopped_db-IsValid

abbrev done_db : Db
done_db = (finalize first_claim running_db).1

done_lem : finalize first_claim running_db ≡ (done, done_db)
unfolding create_job find_company notify insert_event_once claim_next finalize find replace
done_lem = refl

finalize-IsFenced_example : IsFenced first_claim done_db
finalize-IsFenced_example = finalize-IsFenced first_claim first_claim running_db done_lem refl

quota-finalize_example : quota 1 done_db.companies ≡ (
    if is_done (finalize first_claim running_db).0 && 1 == 1
    then less_one (quota 1 running_db.companies)
    else quota 1 running_db.companies)
quota-finalize_example = quota-finalize first_claim running_db 1 running_db-IsValid

-- Forty seconds after the claim.
abbrev late_db : Db
late_db = record running_db { now = running_db.now + 40000000 }

late_db-IsValid : IsValid late_db
late_db-IsValid = wait-IsValid 40000000 running_db running_db-IsValid

late_found : find 1 late_db.jobs ≡ some running_job
unfolding create_job find_company notify insert_event_once claim_next find replace
late_found = refl

late_stale : is_stale lease_timeout late_db.now running_job ≡ true
unfolding create_job find_company notify insert_event_once claim_next find replace
late_stale = refl

recover_stale_jobs-IsFenced_example :
    IsFenced first_claim (recover_stale_jobs lease_timeout late_db).1
recover_stale_jobs-IsFenced_example =
    recover_stale_jobs-IsFenced lease_timeout late_db first_claim late_found late_stale

-- The company cancels the job while it is processed, and the heartbeat fails.
abbrev busy : Environment
busy = record {
  startup = none;
  checks = λ n. n == 5;
  works = true;
  heartbeat_error = some "OperationalError: x";
  monitor_error = none;
  stuck = none;
  during = λ db. (cancel_job 1 1 "1:user" none db).1;
}

busy-IsFair : IsFair busy
busy-IsFair = record {
  valid = λ db h. cancel_job-IsValid 1 1 "1:user" none db h;
  leases = λ db. cancel_job-NoNewLease 1 1 "1:user" none db;
}

process_next-IsValid_example : IsValid (process_next "w-1" unlocked busy shared_db).1
process_next-IsValid_example =
    process_next-IsValid "w-1" unlocked busy shared_db busy-IsFair shared_db-IsValid

process-IsReleased_example : IsReleased first_claim (process busy first_claim running_db).1
process-IsReleased_example = process-IsReleased busy first_claim running_db
