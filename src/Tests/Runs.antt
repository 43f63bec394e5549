-- ===== src/Tests/Runs.antt =====
-- A run of the system: a submission, a claim, a cancellation while the job runs, and the worker's
-- late result.
use case_fullstack_senior.Prelude.{true, ◌<◌, false, ◌≡◌, refl, none, some, arith}
use case_fullstack_senior.Db.Schema.{cancelled, Job, Db}
use case_fullstack_senior.Db.Query.{find, replace, find_company, notify, insert_event_once}
use case_fullstack_senior.Service.{create_job, cancel_job, retry_job, new_job}
use case_fullstack_senior.Worker.{claimed, claim_next, finalize}
use case_fullstack_senior.System.{
  System, keep, create, cancel, retry, claim, finish, Reach, here, next, IsConsistent,
}
use case_fullstack_senior.System.Lifecycle.{Evolves}
use case_fullstack_senior.System.Lifecycle.Abstract.{SpecReach, view, Reach-SpecReach}
use case_fullstack_senior.System.Lifecycle.Final.{Step-Evolves, Reach-final}
use case_fullstack_senior.System.Reachable.{Reach-IsConsistent}
use case_fullstack_senior.Worker.Process.{Environment}
use case_fullstack_senior.Worker.Process.Keeps.{IsFair}
use case_fullstack_senior.Worker.Leases.{NoNewLease-refl}
use case_fullstack_senior.Worker.Loop.{IsQuiet, queued_count, is_unfinished, drain, drain-ends}
use case_fullstack_senior.Tests.{
  shared_db, shared_db-IsValid, unlocked, empty, empty-IsValid, submitted_db, first_claim,
}

abbrev pub idle_system : System
idle_system = record { db = empty; claims = λ w. none }

pub idle_system-IsConsistent : IsConsistent idle_system
idle_system-IsConsistent = record {
  valid = empty-IsValid;
  own = λ w c e. absurd (ground arith);
  held = λ w c e. absurd (ground arith);
}

abbrev claimed_db : Db
claimed_db = (claim_next "w-1" unlocked submitted_db).1

abbrev cancelled_db : Db
cancelled_db = (cancel_job 1 1 "1:user" none claimed_db).1

abbrev pub final_system : System
final_system = record {
  db = (finalize first_claim cancelled_db).1;
  claims = keep "w-1" none (keep "w-1" (some first_claim) (λ w. none));
}

pub first_took : (claim_next "w-1" unlocked submitted_db).0 ≡ claimed first_claim
unfolding create_job find_company notify insert_event_once claim_next find replace
first_took = refl

unfoldable pub run : Reach idle_system final_system
run =
    next
      (next
        (next (next here (create 1 "report" (some "r-1") "k-1" (some "1:user")))
          (claim "w-1" unlocked first_claim refl first_took))
        (cancel 1 1 "1:user" none))
      (finish "w-1" first_claim refl)

Reach-IsConsistent_example : IsConsistent final_system
Reach-IsConsistent_example = Reach-IsConsistent idle_system-IsConsistent run

-- A worker that no one disturbs drains the queue of two jobs.
abbrev pub calm : Environment
calm = record {
  startup = none;
  checks = λ n. false;
  works = true;
  heartbeat_error = none;
  monitor_error = none;
  stuck = none;
  during = λ db. db;
}

pub calm-IsFair : IsFair calm
calm-IsFair = record { valid = λ db h. h; leases = NoNewLease-refl }

pub calm-IsQuiet : IsQuiet calm
calm-IsQuiet db = omega arith

two_queued : queued_count shared_db < 3
unfolding create_job find_company notify insert_event_once
two_queued = omega arith

drain-ends_example :
    is_unfinished (drain 3 "w-1" (λ n. false) (λ n. unlocked) (λ n. calm) 0 shared_db).0 ≡ false
drain-ends_example =
    drain-ends 3 "w-1" (λ n. false) (λ n. unlocked) (λ n. calm) 0 shared_db (λ n. calm-IsFair)
      (λ n. calm-IsQuiet) shared_db-IsValid two_queued

final_system-IsConsistent : IsConsistent final_system
final_system-IsConsistent = Reach-IsConsistent idle_system-IsConsistent run

abbrev cancelled_job : Job
cancelled_job = record (new_job 1 "report" (some "r-1") "k-1" empty) {
  status = cancelled;
  attempts = 1;
}

cancelled_found : find 1 final_system.db.jobs ≡ some cancelled_job
unfolding create_job find_company notify insert_event_once claim_next cancel_job finalize find
    replace
cancelled_found = refl

abbrev retried_system : System
retried_system = record final_system { db = (retry_job 1 1 "1:user" none final_system.db).1 }

Step-Evolves_example : Evolves final_system.db.jobs retried_system.db.jobs
Step-Evolves_example = Step-Evolves (retry 1 1 "1:user" none) final_system-IsConsistent

Reach-final_example : (i : Job) × (find 1 retried_system.db.jobs ≡ some i) × (i.status ≡ cancelled)
Reach-final_example =
    Reach-final 1 final_system-IsConsistent (next here (retry 1 1 "1:user" none)) cancelled_found
      refl

Reach-SpecReach_example : SpecReach (view idle_system) (view retried_system)
Reach-SpecReach_example =
    Reach-SpecReach idle_system-IsConsistent (next run (retry 1 1 "1:user" none))
