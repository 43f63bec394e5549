-- ===== src/System/Lifecycle.antt =====
-- How a job moves: the state machine of a job. Steps goes through the steps of the system, Final
-- follows a job over them, and Abstract is what a client sees of all of them.
pub mod Steps
pub mod Final
pub mod Abstract
use mathlib.Core.Path.{subst}
use case_fullstack_senior.Prelude.{
  ℕ, ◌≤◌, String, Bool, true, false, ◌≡◌, refl, ◌∙◌, ap, Option, some, List, arith, if◌then◌else◌,
  inl, inr, eq-cases, Bool-cases,
}
use case_fullstack_senior.Db.Schema.{Status, queued, running, done, failed, cancelled, Job, Db}
use case_fullstack_senior.Db.Query.{find, replace}
use case_fullstack_senior.Db.Laws.{find-id, find-replace, find-append}
use case_fullstack_senior.Service.{
  JobRef, create_job, cancel_job, cancel_row, retry_job, retry_row, new_job,
}
use case_fullstack_senior.Service.Monad.{Result}
use case_fullstack_senior.Service.Cases.{
  jobs-written, appended, create_job-cases, cancel_job-cases, retry_job-cases,
}
use case_fullstack_senior.Worker.{
  Claim, Claimed, claim_next, claim_row, finalize, finish_row, record_failure, fail_row,
  renew_lease, recover_stale_jobs, lease_error, is_stale,
}
use case_fullstack_senior.Worker.Cases.{
  claim_next-cases, finalize-cases, record_failure-cases, renew_lease-cases, rewritten, jobs-settle,
  jobs-recover_stale_jobs,
}
use case_fullstack_senior.Invariant.{IsUnique}
use case_fullstack_senior.Invariant.Create.{jobs-announced}
use case_fullstack_senior.Invariant.Claim.{acknowledge_cancellation-idle}
use case_fullstack_senior.Invariant.Finish.{jobs-settle_result}
use case_fullstack_senior.Invariant.Recover.{find-fail_stale}
use case_fullstack_senior.System.{
  System, Step, create, cancel, retry, claim, renew, finish, fail, acknowledge, crash, recover,
  wait, Reach, here, next, IsConsistent,
}
use case_fullstack_senior.System.Reachable.{Reach-IsConsistent}

-- The arrows of the state diagram, and staying where it is.
abbrev pub moves : Status → Status → Bool
moves queued queued = true
moves queued running = true
moves queued cancelled = true
moves running running = true
moves running done = true
moves running failed = true
moves running cancelled = true
moves failed failed = true
moves failed queued = true
moves done done = true
moves cancelled cancelled = true
moves _ _ = false

-- What a row may become in one step.
pub record Follows (j i : Job) : Type 0 where
  pub move : moves j.status i.status ≡ true
  pub attempts : j.attempts ≤ i.attempts
  pub company_id : i.company_id ≡ j.company_id
  pub kind : i.kind ≡ j.kind
  pub created_at : i.created_at ≡ j.created_at
  pub idempotency_key : i.idempotency_key ≡ j.idempotency_key

pub moves-same : (s : Status) → moves s s ≡ true
moves-same queued = refl
moves-same running = refl
moves-same done = refl
moves-same failed = refl
moves-same cancelled = refl

pub follows :
    {j i : Job}
    → moves j.status i.status ≡ true
    → j.attempts ≤ i.attempts
    → i.company_id ≡ j.company_id
    → i.kind ≡ j.kind
    → i.created_at ≡ j.created_at
    → i.idempotency_key ≡ j.idempotency_key
    → Follows j i
follows m a c k t key = record {
  move = m;
  attempts = a;
  company_id = c;
  kind = k;
  created_at = t;
  idempotency_key = key;
}

pub Follows-same : (j : Job) → Follows j j
Follows-same j = follows (moves-same j.status) (omega arith) refl refl refl refl

-- Every row of the first table has its successor in the second.
abbrev pub Evolves : List Job → List Job → Type 0
Evolves l l' =
    (k : ℕ) (j : Job) → find k l ≡ some j → (i : Job) × (find k l' ≡ some i) × Follows j i

pub Evolves-jobs : {l l' : List Job} → l' ≡ l → Evolves l l'
Evolves-jobs same k j found = (j, ap (find k) same ∙ found, Follows-same j)

pub Evolves-replace :
    (k : ℕ) (old new : Job) (l : List Job) {l' : List Job}
    → find k l ≡ some old
    → new.id ≡ old.id
    → l' ≡ replace k new l
    → Follows old new
    → Evolves l l'
Evolves-replace k old new l there same made f i j found =
    let row = find-replace i k new l (same ∙ find-id k l there) in
    elim (eq-cases i k) [
      | inl at ↦
          let one : old ≡ j = ground (arith, ap (λ (m : ℕ). find m l) at) in
          (new, ap (find i) made ∙ ground arith, subst (λ x. Follows x new) one f)
      | inr apart ↦ (j, ap (find i) made ∙ ground arith, Follows-same j)
    ]
