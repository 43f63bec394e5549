-- ===== src/System/Fits.antt =====
-- The kinds and the companies of the jobs over the steps of a system whose submissions passed the
-- validation of a request. Rows has the transactions, Kept the steps.
pub mod Rows
pub mod Kept
pub mod Submitted
use mathlib.Core.Path.{subst}
use case_fullstack_senior.Prelude.{
  ◌++◌, [], ◌∷◌, ℕ, suc, ◌+◌, ◌≤◌, String, Bool, true, false, ◌≡◌, refl, ap, sym, ◌∙◌, Option, none,
  some, List, ◌==◌, if◌then◌else◌, inl, inr, Bool-cases, Option-cases, arith,
}
use case_fullstack_senior.Prelude.Text.{codes}
use case_fullstack_senior.Db.Schema.{Status, EventType, Channel, Job, Db}
use case_fullstack_senior.Db.Query.{find, replace, notify, insert_event_once}
use case_fullstack_senior.Db.Laws.{find-id, find-replace, find-append}
use case_fullstack_senior.Service.{
  JobRef, create_job, cancel_job, cancel_row, retry_job, retry_row, new_job,
}
use case_fullstack_senior.Service.Monad.{Result}
use case_fullstack_senior.Service.Cases.{
  jobs-written, written, announced, appended, create_job-cases, cancel_job-cases, retry_job-cases,
}
use case_fullstack_senior.Worker.{
  Claim, Claimed, claim_next, claim_row, finalize, finish_row, record_failure, fail_row,
  renew_lease, recover_stale_jobs, lease_error, is_stale,
}
use case_fullstack_senior.Worker.Cases.{
  claim_next-cases, finalize-cases, record_failure-cases, renew_lease-cases, rewritten, jobs-settle,
  jobs-recover_stale_jobs, next_job_id-settle, next_job_id-recover_stale_jobs,
}
use case_fullstack_senior.Invariant.{IsUnique}
use case_fullstack_senior.Invariant.Create.{jobs-announced, next_job_id-announced}
use case_fullstack_senior.Invariant.Claim.{acknowledge_cancellation-idle}
use case_fullstack_senior.Invariant.Finish.{jobs-settle_result, next_job_id-settle_result}
use case_fullstack_senior.Invariant.Recover.{fail_if_stale, find-fail_stale}
use case_fullstack_senior.Http.Schemas.Create.{accepted_kind}
use case_fullstack_senior.Http.Schemas.Rows.{IsFit, AllFit}
use case_fullstack_senior.System.{
  System, Step, create, cancel, retry, claim, renew, finish, fail, acknowledge, crash, recover,
  wait, IsConsistent, Reach, here, next,
}
use case_fullstack_senior.System.Reachable.{Step-IsConsistent}

-- Every row was there, with its company and its kind.
abbrev pub Returns : List Job → List Job → Type 0
Returns jobs jobs' =
    (k : ℕ) (i : Job)
    → find k jobs' ≡ some i
    → (j : Job) × (find k jobs ≡ some j) × (i.company_id ≡ j.company_id) × (i.kind ≡ j.kind)

pub Returns-same : {jobs jobs' : List Job} → jobs' ≡ jobs → Returns jobs jobs'
Returns-same e k i found = (i, sym (ap (find k) e) ∙ found, refl, refl)

pub Returns-replace :
    (k : ℕ) (j row : Job) (jobs : List Job) {jobs' : List Job}
    → find k jobs ≡ some j
    → row.id ≡ j.id
    → row.company_id ≡ j.company_id
    → row.kind ≡ j.kind
    → jobs' ≡ replace k row jobs
    → Returns jobs jobs'
Returns-replace k j row jobs found id company kind tables n i there =
    let numbered : row.id ≡ k = id ∙ find-id k jobs found in
    let seen = sym (find-replace n k row jobs numbered) ∙ sym (ap (find n) tables) ∙ there in
    elim (Bool-cases (n == k)) [
      | inl at ↦
          let same : n ≡ k = ground arith in
          let now : row ≡ i = ground arith in
          (
            j,
            ap (λ m. find m jobs) same ∙ found,
            ap (λ (x : Job). x.company_id) (sym now) ∙ company,
            ap (λ (x : Job). x.kind) (sym now) ∙ kind,
          )
      | inr away ↦ (i, ground arith, refl, refl)
    ]

-- The rows return, and the sequence of the keys stands still.
pub record Quiet (db db' : Db) : Type 0 where
  pub returns : Returns db.jobs db'.jobs
  pub next_kept : db'.next_job_id ≡ db.next_job_id

pub Quiet-same : {db db' : Db} → db' ≡ db → Quiet db db'
Quiet-same e = record {
  returns = Returns-same (ap (λ (d : Db). d.jobs) e);
  next_kept = ap (λ (d : Db). d.next_job_id) e;
}

-- What is kept: the rows fit, and the next key is a positive number.
pub record IsFitting (is_white : ℕ → Bool) (db : Db) : Type 0 where
  pub fit : AllFit is_white db
  pub next_positive : 1 ≤ db.next_job_id

-- The request of a submission passed its validation, in a company's account.
abbrev pub IsAccepted : {s t : System} → (ℕ → Bool) → Step s t → Type 0
IsAccepted is_white (create c kind trace key by) =
    (1 ≤ c) × ((sent : String) × (accepted_kind is_white sent ≡ some kind))
IsAccepted is_white _ = Unit

abbrev pub AllAccepted : {s t : System} → (ℕ → Bool) → Reach s t → Type 0
AllAccepted is_white here = Unit
AllAccepted is_white (next r step) = AllAccepted is_white r × IsAccepted is_white step
