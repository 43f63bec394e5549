-- ===== src/Worker/Fencing.antt =====
-- A worker whose lease is gone cannot write: what it tries after a cancellation, after another
-- worker's recovery or after its own result changes nothing.
use mathlib.Core.Path.{subst}
use case_fullstack_senior.Prelude.{
  ℕ, String, true, false, ◌≡◌, refl, ◌∙◌, ap, sym, Option, some, arith, inl, inr, Option-cases,
}
use case_fullstack_senior.Db.Schema.{Status, done, cancelled, is_running, Job, Db}
use case_fullstack_senior.Db.Query.{find, replace}
use case_fullstack_senior.Db.Laws.{find-id, find-replace}
use case_fullstack_senior.Service.{JobRef, cancel_job, cancel_row, owned_job}
use case_fullstack_senior.Service.Monad.{ok}
use case_fullstack_senior.Service.Transitions.{cancelled_row}
use case_fullstack_senior.Worker.{
  Claim, finalize, record_failure, renew_lease, acknowledge_cancellation, is_stale,
  recover_stale_jobs, finish_row, lease_error, fail_row,
}
use case_fullstack_senior.Worker.Cases.{
  finalize-cases, record_failure-cases, renew_lease-cases, rewritten, jobs-recover_stale_jobs,
}
use case_fullstack_senior.Invariant.Finish.{jobs-settle_result}
use case_fullstack_senior.Invariant.Recover.{find-fail_stale}

-- None of the worker's writes for the claim has an effect.
pub record IsFenced (c : Claim) (db : Db) : Type 0 where
  pub result : finalize c db ≡ (cancelled, db)
  pub failure : (error : String) → record_failure c error db ≡ (cancelled, db)
  pub renewal : renew_lease c db ≡ (false, db)

-- A row that is not running fences every claim of its job.
pub IsFenced-idle :
    (c : Claim) (db : Db) {j : Job}
    → find c.id db.jobs ≡ some j
    → is_running j.status ≡ false
    → IsFenced c db
IsFenced-idle c db {j} found idle = record {
  result = elim (finalize-cases c db) [ inl e ↦ e | inr (i, f, held, _) ↦ absurd (ground arith) ];
  failure = λ error. elim (record_failure-cases c db error) [
    | inl e ↦ e
    | inr (i, f, held, _) ↦ absurd (ground arith)
  ];
  renewal = elim (renew_lease-cases c db) [
    | inl e ↦ e
    | inr (i, f, held, _) ↦ absurd (ground arith)
  ];
}

owned_job-find : (c k : ℕ) (db : Db) {j : Job} → owned_job c k db ≡ some j → find k db.jobs ≡ some j
unfolding owned_job
owned_job-find c k db {j} owned = elim (Option-cases (find k db.jobs)) [
  | inl gone ↦ absurd (ground arith)
  | inr (i, found) ↦ ground arith
]

-- If a cancellation succeeds, then no claim of the job can write any more: its finalisation and
-- its failure answer `cancelled` and change nothing, its renewal finds the lease lost, and its
-- acknowledgement answers that the job is cancelled.
pub cancel_job-IsFenced :
    (c k : ℕ) (by : String) (trace : Option String) (db : Db) {r : JobRef} {db' : Db}
    (claim : Claim)
    → cancel_job c k by trace db ≡ (ok r, db')
    → claim.id ≡ k
    → IsFenced claim db' × ((acknowledge_cancellation claim db').0 ≡ true)
unfolding acknowledge_cancellation owned_job
cancel_job-IsFenced c k by trace db {r} {db'} claim e same =
    let (j, owned) = cancelled_row c k by by trace trace db e in
    let there : find claim.id db'.jobs ≡ some (cancel_row db.now j) =
      subst (λ n. find n db'.jobs ≡ some (cancel_row db.now j)) (sym same)
        (owned_job-find c k db' owned) in
    (IsFenced-idle claim db' there refl, rw there refl)

-- If a finalisation ends `done`, then no claim of the job can write any more: a further
-- finalisation or failure answers `cancelled` and changes nothing, and a renewal finds its lease
-- lost.
pub finalize-IsFenced :
    (c claim : Claim) (db : Db) {db' : Db}
    → finalize c db ≡ (done, db')
    → claim.id ≡ c.id
    → IsFenced claim db'
finalize-IsFenced c claim db {db'} e same = elim (finalize-cases c db) [
  | inl lost ↦ absurd (ground arith)
  | inr (j, found, _, made) ↦
      let row : Job = finish_row db.now j in
      let tables : db'.jobs ≡ replace c.id row db.jobs =
        ap (λ (x : Status × Db). x.1.jobs) (sym e ∙ made)
        ∙ jobs-settle_result c (rewritten c.id row db) in
      let there : find c.id db'.jobs ≡ some row =
        ap (find c.id) tables
        ∙ ground (arith, find-replace c.id c.id row db.jobs (find-id c.id db.jobs found)) in
      IsFenced-idle claim db' (subst (λ n. find n db'.jobs ≡ some row) (sym same) there) refl
]

-- If the lease of a job has expired, then after a recovery no claim of that job can write any
-- more: a finalisation or a failure answers `cancelled` and changes nothing, and a renewal finds
-- its lease lost.
pub recover_stale_jobs-IsFenced :
    (lease : ℕ) (db : Db) (claim : Claim) {j : Job}
    → find claim.id db.jobs ≡ some j
    → is_stale lease db.now j ≡ true
    → IsFenced claim (recover_stale_jobs lease db).1
recover_stale_jobs-IsFenced lease db claim {j} found stale =
    let there : find claim.id (recover_stale_jobs lease db).1.jobs
        ≡ some (fail_row db.now lease_error j) =
      ap (find claim.id) (jobs-recover_stale_jobs lease db)
      ∙ ground (arith, find-fail_stale lease db claim.id) in
    IsFenced-idle claim (recover_stale_jobs lease db).1 there refl
