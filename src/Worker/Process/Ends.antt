-- ===== src/Worker/Process/Ends.antt =====
-- However the work ends, the worker gives the lease up.
use mathlib.Core.Path.{subst}
use case_fullstack_senior.Prelude.{
  String, true, false, ◌≡◌, refl, ◌∙◌, ap, Option, none, some, arith, inl, inr, Option-cases,
  Bool-cases,
}
use case_fullstack_senior.Db.Schema.{Status, done, failed, Job, Db}
use case_fullstack_senior.Db.Query.{find, replace}
use case_fullstack_senior.Db.Laws.{find-id, find-replace}
use case_fullstack_senior.Worker.{
  Claim, finalize, finish_row, record_failure, fail_row, acknowledge_cancellation, holds_lease,
  release_row,
}
use case_fullstack_senior.Worker.Cases.{
  finalize-cases, record_failure-cases, rewritten, jobs-settle,
}
use case_fullstack_senior.Invariant.Finish.{jobs-settle_result}
use case_fullstack_senior.Worker.Process.{
  Exc, job_cancelled, fatal_monitor, other, Environment, conclude, process, cause,
}

-- The worker of the claim does not hold the lease of its job.
abbrev pub IsReleased : Claim → Db → Type 0
IsReleased c db = (j : Job) → find c.id db.jobs ≡ some j → holds_lease c.worker_id j ≡ false

module _ (c : Claim) (db : Db) where
  finalize-held :
      {j : Job}
      → find c.id db.jobs ≡ some j
      → holds_lease c.worker_id j ≡ true
      → (finalize c db).0 ≡ done
  unfolding finalize
  finalize-held found held = ground arith

  record_failure-held :
      (error : String) {j : Job}
      → find c.id db.jobs ≡ some j
      → holds_lease c.worker_id j ≡ true
      → (record_failure c error db).0 ≡ failed
  unfolding record_failure
  record_failure-held error found held = ground arith

  -- A transaction that fails without the lease, and leaves a row without one otherwise.
  lost-IsReleased :
      ((j : Job) → find c.id db.jobs ≡ some j → holds_lease c.worker_id j ≡ true → ⊥)
      → IsReleased c db
  lost-IsReleased no_lease j there = elim (Bool-cases (holds_lease c.worker_id j)) [
    | inl held ↦ absurd (no_lease j there held)
    | inr free ↦ free
  ]

  finalize-IsReleased : IsReleased c (finalize c db).1
  finalize-IsReleased = elim (finalize-cases c db) [
    | inl lost ↦
        rw lost (lost-IsReleased (λ j there held. ground (arith, finalize-held there held)))
    | inr (i, found, _, made) ↦ λ j there.
        let row : find c.id (replace c.id (finish_row db.now i) db.jobs)
            ≡ some (finish_row db.now i) =
          ground (
            arith,
            find-replace c.id c.id (finish_row db.now i) db.jobs (find-id c.id db.jobs found),
          ) in
        let tables =
          ap (λ (x : Status × Db). find c.id x.1.jobs) made
          ∙ ap (find c.id) (jobs-settle_result c (rewritten c.id (finish_row db.now i) db)) in
        let one : finish_row db.now i ≡ j = ground arith in
        subst (λ x. holds_lease c.worker_id x ≡ false) one refl
  ]

  record_failure-IsReleased : (error : String) → IsReleased c (record_failure c error db).1
  record_failure-IsReleased error = elim (record_failure-cases c db error) [
    | inl lost ↦
        rw lost
          (lost-IsReleased (λ j there held. ground (arith, record_failure-held error there held)))
    | inr (i, found, _, made) ↦ λ j there.
        let row : find c.id (replace c.id (fail_row db.now error i) db.jobs)
            ≡ some (fail_row db.now error i) =
          ground (
            arith,
            find-replace c.id c.id (fail_row db.now error i) db.jobs (find-id c.id db.jobs found),
          ) in
        let tables =
          ap (λ (x : Status × Db). find c.id x.1.jobs) made
          ∙ ap (find c.id) (
              jobs-settle c.id c.company_id c.trace_id c.attempts error
                (rewritten c.id (fail_row db.now error i) db)) in
        let one : fail_row db.now error i ≡ j = ground arith in
        subst (λ x. holds_lease c.worker_id x ≡ false) one refl
  ]

  -- An acknowledged cancellation leaves a cancelled row.
  acknowledge_cancellation-IsReleased :
      (acknowledge_cancellation c db).0 ≡ true → IsReleased c (acknowledge_cancellation c db).1
  unfolding acknowledge_cancellation
  acknowledge_cancellation-IsReleased told j there = elim (Option-cases (find c.id db.jobs)) [
    | inl gone ↦ absurd (ground arith)
    | inr (i, found) ↦
        ground (
          arith,
          find-replace c.id c.id (release_row db.now i) db.jobs (find-id c.id db.jobs found),
        )
  ]

conclude-IsReleased :
    (env : Environment) (c : Claim) (e : Option Exc) (db : Db)
    → IsReleased c (conclude env c e db).1
unfolding conclude
conclude-IsReleased env c none db = finalize-IsReleased c db
conclude-IsReleased env c (some job_cancelled) db =
    elim (Bool-cases (acknowledge_cancellation c db).0) [
      | inl told ↦ rw told (acknowledge_cancellation-IsReleased c db told)
      | inr untold ↦
          rw untold (record_failure-IsReleased c (acknowledge_cancellation c db).1 (cause env))
    ]
conclude-IsReleased env c (some (fatal_monitor t)) db = record_failure-IsReleased c db t
conclude-IsReleased env c (some (other t)) db = record_failure-IsReleased c db t

-- Whatever the threads and the other transactions do, when the processing of a claim returns or
-- raises, its worker does not hold the lease of the job.
pub process-IsReleased :
    (env : Environment) (c : Claim) (db : Db) → IsReleased c (process env c db).1
unfolding process
process-IsReleased env c db = conclude-IsReleased env c _ (env.during db)
