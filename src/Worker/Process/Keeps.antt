-- ===== src/Worker/Process/Keeps.antt =====
-- `process_next` keeps the invariant, if what other transactions commit meanwhile keeps it and
-- gives this worker no other lease.
use mathlib.Core.Path.{subst}
use case_fullstack_senior.Prelude.{
  ℕ, String, Bool, ap, sym, Option, none, some, inl, inr, Bool-cases,
}
use case_fullstack_senior.Db.Schema.{Db}
use case_fullstack_senior.Worker.{
  Claim, Claimed, claim_of, claim_row, acknowledge_cancellation, recover_stale_jobs, lease_timeout,
}
use case_fullstack_senior.Worker.Cases.{claim_next-cases, rewritten}
use case_fullstack_senior.Worker.Leases.{NoNewLease, IsHeld, IsHeld-of_NoNewLease, claim_row-IsHeld}
use case_fullstack_senior.Worker.Process.{
  Exc, job_cancelled, fatal_monitor, other, Environment, conclude, supervised, process,
  process_claimed, process_next, cause,
}
use case_fullstack_senior.Invariant.{IsValid}
use case_fullstack_senior.Invariant.Claim.{claim_next-IsValid, acknowledge_cancellation-idle}
use case_fullstack_senior.Invariant.Finish.{finalize-IsValid, record_failure-IsValid}
use case_fullstack_senior.Invariant.Recover.{recover_stale_jobs-IsValid}

conclude-IsValid :
    (env : Environment) (c : Claim) (e : Option Exc) (db : Db)
    → IsHeld c db
    → IsValid db
    → IsValid (conclude env c e db).1
unfolding conclude
conclude-IsValid env c none db own h = finalize-IsValid c db h
conclude-IsValid env c (some job_cancelled) db own h =
    rw (acknowledge_cancellation-idle c db h) (elim (Bool-cases (acknowledge_cancellation c db).0) [
      | inl told ↦ rw told h
      | inr untold ↦ rw untold (record_failure-IsValid c (cause env) db own h)
    ])
conclude-IsValid env c (some (fatal_monitor t)) db own h = record_failure-IsValid c t db own h
conclude-IsValid env c (some (other t)) db own h = record_failure-IsValid c t db own h

-- What the other transactions may commit.
pub record IsFair (env : Environment) : Type 0 where
  pub valid : (db : Db) → IsValid db → IsValid (env.during db)
  pub leases : (db : Db) → NoNewLease db (env.during db)

process-IsValid :
    (env : Environment) (c : Claim) (db : Db)
    → IsFair env
    → IsHeld c db
    → IsValid db
    → IsValid (process env c db).1
unfolding process
process-IsValid env c db fair own h =
    conclude-IsValid env c (supervised env c (env.during db)) (env.during db)
      (IsHeld-of_NoNewLease c (fair.leases db) own) (fair.valid db h)

-- If what other transactions commit meanwhile keeps the tables valid and gives no worker a lease,
-- then one call of `process_next`, with any behaviour of its threads and any end of the work,
-- keeps the tables valid.
pub process_next-IsValid :
    (worker : String) (locked : ℕ → Bool) (env : Environment) (db : Db)
    → IsFair env
    → IsValid db
    → IsValid (process_next worker locked env db).1
unfolding process_next process_claimed
process_next-IsValid worker locked env db fair h =
    let recovered = (recover_stale_jobs lease_timeout db).1 in
    let valid : IsValid recovered = recover_stale_jobs-IsValid lease_timeout db h in
    let ends : Claimed × Db → Type 0 = λ r. IsValid (process_claimed env r).1 in
    elim (claim_next-cases worker locked recovered valid.keyed.unique) [
      | inl (nothing, _) ↦ subst ends (sym nothing) valid
      | inr (j, found, _, _, made) ↦
          let row = claim_row recovered.now worker j in
          let taken : IsValid (rewritten j.id row recovered) =
            subst IsValid (ap (λ (r : Claimed × Db). r.1) made)
              (claim_next-IsValid worker locked recovered valid) in
          subst ends (sym made) (
            process-IsValid env (claim_of worker row) (rewritten j.id row recovered) fair
              (claim_row-IsHeld worker j recovered) taken)
    ]
