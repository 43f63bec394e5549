-- ===== src/System/Kept.antt =====
-- Which transactions leave the leases alone: all but the claim.
use case_fullstack_senior.Prelude.{
  ℕ, String, refl, ◌∙◌, Option, some, arith, inl, inr, ap, Bool-cases,
}
use case_fullstack_senior.Db.Schema.{Db}
use case_fullstack_senior.Db.Query.{find}
use case_fullstack_senior.Db.Laws.{find-id}
use case_fullstack_senior.Service.{
  cancel_job, cancel_row, retry_job, retry_row, create_job, new_job,
}
use case_fullstack_senior.Service.Cases.{
  jobs-written, appended, cancel_job-cases, retry_job-cases, create_job-cases,
}
use case_fullstack_senior.Worker.{
  Claim, finalize, finish_row, record_failure, fail_row, renew_lease, recover_stale_jobs, is_stale,
}
use case_fullstack_senior.Worker.Cases.{
  jobs-settle, jobs-recover_stale_jobs, finalize-cases, record_failure-cases, renew_lease-cases,
}
use case_fullstack_senior.Worker.Leases.{
  NoNewLease, NoNewLease-refl, NoNewLease-replace, NoNewLease-append, NoNewLease-map,
}
use case_fullstack_senior.Invariant.Recover.{fail_if_stale, find-fail_stale}
use case_fullstack_senior.Invariant.Create.{jobs-announced}
use case_fullstack_senior.Invariant.Finish.{jobs-settle_result}

pub cancel_job-NoNewLease :
    (c k : ℕ) (by : String) (trace : Option String) (db : Db)
    → NoNewLease db (cancel_job c k by trace db).1
cancel_job-NoNewLease c k by trace db = elim (cancel_job-cases c k by trace db) [
  | inl (same, _) ↦ rw same (NoNewLease-refl db)
  | inr (j, found, _, e) ↦ rw e (
      NoNewLease-replace k j (cancel_row db.now j) db _ found (find-id k db.jobs found)
        (jobs-written k _ c _ by trace _ db) (λ w h. absurd (ground arith)))
]

pub retry_job-NoNewLease :
    (c k : ℕ) (by : String) (trace : Option String) (db : Db)
    → NoNewLease db (retry_job c k by trace db).1
retry_job-NoNewLease c k by trace db = elim (retry_job-cases c k by trace db) [
  | inl (same, _) ↦ rw same (NoNewLease-refl db)
  | inr (j, found, _, e) ↦ rw e (
      NoNewLease-replace k j (retry_row db.now trace j) db _ found (find-id k db.jobs found)
        (jobs-written k _ c _ by trace _ db) (λ w h. absurd (ground arith)))
]

pub create_job-NoNewLease :
    (c : ℕ) (kind : String) (trace : Option String) (key : String) (by : Option String) (db : Db)
    → NoNewLease db (create_job (λ db. db) c kind trace key by db).1
create_job-NoNewLease c kind trace key by db =
    elim (create_job-cases c kind trace key by (λ db. db) db) [
      | inl (inl same, _) ↦ rw same (NoNewLease-refl db)
      | inl (inr same, _) ↦ rw same (NoNewLease-refl db)
      | inr (_, _, _, (_, e)) ↦ rw e (
          NoNewLease-append (new_job c kind trace key db) db _
            (jobs-announced (new_job c kind trace key db) c by trace
              (appended (new_job c kind trace key db) db))
            (λ w. refl))
    ]

pub finalize-NoNewLease : (c : Claim) (db : Db) → NoNewLease db (finalize c db).1
finalize-NoNewLease c db = elim (finalize-cases c db) [
  | inl same ↦ rw same (NoNewLease-refl db)
  | inr (j, found, _, e) ↦ rw e (
      NoNewLease-replace c.id j (finish_row db.now j) db _ found (find-id c.id db.jobs found)
        (jobs-settle_result c _) (λ w h. absurd (ground arith)))
]

pub record_failure-NoNewLease :
    (c : Claim) (error : String) (db : Db) → NoNewLease db (record_failure c error db).1
record_failure-NoNewLease c error db = elim (record_failure-cases c db error) [
  | inl same ↦ rw same (NoNewLease-refl db)
  | inr (j, found, _, e) ↦ rw e (
      NoNewLease-replace c.id j (fail_row db.now error j) db _ found (find-id c.id db.jobs found)
        (jobs-settle c.id _ _ _ error _) (λ w h. absurd (ground arith)))
]

pub renew_lease-NoNewLease : (c : Claim) (db : Db) → NoNewLease db (renew_lease c db).1
renew_lease-NoNewLease c db = elim (renew_lease-cases c db) [
  | inl same ↦ rw same (NoNewLease-refl db)
  | inr (j, found, held, e) ↦ rw e (
      NoNewLease-replace c.id j (record j { locked_at = some db.now }) db _ found
        (find-id c.id db.jobs found) refl
        (λ w h. record { row = j; found = found; held = h; attempts = refl; company_id = refl }))
]

module _ (lease : ℕ) (db : Db) where
  pub recover_stale_jobs-NoNewLease : NoNewLease db (recover_stale_jobs lease db).1
  recover_stale_jobs-NoNewLease =
      NoNewLease-map (fail_if_stale lease db) db _
        (λ k. ap (find k) (jobs-recover_stale_jobs lease db) ∙ find-fail_stale lease db k)
        (λ k w j found h. elim (Bool-cases (is_stale lease db.now j)) [
          | inl stale ↦ absurd (ground arith)
          | inr live ↦ record {
            row = j;
            found = found;
            held = ground arith;
            attempts = ground arith;
            company_id = ground arith;
          }
        ])
