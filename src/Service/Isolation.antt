-- ===== src/Service/Isolation.antt =====
-- What one company requests does not touch the jobs of another.
use case_fullstack_senior.Prelude.{
  ℕ, String, ◌≡◌, ◌≢◌, refl, ◌∙◌, ap, sym, Option, some, arith, inl, inr, eq-cases,
}
use case_fullstack_senior.Db.Schema.{Job, Db}
use case_fullstack_senior.Db.Query.{find, replace}
use case_fullstack_senior.Db.Laws.{find-id, find-replace, find-append}
use case_fullstack_senior.Service.{
  create_job, cancel_job, cancel_row, retry_job, retry_row, new_job,
}
use case_fullstack_senior.Service.Cases.{
  jobs-written, cancel_job-cases, retry_job-cases, create_job-cases,
}
use case_fullstack_senior.Invariant.Create.{jobs-announced}

module _ (c i : ℕ) (j : Job) (db : Db) (there : find i db.jobs ≡ some j)
    (foreign : j.company_id ≢ c) where
  -- The row of one company is not the row of another.
  replace-foreign :
      (k : ℕ) (o n : Job)
      → find k db.jobs ≡ some o
      → o.company_id ≡ c
      → n.id ≡ o.id
      → find i (replace k n db.jobs) ≡ some j
  replace-foreign k o n found mine same = elim (eq-cases i k) [
    | inl at ↦
        let one : o ≡ j = ground (arith, ap (λ (m : ℕ). find m db.jobs) at) in
        absurd (foreign (ap (λ (x : Job). x.company_id) (sym one) ∙ mine))
    | inr apart ↦ ground (arith, find-replace i k n db.jobs (same ∙ find-id k db.jobs found))
  ]

  pub cancel_job-isolated :
      (k : ℕ) (by : String) (trace : Option String)
      → find i (cancel_job c k by trace db).1.jobs ≡ some j
  cancel_job-isolated k by trace = elim (cancel_job-cases c k by trace db) [
    | inl (same, _) ↦ rw same there
    | inr (o, found, active, e) ↦
        rw (e, jobs-written) (replace-foreign k o (cancel_row db.now o) found (ground arith) refl)
  ]

  pub retry_job-isolated :
      (k : ℕ) (by : String) (trace : Option String)
      → find i (retry_job c k by trace db).1.jobs ≡ some j
  retry_job-isolated k by trace = elim (retry_job-cases c k by trace db) [
    | inl (same, _) ↦ rw same there
    | inr (o, found, active, e) ↦
        rw (e, jobs-written)
          (replace-foreign k o (retry_row db.now trace o) found (ground arith) refl)
  ]

  pub create_job-isolated :
      (kind : String) (trace : Option String) (key : String) (by : Option String)
      → find i (create_job (λ db. db) c kind trace key by db).1.jobs ≡ some j
  create_job-isolated kind trace key by =
      elim (create_job-cases c kind trace key by (λ db. db) db) [
        | inl (inl same, _) ↦ rw same there
        | inl (inr same, _) ↦ rw same there
        | inr (co, known, room, (new, e)) ↦
            rw (e, jobs-announced)
              (find-append i db.jobs (new_job c kind trace key db) ∙ ground arith)
      ]

  -- If a job belongs to another company than c, then a submission that does not wait, a
  -- cancellation and a retry of company c, with any key and any job number, leave that job's row
  -- as it was.
  pub requests-isolated :
      (k : ℕ) (kind key by : String) (trace by' : Option String)
      → (find i (create_job (λ db. db) c kind trace key by' db).1.jobs ≡ some j)
        × (find i (cancel_job c k by trace db).1.jobs ≡ some j)
        × (find i (retry_job c k by trace db).1.jobs ≡ some j)
  requests-isolated k kind key by trace by' = (
    create_job-isolated kind trace key by',
    cancel_job-isolated k by trace,
    retry_job-isolated k by trace,
  )
