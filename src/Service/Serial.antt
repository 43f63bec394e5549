-- ===== src/Service/Serial.antt =====
-- `create_job` against a reference: the second lookup under the company's lock, the ON CONFLICT
-- clause and the missing row change nothing for a request that does not wait, and give a request
-- that waits the answer that it would get later.
use case_fullstack_senior.Prelude.{
  ℕ, String, Bool, true, ◌≡◌, refl, Option, none, some, arith, leb, inl, inr, if◌then◌else◌,
  Option-cases, Bool-cases, ◌∙◌, sym,
}
use case_fullstack_senior.Db.Schema.{Company, Db}
use case_fullstack_senior.Db.Query.{find_company, active_jobs}
use case_fullstack_senior.Service.{JobRef, ref_of, new_job, find_by_key, replay, create_job}
use case_fullstack_senior.Service.Monad.{Action, ok, err, company_unknown, concurrency_limit}
use case_fullstack_senior.Service.Cases.{announced, appended}
use case_fullstack_senior.Service.Submission.{
  create_job-replay, create_job-replay_late, create_job-unknown, create_job-made,
  create_job-at_limit,
}

-- One lookup of the key, one of the company, one count, one row.
abbrev pub submission : ℕ → String → Option String → String → Option String → Action (JobRef × Bool)
submission c kind trace key by db = elim (find_by_key c key db) [
  | some j ↦ replay j kind db
  | none ↦ elim (find_company c db.companies) [
    | none ↦ (err (company_unknown c), db)
    | some co ↦
        if leb co.max_concurrent_jobs (active_jobs c db.jobs)
        then (err (concurrency_limit co.max_concurrent_jobs (active_jobs c db.jobs)), db)
        else let j = new_job c kind trace key db in
          (ok (ref_of j, true), announced j c by trace (appended j db))
  ]
]

module _ (c : ℕ) (kind : String) (trace : Option String) (key : String) (by : Option String)
    (db : Db) where
  -- A submission that does not wait does what the reference `submission` does, on every branch: one
  -- lookup of the key, one of the company, the count against the limit, and one new row.
  pub create_job-submission :
      create_job (λ db. db) c kind trace key by db ≡ submission c kind trace key by db
  create_job-submission = elim (Option-cases (find_by_key c key db)) [
    | inr (j, found) ↦
        create_job-replay (λ db. db) c kind trace key by db found ∙ rw (submission, found) refl
    | inl new ↦ elim (Option-cases (find_company c db.companies)) [
      | inl unknown ↦
          create_job-unknown (λ db. db) c kind trace key by db new unknown
          ∙ rw (submission, new, unknown) refl
      | inr (co, known) ↦ elim (Bool-cases (leb co.max_concurrent_jobs (active_jobs c db.jobs))) [
        | inl full ↦
            create_job-at_limit (λ db. db) c kind trace key by db new known new (ground arith)
            ∙ rw (submission, new, known, full) refl
        | inr room ↦
            create_job-made (λ db. db) c kind trace key by db new known new room
            ∙ rw (submission, new, known, room) refl
      ]
    ]
  ]

  -- A submission of a known company that finds its key new, and then waits for the company's lock
  -- while other transactions commit, does what it would do if it came after them: a job that they
  -- created for the key is its answer, also where they filled the company's limit.
  pub create_job-serial :
      (others : Db → Db) {co : Company}
      → find_by_key c key db ≡ none
      → find_company c (others db).companies ≡ some co
      → create_job others c kind trace key by db
        ≡ create_job (λ db. db) c kind trace key by (others db)
  create_job-serial others {co} new known = elim (Option-cases (find_by_key c key (others db))) [
    | inr (j, found) ↦
        create_job-replay_late others c kind trace key by db new known found
        ∙ sym (create_job-replay (λ db. db) c kind trace key by (others db) found)
    | inl still ↦ elim (Bool-cases (leb co.max_concurrent_jobs (active_jobs c (others db).jobs))) [
      | inl full ↦
          create_job-at_limit others c kind trace key by db new known still (ground arith)
          ∙ sym (
              create_job-at_limit (λ db. db) c kind trace key by (others db) still known still
                (ground arith))
      | inr room ↦
          create_job-made others c kind trace key by db new known still room
          ∙ sym (create_job-made (λ db. db) c kind trace key by (others db) still known still room)
    ]
  ]
