-- ===== src/Service/Submission.antt =====
-- `create_job`: the limit of concurrent jobs, idempotent replays, and the race for a key.
use mathlib.Core.Path.{subst}
use case_fullstack_senior.Prelude.{
  ℕ, ◌+◌, ◌≤◌, String, Bool, true, false, ◌≡◌, refl, Option, none, some, List, [], ◌∷◌, ◌++◌, arith,
  leb, str_eq, eq_iff, if◌then◌else◌, inl, inr, select, fetchone, count-append, ap, sym, ◌∙◌,
  Option-cases, Bool-cases,
}
use case_fullstack_senior.Db.Schema.{Company, Job, Db}
use case_fullstack_senior.Db.Query.{find_company, active_jobs}
use case_fullstack_senior.Service.{JobRef, ref_of, new_job, find_by_key, replay, create_job}
use case_fullstack_senior.Service.Monad.{
  Result, ok, err, company_unknown, concurrency_limit, idempotency_key_conflict,
}
use case_fullstack_senior.Service.Cases.{announced, appended, create_job-cases}
use case_fullstack_senior.Invariant.Create.{jobs-announced}

module _ (others : Db → Db) (c : ℕ) (kind : String) (trace : Option String) (key : String)
    (by : Option String) (db : Db) where
  -- If a submission creates a job, then the company is known, its active jobs are one more than
  -- when the submission had its lock, and they are within its limit.
  pub create_job-within_limit :
      {r : JobRef} {db' : Db}
      → create_job others c kind trace key by db ≡ (ok (r, true), db')
      → (co : Company) × (find_company c (others db).companies ≡ some co)
        × (active_jobs c db'.jobs ≡ active_jobs c (others db).jobs + 1)
        × (active_jobs c db'.jobs ≤ co.max_concurrent_jobs)
  create_job-within_limit {r} {db'} made = elim (create_job-cases c kind trace key by others db) [
    | inl (_, old) ↦ absurd (ground arith)
    | inr (co, known, room, (new, e)) ↦
        let j = new_job c kind trace key (others db) in
        let tables : db'.jobs ≡ (others db).jobs ++ j ∷ [] =
          ap (λ (x : Result (JobRef × Bool) × Db). x.1.jobs) (sym made ∙ e)
          ∙ jobs-announced j c by trace (appended j (others db)) in
        let more : active_jobs c db'.jobs ≡ active_jobs c (others db).jobs + 1 =
          rw (tables, count-append) (ground arith) in
        (co, known, more, omega arith)
  ]

  -- A key that the company has used answers with the job that is there, and changes nothing; with
  -- another kind it is a conflict.
  pub create_job-used_key :
      {j : Job}
      → find_by_key c key db ≡ some j
      → create_job others c kind trace key by db ≡ (
          if str_eq j.kind kind
          then (ok (ref_of j, false), db)
          else (err (idempotency_key_conflict j.kind), db))
  unfolding create_job
  create_job-used_key found = ground arith

  -- At the limit no job is created.
  pub create_job-at_limit :
      {co : Company}
      → find_by_key c key db ≡ none
      → find_company c (others db).companies ≡ some co
      → find_by_key c key (others db) ≡ none
      → co.max_concurrent_jobs ≤ active_jobs c (others db).jobs
      → create_job others c kind trace key by db ≡ (
        err (concurrency_limit co.max_concurrent_jobs (active_jobs c (others db).jobs)),
        others db,
      )
  unfolding create_job
  create_job-at_limit new known still full = ground arith

fetchone-append :
    (p : Job → Bool) (l : List Job) (j : Job)
    → fetchone (select p l) ≡ none
    → p j ≡ true
    → fetchone (select p (l ++ j ∷ [])) ≡ some j
fetchone-append p [] j h e = ground arith
fetchone-append p (x ∷ l) j h e = ground (arith, fetchone-append p l j)

-- The job that an answer names is the job that its key finds from then on.
abbrev Answers : ℕ → String → String → JobRef → Db → Type 0
Answers c key kind r db =
    (j : Job) × (find_by_key c key db ≡ some j) × (j.kind ≡ kind) × (ref_of j ≡ r)

replay-Answers :
    (c : ℕ) (key kind : String) (j : Job) (db : Db) {r : JobRef} {b : Bool} {db' : Db}
    → find_by_key c key db ≡ some j
    → replay j kind db ≡ (ok (r, b), db')
    → Answers c key kind r db'
unfolding replay
replay-Answers c key kind j db {r} {b} {db'} found e = elim (Bool-cases (str_eq j.kind kind)) [
  | inl same ↦
      let here' : db ≡ db' = ground arith in
      (
        j,
        subst (λ x. find_by_key c key x ≡ some j) here' found,
        (eq_iff j.kind kind).0 same,
        ground arith,
      )
  | inr other ↦ absurd (ground arith)
]

module _ (others : Db → Db) (c : ℕ) (kind : String) (trace : Option String) (key : String)
    (by : Option String) (db : Db) where
  pub create_job-replay :
      {j : Job}
      → find_by_key c key db ≡ some j
      → create_job others c kind trace key by db ≡ replay j kind db
  unfolding create_job
  create_job-replay found = ground arith

  pub create_job-replay_late :
      {j : Job} {co : Company}
      → find_by_key c key db ≡ none
      → find_company c (others db).companies ≡ some co
      → find_by_key c key (others db) ≡ some j
      → create_job others c kind trace key by db ≡ replay j kind (others db)
  unfolding create_job
  create_job-replay_late new known found = ground arith

  pub create_job-unknown :
      find_by_key c key db ≡ none
      → find_company c (others db).companies ≡ none
      → create_job others c kind trace key by db ≡ (err (company_unknown c), others db)
  unfolding create_job
  create_job-unknown new unknown = ground arith

  pub create_job-made :
      {co : Company}
      → find_by_key c key db ≡ none
      → find_company c (others db).companies ≡ some co
      → find_by_key c key (others db) ≡ none
      → leb co.max_concurrent_jobs (active_jobs c (others db).jobs) ≡ false
      → let j = new_job c kind trace key (others db) in
        create_job others c kind trace key by db
        ≡ (ok (ref_of j, true), announced j c by trace (appended j (others db)))
  unfolding create_job
  create_job-made new known still room = ground arith

  find_by_key-appended :
      (db' : Db)
      → db'.jobs ≡ (others db).jobs ++ new_job c kind trace key (others db) ∷ []
      → find_by_key c key (others db) ≡ none
      → find_by_key c key db' ≡ some (new_job c kind trace key (others db))
  unfolding find_by_key
  find_by_key-appended db' tables still = rw tables (
      fetchone-append _ (others db).jobs (new_job c kind trace key (others db)) still
        (ground (arith, eq_iff key key)))

  create_job-Answers :
      {r : JobRef} {b : Bool} {db' : Db}
      → create_job others c kind trace key by db ≡ (ok (r, b), db')
      → Answers c key kind r db'
  create_job-Answers {r} {b} {db'} e = elim (Option-cases (find_by_key c key db)) [
    | inr (j, found) ↦ replay-Answers c key kind j db found (sym (create_job-replay found) ∙ e)
    | inl new ↦ elim (Option-cases (find_company c (others db).companies)) [
      | inl unknown ↦ absurd (ground (arith, create_job-unknown new unknown))
      | inr (co, known) ↦ elim (Option-cases (find_by_key c key (others db))) [
        | inr (j, found) ↦
            replay-Answers c key kind j (others db) found
              (sym (create_job-replay_late new known found) ∙ e)
        | inl still ↦
            elim (Bool-cases (leb co.max_concurrent_jobs (active_jobs c (others db).jobs))) [
              | inl full ↦ absurd (
                  ground (
                    arith,
                    create_job-at_limit others c kind trace key by db new known still
                        (ground arith),
                  ))
              | inr room ↦
                  let j = new_job c kind trace key (others db) in
                  let made = sym (create_job-made new known still room) ∙ e in
                  let tables : db'.jobs ≡ (others db).jobs ++ j ∷ [] =
                    ap (λ (x : Result (JobRef × Bool) × Db). x.1.jobs) (sym made)
                    ∙ jobs-announced j c by trace (appended j (others db)) in
                  (j, find_by_key-appended db' tables still, refl, ground arith)
            ]
      ]
    ]
  ]

-- If a submission succeeds, then the same request (its company, kind and key, with any trace and
-- actor) on the tables that it left returns the same job as not created, and changes nothing.
pub create_job-repeat :
    (others again : Db → Db) (c : ℕ) (kind : String) (trace trace' : Option String) (key : String)
    (by by' : Option String) (db : Db) {r : JobRef} {b : Bool} {db' : Db}
    → create_job others c kind trace key by db ≡ (ok (r, b), db')
    → create_job again c kind trace' key by' db' ≡ (ok (r, false), db')
create_job-repeat others again c kind trace trace' key by by' db {r} {b} {db'} e =
    let (j, found, same, answer) = create_job-Answers others c kind trace key by db e in
    rw (create_job-used_key again c kind trace' key by' db' found, (eq_iff j.kind kind).1 same)
      (ap (λ (x : JobRef). (ok (x, false), db')) answer)
