-- ===== src/Http/Schemas/Numbered.antt =====
-- The validation of the answer of POST /jobs: its job has a positive number.
use mathlib.Core.Path.{subst}
use case_fullstack_senior.Prelude.{
  ℕ, String, Bool, true, ◌≡◌, ◌≤◌, refl, sym, Option, some, List, [], ◌∷◌, leb, inl, inr,
  Bool-cases, Option-cases, arith, fetchone, str_eq, ◌==◌, ◌&&◌,
}
use case_fullstack_senior.Prelude.Every.{Every, Every-select}
use case_fullstack_senior.Db.Schema.{Company, Job, Db}
use case_fullstack_senior.Db.Query.{find_company, active_jobs, text_is}
use case_fullstack_senior.Service.{JobRef, find_by_key, replay, create_job, create_locked}
use case_fullstack_senior.Service.Cases.{create_job-unlocked, create_locked-made}
use case_fullstack_senior.Service.Monad.{
  JobsError, job_not_found, result_not_found, company_unknown, concurrency_limit,
  idempotency_key_conflict, invalid_job_state, retry_limit, missing_row, Result, ok, err,
}
use case_fullstack_senior.Http.{answer, create_error, rolled_back}
use case_fullstack_senior.Http.Schemas.{validate_created, validated}

-- The job of an answer has a positive number.
abbrev pub IsNumbered : Result (JobRef × Bool) → Type 0
IsNumbered (ok (r, created)) = 1 ≤ r.id
IsNumbered (err e) = Unit

abbrev pub AllNumbered : Db → Type 0
AllNumbered db = Every (λ (j : Job). 1 ≤ j.id) db.jobs × (1 ≤ db.next_job_id)

fetchone-Every : (P : Job → Type 0) (l : List Job) {j : Job} → Every P l → fetchone l ≡ some j → P j
fetchone-Every P [] h e = absurd (ground arith)
fetchone-Every P (x ∷ l) {j} h e = let same : x ≡ j = ground arith in subst P same h.0

find_by_key-numbered :
    (c : ℕ) (key : String) (db : Db) {j : Job}
    → AllNumbered db
    → find_by_key c key db ≡ some j
    → 1 ≤ j.id
unfolding find_by_key
find_by_key-numbered c key db h found =
    fetchone-Every (λ (j : Job). 1 ≤ j.id) _
      (Every-select (λ (j : Job). 1 ≤ j.id)
        (λ j. j.company_id == c && text_is j.idempotency_key key) db.jobs h.0)
      found

replay-IsNumbered : (j : Job) (kind : String) (db : Db) → 1 ≤ j.id → IsNumbered (replay j kind db).0
unfolding replay
replay-IsNumbered j kind db one = elim (Bool-cases (str_eq j.kind kind)) [
  | inl same ↦ rw same one
  | inr other ↦ rw other tt
]

module _ (c : ℕ) (kind : String) (trace : Option String) (key : String) (by : Option String) where
  create_locked-IsNumbered :
      (co : Company) (db : Db)
      → AllNumbered db
      → IsNumbered (create_locked co c kind trace key by db).0
  unfolding create_locked
  create_locked-IsNumbered co db h = elim (Option-cases (find_by_key c key db)) [
    | inr (j, found) ↦
        let e : replay j kind db ≡ create_locked co c kind trace key by db = ground arith in
        subst (λ (r : Result (JobRef × Bool) × Db). IsNumbered r.0) e
          (replay-IsNumbered j kind db (find_by_key-numbered c key db h found))
    | inl new ↦ elim (Bool-cases (leb co.max_concurrent_jobs (active_jobs c db.jobs))) [
      | inl full ↦
          let e : (err (concurrency_limit co.max_concurrent_jobs (active_jobs c db.jobs)), db)
              ≡ create_locked co c kind trace key by db =
            ground arith in
          subst (λ (r : Result (JobRef × Bool) × Db). IsNumbered r.0) e tt
      | inr room ↦
          let (_, e) = create_locked-made c kind trace key by co db new room in
          subst (λ (r : Result (JobRef × Bool) × Db). IsNumbered r.0) (sym e) h.1
    ]
  ]

  pub create_job-IsNumbered :
      (others : Db → Db) (db : Db)
      → AllNumbered db
      → AllNumbered (others db)
      → IsNumbered (create_job others c kind trace key by db).0
  unfolding create_job
  create_job-IsNumbered others db h h' = elim (Option-cases (find_by_key c key db)) [
    | inr (j, found) ↦
        let e : replay j kind db ≡ create_job others c kind trace key by db = ground arith in
        subst (λ (r : Result (JobRef × Bool) × Db). IsNumbered r.0) e
          (replay-IsNumbered j kind db (find_by_key-numbered c key db h found))
    | inl new ↦ elim (Option-cases (find_company c (others db).companies)) [
      | inl unknown ↦
          let e : (err (company_unknown c), others db) ≡ create_job others c kind trace key by db =
            ground arith in
          subst (λ (r : Result (JobRef × Bool) × Db). IsNumbered r.0) e tt
      | inr (co, known) ↦
          rw (create_job-unlocked c kind trace key by others db new known)
            (create_locked-IsNumbered co (others db) h')
    ]
  ]

created-refused :
    (e : JobsError) (base db : Db)
    → validated validate_created base (create_error e, db) ≡ (create_error e, db)
created-refused (job_not_found k) base db = refl
created-refused (result_not_found k) base db = refl
created-refused (company_unknown k) base db = refl
created-refused (concurrency_limit k n) base db = refl
created-refused (idempotency_key_conflict k) base db = refl
created-refused (invalid_job_state s) base db = refl
created-refused (retry_limit k n) base db = refl
created-refused missing_row base db = refl

pub created-passes :
    (base : Db) (r : Result (JobRef × Bool) × Db)
    → IsNumbered r.0
    → validated validate_created base (answer 201 create_error base r)
      ≡ answer 201 create_error base r
created-passes base (ok (r, created), db) one =
    let numbered : leb 1 r.id ≡ true = ground arith in rw numbered refl
created-passes base (err e, db) one = created-refused e base (rolled_back base db)
