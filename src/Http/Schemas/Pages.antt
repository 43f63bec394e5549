-- ===== src/Http/Schemas/Pages.antt =====
-- The routes of api/modules/jobs/routes.py with their checks before and after the handlers.
use mathlib.Core.Path.{subst}
use case_fullstack_senior.Prelude.{
  ℕ, String, ◌≤◌, Bool, true, ◌&&◌, ◌≡◌, refl, ap, sym, ◌∙◌, Option, some, List, map, leb,
  if◌then◌else◌, length, select, inl, inr, Bool-cases, arith,
}
use case_fullstack_senior.Prelude.Int.{ℤ, pos_part}
use case_fullstack_senior.Prelude.Pages.{sort_by, page, length-take}
use case_fullstack_senior.Prelude.Every.{Every-page}
use case_fullstack_senior.Db.Schema.{Status, Job, Db}
use case_fullstack_senior.Db.Query.{fits_bigint}
use case_fullstack_senior.Db.Laws.{find-id}
use case_fullstack_senior.Invariant.{IsValid}
use case_fullstack_senior.Service.{JobRef, ref_of, cancel_job, retry_job, cancel_row, retry_row}
use case_fullstack_senior.Service.Cases.{cancel_job-cases, retry_job-cases}
use case_fullstack_senior.Service.Monad.{
  JobsError, job_not_found, result_not_found, company_unknown, concurrency_limit,
  idempotency_key_conflict, invalid_job_state, retry_limit, missing_row, Result, ok, err,
}
use case_fullstack_senior.Service.Reads.{is_listed, newest_first, list_jobs, count_jobs, summary_of}
use case_fullstack_senior.Http.{
  AuthContext, Response, success, failure, answer, cancel_error, retry_error, actor, get_jobs,
  post_cancel, post_retry,
}
use case_fullstack_senior.Http.Schemas.{
  validate_summary, validate_cancelled, validate_retried, validated, is_limit, is_offset, is_job_id,
  list_route, cancel_route, retry_route,
}
use case_fullstack_senior.Http.Schemas.Rows.{AllFit, out_of, accepted_row, validate_rows-Every}

-- The rows of a page of GET /jobs
abbrev pub listed : ℕ → ℕ → ℕ → Option Status → Db → List Job
listed c limit offset status db =
    page limit offset (sort_by newest_first (select (is_listed c status) db.jobs))

-- In valid tables of jobs that have a positive number and company and a kind that a request may
-- send, GET /jobs with a limit from 1 to 200 and an offset that is not negative answers 200 with
-- the rows of its page, each as it is stored, at most 200 of them, and with the total count, if
-- the offset is at most the largest bigint, 9223372036854775807; the validation of the answer
-- never makes it a 500. An offset beyond that passes its range and answers 500.
pub list_route-rows :
    (is_white : ℕ → Bool) (ctx : AuthContext) (limit offset : ℤ) (status : Option Status) (db : Db)
    → IsValid db
    → AllFit is_white db
    → (is_limit limit && is_offset offset) ≡ true
    → let rows = listed ctx.company_id (pos_part limit) (pos_part offset) status db in
      (list_route is_white ctx limit offset status db ≡ (
        if leb (pos_part offset) 9223372036854775807
        then success 200 (map (out_of db) rows, count_jobs ctx.company_id status db)
        else failure 500 "Internal Server Error"))
      × (length rows ≤ 200)
unfolding list_route get_jobs list_jobs
list_route-rows is_white ctx limit offset status db h fit ranges =
    let small : pos_part limit ≤ 200 = ground arith in
    let outs =
      validate_rows-Every (validate_summary is_white) (summary_of db) (out_of db)
        (listed ctx.company_id (pos_part limit) (pos_part offset) status db)
        (Every-page newest_first _ (is_listed ctx.company_id status) (pos_part limit)
          (pos_part offset) db.jobs (accepted_row is_white db h fit)) in
    let limit_fits : fits_bigint (pos_part limit) ≡ true = ground arith in
    (
      elim (Bool-cases (fits_bigint (pos_part offset))) [
        | inl fits ↦ rw (list_route, ranges, limit_fits, fits, outs) refl
        | inr beyond ↦ rw (list_route, ranges, limit_fits, beyond) refl
      ],
      rw length-take (ground arith),
    )

cancel_refused :
    (e : JobsError) (base db : Db)
    → validated validate_cancelled base (cancel_error e, db) ≡ (cancel_error e, db)
cancel_refused (job_not_found k) base db = refl
cancel_refused (result_not_found k) base db = refl
cancel_refused (company_unknown k) base db = refl
cancel_refused (concurrency_limit k n) base db = refl
cancel_refused (idempotency_key_conflict k) base db = refl
cancel_refused (invalid_job_state s) base db = refl
cancel_refused (retry_limit k n) base db = refl
cancel_refused missing_row base db = refl

retry_refused :
    (e : JobsError) (base db : Db)
    → validated validate_retried base (retry_error e, db) ≡ (retry_error e, db)
retry_refused (job_not_found k) base db = refl
retry_refused (result_not_found k) base db = refl
retry_refused (company_unknown k) base db = refl
retry_refused (concurrency_limit k n) base db = refl
retry_refused (idempotency_key_conflict k) base db = refl
retry_refused (invalid_job_state s) base db = refl
retry_refused (retry_limit k n) base db = refl
retry_refused missing_row base db = refl

-- A validation that passes what succeeds, of a handler whose refusals are failures, changes nothing.
unchanged :
    (n : ℕ) (validate : JobRef → Option JobRef) (refuse : JobsError → Response JobRef) (base : Db)
    (r : Result JobRef × Db)
    → ((e : JobsError) (db : Db) → validated validate base (refuse e, db) ≡ (refuse e, db))
    → ((a : JobRef) → r.0 ≡ ok a → validate a ≡ some a)
    → validated validate base (answer n refuse base r) ≡ answer n refuse base r
unchanged n validate refuse base (ok a, db) refused passes = rw (passes a refl) refl
unchanged n validate refuse base (err e, db) refused passes = refused e _

ok_injective : (a b : JobRef) → ok a ≡ ok b → a ≡ b
ok_injective a b e = ap (λ (r : Result JobRef). elim r [ ok x ↦ x | err _ ↦ a ]) e

cancelled-passes :
    (c k : ℕ) (by : String) (trace : Option String) (db : Db) (a : JobRef)
    → 1 ≤ k
    → (cancel_job c k by trace db).0 ≡ ok a
    → validate_cancelled a ≡ some a
cancelled-passes c k by trace db a positive e = elim (cancel_job-cases c k by trace db) [
  | inl (_, refused) ↦ absurd (refused (rw e tt))
  | inr (j, found, active, made) ↦
      let row = ref_of (cancel_row db.now j) in
      let same : row ≡ a =
        ok_injective row a (sym (ap (λ (r : Result JobRef × Db). r.0) made) ∙ e) in
      let numbered : leb 1 j.id ≡ true = ground (arith, find-id k db.jobs found) in
      let passes : validate_cancelled row ≡ some row = rw numbered refl in
      subst (λ b. validate_cancelled b ≡ some b) same passes
]

retried-passes :
    (c k : ℕ) (by : String) (trace : Option String) (db : Db) (a : JobRef)
    → 1 ≤ k
    → (retry_job c k by trace db).0 ≡ ok a
    → validate_retried a ≡ some a
retried-passes c k by trace db a positive e = elim (retry_job-cases c k by trace db) [
  | inl (_, refused) ↦ absurd (refused (rw e tt))
  | inr (j, found, ready, made) ↦
      let row = ref_of (retry_row db.now trace j) in
      let same : row ≡ a =
        ok_injective row a (sym (ap (λ (r : Result JobRef × Db). r.0) made) ∙ e) in
      let numbered : leb 1 j.id ≡ true = ground (arith, find-id k db.jobs found) in
      let few : leb j.attempts 3 ≡ true = ground arith in
      let passes : validate_retried row ≡ some row = rw (numbered, few) refl in
      subst (λ b. validate_retried b ≡ some b) same passes
]

-- POST /jobs/{job_id}/cancel and POST /jobs/{job_id}/retry with a number that is not positive
-- answer 422 and change nothing; with a positive one they do what their handlers do: the
-- validation that stands before the commit never turns a success into a rollback, since the job
-- of a success has the number of the request, the status `cancelled` or `queued`, and at most
-- three attempts.
pub cancel_route-retry_route :
    (ctx : AuthContext) (request_id : String) (db : Db) (job_id : ℤ)
    → (cancel_route ctx job_id request_id db ≡ (
        if is_job_id job_id
        then post_cancel ctx (pos_part job_id) request_id db
        else (failure 422 "Unprocessable Entity", db)))
      × (retry_route ctx job_id request_id db ≡ (
          if is_job_id job_id
          then post_retry ctx (pos_part job_id) request_id db
          else (failure 422 "Unprocessable Entity", db)))
unfolding cancel_route retry_route post_cancel post_retry
cancel_route-retry_route ctx request_id db job_id = elim (Bool-cases (is_job_id job_id)) [
  | inr out ↦ (rw out refl, rw out refl)
  | inl within ↦
      let positive : 1 ≤ pos_part job_id = ground arith in
      let c = ctx.company_id in
      let k = pos_part job_id in
      (
        rw within (
            unchanged 200 validate_cancelled cancel_error db
              (cancel_job c k (actor ctx) (some request_id) db) (λ e base. cancel_refused e db base)
              (λ a e. cancelled-passes c k (actor ctx) (some request_id) db a positive e)),
        rw within (
            unchanged 200 validate_retried retry_error db
              (retry_job c k (actor ctx) (some request_id) db) (λ e base. retry_refused e db base)
              (λ a e. retried-passes c k (actor ctx) (some request_id) db a positive e)),
      )
]
