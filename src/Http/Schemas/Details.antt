-- ===== src/Http/Schemas/Details.antt =====
-- GET /jobs/{job_id} and GET /jobs/{job_id}/result with the validation of their answers.
use case_fullstack_senior.Prelude.{
  ℕ, ◌≤◌, Bool, true, ◌≡◌, refl, ap, ◌∙◌, Option, none, some, leb, if◌then◌else◌, inl, inr,
  Bool-cases, Option-cases, arith, fetchone, select,
}
use case_fullstack_senior.Prelude.Int.{ℤ, pos_part}
use case_fullstack_senior.Prelude.Text.{codes}
use case_fullstack_senior.Db.Schema.{EventType, Job, Db}
use case_fullstack_senior.Db.Query.{find, same_event}
use case_fullstack_senior.Service.Monad.{ok, err, job_not_found}
use case_fullstack_senior.Invariant.{IsValid, IsSound, RowValid}
use case_fullstack_senior.Service.{owned_job, require_job}
use case_fullstack_senior.Service.Reads.{get_job, audit_events_of, cancellation_of}
use case_fullstack_senior.Http.{
  AuthContext, Response, success, failure, answer, detail_error, get_detail,
}
use case_fullstack_senior.Http.Schemas.{
  DetailOut, validate_detail, validated, answered, is_job_id, unprocessable, detail_route,
}
use case_fullstack_senior.Http.Schemas.Rows.{IsFit, AllFit}

-- The body of a job's detail, with its kind as it is stored
abbrev pub detail_of : ℕ → ℕ → Db → Job → DetailOut
detail_of c k db j = record {
  id = j.id;
  company_id = j.company_id;
  kind = codes j.kind;
  status = j.status;
  attempts = j.attempts;
  last_error = j.last_error;
  cancellation = cancellation_of (
      fetchone
        (select (λ e. same_event EventType.cancelled e.event_type) (audit_events_of c k db)));
  audit_events = audit_events_of c k db;
}

-- What GET /jobs/{job_id} answers for the company's job, or without one
abbrev pub detail_answer : ℕ → ℕ → Db → Option Job → Response DetailOut
detail_answer c k db none = failure 404 "not found"
detail_answer c k db (some j) = success 200 (detail_of c k db j)

owned-find : (c k : ℕ) (db : Db) {j : Job} → owned_job c k db ≡ some j → find k db.jobs ≡ some j
unfolding owned_job
owned-find c k db {j} owned = elim (Option-cases (find k db.jobs)) [
  | inl gone ↦ absurd (ground arith)
  | inr (i, found) ↦ ground arith
]

get_job-gone :
    (c k : ℕ) (db : Db) → owned_job c k db ≡ none → get_job c k db ≡ (err (job_not_found k), db)
unfolding get_job require_job
get_job-gone c k db gone = ground arith

get_job-row :
    (c k : ℕ) (db : Db) {j : Job}
    → owned_job c k db ≡ some j
    → get_job c k db ≡ (
      ok (record {
        job = j;
        cancellation = cancellation_of (
            fetchone
              (select (λ e. same_event EventType.cancelled e.event_type) (audit_events_of c k db)));
        audit_events = audit_events_of c k db;
      }),
      db,
    )
unfolding get_job require_job
get_job-row c k db {j} owned = ground arith

validate_detail-IsFit :
    (is_white : ℕ → Bool) (c k : ℕ) (db : Db) (j : Job)
    → IsFit is_white j
    → j.attempts ≤ 3
    → validate_detail is_white (record {
      job = j;
      cancellation = (detail_of c k db j).cancellation;
      audit_events = (detail_of c k db j).audit_events;
    })
      ≡ some (detail_of c k db j)
unfolding validate_detail
validate_detail-IsFit is_white c k db j fit capped =
    let numbered : leb 1 j.id ≡ true = ground (arith, fit.numbered) in
    let owned : leb 1 j.company_id ≡ true = ground (arith, fit.owned) in
    let few : leb j.attempts 3 ≡ true = ground arith in
    rw (validate_detail, fit.named, numbered, owned, few) refl

RowValid-capped :
    (db : Db) (k : ℕ) {j : Job} → IsValid db → find k db.jobs ≡ some j → j.attempts ≤ 3
RowValid-capped db k {j} h found =
    let at : RowValid db k (some j) = rw found at (h.rows k) in
    let sound : IsSound j = at.0 in sound.capped

-- In valid tables of jobs that have a positive number and company and a kind that a request may
-- send, GET /jobs/{job_id} answers 422 for a number that is not positive, 404 for a job that the
-- company does not have, and otherwise 200 with the job's row as it is stored and its events; it
-- changes nothing, and the validation of the answer never makes it a 500.
pub detail_route-row :
    (is_white : ℕ → Bool) (ctx : AuthContext) (job_id : ℤ) (db : Db)
    → IsValid db
    → AllFit is_white db
    → detail_route is_white ctx job_id db ≡ (
      if is_job_id job_id
          then detail_answer ctx.company_id
              (pos_part job_id)
              db
              (owned_job ctx.company_id (pos_part job_id) db)
          else unprocessable,
      db,
    )
unfolding detail_route get_detail get_job require_job
detail_route-row is_white ctx job_id db h fit = elim (Bool-cases (is_job_id job_id)) [
  | inr out ↦ rw out refl
  | inl within ↦
      let c = ctx.company_id in
      let k = pos_part job_id in
      elim (Option-cases (owned_job c k db)) [
        | inl gone ↦
            rw (within, gone)
              (ap (λ r. validated (validate_detail is_white) db (answer 200 detail_error db r))
                (get_job-gone c k db gone))
        | inr (j, owned) ↦
            let found = owned-find c k db owned in
            rw (within, owned)
              (ap (λ r. validated (validate_detail is_white) db (answer 200 detail_error db r))
                  (get_job-row c k db owned)
                ∙ ap (λ o. answered 200 db o db)
                    (validate_detail-IsFit is_white c k db j (fit k j found)
                      (RowValid-capped db k h found)))
      ]
]
