-- ===== src/Http/Statuses.antt =====
-- Which statuses the routes answer.
use case_fullstack_senior.Prelude.{
  ℕ, String, ◌≡◌, ◌⊎◌, inl, inr, refl, ◌∙◌, Option, none, some, arith, ltb, leb, str_eq,
  if◌then◌else◌, Option-cases, Bool-cases,
}
use case_fullstack_senior.Db.Schema.{Job, Db, is_active, is_failed}
use case_fullstack_senior.Db.Query.{find_company, active_jobs}
use case_fullstack_senior.Service.{find_by_key, replay, owned_job, max_attempts, require_job}
use case_fullstack_senior.Service.Submission.{create_job-replay, create_job-unknown}
use case_fullstack_senior.Service.Serial.{submission, create_job-submission, create_job-serial}
use case_fullstack_senior.Service.Transitions.{
  foreign_job-not_found, cancel_job-by_status, retry_job-by_status,
}
use case_fullstack_senior.Service.Reads.{get_job, get_result, select-joined}
use case_fullstack_senior.Http.{
  AuthContext, failure, status_code, answer, create_error, committed, post_job, post_cancel,
  post_retry, get_detail, get_payload, actor,
}

abbrev IsSubmitStatus : ℕ → Type 0
IsSubmitStatus n = (n ≡ 201) ⊎ ((n ≡ 401) ⊎ ((n ≡ 409) ⊎ (n ≡ 429)))

answer-replay :
    (base : Db) (j : Job) (kind : String) (db : Db)
    → IsSubmitStatus (status_code (answer 201 create_error base (replay j kind db)).0)
unfolding replay
answer-replay base j kind db = elim (Bool-cases (str_eq j.kind kind)) [
  | inl same ↦ rw same (inl refl)
  | inr other ↦ rw other (inr (inr (inl refl)))
]

answer-submission :
    (base : Db) (c : ℕ) (kind : String) (trace : Option String) (key : String) (by : Option String)
    (db : Db)
    → IsSubmitStatus
        (status_code (answer 201 create_error base (submission c kind trace key by db)).0)
answer-submission base c kind trace key by db = elim (Option-cases (find_by_key c key db)) [
  | inr (j, found) ↦ rw (submission, found) (answer-replay base j kind db)
  | inl new ↦ elim (Option-cases (find_company c db.companies)) [
    | inl unknown ↦ rw (submission, new, unknown) (inr (inl refl))
    | inr (co, known) ↦ elim (Bool-cases (leb co.max_concurrent_jobs (active_jobs c db.jobs))) [
      | inl full ↦ rw (submission, new, known, full) (inr (inr (inr refl)))
      | inr room ↦ rw (submission, new, known, room) (inl refl)
    ]
  ]
]

-- POST /jobs answers 201, 401, 409 or 429, with or without a key and whatever other transactions
-- commit while it waits.
pub post_job-status :
    (others : Db → Db) (ctx : AuthContext) (kind : String) (key : Option String)
    (generated request_id : String) (db : Db)
    → let n = status_code (post_job others ctx kind key generated request_id db).0 in
      (n ≡ 201) ⊎ ((n ≡ 401) ⊎ ((n ≡ 409) ⊎ (n ≡ 429)))
unfolding post_job
post_job-status others ctx kind key generated request_id db =
    let c = ctx.company_id in
    let k : String = elim key [ none ↦ generated | some k ↦ k ] in
    let by = some (actor ctx) in
    let trace = some request_id in
    let base = committed others c k db in
    elim (Option-cases (find_by_key c k db)) [
      | inr (j, found) ↦
          rw (create_job-replay others c kind trace k by db found) (answer-replay base j kind db)
      | inl new ↦ elim (Option-cases (find_company c (others db).companies)) [
        | inl unknown ↦
            rw (create_job-unknown others c kind trace k by db new unknown) (inr (inl refl))
        | inr (co, known) ↦
            rw
              (create_job-serial c kind trace k by db others new known
                ∙ create_job-submission c kind trace k by (others db))
              (answer-submission base c kind trace k by (others db))
      ]
    ]

module _ (ctx : AuthContext) (k : ℕ) (request_id : String) (db : Db) where
  -- A cancellation and a retry answer 404 exactly if the company does not have the job, 200 exactly
  -- if the job's status allows them (and it has an attempt left for a retry), and 409 otherwise.
  pub post_cancel-status :
      (status_code (post_cancel ctx k request_id db).0 ≡ (elim (owned_job ctx.company_id k db) [
        | none ↦ 404
        | some j ↦ if is_active j.status then 200 else 409
      ]))
      × (status_code (post_retry ctx k request_id db).0 ≡ (elim (owned_job ctx.company_id k db) [
        | none ↦ 404
        | some j ↦
            if is_failed j.status then (if ltb j.attempts max_attempts then 200 else 409) else 409
      ]))
  unfolding post_cancel post_retry
  post_cancel-status = elim (Option-cases (owned_job ctx.company_id k db)) [
    | inl none_there ↦
        let (c, r) =
          foreign_job-not_found ctx.company_id k (actor ctx) (some request_id) db none_there in
        (rw (c, none_there) refl, rw (r, none_there) refl)
    | inr (j, owned) ↦
        let c = cancel_job-by_status ctx.company_id k (actor ctx) (some request_id) db owned in
        let r = retry_job-by_status ctx.company_id k (actor ctx) (some request_id) db owned in
        (
          rw (c, owned)
              (elim (Bool-cases (is_active j.status)) [
                | inl active ↦ rw active refl
                | inr ended ↦ rw ended refl
              ]),
          rw (r, owned)
              (elim (Bool-cases (is_failed j.status)) [
                | inl failed ↦ rw failed (elim (Bool-cases (ltb j.attempts max_attempts)) [
                  | inl left ↦ rw left refl
                  | inr spent ↦ rw spent refl
                ])
                | inr other ↦ rw other refl
              ]),
        )
  ]

  -- If the company does not have the job, be it missing or another company's, then the detail,
  -- the result, the cancellation and the retry of it answer 404 with a fixed text, and change
  -- nothing.
  pub foreign_job-404 :
      owned_job ctx.company_id k db ≡ none
      → (get_detail ctx k db ≡ (failure 404 "not found", db))
        × (get_payload ctx k db ≡ (failure 404 "no result", db))
        × (post_cancel ctx k request_id db ≡ (failure 404 "not found", db))
        × (post_retry ctx k request_id db ≡ (failure 404 "not found", db))
  unfolding get_detail get_payload post_cancel post_retry get_job get_result require_job
  foreign_job-404 foreign =
      let (c, r) =
        foreign_job-not_found ctx.company_id k (actor ctx) (some request_id) db foreign in
      let e = select-joined ctx.company_id k db db.job_results in
      (ground arith, ground arith, rw c refl, rw r refl)
