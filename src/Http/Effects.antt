-- ===== src/Http/Effects.antt =====
-- What the routes leave in the tables: a refused request leaves what was committed, and a repeated
-- submission gets its job again.
use case_fullstack_senior.Prelude.{
  ℕ, String, Bool, false, ◌≡◌, refl, ◌∙◌, ap, Option, some, arith, leb, inl, inr, Option-cases,
  Bool-cases,
}
use case_fullstack_senior.Db.Schema.{Job, Db}
use case_fullstack_senior.Db.Query.{find_company, active_jobs}
use case_fullstack_senior.Service.{JobRef, find_by_key, replay, create_job, cancel_job, retry_job}
use case_fullstack_senior.Service.Monad.{Result, ok, err, JobsError}
use case_fullstack_senior.Service.Cases.{IsOk, cancel_job-cases, retry_job-cases}
use case_fullstack_senior.Service.Submission.{
  create_job-replay, create_job-unknown, create_job-repeat,
}
use case_fullstack_senior.Service.Serial.{submission, create_job-submission, create_job-serial}
use case_fullstack_senior.Http.{
  AuthContext, Role, Response, success, failure, answer, create_error, committed, post_job,
  post_cancel, post_retry, actor, rolled_back,
}

-- A result that is an error came with the tables of `base`.
abbrev Harmless : {A : Type 0} → Db → Result A × Db → Type 0
Harmless base r = ¬ IsOk r.0 → r.1 ≡ base

answer-refused :
    {A : Type 0} (status : ℕ) (refuse : JobsError → Response A) (base : Db) (r : Result A × Db)
    → Harmless base r
    → {n : ℕ} {detail : String} → (answer status refuse base r).0 ≡ failure n detail
    → (answer status refuse base r).1 ≡ base
answer-refused status refuse base (ok a, db) h e = absurd (ground arith)
answer-refused status refuse base (err x, db) h e = ap (rolled_back base) (h (λ x. x))

replay-Harmless : (j : Job) (kind : String) (db : Db) → Harmless db (replay j kind db)
unfolding replay
replay-Harmless j kind db refused = ground arith

submission-Harmless :
    (c : ℕ) (kind : String) (trace : Option String) (key : String) (by : Option String) (db : Db)
    → Harmless db (submission c kind trace key by db)
submission-Harmless c kind trace key by db = elim (Option-cases (find_by_key c key db)) [
  | inr (j, found) ↦ rw (submission, found) (replay-Harmless j kind db)
  | inl new ↦ elim (Option-cases (find_company c db.companies)) [
    | inl unknown ↦ rw (submission, new, unknown) (λ refused. refl)
    | inr (co, known) ↦ elim (Bool-cases (leb co.max_concurrent_jobs (active_jobs c db.jobs))) [
      | inl full ↦ rw (submission, new, known, full) (λ refused. refl)
      | inr room ↦ rw (submission, new, known, room) (λ refused. absurd (refused tt))
    ]
  ]
]

create_job-Harmless :
    (others : Db → Db) (c : ℕ) (kind : String) (trace : Option String) (key : String)
    (by : Option String) (db : Db)
    → Harmless (committed others c key db) (create_job others c kind trace key by db)
unfolding committed
create_job-Harmless others c kind trace key by db = elim (Option-cases (find_by_key c key db)) [
  | inr (j, found) ↦
      rw (create_job-replay others c kind trace key by db found, committed, found)
        (replay-Harmless j kind db)
  | inl new ↦ elim (Option-cases (find_company c (others db).companies)) [
    | inl unknown ↦
        rw (create_job-unknown others c kind trace key by db new unknown, committed, new)
          (λ refused. refl)
    | inr (co, known) ↦
        rw
          (
            create_job-serial c kind trace key by db others new known
                ∙ create_job-submission c kind trace key by (others db),
            committed,
            new,
          )
          (submission-Harmless c kind trace key by (others db))
  ]
]

cancel_job-Harmless :
    (c k : ℕ) (by : String) (trace : Option String) (db : Db)
    → Harmless db (cancel_job c k by trace db)
cancel_job-Harmless c k by trace db refused = elim (cancel_job-cases c k by trace db) [
  | inl (same, _) ↦ same
  | inr (_, _, _, made) ↦ absurd (refused (rw made tt))
]

retry_job-Harmless :
    (c k : ℕ) (by : String) (trace : Option String) (db : Db)
    → Harmless db (retry_job c k by trace db)
retry_job-Harmless c k by trace db refused = elim (retry_job-cases c k by trace db) [
  | inl (same, _) ↦ same
  | inr (_, _, _, made) ↦ absurd (refused (rw made tt))
]

-- If POST /jobs with a key is refused, then the tables and their sequences are those that were
-- committed: the ones that it found, or, if it waited for the company's lock, the ones that the
-- other transactions left.
pub post_job-refused :
    (others : Db → Db) (ctx : AuthContext) (kind key generated request_id : String) (db : Db)
    {n : ℕ} {detail : String}
    → (post_job others ctx kind (some key) generated request_id db).0 ≡ failure n detail
    → (post_job others ctx kind (some key) generated request_id db).1
      ≡ committed others ctx.company_id key db
unfolding post_job
post_job-refused others ctx kind key generated request_id db e =
    answer-refused 201 create_error (committed others ctx.company_id key db) _
      (create_job-Harmless others ctx.company_id kind (some request_id) key (some (actor ctx)) db) e

-- If a cancellation or a retry is refused, nothing changes.
pub post_cancel-refused :
    (ctx : AuthContext) (k : ℕ) (request_id : String) (db : Db) {n : ℕ} {detail : String}
    → ((post_cancel ctx k request_id db).0 ≡ failure n detail
        → (post_cancel ctx k request_id db).1 ≡ db)
      × ((post_retry ctx k request_id db).0 ≡ failure n detail
          → (post_retry ctx k request_id db).1 ≡ db)
unfolding post_cancel post_retry
post_cancel-refused ctx k request_id db = (
  answer-refused 200 _ db _ (cancel_job-Harmless ctx.company_id k (actor ctx) (some request_id) db),
  answer-refused 200 _ db _ (retry_job-Harmless ctx.company_id k (actor ctx) (some request_id) db),
)

answer-success :
    {A : Type 0} (status : ℕ) (refuse : JobsError → Response A) (base : Db) (r : Result A × Db)
    {n : ℕ} {a : A} {db' : Db}
    → ((e : JobsError) → refuse e ≡ success n a → ⊥)
    → answer status refuse base r ≡ (success n a, db')
    → r ≡ (ok a, db')
answer-success status refuse base (ok b, db) h e = ground arith
answer-success status refuse base (err x, db) h e = absurd (h x (ap (λ p. p.0) e))

create_error-refuses :
    {A : Type 0} {n : ℕ} {a : A} (e : JobsError) → create_error e ≡ success n a → ⊥
create_error-refuses e h = ground arith

-- If POST /jobs with a key succeeds, then POST /jobs with that key and kind, by either role of
-- the company, on the tables that it left, answers 201 with the same job as not created, and
-- changes nothing.
pub post_job-repeat :
    (others again : Db → Db) (ctx : AuthContext) (role : Role)
    (kind key generated generated' : String) (request_id request_id' : String) (db : Db)
    {r : JobRef} {b : Bool} {db' : Db}
    → post_job others ctx kind (some key) generated request_id db ≡ (success 201 (r, b), db')
    → post_job again (record ctx { role = role }) kind (some key) generated' request_id' db'
      ≡ (success 201 (r, false), db')
unfolding post_job
post_job-repeat others again ctx role kind key generated generated' request_id request_id' db {r}
      {b} {db'} e =
    let made =
      answer-success 201 create_error (committed others ctx.company_id key db) _
        create_error-refuses e in
    let same =
      create_job-repeat others again ctx.company_id kind (some request_id) (some request_id') key
        (some (actor ctx)) (some (actor (record ctx { role = role }))) db made in
    ap (answer 201 create_error (committed again ctx.company_id key db')) same
