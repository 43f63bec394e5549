-- ===== src/Http.antt =====
-- api/modules/jobs/routes.py and `require_admin` of api/modules/admin/routes.py: what a request of an
-- authenticated company answers, and which tables it leaves. FastAPI has checked the types and ranges
-- of the path, the query and the body before a handler runs.
pub mod Statuses
pub mod Effects
pub mod Schemas
use Prim.Native.String.{◌++◌}
use case_fullstack_senior.Prelude.{ℕ, ◌+◌, String, Bool, true, false, Option, none, some, List}
use case_fullstack_senior.Prelude.Decimal.{decimal}
use case_fullstack_senior.Db.Schema.{Status, queued, running, done, failed, cancelled, Db}
use case_fullstack_senior.Service.{JobRef, find_by_key, create_job, cancel_job, retry_job}
use case_fullstack_senior.Service.Monad.{
  JobsError, job_not_found, result_not_found, company_unknown, concurrency_limit,
  idempotency_key_conflict, invalid_job_state, retry_limit, Result, ok, err,
}
use case_fullstack_senior.Service.Reads.{
  JobSummary, JobDetail, list_jobs, count_jobs, get_job, get_result,
}

pub data Role : Type 0 where
  user admin : Role

pub record AuthContext : Type 0 where
  pub company_id : ℕ
  pub role : Role

abbrev pub role_text : Role → String
role_text user = "user"
role_text admin = "admin"

-- f"{ctx.company_id}:{ctx.role}"
unfoldable pub actor : AuthContext → String
unfolding decimal
actor ctx = decimal ctx.company_id ++ (":" ++ role_text ctx.role)

-- A response with a body, or an HTTPException; an exception that no handler catches is the failure
-- 500.
pub data Response (A : Type 0) : Type 0 where
  success : ℕ → A → Response A
  failure : ℕ → String → Response A

abbrev pub status_code : {A : Type 0} → Response A → ℕ
status_code (success n a) = n
status_code (failure n detail) = n

abbrev pub status_text : Status → String
status_text queued = "queued"
status_text running = "running"
status_text done = "done"
status_text failed = "failed"
status_text cancelled = "cancelled"

-- A rollback to the tables that were committed; the sequences keep the numbers that they gave out.
abbrev pub rolled_back : Db → Db → Db
rolled_back committed db = record committed {
  next_job_id = db.next_job_id;
  next_event_id = db.next_event_id;
  next_letter_id = db.next_letter_id;
}

-- The end of a handler: the commit before the response, or the rollback of the connection that an
-- exception leaves.
abbrev pub answer :
    {A : Type 0} → ℕ → (JobsError → Response A) → Db → Result A × Db → Response A × Db
answer status refuse committed (ok a, db) = (success status a, db)
answer status refuse committed (err e, db) = (refuse e, rolled_back committed db)

abbrev pub create_error : {A : Type 0} → JobsError → Response A
create_error (company_unknown c) = failure 401 "empresa desconhecida"
create_error (idempotency_key_conflict kind) =
    failure 409 "Idempotency-Key já utilizada com payload diferente"
create_error (concurrency_limit limit n) = failure 429 "limite de jobs concorrentes atingido"
create_error _ = failure 500 "Internal Server Error"

-- What is committed when `create_job` ends: what was there, or what the others have committed if it
-- waited for the company's row.
unfoldable pub committed : (Db → Db) → ℕ → String → Db → Db
committed others c key db = elim (find_by_key c key db) [ some _ ↦ db | none ↦ others db ]

-- POST /jobs. `generated` is the key f"srv-{uuid4().hex}", for a request without a key.
unfoldable pub post_job :
    (Db → Db)
    → AuthContext
    → String
    → Option String
    → String
    → String
    → Db
    → Response (JobRef × Bool) × Db
unfolding create_job committed actor
post_job others ctx kind idempotency_key generated request_id db =
    let key : String = elim idempotency_key [ none ↦ generated | some k ↦ k ] in
    answer 201 create_error (committed others ctx.company_id key db)
      (create_job others ctx.company_id kind (some request_id) key (some (actor ctx)) db)

abbrev pub cancel_error : {A : Type 0} → JobsError → Response A
cancel_error (job_not_found k) = failure 404 "not found"
cancel_error (invalid_job_state s) =
    failure 409 ("job em estado '" ++ (status_text s ++ "' não pode ser cancelado"))
cancel_error _ = failure 500 "Internal Server Error"

-- POST /jobs/{job_id}/cancel
unfoldable pub post_cancel : AuthContext → ℕ → String → Db → Response JobRef × Db
unfolding cancel_job actor
post_cancel ctx k request_id db =
    answer 200 cancel_error db (cancel_job ctx.company_id k (actor ctx) (some request_id) db)

abbrev pub retry_error : {A : Type 0} → JobsError → Response A
retry_error (job_not_found k) = failure 404 "not found"
retry_error (retry_limit n limit) =
    failure 409
      ("máximo de tentativas atingido (" ++ (decimal n ++ ("/" ++ (decimal limit ++ ")"))))
retry_error (invalid_job_state s) =
    failure 409 ("job em estado '" ++ (status_text s ++ "' não pode ser reprocessado"))
retry_error _ = failure 500 "Internal Server Error"

-- POST /jobs/{job_id}/retry
unfoldable pub post_retry : AuthContext → ℕ → String → Db → Response JobRef × Db
unfolding retry_job actor
post_retry ctx k request_id db =
    answer 200 retry_error db (retry_job ctx.company_id k (actor ctx) (some request_id) db)

-- GET /jobs, with the header X-Total-Count
unfoldable pub get_jobs : AuthContext → ℕ → ℕ → Option Status → Db → Response (List JobSummary × ℕ)
unfolding list_jobs count_jobs
get_jobs ctx limit offset status db = elim (list_jobs ctx.company_id limit offset status db) [
  | none ↦ failure 500 "Internal Server Error"
  | some rows ↦ success 200 (rows, count_jobs ctx.company_id status db)
]

abbrev pub detail_error : {A : Type 0} → JobsError → Response A
detail_error (job_not_found k) = failure 404 "not found"
detail_error _ = failure 500 "Internal Server Error"

-- GET /jobs/{job_id}
unfoldable pub get_detail : AuthContext → ℕ → Db → Response JobDetail × Db
unfolding get_job
get_detail ctx k db = answer 200 detail_error db (get_job ctx.company_id k db)

abbrev pub result_error : {A : Type 0} → JobsError → Response A
result_error (result_not_found k) = failure 404 "no result"
result_error _ = failure 500 "Internal Server Error"

-- GET /jobs/{job_id}/result
unfoldable pub get_payload : AuthContext → ℕ → Db → Response String × Db
unfolding get_result
get_payload ctx k db = answer 200 result_error db (get_result ctx.company_id k db)

-- `require_admin`
unfoldable pub require_admin : AuthContext → Response AuthContext
require_admin ctx = elim ctx.role [
  | user ↦ failure 403 "requer role admin"
  | admin ↦ success 200 ctx
]
