-- ===== src/Http/Schemas.antt =====
-- api/modules/jobs/schemas.py and the ranges of the parameters of the routes: what a request must be
-- before a handler runs, and the validation of a handler's answer. A failed validation of an answer
-- is an exception, so a 500 and a rollback. `is_white` tells which characters pydantic strips.
pub mod Texts
pub mod Rows
pub mod Pages
pub mod Details
pub mod Create
pub mod Numbered
use case_fullstack_senior.Prelude.{
  ℕ, String, Bool, true, false, ◌&&◌, ◌||◌, Option, none, some, List, [], ◌∷◌, leb, if◌then◌else◌,
  any, length,
}
use case_fullstack_senior.Prelude.Int.{ℤ, pos, pos_part, leb_ℤ}
use case_fullstack_senior.Prelude.Strip.{is_empty, is_space, strip}
use case_fullstack_senior.Prelude.Text.{Text, codes}
use case_fullstack_senior.Db.Schema.{Status, is_queued, is_cancelled, AuditEvent, Db}
use case_fullstack_senior.Service.{JobRef}
use case_fullstack_senior.Service.Reads.{JobSummary, JobDetail}
use case_fullstack_senior.Http.{
  AuthContext, Response, success, failure, rolled_back, post_job, post_cancel, post_retry, get_jobs,
  get_detail, get_payload,
}

-- unicodedata.category(char) == "Cc"
abbrev pub is_control : ℕ → Bool
is_control c = leb c 31 || leb 127 c && leb c 159

abbrev pub reject_control_characters : Text → Option Text
reject_control_characters t = if any is_control t then none else some t

abbrev pub require_visible_content : Text → Option Text
require_visible_content t = if is_empty (strip is_space t) then none else some t

-- StringConstraints(strip_whitespace=True, min_length=1, max_length=…) and the control characters
abbrev pub constrained : (ℕ → Bool) → ℕ → Text → Option Text
constrained is_white max_length t =
    let stripped = strip is_white t in
    if leb 1 (length stripped) && leb (length stripped) max_length
    then reject_control_characters stripped
    else none

unfoldable pub job_kind : (ℕ → Bool) → Text → Option Text
job_kind is_white t = constrained is_white 100 t

unfoldable pub idempotency_key : (ℕ → Bool) → Text → Option Text
idempotency_key is_white t = constrained is_white 200 t

unfoldable pub job_payload : Text → Option Text
job_payload t =
    if leb 1 (length t)
    then (elim (reject_control_characters t) [ none ↦ none | some u ↦ require_visible_content u ])
    else none

abbrev pub attempt_count : ℕ → Bool
attempt_count n = leb n 3

-- The bodies of the answers, with the texts as pydantic leaves them.
pub record SummaryOut : Type 0 where
  pub id : ℕ
  pub kind : Text
  pub status : Status
  pub created_at : ℕ
  pub result_count : ℕ

pub record DetailOut : Type 0 where
  pub id : ℕ
  pub company_id : ℕ
  pub kind : Text
  pub status : Status
  pub attempts : ℕ
  pub last_error : Option String
  pub cancellation : Option (String × ℕ)
  pub audit_events : List AuditEvent

module _ (is_white : ℕ → Bool) where
  -- JobSummary.model_validate
  unfoldable pub validate_summary : JobSummary → Option SummaryOut
  validate_summary s = elim (job_kind is_white (codes s.kind)) [
    | none ↦ none
    | some kind ↦
        if leb 1 s.id && leb s.result_count 1
        then some (record {
          id = s.id;
          kind = kind;
          status = s.status;
          created_at = s.created_at;
          result_count = s.result_count;
        })
        else none
  ]

  -- JobDetail.model_validate
  unfoldable pub validate_detail : JobDetail → Option DetailOut
  validate_detail d = elim (job_kind is_white (codes d.job.kind)) [
    | none ↦ none
    | some kind ↦
        if leb 1 d.job.id && leb 1 d.job.company_id && attempt_count d.job.attempts
        then some (record {
          id = d.job.id;
          company_id = d.job.company_id;
          kind = kind;
          status = d.job.status;
          attempts = d.job.attempts;
          last_error = d.job.last_error;
          cancellation = d.cancellation;
          audit_events = d.audit_events;
        })
        else none
  ]

-- JobResultOut.model_validate
abbrev pub validate_result : String → Option Text
validate_result payload = job_payload (codes payload)

-- JobCreated, JobCancelled and JobRetried
abbrev pub validate_created : JobRef × Bool → Option (JobRef × Bool)
validate_created (r, created) = if leb 1 r.id then some (r, created) else none

abbrev pub validate_cancelled : JobRef → Option JobRef
validate_cancelled r = if leb 1 r.id && is_cancelled r.status then some r else none

abbrev pub validate_retried : JobRef → Option JobRef
validate_retried r =
    if leb 1 r.id && is_queued r.status && attempt_count r.attempts then some r else none

abbrev pub validate_rows : {A B : Type 0} → (A → Option B) → List A → Option (List B)
validate_rows validate [] = some []
validate_rows validate (r ∷ rows) =
    let rest = validate_rows validate rows in
    elim (validate r) [
      | none ↦ none
      | some out ↦ elim rest [ none ↦ none | some outs ↦ some (out ∷ outs) ]
    ]

-- The validation of an answer, before its commit.
abbrev pub answered : {B : Type 0} → ℕ → Db → Option B → Db → Response B × Db
answered status committed none db = (failure 500 "Internal Server Error", rolled_back committed db)
answered status committed (some out) db = (success status out, db)

abbrev pub validated : {A B : Type 0} → (A → Option B) → Db → Response A × Db → Response B × Db
validated validate committed (success n a, db) = answered n committed (validate a) db
validated validate committed (failure n detail, db) = (failure n detail, db)

-- `Query(ge=…, le=…)` and `Path(ge=1)`
abbrev pub is_limit : ℤ → Bool
is_limit z = leb_ℤ (pos 1) z && leb_ℤ z (pos 200)

abbrev pub is_offset : ℤ → Bool
is_offset z = leb_ℤ (pos 0) z

abbrev pub is_job_id : ℤ → Bool
is_job_id z = leb_ℤ (pos 1) z

-- The answer of FastAPI to a parameter that is out of its range
abbrev pub unprocessable : {A : Type 0} → Response A
unprocessable = failure 422 "Unprocessable Entity"

-- GET /jobs, from its parameters to its body and its header X-Total-Count
unfoldable pub list_route :
    (ℕ → Bool) → AuthContext → ℤ → ℤ → Option Status → Db → Response (List SummaryOut × ℕ)
unfolding get_jobs validate_summary
list_route is_white ctx limit offset status db =
    if is_limit limit && is_offset offset
    then (elim (get_jobs ctx (pos_part limit) (pos_part offset) status db) [
      | failure n detail ↦ failure n detail
      | success n (rows, total) ↦ elim (validate_rows (validate_summary is_white) rows) [
        | none ↦ failure 500 "Internal Server Error"
        | some outs ↦ success n (outs, total)
      ]
    ])
    else unprocessable

-- GET /jobs/{job_id}
unfoldable pub detail_route : (ℕ → Bool) → AuthContext → ℤ → Db → Response DetailOut × Db
unfolding get_detail validate_detail
detail_route is_white ctx job_id db =
    if is_job_id job_id
    then validated (validate_detail is_white) db (get_detail ctx (pos_part job_id) db)
    else (unprocessable, db)

-- POST /jobs/{job_id}/cancel
unfoldable pub cancel_route : AuthContext → ℤ → String → Db → Response JobRef × Db
unfolding post_cancel
cancel_route ctx job_id request_id db =
    if is_job_id job_id
    then validated validate_cancelled db (post_cancel ctx (pos_part job_id) request_id db)
    else (unprocessable, db)

-- POST /jobs/{job_id}/retry
unfoldable pub retry_route : AuthContext → ℤ → String → Db → Response JobRef × Db
unfolding post_retry
retry_route ctx job_id request_id db =
    if is_job_id job_id
    then validated validate_retried db (post_retry ctx (pos_part job_id) request_id db)
    else (unprocessable, db)
