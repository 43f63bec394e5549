-- ===== src/Admin/Routes.antt =====
-- api/modules/admin/routes.py: the routes of an administrator, with the check of the role, the
-- ranges of the parameters, and the validation of the answers.
pub mod Answers
use case_fullstack_senior.Prelude.{
  ℕ, Bool, true, false, ◌&&◌, Option, none, some, List, leb, if◌then◌else◌,
}
use case_fullstack_senior.Prelude.Int.{ℤ, pos_part}
use case_fullstack_senior.Db.Schema.{Status, DeadLetter, Db}
use case_fullstack_senior.Admin.{
  CompanySummary, list_companies, count_companies, AdminJob, list_all_jobs, count_all_jobs,
  count_dead_letters, list_dead_letters,
}
use case_fullstack_senior.Http.{AuthContext, Response, success, failure, require_admin}
use case_fullstack_senior.Http.Schemas.{
  validate_rows, is_limit, is_offset, is_job_id, unprocessable,
}

-- AdminJob.model_validate and AdminCompany.model_validate
abbrev pub validate_admin_job : AdminJob → Option AdminJob
validate_admin_job j = if leb 1 j.id && leb 1 j.company_id then some j else none

abbrev pub validate_company : CompanySummary → Option CompanySummary
validate_company s = if leb 1 s.company.id then some s else none

-- DeadLetterJob has no constraints.
abbrev pub validate_dead_letter : DeadLetter → Option DeadLetter
validate_dead_letter l = some l

-- The rows of a page and the header X-Total-Count, of statements that may raise
abbrev pub page_answer :
    {A B : Type 0} → (A → Option B) → Option (List A) → Option ℕ → Response (List B × ℕ)
page_answer validate (some rows) (some total) = elim (validate_rows validate rows) [
  | none ↦ failure 500 "Internal Server Error"
  | some outs ↦ success 200 (outs, total)
]
page_answer validate _ _ = failure 500 "Internal Server Error"

-- `Depends(require_admin)`, which runs before the parameters are checked.
abbrev pub for_admin : {A : Type 0} → AuthContext → Bool → Response A → Response A
for_admin ctx in_range answer = elim (require_admin ctx) [
  | failure n detail ↦ failure n detail
  | success n c ↦ if in_range then answer else unprocessable
]

abbrev pub is_company_filter : Option ℤ → Bool
is_company_filter none = true
is_company_filter (some c) = is_job_id c

abbrev pub company_number : Option ℤ → Option ℕ
company_number none = none
company_number (some c) = some (pos_part c)

-- GET /admin/dlq
unfoldable pub dead_letter_queue :
    (DeadLetter → DeadLetter → Bool) → AuthContext → ℤ → ℤ → Db → Response (List DeadLetter × ℕ)
unfolding require_admin list_dead_letters count_dead_letters
dead_letter_queue tie ctx limit offset db = for_admin ctx (is_limit limit && is_offset offset) (
    page_answer validate_dead_letter (list_dead_letters tie (pos_part limit) (pos_part offset) db)
      (some (count_dead_letters db)))

-- GET /admin/companies
unfoldable pub admin_companies : AuthContext → ℤ → ℤ → Db → Response (List CompanySummary × ℕ)
unfolding require_admin list_companies count_companies
admin_companies ctx limit offset db = for_admin ctx (is_limit limit && is_offset offset) (
    page_answer validate_company (list_companies (pos_part limit) (pos_part offset) db)
      (some (count_companies db)))

-- GET /admin/jobs
unfoldable pub admin_jobs :
    AuthContext → ℤ → ℤ → Option ℤ → Option Status → Db → Response (List AdminJob × ℕ)
unfolding require_admin list_all_jobs count_all_jobs
admin_jobs ctx limit offset company status db =
    for_admin ctx (is_limit limit && is_offset offset && is_company_filter company) (
      page_answer validate_admin_job
        (list_all_jobs (pos_part limit) (pos_part offset) (company_number company) status db)
        (count_all_jobs (company_number company) status db))
