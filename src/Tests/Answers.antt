-- ===== src/Tests/Answers.antt =====
-- Answers over the tables with two queued jobs, whose kinds requests may send.
use mathlib.Core.Path.{subst}
use case_fullstack_senior.Prelude.{
  Bool, leb, ◌≤◌, ◌≡◌, refl, ap, Option, none, some, length, ◌==◌, inl, inr, Bool-cases, arith,
}
use case_fullstack_senior.Prelude.Int.{pos}
use case_fullstack_senior.Prelude.Strip.{is_space}
use case_fullstack_senior.Prelude.Every.{Every}
use case_fullstack_senior.Db.Schema.{Company, Job, DeadLetter}
use case_fullstack_senior.Db.Query.{find, find_company, notify, insert_event_once}
use case_fullstack_senior.Service.{new_job, create_job, owned_job}
use case_fullstack_senior.Http.{AuthContext, admin, success, failure, post_cancel, post_retry}
use case_fullstack_senior.Http.Schemas.{
  job_kind, list_route, cancel_route, retry_route, detail_route,
}
use case_fullstack_senior.Http.Schemas.Rows.{IsFit, AllFit}
use case_fullstack_senior.Http.Schemas.Pages.{listed, list_route-rows, cancel_route-retry_route}
use case_fullstack_senior.Http.Schemas.Details.{detail_answer, detail_route-row}
use case_fullstack_senior.Admin.{companies_page, dead_letters_page}
use case_fullstack_senior.Admin.Routes.{dead_letter_queue, admin_companies, admin_jobs}
use case_fullstack_senior.Admin.Routes.Answers.{admin_routes-rows}
use case_fullstack_senior.Tests.{empty, submitted_db, shared_db, shared_db-IsValid}

abbrev acme_admin : AuthContext
acme_admin = record { company_id = 1; role = admin }

transfer : (i j : Job) → some i ≡ some j → IsFit is_space i → IsFit is_space j
transfer i j e h =
    subst (IsFit is_space) (ap (λ (o : Option Job). elim o [ some x ↦ x | none ↦ i ]) e) h

abbrev acme_job : Job
acme_job = new_job 1 "report" (some "r-1") "k-1" empty

abbrev globex_job : Job
globex_job = new_job 2 "export" (some "r-2") "k-1" submitted_db

acme_job-IsFit : IsFit is_space acme_job
unfolding job_kind
acme_job-IsFit = record { numbered = omega arith; owned = omega arith; named = refl }

globex_job-IsFit : IsFit is_space globex_job
unfolding job_kind create_job find_company notify insert_event_once
globex_job-IsFit = record { numbered = omega arith; owned = omega arith; named = refl }

shared_db-AllFit : AllFit is_space shared_db
unfolding find create_job find_company notify insert_event_once
shared_db-AllFit k j found = elim (Bool-cases (1 == k)) [
  | inl at ↦ transfer acme_job j (ground arith) acme_job-IsFit
  | inr apart ↦ elim (Bool-cases (2 == k)) [
    | inl at ↦ transfer globex_job j (ground arith) globex_job-IsFit
    | inr other ↦ absurd (ground arith)
  ]
]

-- The first offset that is no bigint
list_route-rows_example :
    (list_route is_space acme_admin (pos 50) (pos 9223372036854775808) none shared_db
      ≡ failure 500 "Internal Server Error")
    × (length (listed 1 50 9223372036854775808 none shared_db) ≤ 200)
list_route-rows_example =
    list_route-rows is_space acme_admin (pos 50) (pos 9223372036854775808) none shared_db
      shared_db-IsValid shared_db-AllFit refl

detail_route-row_example :
    detail_route is_space acme_admin (pos 1) shared_db
    ≡ (detail_answer 1 1 shared_db (owned_job 1 1 shared_db), shared_db)
detail_route-row_example =
    detail_route-row is_space acme_admin (pos 1) shared_db shared_db-IsValid shared_db-AllFit

cancel_route-retry_route_example :
    (cancel_route acme_admin (pos 1) "r-9" shared_db ≡ post_cancel acme_admin 1 "r-9" shared_db)
    × (retry_route acme_admin (pos 1) "r-9" shared_db ≡ post_retry acme_admin 1 "r-9" shared_db)
cancel_route-retry_route_example = cancel_route-retry_route acme_admin "r-9" shared_db (pos 1)

companies_numbered : Every (λ (co : Company). 1 ≤ co.id) shared_db.companies
unfolding create_job find_company notify insert_event_once
companies_numbered = (omega arith, (omega arith, tt))

-- Letters of one time by their number
abbrev by_id : DeadLetter → DeadLetter → Bool
by_id a b = leb a.id b.id

admin_routes-rows_example :
    (dead_letter_queue by_id acme_admin (pos 50) (pos 0) shared_db
      ≡ success 200 (dead_letters_page by_id 50 0 shared_db, length shared_db.dead_letters))
    × (admin_companies acme_admin (pos 50) (pos 0) shared_db
        ≡ success 200 (companies_page 50 0 shared_db, length shared_db.companies))
    × (admin_jobs acme_admin (pos 50) (pos 0) (some (pos 9223372036854775808)) none shared_db
        ≡ failure 500 "Internal Server Error")
admin_routes-rows_example =
    admin_routes-rows is_space by_id acme_admin (pos 50) (pos 0) (some (pos 9223372036854775808))
      none shared_db shared_db-IsValid shared_db-AllFit companies_numbered
