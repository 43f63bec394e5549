-- ===== src/Admin/Routes/Answers.antt =====
-- What the routes of an administrator answer.
use case_fullstack_senior.Prelude.{
  ℕ, Bool, true, false, none, length, ◌&&◌, ◌≡◌, ◌≤◌, refl, Option, some, List, [], ◌∷◌, leb,
  if◌then◌else◌, arith,
}
use case_fullstack_senior.Prelude.Int.{ℤ, pos_part}
use case_fullstack_senior.Prelude.Every.{Every, Every-page, Every-sorted_page, weaken}
use case_fullstack_senior.Db.Schema.{Status, Company, DeadLetter, Db}
use case_fullstack_senior.Db.Query.{fits_bigint}
use case_fullstack_senior.Invariant.{IsValid}
use case_fullstack_senior.Admin.{
  companies_page, dead_letters_page, all_jobs_page, all_jobs_count, fits_company, company_summary,
  list_companies, count_companies, admin_job, list_all_jobs, count_all_jobs, count_dead_letters,
  list_dead_letters,
}
use case_fullstack_senior.Http.{
  AuthContext, Role, user, admin, Response, success, failure, require_admin,
}
use case_fullstack_senior.Http.Schemas.{validate_rows, is_limit, is_offset}
use case_fullstack_senior.Http.Schemas.Rows.{AllFit, Every-find, validate_rows-Every}
use case_fullstack_senior.Admin.Routes.{
  validate_admin_job, validate_company, validate_dead_letter, page_answer, for_admin,
  is_company_filter, company_number, dead_letter_queue, admin_companies, admin_jobs,
}

-- 403 for a user; for an administrator 422 for parameters out of their ranges, 500 for one that is no
-- bigint, or the answer.
abbrev pub admin_only : {A : Type 0} → Role → Bool → Bool → A → Response A
admin_only user in_range fits a = failure 403 "requer role admin"
admin_only admin in_range fits a =
    if in_range
    then (if fits then success 200 a else failure 500 "Internal Server Error")
    else failure 422 "Unprocessable Entity"

for_admin-admin_only :
    {A : Type 0} (ctx : AuthContext) (in_range fits : Bool) (r : Response A) (a : A)
    → (in_range ≡ true → r ≡ (if fits then success 200 a else failure 500 "Internal Server Error"))
    → for_admin ctx in_range r ≡ admin_only ctx.role in_range fits a
unfolding require_admin
for_admin-admin_only ctx in_range fits r a e = role ctx.role refl in_range e
  where
    role :
        (p : Role)
        → ctx.role ≡ p
        → (b : Bool)
        → (b ≡ true → r ≡ (if fits then success 200 a else failure 500 "Internal Server Error"))
        → for_admin ctx b r ≡ admin_only p b fits a
    role user at b e = rw at refl
    role admin at true e = rw at (e refl)
    role admin at false e = rw at refl

-- A page whose rows are accepted, of statements whose parameters are bigints or not
page_answer-rows :
    {A : Type 0} (validate : A → Option A) (rows : List A) (total : ℕ) (fits : Bool)
    (answer : Option (List A)) (count : Option ℕ)
    → validate_rows validate rows ≡ some rows
    → answer ≡ (if fits then some rows else none)
    → (fits ≡ true → count ≡ some total)
    → page_answer validate answer count
      ≡ (if fits then success 200 (rows, total) else failure 500 "Internal Server Error")
page_answer-rows validate rows total true answer count accepted e n =
    rw (e, n refl, page_answer, accepted) refl
page_answer-rows validate rows total false answer count accepted e n = rw e refl

validate_rows-some : {A : Type 0} (l : List A) → validate_rows (λ a. some a) l ≡ some l
validate_rows-some [] = refl
validate_rows-some (a ∷ l) = rw (validate_rows-some l) refl

-- A company filter is a bigint, or there is none.
abbrev pub bigint_filter : Option ℤ → Bool
bigint_filter none = true
bigint_filter (some c) = leb (pos_part c) 9223372036854775807

fits_company-bigint_filter :
    (company : Option ℤ) → fits_company (company_number company) ≡ bigint_filter company
fits_company-bigint_filter none = refl
fits_company-bigint_filter (some c) = refl

-- In valid tables whose companies and jobs have positive numbers, and whose kinds are ones that a
-- request may send, with any order of the dead letters of one time, the three lists of an
-- administrator answer 403 to a user, with any parameters; to an administrator they answer 422 for
-- a limit, an offset or a company out of its range, and otherwise 200 with the rows of the page
-- and the total count, if the offset and the company are at most the largest bigint,
-- 9223372036854775807: no validation of a row fails. Beyond it an offset or a company passes its
-- range and answers 500.
pub admin_routes-rows :
    (is_white : ℕ → Bool) (tie : DeadLetter → DeadLetter → Bool) (ctx : AuthContext)
    (limit offset : ℤ) (company : Option ℤ) (status : Option Status) (db : Db)
    → IsValid db
    → AllFit is_white db
    → Every (λ (co : Company). 1 ≤ co.id) db.companies
    → let l = pos_part limit in
      let o = pos_part offset in
      let in_range = is_limit limit && is_offset offset in
      let fits = leb o 9223372036854775807 in
      (dead_letter_queue tie ctx limit offset db
        ≡ admin_only ctx.role in_range fits (dead_letters_page tie l o db, length db.dead_letters))
      × (admin_companies ctx limit offset db
          ≡ admin_only ctx.role in_range fits (companies_page l o db, length db.companies))
      × (admin_jobs ctx limit offset company status db
          ≡ admin_only ctx.role
              (in_range && is_company_filter company)
              (fits && bigint_filter company)
              (
                all_jobs_page l o (company_number company) status db,
                all_jobs_count (company_number company) status db,
              ))
unfolding dead_letter_queue admin_companies admin_jobs list_companies list_all_jobs
    list_dead_letters count_dead_letters count_companies count_all_jobs
admin_routes-rows is_white tie ctx limit offset company status db h fit numbered =
    let l = pos_part limit in
    let o = pos_part offset in
    let fits = leb o 9223372036854775807 in
    (
      for_admin-admin_only ctx _ fits _ _ (λ ranges.
          let small : fits_bigint l ≡ true = ground arith in
          page_answer-rows validate_dead_letter (dead_letters_page tie l o db) _ fits
            (list_dead_letters tie l o db) _ (validate_rows-some (dead_letters_page tie l o db))
            (rw small refl) (λ _. refl)),
      for_admin-admin_only ctx _ fits _ _ (λ ranges.
          let small : fits_bigint l ≡ true = ground arith in
          page_answer-rows validate_company (companies_page l o db) _ fits (list_companies l o db) _
            (validate_rows-Every validate_company (company_summary db) (company_summary db) _ (
              Every-sorted_page _ _ l o db.companies (
                weaken (λ (co : Company). 1 ≤ co.id) _ db.companies
                  (λ co one. let id : leb 1 co.id ≡ true = ground arith in rw id refl) numbered)))
            (rw small refl) (λ _. refl)),
      for_admin-admin_only ctx _ (fits && bigint_filter company) _ _ (λ ranges.
          let small : fits_bigint l ≡ true = ground arith in
          let same = fits_company-bigint_filter company in
          page_answer-rows validate_admin_job (all_jobs_page l o (company_number company) status db)
            _ (fits && bigint_filter company) (list_all_jobs l o (company_number company) status db)
            (count_all_jobs (company_number company) status db)
            (validate_rows-Every validate_admin_job admin_job admin_job _ (
              Every-page _ _ _ l o db.jobs (
                Every-find _ db.jobs h.keyed.unique (λ k j found.
                  let f = fit k j found in
                  let id : leb 1 j.id ≡ true = ground (arith, f.numbered) in
                  let owned : leb 1 j.company_id ≡ true = ground (arith, f.owned) in
                  rw (id, owned) refl))))
            (rw (small, same) refl)
            (λ both.
              let company_fits : fits_company (company_number company) ≡ true = ground arith in
              rw company_fits refl)),
    )
