-- ===== src/Admin.antt =====
-- api/modules/admin/service.py: the reads of `AdminService`, over the tables of all companies.
pub mod Routes
use case_fullstack_senior.Prelude.{
  ℕ, ◌+◌, ◌-◌, Bool, ◌&&◌, ◌≡◌, refl, ◌∙◌, Option, none, some, List, [], ◌∷◌, map, ◌==◌, leb, ltb,
  ◌||◌, true, false, if◌then◌else◌, arith, length, count, select, length-select,
}
use case_fullstack_senior.Prelude.Pages.{
  sort_by, page, length-sort_by, length-take, length-drop, length-map,
}
use case_fullstack_senior.Db.Schema.{Status, same_status, Company, Job, DeadLetter, Db}
use case_fullstack_senior.Db.Query.{active_jobs, fits_bigint}
use case_fullstack_senior.Service.Reads.{status_matches, count_jobs}

pub record CompanySummary : Type 0 where
  pub company : Company
  pub total_jobs : ℕ
  pub queued : ℕ
  pub running : ℕ
  pub done : ℕ
  pub failed : ℕ
  pub cancelled : ℕ

-- count(j.id) FILTER (WHERE j.status = s), over the jobs that the LEFT JOIN gives the company
abbrev pub jobs_in : Company → Status → List Job → ℕ
jobs_in co s = count (λ j. j.company_id == co.id && same_status s j.status)

abbrev pub company_summary : Db → Company → CompanySummary
company_summary db co = record {
  company = co;
  total_jobs = count (λ j. j.company_id == co.id) db.jobs;
  queued = jobs_in co Status.queued db.jobs;
  running = jobs_in co Status.running db.jobs;
  done = jobs_in co Status.done db.jobs;
  failed = jobs_in co Status.failed db.jobs;
  cancelled = jobs_in co Status.cancelled db.jobs;
}

abbrev pub companies_page : ℕ → ℕ → Db → List CompanySummary
companies_page limit offset db =
    map (company_summary db) (page limit offset (sort_by (λ a b. leb a.id b.id) db.companies))

-- The rows, or `none` for the exception of a parameter that is no bigint; so are the other reads.
unfoldable pub list_companies : ℕ → ℕ → Db → Option (List CompanySummary)
list_companies limit offset db =
    if fits_bigint limit && fits_bigint offset then some (companies_page limit offset db) else none

unfoldable pub count_companies : Db → ℕ
count_companies db = length db.companies

-- `%(company_id)s::bigint IS NULL OR company_id = %(company_id)s`, and the same for the status
abbrev pub is_chosen : Option ℕ → Option Status → Job → Bool
is_chosen none status j = status_matches status j
is_chosen (some c) status j = j.company_id == c && status_matches status j

-- The columns id, company_id and status.
pub record AdminJob : Type 0 where
  pub id : ℕ
  pub company_id : ℕ
  pub status : Status

abbrev pub admin_job : Job → AdminJob
admin_job j = record { id = j.id; company_id = j.company_id; status = j.status }

-- `%(company_id)s::bigint`
abbrev pub fits_company : Option ℕ → Bool
fits_company none = true
fits_company (some c) = fits_bigint c

abbrev pub all_jobs_page : ℕ → ℕ → Option ℕ → Option Status → Db → List AdminJob
all_jobs_page limit offset company status db =
    map admin_job (
      page limit offset
        (sort_by (λ i j. leb i.id j.id) (select (is_chosen company status) db.jobs)))

unfoldable pub list_all_jobs : ℕ → ℕ → Option ℕ → Option Status → Db → Option (List AdminJob)
list_all_jobs limit offset company status db =
    if fits_bigint limit && fits_bigint offset && fits_company company
    then some (all_jobs_page limit offset company status db)
    else none

abbrev pub all_jobs_count : Option ℕ → Option Status → Db → ℕ
all_jobs_count company status db = count (is_chosen company status) db.jobs

unfoldable pub count_all_jobs : Option ℕ → Option Status → Db → Option ℕ
count_all_jobs company status db =
    if fits_company company then some (all_jobs_count company status db) else none

unfoldable pub count_dead_letters : Db → ℕ
count_dead_letters db = length db.dead_letters

-- ORDER BY failed_at DESC. The statement does not order letters of one time: `tie` is the order in
-- which PostgreSQL happens to give them.
abbrev pub latest_first : (DeadLetter → DeadLetter → Bool) → DeadLetter → DeadLetter → Bool
latest_first tie a b = ltb b.failed_at a.failed_at || b.failed_at == a.failed_at && tie a b

abbrev pub dead_letters_page : (DeadLetter → DeadLetter → Bool) → ℕ → ℕ → Db → List DeadLetter
dead_letters_page tie limit offset db =
    page limit offset (sort_by (latest_first tie) db.dead_letters)

unfoldable pub list_dead_letters :
    (DeadLetter → DeadLetter → Bool) → ℕ → ℕ → Db → Option (List DeadLetter)
list_dead_letters tie limit offset db =
    if fits_bigint limit && fits_bigint offset
    then some (dead_letters_page tie limit offset db)
    else none

-- In a company's summary the five counts by status add up to its jobs, and those of the queued
-- and the running ones to the active jobs that `create_job` holds against the limit.
pub company_summary-total :
    (db : Db) (co : Company)
    → let s = company_summary db co in
      (s.total_jobs ≡ s.queued + s.running + s.done + s.failed + s.cancelled)
      × (active_jobs co.id db.jobs ≡ s.queued + s.running)
company_summary-total db co = (totals db.jobs, actives db.jobs)
  where
    totals :
        (l : List Job)
        → count (λ j. j.company_id == co.id) l
          ≡ jobs_in co Status.queued l
            + jobs_in co Status.running l
            + jobs_in co Status.done l
            + jobs_in co Status.failed l
            + jobs_in co Status.cancelled l
    totals [] = ground arith
    totals (j ∷ l) = ground (arith, totals l)

    actives :
        (l : List Job)
        → active_jobs co.id l ≡ jobs_in co Status.queued l + jobs_in co Status.running l
    actives [] = ground arith
    actives (j ∷ l) = ground (arith, actives l)

-- A page of the administrator's list has as many jobs as the total count leaves after the offset,
-- but at most the limit; and the count for one company is that of the company's own list.
pub all_jobs_page-all_jobs_count :
    (limit offset : ℕ) (company : Option ℕ) (status : Option Status) (db : Db)
    → let left = all_jobs_count company status db - offset in
      (length (all_jobs_page limit offset company status db)
        ≡ (if leb limit left then limit else left))
      × ((c : ℕ) → all_jobs_count (some c) status db ≡ count_jobs c status db)
unfolding count_jobs
all_jobs_page-all_jobs_count limit offset company status db = (
  length-map admin_job _ ∙ rw (length-take, length-drop, length-sort_by, length-select) refl,
  λ c. refl,
)
