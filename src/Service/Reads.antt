-- ===== src/Service/Reads.antt =====
-- The reads of `JobsService`: list_jobs, count_jobs, get_job and get_result.
use case_fullstack_senior.Prelude.{
  ℕ, ◌+◌, ◌-◌, String, Bool, true, false, ◌&&◌, ◌||◌, ◌≡◌, refl, ◌∙◌, ap, sym, Option, none, some,
  List, [], ◌∷◌, ◌++◌, map, ◌==◌, ltb, leb, if◌then◌else◌, arith, length, count, select, fetchone,
  length-select, inl, inr, Option-cases,
}
use case_fullstack_senior.Prelude.Pages.{
  sort_by, page, length-sort_by, length-take, length-drop, page-next, length-map, map-append,
}
use case_fullstack_senior.Db.Schema.{
  Status, same_status, is_done, is_cancelled, Job, JobResult, EventType, AuditEvent, Db,
}
use case_fullstack_senior.Db.Query.{find, result_count, same_event, fits_bigint}
use case_fullstack_senior.Service.{owned_job, require_job}
use case_fullstack_senior.Service.Monad.{
  Result, ok, err, Action, pure, raise, gets, ◌>>=◌, result_not_found,
}
use case_fullstack_senior.Invariant.{IsValid, IsBacked, RowValid, is_some, is_exhausted}

-- `%(status)s::text IS NULL OR status = %(status)s`
abbrev pub status_matches : Option Status → Job → Bool
status_matches none j = true
status_matches (some s) j = same_status s j.status

abbrev pub is_listed : ℕ → Option Status → Job → Bool
is_listed c status j = j.company_id == c && status_matches status j

pub record JobSummary : Type 0 where
  pub id : ℕ
  pub kind : String
  pub status : Status
  pub created_at : ℕ
  pub result_count : ℕ

abbrev pub summary_of : Db → Job → JobSummary
summary_of db j = record {
  id = j.id;
  kind = j.kind;
  status = j.status;
  created_at = j.created_at;
  result_count = result_count j.id db.job_results;
}

-- ORDER BY created_at DESC, id DESC
abbrev pub newest_first : Job → Job → Bool
newest_first i j = ltb j.created_at i.created_at || i.created_at == j.created_at && leb j.id i.id

abbrev pub jobs_page : ℕ → ℕ → ℕ → Option Status → Db → List JobSummary
jobs_page c limit offset status db =
    map (summary_of db)
      (page limit offset (sort_by newest_first (select (is_listed c status) db.jobs)))

-- The rows, or `none` for the exception of a LIMIT or an OFFSET that is no bigint
unfoldable pub list_jobs : ℕ → ℕ → ℕ → Option Status → Db → Option (List JobSummary)
list_jobs c limit offset status db =
    if fits_bigint limit && fits_bigint offset
    then some (jobs_page c limit offset status db)
    else none

unfoldable pub count_jobs : ℕ → Option Status → Db → ℕ
count_jobs c status db = count (is_listed c status) db.jobs

-- ORDER BY occurred_at ASC, id ASC
abbrev pub oldest_first : AuditEvent → AuditEvent → Bool
oldest_first d e =
    ltb d.occurred_at e.occurred_at || d.occurred_at == e.occurred_at && leb d.id e.id

-- `_get_audit_events`
unfoldable pub audit_events_of : ℕ → ℕ → Db → List AuditEvent
audit_events_of c k db =
    sort_by oldest_first (select (λ e. e.job_id == k && e.company_id == c) db.audit_events)

-- The columns of the job, the cancellation (its actor and time), and the events.
pub record JobDetail : Type 0 where
  pub job : Job
  pub cancellation : Option (String × ℕ)
  pub audit_events : List AuditEvent

abbrev pub cancellation_of : Option AuditEvent → Option (String × ℕ)
cancellation_of none = none
cancellation_of (some e) = some (e.actor, e.occurred_at)

unfoldable pub get_job : ℕ → ℕ → Action JobDetail
unfolding require_job audit_events_of
get_job c k = do
  row ← require_job c k
  events ← gets (audit_events_of c k)
  pure (record {
    job = row;
    cancellation =
        cancellation_of
          (fetchone (select (λ e. same_event EventType.cancelled e.event_type) events));
    audit_events = events;
  })

-- FROM job_results r JOIN jobs j ON j.id = r.job_id WHERE r.job_id = k AND j.company_id = c
unfoldable pub get_result : ℕ → ℕ → Action String
unfolding owned_job
get_result c k = do
  row ← λ db. (
    ok (
        fetchone (
          select (λ (r : JobResult). r.job_id == k && is_some (owned_job c r.job_id db))
            db.job_results)),
    db,
  )
  elim row [ none ↦ raise (result_not_found k) | some r ↦ pure r.payload ]

-- A page of the company's jobs has as many jobs as the total count leaves after the offset, but
-- at most the limit.
pub jobs_page-count_jobs :
    (c limit offset : ℕ) (status : Option Status) (db : Db)
    → let left = count_jobs c status db - offset in
      length (jobs_page c limit offset status db) ≡ (if leb limit left then limit else left)
unfolding count_jobs
jobs_page-count_jobs c limit offset status db =
    let listed = select (is_listed c status) db.jobs in
    length-map (summary_of db) _ ∙ rw (length-take, length-drop, length-sort_by, length-select) refl

-- A page of the company's jobs followed by the page that starts where it ends is the page of both
-- limits.
pub jobs_page-next :
    (c a b offset : ℕ) (status : Option Status) (db : Db)
    → jobs_page c a offset status db ++ jobs_page c b (offset + a) status db
      ≡ jobs_page c (a + b) offset status db
jobs_page-next c a b offset status db =
    sym (map-append (summary_of db) _ _)
    ∙ ap (map (summary_of db))
        (page-next a b offset (sort_by newest_first (select (is_listed c status) db.jobs)))

abbrev pub is_done_row : Option Job → Bool
is_done_row none = false
is_done_row (some j) = is_done j.status

abbrev pub is_answer : {A : Type 0} → Result A → Bool
is_answer (ok _) = true
is_answer (err _) = false

pub select-joined :
    (c k : ℕ) (db : Db) (l : List JobResult)
    → is_some (
        fetchone (select (λ (r : JobResult). r.job_id == k && is_some (owned_job c r.job_id db)) l))
      ≡ (leb 1 (result_count k l) && is_some (owned_job c k db))
select-joined c k db [] = refl
select-joined c k db (r ∷ l) = grind (arith, select-joined c k db l)

-- In valid tables a company gets a result for a job number exactly if it has the job and the job
-- is done.
pub get_result-done :
    (c k : ℕ) (db : Db)
    → IsValid db
    → is_answer (get_result c k db).0 ≡ is_done_row (owned_job c k db)
unfolding get_result owned_job
get_result-done c k db h = elim (Option-cases (find k db.jobs)) [
  | inl gone ↦
      let at : IsBacked db k false false false = rw gone at (h.rows k) in
      let e = select-joined c k db db.job_results in ground arith
  | inr (j, found) ↦
      let at : RowValid db k (some j) = rw found at (h.rows k) in
      let b : IsBacked db k (is_done j.status) (is_cancelled j.status) (is_exhausted j) = at.1 in
      let e = select-joined c k db db.job_results in ground arith
]
