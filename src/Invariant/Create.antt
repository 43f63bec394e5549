-- ===== src/Invariant/Create.antt =====
-- `create_job` keeps the invariant: the new row starts with nothing in the other tables.
use case_fullstack_senior.Prelude.{
  ℕ, ◌+◌, String, ◌≡◌, refl, Option, none, some, inl, inr, arith, fetchone, select, true, false,
  eq_iff,
}
use case_fullstack_senior.Db.Schema.{Job, EventType, Db}
use case_fullstack_senior.Db.Query.{find, insert_event_once, notify}
use case_fullstack_senior.Db.Laws.{find-append}
use case_fullstack_senior.Db.Counts.{event_count-insert_event_once}
use case_fullstack_senior.Db.Local.{
  Local, Local-append, Local-insert_event_once, Local-notify, Local-trans,
}
use case_fullstack_senior.Service.{new_job, create_job, find_by_key}
use case_fullstack_senior.Service.Cases.{announced, appended, create_job-cases}
use case_fullstack_senior.Invariant.{IsBacked, IsValid, has_key, RowValid}
use case_fullstack_senior.Invariant.Keys.{IsKeyed-append}
use case_fullstack_senior.Invariant.Rows.{AllRows-of_Local}

-- The audit event `submitted` and the notification are of no concern to the invariant.
announced-Local :
    (j : Job) (c : ℕ) (by trace : Option String) (db : Db)
    → Local j.id db (announced j c by trace db)
announced-Local j c none trace db = Local-notify j.id db _
announced-Local j c (some actor) trace db =
    Local-trans (Local-insert_event_once j.id db c _ actor trace) (Local-notify j.id _ _)

announced-IsBacked :
    (j : Job) (c : ℕ) (by trace : Option String) (db : Db)
    → IsBacked db j.id false false false
    → IsBacked (announced j c by trace db) j.id false false false
unfolding notify insert_event_once
announced-IsBacked j c none trace db b = ground arith
announced-IsBacked j c (some actor) trace db b = ground (
  arith,
  event_count-insert_event_once j.id j.id c EventType.cancelled EventType.submitted actor trace db,
  event_count-insert_event_once j.id j.id c EventType.completed EventType.submitted actor trace db,
)

pub jobs-announced :
    (j : Job) (c : ℕ) (by trace : Option String) (db : Db)
    → (announced j c by trace db).jobs ≡ db.jobs
unfolding notify insert_event_once
jobs-announced j c none trace db = refl
jobs-announced j c (some actor) trace db = ground arith

pub next_job_id-announced :
    (j : Job) (c : ℕ) (by trace : Option String) (db : Db)
    → (announced j c by trace db).next_job_id ≡ db.next_job_id
unfolding notify insert_event_once
next_job_id-announced j c none trace db = refl
next_job_id-announced j c (some actor) trace db = ground arith

-- Only the row's own company and key find it.
has_key-new_job :
    (c : ℕ) (kind : String) (trace : Option String) (key : String) (db : Db)
    → find_by_key c key db ≡ none
    → (d : ℕ) (other : String) → has_key d other (new_job c kind trace key db) ≡ true
    → fetchone (select (has_key d other) db.jobs) ≡ none
unfolding find_by_key
has_key-new_job c kind trace key db new d other h =
    let same_company : c ≡ d = ground arith in
    let same_key : key ≡ other = ground (arith, eq_iff key other) in
    rw (← same_company, ← same_key) new

module _ (c : ℕ) (kind : String) (trace : Option String) (key : String) (by : Option String)
    (db : Db) (new : find_by_key c key db ≡ none) (h : IsValid db) where
  created : Db
  created = let j = new_job c kind trace key db in announced j c by trace (appended j db)

  created-RowValid : RowValid created db.next_job_id (some (new_job c kind trace key db))
  unfolding created
  created-RowValid =
      let b : IsBacked db db.next_job_id false false false =
        rw (h.keyed.fresh db.next_job_id (omega arith)) at (h.rows db.next_job_id) in
      (
        ground arith,
        announced-IsBacked (new_job c kind trace key db) c by trace
            (appended (new_job c kind trace key db) db) (ground arith),
      )

  find-created : find db.next_job_id created.jobs ≡ some (new_job c kind trace key db)
  unfolding created
  find-created = rw jobs-announced (
      ground (
        arith,
        find-append db.next_job_id db.jobs (new_job c kind trace key db),
        h.keyed.fresh db.next_job_id (omega arith),
      ))

  created-IsValid : IsValid created
  unfolding created
  created-IsValid =
      let j = new_job c kind trace key db in
      record {
        keyed =
            rw (jobs-announced, next_job_id-announced)
              (IsKeyed-append j db.jobs refl (has_key-new_job c kind trace key db new) h.keyed);
        rows =
            AllRows-of_Local
              (Local-trans (Local-append j.id db j (db.next_job_id + 1) refl)
                (announced-Local j c by trace (appended j db)))
              h.rows (rw find-created created-RowValid);
      }

-- If the tables are valid, and valid after what other transactions commit while the submission
-- waits, then a submission leaves them valid, whatever it answers.
pub create_job-IsValid :
    (others : Db → Db) (c : ℕ) (kind : String) (trace : Option String) (key : String)
    (by : Option String) (db : Db)
    → IsValid db
    → IsValid (others db)
    → IsValid (create_job others c kind trace key by db).1
unfolding created
create_job-IsValid others c kind trace key by db h h' =
    elim (create_job-cases c kind trace key by others db) [
      | inl (inl same, _) ↦ rw same h
      | inl (inr left, _) ↦ rw left h'
      | inr (co, known, room, (new, e)) ↦
          rw e (created-IsValid c kind trace key by (others db) new h')
    ]
