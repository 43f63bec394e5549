-- ===== src/Invariant/Service.antt =====
-- The methods of `JobsService` keep the invariant.
use case_fullstack_senior.Prelude.{
  ℕ, String, ◌≡◌, ◌⊎◌, refl, false, Option, some, inl, inr, arith, ◌∙◌,
}
use case_fullstack_senior.Db.Schema.{Job, EventType, Channel, Db}
use case_fullstack_senior.Db.Query.{find, replace, same_event, insert_event_once, notify}
use case_fullstack_senior.Db.Laws.{find-id, find-replace}
use case_fullstack_senior.Db.Counts.{event_count-insert_event_once}
use case_fullstack_senior.Db.Local.{
  Local, Local-replace, Local-insert_event_once, Local-notify, Local-trans,
}
use case_fullstack_senior.Service.{cancel_job, retry_job}
use case_fullstack_senior.Service.Cases.{written, cancel_job-cases, retry_job-cases}
use case_fullstack_senior.Invariant.{
  IsSound, IsBacked, IsValid, is_done, is_cancelled, is_exhausted,
}
use case_fullstack_senior.Invariant.Keys.{SameIdentity, IsKeyed-replace}
use case_fullstack_senior.Invariant.Rows.{AllRows-of_Local}

-- A row is rewritten with its audit event and its notification.
module _ (k c : ℕ) (i j : Job) (t : EventType) (by : String) (trace : Option String) (ch : Channel)
    (db : Db) (found : find k db.jobs ≡ some i) (same : SameIdentity i j) where
  written-Local : Local k db (written k j c t by trace ch db)
  written-Local =
      Local-trans (Local-replace k db j (same.id ∙ find-id k db.jobs found))
        (Local-trans (Local-insert_event_once k _ c t by trace) (Local-notify k _ ch))

  find-written : find k (written k j c t by trace ch db).jobs ≡ some j
  unfolding notify insert_event_once
  find-written = ground (arith, find-replace k k j db.jobs (same.id ∙ find-id k db.jobs found))

  -- A cancellation or a retry of a row that is not cancelled, if it neither makes nor unmakes a
  -- result or a dead letter.
  module _ (kind : (t ≡ EventType.cancelled) ⊎ (t ≡ EventType.retry_requested))
      (done_kept : is_done j.status ≡ is_done i.status)
      (exhausted_kept : is_exhausted j ≡ is_exhausted i) (live : is_cancelled i.status ≡ false)
      (outcome : is_cancelled j.status ≡ same_event EventType.cancelled t) where
    written-IsBacked :
        IsBacked db k (is_done i.status) (is_cancelled i.status) (is_exhausted i)
        → IsBacked
            (written k j c t by trace ch db)
            k
            (is_done j.status)
            (is_cancelled j.status)
            (is_exhausted j)
    unfolding notify insert_event_once
    written-IsBacked b =
        rw (done_kept, exhausted_kept, outcome)
          (ground (
            arith,
            event_count-insert_event_once k k c EventType.cancelled t by trace
                (record db { jobs = replace k j db.jobs }),
            event_count-insert_event_once k k c EventType.completed t by trace
                (record db { jobs = replace k j db.jobs }),
          ))

    written-IsValid : IsSound j → IsValid db → IsValid (written k j c t by trace ch db)
    unfolding notify insert_event_once
    written-IsValid sound h = record {
      keyed = ground (arith, IsKeyed-replace k j db.jobs found same h.keyed);
      rows =
          AllRows-of_Local written-Local h.rows
            (rw find-written (sound, written-IsBacked (rw found at (h.rows k)).1));
    }

unchanged :
    {i j : Job}
    → j.id ≡ i.id
    → j.company_id ≡ i.company_id
    → j.idempotency_key ≡ i.idempotency_key
    → SameIdentity i j
unchanged p q r = record { id = p; company_id = q; idempotency_key = r }

-- `cancel_job` keeps the invariant.
pub cancel_job-IsValid :
    (c k : ℕ) (by : String) (trace : Option String) (db : Db)
    → IsValid db
    → IsValid (cancel_job c k by trace db).1
cancel_job-IsValid c k by trace db h = elim (cancel_job-cases c k by trace db) [
  | inl (same, _) ↦ rw same h
  | inr (j, found, active, e) ↦
      let sound : IsSound j = (rw found at (h.rows k)).0 in
      rw e (
        written-IsValid k c j _ _ by trace _ db found (unchanged refl refl refl) (inl refl)
          (ground arith) (ground arith) (ground arith) refl (ground arith) h)
]

-- `retry_job` keeps the invariant.
pub retry_job-IsValid :
    (c k : ℕ) (by : String) (trace : Option String) (db : Db)
    → IsValid db
    → IsValid (retry_job c k by trace db).1
retry_job-IsValid c k by trace db h = elim (retry_job-cases c k by trace db) [
  | inl (same, _) ↦ rw same h
  | inr (j, found, failed, e) ↦
      let sound : IsSound j = (rw found at (h.rows k)).0 in
      rw e (
        written-IsValid k c j _ _ by trace _ db found (unchanged refl refl refl) (inr refl)
          (ground arith) (ground arith) (ground arith) refl (ground arith) h)
]
