-- ===== src/Db/Counts.antt =====
-- How an INSERT changes the counts that the invariant speaks of.
use case_fullstack_senior.Prelude.{
  ℕ, ◌+◌, String, ◌≡◌, ◌&&◌, Option, ◌==◌, leb, arith, if◌then◌else◌, count-append, Bool-cases, inl,
  inr,
}
use case_fullstack_senior.Db.Schema.{Job, EventType, Db}
use case_fullstack_senior.Db.Query.{
  result_count, letter_count, event_count, same_event, is_indexed, insert_event, insert_event_once,
  insert_result, insert_letter,
}

module _ (i k c : ℕ) (t u : EventType) (actor : String) (trace : Option String) (db : Db) where
  pub event_count-insert_event :
      event_count t i (insert_event k c u actor trace db).audit_events
      ≡ event_count t i db.audit_events + (if k == i && same_event t u then 1 else 0)
  unfolding insert_event
  event_count-insert_event = rw count-append (ground arith)

  pub event_count-insert_event_once :
      event_count t i (insert_event_once k c u actor trace db).audit_events ≡ (
        if is_indexed u && leb 1 (event_count u k db.audit_events)
        then event_count t i db.audit_events
        else event_count t i db.audit_events + (if k == i && same_event t u then 1 else 0))
  unfolding insert_event_once
  event_count-insert_event_once = ground (arith, event_count-insert_event)

module _ (i : ℕ) (db : Db) where
  pub result_count-insert_result :
      (k : ℕ) (payload : String)
      → result_count i (insert_result k payload db).1.job_results ≡ (
          if leb 1 (result_count k db.job_results)
          then result_count i db.job_results
          else result_count i db.job_results + (if k == i then 1 else 0))
  unfolding insert_result
  result_count-insert_result k payload = elim (Bool-cases (leb 1 (result_count k db.job_results))) [
    | inl old ↦ rw old
    | inr new ↦ rw new (rw count-append (ground arith))
  ]

  pub letter_count-insert_letter :
      (j : Job) (error : String)
      → letter_count i (insert_letter j error db).dead_letters ≡ (
          if leb 1 (letter_count j.id db.dead_letters)
          then letter_count i db.dead_letters
          else letter_count i db.dead_letters + (if j.id == i then 1 else 0))
  unfolding insert_letter
  letter_count-insert_letter j error =
      elim (Bool-cases (leb 1 (letter_count j.id db.dead_letters))) [
        | inl old ↦ rw old
        | inr new ↦ rw new (rw count-append (ground arith))
      ]
