-- ===== src/Invariant/Settle.antt =====
-- What `settle_failure` adds for a failed job: an audit event, and at the last attempt a dead letter.
use case_fullstack_senior.Prelude.{ℕ, String, ◌≡◌, false, Option, some, arith, leb, if◌then◌else◌}
use case_fullstack_senior.Db.Schema.{Job, EventType, Db}
use case_fullstack_senior.Db.Query.{find, insert_letter}
use case_fullstack_senior.Db.Laws.{find-id}
use case_fullstack_senior.Db.Counts.{event_count-insert_event, letter_count-insert_letter}
use case_fullstack_senior.Db.Local.{Local}
use case_fullstack_senior.Worker.{record_event, settle_failure, system_actor}
use case_fullstack_senior.Invariant.{IsBacked}

module _ (k c : ℕ) (trace : Option String) (attempts : ℕ) (error : String) (db : Db) (j : Job)
    (found : find k db.jobs ≡ some j) where
  recorded : Db
  recorded = record_event k c trace EventType.failed db

  abbrev settled : Db
  settled = settle_failure k c trace attempts error db

  -- The row is there, so that the INSERT … SELECT inserts it.
  settle_failure-found :
      settled ≡ (if leb 3 attempts then insert_letter j error recorded else recorded)
  unfolding settle_failure recorded
  settle_failure-found = ground arith

  pub settle_failure-Local : Local k db settled
  unfolding settle_failure recorded
  settle_failure-Local = rw settle_failure-found (record {
    rows = λ i h. ground arith;
    results = λ i h. ground arith;
    events = λ t i h.
        ground (arith, event_count-insert_event i k c t EventType.failed system_actor trace db);
    letters = λ i h.
        ground (arith, find-id k db.jobs found, letter_count-insert_letter i recorded j error);
  })

  pub jobs-settle_failure : settled.jobs ≡ db.jobs
  unfolding settle_failure
  jobs-settle_failure = ground arith

  pub next_job_id-settle_failure : settled.next_job_id ≡ db.next_job_id
  unfolding settle_failure
  next_job_id-settle_failure = ground arith

  pub settle_failure-IsBacked :
      IsBacked db k false false false → IsBacked settled k false false (leb 3 attempts)
  unfolding settle_failure recorded
  settle_failure-IsBacked b = rw settle_failure-found (record {
    results = ground arith;
    completions = ground (
      arith,
      event_count-insert_event k k c EventType.completed EventType.failed system_actor trace db,
    );
    cancellations = ground (
      arith,
      event_count-insert_event k k c EventType.cancelled EventType.failed system_actor trace db,
    );
    letters =
        ground (arith, find-id k db.jobs found, letter_count-insert_letter k recorded j error);
  })
