-- ===== src/Invariant/Finish.antt =====
-- Results and failures keep the invariant: the tables behind the row follow its new status.
use mathlib.Core.Path.{subst}
use case_fullstack_senior.Prelude.{String, ◌≡◌, refl, true, false, some, inl, inr, arith, leb}
use case_fullstack_senior.Db.Schema.{Job, EventType, Db}
use case_fullstack_senior.Db.Query.{find, replace, insert_result}
use case_fullstack_senior.Db.Laws.{find-id, find-replace}
use case_fullstack_senior.Db.Counts.{event_count-insert_event, result_count-insert_result}
use case_fullstack_senior.Db.Local.{Local}
use case_fullstack_senior.Worker.{
  Claim, finalize, finish_row, settle_result, payload_of, record_failure, fail_row, system_actor,
}
use case_fullstack_senior.Worker.Cases.{rewritten, finalize-cases, record_failure-cases, failed_db}
use case_fullstack_senior.Worker.Leases.{IsHeld}
use case_fullstack_senior.Invariant.{IsSound, IsBacked, RowValid, IsValid}
use case_fullstack_senior.Invariant.Settle.{
  settle_failure-Local, jobs-settle_failure, next_job_id-settle_failure, settle_failure-IsBacked,
}
use case_fullstack_senior.Invariant.Rewrite.{rewritten-IsValid}

module _ (c : Claim) (db : Db) where
  stored : Db
  stored = (insert_result c.id (payload_of c.company_id) db).1

  settle_result-Local : Local c.id db (settle_result c db)
  unfolding settle_result stored
  settle_result-Local = record {
    rows = λ i h. ground arith;
    results = λ i h. ground (arith, result_count-insert_result i db c.id (payload_of c.company_id));
    events = λ t i h. ground (
      arith,
      event_count-insert_event i c.id c.company_id t EventType.completed system_actor c.trace_id
          stored,
    );
    letters = λ i h. ground arith;
  }

  pub jobs-settle_result : (settle_result c db).jobs ≡ db.jobs
  unfolding settle_result
  jobs-settle_result = ground arith

  pub next_job_id-settle_result : (settle_result c db).next_job_id ≡ db.next_job_id
  unfolding settle_result
  next_job_id-settle_result = ground arith

  settle_result-IsBacked :
      IsBacked db c.id false false false → IsBacked (settle_result c db) c.id true false false
  unfolding settle_result stored
  settle_result-IsBacked b = record {
    results = ground (arith, result_count-insert_result c.id db c.id (payload_of c.company_id));
    completions = ground (
      arith,
      event_count-insert_event c.id c.id c.company_id EventType.completed EventType.completed
          system_actor c.trace_id stored,
    );
    cancellations = ground (
      arith,
      event_count-insert_event c.id c.id c.company_id EventType.cancelled EventType.completed
          system_actor c.trace_id stored,
    );
    letters = ground (arith, b.letters);
  }

-- A finalisation by any claim keeps the tables valid: a job that becomes `done` has one result
-- and one `completed` event.
pub finalize-IsValid : (c : Claim) (db : Db) → IsValid db → IsValid (finalize c db).1
finalize-IsValid c db h = elim (finalize-cases c db) [
  | inl lost ↦ rw lost h
  | inr (j, found, held, e) ↦
      let row : Job = finish_row db.now j in
      let at : RowValid db c.id (some j) = rw found at (h.rows c.id) in
      let sound : IsSound j = at.0 in
      let b : IsBacked (rewritten c.id row db) c.id false false false = ground (arith, at.1) in
      rw e (
        rewritten-IsValid c.id j row db (settle_result c (rewritten c.id row db)) found
          (record { id = refl; company_id = refl; idempotency_key = refl })
          (settle_result-Local c _) (jobs-settle_result c _) (next_job_id-settle_result c _)
          (ground arith, settle_result-IsBacked c _ b) h)
]

-- The failure of a claim that agrees with its row while it holds the lease keeps the tables
-- valid: the job has a dead letter exactly if this was the last attempt.
pub record_failure-IsValid :
    (c : Claim) (error : String) (db : Db)
    → IsHeld c db
    → IsValid db
    → IsValid (record_failure c error db).1
record_failure-IsValid c error db own h = elim (record_failure-cases c db error) [
  | inl lost ↦ rw lost h
  | inr (j, found, held, e) ↦
      let row : Job = fail_row db.now error j in
      let at : RowValid db c.id (some j) = rw found at (h.rows c.id) in
      let sound : IsSound j = at.0 in
      let b : IsBacked (rewritten c.id row db) c.id false false false = ground (arith, at.1) in
      let kept : row.id ≡ c.id = find-id c.id db.jobs found in
      let there : find c.id (replace c.id row db.jobs) ≡ some row =
        ground (arith, find-replace c.id c.id row db.jobs kept) in
      let exhausted : IsBacked (failed_db c db error j) c.id false false (leb 3 j.attempts) =
        subst (λ n. IsBacked (failed_db c db error j) c.id false false (leb 3 n))
          (own.attempts j found held) (settle_failure-IsBacked c.id _ _ _ error _ row there b) in
      rw e (
        rewritten-IsValid c.id j row db (failed_db c db error j) found
          (record { id = refl; company_id = refl; idempotency_key = refl })
          (settle_failure-Local c.id _ _ _ error _ row there)
          (jobs-settle_failure c.id _ _ _ error _ row there)
          (next_job_id-settle_failure c.id _ _ _ error _ row there) (ground arith, exhausted) h)
]
