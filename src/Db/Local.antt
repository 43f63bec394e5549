-- ===== src/Db/Local.antt =====
-- A change of the tables that concerns one job: no other job, and nothing that the other tables
-- hold of another job, is touched. A sequence of such changes is one.
use case_fullstack_senior.Prelude.{ℕ, String, ◌≡◌, ◌≢◌, refl, ◌∙◌, Option, [], ◌∷◌, ◌++◌, arith}
use case_fullstack_senior.Db.Schema.{Job, EventType, Channel, Db}
use case_fullstack_senior.Db.Query.{
  find, replace, result_count, letter_count, event_count, insert_event, insert_event_once,
  insert_result, insert_letter, notify,
}
use case_fullstack_senior.Db.Laws.{find-replace, find-append}
use case_fullstack_senior.Db.Counts.{
  event_count-insert_event, event_count-insert_event_once, result_count-insert_result,
  letter_count-insert_letter,
}

pub record Local (k : ℕ) (db db' : Db) : Type 0 where
  pub rows : (i : ℕ) → i ≢ k → find i db'.jobs ≡ find i db.jobs
  pub results : (i : ℕ) → i ≢ k → result_count i db'.job_results ≡ result_count i db.job_results
  pub events :
      (t : EventType) (i : ℕ)
      → i ≢ k
      → event_count t i db'.audit_events ≡ event_count t i db.audit_events
  pub letters : (i : ℕ) → i ≢ k → letter_count i db'.dead_letters ≡ letter_count i db.dead_letters

module _ (k : ℕ) (db : Db) where
  pub Local-refl : Local k db db
  Local-refl = record {
    rows = λ i h. refl;
    results = λ i h. refl;
    events = λ t i h. refl;
    letters = λ i h. refl;
  }

  pub Local-replace : (j : Job) → j.id ≡ k → Local k db (record db { jobs = replace k j db.jobs })
  Local-replace j e = record {
    rows = λ i h. ground (arith, find-replace i k j db.jobs e);
    results = λ i h. refl;
    events = λ t i h. refl;
    letters = λ i h. refl;
  }

  pub Local-append :
      (j : Job) (next : ℕ)
      → j.id ≡ k
      → Local k db (record db { jobs = db.jobs ++ j ∷ []; next_job_id = next })
  Local-append j next e = record {
    rows = λ i h. ground (arith, find-append i db.jobs j);
    results = λ i h. refl;
    events = λ t i h. refl;
    letters = λ i h. refl;
  }

  pub Local-insert_event :
      (c : ℕ) (u : EventType) (actor : String) (trace : Option String)
      → Local k db (insert_event k c u actor trace db)
  unfolding insert_event
  Local-insert_event c u actor trace = record {
    rows = λ i h. refl;
    results = λ i h. refl;
    events = λ t i h. ground (arith, event_count-insert_event i k c t u actor trace db);
    letters = λ i h. refl;
  }

  pub Local-insert_event_once :
      (c : ℕ) (u : EventType) (actor : String) (trace : Option String)
      → Local k db (insert_event_once k c u actor trace db)
  unfolding insert_event_once
  Local-insert_event_once c u actor trace = record {
    rows = λ i h. ground arith;
    results = λ i h. ground arith;
    events = λ t i h. ground (arith, event_count-insert_event_once i k c t u actor trace db);
    letters = λ i h. ground arith;
  }

  pub Local-notify : (ch : Channel) → Local k db (notify ch k db)
  unfolding notify
  Local-notify ch = record {
    rows = λ i h. refl;
    results = λ i h. refl;
    events = λ t i h. refl;
    letters = λ i h. refl;
  }

  pub Local-insert_result : (payload : String) → Local k db (insert_result k payload db).1
  unfolding insert_result
  Local-insert_result payload = record {
    rows = λ i h. ground arith;
    results = λ i h. ground (arith, result_count-insert_result i db k payload);
    events = λ t i h. ground arith;
    letters = λ i h. ground arith;
  }

  pub Local-insert_letter :
      (j : Job) (error : String) → j.id ≡ k → Local k db (insert_letter j error db)
  unfolding insert_letter
  Local-insert_letter j error e = record {
    rows = λ i h. ground arith;
    results = λ i h. ground arith;
    events = λ t i h. ground arith;
    letters = λ i h. ground (arith, letter_count-insert_letter i db j error);
  }

pub Local-trans : {k : ℕ} {a b c : Db} → Local k a b → Local k b c → Local k a c
Local-trans p q = record {
  rows = λ i h. q.rows i h ∙ p.rows i h;
  results = λ i h. q.results i h ∙ p.results i h;
  events = λ t i h. q.events t i h ∙ p.events t i h;
  letters = λ i h. q.letters i h ∙ p.letters i h;
}
