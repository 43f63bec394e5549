-- ===== src/Invariant.antt =====
-- What holds of the tables between two transactions of the API and the workers.
pub mod Keys
pub mod Rows
pub mod Service
pub mod Create
pub mod Rewrite
pub mod Claim
pub mod Settle
pub mod Finish
pub mod Recover
use case_fullstack_senior.Prelude.{
  ℕ, String, ◌≤◌, ◌<◌, Bool, true, false, ◌&&◌, ◌≡◌, Option, none, some, List, [], ◌∷◌, ◌==◌, leb,
  count, if◌then◌else◌,
}
use case_fullstack_senior.Db.Schema.{
  Job, EventType, Db, is_queued, is_running, is_done, is_failed, is_cancelled,
}
use case_fullstack_senior.Db.Query.{find, result_count, letter_count, event_count, text_is}

abbrev pub is_some {ℓ} : {A : Type ℓ} → Option A → Bool
is_some none = false
is_some (some _) = true

-- One row by itself: ck_jobs_attempts, room for another attempt while queued, at least one attempt
-- while running, a lease exactly while running, an error text while failed.
pub record IsSound (j : Job) : Type 0 where
  pub capped : j.attempts ≤ 3
  pub room : is_queued j.status ≡ true → j.attempts < 3
  pub started : is_running j.status ≡ true → 1 ≤ j.attempts
  pub owned : is_some j.worker_id ≡ is_running j.status
  pub leased : is_some j.locked_at ≡ is_running j.status
  pub explained : is_failed j.status ≡ true → is_some j.last_error ≡ true

abbrev pub once : Bool → ℕ
once b = if b then 1 else 0

abbrev pub is_exhausted : Job → Bool
is_exhausted j = is_failed j.status && leb 3 j.attempts

-- The other tables hold of the row with key k exactly what its status says: one result and one
-- `completed` event if it is done, one `cancelled` event if it is cancelled, one dead letter if it
-- failed at the last attempt; and of a key without a row they hold nothing.
pub record IsBacked (db : Db) (k : ℕ) (done cancelled exhausted : Bool) : Type 0 where
  pub results : result_count k db.job_results ≡ once done
  pub completions : event_count EventType.completed k db.audit_events ≡ once done
  pub cancellations : event_count EventType.cancelled k db.audit_events ≡ once cancelled
  pub letters : letter_count k db.dead_letters ≡ once exhausted

-- The row with key k, if there is one, is sound, and the other tables agree with it.
abbrev pub RowValid : Db → ℕ → Option Job → Type 0
RowValid db k none = IsBacked db k false false false
RowValid db k (some j) =
    IsSound j × IsBacked db k (is_done j.status) (is_cancelled j.status) (is_exhausted j)

abbrev pub AllRows : Db → Type 0
AllRows db = (k : ℕ) → RowValid db k (find k db.jobs)

-- No primary key occurs twice.
abbrev pub IsUnique : List Job → Type 0
IsUnique [] = Unit
IsUnique (j ∷ js) = (find j.id js ≡ none) × IsUnique js

abbrev pub has_key : ℕ → String → Job → Bool
has_key c key j = j.company_id == c && text_is j.idempotency_key key

-- The keys of the table: the primary key and the sequence behind it, and the unique index
-- uq_jobs_company_idempotency_key.
pub record IsKeyed (jobs : List Job) (next : ℕ) : Type 0 where
  pub unique : IsUnique jobs
  pub fresh : (k : ℕ) → next ≤ k → find k jobs ≡ none
  pub keys : (c : ℕ) (key : String) → count (has_key c key) jobs ≤ 1

pub record IsValid (db : Db) : Type 0 where
  pub keyed : IsKeyed db.jobs db.next_job_id
  pub rows : AllRows db
