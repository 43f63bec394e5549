-- ===== src/System/Fits/Rows.antt =====
-- Each transaction but `create_job` brings back the rows that were there.
use case_fullstack_senior.Prelude.{
  ℕ, String, Bool, ◌≡◌, refl, ap, sym, ◌∙◌, Option, none, some, inl, inr, Bool-cases, arith,
}
use case_fullstack_senior.Db.Schema.{Status, EventType, Channel, Job, Db}
use case_fullstack_senior.Db.Query.{find, notify, insert_event_once}
use case_fullstack_senior.Service.{JobRef, cancel_job, cancel_row, retry_job, retry_row}
use case_fullstack_senior.Service.Monad.{Result}
use case_fullstack_senior.Service.Cases.{jobs-written, written, cancel_job-cases, retry_job-cases}
use case_fullstack_senior.Worker.{
  Claim, Claimed, claim_next, claim_row, finalize, finish_row, record_failure, fail_row,
  renew_lease, recover_stale_jobs, lease_error, is_stale,
}
use case_fullstack_senior.Worker.Cases.{
  claim_next-cases, finalize-cases, record_failure-cases, renew_lease-cases, rewritten, jobs-settle,
  jobs-recover_stale_jobs, next_job_id-settle, next_job_id-recover_stale_jobs,
}
use case_fullstack_senior.Invariant.{IsUnique}
use case_fullstack_senior.Invariant.Finish.{jobs-settle_result, next_job_id-settle_result}
use case_fullstack_senior.Invariant.Recover.{fail_if_stale, find-fail_stale}
use case_fullstack_senior.System.Fits.{Returns-replace, Quiet, Quiet-same}

next_job_id-written :
    (k : ℕ) (row : Job) (c : ℕ) (type : EventType) (by : String) (trace : Option String)
    (ch : Channel) (db : Db)
    → (written k row c type by trace ch db).next_job_id ≡ db.next_job_id
unfolding notify insert_event_once
next_job_id-written k row c type by trace ch db = ground arith

pub cancel_job-Quiet :
    (c k : ℕ) (by : String) (trace : Option String) (db : Db)
    → Quiet db (cancel_job c k by trace db).1
cancel_job-Quiet c k by trace db = elim (cancel_job-cases c k by trace db) [
  | inl (same, _) ↦ Quiet-same same
  | inr (j, found, active, made) ↦
      let row = cancel_row db.now j in
      let e = ap (λ (r : Result JobRef × Db). r.1) made in
      record {
        returns =
            Returns-replace k j row db.jobs found refl refl refl
              (ap (λ (d : Db). d.jobs) e ∙ jobs-written k row c _ by trace _ db);
        next_kept = ap (λ (d : Db). d.next_job_id) e ∙ next_job_id-written k row c _ by trace _ db;
      }
]

pub retry_job-Quiet :
    (c k : ℕ) (by : String) (trace : Option String) (db : Db)
    → Quiet db (retry_job c k by trace db).1
retry_job-Quiet c k by trace db = elim (retry_job-cases c k by trace db) [
  | inl (same, _) ↦ Quiet-same same
  | inr (j, found, ready, made) ↦
      let row = retry_row db.now trace j in
      let e = ap (λ (r : Result JobRef × Db). r.1) made in
      record {
        returns =
            Returns-replace k j row db.jobs found refl refl refl
              (ap (λ (d : Db). d.jobs) e ∙ jobs-written k row c _ by trace _ db);
        next_kept = ap (λ (d : Db). d.next_job_id) e ∙ next_job_id-written k row c _ by trace _ db;
      }
]

pub claim_next-Quiet :
    (w : String) (locked : ℕ → Bool) (db : Db)
    → IsUnique db.jobs
    → Quiet db (claim_next w locked db).1
claim_next-Quiet w locked db u = elim (claim_next-cases w locked db u) [
  | inl (idle, _) ↦ Quiet-same (ap (λ (r : Claimed × Db). r.1) idle)
  | inr (j, found, _, ready, made) ↦
      let row = claim_row db.now w j in
      let e = ap (λ (r : Claimed × Db). r.1) made in
      record {
        returns =
            Returns-replace j.id j row db.jobs found refl refl refl (ap (λ (d : Db). d.jobs) e);
        next_kept = ap (λ (d : Db). d.next_job_id) e;
      }
]

pub finalize-Quiet : (c : Claim) (db : Db) → Quiet db (finalize c db).1
finalize-Quiet c db = elim (finalize-cases c db) [
  | inl lost ↦ Quiet-same (ap (λ (r : Status × Db). r.1) lost)
  | inr (j, found, held, made) ↦
      let row = finish_row db.now j in
      let e = ap (λ (r : Status × Db). r.1) made in
      record {
        returns =
            Returns-replace c.id j row db.jobs found refl refl refl
              (ap (λ (d : Db). d.jobs) e ∙ jobs-settle_result c (rewritten c.id row db));
        next_kept =
            ap (λ (d : Db). d.next_job_id) e ∙ next_job_id-settle_result c (rewritten c.id row db);
      }
]

pub record_failure-Quiet :
    (c : Claim) (error : String) (db : Db) → Quiet db (record_failure c error db).1
record_failure-Quiet c error db = elim (record_failure-cases c db error) [
  | inl lost ↦ Quiet-same (ap (λ (r : Status × Db). r.1) lost)
  | inr (j, found, held, made) ↦
      let row = fail_row db.now error j in
      let e = ap (λ (r : Status × Db). r.1) made in
      record {
        returns = Returns-replace c.id j row db.jobs found refl refl refl (
            ap (λ (d : Db). d.jobs) e
            ∙ jobs-settle c.id c.company_id c.trace_id c.attempts error (rewritten c.id row db));
        next_kept =
            ap (λ (d : Db). d.next_job_id) e
            ∙ next_job_id-settle c.id c.company_id c.trace_id c.attempts error
                (rewritten c.id row db);
      }
]

pub renew_lease-Quiet : (c : Claim) (db : Db) → Quiet db (renew_lease c db).1
renew_lease-Quiet c db = elim (renew_lease-cases c db) [
  | inl lost ↦ Quiet-same (ap (λ (r : Bool × Db). r.1) lost)
  | inr (j, found, held, made) ↦
      let e = ap (λ (r : Bool × Db). r.1) made in
      record {
        returns =
            Returns-replace c.id j (record j { locked_at = some db.now }) db.jobs found refl refl
              refl (ap (λ (d : Db). d.jobs) e);
        next_kept = ap (λ (d : Db). d.next_job_id) e;
      }
]

Returns-recover_stale_jobs :
    (lease : ℕ) (db : Db) (k : ℕ) (i : Job) (o : Option Job)
    → find k db.jobs ≡ o
    → (elim o [ none ↦ none | some j ↦ some (fail_if_stale lease db j) ]) ≡ some i
    → (j : Job) × (find k db.jobs ≡ some j) × (i.company_id ≡ j.company_id) × (i.kind ≡ j.kind)
Returns-recover_stale_jobs lease db k i none e made = absurd (ground arith)
Returns-recover_stale_jobs lease db k i (some j) e made =
    elim (Bool-cases (is_stale lease db.now j)) [
      | inl stale ↦
          let row : fail_row db.now lease_error j ≡ i = ground arith in
          (j, e, ap (λ (x : Job). x.company_id) (sym row), ap (λ (x : Job). x.kind) (sym row))
      | inr live ↦
          let row : j ≡ i = ground arith in
          (j, e, ap (λ (x : Job). x.company_id) (sym row), ap (λ (x : Job). x.kind) (sym row))
    ]

pub recover_stale_jobs-Quiet : (lease : ℕ) (db : Db) → Quiet db (recover_stale_jobs lease db).1
recover_stale_jobs-Quiet lease db = record {
  returns = λ k i found. Returns-recover_stale_jobs lease db k i (find k db.jobs) refl (
      sym (find-fail_stale lease db k)
      ∙ ap (find k) (sym (jobs-recover_stale_jobs lease db))
      ∙ found);
  next_kept = next_job_id-recover_stale_jobs lease db;
}
