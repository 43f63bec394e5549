-- ===== src/System/Reachable.antt =====
-- Every step keeps the system consistent.
use mathlib.Core.Path.{subst}
use case_fullstack_senior.Prelude.{
  ℕ, ◌+◌, String, true, false, ◌≡◌, refl, ◌∙◌, sym, ap, Option, none, some, str_eq, eq_iff, arith,
  inl, inr, Bool-cases, eq-cases,
}
use case_fullstack_senior.Db.Schema.{Job, Db}
use case_fullstack_senior.Db.Query.{find}
use case_fullstack_senior.Db.Laws.{find-replace}
use case_fullstack_senior.Worker.{Claim, Claimed, claim_next, claim_of, claim_row, holds_lease}
use case_fullstack_senior.Worker.Cases.{claim_next-cases, rewritten}
use case_fullstack_senior.Worker.Leases.{
  NoNewLease, NoNewLease-jobs, IsHeld, IsHeld-of_NoNewLease, claim_row-IsHeld,
}
use case_fullstack_senior.Invariant.{IsValid, RowValid}
use case_fullstack_senior.Invariant.Create.{create_job-IsValid}
use case_fullstack_senior.Invariant.Service.{cancel_job-IsValid, retry_job-IsValid}
use case_fullstack_senior.Invariant.Claim.{
  claim_next-IsValid, renew_lease-IsValid, acknowledge_cancellation-idle,
}
use case_fullstack_senior.Invariant.Finish.{finalize-IsValid, record_failure-IsValid}
use case_fullstack_senior.Invariant.Recover.{recover_stale_jobs-IsValid}
use case_fullstack_senior.System.{
  System, keep, Step, create, cancel, retry, claim, renew, finish, fail, acknowledge, crash,
  recover, wait, Reach, here, next, IsConsistent,
}
use case_fullstack_senior.System.Kept.{
  cancel_job-NoNewLease, retry_job-NoNewLease, create_job-NoNewLease, finalize-NoNewLease,
  record_failure-NoNewLease, renew_lease-NoNewLease, recover_stale_jobs-NoNewLease,
}

-- The tables change and no lease is given.
quiet :
    (s : System) {db : Db}
    → NoNewLease s.db db
    → IsValid db
    → IsConsistent s
    → IsConsistent (record s { db = db })
quiet s n v h = record {
  valid = v;
  own = h.own;
  held = λ w c e. IsHeld-of_NoNewLease c n (h.held w c e);
}

-- A worker drops its claim.
dropped :
    (s : System) (w : String)
    → IsConsistent s
    → IsConsistent (record s { claims = keep w none s.claims })
dropped s w h = record {
  valid = h.valid;
  own = λ v c e. elim (Bool-cases (str_eq w v)) [
    | inl same ↦ absurd (ground arith)
    | inr other ↦ h.own v c (ground arith)
  ];
  held = λ v c e. elim (Bool-cases (str_eq w v)) [
    | inl same ↦ absurd (ground arith)
    | inr other ↦ h.held v c (ground arith)
  ];
}

RowValid-wait :
    (n : ℕ) (db : Db) (k : ℕ) (o : Option Job)
    → RowValid db k o
    → RowValid (record db { now = db.now + n }) k o
RowValid-wait n db k none b = ground arith
RowValid-wait n db k (some j) (s, b) = (s, ground arith)

pub wait-IsValid : (n : ℕ) (db : Db) → IsValid db → IsValid (record db { now = db.now + n })
wait-IsValid n db h = record {
  keyed = h.keyed;
  rows = λ k. RowValid-wait n db k (find k db.jobs) (h.rows k);
}

module _ (s : System) (w : String) (j : Job) (found : find j.id s.db.jobs ≡ some j)
    (h : IsConsistent s) where
  abbrev row : Job
  row = claim_row s.db.now w j

  -- The row that another worker holds is another row.
  others_row :
      (v : String) (c : Claim) (i : Job)
      → s.claims v ≡ some c
      → str_eq w v ≡ false
      → find c.id (rewritten j.id row s.db).jobs ≡ some i
      → holds_lease c.worker_id i ≡ true
      → find c.id s.db.jobs ≡ some i
  others_row v c i e other f l = elim (eq-cases c.id j.id) [
    | inl same ↦
        let there : i ≡ row = ground (arith, find-replace c.id j.id row s.db.jobs refl) in
        let mine : str_eq w c.worker_id ≡ true =
          ground (arith, subst (λ x. holds_lease c.worker_id x ≡ true) there l) in
        let w_is : w ≡ v = (eq_iff w c.worker_id).0 mine ∙ h.own v c e in
        absurd (ground (arith, (eq_iff w v).1 w_is))
    | inr apart ↦ ground (arith, find-replace c.id j.id row s.db.jobs refl)
  ]

  others-IsHeld :
      (v : String) (c : Claim)
      → s.claims v ≡ some c
      → str_eq w v ≡ false
      → IsHeld c (rewritten j.id row s.db)
  others-IsHeld v c e other = record {
    attempts = λ i f l. (h.held v c e).attempts i (others_row v c i e other f l) l;
    company_id = λ i f l. (h.held v c e).company_id i (others_row v c i e other f l) l;
  }

  claimed-IsConsistent :
      IsValid (rewritten j.id row s.db)
      → IsConsistent (record {
        db = rewritten j.id row s.db;
        claims = keep w (some (claim_of w row)) s.claims;
      })
  claimed-IsConsistent valid = record {
    valid = valid;
    own = λ v c e. elim (Bool-cases (str_eq w v)) [
      | inl same ↦
          (let mine : claim_of w row ≡ c = ground arith in
            ap (λ (x : Claim). x.worker_id) (sym mine) ∙ (eq_iff w v).0 same)
      | inr other ↦ h.own v c (ground arith)
    ];
    held = λ v c e. elim (Bool-cases (str_eq w v)) [
      | inl same ↦
          (let mine : claim_of w row ≡ c = ground arith in
            subst (λ x. IsHeld x (rewritten j.id row s.db)) mine (claim_row-IsHeld w j s.db))
      | inr other ↦ others-IsHeld v c (ground arith) other
    ];
  }

-- Every step keeps the system consistent.
pub Step-IsConsistent : {s t : System} → Step s t → IsConsistent s → IsConsistent t
Step-IsConsistent {s} (create c kind trace key by) h =
    quiet s (create_job-NoNewLease c kind trace key by s.db)
      (create_job-IsValid (λ db. db) c kind trace key by s.db h.valid h.valid) h
Step-IsConsistent {s} (cancel c k by trace) h =
    quiet s (cancel_job-NoNewLease c k by trace s.db) (cancel_job-IsValid c k by trace s.db h.valid)
      h
Step-IsConsistent {s} (retry c k by trace) h =
    quiet s (retry_job-NoNewLease c k by trace s.db) (retry_job-IsValid c k by trace s.db h.valid) h
Step-IsConsistent {s} (claim w locked c free took) h =
    elim (claim_next-cases w locked s.db h.valid.keyed.unique) [
      | inl (idle, _) ↦ absurd (ground arith)
      | inr (j, found, _, _, e) ↦
          let mine : claim_of w (claim_row s.db.now w j) ≡ c = ground arith in
          let valid : IsValid (rewritten j.id (claim_row s.db.now w j) s.db) =
            subst IsValid (ap (λ (r : Claimed × Db). r.1) e)
              (claim_next-IsValid w locked s.db h.valid) in
          subst
            (λ x.
              IsConsistent
                (record { db = (claim_next w locked s.db).1; claims = keep w (some x) s.claims }))
            mine
            (subst
              (λ x. IsConsistent (record {
                db = x;
                claims = keep w (some (claim_of w (claim_row s.db.now w j))) s.claims;
              }))
              (ap (λ (r : Claimed × Db). r.1) (sym e)) (claimed-IsConsistent s w j found h valid))
    ]
Step-IsConsistent {s} (renew w c e) h =
    quiet s (renew_lease-NoNewLease c s.db) (renew_lease-IsValid c s.db h.valid) h
Step-IsConsistent {s} (finish w c e) h =
    dropped _ w (quiet s (finalize-NoNewLease c s.db) (finalize-IsValid c s.db h.valid) h)
Step-IsConsistent {s} (fail w c error e) h = dropped _ w (
    quiet s (record_failure-NoNewLease c error s.db)
      (record_failure-IsValid c error s.db (h.held w c e) h.valid) h)
Step-IsConsistent {s} (acknowledge w c e) h = rw (acknowledge_cancellation-idle c s.db h.valid) h
Step-IsConsistent {s} (crash w) h = dropped s w h
Step-IsConsistent {s} (recover lease) h =
    quiet s (recover_stale_jobs-NoNewLease lease s.db)
      (recover_stale_jobs-IsValid lease s.db h.valid) h
Step-IsConsistent {s} (wait n) h =
    quiet s (NoNewLease-jobs s.db _ refl) (wait-IsValid n s.db h.valid) h

-- If a system is consistent, so is every system that it reaches by requests, claims, renewals,
-- results, failures, acknowledgements, crashes, recoveries and waiting, in any order: the tables
-- are valid, and each worker's claim bears its name and agrees with the row of its job while it
-- holds that row's lease.
pub Reach-IsConsistent : {s t : System} → IsConsistent s → Reach s t → IsConsistent t
Reach-IsConsistent h here = h
Reach-IsConsistent h (next r step) = Step-IsConsistent step (Reach-IsConsistent h r)
