-- ===== src/Worker/Leases.antt =====
-- No transaction but a claim gives a worker a lease: what a worker holds afterwards it held before,
-- with the same number of attempts and the same company.
use mathlib.Core.Path.{subst}
use case_fullstack_senior.Prelude.{
  ◌∙◌, eq-cases, false, ap, sym, Option-cases, ℕ, String, true, ◌≡◌, refl, none, some, [], ◌∷◌,
  ◌++◌, arith, inl, inr,
}
use case_fullstack_senior.Db.Schema.{Job, Db}
use case_fullstack_senior.Db.Query.{find, replace}
use case_fullstack_senior.Db.Laws.{find-replace, find-append}
use case_fullstack_senior.Worker.{Claim, claim_row, claim_of, holds_lease}

pub record HeldBefore (db : Db) (k : ℕ) (w : String) (after : Job) : Type 0 where
  pub row : Job
  pub found : find k db.jobs ≡ some row
  pub held : holds_lease w row ≡ true
  pub attempts : row.attempts ≡ after.attempts
  pub company_id : row.company_id ≡ after.company_id

pub record NoNewLease (db db' : Db) : Type 0 where
  pub at :
      (k : ℕ) (w : String) (j : Job)
      → find k db'.jobs ≡ some j
      → holds_lease w j ≡ true
      → HeldBefore db k w j

pub NoNewLease-refl : (db : Db) → NoNewLease db db
NoNewLease-refl db = record {
  at = λ k w j e h. record { row = j; found = e; held = h; attempts = refl; company_id = refl };
}

-- A statement about the job table alone.
pub NoNewLease-jobs : (db db' : Db) → db'.jobs ≡ db.jobs → NoNewLease db db'
NoNewLease-jobs db db' same = record {
  at = λ k w j e h. record {
    row = j;
    found = rw (← same) e;
    held = h;
    attempts = refl;
    company_id = refl;
  };
}

-- A row is rewritten so that it has no lease, or the lease that it had.
pub NoNewLease-replace :
    (k : ℕ) (i j : Job) (db db' : Db)
    → find k db.jobs ≡ some i
    → j.id ≡ k
    → db'.jobs ≡ replace k j db.jobs
    → ((w : String) → holds_lease w j ≡ true → HeldBefore db k w j)
    → NoNewLease db db'
NoNewLease-replace k i j db db' found e same keep = record {
  at = λ n w r f h. elim (eq-cases n k) [
    | inl at ↦
        let there : j ≡ r = ground (arith, find-replace n k j db.jobs e, ap (find n) same) in
        subst (λ m. HeldBefore db m w r) at
          (subst (HeldBefore db k w) there
            (keep w (subst (λ x. holds_lease w x ≡ true) (sym there) h)))
    | inr other ↦ record {
      row = r;
      found = ground (arith, find-replace n k j db.jobs e, ap (find n) same);
      held = h;
      attempts = refl;
      company_id = refl;
    }
  ];
}

pub NoNewLease-append :
    (j : Job) (db db' : Db)
    → db'.jobs ≡ db.jobs ++ j ∷ []
    → ((w : String) → holds_lease w j ≡ false)
    → NoNewLease db db'
NoNewLease-append j db db' same free = record {
  at = λ n w r f h. record {
    row = r;
    found = ground (arith, find-append n db.jobs j, ap (find n) same, free w);
    held = h;
    attempts = refl;
    company_id = refl;
  };
}

-- Every row is mapped.
pub NoNewLease-map :
    (g : Job → Job) (db db' : Db)
    → ((k : ℕ) → find k db'.jobs ≡ (elim (find k db.jobs) [ none ↦ none | some j ↦ some (g j) ]))
    → ((k : ℕ) (w : String) (j : Job)
        → find k db.jobs ≡ some j
        → holds_lease w (g j) ≡ true
        → HeldBefore db k w (g j))
    → NoNewLease db db'
NoNewLease-map g db db' mapped keep = record {
  at = λ k w r f h. elim (Option-cases (find k db.jobs)) [
    | inl gone ↦ absurd (ground (arith, mapped k))
    | inr (j, found) ↦
        let there : g j ≡ r = ground (arith, mapped k) in
        subst (HeldBefore db k w) there
          (keep k w j found (subst (λ x. holds_lease w x ≡ true) (sym there) h))
  ];
}

-- The claim of a worker agrees with the row, while the worker holds the row's lease.
pub record IsHeld (c : Claim) (db : Db) : Type 0 where
  pub attempts :
      (j : Job)
      → find c.id db.jobs ≡ some j
      → holds_lease c.worker_id j ≡ true
      → c.attempts ≡ j.attempts
  pub company_id :
      (j : Job)
      → find c.id db.jobs ≡ some j
      → holds_lease c.worker_id j ≡ true
      → c.company_id ≡ j.company_id

pub IsHeld-of_NoNewLease :
    (c : Claim) {db db' : Db} → NoNewLease db db' → IsHeld c db → IsHeld c db'
IsHeld-of_NoNewLease c n h = record {
  attempts =
      λ j e l. let b = n.at c.id c.worker_id j e l in h.attempts b.row b.found b.held ∙ b.attempts;
  company_id = λ j e l.
      let b = n.at c.id c.worker_id j e l in h.company_id b.row b.found b.held ∙ b.company_id;
}

-- A new claim agrees with its row.
pub claim_row-IsHeld :
    (w : String) (j : Job) (db : Db)
    → let row = claim_row db.now w j in
      IsHeld (claim_of w row) (record db { jobs = replace j.id row db.jobs })
claim_row-IsHeld w j db = record {
  attempts = λ i e l. ground (arith, find-replace j.id j.id (claim_row db.now w j) db.jobs refl);
  company_id = λ i e l. ground (arith, find-replace j.id j.id (claim_row db.now w j) db.jobs refl);
}
