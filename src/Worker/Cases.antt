-- ===== src/Worker/Cases.antt =====
-- Each transaction of the worker rewrites at most the row that its claim names, or leaves the
-- tables as they were.
use case_fullstack_senior.Prelude.{
  refl, ◌∙◌, foldl, List, [], ◌∷◌, Option, ℕ, String, Bool, true, false, ◌≡◌, ◌⊎◌, inl, inr, none,
  some, arith, not, ◌&&◌, Option-cases, Bool-cases,
}
use case_fullstack_senior.Db.Schema.{done, failed, cancelled, Job, Db}
use case_fullstack_senior.Db.Query.{find, replace, update_job}
use case_fullstack_senior.Invariant.{IsUnique}
use case_fullstack_senior.Worker.{
  Claim, Claimed, claimed, is_ready, next_ready, claim_next, claim_row, claim_of, holds_lease,
  finish_row, fail_row, finalize, settle_result, record_failure, settle_failure, settle_stale,
  recover_stale_jobs, fail_stale, stale_jobs, renew_lease,
}
use case_fullstack_senior.Worker.Order.{first_by_id-select}

abbrev pub rewritten : ℕ → Job → Db → Db
rewritten k j db = record db { jobs = replace k j db.jobs }

pub update_job-cases :
    (k : ℕ) (test : Job → Bool) (f : Job → Job) (db : Db)
    → (update_job k test f db ≡ (none, db))
      ⊎ ((j : Job) × (find k db.jobs ≡ some j)
          × (test j ≡ true)
          × (update_job k test f db ≡ (some (f j), rewritten k (f j) db)))
unfolding update_job
update_job-cases k test f db = elim (Option-cases (find k db.jobs)) [
  | inl gone ↦ inl (ground arith)
  | inr (j, found) ↦ elim (Bool-cases (test j)) [
    | inl pass ↦ inr (j, found, pass, ground arith)
    | inr miss ↦ inl (ground arith)
  ]
]

pub claim_next-cases :
    (worker : String) (locked : ℕ → Bool) (db : Db)
    → IsUnique db.jobs
    → (claim_next worker locked db ≡ (Claimed.idle, db)) × (next_ready locked db ≡ none)
      ⊎ ((j : Job) × (find j.id db.jobs ≡ some j)
          × (next_ready locked db ≡ some j)
          × ((is_ready db.now j && not (locked j.id)) ≡ true)
          × (claim_next worker locked db ≡ (
            claimed (claim_of worker (claim_row db.now worker j)),
            rewritten j.id (claim_row db.now worker j) db,
          )))
unfolding claim_next
claim_next-cases worker locked db u = elim (Option-cases (next_ready locked db)) [
  | inl nothing ↦ inl (ground arith, nothing)
  | inr (j, first) ↦
      let (ready, found) =
        first_by_id-select (λ j. is_ready db.now j && not (locked j.id)) db.jobs u first in
      inr (j, found, first, ready, ground arith)
]

module _ (c : Claim) (db : Db) where
  pub finalize-cases :
      (finalize c db ≡ (cancelled, db))
      ⊎ ((j : Job) × (find c.id db.jobs ≡ some j)
          × (holds_lease c.worker_id j ≡ true)
          × (finalize c db ≡ (done, settle_result c (rewritten c.id (finish_row db.now j) db))))
  unfolding finalize
  finalize-cases = elim (update_job-cases c.id (holds_lease c.worker_id) (finish_row db.now) db) [
    | inl miss ↦ inl (ground arith)
    | inr (j, found, held, hit) ↦ inr (j, found, held, ground arith)
  ]

  -- The tables after a failure has been recorded on the row j.
  abbrev pub failed_db : String → Job → Db
  failed_db error j =
      settle_failure c.id c.company_id c.trace_id c.attempts error
        (rewritten c.id (fail_row db.now error j) db)

  pub record_failure-cases :
      (error : String)
      → (record_failure c error db ≡ (cancelled, db))
        ⊎ ((j : Job) × (find c.id db.jobs ≡ some j)
            × (holds_lease c.worker_id j ≡ true)
            × (record_failure c error db ≡ (failed, failed_db error j)))
  unfolding record_failure
  record_failure-cases error =
      elim (update_job-cases c.id (holds_lease c.worker_id) (fail_row db.now error) db) [
        | inl miss ↦ inl (ground arith)
        | inr (j, found, held, hit) ↦ inr (j, found, held, ground arith)
      ]

  pub renew_lease-cases :
      (renew_lease c db ≡ (false, db))
      ⊎ ((j : Job) × (find c.id db.jobs ≡ some j)
          × (holds_lease c.worker_id j ≡ true)
          × (renew_lease c db ≡ (true, rewritten c.id (record j { locked_at = some db.now }) db)))
  unfolding renew_lease
  renew_lease-cases =
      elim (update_job-cases c.id (holds_lease c.worker_id)
        (λ j. record j { locked_at = some db.now }) db) [
          | inl miss ↦ inl (ground arith)
          | inr (j, found, held, hit) ↦ inr (j, found, held, ground arith)
        ]

-- The loop of `recover_stale_jobs` leaves the job table as its UPDATE left it.

pub jobs-settle :
    (k c : ℕ) (trace : Option String) (attempts : ℕ) (error : String) (db : Db)
    → (settle_failure k c trace attempts error db).jobs ≡ db.jobs
unfolding settle_failure
jobs-settle k c trace attempts error db = ground arith

jobs-settle_all : (l : List Job) (db : Db) → (foldl settle_stale db l).jobs ≡ db.jobs
jobs-settle_all [] db = refl
jobs-settle_all (j ∷ l) db =
    jobs-settle_all l (settle_stale db j) ∙ jobs-settle j.id j.company_id j.trace_id j.attempts _ db

pub jobs-recover_stale_jobs :
    (lease : ℕ) (db : Db) → (recover_stale_jobs lease db).1.jobs ≡ (fail_stale lease db).jobs
unfolding recover_stale_jobs
jobs-recover_stale_jobs lease db = jobs-settle_all (stale_jobs lease db) (fail_stale lease db)

pub next_job_id-settle :
    (k c : ℕ) (trace : Option String) (attempts : ℕ) (error : String) (db : Db)
    → (settle_failure k c trace attempts error db).next_job_id ≡ db.next_job_id
unfolding settle_failure
next_job_id-settle k c trace attempts error db = ground arith

next_job_id-settle_all :
    (l : List Job) (db : Db) → (foldl settle_stale db l).next_job_id ≡ db.next_job_id
next_job_id-settle_all [] db = refl
next_job_id-settle_all (j ∷ l) db =
    next_job_id-settle_all l (settle_stale db j)
    ∙ next_job_id-settle j.id j.company_id j.trace_id j.attempts _ db

pub next_job_id-recover_stale_jobs :
    (lease : ℕ) (db : Db) → (recover_stale_jobs lease db).1.next_job_id ≡ db.next_job_id
unfolding recover_stale_jobs fail_stale
next_job_id-recover_stale_jobs lease db =
    next_job_id-settle_all (stale_jobs lease db) (fail_stale lease db)
