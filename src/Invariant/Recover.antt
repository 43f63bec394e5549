-- ===== src/Invariant/Recover.antt =====
-- `recover_stale_jobs` keeps the invariant. Its UPDATE fails every stale row at once, and its loop
-- then settles one row after the other: in between, the rows that wait are failed and have no dead
-- letter yet.
use mathlib.Core.Path.{subst}
use case_fullstack_senior.Prelude.{
  eq-cases, ℕ, Bool, false, ◌≡◌, ◌≢◌, refl, Option, none, some, List, [], ◌∷◌, arith, foldl, select,
  leb, if◌then◌else◌, inl, inr, Bool-cases,
}
use case_fullstack_senior.Db.Schema.{failed, Job, Db}
use case_fullstack_senior.Db.Query.{find}
use case_fullstack_senior.Worker.{
  recover_stale_jobs, fail_stale, stale_jobs, is_stale, fail_row, lease_error, settle_stale,
}
use case_fullstack_senior.Invariant.{
  IsSound, IsBacked, RowValid, AllRows, IsUnique, IsKeyed, IsValid,
}
use case_fullstack_senior.Invariant.Keys.{SameIdentity, find-map, IsKeyed-map, IsUnique-map}
use case_fullstack_senior.Invariant.Rows.{IsBacked-of_Local, RowValid-of_Local}
use case_fullstack_senior.Invariant.Settle.{
  settle_failure-Local, jobs-settle_failure, next_job_id-settle_failure, settle_failure-IsBacked,
}

-- The rows that a SELECT keeps, by their keys

find-select :
    (p : Job → Bool) (k : ℕ) (l : List Job)
    → IsUnique l
    → find k (select p l)
      ≡ (elim (find k l) [ none ↦ none | some j ↦ (if p j then some j else none) ])
unfolding find
find-select p k [] u = refl
find-select p k (x ∷ l) (new, u) = ground (arith, find-select p k l u)

IsUnique-select : (p : Job → Bool) (l : List Job) → IsUnique l → IsUnique (select p l)
IsUnique-select p [] u = tt
IsUnique-select p (x ∷ l) (new, u) = ground (arith, IsUnique-select p l u, find-select p x.id l u)

-- What holds of key k while the row w waits to be settled, or none does.
abbrev Waits : Db → ℕ → Option Job → Type 0
Waits db k none = RowValid db k (find k db.jobs)
Waits db k (some j) =
    (find k db.jobs ≡ some j) × IsSound j × (j.status ≡ failed) × IsBacked db k false false false

abbrev Pending : List Job → Db → Type 0
Pending l db = (k : ℕ) → Waits db k (find k l)

settle_stale-Waits :
    (j : Job) (k : ℕ) (db : Db) (o : Option Job)
    → find j.id db.jobs ≡ some j
    → k ≢ j.id
    → Waits db k o
    → Waits (settle_stale db j) k o
settle_stale-Waits j k db none there other w =
    simp (jobs-settle_failure j.id j.company_id j.trace_id j.attempts lease_error db j there) (
      RowValid-of_Local (find k db.jobs)
        (settle_failure-Local j.id j.company_id j.trace_id j.attempts lease_error db j there) other
        w)
settle_stale-Waits j k db (some i) there other w = (
  rw (jobs-settle_failure j.id j.company_id j.trace_id j.attempts lease_error db j there) w.0,
  w.1,
  w.2,
  IsBacked-of_Local
      (settle_failure-Local j.id j.company_id j.trace_id j.attempts lease_error db j there) other
      w.3,
)

find-head : (j : Job) (l : List Job) → find j.id (j ∷ l) ≡ some j
unfolding find
find-head j l = ground arith

find-tail : (j : Job) (k : ℕ) (l : List Job) → k ≢ j.id → find k (j ∷ l) ≡ find k l
unfolding find
find-tail j k l other = ground arith

module _ (j : Job) (l : List Job) (db : Db) (u : IsUnique (j ∷ l)) (h : Pending (j ∷ l) db) where
  head : Waits db j.id (some j)
  head = rw (find-head j l) at (h j.id)

  head_settled : Waits (settle_stale db j) j.id none
  head_settled =
      let b : IsBacked (settle_stale db j) j.id false false (leb 3 j.attempts) =
        settle_failure-IsBacked j.id j.company_id j.trace_id j.attempts lease_error db j head.0
          head.3 in
      let status_failed : j.status ≡ failed = head.2 in
      rw
        (
          jobs-settle_failure j.id j.company_id j.trace_id j.attempts lease_error db j head.0,
          head.0,
        )
        (head.1, ground arith)

  settle_stale-Pending : Pending l (settle_stale db j)
  settle_stale-Pending k = elim (eq-cases k j.id) [
    | inl same ↦ subst (λ n. Waits (settle_stale db j) n (find n l)) same (rw u.0 head_settled)
    | inr other ↦
        settle_stale-Waits j k db (find k l) head.0 other (rw (find-tail j k l other) at (h k))
  ]

settle-AllRows :
    (l : List Job) (db : Db) → IsUnique l → Pending l db → AllRows (foldl settle_stale db l)
unfolding find
settle-AllRows [] db u h = λ k. h k
settle-AllRows (j ∷ l) db u h =
    settle-AllRows l (settle_stale db j) u.1 (settle_stale-Pending j l db u h)

settle-IsKeyed :
    (l : List Job) (db : Db)
    → IsUnique l
    → Pending l db
    → IsKeyed db.jobs db.next_job_id
    → let db' = foldl settle_stale db l in IsKeyed db'.jobs db'.next_job_id
settle-IsKeyed [] db u h keyed = keyed
settle-IsKeyed (j ∷ l) db u h keyed =
    let there = (head j l db u h).0 in
    settle-IsKeyed l (settle_stale db j) u.1 (settle_stale-Pending j l db u h) (
      rw
        (
          jobs-settle_failure j.id j.company_id j.trace_id j.attempts lease_error db j there,
          next_job_id-settle_failure j.id j.company_id j.trace_id j.attempts lease_error db j there,
        )
        keyed)

-- The UPDATE

module _ (lease : ℕ) (db : Db) where
  abbrev pub fail_if_stale : Job → Job
  fail_if_stale j = if is_stale lease db.now j then fail_row db.now lease_error j else j

  fail_if_stale-SameIdentity : (j : Job) → SameIdentity j (fail_if_stale j)
  fail_if_stale-SameIdentity j = ground arith

  fail_row-SameIdentity : (j : Job) → SameIdentity j (fail_row db.now lease_error j)
  fail_row-SameIdentity j = record { id = refl; company_id = refl; idempotency_key = refl }

  stale_jobs-IsUnique : IsUnique db.jobs → IsUnique (stale_jobs lease db)
  unfolding stale_jobs
  stale_jobs-IsUnique u =
      IsUnique-map (fail_row db.now lease_error) fail_row-SameIdentity _
        (IsUnique-select (is_stale lease db.now) db.jobs u)

  find-stale_jobs :
      (k : ℕ)
      → IsUnique db.jobs
      → find k (stale_jobs lease db) ≡ (elim (find k db.jobs) [
        | none ↦ none
        | some j ↦ (if is_stale lease db.now j then some (fail_row db.now lease_error j) else none)
      ])
  unfolding stale_jobs
  find-stale_jobs k u = ground (
    arith,
    find-map (fail_row db.now lease_error) fail_row-SameIdentity k
        (select (is_stale lease db.now) db.jobs),
    find-select (is_stale lease db.now) k db.jobs u,
  )

  pub find-fail_stale :
      (k : ℕ)
      → find k (fail_stale lease db).jobs
        ≡ (elim (find k db.jobs) [ none ↦ none | some j ↦ some (fail_if_stale j) ])
  unfolding fail_stale
  find-fail_stale k = find-map fail_if_stale fail_if_stale-SameIdentity k db.jobs

  fail_stale-Waits :
      (k : ℕ) (o : Option Job)
      → find k db.jobs ≡ o
      → RowValid db k o
      → find k (fail_stale lease db).jobs
        ≡ (elim o [ none ↦ none | some j ↦ some (fail_if_stale j) ])
      → Waits (fail_stale lease db) k (elim o [
        | none ↦ none
        | some j ↦ (if is_stale lease db.now j then some (fail_row db.now lease_error j) else none)
      ])
  unfolding fail_stale
  fail_stale-Waits k none e at after = rw after (ground arith)
  fail_stale-Waits k (some j) e at after = elim (Bool-cases (is_stale lease db.now j)) [
    | inl stale ↦ rw stale (ground (arith, after), ground arith, refl, ground arith)
    | inr live ↦ rw live (
        let there : find k (fail_stale lease db).jobs ≡ some j = ground (arith, after) in
        rw there (at.0, ground arith))
  ]

  fail_stale-Pending : IsValid db → Pending (stale_jobs lease db) (fail_stale lease db)
  fail_stale-Pending h k =
      rw (find-stale_jobs k h.keyed.unique)
        (fail_stale-Waits k (find k db.jobs) refl (h.rows k) (find-fail_stale k))

  -- A recovery with any lease keeps the tables valid: each job that it fails at the last attempt
  -- gets its one dead letter, and no other job gets one.
  pub recover_stale_jobs-IsValid : IsValid db → IsValid (recover_stale_jobs lease db).1
  unfolding recover_stale_jobs
  recover_stale_jobs-IsValid h = record {
    keyed =
        settle-IsKeyed (stale_jobs lease db) (fail_stale lease db)
          (stale_jobs-IsUnique h.keyed.unique) (fail_stale-Pending h)
          (IsKeyed-map fail_if_stale fail_if_stale-SameIdentity db.jobs h.keyed);
    rows =
        settle-AllRows (stale_jobs lease db) (fail_stale lease db)
          (stale_jobs-IsUnique h.keyed.unique) (fail_stale-Pending h);
  }
