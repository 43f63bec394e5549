-- ===== src/Worker/Loop.antt =====
-- `drain` of worker/main.py: jobs are processed until none is ready. It ends.
use mathlib.Core.Path.{subst}
use case_fullstack_senior.Prelude.{
  ℕ, zero, suc, ◌+◌, ◌≤◌, ◌<◌, String, Bool, true, false, ◌≡◌, refl, ◌∙◌, ap, sym, Option, none,
  some, List, [], ◌∷◌, map, arith, if◌then◌else◌, count, inl, inr, Bool-cases,
}
use case_fullstack_senior.Db.Schema.{Status, Job, Db, is_queued}
use case_fullstack_senior.Db.Query.{find, replace}
use case_fullstack_senior.Db.Laws.{count-replace}
use case_fullstack_senior.Invariant.{IsValid}
use case_fullstack_senior.Invariant.Claim.{acknowledge_cancellation-idle, claim_next-IsValid}
use case_fullstack_senior.Invariant.Finish.{jobs-settle_result}
use case_fullstack_senior.Invariant.Recover.{recover_stale_jobs-IsValid}
use case_fullstack_senior.Worker.{
  Claim, Claimed, finalize, finish_row, record_failure, fail_row, fail_stale, lease_error, is_stale,
  acknowledge_cancellation, recover_stale_jobs, lease_timeout, claim_of, claim_row,
}
use case_fullstack_senior.Worker.Cases.{
  finalize-cases, record_failure-cases, rewritten, claim_next-cases, jobs-settle,
  jobs-recover_stale_jobs,
}
use case_fullstack_senior.Worker.Process.{
  Environment, Exc, job_cancelled, fatal_monitor, other, cause, conclude, process, supervised,
  Processed, nothing, lost_row, processed, process_claimed, process_next,
}
use case_fullstack_senior.Worker.Process.Keeps.{IsFair, process_next-IsValid}

-- How the loop ends: by the shutdown, without a ready job, or with an exception; `unfinished` is the
-- end of the fuel.
pub data DrainEnd : Type 0 where
  stopped emptied crashed unfinished : DrainEnd

-- What a turn of the loop ends with: False, an exception, or the next turns.
abbrev pub turn_end : Processed → Db → DrainEnd × Db → DrainEnd × Db
turn_end nothing left rest = (emptied, left)
turn_end (lost_row k) left rest = (crashed, left)
turn_end (processed report) left rest = if report.raises then (crashed, left) else rest

-- `drain`; in its i-th turn `shutdown i` tells whether the event is set, `locked i` which rows are
-- locked, and `envs i` what the threads do.
unfoldable pub drain :
    ℕ → String → (ℕ → Bool) → (ℕ → ℕ → Bool) → (ℕ → Environment) → ℕ → Db → DrainEnd × Db
unfolding process_next
drain zero worker shutdown locked envs i db = (unfinished, db)
drain (suc fuel) worker shutdown locked envs i db =
    let (r, left) = process_next worker (locked i) (envs i) db in
    let rest = drain fuel worker shutdown locked envs (suc i) left in
    if shutdown i then (stopped, db) else turn_end r left rest

abbrev pub queued_count : Db → ℕ
queued_count db = count (λ j. is_queued j.status) db.jobs

-- What other transactions commit does not add to the queue.
abbrev pub IsQuiet : Environment → Type 0
IsQuiet env = (db : Db) → queued_count (env.during db) ≤ queued_count db

queued-fail_stale :
    (lease now : ℕ) (l : List Job)
    → count
        (λ j. is_queued j.status)
        (map (λ j. if is_stale lease now j then fail_row now lease_error j else j) l)
      ≡ count (λ j. is_queued j.status) l
queued-fail_stale lease now [] = refl
queued-fail_stale lease now (j ∷ l) = ground (arith, queued-fail_stale lease now l)

queued-recover_stale_jobs :
    (lease : ℕ) (db : Db) → queued_count (recover_stale_jobs lease db).1 ≡ queued_count db
unfolding fail_stale
queued-recover_stale_jobs lease db =
    ap (count (λ j. is_queued j.status)) (jobs-recover_stale_jobs lease db)
    ∙ queued-fail_stale lease db.now db.jobs

queued-replace :
    (k : ℕ) (j old : Job) (db db' : Db)
    → find k db.jobs ≡ some old
    → db'.jobs ≡ replace k j db.jobs
    → is_queued j.status ≡ false
    → queued_count db' + (if is_queued old.status then 1 else 0) ≡ queued_count db
queued-replace k j old db db' found made ended =
    let e = count-replace (λ j. is_queued j.status) k j db.jobs {old = old} found in
    rw made (ground arith)

queued-finalize : (c : Claim) (db : Db) → queued_count (finalize c db).1 ≤ queued_count db
queued-finalize c db = elim (finalize-cases c db) [
  | inl lost ↦ rw lost (omega arith)
  | inr (j, found, _, made) ↦
      let e =
        queued-replace c.id (finish_row db.now j) j db (finalize c db).1 found
          (ap (λ (r : Status × Db). r.1.jobs) made
            ∙ jobs-settle_result c (rewritten c.id (finish_row db.now j) db))
          refl in
      omega arith
]

queued-record_failure :
    (c : Claim) (error : String) (db : Db)
    → queued_count (record_failure c error db).1 ≤ queued_count db
queued-record_failure c error db = elim (record_failure-cases c db error) [
  | inl lost ↦ rw lost (omega arith)
  | inr (j, found, _, made) ↦
      let e =
        queued-replace c.id (fail_row db.now error j) j db (record_failure c error db).1 found
          (ap (λ (r : Status × Db). r.1.jobs) made
            ∙ jobs-settle c.id c.company_id c.trace_id c.attempts error
                (rewritten c.id (fail_row db.now error j) db))
          refl in
      omega arith
]

queued-conclude :
    (env : Environment) (c : Claim) (e : Option Exc) (db : Db)
    → IsValid db
    → queued_count (conclude env c e db).1 ≤ queued_count db
unfolding conclude
queued-conclude env c none db h = queued-finalize c db
queued-conclude env c (some job_cancelled) db h =
    rw (acknowledge_cancellation-idle c db h) (elim (Bool-cases (acknowledge_cancellation c db).0) [
      | inl told ↦ rw told (omega arith)
      | inr untold ↦ rw untold (queued-record_failure c (cause env) db)
    ])
queued-conclude env c (some (fatal_monitor t)) db h = queued-record_failure c t db
queued-conclude env c (some (other t)) db h = queued-record_failure c t db

abbrev is_processed : Processed → Bool
is_processed (processed r) = true
is_processed _ = false

-- A job that is processed is one that is not queued any more.
queued-process_next :
    (worker : String) (locked : ℕ → Bool) (env : Environment) (db : Db)
    → IsFair env
    → IsQuiet env
    → IsValid db
    → is_processed (process_next worker locked env db).0 ≡ true
    → queued_count (process_next worker locked env db).1 < queued_count db
unfolding process_next process_claimed process
queued-process_next worker locked env db fair quiet h did =
    let recovered = (recover_stale_jobs lease_timeout db).1 in
    let same : queued_count recovered ≡ queued_count db =
      queued-recover_stale_jobs lease_timeout db in
    let valid : IsValid recovered = recover_stale_jobs-IsValid lease_timeout db h in
    let shrinks : Claimed × Db → Type 0 = λ r.
      is_processed (process_claimed env r).0 ≡ true
      → queued_count (process_claimed env r).1 < queued_count db in
    elim (claim_next-cases worker locked recovered valid.keyed.unique) [
      | inl (nothing_there, _) ↦ subst shrinks (sym nothing_there) (λ e. absurd (ground arith)) did
      | inr (j, found, _, ready, made) ↦
          let row = claim_row recovered.now worker j in
          let taken : Db = rewritten j.id row recovered in
          let taken-IsValid : IsValid taken =
            subst IsValid (ap (λ (r : Claimed × Db). r.1) made)
              (claim_next-IsValid worker locked recovered valid) in
          let one : queued_count taken + (if is_queued j.status then 1 else 0)
              ≡ queued_count recovered =
            queued-replace j.id row j recovered taken found refl refl in
          let was : is_queued j.status ≡ true = ground arith in
          let less : queued_count taken < queued_count db = ground arith in
          let between = quiet taken in
          let end =
            queued-conclude env (claim_of worker row)
              (supervised env (claim_of worker row) (env.during taken)) (env.during taken)
              (fair.valid taken taken-IsValid) in
          subst shrinks (sym made) (λ e. omega arith) did
    ]

abbrev pub is_unfinished : DrainEnd → Bool
is_unfinished unfinished = true
is_unfinished _ = false

-- If the tables are valid and what other transactions commit during each job keeps them valid,
-- gives no worker a lease and does not add to the queued jobs, then the loop of `drain` with more
-- fuel than there are queued jobs ends before its fuel: by the shutdown, without a ready job, or
-- with an exception.
pub drain-ends :
    (fuel : ℕ) (worker : String) (shutdown : ℕ → Bool) (locked : ℕ → ℕ → Bool)
    (envs : ℕ → Environment) (i : ℕ) (db : Db)
    → ((n : ℕ) → IsFair (envs n))
    → ((n : ℕ) → IsQuiet (envs n))
    → IsValid db
    → queued_count db < fuel
    → is_unfinished (drain fuel worker shutdown locked envs i db).0 ≡ false
unfolding drain
drain-ends zero worker shutdown locked envs i db fair quiet h enough = absurd (omega arith)
drain-ends (suc fuel) worker shutdown locked envs i db fair quiet h enough =
    let r = process_next worker (locked i) (envs i) db in
    let less = queued-process_next worker (locked i) (envs i) db (fair i) (quiet i) h in
    let valid : IsValid r.1 = process_next-IsValid worker (locked i) (envs i) db (fair i) h in
    let ih = drain-ends fuel worker shutdown locked envs (suc i) r.1 fair quiet valid in
    turn r.0 refl less ih
  where
    turn :
        (p : Processed)
        → (process_next worker (locked i) (envs i) db).0 ≡ p
        → (is_processed (process_next worker (locked i) (envs i) db).0 ≡ true
            → queued_count (process_next worker (locked i) (envs i) db).1 < queued_count db)
        → (queued_count (process_next worker (locked i) (envs i) db).1 < fuel
            → is_unfinished
                (drain fuel worker shutdown locked envs
                  (suc i)
                  (process_next worker (locked i) (envs i) db).1).0
              ≡ false)
        → is_unfinished (drain (suc fuel) worker shutdown locked envs i db).0 ≡ false
    turn nothing e less ih = ground arith
    turn (lost_row k) e less ih = ground arith
    turn (processed report) e less ih =
        let smaller = less (ap is_processed e) in let rest = ih (omega arith) in ground arith
