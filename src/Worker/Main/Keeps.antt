-- ===== src/Worker/Main/Keeps.antt =====
-- The tables that the worker process leaves, and its end.
use mathlib.Core.Path.{subst}
use case_fullstack_senior.Prelude.{
  ℕ, zero, suc, ◌+◌, ◌≤◌, ◌<◌, String, Bool, true, false, ◌≡◌, refl, ap, sym, ◌∙◌, Option, none,
  some, inl, inr, Bool-cases, eq-cases, arith,
}
use case_fullstack_senior.Db.Schema.{Db}
use case_fullstack_senior.Invariant.{IsValid}
use case_fullstack_senior.Worker.Process.{
  Environment, Processed, nothing, lost_row, processed, process_next,
}
use case_fullstack_senior.Worker.Process.Keeps.{IsFair, process_next-IsValid}
use case_fullstack_senior.Worker.Loop.{
  DrainEnd, stopped, emptied, crashed, unfinished, turn_end, drain, queued_count, IsQuiet,
  is_unfinished, drain-ends,
}
use case_fullstack_senior.Worker.Main.{
  Cycle, MainEnd, running_on, WorkerState, drained, woke_by_notify, count_wakeup, waited,
  after_drain, after_wait, main_loop, main,
}

-- What holds of the tables after a turn, and after the turns that follow it, holds at the end.
turn-holds :
    (P : Db → Type 0) (p : Processed) (left : Db) (rest : DrainEnd × Db)
    → P left
    → P rest.1
    → P (turn_end p left rest).1
turn-holds P nothing left rest now later = now
turn-holds P (lost_row k) left rest now later = now
turn-holds P (processed report) left rest now later = elim (Bool-cases report.raises) [
  | inl raised ↦ rw raised now
  | inr fine ↦ rw fine later
]

drain-IsValid :
    (fuel : ℕ) (worker : String) (shutdown : ℕ → Bool) (locked : ℕ → ℕ → Bool)
    (envs : ℕ → Environment) (i : ℕ) (db : Db)
    → ((n : ℕ) → IsFair (envs n))
    → IsValid db
    → IsValid (drain fuel worker shutdown locked envs i db).1
unfolding drain
drain-IsValid zero worker shutdown locked envs i db fair h = h
drain-IsValid (suc fuel) worker shutdown locked envs i db fair h =
    let r = process_next worker (locked i) (envs i) db in
    let valid : IsValid r.1 = process_next-IsValid worker (locked i) (envs i) db (fair i) h in
    let ih = drain-IsValid fuel worker shutdown locked envs (suc i) r.1 fair valid in
    elim (Bool-cases (shutdown i)) [
      | inl set ↦ rw set h
      | inr runs ↦ rw runs (turn-holds IsValid r.0 r.1 _ valid ih)
    ]

abbrev pub is_running : MainEnd → Bool
is_running running_on = true
is_running _ = false

-- What other transactions commit keeps the tables valid, gives no worker a lease, and does not add
-- to the queue during a drain. It may add to the queue during a wait.
pub record IsCalm (c : Cycle) : Type 0 where
  pub fair : (n : ℕ) → IsFair (c.envs n)
  pub quiet : (n : ℕ) → IsQuiet (c.envs n)
  pub valid : (db : Db) → IsValid db → IsValid (c.meanwhile db)

-- The process has ended, with valid tables.
abbrev HasEnded : MainEnd × WorkerState → Type 0
HasEnded r = (is_running r.0 ≡ false) × IsValid r.1.db

drained-IsValid :
    (worker : String) (c : Cycle) (db : Db)
    → IsCalm c
    → IsValid db
    → IsValid (drained worker c db).1
drained-IsValid worker c db calm h =
    drain-IsValid (suc (queued_count db)) worker c.shutdown c.locked c.envs 0 db calm.fair h

drained-ends :
    (worker : String) (c : Cycle) (db : Db)
    → IsCalm c
    → IsValid db
    → is_unfinished (drained worker c db).0 ≡ false
drained-ends worker c db calm h =
    drain-ends (suc (queued_count db)) worker c.shutdown c.locked c.envs 0 db calm.fair calm.quiet h
      (omega arith)

-- After a drain that ended, the process has ended if its next turns do.
after_drain-HasEnded :
    (e : DrainEnd) (rest : MainEnd × WorkerState) (s : WorkerState)
    → is_unfinished e ≡ false
    → IsValid s.db
    → HasEnded rest
    → HasEnded (after_drain e rest s)
after_drain-HasEnded stopped rest s done h later = later
after_drain-HasEnded emptied rest s done h later = later
after_drain-HasEnded crashed rest s done h later = (refl, h)
after_drain-HasEnded unfinished rest s done h later = absurd (ground arith)

-- After a wait that kept the tables valid, the process has ended if its next turns do.
after_wait-HasEnded :
    (o : Option Bool) (at_wake : Bool) (s : WorkerState) (drain : MainEnd × WorkerState)
    → IsValid s.db
    → HasEnded drain
    → HasEnded (after_wait o at_wake s drain)
after_wait-HasEnded none at_wake s drain h later = (refl, h)
after_wait-HasEnded (some b) true s drain h later = (refl, h)
after_wait-HasEnded (some b) false s drain h later = later

-- The turn with the shutdown is still ahead of a turn without it.
ahead :
    (cycles : ℕ → Cycle) (i n : ℕ)
    → i ≤ n
    → (cycles n).at_while ≡ true
    → (cycles i).at_while ≡ false
    → suc i ≤ n
ahead cycles i n low off runs = elim (eq-cases i n) [
  | inl same ↦
      let set : (cycles i).at_while ≡ true = ap (λ k. (cycles k).at_while) (sym same) ∙ off in
      absurd (ground arith)
  | inr apart ↦ ground arith
]

counted-db : (o : Option Bool) (s : WorkerState) → (count_wakeup o s).db ≡ s.db
counted-db none s = refl
counted-db (some true) s = refl
counted-db (some false) s = refl

main_loop-HasEnded :
    (fuel : ℕ) (worker : String) (cycles : ℕ → Cycle) (i n : ℕ) (s : WorkerState)
    → ((k : ℕ) → IsCalm (cycles k))
    → IsValid s.db
    → (cycles n).at_while ≡ true
    → i ≤ n
    → n < i + fuel
    → HasEnded (main_loop fuel worker cycles i s)
unfolding main_loop
main_loop-HasEnded zero worker cycles i n s calm h off low high = absurd (omega arith)
main_loop-HasEnded (suc fuel) worker cycles i n s calm h off low high =
    let c = cycles i in
    let counted = count_wakeup (woke_by_notify c) (waited c s) in
    let awake : IsValid (waited c s).db = (calm i).valid s.db h in
    let fine : IsValid counted.db =
      subst IsValid (sym (counted-db (woke_by_notify c) (waited c s))) awake in
    let kept = drained-IsValid worker c counted.db (calm i) fine in
    let done = drained-ends worker c counted.db (calm i) fine in
    elim (Bool-cases c.at_while) [
      | inl set ↦ rw set (refl, h)
      | inr runs ↦
          let later = ahead cycles i n low off runs in
          let ih =
            main_loop-HasEnded fuel worker cycles (suc i) n
              (record counted { db = (drained worker c counted.db).1 }) calm kept off later
              (omega arith) in
          rw runs (
            after_wait-HasEnded (woke_by_notify c) c.at_wake (waited c s) _ awake
              (after_drain-HasEnded (drained worker c counted.db).0 _ _ done kept ih))
    ]

-- If what other transactions commit keeps the tables valid and gives no worker a lease, during
-- the jobs without adding to the queue and during the waits with any additions to it, and the
-- shutdown is found set at the n-th turn of the loop of `main`, then the worker process, with its
-- first drain, its waits, its reconnections and a drain in each turn, has ended after at most n
-- turns, by its return or by an exception of a drain, and the tables that it leaves are valid.
pub main-ends :
    (fuel : ℕ) (worker : String) (cycles : ℕ → Cycle) (n : ℕ) (db : Db)
    → ((k : ℕ) → IsCalm (cycles k))
    → IsValid db
    → (cycles n).at_while ≡ true
    → 1 ≤ n
    → n ≤ fuel
    → (is_running (main fuel worker cycles db).0 ≡ false)
      × IsValid (main fuel worker cycles db).1.db
unfolding main
main-ends fuel worker cycles n db calm h off low high =
    let s : WorkerState = record {
      db = (drained worker (cycles 0) db).1;
      by_notify = 0;
      by_timeout = 0;
    } in
    let kept = drained-IsValid worker (cycles 0) db (calm 0) h in
    after_drain-HasEnded (drained worker (cycles 0) db).0 _ s
      (drained-ends worker (cycles 0) db (calm 0) h) kept
      (main_loop-HasEnded fuel worker cycles 1 n s calm kept off low (omega arith))
