-- ===== src/Worker/Main.antt =====
-- worker/main.py: the wait for work, the reconnection, and the loop of `main`, in microseconds. What
-- the signals, the listener and the other processes do is in a record for each turn.
pub mod Waits
pub mod Keeps
use case_fullstack_senior.Prelude.{
  ℕ, zero, suc, ◌-◌, ◌+◌, String, Bool, true, false, Option, none, some, ◌==◌, leb, if◌then◌else◌,
}
use case_fullstack_senior.Db.Schema.{Db}
use case_fullstack_senior.Worker.Process.{Environment}
use case_fullstack_senior.Worker.Loop.{
  DrainEnd, stopped, emptied, crashed, unfinished, drain, queued_count,
}

-- WAIT_SLICE_S
abbrev pub wait_slice : ℕ
wait_slice = 1000000

-- A turn of `_wait_for_work`: whether the shutdown is set, `time.monotonic()`, and what
-- `wait_for_wakeup` returns.
pub record Turn : Type 0 where
  pub shutdown : Bool
  pub now : ℕ
  pub woken : Bool

-- min(WAIT_SLICE_S, deadline - now), or 0 for what is not positive
abbrev pub remaining : ℕ → ℕ → ℕ
remaining deadline now = if leb wait_slice (deadline - now) then wait_slice else deadline - now

-- `_wait_for_work` with its deadline, from the i-th turn on; `none` is the end of the fuel.
unfoldable pub wait_for_work : ℕ → (ℕ → Turn) → ℕ → ℕ → Option Bool
wait_for_work zero turns i deadline = none
wait_for_work (suc fuel) turns i deadline =
    let rest = wait_for_work fuel turns (suc i) deadline in
    if (turns i).shutdown
    then some false
    else (if remaining deadline (turns i).now == 0
        then some false
        else (if (turns i).woken then some true else rest))

-- How `_reconnect_listener` ends: with a connection, or with None.
pub data Reconnection : Type 0 where
  connected abandoned : Reconnection

-- `accepts i`: whether the i-th `_connect_listener` succeeds; `none` is the end of the fuel.
unfoldable pub reconnect_listener : ℕ → (ℕ → Bool) → (ℕ → Bool) → ℕ → Option Reconnection
reconnect_listener zero shutdown accepts i = none
reconnect_listener (suc fuel) shutdown accepts i =
    let rest = reconnect_listener fuel shutdown accepts (suc i) in
    if shutdown i then some abandoned else (if accepts i then some connected else rest)

-- A turn of the loop of `main`: the three tests of the shutdown in it, what the wait returns (none
-- for an OperationalError), how the reconnection ends, what other transactions commit while the
-- worker waits, and what `drain` meets.
pub record Cycle : Type 0 where
  pub at_while : Bool
  pub at_error : Bool
  pub at_wake : Bool
  pub wait : Option Bool
  pub reconnection : Reconnection
  pub meanwhile : Db → Db
  pub shutdown : ℕ → Bool
  pub locked : ℕ → ℕ → Bool
  pub envs : ℕ → Environment

-- How `main` ends: after the loop, by an exception of `drain`, or not before the fuel.
pub data MainEnd : Type 0 where
  returned failed_drain running_on : MainEnd

-- The tables, and the counter worker_wakeups_total for each reason.
pub record WorkerState : Type 0 where
  pub db : Db
  pub by_notify : ℕ
  pub by_timeout : ℕ

-- `drain`, with more fuel than it needs
abbrev pub drained : String → Cycle → Db → DrainEnd × Db
drained worker c db = drain (suc (queued_count db)) worker c.shutdown c.locked c.envs 0 db

-- Whether the turn goes on to the drain, and what woke it.
unfoldable pub woke_by_notify : Cycle → Option Bool
woke_by_notify c = elim c.wait [
  | some b ↦ some b
  | none ↦
      if c.at_error
      then none
      else (elim c.reconnection [ connected ↦ some false | abandoned ↦ none ])
]

-- worker_wakeups_total.labels(reason=…).inc()
abbrev pub count_wakeup : Option Bool → WorkerState → WorkerState
count_wakeup none s = s
count_wakeup (some true) s = record s { by_notify = suc s.by_notify }
count_wakeup (some false) s = record s { by_timeout = suc s.by_timeout }

-- The tables after the wait
abbrev pub waited : Cycle → WorkerState → WorkerState
waited c s = record s { db = c.meanwhile s.db }

-- What follows a drain: its exception leaves `main`.
abbrev pub after_drain : DrainEnd → MainEnd × WorkerState → WorkerState → MainEnd × WorkerState
after_drain stopped rest s = rest
after_drain emptied rest s = rest
after_drain crashed rest s = (failed_drain, s)
after_drain unfinished rest s = (running_on, s)

-- What follows a wait: the end of the loop, or the drain and what follows it.
abbrev pub after_wait :
    Option Bool → Bool → WorkerState → MainEnd × WorkerState → MainEnd × WorkerState
after_wait none at_wake s drain = (returned, s)
after_wait (some b) at_wake s drain = if at_wake then (returned, s) else drain

-- The loop of `main`, from the i-th turn on
unfoldable pub main_loop : ℕ → String → (ℕ → Cycle) → ℕ → WorkerState → MainEnd × WorkerState
unfolding woke_by_notify
main_loop zero worker cycles i s = (running_on, s)
main_loop (suc fuel) worker cycles i s =
    let counted = count_wakeup (woke_by_notify (cycles i)) (waited (cycles i) s) in
    let (end, left) = drained worker (cycles i) counted.db in
    let rest = main_loop fuel worker cycles (suc i) (record counted { db = left }) in
    if (cycles i).at_while
    then (returned, s)
    else after_wait (woke_by_notify (cycles i)) (cycles i).at_wake (waited (cycles i) s)
        (after_drain end rest (record counted { db = left }))

-- `main`: the backlog is drained before the loop, whose first turn is the turn 1.
unfoldable pub main : ℕ → String → (ℕ → Cycle) → Db → MainEnd × WorkerState
unfolding main_loop
main fuel worker cycles db =
    let (end, left) = drained worker (cycles 0) db in
    let s : WorkerState = record { db = left; by_notify = 0; by_timeout = 0 } in
    after_drain end (main_loop fuel worker cycles 1 s) s
