-- ===== src/Tests/Monitoring.antt =====
-- A monitor that a cancellation reaches between its SELECT and its loop, one that a finished body
-- stops, and a worker that is shut down in its second turn.
use case_fullstack_senior.Prelude.{
  ℕ, ◌+◌, ◌*◌, ◌≤◌, Bool, true, false, inl, ◌≡◌, refl, none, some, leb, arith,
}
use case_fullstack_senior.Invariant.{IsValid}
use case_fullstack_senior.Worker.Monitor.{
  Monitor, initial, advance, advance_at, commit_cancellation, on_ready, stop, finished, ended,
  fault, fail, connect, leave, still_listening, setup_error, thread, cancellation, woken, body_end,
  join, Reach, here, next,
}
use case_fullstack_senior.Worker.Monitor.Liveness.{run, Reach-noticed}
use case_fullstack_senior.Worker.Monitor.Watch.{WatchReach, view}
use case_fullstack_senior.Worker.Monitor.Refines.{Reach-refines}
use case_fullstack_senior.Worker.Monitor.Placed.{is_caused, is_unreleased}
use case_fullstack_senior.Worker.Monitor.Joined.{Reach-joined}
use case_fullstack_senior.Worker.Wait.{next_poll_timeout}
use case_fullstack_senior.Worker.Main.{Turn, wait_for_work, Cycle, abandoned, main}
use case_fullstack_senior.Worker.Main.Waits.{IsTimed, Explains, wait_for_work-ends}
use case_fullstack_senior.Worker.Main.Keeps.{IsCalm, is_running, main-ends}
use case_fullstack_senior.Tests.{alone, unlocked, shared_db, shared_db-IsValid}
use case_fullstack_senior.Tests.Runs.{calm, calm-IsFair, calm-IsQuiet}

abbrev selecting : Monitor
selecting = advance 7 (advance 7 (advance 7 (initial false)))

to_selecting : Reach 7 (initial false) selecting
to_selecting = next (next (next here thread) thread) thread

abbrev cancelled_late : Monitor
cancelled_late = commit_cancellation 7 selecting

to_cancelled : Reach 7 (initial false) cancelled_late
to_cancelled = next to_selecting cancellation

Reach-noticed_example : (n : ℕ) × (n ≤ 6) × ((run 7 n cancelled_late).token ≡ true)
unfolding advance_at connect leave commit_cancellation
Reach-noticed_example = Reach-noticed to_cancelled refl refl

Reach-refines_example : WatchReach (view (initial false)) (view cancelled_late)
Reach-refines_example = Reach-refines to_cancelled

abbrev prepared : Monitor
prepared = advance 7 (advance 7 (advance 7 selecting))

abbrev leaving_body : Monitor
leaving_body = stop none (advance 7 (on_ready prepared))

abbrev stopped_monitor : Monitor
stopped_monitor = record (advance 7 (advance 7 (advance 7 leaving_body))) { caller = finished none }

to_stopped : Reach 7 (initial false) stopped_monitor
unfolding advance_at connect leave on_ready
to_stopped =
    let ready = next (next (next to_selecting thread) thread) thread in
    let body = next (next ready (woken refl refl)) thread in
    next (next (next (next (next body (body_end refl)) thread) thread) thread)
      (join none (inl refl) refl)

Reach-joined_example :
    (stopped_monitor.stopped ≡ true)
    × (stopped_monitor.place ≡ ended)
    × (stopped_monitor.connected ≡ false)
    × (is_unreleased stopped_monitor ≡ false)
    × (is_caused none ≡ true)
Reach-joined_example = Reach-joined none to_stopped refl refl

-- The SELECT fails, so that the UNLISTEN fails in the aborted transaction: the context manager raises
-- the error of the start, and the connection that is given back to the pool still listens.
abbrev leaking : Monitor
leaking =
    advance 7 (fail "OperationalError: x" still_listening (advance 7 (advance 7 (initial false))))

abbrev leaked : Monitor
leaked = record leaking {
  stopped = true;
  caller = finished (some (setup_error (some "OperationalError: x")));
}

to_leaked : Reach 7 (initial false) leaked
unfolding advance_at connect leave fail on_ready
to_leaked =
    let failed =
      next (next (next here thread) thread) (fault "OperationalError: x" still_listening refl) in
    next (next (next failed thread) (woken refl refl)) (join _ (inl refl) refl)

leaked_listens : leaked.subscribed ≡ true
unfolding advance_at connect leave fail
leaked_listens = refl

-- A turn each second, and no notification
abbrev idle_turns : ℕ → Turn
idle_turns i = record { shutdown = false; now = i * 1000000; woken = false }

idle_turns-IsTimed : (deadline : ℕ) → IsTimed idle_turns deadline
idle_turns-IsTimed deadline i e = ground arith

wait_for_work-ends_example :
    (b : Bool) × (j : ℕ) × (wait_for_work 31 idle_turns 0 (0 + next_poll_timeout shared_db)
      ≡ some b)
    × (j ≤ 30)
    × Explains idle_turns (0 + next_poll_timeout shared_db) j b
wait_for_work-ends_example =
    wait_for_work-ends idle_turns shared_db 0 (omega arith)
      (idle_turns-IsTimed (0 + next_poll_timeout shared_db))

abbrev calm_cycles : ℕ → Cycle
calm_cycles i = record {
  at_while = leb 2 i;
  at_error = false;
  at_wake = false;
  wait = some true;
  reconnection = abandoned;
  meanwhile = alone;
  shutdown = λ n. false;
  locked = λ n. unlocked;
  envs = λ n. calm;
}

calm_cycles-IsCalm : (i : ℕ) → IsCalm (calm_cycles i)
calm_cycles-IsCalm i = record {
  fair = λ n. calm-IsFair;
  quiet = λ n. calm-IsQuiet;
  valid = λ db h. h;
}

main-ends_example :
    (is_running (main 2 "w-1" calm_cycles shared_db).0 ≡ false)
    × IsValid (main 2 "w-1" calm_cycles shared_db).1.db
main-ends_example =
    main-ends 2 "w-1" calm_cycles 2 shared_db calm_cycles-IsCalm shared_db-IsValid refl
      (omega arith) (omega arith)
