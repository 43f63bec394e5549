-- ===== src/Worker/Monitor/Refines.antt =====
-- The monitor of a job is a watch on it.
use mathlib.Core.Path.{subst}
use case_fullstack_senior.Prelude.{
  ℕ, String, Bool, true, false, ◌||◌, ◌≡◌, refl, sym, ◌∙◌, Option, none, some, arith,
}
use case_fullstack_senior.Worker.Monitor.{
  Place, connecting, opened, listening, selected, announced, told, signalled, looping, polling,
  leaving, closing, ended, Monitor, initial, cancellation_arrived, first_error,
  record_monitor_error, advance_at, commit_cancellation, commit_other, on_ready, on_startup_timeout,
  give_up, Step, thread, fault, connection, release, connect, leave, Release, released, undrained,
  still_listening, cancellation, notification, woken, late, body_end, join, join_late, stuck, Reach,
  here, next,
}
use case_fullstack_senior.Worker.Monitor.Heard.{has_payload-arrived, either-holds, fail-holds}
use case_fullstack_senior.Worker.Monitor.Watch.{
  Watch, cancels, fails, tells, WatchReach, still, more, WatchReach-join, view,
}
use case_fullstack_senior.Worker.Monitor.Causes.{IsTrue, Reach-IsTrue}

-- An action of the thread keeps the view, or tells the worker.
module _ (job : ℕ) where
  -- A token that may be set for a cause: the worker is told, or the watch stays.
  tells_if :
      (b : Bool) (w : Watch)
      → (b ≡ true → w.cancelled ≡ true)
      → WatchReach w (record w { told_to_stop = b || w.told_to_stop })
  tells_if true w true_news = more still (tells (let e = true_news refl in rw e refl))
  tells_if false w true_news = still

  advance-refines :
      (p : Place) (s : Monitor)
      → s.place ≡ p
      → IsTrue job s
      → WatchReach (view s) (view (advance_at job p s))
  unfolding advance_at connect leave
  advance-refines connecting s at h = still
  advance-refines opened s at h = still
  advance-refines listening s at h = still
  advance-refines (selected b) s at h = still
  advance-refines (announced b) s at h = tells_if b (view s) (λ e. h.select_true (rw at e))
  advance-refines told s at h = still
  advance-refines signalled s at h = still
  advance-refines looping s at h = still
  advance-refines polling s at h =
      tells_if (cancellation_arrived job s.inbox).0 (view s)
        (λ e. h.inbox_true (sym (has_payload-arrived job s.inbox) ∙ e))
  advance-refines leaving s at h = still
  advance-refines closing s at h = still
  advance-refines ended s at h = still

  -- An error fails the watch, which then tells the worker.
  error-refines : (e : String) (s : Monitor) → WatchReach (view s) (view (record_monitor_error e s))
  error-refines e s = recorded s.error refl
    where
      recorded :
          (o : Option String)
          → s.error ≡ o
          → WatchReach (view s) (record (view s) { error = first_error o e; told_to_stop = true })
      recorded none at = more (more still (fails e at)) (tells (ground arith))
      recorded (some old) at =
          subst (λ o. WatchReach (view s) (record (view s) { error = o; told_to_stop = true })) at
            (more still (tells (rw at (ground arith))))

  leave-view : (r : Release) (s : Monitor) → view (leave r s) ≡ view s
  unfolding leave
  leave-view released s = refl
  leave-view undrained s = refl
  leave-view still_listening s = refl

  leave-WatchReach : (r : Release) (s : Monitor) → WatchReach (view s) (view (leave r s))
  leave-WatchReach r s = rw (leave-view r s) still

  Step-refines : {s t : Monitor} → IsTrue job s → Step job s t → WatchReach (view s) (view t)
  unfolding connect commit_cancellation commit_other on_ready on_startup_timeout give_up
  Step-refines {s} h thread = advance-refines s.place s refl h
  Step-refines {s} h (connection c at news) = still
  Step-refines {s} h (release r at) = leave-WatchReach r s
  Step-refines {s} h (fault e r at) =
      fail-holds (λ t. WatchReach (view s) (view t)) e r s
        (WatchReach-join (leave-WatchReach r s) (error-refines e (leave r s)))
        (λ _. error-refines e s)
  Step-refines {s} h cancellation = more still cancels
  Step-refines {s} h (notification k apart) = still
  Step-refines {s} h (woken at set) =
      either-holds (λ t. WatchReach (view s) (view t)) s.setup_succeeded (λ _. still) (λ _. still)
  Step-refines {s} h (late e at unset) = error-refines e s
  Step-refines {s} h (body_end at) = still
  Step-refines {s} h (join r at end) = still
  Step-refines {s} h (join_late r at end) = still
  Step-refines {s} h (stuck e r at end) = error-refines e s

-- Whatever the monitor of a job does with its thread, its caller, its failures and the
-- cancelling transactions is what a watch may do, which tells the worker to stop only after the
-- job is cancelled or after the watch has failed with an error: the token is never set without
-- such a cause, and never unset, and the first error that is recorded is neither lost nor replaced
-- by a later one.
pub Reach-refines :
    {job : ℕ} {cancelled : Bool} {s : Monitor}
    → Reach job (initial cancelled) s
    → WatchReach (view (initial cancelled)) (view s)
Reach-refines here = still
Reach-refines {job} {cancelled} (next r step) = WatchReach-join (Reach-refines r) (
    Step-refines job
      (Reach-IsTrue job
        (record {
          select_true = λ e. absurd (ground arith);
          inbox_true = λ e. absurd (ground arith);
        })
        r)
      step)
