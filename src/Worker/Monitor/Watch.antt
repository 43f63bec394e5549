-- ===== src/Worker/Monitor/Watch.antt =====
-- A small specification of what the monitor of a job promises to its worker.
use case_fullstack_senior.Prelude.{String, Bool, true, false, ◌||◌, ◌≡◌, refl, Option, none, some}
use case_fullstack_senior.Worker.Monitor.{Monitor, first_error}

-- A watch on a job: whether the job is cancelled, the error with which the watch has failed, and
-- whether the worker is told to stop.
pub record Watch : Type 0 where
  pub cancelled : Bool
  pub error : Option String
  pub told_to_stop : Bool

abbrev pub is_some : Option String → Bool
is_some none = false
is_some (some e) = true

-- The job is cancelled; a watch without an error fails; or the worker is told, which takes one of the
-- two.
pub data WatchStep (w : Watch) : Watch → Type 0 where
  cancels : WatchStep w (record w { cancelled = true })
  fails : (e : String) → w.error ≡ none → WatchStep w (record w { error = some e })
  tells : (w.cancelled || is_some w.error) ≡ true → WatchStep w (record w { told_to_stop = true })

pub data WatchReach (w : Watch) : Watch → Type 0 where
  still : WatchReach w w
  more : {v u : Watch} → WatchReach w v → WatchStep v u → WatchReach w u

pub is_some-first : (o : Option String) (e : String) → is_some (first_error o e) ≡ true
is_some-first none e = refl
is_some-first (some old) e = refl

pub WatchReach-join : {w v u : Watch} → WatchReach w v → WatchReach v u → WatchReach w u
WatchReach-join r still = r
WatchReach-join r (more q step) = more (WatchReach-join r q) step

-- What a state of the monitor is as a watch
abbrev pub view : Monitor → Watch
view s = record { cancelled = s.row_cancelled; error = s.error; told_to_stop = s.token }
