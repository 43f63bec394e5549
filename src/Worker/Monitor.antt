-- ===== src/Worker/Monitor.antt =====
-- `cancellation_monitor` of worker/modules/jobs/processor.py: the thread that listens for the
-- cancellation of a job, the caller that starts and stops it, and the transactions that cancel, each
-- of which may act at any time. A wait or a join with a timeout is two steps: it ends, or it times out.
pub mod Heard
pub mod Liveness
pub mod Watch
pub mod Causes
pub mod Refines
pub mod Placed
pub mod Supervised
pub mod Joined
use case_fullstack_senior.Prelude.{
  ℕ, String, Bool, true, false, not, ◌⊎◌, ◌&&◌, ◌||◌, ◌≡◌, ◌≢◌, Option, none, some, List, [], ◌∷◌,
  ◌++◌, ◌==◌, if◌then◌else◌, any,
}
use case_fullstack_senior.Prelude.Int.{ℤ, pos, leb_ℤ}

-- Where the thread is: before the connection, the LISTEN and the SELECT; with what the SELECT found,
-- before and after `setup_succeeded.set()`; before and after `ready.set()`; before and after the test
-- of `stopped`; and in the three ends `_release_listen`, the last `finally`, and the return.
pub data Place : Type 0 where
  connecting opened listening : Place
  selected announced : Bool → Place
  told signalled looping polling leaving closing ended : Place

-- The exceptions of the context manager; the error that caused a failed start.
pub data Raised : Type 0 where
  setup_error : Option String → Raised
  fatal_error : Raised

-- Where the caller is: in `ready.wait`, in the body of the `with`, in the two joins of
-- `stop_monitor`, or past them with what is raised then.
pub data Caller : Type 0 where
  starting inside : Caller
  joining forcing finished : Option Raised → Caller

-- `row_cancelled` is the status of the job's row, `subscribed` tells whether the connection listens
-- and `inbox` is the payloads that it has been sent, `error` is job["cancellation_monitor_error"],
-- `connected` tells whether monitor_connection[0] is set, and `release_failed` whether
-- `_release_listen` has suppressed an exception.
pub record Monitor : Type 0 where
  pub place : Place
  pub caller : Caller
  pub row_cancelled : Bool
  pub subscribed : Bool
  pub inbox : List ℕ
  pub token : Bool
  pub stopped : Bool
  pub ready : Bool
  pub setup_succeeded : Bool
  pub connected : Bool
  pub error : Option String
  pub release_failed : Bool

-- The thread has started.
abbrev pub initial : Bool → Monitor
initial cancelled = record {
  place = connecting;
  caller = starting;
  row_cancelled = cancelled;
  subscribed = false;
  inbox = [];
  token = false;
  stopped = false;
  ready = false;
  setup_succeeded = false;
  connected = false;
  error = none;
  release_failed = false;
}

-- A connection of the pool may still listen, and have payloads waiting, from an earlier use.
pub record Connection : Type 0 where
  pub listens : Bool
  pub waiting : List ℕ

-- The factory gives a connection.
unfoldable pub connect : Connection → Monitor → Monitor
connect c s = record s {
  place = opened;
  connected = true;
  subscribed = c.listens;
  inbox = c.waiting;
}

abbrev pub unused : Connection
unused = record { listens = false; waiting = [] }

-- `_cancellation_arrived`: notifications are taken until one names the job.
unfoldable pub cancellation_arrived : ℕ → List ℕ → Bool × List ℕ
cancellation_arrived job [] = (false, [])
cancellation_arrived job (payload ∷ inbox) =
    let rest = cancellation_arrived job inbox in if payload == job then (true, inbox) else rest

-- `job.setdefault("cancellation_monitor_error", exc)`
abbrev pub first_error : Option String → String → Option String
first_error none e = some e
first_error (some old) e = some old

-- `record_monitor_error`
abbrev pub record_monitor_error : String → Monitor → Monitor
record_monitor_error e s = record s { error = first_error s.error e; token = true }

-- How far `_release_listen` comes: to its end, to an exception of the drain of the notifications, or
-- to one of the UNLISTEN or its commit, as in a transaction that a failed SELECT has aborted.
pub data Release : Type 0 where
  released undrained still_listening : Release

-- `_release_listen`, which suppresses its exceptions
abbrev pub release_listen : Release → Monitor → Monitor
release_listen released s = record s { subscribed = false; inbox = [] }
release_listen undrained s = record s { subscribed = false; release_failed = true }
release_listen still_listening s = record s { release_failed = true }

-- The inner `finally` at the end of the loop
unfoldable pub leave : Release → Monitor → Monitor
leave r s = record (release_listen r s) { place = closing }

-- The next action of the thread `monitor`, at each place; it gets a connection that is not used, and
-- `_release_listen` comes to its end
unfoldable pub advance_at : ℕ → Place → Monitor → Monitor
unfolding cancellation_arrived connect leave
advance_at job connecting s = connect unused s
advance_at job opened s = record s { place = listening; subscribed = true }
advance_at job listening s = record s { place = selected s.row_cancelled }
advance_at job (selected b) s = record s { place = announced b; setup_succeeded = true }
advance_at job (announced b) s = record s { place = told; token = b || s.token }
advance_at job told s = record s { place = signalled; ready = true }
advance_at job signalled s = record s { place = if s.token then leaving else looping }
advance_at job looping s = record s { place = if s.stopped then leaving else polling }
advance_at job polling s =
    let (arrived, rest) = cancellation_arrived job s.inbox in
    record s {
      place = if arrived then leaving else looping;
      inbox = rest;
      token = arrived || s.token;
    }
advance_at job leaving s = leave released s
advance_at job closing s = record s { place = ended; connected = false; ready = true }
advance_at job ended s = record s { place = ended }

abbrev pub advance : ℕ → Monitor → Monitor
advance job s = advance_at job s.place s

-- The places with a call that may raise.
abbrev pub is_fallible : Place → Bool
is_fallible connecting = true
is_fallible opened = true
is_fallible listening = true
is_fallible polling = true
is_fallible leaving = true
is_fallible _ = false

abbrev pub is_connecting : Place → Bool
is_connecting connecting = true
is_connecting _ = false

-- An exception of the thread: the inner `finally`, which there is once it has a connection, and the
-- `except`
unfoldable pub fail : String → Release → Monitor → Monitor
unfolding leave
fail e r s =
    record_monitor_error e
      (if is_connecting s.place then record s { place = closing } else leave r s)

-- A transaction that cancels the job commits: its NOTIFY reaches a connection that listens.
unfoldable pub commit_cancellation : ℕ → Monitor → Monitor
commit_cancellation job s = record s {
  row_cancelled = true;
  inbox = if s.subscribed then s.inbox ++ job ∷ [] else s.inbox;
}

-- The same for another job
unfoldable pub commit_other : ℕ → Monitor → Monitor
commit_other k s = record s { inbox = if s.subscribed then s.inbox ++ k ∷ [] else s.inbox }

-- The start of `stop_monitor`, and what is to be raised after it
abbrev pub stop : Option Raised → Monitor → Monitor
stop r s = record s { stopped = true; caller = joining r }

-- `ready.wait` has returned True.
unfoldable pub on_ready : Monitor → Monitor
on_ready s =
    if s.setup_succeeded then record s { caller = inside } else stop (some (setup_error s.error)) s

-- `ready.wait` has returned False.
unfoldable pub on_startup_timeout : String → Monitor → Monitor
on_startup_timeout e s = stop (some (setup_error (some e))) (record_monitor_error e s)

-- The second join has timed out.
unfoldable pub give_up : String → Monitor → Monitor
give_up e s = record (record_monitor_error e s) { caller = finished (some fatal_error) }

-- A payload of the job on a connection of the pool is there only if a transaction has cancelled the
-- job.
pub data Step (job : ℕ) (s : Monitor) : Monitor → Type 0 where
  thread : Step job s (advance job s)
  connection :
      (c : Connection)
      → s.place ≡ connecting
      → (any (λ k. k == job) c.waiting ≡ true → s.row_cancelled ≡ true)
      → Step job s (connect c s)
  release : (r : Release) → s.place ≡ leaving → Step job s (leave r s)
  fault : (e : String) (r : Release) → is_fallible s.place ≡ true → Step job s (fail e r s)
  cancellation : Step job s (commit_cancellation job s)
  notification : (k : ℕ) → (k == job) ≡ false → Step job s (commit_other k s)
  woken : s.caller ≡ starting → s.ready ≡ true → Step job s (on_ready s)
  late : (e : String) → s.caller ≡ starting → s.ready ≡ false → Step job s (on_startup_timeout e s)
  body_end : s.caller ≡ inside → Step job s (stop none s)
  join :
      (r : Option Raised)
      → (s.caller ≡ joining r) ⊎ (s.caller ≡ forcing r)
      → s.place ≡ ended
      → Step job s (record s { caller = finished r })
  join_late :
      (r : Option Raised)
      → s.caller ≡ joining r
      → s.place ≢ ended
      → Step job s (record s { caller = forcing r })
  stuck :
      (e : String) (r : Option Raised)
      → s.caller ≡ forcing r
      → s.place ≢ ended
      → Step job s (give_up e s)

pub data Reach (job : ℕ) (s : Monitor) : Monitor → Type 0 where
  here : Reach job s s
  next : {t u : Monitor} → Reach job s t → Step job t u → Reach job s u

-- How `cancellation_monitor` begins: without a factory it yields a token that nobody sets, and a
-- timeout that is not positive is a ValueError.
pub data Start : Type 0 where
  unsupervised invalid : Start
  supervised : Monitor → Start

abbrev pub or_default : ℤ → Option ℤ → ℤ
or_default default none = default
or_default default (some t) = t

-- CANCELLATION_MONITOR_STARTUP_TIMEOUT_S and CANCELLATION_MONITOR_STOP_TIMEOUT_S, in milliseconds
abbrev pub startup_timeout_ms : ℤ
startup_timeout_ms = pos 5000

abbrev pub stop_timeout_ms : ℤ
stop_timeout_ms = pos 1000

unfoldable pub start_monitor : Bool → Option ℤ → Option ℤ → Bool → Start
start_monitor has_factory startup_timeout stop_timeout cancelled =
    if not has_factory
    then unsupervised
    else (if leb_ℤ (or_default startup_timeout_ms startup_timeout) (pos 0)
          || leb_ℤ (or_default stop_timeout_ms stop_timeout) (pos 0)
        then invalid
        else supervised (initial cancelled))
