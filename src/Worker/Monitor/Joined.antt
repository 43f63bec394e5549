-- ===== src/Worker/Monitor/Joined.antt =====
-- How the monitor of a job ends for its caller.
use case_fullstack_senior.Prelude.{ℕ, Bool, true, false, ◌≡◌, refl, ap, Option, arith}
use case_fullstack_senior.Worker.Monitor.{
  Place, ended, Raised, inside, finished, Monitor, initial, Reach,
}
use case_fullstack_senior.Worker.Monitor.Placed.{
  is_released, is_ended, is_caused, is_fatal, is_orderly, is_unreleased,
}
use case_fullstack_senior.Worker.Monitor.Supervised.{orderly_at, Reach-IsSupervised}

at_end : (p : Place) → is_ended p ≡ true → p ≡ ended
at_end ended e = refl
at_end _ e = absurd (ground arith)

-- In every state that the monitor of a job reaches, the body of the `with` runs only after the
-- LISTEN and the SELECT have succeeded.
pub Reach-inside :
    {job : ℕ} {cancelled : Bool} {s : Monitor}
    → Reach job (initial cancelled) s
    → s.caller ≡ inside
    → s.setup_succeeded ≡ true
Reach-inside {s = s} reach at = orderly_at s inside (Reach-IsSupervised reach) at

-- If the context manager of a monitor has been left, unless by the fatal error of a thread that
-- does not end, then the thread has been stopped and has returned, its connection is given back
-- and no longer listens, unless `_release_listen` has suppressed an exception, and a failed start names the error that caused it, so that the last `raise`
-- of the function, for a start without an error, is never run.
pub Reach-joined :
    {job : ℕ} {cancelled : Bool} {s : Monitor} (r : Option Raised)
    → Reach job (initial cancelled) s
    → s.caller ≡ finished r
    → is_fatal r ≡ false
    → (s.stopped ≡ true)
      × (s.place ≡ ended)
      × (s.connected ≡ false)
      × (is_unreleased s ≡ false)
      × (is_caused r ≡ true)
Reach-joined {s = s} r reach at calm =
    let h = Reach-IsSupervised reach in
    let o : is_orderly (finished r) s ≡ true = orderly_at s (finished r) h at in
    let e : is_ended s.place ≡ true = ground arith in
    let place : s.place ≡ ended = at_end s.place e in
    (
      ground arith,
      place,
      h.placed.disconnected e,
      h.placed.released (ap is_released place),
      ground arith,
    )
