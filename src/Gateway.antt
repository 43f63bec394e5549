-- ===== src/Gateway.antt =====
-- api/shared/http/graceful_shutdown.py: the gate that every request passes, and its drain; and what
-- `request_lifecycle_middleware` of api/main.py does around a request.
pub mod Drain
pub mod Logs
pub mod Events
pub mod Filters
pub mod Lifespan
use case_fullstack_senior.Prelude.{
  ℕ, ◌+◌, ◌-◌, Bool, true, false, List, [], ◌∷◌, ◌==◌, if◌then◌else◌,
}
use case_fullstack_senior.Prelude.Int.{ℤ, pos, ◌+ℤ◌, ◌-ℤ◌, leb_ℤ}

-- The fields of `GracefulShutdown`; `drained` is its asyncio.Event.
pub record GracefulShutdown : Type 0 where
  pub shutting_down : Bool
  pub in_flight : ℤ
  pub drained : Bool

abbrev pub started : GracefulShutdown
started = record { shutting_down = false; in_flight = pos 0; drained = true }

unfoldable pub request_started : GracefulShutdown → Bool × GracefulShutdown
request_started g =
    if g.shutting_down
    then (false, g)
    else (true, record g { in_flight = g.in_flight +ℤ pos 1; drained = false })

unfoldable pub request_finished : GracefulShutdown → GracefulShutdown
request_finished g =
    let left = g.in_flight -ℤ pos 1 in
    record g { in_flight = left; drained = if leb_ℤ left (pos 0) then true else g.drained }

-- `drain` up to its first `await`: whether it returns at once
unfoldable pub start_drain : GracefulShutdown → Bool × GracefulShutdown
start_drain g = (leb_ℤ g.in_flight (pos 0), record g { shutting_down = true })
