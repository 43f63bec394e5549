-- ===== src/Gateway/Drain.antt =====
-- The drain at the end of the API: requests that arrive and finish, and the lifespan that drains and
-- then disposes the connection pool.
use case_fullstack_senior.Prelude.{
  ℕ, suc, Bool, true, false, not, ◌≡◌, refl, ◌∙◌, ap, sym, arith, ◌==◌, if◌then◌else◌, inl, inr,
  Bool-cases,
}
use case_fullstack_senior.Prelude.Int.{pos, ◌+ℤ◌, ◌-ℤ◌}
use case_fullstack_senior.Gateway.{
  GracefulShutdown, started, request_started, request_finished, start_drain,
}

-- Where the shutdown part of `lifespan` is: serving, waiting in `drain`, or past it. `past true` is
-- an end by the timeout.
pub data Phase : Type 0 where
  serving waiting : Phase
  past : Bool → Phase

-- `live` counts the requests between `request_started` and `request_finished`; `refused` those that
-- got 503.
pub record Server : Type 0 where
  pub gate : GracefulShutdown
  pub phase : Phase
  pub live : ℕ
  pub refused : ℕ

abbrev pub fresh : Server
fresh = record { gate = started; phase = serving; live = 0; refused = 0 }

-- The middleware on an arrival
abbrev pub arrive : Server → Server
arrive s =
    let (accepted, g) = request_started s.gate in
    record s {
      gate = g;
      live = if accepted then suc s.live else s.live;
      refused = if accepted then s.refused else suc s.refused;
    }

abbrev pub begin : Server → Server
begin s =
    let (empty, g) = start_drain s.gate in
    record s { gate = g; phase = if empty then past false else waiting }

pub data Step (s : Server) : Server → Type 0 where
  arrival : Step s (arrive s)
  finish : (n : ℕ) → s.live ≡ suc n → Step s (record s { gate = request_finished s.gate; live = n })
  drain : s.phase ≡ serving → Step s (begin s)
  wake : s.phase ≡ waiting → s.gate.drained ≡ true → Step s (record s { phase = past false })
  time_out : s.phase ≡ waiting → Step s (record s { phase = past true })

pub data Reach (s : Server) : Server → Type 0 where
  here : Reach s s
  next : {t u : Server} → Reach s t → Step t u → Reach s u

abbrev pub is_serving : Phase → Bool
is_serving serving = true
is_serving _ = false

abbrev pub is_clean : Phase → Bool
is_clean (past false) = true
is_clean _ = false

-- The counter is the number of live requests, the event is set exactly if there is none, the flag
-- exactly if the drain has begun, and a drain that ended without its timeout left no live request.
pub record IsCounted (s : Server) : Type 0 where
  pub counter : s.gate.in_flight ≡ pos s.live
  pub event : s.gate.drained ≡ (s.live == 0)
  pub flag : s.gate.shutting_down ≡ not (is_serving s.phase)
  pub quiet : is_clean s.phase ≡ true → s.live ≡ 0

less_one : (n : ℕ) → pos (suc n) -ℤ pos 1 ≡ pos n
unfolding ◌-ℤ◌
less_one n = ground arith

one_more : (n : ℕ) → pos n +ℤ pos 1 ≡ pos (suc n)
unfolding ◌+ℤ◌
one_more n = ground arith

Step-IsCounted : {s t : Server} → Step s t → IsCounted s → IsCounted t
unfolding request_started request_finished start_drain
Step-IsCounted {s} arrival h = elim (Bool-cases s.gate.shutting_down) [
  | inl closed ↦ record {
    counter = rw closed h.counter;
    event = rw closed h.event;
    flag = rw closed (sym closed ∙ h.flag);
    quiet = λ e. rw closed (h.quiet e);
  }
  | inr open_gate ↦ record {
    counter = rw (open_gate, h.counter) (one_more s.live);
    event = rw open_gate (ground arith);
    flag = rw open_gate (sym open_gate ∙ h.flag);
    quiet = λ e. absurd (ground (arith, h.flag));
  }
]
Step-IsCounted {s} (finish n more) h =
    let left : s.gate.in_flight -ℤ pos 1 ≡ pos n =
      ap (λ z. z -ℤ pos 1) (h.counter ∙ ap pos more) ∙ less_one n in
    record {
      counter = left;
      event = rw left (ground (arith, h.event));
      flag = h.flag;
      quiet = λ e. absurd (ground (arith, h.quiet e));
    }
Step-IsCounted {s} (drain at) h = record {
  counter = h.counter;
  event = h.event;
  flag = rw h.counter (ground arith);
  quiet = λ e. ground (arith, h.counter);
}
Step-IsCounted {s} (wake at set) h = record {
  counter = h.counter;
  event = h.event;
  flag = ground (arith, h.flag);
  quiet = λ e. ground (arith, h.event);
}
Step-IsCounted {s} (time_out at) h = record {
  counter = h.counter;
  event = h.event;
  flag = ground (arith, h.flag);
  quiet = λ e. absurd (ground arith);
}

pub fresh-IsCounted : IsCounted fresh
fresh-IsCounted = record { counter = refl; event = refl; flag = refl; quiet = λ e. refl }

pub Reach-IsCounted : {s t : Server} → IsCounted s → Reach s t → IsCounted t
Reach-IsCounted h here = h
Reach-IsCounted h (next r step) = Step-IsCounted step (Reach-IsCounted h r)

-- If a server that began without requests reaches a state, by arrivals, ends of requests and the
-- drain, in which the drain is past and did not time out, then no request is live, and an arrival
-- changes nothing but the number of refusals.
pub drain-quiet :
    {s : Server}
    → Reach fresh s
    → s.phase ≡ past false
    → (s.live ≡ 0) × (arrive s ≡ record s { refused = suc s.refused })
unfolding request_started
drain-quiet {s} r ended =
    let h : IsCounted s = Reach-IsCounted fresh-IsCounted r in
    let closed : s.gate.shutting_down ≡ true = h.flag ∙ ap (λ p. not (is_serving p)) ended in
    (h.quiet (ap is_clean ended), rw closed refl)
