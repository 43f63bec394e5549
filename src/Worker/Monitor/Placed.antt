-- ===== src/Worker/Monitor/Placed.antt =====
-- What holds of the monitor's thread at each of its places, and of its caller.
use case_fullstack_senior.Prelude.{
  ℕ, String, Bool, true, false, not, ◌&&◌, ◌||◌, ◌≡◌, refl, ap, ◌∙◌, Option, none, some, arith,
}
use case_fullstack_senior.Worker.Monitor.{
  Place, connecting, opened, listening, selected, announced, told, signalled, looping, polling,
  leaving, closing, ended, Raised, setup_error, fatal_error, Caller, starting, inside, joining,
  forcing, finished, Monitor, record_monitor_error, advance_at, advance, is_connecting, connect,
  leave,
}
use case_fullstack_senior.Worker.Monitor.Watch.{is_some, is_some-first}

-- The setup is past, or has failed.
abbrev pub is_prepared : Place → Bool
is_prepared connecting = false
is_prepared opened = false
is_prepared listening = false
is_prepared (selected b) = false
is_prepared _ = true

-- `_release_listen` is past.
abbrev pub is_released : Place → Bool
is_released closing = true
is_released ended = true
is_released _ = false

abbrev pub is_ended : Place → Bool
is_ended ended = true
is_ended _ = false

-- What is raised names its cause.
abbrev pub is_caused : Option Raised → Bool
is_caused none = true
is_caused (some (setup_error e)) = is_some e
is_caused (some fatal_error) = true

abbrev pub is_fatal : Option Raised → Bool
is_fatal (some fatal_error) = true
is_fatal _ = false

-- The setup has succeeded, or an error is recorded.
abbrev pub is_settled : Monitor → Bool
is_settled s = s.setup_succeeded || is_some s.error

-- The body runs only after the setup; the caller stops the thread before it joins it, and is past
-- the joins only when the thread has returned or the error is fatal.
abbrev pub is_orderly : Caller → Monitor → Bool
is_orderly starting s = true
is_orderly inside s = s.setup_succeeded
is_orderly (joining r) s = s.stopped && is_caused r
is_orderly (forcing r) s = s.stopped && is_caused r
is_orderly (finished r) s = s.stopped && is_caused r && (is_fatal r || is_ended s.place)

-- The connection listens although `_release_listen` came past its UNLISTEN.
abbrev pub is_unreleased : Monitor → Bool
is_unreleased s = s.subscribed && not s.release_failed

-- What holds of the thread at a place
pub record IsPlaced (p : Place) (s : Monitor) : Type 0 where
  pub prepared : is_prepared p ≡ true → is_settled s ≡ true
  pub settled : s.ready ≡ true → is_settled s ≡ true
  pub fresh : is_connecting p ≡ true → s.subscribed ≡ false
  pub released : is_released p ≡ true → is_unreleased s ≡ false
  pub disconnected : is_ended p ≡ true → s.connected ≡ false

pub record IsSupervised (s : Monitor) : Type 0 where
  pub placed : IsPlaced s.place s
  pub orderly : is_orderly s.caller s ≡ true

-- A step that the caller does not make
pub is_orderly-keeps :
    (c : Caller) (s t : Monitor)
    → t.stopped ≡ s.stopped
    → (s.setup_succeeded ≡ true → t.setup_succeeded ≡ true)
    → (is_ended s.place ≡ true → is_ended t.place ≡ true)
    → is_orderly c s ≡ true
    → is_orderly c t ≡ true
is_orderly-keeps starting s t o u e h = refl
is_orderly-keeps inside s t o u e h = u h
is_orderly-keeps (joining r) s t o u e h = rw o h
is_orderly-keeps (forcing r) s t o u e h = rw o h
is_orderly-keeps (finished r) s t o u e h = rw o (ground (arith, e))

pub advance-keeps :
    (job : ℕ) (p : Place) (s : Monitor)
    → s.place ≡ p
    → ((advance_at job p s).stopped ≡ s.stopped)
      × (s.setup_succeeded ≡ true → (advance_at job p s).setup_succeeded ≡ true)
      × (is_ended s.place ≡ true → is_ended (advance_at job p s).place ≡ true)
      × ((advance_at job p s).caller ≡ s.caller)
unfolding advance_at connect leave
advance-keeps job connecting s at = (refl, λ e. e, λ e. absurd (ground arith), refl)
advance-keeps job opened s at = (refl, λ e. e, λ e. absurd (ground arith), refl)
advance-keeps job listening s at = (refl, λ e. e, λ e. absurd (ground arith), refl)
advance-keeps job (selected b) s at = (refl, λ e. refl, λ e. absurd (ground arith), refl)
advance-keeps job (announced b) s at = (refl, λ e. e, λ e. absurd (ground arith), refl)
advance-keeps job told s at = (refl, λ e. e, λ e. absurd (ground arith), refl)
advance-keeps job signalled s at = (refl, λ e. e, λ e. absurd (ground arith), refl)
advance-keeps job looping s at = (refl, λ e. e, λ e. absurd (ground arith), refl)
advance-keeps job polling s at = (refl, λ e. e, λ e. absurd (ground arith), refl)
advance-keeps job leaving s at = (refl, λ e. e, λ e. absurd (ground arith), refl)
advance-keeps job closing s at = (refl, λ e. e, λ e. refl, refl)
advance-keeps job ended s at = (refl, λ e. e, λ e. refl, refl)

pub advance-IsPlaced :
    (job : ℕ) (p : Place) (s : Monitor)
    → IsPlaced p s
    → IsPlaced (advance_at job p s).place (advance_at job p s)
unfolding advance_at connect leave
advance-IsPlaced job connecting s h = record {
  prepared = λ e. absurd (ground arith);
  settled = h.settled;
  fresh = λ e. absurd (ground arith);
  released = λ e. absurd (ground arith);
  disconnected = λ e. absurd (ground arith);
}
advance-IsPlaced job opened s h = record {
  prepared = λ e. absurd (ground arith);
  settled = h.settled;
  fresh = λ e. absurd (ground arith);
  released = λ e. absurd (ground arith);
  disconnected = λ e. absurd (ground arith);
}
advance-IsPlaced job listening s h = record {
  prepared = λ e. absurd (ground arith);
  settled = h.settled;
  fresh = λ e. absurd (ground arith);
  released = λ e. absurd (ground arith);
  disconnected = λ e. absurd (ground arith);
}
advance-IsPlaced job (selected b) s h = record {
  prepared = λ e. refl;
  settled = λ e. refl;
  fresh = λ e. absurd (ground arith);
  released = λ e. absurd (ground arith);
  disconnected = λ e. absurd (ground arith);
}
advance-IsPlaced job (announced b) s h = record {
  prepared = h.prepared;
  settled = h.settled;
  fresh = λ e. absurd (ground arith);
  released = λ e. absurd (ground arith);
  disconnected = λ e. absurd (ground arith);
}
advance-IsPlaced job told s h = record {
  prepared = h.prepared;
  settled = λ e. h.prepared refl;
  fresh = λ e. absurd (ground arith);
  released = λ e. absurd (ground arith);
  disconnected = λ e. absurd (ground arith);
}
advance-IsPlaced job signalled s h = record {
  prepared = λ e. h.prepared refl;
  settled = h.settled;
  fresh = λ e. absurd (ground arith);
  released = λ e. absurd (ground arith);
  disconnected = λ e. absurd (ground arith);
}
advance-IsPlaced job looping s h = record {
  prepared = λ e. h.prepared refl;
  settled = h.settled;
  fresh = λ e. absurd (ground arith);
  released = λ e. absurd (ground arith);
  disconnected = λ e. absurd (ground arith);
}
advance-IsPlaced job polling s h = record {
  prepared = λ e. h.prepared refl;
  settled = h.settled;
  fresh = λ e. absurd (ground arith);
  released = λ e. absurd (ground arith);
  disconnected = λ e. absurd (ground arith);
}
advance-IsPlaced job leaving s h = record {
  prepared = h.prepared;
  settled = h.settled;
  fresh = λ e. absurd (ground arith);
  released = λ e. refl;
  disconnected = λ e. absurd (ground arith);
}
advance-IsPlaced job closing s h = record {
  prepared = h.prepared;
  settled = λ e. h.prepared refl;
  fresh = λ e. absurd (ground arith);
  released = h.released;
  disconnected = λ e. refl;
}
advance-IsPlaced job ended s h = record {
  prepared = h.prepared;
  settled = h.settled;
  fresh = λ e. absurd (ground arith);
  released = h.released;
  disconnected = h.disconnected;
}

pub advance-IsSupervised : (job : ℕ) (s : Monitor) → IsSupervised s → IsSupervised (advance job s)
advance-IsSupervised job s h =
    let (same_stopped, same_setup, same_end, same_caller) = advance-keeps job s.place s refl in
    record {
      placed = advance-IsPlaced job s.place s h.placed;
      orderly =
          ap (λ c. is_orderly c (advance job s)) same_caller
          ∙ is_orderly-keeps s.caller s (advance job s) same_stopped same_setup same_end h.orderly;
    }

-- A step of the caller leaves the thread as it was.
pub caller-IsPlaced :
    (s : Monitor) (c : Caller) (b : Bool)
    → IsPlaced s.place s
    → IsPlaced s.place (record s { stopped = b; caller = c })
caller-IsPlaced s c b h = record {
  prepared = h.prepared;
  settled = h.settled;
  fresh = h.fresh;
  released = h.released;
  disconnected = h.disconnected;
}

pub error-settled : (s : Monitor) (e : String) → is_settled (record_monitor_error e s) ≡ true
error-settled s e = rw (is_some-first s.error e) (ground arith)

pub error-IsPlaced :
    (s : Monitor) (e : String) (c : Caller) (b : Bool)
    → IsPlaced s.place s
    → IsPlaced s.place (record (record_monitor_error e s) { stopped = b; caller = c })
error-IsPlaced s e c b h = record {
  prepared = λ i. error-settled s e;
  settled = λ i. error-settled s e;
  fresh = h.fresh;
  released = h.released;
  disconnected = h.disconnected;
}
