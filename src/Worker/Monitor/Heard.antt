-- ===== src/Worker/Monitor/Heard.antt =====
-- What makes the monitor's thread see a cancellation, at each of its places.
pub mod Steps
use mathlib.Core.Path.{subst}
use case_fullstack_senior.Prelude.{
  ℕ, String, Bool, true, false, ◌&&◌, ◌||◌, ◌≡◌, refl, sym, ◌∙◌, some, List, [], ◌∷◌, ◌++◌, ◌==◌,
  if◌then◌else◌, any, inl, inr, Bool-cases, arith,
}
use case_fullstack_senior.Worker.Monitor.{
  Place, connecting, opened, listening, selected, announced, told, signalled, looping, polling,
  leaving, closing, ended, fatal_error, Caller, inside, forcing, finished, Monitor, initial,
  cancellation_arrived, record_monitor_error, advance_at, fail, commit_cancellation, commit_other,
  on_ready, on_startup_timeout, give_up, Step, thread, fault, connection, release, is_connecting,
  connect, leave, Release, released, undrained, still_listening, cancellation, notification, woken,
  late, body_end, join, join_late, stuck, Reach, here, next,
}

-- Whether a notification of the job is waiting.
abbrev pub has_payload : ℕ → List ℕ → Bool
has_payload job inbox = any (λ k. k == job) inbox

-- What makes the thread see a cancellation of the row, at each place.
abbrev pub covered : ℕ → Place → Monitor → Bool
covered job connecting s = true
covered job opened s = true
covered job listening s = s.subscribed
covered job (selected b) s = s.subscribed && (b || s.token || has_payload job s.inbox)
covered job (announced b) s = s.subscribed && (b || s.token || has_payload job s.inbox)
covered job told s = s.subscribed && (s.token || has_payload job s.inbox)
covered job signalled s = s.subscribed && (s.token || has_payload job s.inbox)
covered job looping s = s.subscribed && (s.token || has_payload job s.inbox)
covered job polling s = s.subscribed && (s.token || has_payload job s.inbox)
covered job leaving s = s.token || s.stopped
covered job closing s = s.token || s.stopped
covered job ended s = s.token || s.stopped

-- The places at which the connection listens.
abbrev pub is_listening : Place → Bool
is_listening connecting = false
is_listening opened = false
is_listening leaving = false
is_listening closing = false
is_listening ended = false
is_listening _ = true

-- The places after the loop
abbrev pub is_past : Place → Bool
is_past leaving = true
is_past closing = true
is_past ended = true
is_past _ = false

-- A thread that listens is subscribed, one that has left its loop was told or stopped, and one whose
-- job's row is cancelled is covered.
pub record IsHeardAt (job : ℕ) (p : Place) (s : Monitor) : Type 0 where
  pub listens : is_listening p ≡ true → s.subscribed ≡ true
  pub past : is_past p ≡ true → (s.token || s.stopped) ≡ true
  pub covers : s.row_cancelled ≡ true → covered job p s ≡ true

abbrev pub IsHeard : ℕ → Monitor → Type 0
IsHeard job s = IsHeardAt job s.place s

pub has_payload-arrived :
    (job : ℕ) (inbox : List ℕ) → (cancellation_arrived job inbox).0 ≡ has_payload job inbox
unfolding cancellation_arrived
has_payload-arrived job [] = refl
has_payload-arrived job (k ∷ inbox) = let rest = has_payload-arrived job inbox in ground arith

pub has_payload-append :
    (job : ℕ) (inbox : List ℕ) (k : ℕ)
    → has_payload job (inbox ++ k ∷ []) ≡ (has_payload job inbox || k == job)
has_payload-append job [] k = ground arith
has_payload-append job (i ∷ inbox) k = let rest = has_payload-append job inbox k in ground arith

pub advance-IsHeard :
    (job : ℕ) (p : Place) (s : Monitor) → IsHeardAt job p s → IsHeard job (advance_at job p s)
unfolding advance_at connect leave
advance-IsHeard job connecting s h = record {
  listens = λ e. absurd (ground arith);
  past = λ e. absurd (ground arith);
  covers = λ e. refl;
}
advance-IsHeard job opened s h = record {
  listens = λ e. refl;
  past = λ e. absurd (ground arith);
  covers = λ e. refl;
}
advance-IsHeard job listening s h =
    let on = h.listens refl in
    record { listens = λ e. on; past = λ e. absurd (ground arith); covers = λ e. rw (on, e) refl }
advance-IsHeard job (selected b) s h = record {
  listens = h.listens;
  past = λ e. absurd (ground arith);
  covers = h.covers;
}
advance-IsHeard job (announced b) s h = record {
  listens = h.listens;
  past = λ e. absurd (ground arith);
  covers = λ e. ground (arith, h.covers e);
}
advance-IsHeard job told s h = record {
  listens = h.listens;
  past = λ e. absurd (ground arith);
  covers = h.covers;
}
advance-IsHeard job signalled s h = elim (Bool-cases s.token) [
  | inl set ↦
      rw set record { listens = λ e. absurd (ground arith); past = λ e. refl; covers = λ e. refl }
  | inr clear ↦ rw clear record {
    listens = h.listens;
    past = λ e. absurd (ground arith);
    covers = λ e. let c = h.covers e in ground arith;
  }
]
advance-IsHeard job looping s h = elim (Bool-cases s.stopped) [
  | inl set ↦ rw set record {
    listens = λ e. absurd (ground arith);
    past = λ e. ground arith;
    covers = λ e. ground arith;
  }
  | inr clear ↦
      rw clear record { listens = h.listens; past = λ e. absurd (ground arith); covers = h.covers }
]
advance-IsHeard job polling s h = elim (Bool-cases (cancellation_arrived job s.inbox).0) [
  | inl arrived ↦
      rw arrived
        record { listens = λ e. absurd (ground arith); past = λ e. refl; covers = λ e. refl }
  | inr quiet ↦
      let none_waits = sym (has_payload-arrived job s.inbox) ∙ quiet in
      rw quiet record {
        listens = h.listens;
        past = λ e. absurd (ground arith);
        covers = λ e. let c = h.covers e in ground arith;
      }
]
advance-IsHeard job leaving s h = record {
  listens = λ e. absurd (ground arith);
  past = h.past;
  covers = λ e. h.past refl;
}
advance-IsHeard job closing s h = record {
  listens = λ e. absurd (ground arith);
  past = h.past;
  covers = λ e. h.past refl;
}
advance-IsHeard job ended s h = record {
  listens = λ e. absurd (ground arith);
  past = h.past;
  covers = λ e. h.past refl;
}

pub covered-cancellation :
    (job : ℕ) (p : Place) (s : Monitor)
    → IsHeardAt job p s
    → covered job p (commit_cancellation job s) ≡ true
unfolding commit_cancellation
covered-cancellation job connecting s h = refl
covered-cancellation job opened s h = refl
covered-cancellation job listening s h = h.listens refl
covered-cancellation job (selected b) s h =
    let on = h.listens refl in let new = has_payload-append job s.inbox job in ground arith
covered-cancellation job (announced b) s h =
    let on = h.listens refl in let new = has_payload-append job s.inbox job in ground arith
covered-cancellation job told s h =
    let on = h.listens refl in let new = has_payload-append job s.inbox job in ground arith
covered-cancellation job signalled s h =
    let on = h.listens refl in let new = has_payload-append job s.inbox job in ground arith
covered-cancellation job looping s h =
    let on = h.listens refl in let new = has_payload-append job s.inbox job in ground arith
covered-cancellation job polling s h =
    let on = h.listens refl in let new = has_payload-append job s.inbox job in ground arith
covered-cancellation job leaving s h = h.past refl
covered-cancellation job closing s h = h.past refl
covered-cancellation job ended s h = h.past refl

-- What holds of both branches, each in its case, holds of the choice.
pub either-holds :
    (P : Monitor → Type 0) (b : Bool) {t u : Monitor}
    → (b ≡ true → P t)
    → (b ≡ false → P u)
    → P (if b then t else u)
either-holds P true t u = t refl
either-holds P false t u = u refl

-- An exception before the thread has a connection, and one after it has
pub fail-holds :
    (P : Monitor → Type 0) (e : String) (r : Release) (s : Monitor)
    → P (record_monitor_error e (leave r s))
    → (is_connecting s.place ≡ true → P (record_monitor_error e (record s { place = closing })))
    → P (fail e r s)
unfolding fail
fail-holds P e r s h h' =
    either-holds (λ t. P (record_monitor_error e t)) (is_connecting s.place) h' (λ _. h)
