-- ===== src/Worker/Monitor/Supervised.antt =====
-- Every step of the monitor keeps its thread and its caller in order.
use case_fullstack_senior.Prelude.{
  ℕ, String, Bool, true, false, not, ◌&&◌, ◌≡◌, refl, ap, sym, ◌∙◌, some, List, [], inl, inr, arith,
}
use case_fullstack_senior.Worker.Monitor.{
  Place, leaving, closing, ended, fatal_error, Caller, inside, joining, forcing, finished, Monitor,
  initial, record_monitor_error, is_fallible, commit_cancellation, commit_other, on_ready,
  on_startup_timeout, give_up, Step, thread, fault, connection, release, connect, leave, Release,
  released, undrained, still_listening, cancellation, notification, woken, late, body_end, join,
  join_late, stuck, Reach, here, next,
}
use case_fullstack_senior.Worker.Monitor.Heard.{either-holds, fail-holds}
use case_fullstack_senior.Worker.Monitor.Placed.{
  is_ended, is_caused, is_orderly, IsSupervised, is_orderly-keeps, advance-IsSupervised,
  caller-IsPlaced, error-settled, error-IsPlaced,
}

pub fallible_running : (p : Place) → is_fallible p ≡ true → is_ended p ≡ true → ⊥
fallible_running ended f e = absurd (ground arith)
fallible_running _ f e = absurd (ground arith)

pub orderly_at : (s : Monitor) (c : Caller) → IsSupervised s → s.caller ≡ c → is_orderly c s ≡ true
orderly_at s c h at = ap (λ d. is_orderly d s) (sym at) ∙ h.orderly

pub ended_at : (p : Place) → p ≡ ended → is_ended p ≡ true
ended_at p e = ap is_ended e

-- The connection after `_release_listen`
abbrev pub left : Bool → List ℕ → Bool → Monitor → Monitor
left listens inbox failed s = record s {
  place = closing;
  subscribed = listens;
  inbox = inbox;
  release_failed = failed;
}

pub left-IsSupervised :
    (listens : Bool) (inbox : List ℕ) (failed : Bool) (s : Monitor)
    → (listens && not failed) ≡ false
    → s.place ≡ leaving
    → IsSupervised s
    → IsSupervised (left listens inbox failed s)
left-IsSupervised listens inbox failed s calm at h = record {
  placed = record {
    prepared = λ e. h.placed.prepared (rw at refl);
    settled = h.placed.settled;
    fresh = λ e. absurd (ground arith);
    released = λ e. calm;
    disconnected = λ e. absurd (ground arith);
  };
  orderly =
      is_orderly-keeps s.caller s (left listens inbox failed s) refl (λ i. i)
        (λ i. absurd (fallible_running s.place (rw at refl) i)) h.orderly;
}

pub left-error-IsSupervised :
    (listens : Bool) (inbox : List ℕ) (failed : Bool) (s : Monitor) (e : String)
    → (listens && not failed) ≡ false
    → is_fallible s.place ≡ true
    → IsSupervised s
    → IsSupervised (record_monitor_error e (left listens inbox failed s))
left-error-IsSupervised listens inbox failed s e calm at h = record {
  placed = record {
    prepared = λ i. error-settled s e;
    settled = λ i. error-settled s e;
    fresh = λ i. absurd (ground arith);
    released = λ i. calm;
    disconnected = λ i. absurd (ground arith);
  };
  orderly =
      is_orderly-keeps s.caller s (record_monitor_error e (left listens inbox failed s)) refl
        (λ i. i) (λ i. absurd (fallible_running s.place at i)) h.orderly;
}

pub leave-IsSupervised :
    (r : Release) (s : Monitor) → s.place ≡ leaving → IsSupervised s → IsSupervised (leave r s)
unfolding leave
leave-IsSupervised released s = left-IsSupervised false [] s.release_failed s refl
leave-IsSupervised undrained s = left-IsSupervised false s.inbox true s refl
leave-IsSupervised still_listening s = left-IsSupervised s.subscribed s.inbox true s (ground arith)

pub failed-IsSupervised :
    (r : Release) (s : Monitor) (e : String)
    → is_fallible s.place ≡ true
    → IsSupervised s
    → IsSupervised (record_monitor_error e (leave r s))
unfolding leave
failed-IsSupervised released s e = left-error-IsSupervised false [] s.release_failed s e refl
failed-IsSupervised undrained s e = left-error-IsSupervised false s.inbox true s e refl
failed-IsSupervised still_listening s e =
    left-error-IsSupervised s.subscribed s.inbox true s e (ground arith)

pub Step-IsSupervised : {job : ℕ} {s t : Monitor} → Step job s t → IsSupervised s → IsSupervised t
unfolding connect commit_cancellation commit_other on_ready on_startup_timeout give_up
Step-IsSupervised {job} {s} thread h = advance-IsSupervised job s h
Step-IsSupervised {job} {s} (connection c at news) h = record {
  placed = record {
    prepared = λ e. absurd (ground arith);
    settled = h.placed.settled;
    fresh = λ e. absurd (ground arith);
    released = λ e. absurd (ground arith);
    disconnected = λ e. absurd (ground arith);
  };
  orderly =
      is_orderly-keeps s.caller s (connect c s) refl (λ i. i) (λ i. absurd (ground arith))
        h.orderly;
}
Step-IsSupervised {job} {s} (release r at) h = leave-IsSupervised r s at h
Step-IsSupervised {job} {s} (fault e r at) h =
    fail-holds IsSupervised e r s (failed-IsSupervised r s e at h) (λ first. record {
      placed = record {
        prepared = λ i. error-settled s e;
        settled = λ i. error-settled s e;
        fresh = λ i. absurd (ground arith);
        released = λ i. let quiet = h.placed.fresh first in ground arith;
        disconnected = λ i. absurd (ground arith);
      };
      orderly =
          is_orderly-keeps s.caller s _ refl (λ i. i) (λ i. absurd (fallible_running s.place at i))
            h.orderly;
    })
Step-IsSupervised {job} {s} cancellation h = record {
  placed = record {
    prepared = h.placed.prepared;
    settled = h.placed.settled;
    fresh = h.placed.fresh;
    released = h.placed.released;
    disconnected = h.placed.disconnected;
  };
  orderly =
      is_orderly-keeps s.caller s (commit_cancellation job s) refl (λ i. i) (λ i. i) h.orderly;
}
Step-IsSupervised {job} {s} (notification k apart) h = record {
  placed = record {
    prepared = h.placed.prepared;
    settled = h.placed.settled;
    fresh = h.placed.fresh;
    released = h.placed.released;
    disconnected = h.placed.disconnected;
  };
  orderly = is_orderly-keeps s.caller s (commit_other k s) refl (λ i. i) (λ i. i) h.orderly;
}
Step-IsSupervised {job} {s} (woken at set) h =
    either-holds IsSupervised s.setup_succeeded
      (λ done. record { placed = caller-IsPlaced s inside s.stopped h.placed; orderly = done })
      (λ failed. record {
        placed = caller-IsPlaced s _ true h.placed;
        orderly = let e = h.placed.settled set in ground arith;
      })
Step-IsSupervised {job} {s} (late e at unset) h = record {
  placed = error-IsPlaced s e _ true h.placed;
  orderly = refl;
}
Step-IsSupervised {job} {s} (body_end at) h = record {
  placed = caller-IsPlaced s _ true h.placed;
  orderly = refl;
}
Step-IsSupervised {job} {s} (join r at end) h =
    let o : (s.stopped && is_caused r) ≡ true = elim at [
      | inl first ↦ orderly_at s (joining r) h first
      | inr second ↦ orderly_at s (forcing r) h second
    ] in
    let e = ended_at s.place end in
    record { placed = caller-IsPlaced s (finished r) s.stopped h.placed; orderly = ground arith }
Step-IsSupervised {job} {s} (join_late r at end) h = record {
  placed = caller-IsPlaced s (forcing r) s.stopped h.placed;
  orderly = orderly_at s (joining r) h at;
}
Step-IsSupervised {job} {s} (stuck e r at end) h =
    let o : (s.stopped && is_caused r) ≡ true = orderly_at s (forcing r) h at in
    record {
      placed = error-IsPlaced s e (finished (some fatal_error)) s.stopped h.placed;
      orderly = ground arith;
    }

pub initial-IsSupervised : (cancelled : Bool) → IsSupervised (initial cancelled)
initial-IsSupervised cancelled = record {
  placed = record {
    prepared = λ e. absurd (ground arith);
    settled = λ e. absurd (ground arith);
    fresh = λ e. refl;
    released = λ e. absurd (ground arith);
    disconnected = λ e. absurd (ground arith);
  };
  orderly = refl;
}

pub Reach-IsSupervised :
    {job : ℕ} {cancelled : Bool} {s : Monitor} → Reach job (initial cancelled) s → IsSupervised s
Reach-IsSupervised here = initial-IsSupervised _
Reach-IsSupervised (next r step) = Step-IsSupervised step (Reach-IsSupervised r)
