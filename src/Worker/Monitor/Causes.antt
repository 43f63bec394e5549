-- ===== src/Worker/Monitor/Causes.antt =====
-- What the monitor's thread finds is a cancellation of the row.
use case_fullstack_senior.Prelude.{ℕ, Bool, true, false, ◌≡◌, refl, List, [], ◌∷◌, arith}
use case_fullstack_senior.Worker.Monitor.{
  Place, connecting, opened, listening, selected, announced, told, signalled, looping, polling,
  leaving, closing, ended, Monitor, cancellation_arrived, advance_at, commit_cancellation,
  commit_other, on_ready, on_startup_timeout, give_up, Step, thread, fault, connection, release,
  connect, leave, Release, released, undrained, still_listening, cancellation, notification, woken,
  late, body_end, join, join_late, stuck, Reach, here, next,
}
use case_fullstack_senior.Worker.Monitor.Heard.{
  has_payload, has_payload-append, either-holds, fail-holds,
}

-- What the SELECT has found
abbrev pub found : Place → Bool
found (selected b) = b
found (announced b) = b
found _ = false

-- Only a cancelled row is found by the SELECT and announced by a notification.
pub record IsTrue (job : ℕ) (s : Monitor) : Type 0 where
  pub select_true : found s.place ≡ true → s.row_cancelled ≡ true
  pub inbox_true : has_payload job s.inbox ≡ true → s.row_cancelled ≡ true

module _ (job : ℕ) where
  rest-has_payload :
      (inbox : List ℕ)
      → has_payload job (cancellation_arrived job inbox).1 ≡ true
      → has_payload job inbox ≡ true
  unfolding cancellation_arrived
  rest-has_payload [] e = e
  rest-has_payload (k ∷ inbox) e = let rest = rest-has_payload inbox in ground (arith, rest)

  advance-IsTrue :
      (p : Place) (s : Monitor) → s.place ≡ p → IsTrue job s → IsTrue job (advance_at job p s)
  unfolding advance_at connect leave
  advance-IsTrue connecting s at h = record {
    select_true = λ e. absurd (ground arith);
    inbox_true = λ e. absurd (ground arith);
  }
  advance-IsTrue opened s at h = record {
    select_true = λ e. absurd (ground arith);
    inbox_true = h.inbox_true;
  }
  advance-IsTrue listening s at h = record { select_true = λ e. e; inbox_true = h.inbox_true }
  advance-IsTrue (selected b) s at h = record {
    select_true = λ e. h.select_true (rw at e);
    inbox_true = h.inbox_true;
  }
  advance-IsTrue (announced b) s at h = record {
    select_true = λ e. absurd (ground arith);
    inbox_true = h.inbox_true;
  }
  advance-IsTrue told s at h = record {
    select_true = λ e. absurd (ground arith);
    inbox_true = h.inbox_true;
  }
  advance-IsTrue signalled s at h = record {
    select_true = λ e. absurd (ground arith);
    inbox_true = h.inbox_true;
  }
  advance-IsTrue looping s at h = record {
    select_true = λ e. absurd (ground arith);
    inbox_true = h.inbox_true;
  }
  advance-IsTrue polling s at h = record {
    select_true = λ e. absurd (ground arith);
    inbox_true = λ e. h.inbox_true (rest-has_payload s.inbox e);
  }
  advance-IsTrue leaving s at h = record {
    select_true = λ e. absurd (ground arith);
    inbox_true = λ e. absurd (ground arith);
  }
  advance-IsTrue closing s at h = record {
    select_true = λ e. absurd (ground arith);
    inbox_true = h.inbox_true;
  }
  advance-IsTrue ended s at h = record {
    select_true = λ e. absurd (ground arith);
    inbox_true = h.inbox_true;
  }

  leave-IsClosing : (r : Release) (s : Monitor) → found (leave r s).place ≡ true → ⊥
  unfolding leave
  leave-IsClosing r s e = absurd (ground arith)

  leave-inbox_true :
      (r : Release) (s : Monitor)
      → IsTrue job s
      → has_payload job (leave r s).inbox ≡ true
      → (leave r s).row_cancelled ≡ true
  unfolding leave
  leave-inbox_true released s h e = absurd (ground arith)
  leave-inbox_true undrained s h e = h.inbox_true e
  leave-inbox_true still_listening s h e = h.inbox_true e

  Step-IsTrue : {s t : Monitor} → Step job s t → IsTrue job s → IsTrue job t
  unfolding connect commit_cancellation commit_other on_ready on_startup_timeout give_up
  Step-IsTrue {s} thread h = advance-IsTrue s.place s refl h
  Step-IsTrue {s} (connection c at news) h = record {
    select_true = λ i. absurd (ground arith);
    inbox_true = news;
  }
  Step-IsTrue {s} (release r at) h = record {
    select_true = λ i. absurd (leave-IsClosing r s i);
    inbox_true = leave-inbox_true r s h;
  }
  Step-IsTrue {s} (fault e r at) h =
      fail-holds (IsTrue job) e r s
        (record {
          select_true = λ i. absurd (leave-IsClosing r s i);
          inbox_true = leave-inbox_true r s h;
        })
        (λ _. record { select_true = λ i. absurd (ground arith); inbox_true = h.inbox_true })
  Step-IsTrue {s} cancellation h = record { select_true = λ e. refl; inbox_true = λ e. refl }
  Step-IsTrue {s} (notification k apart) h = record {
    select_true = h.select_true;
    inbox_true = λ e. let new = has_payload-append job s.inbox k in ground (arith, h.inbox_true);
  }
  Step-IsTrue {s} (woken at set) h =
      either-holds (IsTrue job) s.setup_succeeded
        (λ _. record { select_true = h.select_true; inbox_true = h.inbox_true })
        (λ _. record { select_true = h.select_true; inbox_true = h.inbox_true })
  Step-IsTrue {s} (late e at unset) h = record {
    select_true = h.select_true;
    inbox_true = h.inbox_true;
  }
  Step-IsTrue {s} (body_end at) h = record {
    select_true = h.select_true;
    inbox_true = h.inbox_true;
  }
  Step-IsTrue {s} (join r at end) h = record {
    select_true = h.select_true;
    inbox_true = h.inbox_true;
  }
  Step-IsTrue {s} (join_late r at end) h = record {
    select_true = h.select_true;
    inbox_true = h.inbox_true;
  }
  Step-IsTrue {s} (stuck e r at end) h = record {
    select_true = h.select_true;
    inbox_true = h.inbox_true;
  }

  pub Reach-IsTrue : {s t : Monitor} → IsTrue job s → Reach job s t → IsTrue job t
  Reach-IsTrue h here = h
  Reach-IsTrue h (next r step) = Step-IsTrue step (Reach-IsTrue h r)
