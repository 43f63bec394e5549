-- ===== src/Worker/Monitor/Heard/Steps.antt =====
-- Every step of the monitor keeps a cancellation heard.
use mathlib.Core.Path.{subst}
use case_fullstack_senior.Prelude.{ℕ, String, Bool, true, ◌≡◌, refl, sym, ◌∙◌, some, arith}
use case_fullstack_senior.Worker.Monitor.{
  Place, connecting, opened, listening, selected, announced, told, signalled, looping, polling,
  leaving, closing, ended, fatal_error, Caller, inside, forcing, finished, Monitor, initial,
  record_monitor_error, fail, commit_cancellation, commit_other, on_ready, on_startup_timeout,
  give_up, Step, thread, fault, connection, release, connect, leave, Release, released, undrained,
  still_listening, cancellation, notification, woken, late, body_end, join, join_late, stuck, Reach,
  here, next,
}
use case_fullstack_senior.Worker.Monitor.Heard.{
  has_payload, covered, IsHeardAt, IsHeard, has_payload-append, advance-IsHeard,
  covered-cancellation, either-holds, fail-holds,
}

-- What a step that leaves the thread where it is may change: more is set, and more has arrived.
record IsMore (job : ℕ) (s t : Monitor) : Type 0 where
  pub same_row : t.row_cancelled ≡ s.row_cancelled
  pub same_subscribed : t.subscribed ≡ s.subscribed
  pub token_set : s.token ≡ true → t.token ≡ true
  pub stopped_set : s.stopped ≡ true → t.stopped ≡ true
  pub arrived : has_payload job s.inbox ≡ true → has_payload job t.inbox ≡ true

covered-more :
    (job : ℕ) (p : Place) (s t : Monitor)
    → IsMore job s t
    → covered job p s ≡ true
    → covered job p t ≡ true
covered-more job connecting s t m c = refl
covered-more job opened s t m c = refl
covered-more job listening s t m c = m.same_subscribed ∙ c
covered-more job (selected b) s t m c = ground (arith, m.same_subscribed, m.token_set, m.arrived)
covered-more job (announced b) s t m c = ground (arith, m.same_subscribed, m.token_set, m.arrived)
covered-more job told s t m c = ground (arith, m.same_subscribed, m.token_set, m.arrived)
covered-more job signalled s t m c = ground (arith, m.same_subscribed, m.token_set, m.arrived)
covered-more job looping s t m c = ground (arith, m.same_subscribed, m.token_set, m.arrived)
covered-more job polling s t m c = ground (arith, m.same_subscribed, m.token_set, m.arrived)
covered-more job leaving s t m c = ground (arith, m.token_set, m.stopped_set)
covered-more job closing s t m c = ground (arith, m.token_set, m.stopped_set)
covered-more job ended s t m c = ground (arith, m.token_set, m.stopped_set)

more-IsHeard :
    (job : ℕ) (p : Place) (s t : Monitor) → IsMore job s t → IsHeardAt job p s → IsHeardAt job p t
more-IsHeard job p s t m h = record {
  listens = λ e. m.same_subscribed ∙ h.listens e;
  past = λ e. let o = h.past e in ground (arith, m.token_set, m.stopped_set);
  covers = λ e. covered-more job p s t m (h.covers (sym m.same_row ∙ e));
}

failed-IsHeard : (job : ℕ) (e : String) (r : Release) (s : Monitor) → IsHeard job (fail e r s)
unfolding leave
failed-IsHeard job e r s =
    fail-holds (IsHeard job) e r s
      (record { listens = λ i. absurd (ground arith); past = λ i. refl; covers = λ i. refl })
      (λ _. record { listens = λ i. absurd (ground arith); past = λ i. refl; covers = λ i. refl })

-- The thread keeps what it was told when it leaves.
leave-IsHeard :
    (job : ℕ) (r : Release) (s : Monitor) → IsHeardAt job leaving s → IsHeard job (leave r s)
unfolding leave
leave-IsHeard job released s h = record {
  listens = λ e. absurd (ground arith);
  past = h.past;
  covers = λ e. h.past refl;
}
leave-IsHeard job undrained s h = record {
  listens = λ e. absurd (ground arith);
  past = h.past;
  covers = λ e. h.past refl;
}
leave-IsHeard job still_listening s h = record {
  listens = λ e. absurd (ground arith);
  past = h.past;
  covers = λ e. h.past refl;
}

-- The steps of the caller
caller-IsMore :
    (job : ℕ) (s : Monitor) (c : Caller) (b : Bool)
    → (s.stopped ≡ true → b ≡ true)
    → IsMore job s (record s { stopped = b; caller = c })
caller-IsMore job s c b set = record {
  same_row = refl;
  same_subscribed = refl;
  token_set = λ e. e;
  stopped_set = set;
  arrived = λ e. e;
}

error-IsMore :
    (job : ℕ) (s : Monitor) (e : String) (c : Caller) (b : Bool)
    → (s.stopped ≡ true → b ≡ true)
    → IsMore job s (record (record_monitor_error e s) { stopped = b; caller = c })
error-IsMore job s e c b set = record {
  same_row = refl;
  same_subscribed = refl;
  token_set = λ i. refl;
  stopped_set = set;
  arrived = λ i. i;
}

Step-IsHeard : {job : ℕ} {s t : Monitor} → Step job s t → IsHeard job s → IsHeard job t
unfolding connect commit_cancellation commit_other on_ready on_startup_timeout give_up
Step-IsHeard {job} {s} thread h = advance-IsHeard job s.place s h
Step-IsHeard {job} {s} (connection c at news) h = record {
  listens = λ e. absurd (ground arith);
  past = λ e. absurd (ground arith);
  covers = λ e. refl;
}
Step-IsHeard {job} {s} (release r at) h =
    leave-IsHeard job r s (subst (λ p. IsHeardAt job p s) at h)
Step-IsHeard {job} {s} (fault e r at) h = failed-IsHeard job e r s
Step-IsHeard {job} {s} cancellation h = record {
  listens = h.listens;
  past = h.past;
  covers = λ e. covered-cancellation job s.place s h;
}
Step-IsHeard {job} {s} (notification k apart) h =
    more-IsHeard job s.place s (commit_other k s)
      (record {
        same_row = refl;
        same_subscribed = refl;
        token_set = λ e. e;
        stopped_set = λ e. e;
        arrived = λ e. let new = has_payload-append job s.inbox k in ground arith;
      })
      h
Step-IsHeard {job} {s} (woken at set) h =
    either-holds (IsHeard job) s.setup_succeeded
      (λ _. more-IsHeard job s.place s _ (caller-IsMore job s inside s.stopped (λ e. e)) h)
      (λ _. more-IsHeard job s.place s _ (caller-IsMore job s _ true (λ e. refl)) h)
Step-IsHeard {job} {s} (late e at unset) h =
    more-IsHeard job s.place s _ (error-IsMore job s e _ true (λ i. refl)) h
Step-IsHeard {job} {s} (body_end at) h =
    more-IsHeard job s.place s _ (caller-IsMore job s _ true (λ e. refl)) h
Step-IsHeard {job} {s} (join r at end) h =
    more-IsHeard job s.place s _ (caller-IsMore job s (finished r) s.stopped (λ e. e)) h
Step-IsHeard {job} {s} (join_late r at end) h =
    more-IsHeard job s.place s _ (caller-IsMore job s (forcing r) s.stopped (λ e. e)) h
Step-IsHeard {job} {s} (stuck e r at end) h =
    more-IsHeard job s.place s _
      (error-IsMore job s e (finished (some fatal_error)) s.stopped (λ i. i)) h

pub initial-IsHeard : (job : ℕ) (cancelled : Bool) → IsHeard job (initial cancelled)
initial-IsHeard job cancelled = record {
  listens = λ e. absurd (ground arith);
  past = λ e. absurd (ground arith);
  covers = λ e. refl;
}

pub Reach-IsHeard : {job : ℕ} {s t : Monitor} → IsHeard job s → Reach job s t → IsHeard job t
Reach-IsHeard h here = h
Reach-IsHeard h (next r step) = Step-IsHeard step (Reach-IsHeard h r)
