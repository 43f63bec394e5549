-- ===== src/Worker/Monitor/Liveness.antt =====
-- The actions of the monitor's thread that it takes to notice a cancelled row.
use case_fullstack_senior.Prelude.{
  ℕ, zero, suc, Bool, true, false, ◌||◌, ◌≡◌, refl, ap, ◌∙◌, ◌≤◌, if◌then◌else◌, inl, inr,
  Bool-cases, arith,
}
use case_fullstack_senior.Worker.Monitor.{
  connect, leave, Place, connecting, opened, listening, selected, announced, told, signalled,
  looping, polling, leaving, closing, ended, Monitor, initial, advance_at, advance, Reach,
}
use case_fullstack_senior.Worker.Monitor.Heard.{has_payload, IsHeardAt, has_payload-arrived}
use case_fullstack_senior.Worker.Monitor.Heard.Steps.{initial-IsHeard, Reach-IsHeard}

-- n actions of the thread
abbrev pub run : ℕ → ℕ → Monitor → Monitor
run job zero s = s
run job (suc n) s = run job n (advance job s)

-- The action at a place and at most some more set the token.
abbrev Notices : ℕ → ℕ → Place → Monitor → Type 0
Notices job bound p s = (n : ℕ) × (n ≤ bound) × ((run job n (advance_at job p s)).token ≡ true)

-- The action at a place leads to a state whose next actions set the token.
after :
    (job bound : ℕ) (p : Place) (s t : Monitor)
    → advance_at job p s ≡ t
    → Notices job bound t.place t
    → Notices job (suc bound) p s
after job bound p s t moves (n, small, set) =
    (suc n, omega arith, ap (λ u. (run job (suc n) u).token) moves ∙ set)

-- The actions that set the token once a notification waits, or the SELECT has found the row.
seen :
    (job : ℕ) (s : Monitor)
    → s.stopped ≡ false
    → (s.token || has_payload job s.inbox) ≡ true
    → Notices job 0 polling s × Notices job 1 looping s
unfolding advance_at connect leave
seen job s runs waits =
    let poll : (u : Monitor)
        → (u.token || has_payload job u.inbox) ≡ true
        → Notices job 0 polling u =
      λ u w.
        (0, omega arith, ap (λ b. b || u.token) (has_payload-arrived job u.inbox) ∙ ground arith) in
    (
      poll s waits,
      after job 0 looping s (record s { place = polling })
          (ap (λ b. record s { place = if b then leaving else polling }) runs)
          (poll (record s { place = polling }) waits),
    )

signalled-Notices :
    (job : ℕ) (s : Monitor)
    → s.stopped ≡ false
    → (s.token || has_payload job s.inbox) ≡ true
    → Notices job 2 signalled s
unfolding advance_at connect leave
signalled-Notices job s runs waits = elim (Bool-cases s.token) [
  | inl set ↦ (0, omega arith, set)
  | inr clear ↦
      after job 1 signalled s (record s { place = looping })
        (ap (λ b. record s { place = if b then leaving else looping }) clear)
        (seen job (record s { place = looping }) runs waits).1
]

told-Notices :
    (job : ℕ) (s : Monitor)
    → s.stopped ≡ false
    → (s.token || has_payload job s.inbox) ≡ true
    → Notices job 3 told s
unfolding advance_at connect leave
told-Notices job s runs waits =
    after job 2 told s _ refl
      (signalled-Notices job (record s { place = signalled; ready = true }) runs waits)

announced-Notices :
    (job : ℕ) (b : Bool) (s : Monitor)
    → s.stopped ≡ false
    → (b || s.token || has_payload job s.inbox) ≡ true
    → Notices job 4 (announced b) s
unfolding advance_at connect leave
announced-Notices job b s runs waits =
    after job 3 (announced b) s _ refl
      (told-Notices job (record s { place = told; token = b || s.token }) runs (ground arith))

-- A cancelled row is noticed after the SELECT, or by it.
noticed :
    (job : ℕ) (p : Place) (s : Monitor)
    → IsHeardAt job p s
    → s.row_cancelled ≡ true
    → s.stopped ≡ false
    → Notices job 5 p s
unfolding advance_at connect leave
noticed job connecting s h c o = (4, omega arith, rw c refl)
noticed job opened s h c o = (3, omega arith, rw c refl)
noticed job listening s h c o = (2, omega arith, rw c refl)
noticed job (selected b) s h c o =
    let waits = h.covers c in
    after job 4 (selected b) s _ refl (
      announced-Notices job b (record s { place = announced b; setup_succeeded = true }) o
        (ground arith))
noticed job (announced b) s h c o =
    let waits = h.covers c in
    let (n, small, set) = announced-Notices job b s o (ground arith) in (n, omega arith, set)
noticed job told s h c o =
    let waits = h.covers c in
    let (n, small, set) = told-Notices job s o (ground arith) in (n, omega arith, set)
noticed job signalled s h c o =
    let waits = h.covers c in
    let (n, small, set) = signalled-Notices job s o (ground arith) in (n, omega arith, set)
noticed job looping s h c o =
    let waits = h.covers c in
    let (n, small, set) = (seen job s o (ground arith)).1 in (n, omega arith, set)
noticed job polling s h c o =
    let waits = h.covers c in
    let (n, small, set) = (seen job s o (ground arith)).0 in (n, omega arith, set)
noticed job leaving s h c o = let waits = h.covers c in (0, omega arith, ground arith)
noticed job closing s h c o = let waits = h.covers c in (0, omega arith, ground arith)
noticed job ended s h c o = let waits = h.covers c in (0, omega arith, ground arith)

-- If the monitor of a job has reached a state, by any interleaving of its thread, its caller, its
-- failures and the cancelling transactions, in which the job's row is cancelled and the caller
-- has not stopped the thread, then at most six actions of the thread set the token: a
-- cancellation is noticed whenever it commits, also between the LISTEN and the SELECT.
pub Reach-noticed :
    {job : ℕ} {cancelled : Bool} {s : Monitor}
    → Reach job (initial cancelled) s
    → s.row_cancelled ≡ true
    → s.stopped ≡ false
    → (n : ℕ) × (n ≤ 6) × ((run job n s).token ≡ true)
Reach-noticed {job} {cancelled} {s} r c o =
    let (n, small, set) =
      noticed job s.place s (Reach-IsHeard (initial-IsHeard job cancelled) r) c o in
    (suc n, omega arith, set)
