-- ===== src/Worker/Main/Waits.antt =====
-- The turns of a wait for work, and of a reconnection.
use case_fullstack_senior.Prelude.{
  ℕ, zero, suc, ◌-◌, ◌+◌, ◌*◌, ◌≤◌, ◌<◌, Bool, true, false, ◌⊎◌, ◌≡◌, refl, sym, ap, ◌∙◌, eq-cases,
  ◌||◌, some, ◌==◌, leb, inl, inr, Bool-cases, Option-cases, arith,
}
use case_fullstack_senior.Db.Schema.{Db}
use case_fullstack_senior.Worker.Main.{
  Turn, wait_slice, remaining, wait_for_work, Reconnection, connected, abandoned,
  reconnect_listener,
}
use case_fullstack_senior.Worker.Wait.{next_poll_timeout, seconds_until_next_attempt}

-- A wait without a notification lasts its timeout, as psycopg documents of `notifies`.
abbrev pub IsTimed : (ℕ → Turn) → ℕ → Type 0
IsTimed turns deadline =
    (i : ℕ)
    → (turns i).woken ≡ false
    → (turns i).now + remaining deadline (turns i).now ≤ (turns (suc i)).now

-- Why a wait returns what it returns, at the j-th turn.
abbrev pub Explains : (ℕ → Turn) → ℕ → ℕ → Bool → Type 0
Explains turns deadline j true = (turns j).woken ≡ true
Explains turns deadline j false = ((turns j).shutdown ≡ true) ⊎ (deadline ≤ (turns j).now)

-- A turn that ends without a notification is one slice nearer to the deadline.
nearer :
    (n deadline now next : ℕ)
    → now + remaining deadline now ≤ next
    → deadline ≤ now + suc n * wait_slice
    → deadline ≤ next + n * wait_slice
nearer n deadline now next slept near = elim (Bool-cases (leb wait_slice (deadline - now))) [
  | inl full ↦ let long : remaining deadline now ≡ wait_slice = rw full refl in omega arith
  | inr last ↦ let short : remaining deadline now ≡ deadline - now = rw last refl in omega arith
]

over : (deadline now : ℕ) → (remaining deadline now == 0) ≡ false → now < deadline
over deadline now left = ground arith

-- The wait returns, at a turn up to `last` that explains why.
abbrev pub Ends : ℕ → (ℕ → Turn) → ℕ → ℕ → ℕ → Type 0
Ends fuel turns i deadline last =
    (b : Bool) × (j : ℕ) × (wait_for_work fuel turns i deadline ≡ some b)
    × (j ≤ last)
    × Explains turns deadline j b

-- A turn ends the wait, or it waits in vain and the next turns end it.
one_turn :
    (fuel : ℕ) (turns : ℕ → Turn) (i deadline last : ℕ)
    → i ≤ last
    → ((remaining deadline (turns i).now == 0) ≡ false
        → (turns i).woken ≡ false
        → Ends fuel turns (suc i) deadline last)
    → Ends (suc fuel) turns i deadline last
unfolding wait_for_work
one_turn fuel turns i deadline last early onward = elim (Bool-cases (turns i).shutdown) [
  | inl set ↦ (false, i, rw set refl, early, inl set)
  | inr runs ↦ elim (Bool-cases (remaining deadline (turns i).now == 0)) [
    | inl past ↦ (false, i, rw (runs, past) refl, early, inr (ground arith))
    | inr left ↦ elim (Bool-cases (turns i).woken) [
      | inl woken ↦ (true, i, rw (runs, left, woken) refl, early, woken)
      | inr slept ↦
          let (b, j, e, small, why) = onward left slept in
          (b, j, rw (runs, left, slept) e, small, why)
    ]
  ]
]

wait_for_work-slices :
    (n : ℕ) (turns : ℕ → Turn) (i deadline : ℕ)
    → IsTimed turns deadline
    → deadline ≤ (turns i).now + n * wait_slice
    → Ends (suc n) turns i deadline (i + n)
wait_for_work-slices zero turns i deadline timed near =
    one_turn 0 turns i deadline (i + 0) (omega arith)
      (λ left slept. let ahead = over deadline (turns i).now left in absurd (omega arith))
wait_for_work-slices (suc n) turns i deadline timed near =
    one_turn (suc n) turns i deadline (i + suc n) (omega arith) (λ left slept.
      let (b, j, e, early, why) =
        wait_for_work-slices n turns (suc i) deadline timed
          (nearer n deadline (turns i).now (turns (suc i)).now (timed i slept) near) in
      (b, j, e, omega arith, why))

next_poll_timeout-bound : (db : Db) → next_poll_timeout db ≤ 30000000
unfolding next_poll_timeout
next_poll_timeout-bound db = elim (Option-cases (seconds_until_next_attempt db)) [
  | inl nothing ↦ rw (next_poll_timeout, nothing) (omega arith)
  | inr (pending, e) ↦ rw (next_poll_timeout, e) (ground arith)
]

-- If a wait without a notification lasts its timeout, then the wait of an idle worker, whose
-- deadline is its poll timeout after its start, returns within 31 turns of one second: with True
-- at a turn that a notification ended, or with False at a turn that found the shutdown set or the
-- deadline past.
pub wait_for_work-ends :
    (turns : ℕ → Turn) (db : Db) (start : ℕ)
    → start ≤ (turns 0).now
    → IsTimed turns (start + next_poll_timeout db)
    → (b : Bool) × (j : ℕ) × (wait_for_work 31 turns 0 (start + next_poll_timeout db) ≡ some b)
      × (j ≤ 30)
      × Explains turns (start + next_poll_timeout db) j b
wait_for_work-ends turns db start late timed =
    let bound = next_poll_timeout-bound db in
    wait_for_work-slices 30 turns 0 (start + next_poll_timeout db) timed (omega arith)

-- A reconnection ends with the first turn that finds the shutdown set or a server that accepts.
pub reconnect_listener-ends :
    (fuel : ℕ) (shutdown accepts : ℕ → Bool) (i n : ℕ)
    → (shutdown n || accepts n) ≡ true
    → i ≤ n
    → n < i + fuel
    → (r : Reconnection) × (j : ℕ) × (reconnect_listener fuel shutdown accepts i ≡ some r)
      × (j ≤ n)
      × ((shutdown j || accepts j) ≡ true)
unfolding reconnect_listener
reconnect_listener-ends zero shutdown accepts i n ends low high = absurd (omega arith)
reconnect_listener-ends (suc fuel) shutdown accepts i n ends low high =
    elim (Bool-cases (shutdown i)) [
      | inl set ↦ (abandoned, i, rw set refl, low, rw set refl)
      | inr runs ↦ elim (Bool-cases (accepts i)) [
        | inl accepted ↦ (connected, i, rw (runs, accepted) refl, low, rw (runs, accepted) refl)
        | inr refused ↦ elim (eq-cases i n) [
          | inl same ↦
              let here : (shutdown i || accepts i) ≡ true =
                ap (λ k. shutdown k || accepts k) (sym same) ∙ ends in
              absurd (ground arith)
          | inr apart ↦
              let (r, j, e, small, why) =
                reconnect_listener-ends fuel shutdown accepts (suc i) n ends (ground arith)
                  (omega arith) in
              (r, j, rw (runs, refused) e, small, why)
        ]
      ]
    ]
