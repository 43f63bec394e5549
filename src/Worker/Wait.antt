-- ===== src/Worker/Wait.antt =====
-- How long an idle worker sleeps: `seconds_until_next_attempt` of worker/modules/jobs/processor.py and
-- `_next_poll_timeout` of worker/main.py, in microseconds.
use case_fullstack_senior.Prelude.{
  ℕ, ◌+◌, ◌-◌, ◌≤◌, ◌<◌, ◌&&◌, ◌≡◌, refl, Option, none, some, List, [], ◌∷◌, arith, ltb, leb,
  if◌then◌else◌, inl, inr, ◌==◌, Option-cases, Bool-cases,
}
use case_fullstack_senior.Db.Schema.{Job, Db, is_queued}
use case_fullstack_senior.Db.Query.{find}

-- WHERE status = 'queued' AND next_attempt_at > now(); the time, if the row passes
abbrev pub scheduled : ℕ → Job → Option ℕ
scheduled now j = elim j.next_attempt_at [
  | none ↦ none
  | some t ↦ if is_queued j.status && ltb now t then some t else none
]

-- min(next_attempt_at)
unfoldable pub next_attempt : ℕ → List Job → Option ℕ
next_attempt now [] = none
next_attempt now (j ∷ js) =
    let rest = next_attempt now js in
    elim (scheduled now j) [
      | none ↦ rest
      | some t ↦ elim rest [ none ↦ some t | some u ↦ some (if leb t u then t else u) ]
    ]

unfoldable pub seconds_until_next_attempt : Db → Option ℕ
unfolding next_attempt
seconds_until_next_attempt db = elim (next_attempt db.now db.jobs) [
  | none ↦ none
  | some t ↦ some (t - db.now)
]

-- POLL_FALLBACK_S
abbrev pub poll_fallback : ℕ
poll_fallback = 30000000

unfoldable pub next_poll_timeout : Db → ℕ
unfolding seconds_until_next_attempt
next_poll_timeout db = elim (seconds_until_next_attempt db) [
  | none ↦ poll_fallback
  | some pending ↦ if leb (pending + 50000) poll_fallback then pending + 50000 else poll_fallback
]

next_attempt-least :
    (now k : ℕ) (js : List Job) {j : Job} {t : ℕ}
    → find k js ≡ some j
    → scheduled now j ≡ some t
    → (u : ℕ) × (next_attempt now js ≡ some u) × (u ≤ t)
unfolding next_attempt find
next_attempt-least now k [] {j} {t} found due = absurd (ground arith)
next_attempt-least now k (i ∷ js) {j} {t} found due = elim (Bool-cases (i.id == k)) [
  | inl at ↦
      let same : i ≡ j = ground arith in
      let mine : scheduled now i ≡ some t = rw same due in
      elim (Option-cases (next_attempt now js)) [
        | inl nothing ↦ (t, rw (next_attempt, mine, nothing) refl, omega arith)
        | inr (u, e) ↦ (if leb t u then t else u, rw (next_attempt, mine, e) refl, ground arith)
      ]
  | inr apart ↦
      let (u, e, below) = next_attempt-least now k js {j = j} {t = t} (ground arith) due in
      elim (Option-cases (scheduled now i)) [
        | inl nothing ↦ (u, rw (next_attempt, nothing) e, below)
        | inr (v, mine) ↦ (if leb v u then v else u, rw (next_attempt, mine, e) refl, ground arith)
      ]
]

next_attempt-later : (now : ℕ) (js : List Job) {u : ℕ} → next_attempt now js ≡ some u → now < u
unfolding next_attempt
next_attempt-later now [] e = absurd (ground arith)
next_attempt-later now (j ∷ js) {u} e = elim (Option-cases (next_attempt now js)) [
  | inl nothing ↦ ground arith
  | inr (v, f) ↦ let later : now < v = next_attempt-later now js f in ground arith
]

-- If a queued job of the table is scheduled for a later time t, an idle worker sleeps for more
-- than nothing and at most thirty seconds, and at most fifty milliseconds beyond t.
pub next_poll_timeout-due :
    (db : Db) (k : ℕ) {j : Job} {t : ℕ}
    → find k db.jobs ≡ some j
    → scheduled db.now j ≡ some t
    → (0 < next_poll_timeout db)
      × (next_poll_timeout db ≤ 30000000)
      × (db.now + next_poll_timeout db ≤ t + 50000)
unfolding next_poll_timeout
next_poll_timeout-due db k {j} {t} found due =
    let (u, e, below) = next_attempt-least db.now k db.jobs found due in
    let later : db.now < u = next_attempt-later db.now db.jobs e in
    rw (next_poll_timeout, seconds_until_next_attempt, e) (ground arith, ground arith, ground arith)
