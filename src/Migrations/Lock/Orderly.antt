-- ===== src/Migrations/Lock/Orderly.antt =====
-- What holds of the runners of the migrations between their turns.
use case_fullstack_senior.Prelude.{
  ℕ, String, Bool, true, false, ◌≡◌, Option, none, some, List, [], ◌∷◌, ◌==◌, select, inl, inr,
  Bool-cases, arith,
}
use case_fullstack_senior.Prelude.Pages.{sort_by}
use case_fullstack_senior.Migrations.{File, Database, is_pending}
use case_fullstack_senior.Migrations.Lock.{
  Stage, waiting, locked, applying, releasing, finished, holds, Runners, set_phase,
}
use case_fullstack_senior.Migrations.Lock.Pending.{is_once}

module _ {S : Type 0} (before : File → File → Bool) (directory : List File) where
  abbrev pub left : Database S → List File
  left db = select (is_pending db.versions) (sort_by before directory)

  -- What is pending when a runner is at a place.
  abbrev pub IsPlanned : Database S → Stage → Type 0
  IsPlanned db (applying fs applied) = left db ≡ fs
  IsPlanned db (releasing (some applied)) = left db ≡ []
  IsPlanned db (finished (some applied)) = left db ≡ []
  IsPlanned db _ = Unit

  -- A runner between its lock and its release has the lock, its plan is what is pending, and no
  -- version is in the ledger twice.
  pub record IsOrderly (s : Runners S) : Type 0 where
    pub exclusive : (r : ℕ) → holds (s.phase r) ≡ true → s.lock ≡ some r
    pub planned : (r : ℕ) → IsPlanned s.db (s.phase r)
    pub once : is_once s.db.versions ≡ true

  pub IsPlanned-same :
      (p : Stage) (db db' : Database S)
      → db'.versions ≡ db.versions
      → IsPlanned db p
      → IsPlanned db' p
  IsPlanned-same waiting db db' e h = tt
  IsPlanned-same locked db db' e h = tt
  IsPlanned-same (applying fs applied) db db' e h = rw e h
  IsPlanned-same (releasing none) db db' e h = tt
  IsPlanned-same (releasing (some applied)) db db' e h = rw e h
  IsPlanned-same (finished none) db db' e h = tt
  IsPlanned-same (finished (some applied)) db db' e h = rw e h

  -- While a file waits, no runner without the lock has a plan.
  pub IsPlanned-idle :
      (p : Stage) (db db' : Database S) (f : File) (fs : List File)
      → left db ≡ f ∷ fs
      → holds p ≡ false
      → IsPlanned db p
      → IsPlanned db' p
  IsPlanned-idle waiting db db' f fs e idle h = tt
  IsPlanned-idle locked db db' f fs e idle h = tt
  IsPlanned-idle (applying gs applied) db db' f fs e idle h = absurd (ground arith)
  IsPlanned-idle (releasing none) db db' f fs e idle h = tt
  IsPlanned-idle (releasing (some applied)) db db' f fs e idle h = absurd (ground arith)
  IsPlanned-idle (finished none) db db' f fs e idle h = tt
  IsPlanned-idle (finished (some applied)) db db' f fs e idle h = absurd (ground arith)

  -- The runner r comes to a place.
  pub moved :
      (s : Runners S) (r : ℕ) (p : Stage) (lock : Option ℕ) (db : Database S)
      → (holds p ≡ true → lock ≡ some r)
      → ((q : ℕ) → (r == q) ≡ false → holds (s.phase q) ≡ true → lock ≡ some q)
      → IsPlanned db p
      → ((q : ℕ) → (r == q) ≡ false → IsPlanned db (s.phase q))
      → is_once db.versions ≡ true
      → IsOrderly (record { lock = lock; db = db; phase = set_phase r p s.phase })
  moved s r p lock db mine others plan plans once = record {
    exclusive = λ q h. elim (Bool-cases (r == q)) [
      | inl same ↦ let at : r ≡ q = ground arith in rw⁻¹ at (mine (ground arith))
      | inr apart ↦ others q apart (ground arith)
    ];
    planned = λ q. elim (Bool-cases (r == q)) [
      | inl same ↦ rw same plan
      | inr apart ↦ rw apart (plans q apart)
    ];
    once = once;
  }

  -- Only the holder of the lock moves.
  pub kept :
      (s : Runners S) (r : ℕ) (p : Stage)
      → holds (s.phase r) ≡ true
      → IsPlanned s.db p
      → IsOrderly s
      → IsOrderly (record s { phase = set_phase r p s.phase })
  kept s r p mine plan h =
      moved s r p s.lock s.db (λ _. h.exclusive r mine) (λ q _. h.exclusive q) plan
        (λ q _. h.planned q) h.once

  -- A runner that has the lock gives it back.
  pub released :
      (s : Runners S) (r : ℕ) (result : Option (List String))
      → holds (s.phase r) ≡ true
      → IsPlanned s.db (finished result)
      → IsOrderly s
      → IsOrderly (record s { lock = none; phase = set_phase r (finished result) s.phase })
  released s r result mine plan h =
      moved s r (finished result) none s.db (λ no. absurd (ground arith))
        (λ q apart held.
          let a = h.exclusive q held in let b = h.exclusive r mine in absurd (ground arith))
        plan (λ q _. h.planned q) h.once

  -- A runner that is not the holder is not between its lock and its release.
  pub idle :
      (s : Runners S) (r : ℕ)
      → IsOrderly s
      → s.lock ≡ some r
      → (q : ℕ) → (r == q) ≡ false
      → holds (s.phase q) ≡ false
  idle s r h have q apart = elim (Bool-cases (holds (s.phase q))) [
    | inl held ↦ let a = h.exclusive q held in absurd (ground arith)
    | inr free ↦ free
  ]
