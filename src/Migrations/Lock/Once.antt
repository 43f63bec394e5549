-- ===== src/Migrations/Lock/Once.antt =====
-- However the turns of the runners interleave, one runs at a time, and each file is applied once.
use case_fullstack_senior.Prelude.{
  ℕ, String, Bool, true, false, not, ◌&&◌, ◌≡◌, refl, Option, none, some, List, [], ◌∷◌, ◌++◌, ◌==◌,
  inl, inr, Bool-cases, arith,
}
use case_fullstack_senior.Prelude.Text.{Text}
use case_fullstack_senior.Prelude.Pages.{sort_by}
use case_fullstack_senior.Migrations.{File, Database, pending_migrations, execute_sql_file}
use case_fullstack_senior.Migrations.Lock.{
  Stage, waiting, locked, applying, releasing, finished, holds, Runners, Event, turn, lose,
  all_waiting, apply, try_lock, turn_at, lose_at, step, run_events,
}
use case_fullstack_senior.Migrations.Lock.Pending.{
  are_distinct, is_once, is_once-append, pending_tail, pending_new,
}
use case_fullstack_senior.Migrations.Lock.Orderly.{
  left, IsPlanned, IsOrderly, IsPlanned-same, IsPlanned-idle, moved, kept, released, idle,
}

-- At the end, without an exception
abbrev pub is_complete : Stage → Bool
is_complete (finished (some applied)) = true
is_complete _ = false

abbrev pub is_nothing : List File → Bool
is_nothing [] = true
is_nothing (f ∷ fs) = false

module _ {S : Type 0} (exec : List Text → S → Option S) (before : File → File → Bool)
    (directory : List File) where
  -- One migration of the plan, done or failed.
  apply-IsOrderly :
      (r : ℕ) (f : File) (fs : List File) (applied : List String) (s : Runners S)
      → are_distinct (sort_by before directory) ≡ true
      → s.phase r ≡ applying (f ∷ fs) applied
      → IsOrderly before directory s
      → IsOrderly before directory (apply exec before directory r f fs applied s)
  apply-IsOrderly r f fs applied s distinct at h =
      let mine : holds (s.phase r) ≡ true = rw at refl in
      let have : s.lock ≡ some r = h.exclusive r mine in
      let plan : left before directory s.db ≡ f ∷ fs = rw at at (h.planned r) in
      let schema = (execute_sql_file exec f s.db.schema).1 in
      elim (Bool-cases (execute_sql_file exec f s.db.schema).0) [
        | inr fails ↦ rw fails (
            moved before directory s r (releasing none) s.lock (record s.db { schema = schema })
              (λ _. have) (λ q _. h.exclusive q) tt
              (λ q _.
                IsPlanned-same before directory (s.phase q) s.db (record s.db { schema = schema })
                  refl (h.planned q))
              h.once)
        | inl done ↦
            let db' : Database S = record {
              schema = schema;
              versions = s.db.versions ++ f.version ∷ [];
            } in
            rw done (
              moved before directory s r (applying fs (applied ++ f.version ∷ [])) s.lock db'
                (λ _. have) (λ q _. h.exclusive q)
                (pending_tail s.db.versions f fs (sort_by before directory) distinct plan)
                (λ q apart.
                  IsPlanned-idle before directory (s.phase q) s.db db' f fs plan
                    (idle before directory s r h have q apart) (h.planned q))
                (is_once-append s.db.versions f.version h.once
                  (pending_new s.db.versions f fs (sort_by before directory) plan)))
      ]

  try_lock-IsOrderly :
      (r : ℕ) (s : Runners S) (o : Option ℕ)
      → s.lock ≡ o
      → IsOrderly before directory s
      → IsOrderly before directory (try_lock exec before directory r s o)
  try_lock-IsOrderly r s (some holder) taken h = h
  try_lock-IsOrderly r s none free h =
      moved before directory s r locked (some r) s.db (λ _. refl)
        (λ q _ held. let a = h.exclusive q held in absurd (ground arith)) tt (λ q _. h.planned q)
        h.once

  turn_at-IsOrderly :
      (r : ℕ) (s : Runners S) (p : Stage)
      → are_distinct (sort_by before directory) ≡ true
      → s.phase r ≡ p
      → IsOrderly before directory s
      → IsOrderly before directory (turn_at exec before directory r s p)
  unfolding pending_migrations
  turn_at-IsOrderly r s waiting distinct at h = try_lock-IsOrderly r s s.lock refl h
  turn_at-IsOrderly r s locked distinct at h = kept before directory s r _ (rw at refl) refl h
  turn_at-IsOrderly r s (applying [] applied) distinct at h =
      kept before directory s r _ (rw at refl) (rw at at (h.planned r)) h
  turn_at-IsOrderly r s (applying (f ∷ fs) applied) distinct at h =
      apply-IsOrderly r f fs applied s distinct at h
  turn_at-IsOrderly r s (releasing none) distinct at h =
      released before directory s r none (rw at refl) tt h
  turn_at-IsOrderly r s (releasing (some applied)) distinct at h =
      released before directory s r (some applied) (rw at refl) (rw at at (h.planned r)) h
  turn_at-IsOrderly r s (finished result) distinct at h = h

  lose_at-IsOrderly :
      (r : ℕ) (s : Runners S) (p : Stage)
      → s.phase r ≡ p
      → IsOrderly before directory s
      → IsOrderly before directory (lose_at exec before directory r s p)
  lose_at-IsOrderly r s waiting at h =
      moved before directory s r (finished none) s.lock s.db (λ no. absurd (ground arith))
        (λ q _. h.exclusive q) tt (λ q _. h.planned q) h.once
  lose_at-IsOrderly r s locked at h = released before directory s r none (rw at refl) tt h
  lose_at-IsOrderly r s (applying fs applied) at h =
      released before directory s r none (rw at refl) tt h
  lose_at-IsOrderly r s (releasing result) at h =
      released before directory s r none (rw at refl) tt h
  lose_at-IsOrderly r s (finished result) at h = h

  step-IsOrderly :
      (e : Event) (s : Runners S)
      → are_distinct (sort_by before directory) ≡ true
      → IsOrderly before directory s
      → IsOrderly before directory (step exec before directory e s)
  step-IsOrderly (turn r) s distinct h = turn_at-IsOrderly r s (s.phase r) distinct refl h
  step-IsOrderly (lose r) s distinct h = lose_at-IsOrderly r s (s.phase r) refl h

  run_events-IsOrderly :
      (es : List Event) (s : Runners S)
      → are_distinct (sort_by before directory) ≡ true
      → IsOrderly before directory s
      → IsOrderly before directory (run_events exec before directory es s)
  run_events-IsOrderly [] s distinct h = h
  run_events-IsOrderly (e ∷ es) s distinct h =
      run_events-IsOrderly es (step exec before directory e s) distinct
        (step-IsOrderly e s distinct h)

  all_waiting-IsOrderly :
      (db : Database S) → is_once db.versions ≡ true → IsOrderly before directory (all_waiting db)
  all_waiting-IsOrderly db once = record {
    exclusive = λ r no. absurd (ground arith);
    planned = λ r. tt;
    once = once;
  }

  complete :
      (s : Runners S) (p : Stage)
      → IsPlanned before directory s.db p
      → (is_complete p && not (is_nothing (pending_migrations before directory s.db))) ≡ false
  unfolding pending_migrations
  complete s (finished (some applied)) plan = rw plan refl
  complete s (finished none) plan = refl
  complete s waiting plan = refl
  complete s locked plan = refl
  complete s (applying fs applied) plan = refl
  complete s (releasing result) plan = refl

  -- If no two files of a directory but the down files bear one version, and the runners start before the lock, on a
  -- ledger that has no version twice, then in whatever order they take their turns and lose their
  -- connections: two runners that are between their lock and its release are one runner, the ledger
  -- has no version twice, so that no migration is applied again, and when a runner has ended
  -- without an exception, no migration is pending.
  pub run_events-exclusive :
      (es : List Event) (db : Database S) (q r : ℕ)
      → are_distinct (sort_by before directory) ≡ true
      → is_once db.versions ≡ true
      → let last = run_events exec before directory es (all_waiting db) in
        ((holds (last.phase q) && holds (last.phase r) && not (q == r)) ≡ false)
        × (is_once last.db.versions ≡ true)
        × ((is_complete (last.phase r)
              && not (is_nothing (pending_migrations before directory last.db)))
            ≡ false)
  run_events-exclusive es db q r distinct once =
      let last = run_events exec before directory es (all_waiting db) in
      let h = run_events-IsOrderly es (all_waiting db) distinct (all_waiting-IsOrderly db once) in
      (
        elim (Bool-cases (holds (last.phase q) && holds (last.phase r))) [
          | inl both ↦
              let a = h.exclusive q (ground arith) in
              let b = h.exclusive r (ground arith) in ground arith
          | inr either ↦ ground arith
        ],
        h.once,
        complete last (last.phase r) (h.planned r),
      )
