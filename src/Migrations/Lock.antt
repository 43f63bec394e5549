-- ===== src/Migrations/Lock.antt =====
-- Runs of `run_migrations` (api/shared/db/migrate.py) by several processes at once, over the advisory
-- lock: each runner's place in the function, and its turns in any order.
pub mod Pending
pub mod Orderly
pub mod Once
pub mod Alone
use case_fullstack_senior.Prelude.{
  ℕ, String, Bool, true, false, Option, none, some, List, [], ◌∷◌, ◌++◌, ◌==◌, if◌then◌else◌,
}
use case_fullstack_senior.Prelude.Text.{Text}
use case_fullstack_senior.Migrations.{File, Database, pending_migrations, execute_sql_file}

-- Before the lock, with the lock before and after `pending_migrations`, at the `finally` with the
-- lock, and at the end: with the applied versions, or `none` after an exception.
pub data Stage : Type 0 where
  waiting locked : Stage
  applying : List File → List String → Stage
  releasing finished : Option (List String) → Stage

abbrev pub holds : Stage → Bool
holds locked = true
holds (applying _ _) = true
holds (releasing _) = true
holds _ = false

-- `lock` is the session that has the advisory lock.
pub record Runners (S : Type 0) : Type 0 where
  pub lock : Option ℕ
  pub db : Database S
  pub phase : ℕ → Stage

abbrev pub set_phase : ℕ → Stage → (ℕ → Stage) → ℕ → Stage
set_phase r p phase q = if r == q then p else phase q

-- Before any runner has the lock
abbrev pub all_waiting : {S : Type 0} → Database S → Runners S
all_waiting db = record { lock = none; db = db; phase = λ r. waiting }

-- A turn of a runner, or the loss of its connection between two of its turns: PostgreSQL frees the
-- lock of a session that ends.
pub data Event : Type 0 where
  turn lose : ℕ → Event

module _ {S : Type 0} (exec : List Text → S → Option S) (before : File → File → Bool)
    (directory : List File) where
  -- One migration with its commit, or the rollback of its exception
  abbrev pub apply : ℕ → File → List File → List String → Runners S → Runners S
  apply r f fs applied s =
      let (done, schema) = execute_sql_file exec f s.db.schema in
      if done
      then record s {
        db = record { schema = schema; versions = s.db.versions ++ f.version ∷ [] };
        phase = set_phase r (applying fs (applied ++ f.version ∷ [])) s.phase;
      }
      else record s {
        db = record s.db { schema = schema };
        phase = set_phase r (releasing none) s.phase;
      }

  -- `_acquire_migration_lock`, one round of its loop
  abbrev pub try_lock : ℕ → Runners S → Option ℕ → Runners S
  try_lock r s (some holder) = s
  try_lock r s none = record s { lock = some r; phase = set_phase r locked s.phase }

  -- The next statement of the runner r at a place
  abbrev pub turn_at : ℕ → Runners S → Stage → Runners S
  turn_at r s waiting = try_lock r s s.lock
  turn_at r s locked = record s {
    phase = set_phase r (applying (pending_migrations before directory s.db) []) s.phase;
  }
  turn_at r s (applying [] applied) = record s {
    phase = set_phase r (releasing (some applied)) s.phase;
  }
  turn_at r s (applying (f ∷ fs) applied) = apply r f fs applied s
  turn_at r s (releasing result) = record s {
    lock = none;
    phase = set_phase r (finished result) s.phase;
  }
  turn_at r s (finished result) = s

  -- The loss of the connection of a runner at a place, which frees its lock
  abbrev pub lose_at : ℕ → Runners S → Stage → Runners S
  lose_at r s waiting = record s { phase = set_phase r (finished none) s.phase }
  lose_at r s (finished result) = s
  lose_at r s _ = record s { lock = none; phase = set_phase r (finished none) s.phase }

  abbrev pub step : Event → Runners S → Runners S
  step (turn r) s = turn_at r s (s.phase r)
  step (lose r) s = lose_at r s (s.phase r)

  abbrev pub run_events : List Event → Runners S → Runners S
  run_events [] s = s
  run_events (e ∷ es) s = run_events es (step e s)
