-- ===== src/Tests/Runners.antt =====
-- Two runners of the migrations at once; the second loses its connection and starts again as a third.
use case_fullstack_senior.Prelude.{
  String, Bool, true, false, not, ◌&&◌, ◌≡◌, refl, Option, none, some, List, [], ◌∷◌, ◌++◌, ◌==◌,
  if◌then◌else◌,
}
use case_fullstack_senior.Prelude.Text.{Text, codes, same}
use case_fullstack_senior.Prelude.Pages.{sort_by}
use case_fullstack_senior.Migrations.{
  File, Database, pending_migrations, execute_sql_file, run_migrations, rollback_migrations,
}
use case_fullstack_senior.Migrations.Lock.{
  Event, turn, lose, Runners, finished, holds, all_waiting, run_events,
}
use case_fullstack_senior.Migrations.Lock.Pending.{is_once}
use case_fullstack_senior.Migrations.Lock.Once.{is_complete, is_nothing, run_events-exclusive}
use case_fullstack_senior.Migrations.Lock.Alone.{turns_for, run_events-run_migrations}

abbrev run_sql : List Text → List Text → Option (List Text)
run_sql [] schema = some schema
run_sql (line ∷ lines) schema =
    if same line (codes "FAIL") then none else run_sql lines (schema ++ line ∷ [])

abbrev listed : File → File → Bool
listed f g = true

abbrev directory : List File
directory =
    record { version = "0001"; is_down = true; sql = codes "B" ∷ [] }
    ∷ record { version = "0001"; is_down = false; sql = codes "A" ∷ [] }
    ∷ record { version = "0002"; is_down = false; sql = codes "C" ∷ [] }
    ∷ []

abbrev bare : Database (List Text)
bare = record { schema = []; versions = [] }

-- The first applies one file and is lost; the second waits, applies the other and ends.
abbrev events : List Event
events =
    turn 1
    ∷ turn 2
    ∷ turn 1
    ∷ turn 1
    ∷ turn 2
    ∷ lose 1
    ∷ turn 2
    ∷ turn 2
    ∷ turn 2
    ∷ turn 2
    ∷ turn 2
    ∷ []

abbrev last : Runners (List Text)
last = run_events run_sql listed directory events (all_waiting bare)

run_events-exclusive_example :
    ((holds (last.phase 1) && holds (last.phase 2) && not (1 == 2)) ≡ false)
    × (is_once last.db.versions ≡ true)
    × ((is_complete (last.phase 2)
          && not (is_nothing (pending_migrations listed directory last.db)))
        ≡ false)
unfolding sort_by
run_events-exclusive_example =
    run_events-exclusive run_sql listed directory events bare 1 2 refl refl

ends : last.phase 2 ≡ finished (some ("0002" ∷ []))
unfolding pending_migrations execute_sql_file sort_by
ends = refl

-- A migration that fails ends the run.
abbrev broken : List File
broken =
    record { version = "0001"; is_down = false; sql = codes "A" ∷ [] }
    ∷ record { version = "0002"; is_down = false; sql = codes "B" ∷ codes "FAIL" ∷ [] }
    ∷ []

abbrev alone : Runners (List Text)
alone =
    run_events run_sql listed broken
      (turn 7 ∷ turn 7 ∷ turns_for 7 (pending_migrations listed broken bare)) (all_waiting bare)

run_events-run_migrations_example :
    let (result, after) = run_migrations run_sql listed broken bare in
    (alone.phase 7 ≡ finished result) × (alone.db ≡ after)
run_events-run_migrations_example = run_events-run_migrations run_sql listed broken 7 bare

-- A rollback of one step reverts the last version of the ledger.
abbrev undone : Database (List Text)
undone = record { schema = codes "A" ∷ codes "B" ∷ []; versions = [] }

abbrev once_migrated : Database (List Text)
once_migrated = record { schema = codes "A" ∷ []; versions = "0001" ∷ [] }

abbrev collation : String → String → Bool
collation v w = true

reverts :
    rollback_migrations run_sql collation directory 1 once_migrated ≡ (some ("0001" ∷ []), undone)
unfolding rollback_migrations sort_by
reverts = refl
