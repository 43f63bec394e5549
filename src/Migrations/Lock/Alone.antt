-- ===== src/Migrations/Lock/Alone.antt =====
-- A runner that no other disturbs does what `run_migrations` does.
use case_fullstack_senior.Prelude.{
  ℕ, String, Bool, ◌≡◌, refl, ap, sym, ◌∙◌, Option, none, some, List, [], ◌∷◌, ◌++◌, if◌then◌else◌,
  inl, inr, Bool-cases, arith,
}
use case_fullstack_senior.Prelude.Text.{Text}
use case_fullstack_senior.Migrations.{
  File, Database, pending_migrations, execute_sql_file, apply_all, run_migrations,
}
use case_fullstack_senior.Migrations.Ledger.{append_assoc, append_nil}
use case_fullstack_senior.Migrations.Lock.{
  Stage, waiting, locked, applying, releasing, finished, Runners, set_phase, Event, turn, apply,
  turn_at, run_events, all_waiting,
}

-- A turn for each file and two at the end
abbrev pub turns_for : ℕ → List File → List Event
turns_for r [] = turn r ∷ turn r ∷ []
turns_for r (f ∷ fs) = turn r ∷ turns_for r fs

set_phase-same : (r : ℕ) (p : Stage) (phase : ℕ → Stage) → set_phase r p phase r ≡ p
set_phase-same r p phase = ground arith

module _ {S : Type 0} (exec : List Text → S → Option S) (before : File → File → Bool)
    (directory : List File) (r : ℕ) where
  -- What the runner leaves
  abbrev seen : Runners S → Stage × Database S
  seen s = (s.phase r, s.db)

  run_events-turn :
      (es : List Event) (s : Runners S) {p : Stage}
      → s.phase r ≡ p
      → run_events exec before directory (turn r ∷ es) s
        ≡ run_events exec before directory es (turn_at exec before directory r s p)
  run_events-turn es s at =
      ap (λ p. run_events exec before directory es (turn_at exec before directory r s p)) at

  run_events-finished :
      (fs : List File) (s : Runners S) {result : Option (List String)}
      → s.phase r ≡ finished result
      → run_events exec before directory (turns_for r fs) s ≡ s
  run_events-finished [] s at = run_events-turn (turn r ∷ []) s at ∙ run_events-turn [] s at
  run_events-finished (f ∷ fs) s at =
      run_events-turn (turns_for r fs) s at ∙ run_events-finished fs s at

  abbrev gone : Runners S → Option (List String) → Runners S
  gone s result = record s { lock = none; phase = set_phase r (finished result) s.phase }

  run_events-releasing :
      (fs : List File) (s : Runners S) {result : Option (List String)}
      → s.phase r ≡ releasing result
      → run_events exec before directory (turns_for r fs) s ≡ gone s result
  run_events-releasing [] s {result} at =
      run_events-turn (turn r ∷ []) s at
      ∙ run_events-turn [] (gone s result) (set_phase-same r (finished result) s.phase)
  run_events-releasing (f ∷ fs) s {result} at =
      run_events-turn (turns_for r fs) s at
      ∙ run_events-finished fs (gone s result) (set_phase-same r (finished result) s.phase)

  -- What the loop over the files leaves
  abbrev ended : List String → (List String × Bool) × Database S → Stage × Database S
  ended acc ((applied, done), db) = (finished (if done then some (acc ++ applied) else none), db)

  run_events-applying :
      (fs : List File) (acc : List String) (s : Runners S)
      → s.phase r ≡ applying fs acc
      → seen (run_events exec before directory (turns_for r fs) s)
        ≡ ended acc (apply_all exec fs s.db)
  unfolding apply_all
  run_events-applying [] acc s at =
      let s' : Runners S = record s { phase = set_phase r (releasing (some acc)) s.phase } in
      let first = run_events-turn (turn r ∷ []) s at in
      let second = run_events-turn [] s' (set_phase-same r (releasing (some acc)) s.phase) in
      ap seen (first ∙ second)
      ∙ ap (λ p. (p, s.db))
          (set_phase-same r (finished (some acc)) s'.phase
            ∙ ap (λ l. finished (some l)) (sym (append_nil acc)))
  run_events-applying (f ∷ fs) acc s at =
      let out = execute_sql_file exec f s.db.schema in
      let first = run_events-turn (turns_for r fs) s at in
      elim (Bool-cases out.0) [
        | inl done ↦
            let grown = s.db.versions ++ f.version ∷ [] in
            let more = acc ++ f.version ∷ [] in
            let s' : Runners S = record s {
              db = record { schema = out.1; versions = grown };
              phase = set_phase r (applying fs more) s.phase;
            } in
            let made : apply exec before directory r f fs acc s ≡ s' = rw done refl in
            let rest = apply_all exec fs s'.db in
            ap seen (first ∙ ap (run_events exec before directory (turns_for r fs)) made)
            ∙ run_events-applying fs more s' (set_phase-same r (applying fs more) s.phase)
            ∙ rw done (
                ap (λ l. (finished (if rest.0.1 then some l else none), rest.1))
                  (append_assoc acc (f.version ∷ []) rest.0.0))
        | inr fails ↦
            let s' : Runners S = record s {
              db = record s.db { schema = out.1 };
              phase = set_phase r (releasing none) s.phase;
            } in
            let made : apply exec before directory r f fs acc s ≡ s' = rw fails refl in
            ap seen (
              first
              ∙ ap (run_events exec before directory (turns_for r fs)) made
              ∙ run_events-releasing fs s' (set_phase-same r (releasing none) s.phase))
            ∙ rw fails (ap (λ p. (p, s'.db)) (set_phase-same r (finished none) s'.phase))
      ]

  -- A runner that no other disturbs ends, after four turns and one for each pending migration: with
  -- the result and the tables of `run_migrations`, that is with the applied versions, or `none` for
  -- an exception.
  pub run_events-run_migrations :
      (db : Database S)
      → let last =
          run_events exec before directory
            (turn r ∷ turn r ∷ turns_for r (pending_migrations before directory db))
            (all_waiting db) in
        let (result, after) = run_migrations exec before directory db in
        (last.phase r ≡ finished result) × (last.db ≡ after)
  unfolding run_migrations
  run_events-run_migrations db =
      let fs = pending_migrations before directory db in
      let s : Runners S = record {
        lock = some r;
        db = db;
        phase = set_phase r locked (λ _. waiting);
      } in
      let s' : Runners S = record s { phase = set_phase r (applying fs []) s.phase } in
      let whole =
        ap seen (run_events-turn (turns_for r fs) s (set_phase-same r locked (λ _. waiting)))
        ∙ run_events-applying fs [] s' (set_phase-same r (applying fs []) s.phase) in
      (ap (λ (p : Stage × Database S). p.0) whole, ap (λ (p : Stage × Database S). p.1) whole)
