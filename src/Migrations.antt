-- ===== src/Migrations.antt =====
-- api/shared/db/migrate.py: the runner of the SQL files of db/migrations. The execution of SQL is a
-- parameter of the functions, on a type S of schemas. Ledger is about one run, Lock about several.
pub mod Ledger
pub mod Lock
use case_fullstack_senior.Prelude.{
  ℕ, zero, suc, ◌-◌, String, Bool, true, false, not, ◌&&◌, ◌||◌, Option, none, some, List, [], ◌∷◌,
  ◌++◌, ◌==◌, if◌then◌else◌, any, select, length, drop, str_eq, ltb,
}
use case_fullstack_senior.Prelude.Text.{Text, codes, same, starts_with, contains}
use case_fullstack_senior.Prelude.Pages.{sort_by}

-- A file "version.sql", or "version.down.sql"; its text as lines.
pub record File : Type 0 where
  pub version : String
  pub is_down : Bool
  pub sql : List Text

-- The schema, and the ledger schema_migrations.
pub record Database (S : Type 0) : Type 0 where
  pub schema : S
  pub versions : List String

abbrev pub mem : String → List String → Bool
mem v = any (str_eq v)

abbrev pub is_pending : List String → File → Bool
is_pending applied f = not f.is_down && not (mem f.version applied)

-- `pending_migrations`; `before` is the order of the file names.
unfoldable pub pending_migrations :
    {S : Type 0} → (File → File → Bool) → List File → Database S → List File
pending_migrations before directory db = select (is_pending db.versions) (sort_by before directory)

abbrev pub is_blank : ℕ → Bool
is_blank c = c == 32 || c == 9

abbrev pub skip_blanks : Text → Text
skip_blanks [] = []
skip_blanks (c ∷ t) = let rest = skip_blanks t in if is_blank c then rest else c ∷ t

abbrev pub non_transactional_marker : Text
non_transactional_marker = codes "-- migration: non-transactional"

abbrev pub next_statement_marker : Text
next_statement_marker = codes "-- migration: next-statement"

-- A line that is a prefix and then blanks, or a carriage return at its end
abbrev pub is_marker_rest : Text → Text → Bool
is_marker_rest [] [] = true
is_marker_rest [] (c ∷ t) = is_blank c && is_marker_rest [] t || c == 13 && same t []
is_marker_rest (a ∷ s) [] = false
is_marker_rest (a ∷ s) (b ∷ t) = a == b && is_marker_rest s t

-- NEXT_STATEMENT_PATTERN on one line
abbrev pub is_next_statement : Text → Bool
is_next_statement line = is_marker_rest next_statement_marker (skip_blanks line)

-- `NEXT_STATEMENT_PATTERN.split`; `part` is the statement so far.
abbrev pub split_statements : List Text → List Text → List (List Text)
split_statements part [] = part ∷ []
split_statements part (line ∷ lines) =
    let more = split_statements (part ++ line ∷ []) lines in
    let anew = split_statements [] lines in if is_next_statement line then part ∷ anew else more

-- `not statement.strip()`: only ASCII white space
abbrev pub is_space : ℕ → Bool
is_space c = is_blank c || c == 10 || c == 11 || c == 12 || c == 13

abbrev pub has_content : List Text → Bool
has_content = any (any (λ c. not (is_space c)))

-- `_non_transactional_statements`
unfoldable pub non_transactional_statements : List Text → List (List Text)
non_transactional_statements sql = select has_content (split_statements [] sql)

module _ {S : Type 0} (exec : List Text → S → Option S) where
  -- Statements that each commit by themselves, up to the first that fails
  abbrev pub execute_each : List (List Text) → S → Bool × S
  execute_each [] s = (true, s)
  execute_each (q ∷ qs) s = elim (exec q s) [ none ↦ (false, s) | some t ↦ execute_each qs t ]

  -- `_execute_sql_file`, with the rollback that follows its exception
  unfoldable pub execute_sql_file : File → S → Bool × S
  unfolding non_transactional_statements
  execute_sql_file f s =
      if any (contains non_transactional_marker) f.sql
      then execute_each (non_transactional_statements f.sql) s
      else elim (exec f.sql s) [ none ↦ (false, s) | some t ↦ (true, t) ]

  -- The loop of `run_migrations`: the applied versions, and whether it ended without an exception
  unfoldable pub apply_all : List File → Database S → (List String × Bool) × Database S
  unfolding execute_sql_file
  apply_all [] db = (([], true), db)
  apply_all (f ∷ fs) db =
      let (done, schema) = execute_sql_file f db.schema in
      let ((applied, ended), last) =
        apply_all fs (record { schema = schema; versions = db.versions ++ f.version ∷ [] }) in
      if done
      then ((f.version ∷ applied, ended), last)
      else (([], false), record db { schema = schema })

  -- `run_migrations`: the applied versions, or `none` for an exception
  unfoldable pub run_migrations :
      (File → File → Bool) → List File → Database S → Option (List String) × Database S
  unfolding apply_all pending_migrations
  run_migrations before directory db =
      let ((applied, ended), last) = apply_all (pending_migrations before directory db) db in
      (if ended then some applied else none, last)

  abbrev pub down_file : String → List File → Option File
  down_file v [] = none
  down_file v (f ∷ fs) =
      let rest = down_file v fs in if f.is_down && str_eq f.version v then some f else rest

  -- The loop of `rollback_migrations`
  unfoldable pub revert_all :
      List File → List String → Database S → (List String × Bool) × Database S
  unfolding execute_sql_file
  revert_all directory [] db = (([], true), db)
  revert_all directory (v ∷ vs) db = elim (down_file v directory) [
    | none ↦ (([], false), db)
    | some f ↦
        let (done, schema) = execute_sql_file f db.schema in
        let left = select (λ w. not (str_eq v w)) db.versions in
        let ((reverted, ended), last) =
          revert_all directory vs (record { schema = schema; versions = left }) in
        if done then ((v ∷ reverted, ended), last) else (([], false), record db { schema = schema })
  ]

abbrev pub reverse_onto : {A : Type 0} → List A → List A → List A
reverse_onto [] acc = acc
reverse_onto (x ∷ xs) acc = reverse_onto xs (x ∷ acc)

-- `reversed(_applied_versions(conn)[-steps:] if steps > 0 else [])`; `collation` is the order of the
-- database on texts.
unfoldable pub last_versions : (String → String → Bool) → ℕ → List String → List String
last_versions collation steps versions =
    let sorted = sort_by collation versions in
    if ltb 0 steps then reverse_onto (drop (length sorted - steps) sorted) [] else []

-- `rollback_migrations`: the reverted versions, or `none` for an exception
unfoldable pub rollback_migrations :
    {S : Type 0}
    → (List Text → S → Option S)
    → (String → String → Bool)
    → List File
    → ℕ
    → Database S
    → Option (List String) × Database S
unfolding revert_all last_versions
rollback_migrations exec collation directory steps db =
    let ((reverted, ended), last) =
      revert_all exec directory (last_versions collation steps db.versions) db in
    (if ended then some reverted else none, last)
