-- ===== src/Migrations/Ledger.antt =====
-- The ledger after a run and after a rollback.
use mathlib.Core.Path.{subst}
use case_fullstack_senior.Prelude.{
  ℕ, String, Bool, true, not, ◌&&◌, ◌||◌, ◌≡◌, refl, ◌∙◌, ap, sym, Option, some, List, [], ◌∷◌,
  ◌++◌, map, arith, any, select, length, take, str_eq, eq_iff, inl, inr, Bool-cases, Option-cases,
}
use case_fullstack_senior.Prelude.Text.{Text, contains}
use case_fullstack_senior.Prelude.Pages.{sort_by}
use case_fullstack_senior.Migrations.{
  File, Database, mem, is_pending, pending_migrations, execute_sql_file, apply_all, run_migrations,
  revert_all, down_file, last_versions, rollback_migrations, non_transactional_marker,
}

pub append_assoc : {A : Type 0} (x y z : List A) → (x ++ y) ++ z ≡ x ++ (y ++ z)
append_assoc [] y z = refl
append_assoc (a ∷ x) y z = ap (λ (r : List _). a ∷ r) (append_assoc x y z)

pub append_nil : {A : Type 0} (x : List A) → x ++ [] ≡ x
append_nil [] = refl
append_nil (a ∷ x) = ap (λ (r : List _). a ∷ r) (append_nil x)

pub mem-append : (v : String) (x y : List String) → mem v (x ++ y) ≡ (mem v x || mem v y)
mem-append v [] y = refl
mem-append v (w ∷ x) y = ground (arith, mem-append v x y)

abbrev versions_of : List File → List String
versions_of = map (λ (f : File). f.version)

-- Every file of l that was pending is in the ledger w.
abbrev IsCovered : List String → List File → List String → Type 0
IsCovered applied [] w = Unit
IsCovered applied (f ∷ fs) w =
    (is_pending applied f ≡ true → mem f.version w ≡ true) × IsCovered applied fs w

covers :
    (applied pre : List String) (l : List File)
    → IsCovered applied l (pre ++ versions_of (select (is_pending applied) l))
covers applied pre [] = tt
covers applied pre (f ∷ fs) = elim (Bool-cases (is_pending applied f)) [
  | inl waits ↦ rw waits (
    (λ e. mem-append f.version pre _ ∙ ground (arith, eq_iff f.version f.version)),
    subst (IsCovered applied fs) (append_assoc pre (f.version ∷ []) _)
        (covers applied (pre ++ f.version ∷ []) fs),
  )
  | inr stays ↦ rw stays ((λ e. absurd (ground arith)), covers applied pre fs)
]

covered-none :
    (applied added : List String) (l : List File)
    → IsCovered applied l (applied ++ added)
    → select (is_pending (applied ++ added)) l ≡ []
covered-none applied added [] h = refl
covered-none applied added (f ∷ fs) h =
    let rest = covered-none applied added fs h.1 in
    elim (Bool-cases (is_pending applied f)) [
      | inl waits ↦ let there = h.0 waits in ground arith
      | inr stays ↦ let e = mem-append f.version applied added in ground arith
    ]

-- No file of the list is non-transactional.
abbrev pub all_transactional : List File → Bool
all_transactional [] = true
all_transactional (f ∷ fs) =
    not (any (contains non_transactional_marker) f.sql) && all_transactional fs

select-all : (l : List String) → select (λ w. not (mem w [])) l ≡ l
select-all [] = refl
select-all (w ∷ l) = ap (λ (r : List String). w ∷ r) (select-all l)

module _ {S : Type 0} (exec : List Text → S → Option S) where
  -- A loop that ended without an exception has applied all its files, and its ledger has them at the
  -- end.
  apply_all-versions :
      (fs : List File) (db : Database S) {applied : List String} {last : Database S}
      → apply_all exec fs db ≡ ((applied, true), last)
      → (applied ≡ versions_of fs) × (last.versions ≡ db.versions ++ versions_of fs)
  unfolding apply_all
  apply_all-versions [] db {applied} {last} e =
      (ground arith, ground (arith, append_nil db.versions))
  apply_all-versions (f ∷ fs) db {applied} {last} e =
      let out = execute_sql_file exec f db.schema in
      let mid : Database S = record { schema = out.1; versions = db.versions ++ f.version ∷ [] } in
      elim (Bool-cases out.0) [
        | inr fails ↦ absurd (ground arith)
        | inl done ↦
            let rest = apply_all exec fs mid in
            let step : rest ≡ ((rest.0.0, true), rest.1) = ground arith in
            let (all, ledger) = apply_all-versions fs mid step in
            let mine : f.version ∷ rest.0.0 ≡ applied = ground arith in
            let final : rest.1 ≡ last = ground arith in
            (
              sym mine ∙ ap (λ (r : List String). f.version ∷ r) all,
              ap (λ (d : Database S). d.versions) (sym final)
                  ∙ ledger
                  ∙ append_assoc db.versions (f.version ∷ []) (versions_of fs),
            )
      ]

  -- If a run of the migrations ends without an exception, then nothing is pending after it, and a
  -- second run on the same directory applies nothing and changes nothing.
  pub run_migrations_complete :
      (before : File → File → Bool) (directory : List File) (db : Database S)
      {applied : List String} {last : Database S}
      → run_migrations exec before directory db ≡ (some applied, last)
      → (pending_migrations before directory last ≡ [])
        × (run_migrations exec before directory last ≡ (some [], last))
  unfolding run_migrations
  run_migrations_complete before directory db {applied} {last} e =
      let files = select (is_pending db.versions) (sort_by before directory) in
      let r = apply_all exec files db in
      let ended : r ≡ ((r.0.0, true), r.1) = ground arith in
      let final : r.1 ≡ last = ground arith in
      let (all, ledger) = apply_all-versions files db ended in
      let now_there : last.versions ≡ db.versions ++ versions_of files =
        ap (λ (d : Database S). d.versions) (sym final) ∙ ledger in
      let nothing : select (is_pending last.versions) (sort_by before directory) ≡ [] =
        ap (λ v. select (is_pending v) (sort_by before directory)) now_there
        ∙ covered-none db.versions (versions_of files) (sort_by before directory)
            (covers db.versions db.versions (sort_by before directory)) in
      (nothing, rw nothing refl)

  -- If every file is transactional, then a run over the files, with or without an exception,
  -- leaves the schema and the ledger of a run over just the files that it applied, and that run
  -- has no exception.
  pub apply_all-atomic :
      (fs : List File) (db : Database S)
      → all_transactional fs ≡ true
      → let r = apply_all exec fs db in
        apply_all exec (take (length r.0.0) fs) db ≡ ((r.0.0, true), r.1)
  unfolding apply_all execute_sql_file
  apply_all-atomic [] db h = refl
  apply_all-atomic (f ∷ fs) db h = elim (Option-cases (exec f.sql db.schema)) [
    | inl fails ↦ ground arith
    | inr (t, works) ↦
        let mid : Database S = record { schema = t; versions = db.versions ++ f.version ∷ [] } in
        let ih = apply_all-atomic fs mid (ground arith) in ground arith
  ]

  select-select :
      (v : String) (vs l : List String)
      → select (λ w. not (mem w vs)) (select (λ w. not (str_eq v w)) l)
        ≡ select (λ w. not (mem w (v ∷ vs))) l
  select-select v vs [] = refl
  select-select v vs (w ∷ l) = ground (arith, eq_iff v w, eq_iff w v, select-select v vs l)

  revert_all-versions :
      (directory : List File) (vs : List String) (db : Database S) {reverted : List String}
      {last : Database S}
      → revert_all exec directory vs db ≡ ((reverted, true), last)
      → (reverted ≡ vs) × (last.versions ≡ select (λ w. not (mem w vs)) db.versions)
  unfolding revert_all
  revert_all-versions directory [] db {reverted} {last} e =
      (ground arith, ap (λ r. r.1.versions) (sym e) ∙ sym (select-all db.versions))
  revert_all-versions directory (v ∷ vs) db {reverted} {last} e =
      elim (Option-cases (down_file exec v directory)) [
        | inl missing ↦ absurd (ground arith)
        | inr (f, there) ↦
            let out = execute_sql_file exec f db.schema in
            let left = select (λ w. not (str_eq v w)) db.versions in
            let mid : Database S = record { schema = out.1; versions = left } in
            elim (Bool-cases out.0) [
              | inr fails ↦ absurd (ground arith)
              | inl done ↦
                  let rest = revert_all exec directory vs mid in
                  let step : rest ≡ ((rest.0.0, true), rest.1) = ground arith in
                  let (all, ledger) = revert_all-versions directory vs mid step in
                  let mine : v ∷ rest.0.0 ≡ reverted = ground arith in
                  let final : rest.1 ≡ last = ground arith in
                  (
                    sym mine ∙ ap (λ (r : List String). v ∷ r) all,
                    ap (λ (d : Database S). d.versions) (sym final)
                        ∙ ledger
                        ∙ select-select v vs db.versions,
                  )
            ]
      ]

  -- If a rollback ends without an exception, it has reverted the last versions of the ledger, as
  -- many as its steps and from the last on, and the ledger keeps the other versions in their
  -- order.
  pub rollback_migrations-versions :
      (collation : String → String → Bool) (directory : List File) (steps : ℕ) (db : Database S)
      {reverted : List String} {last : Database S}
      → rollback_migrations exec collation directory steps db ≡ (some reverted, last)
      → (reverted ≡ last_versions collation steps db.versions)
        × (last.versions ≡ select (λ w. not (mem w reverted)) db.versions)
  unfolding rollback_migrations
  rollback_migrations-versions collation directory steps db {reverted} {last} e =
      let vs = last_versions collation steps db.versions in
      let r = revert_all exec directory vs db in
      let ended : r ≡ ((r.0.0, true), r.1) = ground arith in
      let same : r.0.0 ≡ reverted = ground arith in
      let final : r.1 ≡ last = ground arith in
      let (all, ledger) = revert_all-versions directory vs db ended in
      let whole : reverted ≡ vs = sym same ∙ all in
      (
        whole,
        ap (λ (d : Database S). d.versions) (sym final)
            ∙ ledger
            ∙ ap (λ (x : List String). select (λ w. not (mem w x)) db.versions) (sym whole),
      )
