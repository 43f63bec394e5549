-- ===== src/Http/Schemas/Rows.antt =====
-- The validation of the rows of a page, over tables.
use case_fullstack_senior.Prelude.{
  ℕ, Bool, true, ◌≡◌, ◌≤◌, refl, Option, none, some, List, [], ◌∷◌, map, ◌==◌, leb, inl, inr,
  Bool-cases, arith,
}
use case_fullstack_senior.Prelude.Every.{Every}
use case_fullstack_senior.Prelude.Text.{codes}
use case_fullstack_senior.Db.Schema.{is_done, is_cancelled, Job, Db}
use case_fullstack_senior.Db.Query.{find, result_count}
use case_fullstack_senior.Db.Laws.{find-id}
use case_fullstack_senior.Invariant.{IsBacked, RowValid, IsUnique, IsValid, is_exhausted}
use case_fullstack_senior.Service.Reads.{summary_of}
use case_fullstack_senior.Http.Schemas.{job_kind, SummaryOut, validate_summary, validate_rows}

-- A job of a company whose kind is one that a request may send.
pub record IsFit (is_white : ℕ → Bool) (j : Job) : Type 0 where
  pub numbered : 1 ≤ j.id
  pub owned : 1 ≤ j.company_id
  pub named : job_kind is_white (codes j.kind) ≡ some (codes j.kind)

abbrev pub AllFit : (ℕ → Bool) → Db → Type 0
AllFit is_white db = (k : ℕ) (j : Job) → find k db.jobs ≡ some j → IsFit is_white j

-- What holds of each row that its key finds holds of every row.
pub Every-find :
    (P : Job → Type 0) (l : List Job)
    → IsUnique l
    → ((k : ℕ) (j : Job) → find k l ≡ some j → P j)
    → Every P l
unfolding find
Every-find P [] unique h = tt
Every-find P (j ∷ l) unique h = (
  h j.id j (ground arith),
  Every-find P l unique.1 (λ k i found. elim (Bool-cases (j.id == k)) [
    | inl at ↦
        let e : j.id ≡ k = ground arith in
        let gone : find k l ≡ none = rw⁻¹ e unique.0 in absurd (ground arith)
    | inr apart ↦ h k i (rw apart found)
  ]),
)

-- The body of a row, with its kind as it is stored
abbrev pub out_of : Db → Job → SummaryOut
out_of db j = record {
  id = j.id;
  kind = codes j.kind;
  status = j.status;
  created_at = j.created_at;
  result_count = result_count j.id db.job_results;
}

validate_summary-IsFit :
    (is_white : ℕ → Bool) (db : Db) (j : Job)
    → IsFit is_white j
    → result_count j.id db.job_results ≤ 1
    → validate_summary is_white (summary_of db j) ≡ some (out_of db j)
unfolding validate_summary
validate_summary-IsFit is_white db j fit one =
    let id_ok : leb 1 j.id ≡ true = ground (arith, fit.numbered) in
    let count_ok : leb (result_count j.id db.job_results) 1 ≡ true = ground arith in
    rw (validate_summary, fit.named, id_ok, count_ok) refl

pub RowValid-one :
    (db : Db) (k : ℕ) {j : Job}
    → IsValid db
    → find k db.jobs ≡ some j
    → result_count k db.job_results ≤ 1
RowValid-one db k {j} h found =
    let at : RowValid db k (some j) = rw found at (h.rows k) in
    let b : IsBacked db k (is_done j.status) (is_cancelled j.status) (is_exhausted j) = at.1 in
    let e = b.results in ground arith

-- A row that its key finds is accepted as it is.
pub accepted_row :
    (is_white : ℕ → Bool) (db : Db)
    → IsValid db
    → AllFit is_white db
    → Every (λ j. validate_summary is_white (summary_of db j) ≡ some (out_of db j)) db.jobs
accepted_row is_white db h fit = Every-find _ db.jobs h.keyed.unique (λ k j found.
    validate_summary-IsFit is_white db j (fit k j found)
      (rw (find-id k db.jobs found) (RowValid-one db k h found)))

-- Rows that are accepted one by one are accepted together.
pub validate_rows-Every :
    {A B C : Type 0} (validate : A → Option B) (f : C → A) (g : C → B) (l : List C)
    → Every (λ x. validate (f x) ≡ some (g x)) l
    → validate_rows validate (map f l) ≡ some (map g l)
validate_rows-Every validate f g [] h = refl
validate_rows-Every validate f g (x ∷ l) (first, others) =
    rw (first, validate_rows-Every validate f g l others) refl
