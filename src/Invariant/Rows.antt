-- ===== src/Invariant/Rows.antt =====
-- The invariant under a change that concerns one job.
use mathlib.Core.Path.{subst}
use case_fullstack_senior.Prelude.{ℕ, ◌≢◌, ◌∙◌, Option, none, some, inl, inr, Bool, eq-cases}
use case_fullstack_senior.Db.Schema.{Job, EventType, Db}
use case_fullstack_senior.Db.Query.{find}
use case_fullstack_senior.Db.Local.{Local}
use case_fullstack_senior.Invariant.{RowValid, AllRows, IsBacked}

-- What the other tables hold of a key carries over where the counts of the key do.
pub IsBacked-of_Local :
    {k i : ℕ} {db db' : Db} {d c x : Bool}
    → Local k db db'
    → i ≢ k
    → IsBacked db i d c x
    → IsBacked db' i d c x
IsBacked-of_Local {i} l h b = record {
  results = l.results i h ∙ b.results;
  completions = l.events EventType.completed i h ∙ b.completions;
  cancellations = l.events EventType.cancelled i h ∙ b.cancellations;
  letters = l.letters i h ∙ b.letters;
}

pub RowValid-of_Local :
    {k i : ℕ} {db db' : Db} (o : Option Job)
    → Local k db db'
    → i ≢ k
    → RowValid db i o
    → RowValid db' i o
RowValid-of_Local none l h b = IsBacked-of_Local l h b
RowValid-of_Local (some j) l h (s, b) = (s, IsBacked-of_Local l h b)

-- A change that concerns job k keeps every row valid, if it leaves row k valid.
pub AllRows-of_Local :
    {k : ℕ} {db db' : Db}
    → Local k db db'
    → AllRows db
    → RowValid db' k (find k db'.jobs)
    → AllRows db'
AllRows-of_Local {k} {db} {db'} l h at i = elim (eq-cases i k) [
  | inl same ↦ subst (λ n. RowValid db' n (find n db'.jobs)) same at
  | inr other ↦ rw (l.rows i other) (RowValid-of_Local (find i db.jobs) l other (h i))
]
