-- ===== src/Worker/Order.antt =====
-- `ORDER BY id LIMIT 1` over the rows that pass a test.
use case_fullstack_senior.Prelude.{
  ℕ, ◌≤◌, Bool, true, false, ◌≡◌, none, some, List, [], ◌∷◌, arith, select, Option-cases, inl, inr,
}
use case_fullstack_senior.Db.Schema.{Job}
use case_fullstack_senior.Db.Query.{find}
use case_fullstack_senior.Invariant.{IsUnique}
use case_fullstack_senior.Worker.{first_by_id}

-- The row found passes the test, and is the row of its key.
pub first_by_id-select :
    (p : Job → Bool) (l : List Job) {j : Job}
    → IsUnique l
    → first_by_id (select p l) ≡ some j
    → (p j ≡ true) × (find j.id l ≡ some j)
unfolding first_by_id find
first_by_id-select p [] u e = cc
first_by_id-select p (x ∷ l) {j} (new, u) e = elim (Option-cases (first_by_id (select p l))) [
  | inl end' ↦ ground arith
  | inr (i, rest) ↦ ground (arith, first_by_id-select p l {j = i} u rest)
]

-- Nothing is found only where no row passes the test.
pub first_by_id-none :
    (p : Job → Bool) (l : List Job) (k : ℕ) {i : Job}
    → first_by_id (select p l) ≡ none
    → find k l ≡ some i
    → p i ≡ false
unfolding first_by_id find
first_by_id-none p [] k e f = cc
first_by_id-none p (x ∷ l) k {i} e f = elim (Option-cases (first_by_id (select p l))) [
  | inl end' ↦ ground (arith, first_by_id-none p l k {i = i} end')
  | inr (j, rest) ↦ ground arith
]

-- Every row that passes the test has the key of the row found, or a greater one.
pub first_by_id-least :
    (p : Job → Bool) (l : List Job) (k : ℕ) {i j : Job}
    → first_by_id (select p l) ≡ some j
    → find k l ≡ some i
    → p i ≡ true
    → j.id ≤ k
unfolding first_by_id find
first_by_id-least p [] k e f t = cc
first_by_id-least p (x ∷ l) k {i} {j} e f t = elim (Option-cases (first_by_id (select p l))) [
  | inl end' ↦ ground (arith, first_by_id-none p l k {i = i} end')
  | inr (m, rest) ↦ ground (arith, first_by_id-least p l k {i = i} {j = m} rest)
]
