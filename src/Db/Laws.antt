-- ===== src/Db/Laws.antt =====
-- What a statement changes, row by row and count by count.
use case_fullstack_senior.Prelude.{
  ℕ, ◌+◌, Bool, ◌≡◌, refl, none, some, List, [], ◌∷◌, ◌++◌, ◌==◌, arith, if◌then◌else◌, count,
}
use case_fullstack_senior.Db.Schema.{Job}
use case_fullstack_senior.Db.Query.{find, replace}

-- The row that a primary key finds has that key.
pub find-id : (k : ℕ) (l : List Job) {j : Job} → find k l ≡ some j → j.id ≡ k
unfolding find
find-id k [] h = cc
find-id k (i ∷ l) {j} h = ground (arith, find-id k l {j = j})

pub find-replace :
    (i k : ℕ) (j : Job) (l : List Job)
    → j.id ≡ k
    → find i (replace k j l)
      ≡ (if i == k then (elim (find k l) [ none ↦ none | some _ ↦ some j ]) else find i l)
unfolding find replace
find-replace i k j [] h = ground arith
find-replace i k j (x ∷ l) h = ground (arith, find-replace i k j l h)

pub count-replace :
    (p : Job → Bool) (k : ℕ) (j : Job) (l : List Job) {old : Job}
    → find k l ≡ some old
    → count p (replace k j l) + (if p old then 1 else 0) ≡ count p l + (if p j then 1 else 0)
unfolding find replace
count-replace p k j [] h = cc
count-replace p k j (x ∷ l) {old} h = ground (arith, count-replace p k j l {old = old})

pub find-append :
    (k : ℕ) (l : List Job) (j : Job)
    → find k (l ++ j ∷ [])
      ≡ (elim (find k l) [ none ↦ (if j.id == k then some j else none) | some i ↦ some i ])
unfolding find
find-append k [] j = refl
find-append k (x ∷ l) j = ground (arith, find-append k l j)
