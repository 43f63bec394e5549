-- ===== src/Prelude/Every.antt =====
-- What holds of every row of a table holds of every row of a page of it.
use case_fullstack_senior.Prelude.{
  ℕ, zero, suc, Bool, List, [], ◌∷◌, take, drop, select, inl, inr, Bool-cases,
}
use case_fullstack_senior.Prelude.Pages.{insert_by, sort_by, page}

module _ {A : Type 0} where
  abbrev pub Every : (A → Type 0) → List A → Type 0
  Every P [] = Unit
  Every P (x ∷ xs) = P x × Every P xs

  Every-insert_by :
      (before : A → A → Bool) (P : A → Type 0) (x : A) (l : List A)
      → P x
      → Every P l
      → Every P (insert_by before x l)
  Every-insert_by before P x [] one h = (one, tt)
  Every-insert_by before P x (y ∷ ys) one (first, others) = elim (Bool-cases (before x y)) [
    | inl at ↦ rw at (one, (first, others))
    | inr apart ↦ rw apart (first, Every-insert_by before P x ys one others)
  ]

  Every-sort_by :
      (before : A → A → Bool) (P : A → Type 0) (l : List A) → Every P l → Every P (sort_by before l)
  unfolding sort_by
  Every-sort_by before P [] h = tt
  Every-sort_by before P (x ∷ xs) (first, others) =
      Every-insert_by before P x (sort_by before xs) first (Every-sort_by before P xs others)

  pub Every-select : (P : A → Type 0) (q : A → Bool) (l : List A) → Every P l → Every P (select q l)
  Every-select P q [] h = tt
  Every-select P q (x ∷ xs) (first, others) = elim (Bool-cases (q x)) [
    | inl at ↦ rw at (first, Every-select P q xs others)
    | inr apart ↦ rw apart (Every-select P q xs others)
  ]

  Every-take : (P : A → Type 0) (n : ℕ) (l : List A) → Every P l → Every P (take n l)
  Every-take P zero l h = tt
  Every-take P (suc n) [] h = tt
  Every-take P (suc n) (x ∷ xs) (first, others) = (first, Every-take P n xs others)

  Every-drop : (P : A → Type 0) (n : ℕ) (l : List A) → Every P l → Every P (drop n l)
  Every-drop P zero l h = h
  Every-drop P (suc n) [] h = tt
  Every-drop P (suc n) (x ∷ xs) (first, others) = Every-drop P n xs others

  pub Every-sorted_page :
      (before : A → A → Bool) (P : A → Type 0) (limit offset : ℕ) (l : List A)
      → Every P l
      → Every P (page limit offset (sort_by before l))
  Every-sorted_page before P limit offset l h =
      Every-take P limit (drop offset (sort_by before l))
        (Every-drop P offset (sort_by before l) (Every-sort_by before P l h))

  pub Every-page :
      (before : A → A → Bool) (P : A → Type 0) (q : A → Bool) (limit offset : ℕ) (l : List A)
      → Every P l
      → Every P (page limit offset (sort_by before (select q l)))
  Every-page before P q limit offset l h =
      Every-sorted_page before P limit offset (select q l) (Every-select P q l h)

  pub weaken : (P Q : A → Type 0) (l : List A) → ((x : A) → P x → Q x) → Every P l → Every Q l
  weaken P Q [] le h = tt
  weaken P Q (x ∷ xs) le (first, others) = (le x first, weaken P Q xs le others)
