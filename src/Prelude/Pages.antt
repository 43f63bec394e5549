-- ===== src/Prelude/Pages.antt =====
-- ORDER BY … LIMIT … OFFSET …: rows sorted by a test, and the pages of a list.
use case_fullstack_senior.Prelude.{
  ℕ, zero, suc, ◌+◌, ◌-◌, ◌≡◌, refl, ◌∙◌, ap, sym, Bool, List, [], ◌∷◌, ◌++◌, map, arith, leb,
  if◌then◌else◌, length, take, drop, count,
}

module _ {ℓ} {A : Type ℓ} where
  abbrev pub insert_by : (A → A → Bool) → A → List A → List A
  insert_by before x [] = x ∷ []
  insert_by before x (y ∷ ys) =
      let rest = insert_by before x ys in if before x y then x ∷ y ∷ ys else y ∷ rest

  -- The rows in the order of a test that tells whether one stands before another.
  unfoldable pub sort_by : (A → A → Bool) → List A → List A
  sort_by before [] = []
  sort_by before (x ∷ xs) = insert_by before x (sort_by before xs)

  abbrev pub page : ℕ → ℕ → List A → List A
  page limit offset l = take limit (drop offset l)

  length-insert_by :
      (before : A → A → Bool) (x : A) (l : List A) → length (insert_by before x l) ≡ suc (length l)
  length-insert_by before x [] = refl
  length-insert_by before x (y ∷ ys) = ground (arith, length-insert_by before x ys)

  pub length-sort_by : (before : A → A → Bool) (l : List A) → length (sort_by before l) ≡ length l
  unfolding sort_by
  length-sort_by before [] = refl
  length-sort_by before (x ∷ xs) =
      length-insert_by before x (sort_by before xs) ∙ ap suc (length-sort_by before xs)

  count-insert_by :
      (before : A → A → Bool) (p : A → Bool) (x : A) (l : List A)
      → count p (insert_by before x l) ≡ (if p x then 1 else 0) + count p l
  count-insert_by before p x [] = refl
  count-insert_by before p x (y ∷ ys) = ground (arith, count-insert_by before p x ys)

  -- Sorting keeps how many rows pass any test.
  pub count-sort_by :
      (before : A → A → Bool) (p : A → Bool) (l : List A) → count p (sort_by before l) ≡ count p l
  unfolding sort_by
  count-sort_by before p [] = refl
  count-sort_by before p (x ∷ xs) =
      count-insert_by before p x (sort_by before xs)
      ∙ ap (λ n. (if p x then 1 else 0) + n) (count-sort_by before p xs)

  pub length-take :
      (n : ℕ) (l : List A) → length (take n l) ≡ (if leb n (length l) then n else length l)
  length-take zero l = ground arith
  length-take (suc n) [] = ground arith
  length-take (suc n) (x ∷ xs) = ground (arith, length-take n xs)

  pub length-drop : (n : ℕ) (l : List A) → length (drop n l) ≡ length l - n
  length-drop zero l = ground arith
  length-drop (suc n) [] = ground arith
  length-drop (suc n) (x ∷ xs) = ground (arith, length-drop n xs)

  take-empty : (n : ℕ) → take {A = A} n [] ≡ []
  take-empty zero = refl
  take-empty (suc n) = refl

  drop-empty : (n : ℕ) → drop {A = A} n [] ≡ []
  drop-empty zero = refl
  drop-empty (suc n) = refl

  take-take : (a b : ℕ) (l : List A) → take a l ++ take b (drop a l) ≡ take (a + b) l
  take-take zero b l = let e : b ≡ 0 + b = omega arith in ap (λ n. take n l) e
  take-take (suc a) b [] = take-empty b ∙ sym (take-empty (suc a + b))
  take-take (suc a) b (x ∷ xs) =
      let e : suc (a + b) ≡ suc a + b = omega arith in
      ap (λ (r : List A). x ∷ r) (take-take a b xs) ∙ ap (λ n. take n (x ∷ xs)) e

  drop-drop : (a b : ℕ) (l : List A) → drop a (drop b l) ≡ drop (b + a) l
  drop-drop a zero l = let e : a ≡ 0 + a = omega arith in ap (λ n. drop n l) e
  drop-drop a (suc b) [] = drop-empty a ∙ sym (drop-empty (suc b + a))
  drop-drop a (suc b) (x ∷ xs) =
      let e : suc (b + a) ≡ suc b + a = omega arith in
      drop-drop a b xs ∙ ap (λ n. drop n (x ∷ xs)) e

  -- A page and the next one are the page of both.
  pub page-next :
      (a b offset : ℕ) (l : List A)
      → page a offset l ++ page b (offset + a) l ≡ page (a + b) offset l
  page-next a b offset l =
      ap (λ r. take a (drop offset l) ++ take b r) (sym (drop-drop a offset l))
      ∙ take-take a b (drop offset l)

module _ {ℓ ℓ'} {A : Type ℓ} {B : Type ℓ'} where
  pub length-map : (f : A → B) (l : List A) → length (map f l) ≡ length l
  length-map f [] = refl
  length-map f (x ∷ xs) = ap suc (length-map f xs)

  pub map-append : (f : A → B) (k l : List A) → map f (k ++ l) ≡ map f k ++ map f l
  map-append f [] l = refl
  map-append f (x ∷ xs) l = ap (λ (r : List B). f x ∷ r) (map-append f xs l)
