-- ===== src/Invariant/Keys.antt =====
-- The keys of the job table under the three ways in which it changes: one row is rewritten, all
-- rows are mapped, a row is appended. Rewriting keeps the identity of a row.
use case_fullstack_senior.Prelude.{
  ℕ, ◌+◌, ◌≤◌, String, Bool, true, false, ◌≡◌, refl, none, some, List, [], ◌∷◌, ◌++◌, map, ap,
  arith, count, count-append, select, fetchone, Bool-cases, inl, inr, ◌⊎◌,
}
use case_fullstack_senior.Db.Schema.{Job}
use case_fullstack_senior.Db.Query.{find, replace}
use case_fullstack_senior.Db.Laws.{find-id, find-replace, find-append, count-replace}
use case_fullstack_senior.Invariant.{IsUnique, once, has_key, IsKeyed}

pub record SameIdentity (i j : Job) : Type 0 where
  pub id : j.id ≡ i.id
  pub company_id : j.company_id ≡ i.company_id
  pub idempotency_key : j.idempotency_key ≡ i.idempotency_key

has_key-SameIdentity :
    (c : ℕ) (key : String) {i j : Job} → SameIdentity i j → has_key c key j ≡ has_key c key i
has_key-SameIdentity c key s = rw (s.company_id, s.idempotency_key)

-- A rewritten row

IsUnique-replace :
    (k : ℕ) (j : Job) (l : List Job) → j.id ≡ k → IsUnique l → IsUnique (replace k j l)
unfolding replace
IsUnique-replace k j [] e u = tt
IsUnique-replace k j (x ∷ l) e (new, u) =
    ground (arith, IsUnique-replace k j l e u, find-replace x.id k j l e)

pub IsKeyed-replace :
    (k : ℕ) (j : Job) (l : List Job) {next : ℕ} {old : Job}
    → find k l ≡ some old
    → SameIdentity old j
    → IsKeyed l next
    → IsKeyed (replace k j l) next
IsKeyed-replace k j l {next} {old} found same h =
    let e : j.id ≡ k = ground (arith, find-id k l found) in
    record {
      unique = IsUnique-replace k j l e h.unique;
      fresh = λ n above. ground (arith, find-replace n k j l e, h.fresh n above);
      keys = λ c key. omega (
        arith,
        h.keys c key,
        count-replace (has_key c key) k j l found,
        ap once (has_key-SameIdentity c key same),
      );
    }

-- A mapped table

module _ (f : Job → Job) (same : (j : Job) → SameIdentity j (f j)) where
  pub find-map :
      (k : ℕ) (l : List Job)
      → find k (map f l) ≡ (elim (find k l) [ none ↦ none | some j ↦ some (f j) ])
  unfolding find
  find-map k [] = refl
  find-map k (x ∷ l) = ground (arith, (same x).id, find-map k l)

  pub IsUnique-map : (l : List Job) → IsUnique l → IsUnique (map f l)
  IsUnique-map [] u = tt
  IsUnique-map (x ∷ l) (new, u) = (rw ((same x).id, find-map, new) refl, IsUnique-map l u)

  keys-map :
      (c : ℕ) (key : String) (l : List Job)
      → count (has_key c key) (map f l) ≡ count (has_key c key) l
  keys-map c key [] = refl
  keys-map c key (x ∷ l) = rw (has_key-SameIdentity c key (same x), keys-map c key l)

  pub IsKeyed-map : (l : List Job) {next : ℕ} → IsKeyed l next → IsKeyed (map f l) next
  IsKeyed-map l h = record {
    unique = IsUnique-map l h.unique;
    fresh = λ n above. rw (find-map, h.fresh n above) refl;
    keys = λ c key. rw keys-map (h.keys c key);
  }

-- An appended row

IsUnique-append :
    (j : Job) (l : List Job) → find j.id l ≡ none → IsUnique l → IsUnique (l ++ j ∷ [])
unfolding find
IsUnique-append j [] e u = (refl, tt)
IsUnique-append j (x ∷ l) e (new, u) = ground (arith, IsUnique-append j l, find-append x.id l j)

count-none : (p : Job → Bool) (l : List Job) → fetchone (select p l) ≡ none → count p l ≡ 0
count-none p [] h = refl
count-none p (x ∷ l) h = ground (arith, count-none p l)

-- Inserting a row under the next key of the sequence, and a key that its company has not used.
pub IsKeyed-append :
    (j : Job) (l : List Job) {next : ℕ}
    → j.id ≡ next
    → ((c : ℕ) (key : String) → has_key c key j ≡ true → fetchone (select (has_key c key) l) ≡ none)
    → IsKeyed l next
    → IsKeyed (l ++ j ∷ []) (next + 1)
IsKeyed-append j l {next} e new h = record {
  unique = IsUnique-append j l (rw e (h.fresh next (omega arith))) h.unique;
  fresh = λ n above. ground (arith, find-append n l j, h.fresh n);
  keys = λ c key. rw count-append (keys_left c key (Bool-cases (has_key c key j)));
}
  where
    keys_left :
        (c : ℕ) (key : String)
        → (has_key c key j ≡ true) ⊎ (has_key c key j ≡ false)
        → count (has_key c key) l + count (has_key c key) (j ∷ []) ≤ 1
    keys_left c key (inl used) =
        rw used (omega (arith, count-none (has_key c key) l (new c key used)))
    keys_left c key (inr other) = rw other (omega (arith, h.keys c key))

-- A number of the sequence may be lost.
pub IsKeyed-skip : (l : List Job) {next : ℕ} → IsKeyed l next → IsKeyed l (next + 1)
IsKeyed-skip l h = record {
  unique = h.unique;
  fresh = λ n above. h.fresh n (omega arith);
  keys = h.keys;
}
