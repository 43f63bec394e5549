-- ===== src/Prelude/Strip.antt =====
-- Python's `str.strip`, and the characters that it takes off.
use case_fullstack_senior.Prelude.{
  ℕ, Bool, true, false, ◌&&◌, ◌||◌, ◌≡◌, refl, ap, ◌∙◌, [], ◌∷◌, ◌++◌, ◌==◌, leb, if◌then◌else◌,
  any, arith, inl, inr, Bool-cases,
}
use case_fullstack_senior.Prelude.Text.{Text}

abbrev pub is_empty : Text → Bool
is_empty [] = true
is_empty (c ∷ t) = false

-- The characters at which `str.splitlines` ends a line. `read_text` has made "\n" of every "\r\n".
abbrev pub is_break : ℕ → Bool
is_break c = leb 10 c && leb c 13 || leb 28 c && leb c 30 || c == 133 || leb 8232 c && leb c 8233

-- `str.isspace` of one character
abbrev pub is_space : ℕ → Bool
is_space c =
    is_break c
    || c == 9
    || c == 31
    || c == 32
    || c == 160
    || c == 5760
    || leb 8192 c && leb c 8202
    || c == 8239
    || c == 8287
    || c == 12288

abbrev pub strip_start : (ℕ → Bool) → Text → Text
strip_start p [] = []
strip_start p (c ∷ t) = let rest = strip_start p t in if p c then rest else c ∷ t

abbrev pub strip_end : (ℕ → Bool) → Text → Text
strip_end p [] = []
strip_end p (c ∷ t) = let rest = strip_end p t in if p c && is_empty rest then [] else c ∷ rest

-- `str.strip` of the characters of a set
abbrev pub strip : (ℕ → Bool) → Text → Text
strip p t = strip_end p (strip_start p t)

abbrev pub begins : (ℕ → Bool) → Text → Bool
begins p [] = false
begins p (c ∷ t) = p c

abbrev pub ends : (ℕ → Bool) → Text → Bool
ends p [] = false
ends p (c ∷ t) = let rest = ends p t in if is_empty t then p c else rest

pub ends-append :
    (p : ℕ → Bool) (s : Text) (c : ℕ) (t : Text) → ends p (s ++ c ∷ t) ≡ ends p (c ∷ t)
ends-append p [] c t = refl
ends-append p (d ∷ []) c t = refl
ends-append p (d ∷ e ∷ s) c t = ends-append p (e ∷ s) c t

pub ends-any : (p : ℕ → Bool) (t : Text) → any p t ≡ false → ends p t ≡ false
ends-any p [] h = refl
ends-any p (c ∷ t) h = let rest = ends-any p t (ground arith) in ground arith

pub strip_end-ends : (p : ℕ → Bool) (t : Text) → ends p t ≡ false → strip_end p t ≡ t
strip_end-ends p [] h = refl
strip_end-ends p (c ∷ []) h = ground arith
strip_end-ends p (c ∷ d ∷ t) h =
    let rest : strip_end p (d ∷ t) ≡ d ∷ t = strip_end-ends p (d ∷ t) h in ground arith

pub strip_end-snoc :
    (p : ℕ → Bool) (t : Text) (q : ℕ) → p q ≡ true → strip_end p (t ++ q ∷ []) ≡ strip_end p t
strip_end-snoc p [] q h = ground arith
strip_end-snoc p (c ∷ t) q h = rw (strip_end-snoc p t q h) refl

pub strip_start-begins : (p : ℕ → Bool) (t : Text) → begins p t ≡ false → strip_start p t ≡ t
strip_start-begins p [] h = refl
strip_start-begins p (c ∷ t) h = ground arith

pub strip-bare : (p : ℕ → Bool) (t : Text) → begins p t ≡ false → ends p t ≡ false → strip p t ≡ t
strip-bare p t b e = ap (strip_end p) (strip_start-begins p t b) ∙ strip_end-ends p t e

strip_end-begins : (p : ℕ → Bool) (t : Text) → begins p t ≡ false → begins p (strip_end p t) ≡ false
strip_end-begins p [] h = refl
strip_end-begins p (c ∷ t) h = let plain : p c ≡ false = h in rw plain plain

begins-strip_start : (p : ℕ → Bool) (t : Text) → begins p (strip_start p t) ≡ false
begins-strip_start p [] = refl
begins-strip_start p (c ∷ t) = elim (Bool-cases (p c)) [
  | inl at ↦ rw at (begins-strip_start p t)
  | inr apart ↦ rw apart apart
]

ends-kept :
    (p : ℕ → Bool) (c : ℕ) (rest : Text)
    → ends p rest ≡ false
    → ends p (if p c && is_empty rest then [] else c ∷ rest) ≡ false
ends-kept p c [] h = elim (Bool-cases (p c)) [ inl at ↦ rw at refl | inr apart ↦ rw apart apart ]
ends-kept p c (d ∷ rest) h = elim (Bool-cases (p c)) [ inl at ↦ rw at h | inr apart ↦ rw apart h ]

ends-strip_end : (p : ℕ → Bool) (t : Text) → ends p (strip_end p t) ≡ false
ends-strip_end p [] = refl
ends-strip_end p (c ∷ t) = ends-kept p c (strip_end p t) (ends-strip_end p t)

-- What is stripped is not stripped again.
pub strip-strip : (p : ℕ → Bool) (t : Text) → strip p (strip p t) ≡ strip p t
strip-strip p t =
    strip-bare p (strip p t) (strip_end-begins p (strip_start p t) (begins-strip_start p t))
      (ends-strip_end p (strip_start p t))
