-- ===== src/Prelude/Text.antt =====
-- Texts as lists of code points, and the tests of Python's `str` that the code uses.
use Prim.Native.Char.{code}
use case_fullstack_senior.Prelude.{
  ℕ, String, Bool, true, false, ◌&&◌, ◌||◌, List, [], ◌∷◌, ◌==◌, ◌≡◌, refl, ap, ◌∙◌, arith,
}

abbrev pub Text : Type 0
Text = List ℕ

abbrev pub codes : String → Text
codes String.[] = []
codes (String.◌∷◌ c s) = code c ∷ codes s

abbrev pub same : Text → Text → Bool
same [] [] = true
same (a ∷ s) (b ∷ t) = a == b && same s t
same _ _ = false

-- `text.startswith(prefix)`
abbrev pub starts_with : Text → Text → Bool
starts_with [] t = true
starts_with (a ∷ s) [] = false
starts_with (a ∷ s) (b ∷ t) = a == b && starts_with s t

-- `part in text`
abbrev pub contains : Text → Text → Bool
contains part [] = starts_with part []
contains part (c ∷ t) = starts_with part (c ∷ t) || contains part t

-- Only equal texts are the same.
pub same-equal : (s t : Text) → same s t ≡ true → s ≡ t
same-equal [] [] h = refl
same-equal [] (b ∷ t) h = absurd (ground arith)
same-equal (a ∷ s) [] h = absurd (ground arith)
same-equal (a ∷ s) (b ∷ t) h =
    let head : a ≡ b = ground arith in
    let tail : s ≡ t = same-equal s t (ground arith) in
    ap (λ (x : ℕ). x ∷ s) head ∙ ap (λ (r : Text). b ∷ r) tail
