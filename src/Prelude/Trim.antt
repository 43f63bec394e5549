-- ===== src/Prelude/Trim.antt =====
-- Python's `str.strip` of a string, over its characters.
use Prim.Native.Char.{code}
use case_fullstack_senior.Prelude.{
  ℕ, String, Bool, true, false, ◌&&◌, ◌≡◌, refl, ap, ◌∙◌, if◌then◌else◌, inl, inr, Bool-cases,
}
use case_fullstack_senior.Prelude.Text.{codes}
use case_fullstack_senior.Prelude.Strip.{is_empty, strip_start, strip_end, strip}

abbrev pub is_blank : String → Bool
is_blank String.[] = true
is_blank (String.◌∷◌ c s) = false

abbrev pub trim_start : (ℕ → Bool) → String → String
trim_start p String.[] = String.[]
trim_start p (String.◌∷◌ c s) =
    let rest = trim_start p s in if p (code c) then rest else String.◌∷◌ c s

abbrev pub trim_end : (ℕ → Bool) → String → String
trim_end p String.[] = String.[]
trim_end p (String.◌∷◌ c s) =
    let rest = trim_end p s in if p (code c) && is_blank rest then String.[] else String.◌∷◌ c rest

abbrev pub trim : (ℕ → Bool) → String → String
trim p s = trim_end p (trim_start p s)

is_empty-codes : (s : String) → is_empty (codes s) ≡ is_blank s
is_empty-codes String.[] = refl
is_empty-codes (String.◌∷◌ c s) = refl

codes-trim_start : (p : ℕ → Bool) (s : String) → codes (trim_start p s) ≡ strip_start p (codes s)
codes-trim_start p String.[] = refl
codes-trim_start p (String.◌∷◌ c s) = elim (Bool-cases (p (code c))) [
  | inl white ↦ rw white (codes-trim_start p s)
  | inr black ↦ rw black refl
]

codes-trim_end : (p : ℕ → Bool) (s : String) → codes (trim_end p s) ≡ strip_end p (codes s)
codes-trim_end p String.[] = refl
codes-trim_end p (String.◌∷◌ c s) =
    rw (← codes-trim_end p s, is_empty-codes)
      (elim (Bool-cases (p (code c) && is_blank (trim_end p s))) [
        | inl white ↦ rw white refl
        | inr black ↦ rw black refl
      ])

pub codes-trim : (p : ℕ → Bool) (s : String) → codes (trim p s) ≡ strip p (codes s)
codes-trim p s = codes-trim_end p (trim_start p s) ∙ ap (strip_end p) (codes-trim_start p s)
