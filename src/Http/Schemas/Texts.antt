-- ===== src/Http/Schemas/Texts.antt =====
-- The texts that pass the constraints of a request.
use case_fullstack_senior.Prelude.{
  ℕ, Bool, false, ◌&&◌, ◌≡◌, ◌≤◌, ap, sym, ◌∙◌, none, some, leb, if◌then◌else◌, any, length, inl,
  inr, Bool-cases, arith,
}
use case_fullstack_senior.Prelude.Strip.{strip, strip-strip}
use case_fullstack_senior.Prelude.Text.{Text}
use case_fullstack_senior.Http.Schemas.{
  is_control, reject_control_characters, constrained, job_kind, idempotency_key,
}

-- What a text of at most n characters is that has passed its constraints.
abbrev pub IsConstrained : (ℕ → Bool) → ℕ → Text → Text → Type 0
IsConstrained is_white n sent kept =
    (kept ≡ strip is_white sent)
    × (1 ≤ length kept)
    × (length kept ≤ n)
    × (any is_control kept ≡ false)
    × (constrained is_white n kept ≡ some kept)

constrained-IsConstrained :
    (is_white : ℕ → Bool) (n : ℕ) (sent : Text) {kept : Text}
    → constrained is_white n sent ≡ some kept
    → IsConstrained is_white n sent kept
constrained-IsConstrained is_white n sent {kept} accepted =
    let s = strip is_white sent in
    elim (Bool-cases (leb 1 (length s) && leb (length s) n)) [
      | inr out ↦ absurd (ground arith)
      | inl fits ↦ elim (Bool-cases (any is_control s)) [
        | inl control ↦ absurd (ground arith)
        | inr plain ↦
            let same : s ≡ kept = ground arith in
            (
              sym same,
              rw⁻¹ same (ground arith),
              rw⁻¹ same (ground arith),
              rw⁻¹ same plain,
              ap (constrained is_white n) (sym same)
                  ∙ ap
                      (λ x.
                        if leb 1 (length x) && leb (length x) n
                        then reject_control_characters x
                        else none)
                      (strip-strip is_white sent)
                  ∙ accepted,
            )
      ]
    ]

-- If a request's `kind` is accepted, then what is kept is the text without the white space at its
-- ends, has 1 to 100 characters and no control character, and is accepted again as it is: the
-- validation of an answer with a stored kind changes nothing.
pub job_kind-IsConstrained :
    (is_white : ℕ → Bool) (sent : Text) {kept : Text}
    → job_kind is_white sent ≡ some kept
    → IsConstrained is_white 100 sent kept
unfolding job_kind
job_kind-IsConstrained is_white sent = constrained-IsConstrained is_white 100 sent

-- The same of an `Idempotency-Key`, with 1 to 200 characters.
pub idempotency_key-IsConstrained :
    (is_white : ℕ → Bool) (sent : Text) {kept : Text}
    → idempotency_key is_white sent ≡ some kept
    → IsConstrained is_white 200 sent kept
unfolding idempotency_key
idempotency_key-IsConstrained is_white sent = constrained-IsConstrained is_white 200 sent
