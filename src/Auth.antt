-- ===== src/Auth.antt =====
-- api/modules/auth/context.py: the header X-Auth as code points. The validation of the two parts by
-- pydantic is a parameter.
pub mod Canonical
use case_fullstack_senior.Prelude.{
  ℕ, zero, suc, ◌+◌, ◌-◌, ◌*◌, String, Bool, true, false, not, ◌&&◌, ◌||◌, Option, none, some, List,
  [], ◌∷◌, ◌++◌, ◌==◌, leb, if◌then◌else◌, any,
}
use case_fullstack_senior.Prelude.Text.{Text, codes}
use case_fullstack_senior.Http.{AuthContext, Role, user, admin, Response, success, failure}

-- `x_auth.split(":", 1)`, for a text with a colon
abbrev pub before_colon : Text → Text
before_colon [] = []
before_colon (c ∷ t) = let rest = before_colon t in if c == b':' then [] else c ∷ rest

abbrev pub after_colon : Text → Text
after_colon [] = []
after_colon (c ∷ t) = let rest = after_colon t in if c == b':' then t else rest

abbrev pub is_digit : ℕ → Bool
is_digit c = leb b'0' c && leb c b'9'

abbrev pub all_digits : Text → Bool
all_digits [] = true
all_digits (c ∷ t) = is_digit c && all_digits t

-- `canonical_company_id`
abbrev pub is_canonical : Text → Bool
is_canonical [] = false
is_canonical (c ∷ t) = all_digits (c ∷ t) && not (c == b'0')

abbrev pub has_colon : Text → Bool
has_colon = any (λ c. c == b':')

-- `current_ctx`; `validate` is AuthContext.model_validate, with `none` for a ValidationError.
unfoldable pub current_ctx : (Text → Text → Option AuthContext) → Option Text → Response AuthContext
current_ctx validate none = failure 401 "missing X-Auth"
current_ctx validate (some x_auth) =
    if not (has_colon x_auth)
    then failure 401 "missing X-Auth"
    else if not (is_canonical (before_colon x_auth))
    then failure 401 "invalid X-Auth"
    else (elim (validate (before_colon x_auth) (after_colon x_auth)) [
      | none ↦ failure 401 "invalid X-Auth"
      | some ctx ↦ success 200 ctx
    ])
