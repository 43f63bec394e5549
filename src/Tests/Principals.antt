-- ===== src/Tests/Principals.antt =====
-- A header that is accepted, with a validation that does what pydantic documents.
use case_fullstack_senior.Prelude.{
  ◌≡◌, refl, ◌∙◌, ap, sym, Option, none, some, ◌∷◌, ◌++◌, arith, leb, if◌then◌else◌, inl, inr,
  Bool-cases,
}
use case_fullstack_senior.Prelude.Text.{same-equal, Text, codes, same}
use case_fullstack_senior.Http.{AuthContext, Role, user, admin, success, failure}
use case_fullstack_senior.Auth.{current_ctx}
use case_fullstack_senior.Auth.Canonical.{
  value_from, digits, role_codes, Parses, current_ctx-canonical,
}

abbrev role_of : Text → Option Role
role_of role =
    if same role (codes "user")
    then some user
    else (if same role (codes "admin") then some admin else none)

abbrev validate : Text → Text → Option AuthContext
validate company_id role = elim (role_of role) [
  | none ↦ none
  | some r ↦
      if leb 1 (value_from 0 company_id)
      then some (record { company_id = value_from 0 company_id; role = r })
      else none
]

validate-Parses : Parses validate
validate-Parses company_id role ctx h e = elim (Bool-cases (same role (codes "user"))) [
  | inl at ↦
      let text : role ≡ codes "user" = same-equal role (codes "user") at in
      let made : ctx ≡ record { company_id = value_from 0 company_id; role = user } =
        ground arith in
      (
        ap (λ (c : AuthContext). c.company_id) made,
        text ∙ ap (λ (c : AuthContext). role_codes c.role) (sym made),
      )
  | inr other ↦ elim (Bool-cases (same role (codes "admin"))) [
    | inl at ↦
        let text : role ≡ codes "admin" = same-equal role (codes "admin") at in
        let made : ctx ≡ record { company_id = value_from 0 company_id; role = admin } =
          ground arith in
        (
          ap (λ (c : AuthContext). c.company_id) made,
          text ∙ ap (λ (c : AuthContext). role_codes c.role) (sym made),
        )
    | inr neither ↦ absurd (ground arith)
  ]
]

abbrev twelve : AuthContext
twelve = record { company_id = 12; role = admin }

accepted : current_ctx validate (some (codes "12:admin")) ≡ success 200 twelve
unfolding current_ctx
accepted = refl

refused : current_ctx validate (some (codes "012:admin")) ≡ failure 401 "invalid X-Auth"
unfolding current_ctx
refused = refl

current_ctx-canonical_example : codes "12:admin" ≡ digits 12 ++ b':' ∷ role_codes admin
current_ctx-canonical_example =
    current_ctx-canonical validate (codes "12:admin") validate-Parses accepted
