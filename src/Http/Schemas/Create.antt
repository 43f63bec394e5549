-- ===== src/Http/Schemas/Create.antt =====
-- POST /jobs with its body `NewJob` and its header Idempotency-Key, from
-- api/modules/jobs/schemas.py and api/modules/jobs/routes.py.
use case_fullstack_senior.Prelude.{
  ℕ, String, Bool, ◌&&◌, ◌≡◌, refl, Option, none, some, leb, if◌then◌else◌, any, length, inl, inr,
  Bool-cases, arith,
}
use case_fullstack_senior.Prelude.Text.{codes}
use case_fullstack_senior.Prelude.Strip.{strip, strip-strip}
use case_fullstack_senior.Prelude.Trim.{trim, codes-trim}
use case_fullstack_senior.Db.Schema.{Db}
use case_fullstack_senior.Service.{JobRef}
use case_fullstack_senior.Http.{AuthContext, Response, committed, post_job}
use case_fullstack_senior.Http.Schemas.{
  is_control, job_kind, validate_created, validated, unprocessable,
}

-- A string that passes its constraints, as the handler gets it
abbrev pub accepted_string : (ℕ → Bool) → ℕ → String → Option String
accepted_string is_white max_length sent =
    let stripped = trim is_white sent in
    if leb 1 (length (codes stripped)) && leb (length (codes stripped)) max_length
    then (if any is_control (codes stripped) then none else some stripped)
    else none

-- The field `kind` of NewJob
unfoldable pub accepted_kind : (ℕ → Bool) → String → Option String
accepted_kind is_white sent = accepted_string is_white 100 sent

-- The header, which a request may leave out
unfoldable pub accepted_key : (ℕ → Bool) → Option String → Option (Option String)
accepted_key is_white none = some none
accepted_key is_white (some sent) = elim (accepted_string is_white 200 sent) [
  | none ↦ none
  | some key ↦ some (some key)
]

-- What is committed when the handler raises after `create_job`
abbrev pub base_of : (Db → Db) → AuthContext → Option String → String → Db → Db
base_of others ctx key generated db =
    committed others ctx.company_id (elim key [ none ↦ generated | some k ↦ k ]) db

-- POST /jobs
unfoldable pub create_route :
    (ℕ → Bool)
    → (Db → Db)
    → AuthContext
    → String
    → Option String
    → String
    → String
    → Db
    → Response (JobRef × Bool) × Db
unfolding post_job accepted_kind accepted_key
create_route is_white others ctx kind idempotency_key generated request_id db =
    elim (accepted_kind is_white kind) [
      | none ↦ (unprocessable, db)
      | some kind ↦ elim (accepted_key is_white idempotency_key) [
        | none ↦ (unprocessable, db)
        | some key ↦
            validated validate_created (base_of others ctx key generated db)
              (post_job others ctx kind key generated request_id db)
      ]
    ]

-- What the handler gets passes the validation of an answer as it is.
pub accepted_kind-job_kind :
    (is_white : ℕ → Bool) (sent : String) {kept : String}
    → accepted_kind is_white sent ≡ some kept
    → job_kind is_white (codes kept) ≡ some (codes kept)
unfolding accepted_kind job_kind
accepted_kind-job_kind is_white sent {kept} accepted =
    let s = trim is_white sent in
    elim (Bool-cases (leb 1 (length (codes s)) && leb (length (codes s)) 100)) [
      | inl fits ↦ elim (Bool-cases (any is_control (codes s))) [
        | inl control ↦ absurd (ground arith)
        | inr plain ↦
            let same : s ≡ kept = ground arith in
            let bare : strip is_white (codes s) ≡ codes s =
              rw (codes-trim is_white sent) (strip-strip is_white (codes sent)) in
            rw⁻¹ same (rw (bare, fits, plain) refl)
      ]
      | inr out ↦ absurd (ground arith)
    ]
