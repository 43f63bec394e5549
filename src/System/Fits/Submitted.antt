-- ===== src/System/Fits/Submitted.antt =====
-- POST /jobs from the text of its request: what its answer is, and what it leaves.
use mathlib.Core.Path.{subst}
use case_fullstack_senior.Prelude.{
  ℕ, String, Bool, ◌≡◌, ◌≤◌, sym, ◌∙◌, Option, none, some, inl, inr, Option-cases, arith,
}
use case_fullstack_senior.Db.Schema.{Job, Db}
use case_fullstack_senior.Service.{JobRef, find_by_key, create_job}
use case_fullstack_senior.Service.Monad.{Result, ok, err}
use case_fullstack_senior.Invariant.{IsValid}
use case_fullstack_senior.Http.{
  AuthContext, Response, answer, create_error, committed, actor, post_job,
}
use case_fullstack_senior.Http.Schemas.{validate_created, validated, unprocessable}
use case_fullstack_senior.Http.Schemas.Create.{
  accepted_kind, accepted_key, accepted_kind-job_kind, base_of, create_route,
}
use case_fullstack_senior.Http.Schemas.Rows.{Every-find}
use case_fullstack_senior.System.Fits.{IsFitting}
use case_fullstack_senior.System.Fits.Kept.{create_job-IsFitting}
use case_fullstack_senior.Http.Schemas.Numbered.{AllNumbered, create_job-IsNumbered, created-passes}

IsFitting-numbered :
    {is_white : ℕ → Bool} (db : Db) → IsValid db → IsFitting is_white db → AllNumbered db
IsFitting-numbered db h f = (
  Every-find (λ (j : Job). 1 ≤ j.id) db.jobs h.keyed.unique
      (λ k j found. (f.fit k j found).numbered),
  f.next_positive,
)

module _ (is_white : ℕ → Bool) where
  answer-IsFitting :
      (base : Db) (r : Result (JobRef × Bool) × Db)
      → IsFitting is_white base
      → IsFitting is_white r.1
      → IsFitting is_white (answer 201 create_error base r).1
  answer-IsFitting base (ok a, db) h h' = h'
  answer-IsFitting base (err e, db) h h' = record { fit = h.fit; next_positive = h'.next_positive }

  committed-IsFitting :
      (others : Db → Db) (c : ℕ) (key : String) (db : Db)
      → IsFitting is_white db
      → IsFitting is_white (others db)
      → IsFitting is_white (committed others c key db)
  unfolding committed
  committed-IsFitting others c key db h h' = elim (Option-cases (find_by_key c key db)) [
    | inl new ↦
        let e : others db ≡ committed others c key db = ground arith in
        subst (IsFitting is_white) e h'
    | inr (j, found) ↦
        let e : db ≡ committed others c key db = ground arith in subst (IsFitting is_white) e h
  ]

module _ (is_white : ℕ → Bool) (others : Db → Db) (ctx : AuthContext)
    (generated request_id : String) (db : Db) where
  -- What the handler does with an accepted request, or FastAPI without one
  abbrev pub handled : Option String → Option (Option String) → Response (JobRef × Bool) × Db
  handled none _ = (unprocessable, db)
  handled (some kind) none = (unprocessable, db)
  handled (some kind) (some key) = post_job others ctx kind key generated request_id db

  module _ (h : IsValid db) (h' : IsValid (others db)) (f : IsFitting is_white db)
      (f' : IsFitting is_white (others db)) where
    post_job-validated :
        (kind : String) (key : Option String)
        → validated validate_created
            (base_of others ctx key generated db)
            (post_job others ctx kind key generated request_id db)
          ≡ post_job others ctx kind key generated request_id db
    unfolding post_job
    post_job-validated kind key =
        let k : String = elim key [ none ↦ generated | some k ↦ k ] in
        created-passes (committed others ctx.company_id k db)
          (create_job others ctx.company_id kind (some request_id) k (some (actor ctx)) db)
          (create_job-IsNumbered ctx.company_id kind (some request_id) k (some (actor ctx)) others
            db (IsFitting-numbered db h f) (IsFitting-numbered (others db) h' f'))

    post_job-IsFitting :
        (sent kind : String) (key : Option String)
        → 1 ≤ ctx.company_id
        → accepted_kind is_white sent ≡ some kind
        → IsFitting is_white (post_job others ctx kind key generated request_id db).1
    unfolding post_job
    post_job-IsFitting sent kind key owned accepted =
        let k : String = elim key [ none ↦ generated | some k ↦ k ] in
        answer-IsFitting is_white (committed others ctx.company_id k db)
          (create_job others ctx.company_id kind (some request_id) k (some (actor ctx)) db)
          (committed-IsFitting is_white others ctx.company_id k db f f')
          (create_job-IsFitting is_white others ctx.company_id kind (some request_id) k
            (some (actor ctx)) db owned (accepted_kind-job_kind is_white sent accepted) f f')

    -- If the tables are valid and fit, also after what other transactions commit while the
    -- submission waits, and the company has a positive number, then whatever text a request sends
    -- as its kind and its key: POST /jobs answers 422 and changes nothing if the validation does
    -- not let them through, and otherwise does what the handler does with the validated texts, the
    -- validation of the answer never making a success a rollback; and the jobs that it leaves have
    -- positive numbers and companies and kinds that pass the validation of an answer as they are.
    pub create_route-handled :
        (kind : String) (key : Option String)
        → 1 ≤ ctx.company_id
        → let result = create_route is_white others ctx kind key generated request_id db in
          (result ≡ handled (accepted_kind is_white kind) (accepted_key is_white key))
          × IsFitting is_white result.1
    unfolding create_route
    create_route-handled kind key owned = elim (Option-cases (accepted_kind is_white kind)) [
      | inl no_kind ↦ (
        ground arith,
        let e : db ≡ (create_route is_white others ctx kind key generated request_id db).1 =
              ground arith in
            subst (IsFitting is_white) e f,
      )
      | inr (k, kept) ↦ elim (Option-cases (accepted_key is_white key)) [
        | inl no_key ↦ (
          ground arith,
          let e : db ≡ (create_route is_white others ctx kind key generated request_id db).1 =
                ground arith in
              subst (IsFitting is_white) e f,
        )
        | inr (o, fine) ↦
            let e : post_job others ctx k o generated request_id db
                ≡ create_route is_white others ctx kind key generated request_id db =
              ground (arith, post_job-validated k o) in
            (
              sym e ∙ ground arith,
              subst (λ (r : Response (JobRef × Bool) × Db). IsFitting is_white r.1) e
                  (post_job-IsFitting kind k o owned kept),
            )
      ]
    ]
