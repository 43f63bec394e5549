-- ===== src/System/Fits/Kept.antt =====
-- The steps of the system keep the kinds and the companies of the jobs.
use mathlib.Core.Path.{subst}
use case_fullstack_senior.Prelude.{
  ◌++◌, [], ◌∷◌, ℕ, ◌+◌, ◌≤◌, String, Bool, ◌≡◌, ap, sym, ◌∙◌, Option, some, inl, inr, Option-cases,
  arith,
}
use case_fullstack_senior.Prelude.Text.{codes}
use case_fullstack_senior.Db.Schema.{Job, Db}
use case_fullstack_senior.Db.Query.{find}
use case_fullstack_senior.Db.Laws.{find-id, find-append}
use case_fullstack_senior.Service.{create_job, new_job}
use case_fullstack_senior.Service.Cases.{appended, create_job-cases}
use case_fullstack_senior.Invariant.Create.{jobs-announced, next_job_id-announced}
use case_fullstack_senior.Invariant.Claim.{acknowledge_cancellation-idle}
use case_fullstack_senior.Http.Schemas.{job_kind}
use case_fullstack_senior.Http.Schemas.Create.{accepted_kind-job_kind}
use case_fullstack_senior.Http.Schemas.Rows.{IsFit}
use case_fullstack_senior.System.{
  System, Step, create, cancel, retry, claim, renew, finish, fail, acknowledge, crash, recover,
  wait, IsConsistent, Reach, here, next,
}
use case_fullstack_senior.System.Reachable.{Reach-IsConsistent}
use case_fullstack_senior.System.Fits.{Quiet, Quiet-same, IsFitting, IsAccepted, AllAccepted}
use case_fullstack_senior.System.Fits.Rows.{
  cancel_job-Quiet, retry_job-Quiet, claim_next-Quiet, finalize-Quiet, record_failure-Quiet,
  renew_lease-Quiet, recover_stale_jobs-Quiet,
}

module _ (is_white : ℕ → Bool) where
  Quiet-IsFitting : {db db' : Db} → Quiet db db' → IsFitting is_white db → IsFitting is_white db'
  Quiet-IsFitting {db} {db'} q h = record {
    fit = λ k i found.
        let (j, there, company, kind) = q.returns k i found in
        let f = h.fit k j there in
        record {
          numbered = rw (find-id k db'.jobs found, ← find-id k db.jobs there) f.numbered;
          owned = rw company f.owned;
          named = rw kind f.named;
        };
    next_positive = rw q.next_kept h.next_positive;
  }

  module _ (c : ℕ) (kind : String) (trace : Option String) (key : String) (by : Option String)
      (db : Db) (owned : 1 ≤ c) (named : job_kind is_white (codes kind) ≡ some (codes kind)) where
    abbrev created_row : Job
    created_row = new_job c kind trace key db

    created-IsFitting :
        {db' : Db}
        → db'.jobs ≡ db.jobs ++ created_row ∷ []
        → db'.next_job_id ≡ db.next_job_id + 1
        → IsFitting is_white db
        → IsFitting is_white db'
    created-IsFitting tables sequence h = record {
      fit = λ k i found.
          let seen = ap (find k) (sym tables) ∙ found in
          let there = find-append k db.jobs created_row in
          elim (Option-cases (find k db.jobs)) [
            | inl gone ↦
                let one : created_row ≡ i = ground arith in
                let first = h.next_positive in
                subst (IsFit is_white) one
                  (record { numbered = first; owned = owned; named = named })
            | inr (j, found) ↦
                let one : j ≡ i = ground arith in subst (IsFit is_white) one (h.fit k j found)
          ];
      next_positive = let first = h.next_positive in ground arith;
    }

  pub create_job-IsFitting :
      (others : Db → Db) (c : ℕ) (kind : String) (trace : Option String) (key : String)
      (by : Option String) (db : Db)
      → 1 ≤ c
      → job_kind is_white (codes kind) ≡ some (codes kind)
      → IsFitting is_white db
      → IsFitting is_white (others db)
      → IsFitting is_white (create_job others c kind trace key by db).1
  create_job-IsFitting others c kind trace key by db owned named h h' =
      elim (create_job-cases c kind trace key by others db) [
        | inl (inl same, _) ↦ rw same h
        | inl (inr same, _) ↦ rw same h'
        | inr (co, known, room, (new, e)) ↦ rw e (
            let row = new_job c kind trace key (others db) in
            created-IsFitting c kind trace key by (others db) owned named
              (jobs-announced row c by trace (appended row (others db)))
              (next_job_id-announced row c by trace (appended row (others db))) h')
      ]

  -- A step of a consistent system.
  Step-IsFitting :
      {s t : System}
      → (step : Step s t) → IsAccepted is_white step
      → IsConsistent s
      → IsFitting is_white s.db
      → IsFitting is_white t.db
  Step-IsFitting {s} (create c kind trace key by) (owned, (sent, kept)) _ h =
      create_job-IsFitting (λ db. db) c kind trace key by s.db owned
        (accepted_kind-job_kind is_white sent kept) h h
  Step-IsFitting {s} (cancel c k by trace) _ _ h =
      Quiet-IsFitting (cancel_job-Quiet c k by trace s.db) h
  Step-IsFitting {s} (retry c k by trace) _ _ h =
      Quiet-IsFitting (retry_job-Quiet c k by trace s.db) h
  Step-IsFitting {s} (claim w locked c free took) _ ok h =
      Quiet-IsFitting (claim_next-Quiet w locked s.db ok.valid.keyed.unique) h
  Step-IsFitting {s} (renew w c held) _ _ h = Quiet-IsFitting (renew_lease-Quiet c s.db) h
  Step-IsFitting {s} (finish w c held) _ _ h = Quiet-IsFitting (finalize-Quiet c s.db) h
  Step-IsFitting {s} (fail w c error held) _ _ h =
      Quiet-IsFitting (record_failure-Quiet c error s.db) h
  Step-IsFitting {s} (acknowledge w c held) _ ok h =
      Quiet-IsFitting (Quiet-same (acknowledge_cancellation-idle c s.db ok.valid)) h
  Step-IsFitting {s} (crash w) _ _ h = h
  Step-IsFitting {s} (recover lease) _ _ h = Quiet-IsFitting (recover_stale_jobs-Quiet lease s.db) h
  Step-IsFitting {s} (wait n) _ _ h = record { fit = h.fit; next_positive = h.next_positive }

  -- If a system is consistent, the next key is positive, and its jobs have a positive number and
  -- company and a kind that a request may send, then so it is in every system that it reaches by
  -- steps whose submissions come from a company with a positive number and have a kind that the
  -- validation of some request's body let through: no transaction of a worker or of the API changes a
  -- kind, a company or a number.
  pub Reach-IsFitting :
      {s t : System}
      → IsConsistent s
      → IsFitting is_white s.db
      → (r : Reach s t) → AllAccepted is_white r
      → IsFitting is_white t.db
  Reach-IsFitting ok h here all = h
  Reach-IsFitting ok h (next r step) (all, one) =
      Step-IsFitting step one (Reach-IsConsistent ok r) (Reach-IsFitting ok h r all)
