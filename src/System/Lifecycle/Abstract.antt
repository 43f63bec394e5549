-- ===== src/System/Lifecycle/Abstract.antt =====
-- The jobs as a client sees them, each with its company and its status and nothing else of the
-- tables, and that the system is such a store of jobs.
use case_fullstack_senior.Prelude.{
  ℕ, Bool, true, false, ◌&&◌, ◌==◌, ◌≡◌, refl, ap, sym, ◌∙◌, Option, none, some, String, inl, inr,
  Option-cases, arith,
}
use case_fullstack_senior.Db.Schema.{Status, is_queued, Job, Db}
use case_fullstack_senior.Db.Query.{find}
use case_fullstack_senior.Db.Laws.{find-append}
use case_fullstack_senior.Service.{JobRef, create_job, new_job}
use case_fullstack_senior.Service.Monad.{Result}
use case_fullstack_senior.Service.Cases.{appended, create_job-cases}
use case_fullstack_senior.Invariant.Create.{jobs-announced}
use case_fullstack_senior.Invariant.Claim.{acknowledge_cancellation-idle}
use case_fullstack_senior.System.{
  System, Step, create, cancel, retry, claim, renew, finish, fail, acknowledge, crash, recover,
  wait, Reach, here, next, IsConsistent,
}
use case_fullstack_senior.System.Reachable.{Reach-IsConsistent}
use case_fullstack_senior.System.Fits.{Quiet, Quiet-same}
use case_fullstack_senior.System.Fits.Rows.{
  cancel_job-Quiet, retry_job-Quiet, claim_next-Quiet, finalize-Quiet, record_failure-Quiet,
  renew_lease-Quiet, recover_stale_jobs-Quiet,
}
use case_fullstack_senior.System.Lifecycle.{moves}
use case_fullstack_senior.System.Lifecycle.Final.{Step-Evolves}

-- The company and the status of each job
abbrev pub Store : Type 0
Store = ℕ → Option (ℕ × Status)

-- A job appears as queued, stays with its company, and moves along the state diagram.
abbrev pub allowed : Option (ℕ × Status) → Option (ℕ × Status) → Bool
allowed none none = true
allowed none (some (c, status)) = is_queued status
allowed (some (c, status)) none = false
allowed (some (c, status)) (some (d, status')) = c == d && moves status status'

pub data SpecReach (a : Store) : Store → Type 0 where
  begun : SpecReach a a
  moved : {b c : Store} → SpecReach a b → ((k : ℕ) → allowed (b k) (c k) ≡ true) → SpecReach a c

abbrev pub seen : Option Job → Option (ℕ × Status)
seen none = none
seen (some j) = some (j.company_id, j.status)

abbrev pub view : System → Store
view s k = seen (find k s.db.jobs)

-- A row that was not there is queued.
abbrev Appears : Db → Db → Type 0
Appears db db' =
    (k : ℕ) (i : Job) → find k db.jobs ≡ none → find k db'.jobs ≡ some i → is_queued i.status ≡ true

Appears-Quiet : {db db' : Db} → Quiet db db' → Appears db db'
Appears-Quiet q k i gone there = let (j, was, _, _) = q.returns k i there in absurd (ground arith)

create_job-Appears :
    (c : ℕ) (kind : String) (trace : Option String) (key : String) (by : Option String) (db : Db)
    → Appears db (create_job (λ db. db) c kind trace key by db).1
create_job-Appears c kind trace key by db =
    elim (create_job-cases c kind trace key by (λ db. db) db) [
      | inl (inl same, _) ↦ Appears-Quiet (Quiet-same same)
      | inl (inr same, _) ↦ Appears-Quiet (Quiet-same same)
      | inr (co, known, room, (new, e)) ↦ λ k i gone there.
          let row = new_job c kind trace key db in
          let tables =
            ap (λ (r : Result (JobRef × Bool) × Db). r.1.jobs) e
            ∙ jobs-announced row c by trace (appended row db) in
          let at = find-append k db.jobs row in
          let seen = sym (ap (find k) tables) ∙ there in
          let one : row ≡ i = ground arith in ap (λ (j : Job). is_queued j.status) (sym one)
    ]

Step-Appears : {s t : System} → Step s t → IsConsistent s → Appears s.db t.db
Step-Appears {s} (create c kind trace key by) h = create_job-Appears c kind trace key by s.db
Step-Appears {s} (cancel c k by trace) h = Appears-Quiet (cancel_job-Quiet c k by trace s.db)
Step-Appears {s} (retry c k by trace) h = Appears-Quiet (retry_job-Quiet c k by trace s.db)
Step-Appears {s} (claim w locked c free took) h =
    Appears-Quiet (claim_next-Quiet w locked s.db h.valid.keyed.unique)
Step-Appears {s} (renew w c held) h = Appears-Quiet (renew_lease-Quiet c s.db)
Step-Appears {s} (finish w c held) h = Appears-Quiet (finalize-Quiet c s.db)
Step-Appears {s} (fail w c error held) h = Appears-Quiet (record_failure-Quiet c error s.db)
Step-Appears {s} (acknowledge w c held) h =
    Appears-Quiet (Quiet-same (acknowledge_cancellation-idle c s.db h.valid))
Step-Appears {s} (crash w) h = λ k i gone there. absurd (ground arith)
Step-Appears {s} (recover lease) h = Appears-Quiet (recover_stale_jobs-Quiet lease s.db)
Step-Appears {s} (wait n) h = λ k i gone there. absurd (ground arith)

Step-allowed :
    {s t : System} → Step s t → IsConsistent s → (k : ℕ) → allowed (view s k) (view t k) ≡ true
Step-allowed {s} {t} step h k = elim (Option-cases (find k s.db.jobs)) [
  | inr (j, found) ↦
      let (i, there, f) = Step-Evolves step h k j found in
      let move = f.move in let company = f.company_id in rw (found, there) (ground arith)
  | inl gone ↦ elim (Option-cases (find k t.db.jobs)) [
    | inl still ↦ rw (gone, still) refl
    | inr (i, there) ↦ rw (gone, there) (Step-Appears step h k i gone there)
  ]
]

-- If a system is consistent, then what its clients see of its jobs over the steps of the API and
-- the workers, crashes and recoveries included, is a run of the store of jobs: in each step a job
-- appears as queued, stays as it is, or moves along the state diagram, always of the same company,
-- and no job disappears.
pub Reach-SpecReach : {s t : System} → IsConsistent s → Reach s t → SpecReach (view s) (view t)
Reach-SpecReach h here = begun
Reach-SpecReach h (next r step) =
    moved (Reach-SpecReach h r) (Step-allowed step (Reach-IsConsistent h r))
