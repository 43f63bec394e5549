-- ===== src/System/Lifecycle/Final.antt =====
-- A step moves a job along the state diagram, and a job that is done or cancelled stays so.
use case_fullstack_senior.Prelude.{ℕ, Bool, true, false, ◌≡◌, refl, ◌∙◌, ap, some, arith}
use case_fullstack_senior.Db.Schema.{Status, done, cancelled, Job, Db}
use case_fullstack_senior.Db.Query.{find}
use case_fullstack_senior.Invariant.Claim.{acknowledge_cancellation-idle}
use case_fullstack_senior.System.{
  System, Step, create, cancel, retry, claim, renew, finish, fail, acknowledge, crash, recover,
  wait, Reach, here, next, IsConsistent,
}
use case_fullstack_senior.System.Reachable.{Reach-IsConsistent}
use case_fullstack_senior.System.Lifecycle.{moves, Evolves, Evolves-jobs}
use case_fullstack_senior.System.Lifecycle.Steps.{
  claim_next-Evolves, create_job-Evolves, cancel_job-Evolves, retry_job-Evolves, finalize-Evolves,
  record_failure-Evolves, renew_lease-Evolves, recover_stale_jobs-Evolves,
}

-- In a consistent system every step keeps each job's row: its status stays or moves from queued
-- to running or cancelled, from running to done, failed or cancelled, or from failed to queued;
-- its attempts do not decrease; its company, kind, creation time and key stay.
pub Step-Evolves : {s t : System} → Step s t → IsConsistent s → Evolves s.db.jobs t.db.jobs
Step-Evolves {s} (create c kind trace key by) h = create_job-Evolves c kind trace key by s.db
Step-Evolves {s} (cancel c k by trace) h = cancel_job-Evolves c k by trace s.db
Step-Evolves {s} (retry c k by trace) h = retry_job-Evolves c k by trace s.db
Step-Evolves {s} (claim w locked c free took) h =
    claim_next-Evolves w locked s.db h.valid.keyed.unique
Step-Evolves {s} (renew w c e) h = renew_lease-Evolves c s.db
Step-Evolves {s} (finish w c e) h = finalize-Evolves c s.db
Step-Evolves {s} (fail w c error e) h = record_failure-Evolves c error s.db
Step-Evolves {s} (acknowledge w c e) h =
    Evolves-jobs (ap (λ (d : Db). d.jobs) (acknowledge_cancellation-idle c s.db h.valid))
Step-Evolves {s} (crash w) h = Evolves-jobs refl
Step-Evolves {s} (recover lease) h = recover_stale_jobs-Evolves lease s.db
Step-Evolves {s} (wait n) h = Evolves-jobs refl

abbrev pub is_final : Status → Bool
is_final done = true
is_final cancelled = true
is_final _ = false

final-stays : (s t : Status) → is_final s ≡ true → moves s t ≡ true → t ≡ s
final-stays s t h m = ground arith

-- If a job of a consistent system is done or cancelled, then it is there with the same status in
-- every system that is reached, whatever the API and the workers do.
pub Reach-final :
    {s t : System} (k : ℕ) {j : Job}
    → IsConsistent s
    → Reach s t
    → find k s.db.jobs ≡ some j
    → is_final j.status ≡ true
    → (i : Job) × (find k t.db.jobs ≡ some i) × (i.status ≡ j.status)
Reach-final k {j} h here found final = (j, found, refl)
Reach-final k {j} h (next r step) found final =
    let (m, there, same) = Reach-final k {j = j} h r found final in
    let (i, after, f) = Step-Evolves step (Reach-IsConsistent h r) k m there in
    let ended : is_final m.status ≡ true = ap is_final same ∙ final in
    (i, after, final-stays m.status i.status ended f.move ∙ same)
