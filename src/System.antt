-- ===== src/System.antt =====
-- The running system: the tables, and what each worker process keeps of the job that it is
-- processing. The API's requests, the workers' transactions, crashes and the passing of time
-- interleave in any order; each transaction is one step.
pub mod Kept
pub mod Reachable
pub mod Lifecycle
pub mod Fits
use case_fullstack_senior.Prelude.{
  ℕ, ◌+◌, String, Bool, ◌≡◌, Option, none, some, str_eq, if◌then◌else◌,
}
use case_fullstack_senior.Db.Schema.{Db}
use case_fullstack_senior.Service.{create_job, cancel_job, retry_job}
use case_fullstack_senior.Worker.{
  Claim, claimed, claim_next, renew_lease, finalize, record_failure, acknowledge_cancellation,
  recover_stale_jobs,
}
use case_fullstack_senior.Worker.Leases.{IsHeld}
use case_fullstack_senior.Invariant.{IsValid}

pub record System : Type 0 where
  pub db : Db
  pub claims : String → Option Claim

-- The worker w keeps a claim, or drops it.
abbrev pub keep : String → Option Claim → (String → Option Claim) → String → Option Claim
keep w c claims v = if str_eq w v then c else claims v

pub data Step (s : System) : System → Type 0 where
  create :
      (c : ℕ) (kind : String) (trace : Option String) (key : String) (by : Option String)
      → Step s (record s { db = (create_job (λ db. db) c kind trace key by s.db).1 })
  cancel :
      (c k : ℕ) (by : String) (trace : Option String)
      → Step s (record s { db = (cancel_job c k by trace s.db).1 })
  retry :
      (c k : ℕ) (by : String) (trace : Option String)
      → Step s (record s { db = (retry_job c k by trace s.db).1 })
  claim :
      (w : String) (locked : ℕ → Bool) (c : Claim)
      → s.claims w ≡ none
      → (claim_next w locked s.db).0 ≡ claimed c
      → Step s (record { db = (claim_next w locked s.db).1; claims = keep w (some c) s.claims })
  renew :
      (w : String) (c : Claim)
      → s.claims w ≡ some c
      → Step s (record s { db = (renew_lease c s.db).1 })
  finish :
      (w : String) (c : Claim)
      → s.claims w ≡ some c
      → Step s (record { db = (finalize c s.db).1; claims = keep w none s.claims })
  fail :
      (w : String) (c : Claim) (error : String)
      → s.claims w ≡ some c
      → Step s (record { db = (record_failure c error s.db).1; claims = keep w none s.claims })
  acknowledge :
      (w : String) (c : Claim)
      → s.claims w ≡ some c
      → Step s (record s { db = (acknowledge_cancellation c s.db).1 })
  crash : (w : String) → Step s (record s { claims = keep w none s.claims })
  recover : (lease : ℕ) → Step s (record s { db = (recover_stale_jobs lease s.db).1 })
  wait : (n : ℕ) → Step s (record s { db = record s.db { now = s.db.now + n } })

pub data Reach (s : System) : System → Type 0 where
  here : Reach s s
  next : {t u : System} → Reach s t → Step t u → Reach s u

-- The tables are valid, and each worker's claim is its own and agrees with the row that it holds.
pub record IsConsistent (s : System) : Type 0 where
  pub valid : IsValid s.db
  pub own : (w : String) (c : Claim) → s.claims w ≡ some c → c.worker_id ≡ w
  pub held : (w : String) (c : Claim) → s.claims w ≡ some c → IsHeld c s.db
