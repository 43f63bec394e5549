-- ===== src/Worker/Process.antt =====
-- `process_next` of worker/modules/jobs/processor.py: recovery, a claim, the supervised work, and
-- the handlers that end it. What the threads and the other transactions do meanwhile is an
-- `Environment`: the model gives `process_next` every behaviour of theirs.
pub mod Ends
pub mod Keeps
use Prim.Native.String.{◌++◌}
use case_fullstack_senior.Prelude.{
  ℕ, zero, suc, String, Bool, true, false, Option, none, some, ◌&&◌, leb, if◌then◌else◌,
}
use case_fullstack_senior.Prelude.Decimal.{decimal}
use case_fullstack_senior.Db.Schema.{Status, failed, cancelled, is_failed, Db}
use case_fullstack_senior.Db.Query.{find_company}
use case_fullstack_senior.Worker.{
  Claim, Claimed, idle, claimed, vanished, claim_next, finalize, acknowledge_cancellation,
  record_failure, recover_stale_jobs, lease_timeout, max_attempts,
}

-- The exceptions that the handlers of `process_next` tell apart, with the text "type: message".
pub data Exc : Type 0 where
  job_cancelled : Exc
  fatal_monitor : String → Exc
  other : String → Exc

-- `startup`: what `cancellation_monitor` raises instead of yielding a token. `checks n`: whether
-- the token is cancelled at the n-th test of it. `works`: whether job_simulated_work_s is positive.
-- `heartbeat_error` and `monitor_error`: what the two threads have put into the job. `stuck`: the
-- FatalCancellationMonitorError of `stop_monitor`. `during`: what other transactions commit
-- between the claim and the end.
pub record Environment : Type 0 where
  pub startup : Option Exc
  pub checks : ℕ → Bool
  pub works : Bool
  pub heartbeat_error : Option String
  pub monitor_error : Option String
  pub stuck : Option String
  pub during : Db → Db

-- n tests of the token, from the i-th on
unfoldable pub raise_if_cancelled : ℕ → ℕ → (ℕ → Bool) → Option Exc
raise_if_cancelled zero i checks = none
raise_if_cancelled (suc n) i checks = elim (checks i) [
  | true ↦ some job_cancelled
  | false ↦ raise_if_cancelled n (suc i) checks
]

unfoldable pub missing_company : Claim → String
unfolding decimal
missing_company c =
    "RuntimeError: company "
    ++ decimal c.company_id
    ++ " não encontrada para o job "
    ++ decimal c.id

-- `_execute`: ten slices of simulated work with a test before each, a last test, and the lookup of
-- the company
unfoldable pub execute : Environment → Claim → Db → Option Exc
unfolding raise_if_cancelled missing_company
execute env c db = elim (raise_if_cancelled (if env.works then 11 else 1) 1 env.checks) [
  | some e ↦ some e
  | none ↦ elim (find_company c.company_id db.companies) [
    | none ↦ some (other (missing_company c))
    | some _ ↦ none
  ]
]

unfoldable pub heartbeat_failed : Claim → String
unfolding decimal
heartbeat_failed c = "RuntimeError: heartbeat do job " ++ decimal c.id ++ " falhou"

-- `with lease_heartbeat(…): _execute(…)`
unfoldable pub with_heartbeat : Environment → Claim → Db → Option Exc
unfolding execute heartbeat_failed
with_heartbeat env c db = elim (execute env c db) [
  | some e ↦ some e
  | none ↦ elim env.heartbeat_error [ none ↦ none | some _ ↦ some (other (heartbeat_failed c)) ]
]

-- `with cancellation_monitor(…)`: an exception of `stop_monitor` takes the place of the body's.
unfoldable pub with_monitor : Environment → Claim → Db → Option Exc
unfolding with_heartbeat
with_monitor env c db = elim env.startup [
  | some e ↦ some e
  | none ↦ elim env.stuck [
    | some t ↦ some (fatal_monitor t)
    | none ↦ if env.checks 0 then some job_cancelled else with_heartbeat env c db
  ]
]

-- The `try` block up to `_finalize`.
unfoldable pub supervised : Environment → Claim → Db → Option Exc
unfolding with_monitor
supervised env c db = elim (with_monitor env c db) [
  | some e ↦ some e
  | none ↦ if env.checks 12 then some job_cancelled else none
]

-- The fields of the wide event, and whether the fatal error is raised again.
pub record Report : Type 0 where
  pub outcome : Status
  pub dead_lettered : Bool
  pub raises : Bool

abbrev pub report : Status → Report
report s = record { outcome = s; dead_lettered = false; raises = false }

-- `job.get("heartbeat_error") or job.get("cancellation_monitor_error") or RuntimeError(…)`
unfoldable pub cause : Environment → String
cause env = elim env.heartbeat_error [
  | some t ↦ t
  | none ↦ elim env.monitor_error [
    | some t ↦ t
    | none ↦ "RuntimeError: cancelamento sinalizado sem job cancelado"
  ]
]

-- The end of the `try` block, or the handler of the exception.
unfoldable pub conclude : Environment → Claim → Option Exc → Db → Report × Db
unfolding cause
conclude env c none db = let (s, db') = finalize c db in (report s, db')
conclude env c (some job_cancelled) db =
    let (acknowledged, db') = acknowledge_cancellation c db in
    if acknowledged
    then (report cancelled, db')
    else (report failed, (record_failure c (cause env) db').1)
conclude env c (some (fatal_monitor t)) db =
    (record { outcome = failed; dead_lettered = false; raises = true }, (record_failure c t db).1)
conclude env c (some (other t)) db =
    let (s, db') = record_failure c t db in
    (
      record {
        outcome = failed;
        dead_lettered = is_failed s && leb max_attempts c.attempts;
        raises = false;
      },
      db',
    )

unfoldable pub process : Environment → Claim → Db → Report × Db
unfolding supervised conclude
process env c db = let db' = env.during db in conclude env c (supervised env c db') db'

-- `nothing` is the result False; `lost_row` the RuntimeError of `_claim_next`.
pub data Processed : Type 0 where
  nothing : Processed
  lost_row : ℕ → Processed
  processed : Report → Processed

-- what `process_next` does with the result of `_claim_next`
unfoldable pub process_claimed : Environment → Claimed × Db → Processed × Db
unfolding process
process_claimed env (idle, db) = (nothing, db)
process_claimed env (vanished k, db) = (lost_row k, db)
process_claimed env (claimed c, db) = let (rep, ended) = process env c db in (processed rep, ended)

unfoldable pub process_next : String → (ℕ → Bool) → Environment → Db → Processed × Db
unfolding process_claimed
process_next worker locked env db =
    process_claimed env (claim_next worker locked (recover_stale_jobs lease_timeout db).1)
