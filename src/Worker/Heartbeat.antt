-- ===== src/Worker/Heartbeat.antt =====
-- `heartbeat_loop` of `lease_heartbeat` in worker/modules/jobs/processor.py: when the thread that
-- renews the lease gives up.
use case_fullstack_senior.Prelude.{
  ℕ, zero, suc, String, Bool, true, false, ◌||◌, ◌≡◌, refl, Option, none, some, List, [], ◌∷◌,
  arith, leb, if◌then◌else◌,
}
use case_fullstack_senior.Invariant.{is_some}

abbrev pub heartbeat_max_failures : ℕ
heartbeat_max_failures = 3

-- How one `_renew_lease` ends: the lease is renewed, LeaseLostError, or another exception; with the
-- exception's text.
pub data Beat : Type 0 where
  renewed : Beat
  lost transient : String → Beat

-- `heartbeat_loop` from `transient_failures` on, over the beats until `stopped` is set; the result is
-- what `give_up` stores in the job.
unfoldable pub heartbeat_loop : ℕ → List Beat → Option String
heartbeat_loop transient_failures [] = none
heartbeat_loop transient_failures (renewed ∷ beats) = heartbeat_loop 0 beats
heartbeat_loop transient_failures (lost t ∷ beats) = some t
heartbeat_loop transient_failures (transient t ∷ beats) =
    let rest = heartbeat_loop (suc transient_failures) beats in
    if leb heartbeat_max_failures (suc transient_failures) then some t else rest

-- The first n beats are exceptions other than LeaseLostError.
abbrev pub has_failures : ℕ → List Beat → Bool
has_failures zero beats = true
has_failures (suc n) (transient t ∷ beats) = has_failures n beats
has_failures (suc n) _ = false

abbrev pub is_lost : Beat → Bool
is_lost (lost t) = true
is_lost _ = false

-- Somewhere the lease is lost, or three beats in a row fail.
abbrev pub is_hopeless : List Beat → Bool
is_hopeless [] = false
is_hopeless (b ∷ beats) = is_lost b || has_failures 3 (b ∷ beats) || is_hopeless beats

heartbeat_loop-from :
    (beats : List Beat)
    → (is_some (heartbeat_loop 0 beats) ≡ is_hopeless beats)
      × (is_some (heartbeat_loop 1 beats) ≡ (has_failures 2 beats || is_hopeless beats))
      × (is_some (heartbeat_loop 2 beats) ≡ (has_failures 1 beats || is_hopeless beats))
unfolding heartbeat_loop
heartbeat_loop-from [] = (refl, refl, refl)
heartbeat_loop-from (renewed ∷ beats) =
    let (none_yet, one, two) = heartbeat_loop-from beats in (none_yet, none_yet, none_yet)
heartbeat_loop-from (lost t ∷ beats) = (refl, refl, refl)
heartbeat_loop-from (transient t ∷ beats) =
    let (none_yet, one, two) = heartbeat_loop-from beats in
    (ground arith, ground arith, ground arith)

-- The heartbeat reports an error exactly if, before it is stopped, a renewal finds the lease lost
-- or three renewals in a row fail with another exception.
pub heartbeat_loop-gives_up :
    (beats : List Beat) → is_some (heartbeat_loop 0 beats) ≡ is_hopeless beats
heartbeat_loop-gives_up beats = (heartbeat_loop-from beats).0
