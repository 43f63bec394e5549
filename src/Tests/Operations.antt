-- ===== src/Tests/Operations.antt =====
-- The heartbeat on concrete ends of its renewals.
use case_fullstack_senior.Prelude.{◌≡◌, List, [], ◌∷◌}
use case_fullstack_senior.Invariant.{is_some}
use case_fullstack_senior.Worker.Heartbeat.{
  Beat, renewed, transient, heartbeat_loop, is_hopeless, heartbeat_loop-gives_up,
}

abbrev beats : List Beat
beats = transient "a" ∷ transient "b" ∷ renewed ∷ transient "c" ∷ transient "d" ∷ transient "e" ∷ []

heartbeat_loop-gives_up_example : is_some (heartbeat_loop 0 beats) ≡ is_hopeless beats
heartbeat_loop-gives_up_example = heartbeat_loop-gives_up beats
