-- ===== src/Tests/Logging.antt =====
-- An event with an error, and the access logger with a probe filter.
use case_fullstack_senior.Prelude.{ℕ, true, ◌≡◌, some, List, [], ◌∷◌}
use case_fullstack_senior.Prelude.Text.{Text, codes}
use case_fullstack_senior.Gateway.Logs.{Sampling}
use case_fullstack_senior.Gateway.Events.{
  WideEvent, entry, new_event, Note, add, error, notes, emit,
}
use case_fullstack_senior.Gateway.Events.Printed.{line_value, emit-notes}

abbrev request : WideEvent
request = new_event (codes "e-1") (codes "api") (codes "http_request") []

abbrev calls : List Note
calls =
    add (entry (codes "level") (codes "debug") ∷ [])
    ∷ error (some (codes "ValueError", codes "x")) (entry (codes "http_status") (codes "500") ∷ [])
    ∷ []

abbrev quiet : Sampling
quiet = record {
  suppress = true;
  slow_threshold = 1000;
  success_sample_rate = 0;
  duration = 3;
  random = 500;
}

abbrev milliseconds : ℕ → Text
milliseconds n = codes "3"

emit-notes_example :
    line_value (codes "level") (emit quiet milliseconds (codes "now") (notes calls request))
    ≡ some (codes "error")
emit-notes_example = emit-notes quiet milliseconds (codes "now") request calls (codes "level")
