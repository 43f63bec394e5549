-- ===== src/Gateway/Events.antt =====
-- {api,worker}/shared/logging/wide_event.py: an event that gathers fields until it is printed. The
-- values of fields are the texts that json.dumps prints; the clock and the random number are
-- arguments.
pub mod Printed
use case_fullstack_senior.Prelude.{
  ℕ, ◌≡◌, refl, ◌∙◌, ap, Bool, true, false, ◌||◌, Option, none, some, List, [], ◌∷◌, if◌then◌else◌,
  any, leb, ltb, inl, inr, Bool-cases, arith,
}
use case_fullstack_senior.Prelude.Text.{Text, codes, same, same-equal}
use case_fullstack_senior.Gateway.Logs.{Sampling, should_emit}
use case_fullstack_senior.Config.{Entry, get_item, set_item}

-- `fields` is the dict and `is_error` is `_error`; how long the event has lasted is in `Sampling`.
pub record WideEvent : Type 0 where
  pub fields : List Entry
  pub is_error : Bool

abbrev pub entry : Text → Text → Entry
entry key value = record { key = key; value = value }

-- `dict.update`
abbrev pub update : List Entry → List Entry → List Entry
update fields [] = fields
update fields (e ∷ new) = update (set_item e fields) new

-- `WideEvent(service, name, **fields)`
abbrev pub new_event : Text → Text → Text → List Entry → WideEvent
new_event event_id service name fields = record {
  fields =
      update
        (entry (codes "event_id") event_id
          ∷ entry (codes "service") service
          ∷ entry (codes "event") name
          ∷ [])
        fields;
  is_error = false;
}

-- A call of `add`, or of `error` with or without an exception
pub data Note : Type 0 where
  add : List Entry → Note
  error : Option (Text × Text) → List Entry → Note

abbrev pub error_fields : Option (Text × Text) → List Entry
error_fields none = []
error_fields (some (type, message)) =
    entry (codes "error_type") type ∷ entry (codes "error_message") message ∷ []

unfoldable pub note : Note → WideEvent → WideEvent
note (add fields) e = record e { fields = update e.fields fields }
note (error exc fields) e = record e {
  fields = update (update e.fields (error_fields exc)) fields;
  is_error = true;
}

abbrev pub notes : List Note → WideEvent → WideEvent
notes [] e = e
notes (n ∷ ns) e = notes ns (note n e)

abbrev pub level : Bool → Text
level true = codes "error"
level false = codes "info"

-- The fields of the line that is printed; `print_ms` prints a duration.
abbrev pub line_of : Sampling → (ℕ → Text) → Text → WideEvent → List Entry
line_of c print_ms timestamp e = update e.fields (
    entry (codes "timestamp") timestamp
    ∷ entry (codes "duration_ms") (print_ms c.duration)
    ∷ entry (codes "level") (level e.is_error)
    ∷ [])

-- `emit`: the line, if one is printed
unfoldable pub emit : Sampling → (ℕ → Text) → Text → WideEvent → Option (List Entry)
emit c print_ms timestamp e =
    if should_emit c e.is_error then some (line_of c print_ms timestamp e) else none

-- `start_event`: the new event, which is the context's from then on
abbrev pub start_event : Text → Text → Text → List Entry → WideEvent × Option WideEvent
start_event event_id service name fields =
    let e = new_event event_id service name fields in (e, some e)

-- `current_event`: the context's event, or an orphan for code that runs without one
unfoldable pub current_event : Text → Option WideEvent → WideEvent × Option WideEvent
current_event event_id (some e) = (e, some e)
current_event event_id none = start_event event_id (codes "unknown") (codes "orphan") []
