-- ===== src/Gateway/Events/Printed.antt =====
-- What `emit` prints of an event, by the calls that it got.
use case_fullstack_senior.Prelude.{
  ℕ, ◌≡◌, refl, ◌∙◌, ap, Bool, true, false, ◌||◌, Option, none, some, List, [], ◌∷◌, if◌then◌else◌,
  any, leb, ltb, inl, inr, Bool-cases, arith,
}
use case_fullstack_senior.Prelude.Text.{Text, codes, same, same-equal}
use case_fullstack_senior.Gateway.Logs.{Sampling, should_emit}
use case_fullstack_senior.Config.{Entry, get_item, set_item}
use case_fullstack_senior.Gateway.Events.{
  WideEvent, entry, update, Note, add, error, error_fields, note, notes, level, line_of, emit,
}

abbrev pub is_error_note : Note → Bool
is_error_note (add fields) = false
is_error_note (error exc fields) = true

notes-error :
    (ns : List Note) (e : WideEvent) → (notes ns e).is_error ≡ (e.is_error || any is_error_note ns)
unfolding note
notes-error [] e = ground arith
notes-error (add fields ∷ ns) e = notes-error ns (note (add fields) e)
notes-error (error exc fields ∷ ns) e =
    let set = notes-error ns (note (error exc fields) e) in ground arith

-- An item that is set is found under its key, and every other key keeps its item.
get_item-set_item :
    (k : Text) (e : Entry) (fields : List Entry)
    → get_item k (set_item e fields) ≡ (if same e.key k then some e.value else get_item k fields)
get_item-set_item k e [] = refl
get_item-set_item k e (first ∷ fields) = elim (Bool-cases (same first.key e.key)) [
  | inl taken ↦
      let equal : first.key ≡ e.key = same-equal first.key e.key taken in
      elim (Bool-cases (same e.key k)) [
        | inl at ↦ rw (taken, at) refl
        | inr away ↦
            let first_away : same first.key k ≡ false = ap (λ t. same t k) equal ∙ away in
            rw (taken, away, first_away) refl
      ]
  | inr apart ↦ elim (Bool-cases (same first.key k)) [
    | inl found ↦ elim (Bool-cases (same e.key k)) [
      | inl at ↦
          let equal : e.key ≡ k = same-equal e.key k at in
          let both : same first.key e.key ≡ true = ap (same first.key) equal ∙ found in
          absurd (ground arith)
      | inr away ↦ rw (apart, found, away) refl
    ]
    | inr other ↦ rw (apart, other) (get_item-set_item k e fields)
  ]
]

-- The last value that a list of items gives a key, over the one that it had
abbrev pub last_of : Text → List Entry → Option Text → Option Text
last_of k [] o = o
last_of k (e ∷ items) o = last_of k items (if same e.key k then some e.value else o)

-- What an exception says under a key
abbrev pub cause_of : Text → Option (Text × Text) → Option Text → Option Text
cause_of k none o = o
cause_of k (some (type, message)) o =
    if same (codes "error_message") k
    then some message
    else (if same (codes "error_type") k then some type else o)

-- What the calls leave under a key: the later call wins, and in a call of `error` the fields win over
-- the exception.
abbrev pub left_by : Text → List Note → Option Text → Option Text
left_by k [] o = o
left_by k (add fields ∷ ns) o = left_by k ns (last_of k fields o)
left_by k (error exc fields ∷ ns) o = left_by k ns (last_of k fields (cause_of k exc o))

-- The value of a key in a printed line: the level "error" or "info", the duration, the time, and for
-- every other key what the calls left there.
abbrev pub printed : Text → Bool → Text → Text → Option Text → Option Text
printed k failed duration timestamp left =
    if same (codes "level") k
    then some (if failed then codes "error" else codes "info")
    else (if same (codes "duration_ms") k
        then some duration
        else (if same (codes "timestamp") k then some timestamp else left))

-- The value of a key in what `emit` printed, if it printed
abbrev pub line_value : Text → Option (List Entry) → Option Text
line_value k none = none
line_value k (some line) = get_item k line

get_item-update :
    (k : Text) (new fields : List Entry)
    → get_item k (update fields new) ≡ last_of k new (get_item k fields)
get_item-update k [] fields = refl
get_item-update k (e ∷ new) fields =
    get_item-update k new (set_item e fields) ∙ ap (last_of k new) (get_item-set_item k e fields)

get_item-error_fields :
    (k : Text) (exc : Option (Text × Text)) (fields : List Entry)
    → get_item k (update fields (error_fields exc)) ≡ cause_of k exc (get_item k fields)
get_item-error_fields k none fields = refl
get_item-error_fields k (some (type, message)) fields =
    get_item-update k (error_fields (some (type, message))) fields

get_item-notes :
    (k : Text) (ns : List Note) (e : WideEvent)
    → get_item k (notes ns e).fields ≡ left_by k ns (get_item k e.fields)
unfolding note
get_item-notes k [] e = refl
get_item-notes k (add fields ∷ ns) e =
    get_item-notes k ns (note (add fields) e)
    ∙ ap (left_by k ns) (get_item-update k fields e.fields)
get_item-notes k (error exc fields ∷ ns) e =
    get_item-notes k ns (note (error exc fields) e)
    ∙ ap (left_by k ns) (
        get_item-update k fields (update e.fields (error_fields exc))
        ∙ ap (last_of k fields) (get_item-error_fields k exc e.fields))

line_of-printed :
    (c : Sampling) (print_ms : ℕ → Text) (timestamp : Text) (e : WideEvent) (k : Text)
    → get_item k (line_of c print_ms timestamp e)
      ≡ printed k e.is_error (print_ms c.duration) timestamp (get_item k e.fields)
line_of-printed c print_ms timestamp e k =
    get_item-update k
      (entry (codes "timestamp") timestamp
        ∷ entry (codes "duration_ms") (print_ms c.duration)
        ∷ entry (codes "level") (level e.is_error)
        ∷ [])
      e.fields
    ∙ ap
        (λ l.
          if same (codes "level") k
          then some l
          else last_of k
              (entry (codes "timestamp") timestamp
                ∷ entry (codes "duration_ms") (print_ms c.duration)
                ∷ [])
              (get_item k e.fields))
        (level-lem e.is_error)
  where
    level-lem : (b : Bool) → level b ≡ (if b then codes "error" else codes "info")
    level-lem true = refl
    level-lem false = refl

line_value-if :
    (k : Text) (b d : Bool) (line : List Entry) {o : Option Text}
    → b ≡ d
    → get_item k line ≡ o
    → line_value k (if b then some line else none) ≡ (if d then o else none)
line_value-if k true d line e same_line = rw (← e) same_line
line_value-if k false d line e same_line = rw (← e) refl

should_emit-lem :
    (c : Sampling) (b : Bool)
    → should_emit c b ≡ (b || leb c.slow_threshold c.duration || ltb c.random c.success_sample_rate)
should_emit-lem c b = ground arith

-- Whatever calls of `add` and `error` an event gets, `emit` prints it exactly if one of them was an
-- `error`, or the event has lasted the slow threshold, or its random number is below the sample
-- rate; in what it prints the level is "error" if one of the calls was an `error` and "info" if
-- not, whatever a field named `level` says, and every key but the level, the time and the duration
-- has the value that the last call for it gave, an `error` also the type and the message of its
-- exception.
pub emit-notes :
    (c : Sampling) (print_ms : ℕ → Text) (timestamp : Text) (e : WideEvent) (ns : List Note)
    (k : Text)
    → let failed = e.is_error || any is_error_note ns in
      line_value k (emit c print_ms timestamp (notes ns e)) ≡ (
        if failed || leb c.slow_threshold c.duration || ltb c.random c.success_sample_rate
        then printed k failed (print_ms c.duration) timestamp (left_by k ns (get_item k e.fields))
        else none)
unfolding emit
emit-notes c print_ms timestamp e ns k =
    let set = notes-error ns e in
    let last = notes ns e in
    line_value-if k (should_emit c last.is_error) _ (line_of c print_ms timestamp last)
      (should_emit-lem c last.is_error
        ∙ ap (λ b. b || leb c.slow_threshold c.duration || ltb c.random c.success_sample_rate) set)
      (line_of-printed c print_ms timestamp last k
        ∙ ap (λ b. printed k b (print_ms c.duration) timestamp (get_item k last.fields)) set
        ∙ ap (printed k (e.is_error || any is_error_note ns) (print_ms c.duration) timestamp)
            (get_item-notes k ns e))
