-- ===== src/Gateway/Logs.antt =====
-- Which requests are logged: `is_probe_route`, `should_emit_request_log` and
-- `request_lifecycle_middleware` of api/main.py, `_should_emit` of api/shared/logging/wide_event.py,
-- and the filter of uvicorn's own log in api/shared/logging/access_log.py. A text is its list of code
-- points.
use case_fullstack_senior.Prelude.{
  ℕ, ◌≤◌, Bool, true, false, not, ◌&&◌, ◌||◌, ◌≡◌, refl, Option, none, some, List, [], ◌∷◌, ◌++◌,
  map, arith, ◌==◌, leb, ltb, if◌then◌else◌, any, inl, inr, Bool-cases,
}
use case_fullstack_senior.Prelude.Text.{Text, codes, same, starts_with}
use case_fullstack_senior.Gateway.{GracefulShutdown, request_started, request_finished}

abbrev pub probe_log_paths : List Text
probe_log_paths =
    map codes ("/health" ∷ "/healthz" ∷ "/ready" ∷ "/readyz" ∷ "/live" ∷ "/livez" ∷ [])

unfoldable pub is_probe_route : Text → Bool
is_probe_route path =
    any (same path) probe_log_paths
    || same path (codes "/metrics")
    || starts_with (codes "/metrics/") path

unfoldable pub should_emit_request_log : Text → Bool → ℕ → Bool
should_emit_request_log path suppress status =
    if not suppress || leb 400 status then true else not (is_probe_route path)

-- `text.split("?", 1)[0]`
abbrev pub before_query : Text → Text
before_query [] = []
before_query (c ∷ s) = if c == b'?' then [] else c ∷ before_query s

-- The arguments of a log record; `other` is a value that is no text and that `int` refuses.
pub data Arg : Type 0 where
  text : Text → Arg
  number : ℕ → Arg
  other : Arg

-- `int(raw)`, where `int_of` is what `int` makes of a text
abbrev pub to_int : (Text → Option ℕ) → Arg → Option ℕ
to_int int_of (text t) = int_of t
to_int int_of (number n) = some n
to_int int_of other = none

-- `_parse_access_record`; `none` for arguments that are no tuple, and for the pair (None, None)
unfoldable pub parse_access_record : (Text → Option ℕ) → Option (List Arg) → Option (Text × ℕ)
parse_access_record int_of (some (client ∷ method ∷ text path ∷ version ∷ status ∷ rest)) =
    elim (to_int int_of status) [ none ↦ none | some n ↦ some (before_query path, n) ]
parse_access_record int_of _ = none

-- `ProbeRouteAccessFilter.filter`
unfoldable pub filter : (Text → Option ℕ) → (Text → Bool) → Option (List Arg) → Bool
unfolding parse_access_record
filter int_of is_probe args = elim (parse_access_record int_of args) [
  | none ↦ true
  | some (path, status) ↦ if leb 400 status then true else not (is_probe path)
]

before_query-path :
    (path query : Text)
    → any (λ c. c == b'?') path ≡ false
    → before_query (path ++ b'?' ∷ query) ≡ path
before_query-path [] query h = refl
before_query-path (c ∷ s) query h = elim (Bool-cases (c == b'?')) [
  | inl mark ↦ absurd (ground arith)
  | inr plain ↦ let e = before_query-path s query (ground arith) in rw (plain, e) refl
]

-- For a path without a question mark and any query, uvicorn's line of a request with a numeric
-- status is kept exactly if `should_emit_request_log` with the suppression on writes the
-- request's event.
pub filter-should_emit_request_log :
    (int_of : Text → Option ℕ) (client method path query version : Text) (status : ℕ)
    (rest : List Arg)
    → any (λ c. c == b'?') path ≡ false
    → filter int_of is_probe_route (
        some (
          text client
          ∷ text method
          ∷ text (path ++ b'?' ∷ query)
          ∷ text version
          ∷ number status
          ∷ rest))
      ≡ should_emit_request_log path true status
unfolding filter should_emit_request_log
filter-should_emit_request_log int_of client method path query version status rest h =
    rw (before_query-path path query h) refl

-- How a request ends: with a response of a status, or with an exception.
pub data Outcome : Type 0 where
  responded : ℕ → Outcome
  raised : Outcome

-- What is logged: `is_written` tells whether the event is printed, `is_observed` whether the duration
-- metric is.
pub record RequestLog : Type 0 where
  pub status : ℕ
  pub is_error : Bool
  pub is_written : Bool
  pub is_observed : Bool

-- LOG_SUPPRESS_PROBE_ROUTES, the threshold and the sample rate of wide_event.py, with the duration and
-- the random number of this request, all in the same units.
pub record Sampling : Type 0 where
  pub suppress : Bool
  pub slow_threshold : ℕ
  pub success_sample_rate : ℕ
  pub duration : ℕ
  pub random : ℕ

-- `WideEvent._should_emit`
abbrev pub should_emit : Sampling → Bool → Bool
should_emit c is_error =
    if is_error || leb c.slow_threshold c.duration then true else ltb c.random c.success_sample_rate

abbrev pub status_of : Outcome → ℕ
status_of (responded status) = status
status_of raised = 500

abbrev pub is_failure : Outcome → Bool
is_failure (responded status) = leb 500 status
is_failure raised = true

abbrev pub request_log : Sampling → Text → ℕ → Bool → RequestLog
request_log c path status is_error = record {
  status = status;
  is_error = is_error;
  is_written = should_emit_request_log path c.suppress status && should_emit c is_error;
  is_observed = not (starts_with (codes "/metrics") path);
}

-- `request_lifecycle_middleware`; `meanwhile` is what other requests do to the gate while this one is
-- handled.
unfoldable pub request_lifecycle :
    Sampling
    → Text
    → Outcome
    → (GracefulShutdown → GracefulShutdown)
    → GracefulShutdown
    → RequestLog × GracefulShutdown
unfolding request_started request_finished should_emit_request_log
request_lifecycle c path outcome meanwhile g =
    let (accepted, entered) = request_started g in
    if accepted
    then (
      request_log c path (status_of outcome) (is_failure outcome),
      request_finished (meanwhile entered),
    )
    else (request_log c path 503 true, entered)

-- Whatever the suppression, the threshold and the sampling are, a request whose logged status is
-- at least 500 is written, as an error; and the logged status is 503 if the server is shutting
-- down.
pub request_lifecycle-written :
    (c : Sampling) (path : Text) (outcome : Outcome)
    (meanwhile : GracefulShutdown → GracefulShutdown) (g : GracefulShutdown)
    → let log = (request_lifecycle c path outcome meanwhile g).0 in
      (500 ≤ log.status → (log.is_written ≡ true) × (log.is_error ≡ true))
      × (g.shutting_down ≡ true → log.status ≡ 503)
unfolding request_lifecycle should_emit_request_log
request_lifecycle-written c path outcome meanwhile g = elim (Bool-cases g.shutting_down) [
  | inl closed ↦ rw closed (λ bad. (ground arith, refl), λ e. refl)
  | inr open_gate ↦ rw open_gate (written outcome, λ e. absurd (ground arith))
]
  where
    written :
        (outcome : Outcome)
        → let log = request_log c path (status_of outcome) (is_failure outcome) in
          500 ≤ log.status → (log.is_written ≡ true) × (log.is_error ≡ true)
    written (responded status) bad =
        let failing : leb 500 status ≡ true = ground arith in
        let logged : leb 400 status ≡ true = ground arith in (ground arith, failing)
    written raised bad = (ground arith, refl)
