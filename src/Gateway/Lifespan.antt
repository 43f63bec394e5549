-- ===== src/Gateway/Lifespan.antt =====
-- `lifespan` of api/main.py with the end of `drain`: what the API prints at its start and at its end,
-- and what it leaves of its pool.
use case_fullstack_senior.Prelude.{
  ℕ, suc, ◌==◌, Bool, true, false, not, ◌&&◌, ◌≡◌, refl, ap, ◌∙◌, Option, none, some, List, [], ◌∷◌,
  if◌then◌else◌, arith,
}
use case_fullstack_senior.Prelude.Int.{ℤ, pos}
use case_fullstack_senior.Prelude.Text.{Text, codes}
use case_fullstack_senior.Config.{get_item}
use case_fullstack_senior.Config.Settings.{Runtime, dispose_pool}
use case_fullstack_senior.Gateway.Drain.{
  Server, fresh, past, Reach, IsCounted, fresh-IsCounted, Reach-IsCounted, is_clean, is_serving,
  arrive,
}
use case_fullstack_senior.Gateway.{request_started}
use case_fullstack_senior.Gateway.Events.{WideEvent, entry, new_event, add, error, note}
use case_fullstack_senior.Gateway.Filters.{LogFilter, install_probe_route_access_filter}

-- Up to the `yield`: the filters of the access log, and the event that is emitted
unfoldable pub lifespan_start : Bool → ℕ → List LogFilter → Text → List LogFilter × WideEvent
lifespan_start suppress identity filters event_id = (
  if suppress then install_probe_route_access_filter identity filters else filters,
  new_event event_id (codes "api") (codes "startup") [],
)

-- What `drain` emits when it returns, for an end by the timeout or not. `print` is json.dumps of a
-- number.
unfoldable pub drain_events : (ℤ → Text) → Text → Bool → ℤ → List WideEvent
unfolding note
drain_events print event_id false in_flight = []
drain_events print event_id true in_flight =
    note
      (error none (
        entry (codes "timeout_s") (codes "30.0")
        ∷ entry (codes "in_flight") (print in_flight)
        ∷ []))
      (new_event event_id (codes "api") (codes "shutdown_drain_timeout") [])
    ∷ []

abbrev pub shutdown_event : Text → WideEvent
shutdown_event event_id =
    note
      (add (
        entry (codes "drained") (codes "true")
        ∷ entry (codes "db_pool_disposed") (codes "true")
        ∷ []))
      (new_event event_id (codes "api") (codes "shutdown") [])

abbrev pub then_shutdown : List WideEvent → WideEvent → List WideEvent
then_shutdown [] e = e ∷ []
then_shutdown (d ∷ ds) e = d ∷ then_shutdown ds e

-- After the `yield`, for the end of the drain: the events that are emitted, and the process
unfoldable pub lifespan_end :
    {Float : Type 0}
    → (ℤ → Text)
    → Text
    → Text
    → Bool
    → ℤ
    → Runtime Float
    → List WideEvent × Runtime Float
unfolding drain_events dispose_pool
lifespan_end print timeout_id event_id timed_out in_flight rt = (
  then_shutdown (drain_events print timeout_id timed_out in_flight) (shutdown_event event_id),
  dispose_pool rt,
)

-- The number of requests that an event of an error tells
abbrev pub cut_off : List WideEvent → Option Text
cut_off [] = none
cut_off (e ∷ es) =
    let rest = cut_off es in if e.is_error then get_item (codes "in_flight") e.fields else rest

-- Every event `shutdown` says that the API is drained.
abbrev pub claims_drained : List WideEvent → Option Text
claims_drained [] = none
claims_drained (e ∷ []) = get_item (codes "drained") e.fields
claims_drained (e ∷ d ∷ es) = claims_drained (d ∷ es)

module _ {Float : Type 0} (print : ℤ → Text) (timeout_id event_id : Text) (rt : Runtime Float) where
  disposed : (dispose_pool rt).pool ≡ none
  unfolding dispose_pool
  disposed = ground arith

  cut_off-lifespan_end :
      (timed_out : Bool) (in_flight : ℤ)
      → cut_off (lifespan_end print timeout_id event_id timed_out in_flight rt).0
        ≡ (if timed_out then some (print in_flight) else none)
  unfolding lifespan_end note
  cut_off-lifespan_end false in_flight = refl
  cut_off-lifespan_end true in_flight = refl

  claims_drained-lifespan_end :
      (timed_out : Bool) (in_flight : ℤ)
      → claims_drained (lifespan_end print timeout_id event_id timed_out in_flight rt).0
        ≡ some (codes "true")
  unfolding lifespan_end note
  claims_drained-lifespan_end false in_flight = refl
  claims_drained-lifespan_end true in_flight = refl

  -- If the API began without requests and its drain has ended, then the end of the lifespan leaves
  -- no pool, and an arrival changes nothing but the number of refusals; without a timeout of the drain no request is live and no event of an error is
  -- printed; after a timeout an event of an error tells the number of the requests that are live,
  -- and the event `shutdown` says all the same that the API is drained.
  pub lifespan_end-drain :
      {s : Server} {timed_out : Bool}
      → Reach fresh s
      → s.phase ≡ past timed_out
      → let (events, rt') = lifespan_end print timeout_id event_id timed_out s.gate.in_flight rt in
        (rt'.pool ≡ none)
        × (arrive s ≡ record s { refused = suc s.refused })
        × ((not timed_out && not (s.live == 0)) ≡ false)
        × (cut_off events ≡ (if timed_out then some (print (pos s.live)) else none))
        × (claims_drained events ≡ some (codes "true"))
  unfolding lifespan_end request_started
  lifespan_end-drain {s} {timed_out} r ended =
      let h : IsCounted s = Reach-IsCounted fresh-IsCounted r in
      (
        disposed,
        refuses timed_out ended,
        quiet timed_out ended,
        cut_off-lifespan_end timed_out s.gate.in_flight
            ∙ ap (λ n. if timed_out then some (print n) else none) h.counter,
        claims_drained-lifespan_end timed_out s.gate.in_flight,
      )
    where
      refuses : (t : Bool) → s.phase ≡ past t → arrive s ≡ record s { refused = suc s.refused }
      refuses t e =
          let flag = (Reach-IsCounted fresh-IsCounted r).flag in
          let closed : s.gate.shutting_down ≡ true = flag ∙ ap (λ p. not (is_serving p)) e in
          rw closed refl

      quiet : (t : Bool) → s.phase ≡ past t → (not t && not (s.live == 0)) ≡ false
      quiet true e = refl
      quiet false e =
          let none_live = (Reach-IsCounted fresh-IsCounted r).quiet (ap is_clean e) in ground arith
