-- ===== src/Tests/Interface.antt =====
-- The HTTP routes, the administrator's reads and the gate of the API on concrete values.
use case_fullstack_senior.Prelude.{
  [], ◌∷◌, not, ◌&&◌, if◌then◌else◌, ℕ, suc, true, false, ◌≡◌, refl, Option, none, some, any, ◌==◌,
}
use case_fullstack_senior.Prelude.Int.{ℤ, pos, pos_part, ◌+ℤ◌}
use case_fullstack_senior.Db.Schema.{queued, Db}
use case_fullstack_senior.Db.Query.{find, find_company, notify, insert_event_once}
use case_fullstack_senior.Service.{JobRef, owned_job, create_job}
use case_fullstack_senior.Http.{
  AuthContext, user, admin, success, failure, committed, post_job, post_cancel, post_retry,
  get_detail, get_payload,
}
use case_fullstack_senior.Http.Statuses.{foreign_job-404}
use case_fullstack_senior.Http.Effects.{post_job-refused, post_job-repeat}
use case_fullstack_senior.Prelude.Text.{Text, codes}
use case_fullstack_senior.Gateway.{request_started, start_drain}
use case_fullstack_senior.Config.Settings.{Runtime}
use case_fullstack_senior.Gateway.Lifespan.{
  lifespan_end, cut_off, claims_drained, lifespan_end-drain,
}
use case_fullstack_senior.Gateway.Drain.{
  time_out, Server, fresh, arrive, begin, past, waiting, arrival, drain, Reach, here, next,
}
use case_fullstack_senior.Gateway.Logs.{Sampling}
use case_fullstack_senior.Worker.{finalize}
use case_fullstack_senior.Tests.{alone, empty, shared_db, running_db, first_claim}

abbrev done_db : Db
done_db = (finalize first_claim running_db).1

abbrev acme_user : AuthContext
acme_user = record { company_id = 1; role = user }

abbrev globex_user : AuthContext
globex_user = record { company_id = 2; role = user }

at_limit :
    (post_job alone globex_user "export" (some "k-9") "" "r-7" shared_db).0
    ≡ failure 429 "limite de jobs concorrentes atingido"
unfolding post_job find_company notify insert_event_once
at_limit = refl

post_job-refused_example :
    (post_job alone globex_user "export" (some "k-9") "" "r-7" shared_db).1
    ≡ committed alone 2 "k-9" shared_db
post_job-refused_example =
    post_job-refused alone globex_user "export" "k-9" "" "r-7" shared_db at_limit

abbrev first_ref : JobRef
first_ref = record { id = 1; status = queued; attempts = 0 }

abbrev posted_db : Db
posted_db = (post_job alone acme_user "report" (some "k-1") "" "r-1" empty).1

posted :
    post_job alone acme_user "report" (some "k-1") "" "r-1" empty
    ≡ (success 201 (first_ref, true), posted_db)
unfolding post_job find_company notify insert_event_once
posted = refl

post_job-repeat_example :
    post_job alone (record acme_user { role = admin }) "report" (some "k-1") "" "r-2" posted_db
    ≡ (success 201 (first_ref, false), posted_db)
post_job-repeat_example =
    post_job-repeat alone alone acme_user admin "report" "k-1" "" "" "r-1" "r-2" empty posted

foreign : owned_job 2 1 shared_db ≡ none
unfolding create_job find_company notify insert_event_once owned_job find
foreign = refl

foreign_job-404_example :
    (get_detail globex_user 1 shared_db ≡ (failure 404 "not found", shared_db))
    × (get_payload globex_user 1 shared_db ≡ (failure 404 "no result", shared_db))
    × (post_cancel globex_user 1 "r-7" shared_db ≡ (failure 404 "not found", shared_db))
    × (post_retry globex_user 1 "r-7" shared_db ≡ (failure 404 "not found", shared_db))
foreign_job-404_example = foreign_job-404 globex_user 1 "r-7" shared_db foreign

abbrev draining : Server
draining = begin (arrive fresh)

abbrev cut_short : Server
cut_short = record draining { phase = past true }

still_live : draining.live ≡ suc 0
unfolding request_started start_drain ◌+ℤ◌
still_live = refl

waits : draining.phase ≡ waiting
unfolding request_started start_drain ◌+ℤ◌
waits = refl

run : Reach fresh cut_short
run = next (next (next here arrival) (drain refl)) (time_out waits)

-- A process with a pool
abbrev serving_process : Runtime ℕ
serving_process = record {
  environ = [];
  settings = none;
  pool = some (record {
    url = codes "postgresql://db";
    max_size = pos 5;
    timeout = 30;
    max_lifetime = pos 1800;
  });
  opened = 1;
  closed = 0;
}

abbrev print : ℤ → Text
print z = pos_part z ∷ []

lifespan_end-drain_example :
    let (events, process) =
      lifespan_end print
        (codes "e-1")
        (codes "e-2")
        true
        cut_short.gate.in_flight
        serving_process in
    (process.pool ≡ none)
    × (arrive cut_short ≡ record cut_short { refused = suc cut_short.refused })
    × ((not true && not (cut_short.live == 0)) ≡ false)
    × (cut_off events ≡ (if true then some (print (pos cut_short.live)) else none))
    × (claims_drained events ≡ some (codes "true"))
lifespan_end-drain_example =
    lifespan_end-drain print (codes "e-1") (codes "e-2") serving_process run refl

no_text : Text → Option ℕ
no_text t = none

plain_path : any (λ c. c == b'?') (codes "/metrics/x") ≡ false
plain_path = refl

abbrev rare : Sampling
rare = record {
  suppress = true;
  slow_threshold = 1000;
  success_sample_rate = 0;
  duration = 3;
  random = 5;
}
