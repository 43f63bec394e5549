-- ===== src/Tests/Submissions.antt =====
-- Submissions whose kind has white space around it, and what a run leaves of them.
use case_fullstack_senior.Prelude.{◌≡◌, refl, some, arith}
use case_fullstack_senior.Prelude.Strip.{is_space}
use case_fullstack_senior.Db.Query.{find}
use case_fullstack_senior.Http.{AuthContext, user}
use case_fullstack_senior.Http.Schemas.Create.{accepted_kind, accepted_key, create_route}
use case_fullstack_senior.System.Fits.{IsFitting, AllAccepted}
use case_fullstack_senior.System.Fits.Kept.{Reach-IsFitting}
use case_fullstack_senior.System.Fits.Submitted.{handled, create_route-handled}
use case_fullstack_senior.Tests.{alone, empty, empty-IsValid}
use case_fullstack_senior.Tests.Runs.{final_system, idle_system-IsConsistent, run}

empty-IsFitting : IsFitting is_space empty
unfolding find
empty-IsFitting = record { fit = λ k j found. absurd (ground arith); next_positive = omega arith }

kind_kept : accepted_kind is_space " report " ≡ some "report"
unfolding accepted_kind
kind_kept = refl

run-AllAccepted : AllAccepted is_space run
unfolding run
run-AllAccepted = ((((tt, (omega arith, (" report ", kind_kept))), tt), tt), tt)

Reach-IsFitting_example : IsFitting is_space final_system.db
Reach-IsFitting_example =
    Reach-IsFitting is_space idle_system-IsConsistent empty-IsFitting run run-AllAccepted

abbrev acme_user : AuthContext
acme_user = record { company_id = 1; role = user }

create_route-handled_example :
    let result =
      create_route is_space alone acme_user " report " (some " k-7") "srv-0" "r-7" empty in
    (result
      ≡ handled is_space alone acme_user "srv-0" "r-7" empty
          (accepted_kind is_space " report ")
          (accepted_key is_space (some " k-7")))
    × IsFitting is_space result.1
create_route-handled_example =
    create_route-handled is_space alone acme_user "srv-0" "r-7" empty empty-IsValid empty-IsValid
      empty-IsFitting empty-IsFitting " report " (some " k-7") (omega arith)
