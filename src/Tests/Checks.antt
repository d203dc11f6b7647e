-- ===== src/Tests/Checks.antt =====
-- The checks of permissions that run at the same time (internal/api/permissions.go) at small inputs.
use permissions_api.Base.{
  ℕ, String, ◌⊎◌, inr, ◌+◌, ◌*◌, ◌≤◌, ◌≡◌, refl, none, some, Option, List, [], ◌∷◌, All, length,
  map, arith,
}
use permissions_api.Query.Messages.{Error, action_not_assigned}
use permissions_api.Api.Checks.{CheckRequest, verdict_of, counted, tally, no_errors, final_status}
use permissions_api.Api.Pool.{
  checked, Pool, start, Step, take, finish, collect, Reach, here, next, status_of_results,
}
use permissions_api.Api.Pool.Safety.{
  Answers, verdict_on, status_of_results_safe, status_of_results_lem,
}
use permissions_api.Api.Pool.Progress.{Reach-bounded, Step-progress}
use permissions_api.Client.{AccessRequest, checker}
use permissions_api.Client.Allowed.{checker_safe}
use permissions_api.Tests.World.{tenant}

abbrev to_view : CheckRequest
to_view = record { index = 0; resource = tenant; action = "view" }

abbrev granted : CheckRequest → Option Error
granted r = none

abbrev denied : CheckRequest → Option Error
denied r = some action_not_assigned

abbrev requests : List CheckRequest
requests = to_view ∷ []

-- The pool when one worker has taken the request, has sent its result, and when it is collected.
abbrev taken : Pool
taken = record (start 1 requests) { requests = []; busy = requests; idle = 0 }

abbrev sent : Option Error → Pool
sent x = record taken { busy = []; idle = 1; results = checked to_view x ∷ [] }

abbrev finished : Option Error → Pool
finished x = record (sent x) { results = []; received = checked to_view x ∷ [] }

runs :
    (f : CheckRequest → Option Error)
    → Reach (Answers f) 1 (start 1 requests) 3 (finished (f to_view))
runs f =
    next
      (next (next here (take (start 1 requests) to_view [] 0 refl refl))
        (finish taken [] to_view [] (f to_view) refl refl (omega arith)))
      (collect (sent (f to_view)) (checked to_view (f to_view)) [] refl (omega arith))

served : status_of_results (finished none).received ≡ 200
unfolding status_of_results tally counted final_status verdict_of
served = refl

status_of_results_safe_example : All (λ r. Answers granted r none) requests
status_of_results_safe_example =
    status_of_results_safe (Answers granted) 1 3 requests (finished none) (runs granted) refl served

-- A check that is denied is answered with status 403.
status_of_results_lem_example :
    status_of_results (finished (some action_not_assigned)).received
    ≡ final_status (tally no_errors (map (verdict_on denied) requests))
status_of_results_lem_example =
    status_of_results_lem denied 1 3 requests (finished (some action_not_assigned)) (runs denied)
      refl refl

forbidden : status_of_results (finished (some action_not_assigned)).received ≡ 403
unfolding status_of_results tally counted final_status verdict_of
forbidden = refl

Reach-bounded_example : 3 ≤ length requests * 3 + 1
Reach-bounded_example =
    Reach-bounded (Answers granted) 1 3 requests (finished none) (runs granted) refl

Step-progress_example :
    (q : Pool) × Step (Answers granted) 1 (start 1 requests) q
    × (q.expired ≡ (start 1 requests).expired)
Step-progress_example =
    Step-progress (Answers granted) 0 0 requests (start 1 requests) (λ r. (none, refl)) here
      (omega arith)

abbrev wish : AccessRequest
wish = record { resource_id = to_view.resource.id; action = "view" }

-- The server's status, as the client receives it.
abbrev post : List AccessRequest → String ⊎ ℕ
post xs = inr (status_of_results (finished none).received)

passed : checker post (wish ∷ []) ≡ none
unfolding checker status_of_results tally counted final_status verdict_of
    permissions_api.Client.ensure_valid_server_response
passed = refl

checker_safe_example : All (λ r. Answers granted r none) requests
checker_safe_example =
    checker_safe post (wish ∷ []) (Answers granted) 1 3 requests (finished none) (runs granted) refl
      refl passed
