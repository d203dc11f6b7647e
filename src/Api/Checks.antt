-- ===== src/Api/Checks.antt =====
-- The handlers that check permissions of internal/api/permissions.go. How the checks of one request
-- run at the same time is in Api/Pool.
use permissions_api.Base.{
  ℕ, zero, suc, String, Bool, true, false, Option, none, some, List, [], ◌∷◌, ◌==◌, is_empty,
  if◌then◌else◌,
}
use permissions_api.Types.{Resource}
use permissions_api.Query.Messages.{
  Error, Outcome, ok, err, panic, Reply, answer, failure, action_not_assigned, invalid_action,
}
use permissions_api.Query.Engine.{Engine, new_resource_from_id}
use permissions_api.Query.Monad.{Backend}
use permissions_api.Api.Http.{
  Response, H, Context, respond, ◌>>=◌, ◌>>◌, bind, parse, always, resource_of, current_subject,
  check_action_with_response,
}

-- The values that the query gives for a name, `none` if it does not name it.
unfoldable pub get_param : Option (List String) → Option String
get_param none = none
get_param (some []) = some ""
get_param (some (v ∷ vs)) = some v

pub record CheckAction : Type 0 where
  pub resource_id : String
  pub action : String

pub record CheckRequest : Type 0 where
  pub index : ℕ
  pub resource : Resource
  pub action : String

-- What the collector of the results counts: an error of a check as denied, as a bad request, or as
-- any other.
pub data Verdict : Type 0 where
  allowed denied invalid internal : Verdict

abbrev pub is_not_assigned : Error → Bool
is_not_assigned action_not_assigned = true
is_not_assigned x = false

abbrev pub is_invalid_action : Error → Bool
is_invalid_action invalid_action = true
is_invalid_action x = false

unfoldable pub verdict_of : Option Error → Verdict
verdict_of none = allowed
verdict_of (some x) =
    if is_not_assigned x then denied else if is_invalid_action x then invalid else internal

pub record Counters : Type 0 where
  pub bad_request_errors : ℕ
  pub unauthorized_errors : ℕ
  pub internal_errors : ℕ

abbrev pub no_errors : Counters
no_errors = record { bad_request_errors = 0; unauthorized_errors = 0; internal_errors = 0 }

unfoldable pub counted : Counters → Verdict → Counters
counted n allowed = n
counted n denied = record n { unauthorized_errors = suc n.unauthorized_errors }
counted n invalid = record n { bad_request_errors = suc n.bad_request_errors }
counted n internal = record n { internal_errors = suc n.internal_errors }

-- The counters after the loop, which counts the first result first.
unfoldable pub tally : Counters → List Verdict → Counters
tally n [] = n
tally n (v ∷ vs) = tally (counted n v) vs

abbrev pub status_for : ℕ → ℕ → ℕ → ℕ
status_for (suc i) u r = 500
status_for zero (suc u) r = 403
status_for zero zero (suc r) = 400
status_for zero zero zero = 200

-- The status of the answer of `checkAllActions` once its results are counted.
unfoldable pub final_status : Counters → ℕ
final_status n = status_for n.internal_errors n.unauthorized_errors n.bad_request_errors

-- The body that `bulkCheckActions` gives for one check; the text of an error is the error.
pub record CheckActionResponse : Type 0 where
  pub resource_id : String
  pub action : String
  pub allowed : Bool
  pub error : Option Error

unfoldable pub bulk_response : CheckRequest → Option Error → CheckActionResponse
bulk_response r none = record {
  resource_id = r.resource.id;
  action = r.action;
  allowed = true;
  error = none;
}
bulk_response r (some action_not_assigned) = record {
  resource_id = r.resource.id;
  action = r.action;
  allowed = false;
  error = none;
}
bulk_response r (some x) = record {
  resource_id = r.resource.id;
  action = r.action;
  allowed = false;
  error = some x;
}

module _ (b : Backend) (e : Engine) where
  abbrev check_request : ℕ → String → Outcome Resource → Option CheckRequest
  check_request i action (ok res) = some (record { index = i; resource = res; action = action })
  check_request i action (err _) = none
  check_request i action panic = none

  abbrev parsed_request : ℕ → String → Reply String → Option CheckRequest
  parsed_request i action (answer id) = check_request i action (new_resource_from_id b.prefix e id)
  parsed_request i action (failure _) = none

  -- One check of the body of `checkAllActions`; `none` if it is invalid.
  unfoldable pub request_of : ℕ → CheckAction → Option CheckRequest
  request_of i check =
      if check.action == ""
      then none
      else parsed_request i check.action (b.parse_id check.resource_id)

  -- The loop over the body of `checkAllActions`, which ends with the requests and the indices of
  -- the invalid checks.
  unfoldable pub validate_checks : ℕ → List CheckAction → List CheckRequest × List ℕ
  validate_checks i [] = ([], [])
  validate_checks i (check ∷ checks) =
      let (requests, errs) = validate_checks (suc i) checks in
      elim (request_of i check) [ some r ↦ (r ∷ requests, errs) | none ↦ (requests, i ∷ errs) ]

  -- The loop over the body of `bulkCheckActions`, which accepts an empty action; the code sets no
  -- index.
  unfoldable pub validate_bulk : List CheckAction → List CheckRequest × List CheckAction
  validate_bulk [] = ([], [])
  validate_bulk (check ∷ checks) =
      let (requests, errs) = validate_bulk checks in
      elim (parsed_request 0 check.action (b.parse_id check.resource_id)) [
        | some r ↦ (r ∷ requests, errs)
        | none ↦ (requests, check ∷ errs)
      ]

  module _ (c : Context) where
    unfoldable pub check_action :
        Option (List String) → Option (List String) → H b (Response (Unit {0}))
    unfolding current_subject check_action_with_response get_param
    check_action actions resources = do
      action ← bind 400 (get_param actions)
      resource_id_str ← bind 400 (get_param resources)
      resource_id ← parse 400 resource_id_str
      resource ← resource_of b e (always 400) resource_id
      subject_resource ← current_subject b e c
      check_action_with_response b e subject_resource action resource
      respond 200 tt

    -- The requests that `checkAllActions` runs, or the status of a refusal.
    unfoldable pub requests_to_check :
        Option (List CheckAction) → H b (Resource × List CheckRequest)
    unfolding current_subject validate_checks
    requests_to_check body = do
      subject_resource ← current_subject b e c
      req_body ← bind 400 body
      let checked = validate_checks 0 req_body
      bind 400 (if is_empty checked.1 then some (subject_resource, checked.0) else none)

    -- Those of `bulkCheckActions`.
    unfoldable pub bulk_to_check : Option (List CheckAction) → H b (Resource × List CheckRequest)
    unfolding current_subject validate_bulk
    bulk_to_check body = do
      subject_resource ← current_subject b e c
      req_body ← bind 400 body
      let checked = validate_bulk req_body
      bind 400 (if is_empty checked.1 then some (subject_resource, checked.0) else none)
