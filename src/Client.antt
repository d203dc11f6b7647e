-- ===== src/Client.antt =====
-- The client library of pkg/permissions: the middleware and the checker of permissions.go and
-- checker.go, and the requests for relationships of relationships.go.
pub mod Allowed
pub mod Submitted
use Prim.Native.Nat.{compare, Ordering}
use permissions_api.Base.{
  ℕ, String, Bool, true, false, not, ◌&&◌, ◌||◌, Option, none, some, List, [], ◌∷◌, ◌++◌, ◌==◌, ◌⊎◌,
  inl, inr, if◌then◌else◌,
}
use permissions_api.Hosts.{ltb}

pub data ClientError : Type 0 where
  no_auth_token invalid_auth_token permission_denied checker_not_found middleware_missing :
      ClientError
  bad_response : ℕ → ClientError
  -- The body cannot be encoded, the request cannot be made, or it fails.
  request_failed : String → ClientError

pub record AccessRequest : Type 0 where
  pub resource_id : String
  pub action : String

abbrev pub Checker : Type 0
Checker = List AccessRequest → Option ClientError

abbrev pub default_allow_checker : Checker
default_allow_checker requests = none

abbrev pub default_deny_checker : Checker
default_deny_checker requests = some permission_denied

abbrev same_number : ℕ → ℕ → Bool
same_number a b = elim (compare a b) [ Ordering.eq ↦ true | _ ↦ false ]

unfoldable pub ensure_valid_server_response : ℕ → Option ClientError
ensure_valid_server_response status =
    if ltb status 207
    then none
    else if same_number status 403
    then some permission_denied
    else some (bad_response status)

abbrev pub after_request : String ⊎ ℕ → Option ClientError
after_request (inl x) = some (request_failed x)
after_request (inr status) = ensure_valid_server_response status

-- `post` is what the request of the checker comes to: an error, or a status.
unfoldable pub checker : (List AccessRequest → String ⊎ ℕ) → Checker
checker post requests = after_request (post requests)

-- The checker that is in a context, if there is one.
unfoldable pub check_all : Option Checker → List AccessRequest → Option ClientError
check_all none requests = some checker_not_found
check_all (some c) requests = c requests

unfoldable pub check_access : Option Checker → String → String → Option ClientError
unfolding check_all
check_access c resource action =
    check_all c (record { resource_id = resource; action = action } ∷ [])

-- The `nil` checker of `setCheckerContext` is `none`.
abbrev set_checker : Option Checker → Checker
set_checker none = default_deny_checker
set_checker (some c) = c

pub record Permissions : Type 0 where
  pub enable_checker : Bool
  pub default_checker : Option Checker
  pub ignore_no_responders : Bool

-- The checkers of `New`, before its options.
unfoldable pub new_permissions : String → Bool → Bool → Permissions
new_permissions url default_allow ignore_no_responders = record {
  enable_checker = not (url == "");
  default_checker =
      some (if url == "" && default_allow then default_allow_checker else default_deny_checker);
  ignore_no_responders = ignore_no_responders;
}

-- What the middleware reads of a request: the actor, and whether its header has a token after the
-- prefix.
pub record Credentials : Type 0 where
  pub actor : String
  pub header_is_long : Bool
  pub has_bearer_prefix : Bool

-- The checker that is set for the next handler, or the error that is returned instead of calling it.
unfoldable pub middleware : Permissions → Checker → Bool → Credentials → ClientError ⊎ Checker
middleware p remote skipped c =
    if not p.enable_checker || skipped
    then inr (set_checker p.default_checker)
    else if c.actor == ""
    then inl no_auth_token
    else if not c.header_is_long
    then inl invalid_auth_token
    else if not c.has_bearer_prefix
    then inl invalid_auth_token
    else inr (set_checker (some remote))

-- What a publisher returns: an error, and a response with an error of its own and those of its
-- message.
pub record Published (E : Type 0) : Type 0 where
  pub error : Option E
  pub response : Option (Option E × List E)

module _ {E : Type 0} where
  abbrev pub listed : Option E → List E
  listed none = []
  listed (some x) = x ∷ []

  abbrev pub errors_of_response : Option (Option E × List E) → List E
  errors_of_response none = []
  errors_of_response (some (x, xs)) = listed x ++ xs

  abbrev pub is_ignored : (E → Bool) → Bool → Option E → Bool
  is_ignored is_no_responders ignore none = false
  is_ignored is_no_responders ignore (some x) = ignore && is_no_responders x

  abbrev pub collected : (E → Bool) → Bool → Published E → List E
  collected is_no_responders ignore r =
      if is_ignored is_no_responders ignore r.error
      then []
      else listed r.error ++ errors_of_response r.response

  -- The errors that are combined; none, if the request is published and answered without an error.
  unfoldable pub submit :
      {R : Type 0} → (R → Option E) → (E → Bool) → Bool → Option (R → Published E) → R → List E
  submit validate is_no_responders ignore publisher request = elim (validate request) [
    | some x ↦ x ∷ []
    | none ↦ elim publisher [ none ↦ [] | some p ↦ collected is_no_responders ignore (p request) ]
  ]
