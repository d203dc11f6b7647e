-- ===== src/Api/Http.antt =====
-- What the handlers of internal/api share: their answers, the statuses of errors
-- (internal/api/response.go), the subject of a request (internal/api/router.go) and the check of its
-- permission (internal/api/permissions.go). The web framework gives the parameters of a request,
-- the identifier that its token names, and its body, `none` if it cannot be parsed.
use permissions_api.Base.{ℕ, String, Option, none, some}
use permissions_api.Types.{Resource}
use permissions_api.Query.Messages.{
  Error, Outcome, ok, err, panic, Reply, answer, failure, invalid_type, invalid_action,
  invalid_namespace, delete_role_in_use, invalid_role_binding_subject_type, rejected, no_role_found,
  role_not_found, role_binding_not_found, role_already_exists, role_name_taken, action_not_assigned,
}
use permissions_api.Query.Engine.{Engine, new_resource_from_id}
use permissions_api.Query.Monad.{Backend, State, M}
use permissions_api.Query.Relations.{subject_has_permission}

-- What a handler goes on with, or the status of the error that it answers, or a panic.
pub data Http (A : Type 0) : Type 0 where
  done : A → Http A
  refused : ℕ → Http A
  crashed : Http A

-- An answer: its status and its body.
abbrev pub Response : Type 0 → Type 0
Response A = ℕ × A

abbrev pub H : Backend → Type 0 → Type 0
H b A = State b → Http A × State b

-- What the framework gives for each request: the identifier of the actor.
pub record Context : Type 0 where
  pub actor : String

abbrev pub answered : {A : Type 0} → (Error → ℕ) → Outcome A → Http A
answered status (ok a) = done a
answered status (err x) = refused (status x)
answered status panic = crashed

abbrev pub parsed_or : ℕ → Reply String → Http String
parsed_or status (answer id) = done id
parsed_or status (failure _) = refused status

module _ {b : Backend} where
  abbrev pub respond : {A : Type 0} → ℕ → A → H b (Response A)
  respond status body s = (done (status, body), s)

  abbrev pub bound : {A B : Type 0} → (A → H b B) → Http A × State b → Http B × State b
  bound f (r, s) = elim r [ done a ↦ f a s | refused n ↦ (refused n, s) | crashed ↦ (crashed, s) ]

  infixl 5 ◌>>=◌ ◌>>◌
  abbrev pub ◌>>=◌ : {A B : Type 0} → H b A → (A → H b B) → H b B
  ◌>>=◌ m f s = bound f (m s)

  abbrev pub ◌>>◌ : {A B : Type 0} → H b A → H b B → H b B
  m >> k = m >>= λ _. k

  -- A call of the engine, with the status that the handler gives each error.
  abbrev pub engine : {A : Type 0} → (Error → ℕ) → M b A → H b A
  engine status m s = let (r, s') = m s in (answered status r, s')

  -- The body of a request.
  abbrev pub bind : {A : Type 0} → ℕ → Option A → H b A
  bind status none s = (refused status, s)
  bind status (some body) s = (done body, s)

  -- `gidx.Parse`, with the status of its error.
  abbrev pub parse : ℕ → String → H b String
  parse status id s = (parsed_or status (b.parse_id id), s)

abbrev pub always : ℕ → Error → ℕ
always n x = n

-- The status of an error of v2 operations; ErrInvalidID, where an identifier cannot be parsed, has
-- status 400, and ErrParsingRequestBody 500.
unfoldable pub error_response : Error → ℕ
error_response invalid_type = 400
error_response invalid_action = 400
error_response invalid_namespace = 400
error_response delete_role_in_use = 400
error_response invalid_role_binding_subject_type = 400
error_response rejected = 400
error_response no_role_found = 404
error_response role_not_found = 404
error_response role_binding_not_found = 404
error_response role_already_exists = 409
error_response role_name_taken = 409
error_response x = 500

abbrev pub permission_status : Error → ℕ
permission_status action_not_assigned = 403
permission_status invalid_action = 400
permission_status x = 500

module _ (b : Backend) (e : Engine) where
  -- The resource of a parsed identifier.
  abbrev pub resource_of : (Error → ℕ) → String → H b Resource
  resource_of status id s = (answered status (new_resource_from_id b.prefix e id), s)

  unfoldable pub current_subject : Context → H b Resource
  current_subject c = do subject ← parse 400 c.actor; resource_of (always 400) subject

  unfoldable pub check_action_with_response : Resource → String → Resource → H b (Unit {0})
  check_action_with_response subject_resource action resource =
      engine permission_status (subject_has_permission b e subject_resource action resource)
