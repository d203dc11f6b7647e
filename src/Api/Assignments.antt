-- ===== src/Api/Assignments.antt =====
-- The handlers of assignments of v1 roles of internal/api/assignments.go. A body is the identifier
-- of its subject.
use permissions_api.Base.{String, Option, List, map}
use permissions_api.Types.{Resource, Role}
use permissions_api.Iapl.Rbac.{role_action_get, role_action_update}
use permissions_api.Query.Engine.{Engine}
use permissions_api.Query.Monad.{Backend}
use permissions_api.Query.Roles.{empty_role, get_role_resource}
use permissions_api.Query.Relations.{assign_subject_role, unassign_subject_role, list_assignments}
use permissions_api.Api.Http.{
  Response, H, Context, respond, ◌>>=◌, ◌>>◌, engine, bind, parse, always, resource_of,
  current_subject, check_action_with_response,
}
use permissions_api.Api.Roles.{found_status}

abbrev pub role_named : String → Role
role_named role_id = record empty_role { id = role_id }

module _ (b : Backend) (e : Engine) (c : Context) where
  unfoldable pub assignment_create : String → Option String → H b (Response (Unit {0}))
  unfolding current_subject check_action_with_response
  assignment_create role_id_str body = do
    role_id ← parse 404 role_id_str
    subject_id ← bind 400 body
    assignee_id ← parse 400 subject_id
    assignee_resource ← resource_of b e (always 400) assignee_id
    subject_resource ← current_subject b e c
    role_resource ← resource_of b e (always 400) role_id
    resource ← engine found_status (get_role_resource b e role_resource)
    check_action_with_response b e subject_resource role_action_update resource
    engine (always 500) (assign_subject_role b e assignee_resource (role_named role_id))
    respond 201 tt

  -- The body is the identifiers of the subjects.
  unfoldable pub assignments_list : String → H b (Response (List String))
  unfolding current_subject check_action_with_response
  assignments_list role_id_str = do
    role_id ← parse 404 role_id_str
    subject_resource ← current_subject b e c
    role_resource ← resource_of b e (always 400) role_id
    resource ← engine found_status (get_role_resource b e role_resource)
    check_action_with_response b e subject_resource role_action_get resource
    assignments ← engine (always 500) (list_assignments b e (role_named role_id))
    respond 200 (map Resource.id assignments)

  unfoldable pub assignment_delete : String → Option String → H b (Response (Unit {0}))
  unfolding current_subject check_action_with_response
  assignment_delete role_id_str body = do
    role_id ← parse 404 role_id_str
    subject_id ← bind 400 body
    assignee_id ← parse 400 subject_id
    assignee_resource ← resource_of b e (always 400) assignee_id
    subject_resource ← current_subject b e c
    role_resource ← resource_of b e (always 400) role_id
    resource ← engine found_status (get_role_resource b e role_resource)
    check_action_with_response b e subject_resource role_action_update resource
    engine (always 500) (unassign_subject_role b e assignee_resource (role_named role_id))
    respond 200 tt
