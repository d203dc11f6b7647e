-- ===== src/Api/RolesV2.antt =====
-- The handlers of v2 roles of internal/api/roles_v2.go. `trim_space` is the standard library's.
use permissions_api.Base.{String, Option, none, some, List}
use permissions_api.Types.{Role}
use permissions_api.Iapl.Rbac.{
  role_action_create, role_action_get, role_action_list, role_action_update, role_action_delete,
}
use permissions_api.Query.Engine.{Engine}
use permissions_api.Query.Monad.{Backend}
use permissions_api.Query.RolesV2.{
  create_role_v2, update_role_v2, get_role_v2, list_roles_v2, list_manager_roles_v2, delete_role_v2,
  all_actions,
}
use permissions_api.Api.Http.{
  Response, H, Context, respond, ◌>>=◌, ◌>>◌, engine, bind, parse, error_response, resource_of,
  current_subject, check_action_with_response,
}

pub record CreateRoleRequest : Type 0 where
  pub name : String
  pub manager : String
  pub actions : List String

pub record UpdateRoleRequest : Type 0 where
  pub name : String
  pub actions : List String

module _ (b : Backend) (e : Engine) (trim_space : String → String) (c : Context) where
  unfoldable pub role_v2_create : String → Option CreateRoleRequest → H b (Response Role)
  unfolding current_subject check_action_with_response
  role_v2_create id body = do
    resource_id ← parse 400 id
    req_body ← bind 500 body
    subject_resource ← current_subject b e c
    resource ← resource_of b e error_response resource_id
    check_action_with_response b e subject_resource role_action_create resource
    role ← engine error_response (
        create_role_v2 b e subject_resource resource req_body.manager (trim_space req_body.name)
          req_body.actions)
    respond 201 role

  unfoldable pub role_v2_update : String → Option UpdateRoleRequest → H b (Response Role)
  unfolding current_subject check_action_with_response
  role_v2_update role_id_str body = do
    role_id ← parse 400 role_id_str
    req_body ← bind 500 body
    subject_resource ← current_subject b e c
    role_resource ← resource_of b e error_response role_id
    check_action_with_response b e subject_resource role_action_update role_resource
    role ← engine error_response (
        update_role_v2 b e subject_resource role_resource (trim_space req_body.name)
          req_body.actions)
    respond 200 role

  unfoldable pub role_v2_get : String → H b (Response Role)
  unfolding current_subject check_action_with_response
  role_v2_get role_id_str = do
    role_id ← parse 400 role_id_str
    subject_resource ← current_subject b e c
    role_resource ← resource_of b e error_response role_id
    check_action_with_response b e subject_resource role_action_get role_resource
    role ← engine error_response (get_role_v2 b e role_resource)
    respond 200 role

  -- The manager is that of the query, `none` if it has none.
  unfoldable pub role_v2s_list : String → Option String → H b (Response (List Role))
  unfolding current_subject check_action_with_response
  role_v2s_list id manager = do
    resource_id ← parse 400 id
    subject_resource ← current_subject b e c
    resource ← resource_of b e error_response resource_id
    check_action_with_response b e subject_resource role_action_list resource
    roles ← engine error_response (elim manager [
      | none ↦ list_roles_v2 b e resource
      | some m ↦ list_manager_roles_v2 b e m resource
    ])
    respond 200 roles

  -- The body is whether it was a success.
  unfoldable pub role_v2_delete : String → H b (Response (Unit {0}))
  unfolding current_subject check_action_with_response
  role_v2_delete id = do
    role_id ← parse 400 id
    subject_resource ← current_subject b e c
    role_resource ← resource_of b e error_response role_id
    check_action_with_response b e subject_resource role_action_delete role_resource
    engine error_response (delete_role_v2 b e role_resource)
    respond 200 tt

  unfoldable pub list_actions : H b (Response (List String))
  unfolding all_actions
  list_actions = respond 200 (all_actions e)
