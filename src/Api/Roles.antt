-- ===== src/Api/Roles.antt =====
-- The handlers of v1 roles of internal/api/roles.go. `trim_space` is the standard library's.
use permissions_api.Base.{ℕ, String, Option, none, some, List, map}
use permissions_api.Types.{Role}
use permissions_api.Iapl.Rbac.{
  role_action_create, role_action_get, role_action_list, role_action_update, role_action_delete,
}
use permissions_api.Query.Messages.{
  Error, invalid_action, role_not_found, role_already_exists, role_name_taken,
}
use permissions_api.Query.Engine.{Engine}
use permissions_api.Query.Monad.{Backend}
use permissions_api.Query.Roles.{create_role, update_role, get_role, delete_role, get_role_resource}
use permissions_api.Query.Listings.{list_roles, list_manager_roles}
use permissions_api.Api.Http.{
  Response, H, Context, respond, ◌>>=◌, ◌>>◌, engine, bind, parse, always, resource_of,
  current_subject, check_action_with_response,
}
use permissions_api.Api.RolesV2.{CreateRoleRequest, UpdateRoleRequest}

-- The statuses of the errors of an operation: those of creation, of update, and of the others.
abbrev pub create_status : Error → ℕ
create_status invalid_action = 400
create_status role_already_exists = 409
create_status role_name_taken = 409
create_status x = 500

abbrev pub update_status : Error → ℕ
update_status invalid_action = 400
update_status role_name_taken = 409
update_status x = 500

abbrev pub found_status : Error → ℕ
found_status role_not_found = 404
found_status x = 500

-- The list does not give the resources of its roles.
abbrev pub without_resource : Role → Role
without_resource role = record role { resource_id = "" }

module _ (b : Backend) (e : Engine) (trim_space : String → String) (c : Context) where
  unfoldable pub role_create : String → Option CreateRoleRequest → H b (Response Role)
  unfolding current_subject check_action_with_response
  role_create id body = do
    resource_id ← parse 400 id
    req_body ← bind 400 body
    subject_resource ← current_subject b e c
    resource ← resource_of b e (always 400) resource_id
    check_action_with_response b e subject_resource role_action_create resource
    role ← engine create_status (
        create_role b e subject_resource resource req_body.manager (trim_space req_body.name)
          req_body.actions)
    respond 201 role

  unfoldable pub role_update : String → Option UpdateRoleRequest → H b (Response Role)
  unfolding current_subject check_action_with_response
  role_update role_id_str body = do
    role_id ← parse 400 role_id_str
    req_body ← bind 400 body
    subject_resource ← current_subject b e c
    role_resource ← resource_of b e (always 400) role_id
    resource ← engine found_status (get_role_resource b e role_resource)
    check_action_with_response b e subject_resource role_action_update resource
    role ←
        engine update_status (
          update_role b e subject_resource role_resource (trim_space req_body.name)
            req_body.actions)
    respond 200 role

  unfoldable pub role_get : String → H b (Response Role)
  unfolding current_subject check_action_with_response
  role_get role_id_str = do
    role_id ← parse 400 role_id_str
    subject_resource ← current_subject b e c
    role_resource ← resource_of b e (always 400) role_id
    resource ← engine found_status (get_role_resource b e role_resource)
    check_action_with_response b e subject_resource role_action_get resource
    role ← engine found_status (get_role b e role_resource)
    respond 200 role

  -- The manager is that of the query, `none` if it has none.
  unfoldable pub roles_list : String → Option String → H b (Response (List Role))
  unfolding current_subject check_action_with_response
  roles_list id manager = do
    resource_id ← parse 400 id
    subject_resource ← current_subject b e c
    resource ← resource_of b e (always 400) resource_id
    check_action_with_response b e subject_resource role_action_list resource
    roles ← engine (always 500) (elim manager [
      | none ↦ list_roles b e resource
      | some m ↦ list_manager_roles b e m resource
    ])
    respond 200 (map without_resource roles)

  unfoldable pub role_delete : String → H b (Response (Unit {0}))
  unfolding current_subject check_action_with_response
  role_delete id = do
    role_id ← parse 400 id
    subject_resource ← current_subject b e c
    role_resource ← resource_of b e (always 400) role_id
    resource ← engine found_status (get_role_resource b e role_resource)
    check_action_with_response b e subject_resource role_action_delete resource
    engine found_status (delete_role b e role_resource)
    respond 200 tt

  -- The body is the identifier of the resource.
  unfoldable pub role_get_resource : String → H b (Response String)
  unfolding current_subject check_action_with_response
  role_get_resource role_id_str = do
    role_id ← parse 400 role_id_str
    subject_resource ← current_subject b e c
    role_resource ← resource_of b e (always 400) role_id
    resource ← engine found_status (get_role_resource b e role_resource)
    check_action_with_response b e subject_resource role_action_get resource
    respond 200 resource.id
