-- ===== src/Api/MediatedV2.antt =====
-- The handlers of internal/api/roles_v2.go that create, update, get, list and delete v2 roles serve a
-- request only if its actor has the permission. The list of all actions is served to everybody.
use permissions_api.Base.{String, refl, Option, none, some, List}
use permissions_api.Types.{Resource, Role}
use permissions_api.Iapl.Rbac.{
  role_action_create, role_action_get, role_action_list, role_action_update, role_action_delete,
}
use permissions_api.Query.Engine.{Engine}
use permissions_api.Query.Monad.{Backend, State}
use permissions_api.Query.RolesV2.{
  create_role_v2, update_role_v2, get_role_v2, list_roles_v2, list_manager_roles_v2, delete_role_v2,
}
use permissions_api.Api.Http.{
  Response, H, Context, respond, engine, bind, error_response, ◌>>=◌, ◌>>◌,
}
use permissions_api.Api.Mediation.{Names, IsMediated, after_parse, after_bind}
use permissions_api.Api.Targets.{on_resource, on_resource-IsMediated}
use permissions_api.Api.RolesV2.{
  CreateRoleRequest, UpdateRoleRequest, role_v2_create, role_v2_update, role_v2_get, role_v2s_list,
  role_v2_delete,
}

module _ (b : Backend) (e : Engine) (c : Context) (s : State b) where
  module _ (trim : String → String) where
    -- Each of the handlers of v2 roles turns its request away, having changed nothing, or its actor
    -- had the permission for the action on the resource that the request names before it did
    -- anything: to create, update, get, list or delete roles.
    pub role_v2-IsMediated :
        (id : String) (create : Option CreateRoleRequest) (update : Option UpdateRoleRequest)
        (manager : Option String)
        → let named = Names b e c s id in
          IsMediated b e c s named role_action_create (role_v2_create b e trim c id create s)
          × IsMediated b e c s named role_action_update (role_v2_update b e trim c id update s)
          × IsMediated b e c s named role_action_get (role_v2_get b e trim c id s)
          × IsMediated b e c s named role_action_list (role_v2s_list b e trim c id manager s)
          × IsMediated b e c s named role_action_delete (role_v2_delete b e trim c id s)
    unfolding role_v2_create role_v2_update role_v2_get role_v2s_list role_v2_delete
    role_v2-IsMediated id create update manager =
        let named = Names b e c s id in
        let created : CreateRoleRequest → Resource → Resource → H b (Response Role) =
          λ req subject res.
            engine error_response (
              create_role_v2 b e subject res (CreateRoleRequest.manager req)
                (trim (CreateRoleRequest.name req)) (CreateRoleRequest.actions req))
            >>= respond 201 in
        let updated : UpdateRoleRequest → Resource → Resource → H b (Response Role) =
          λ req subject role.
            engine error_response (
              update_role_v2 b e subject role (trim (UpdateRoleRequest.name req))
                (UpdateRoleRequest.actions req))
            >>= respond 200 in
        let got : Resource → Resource → H b (Response Role) =
          λ subject role. engine error_response (get_role_v2 b e role) >>= respond 200 in
        let listed : Resource → Resource → H b (Response (List Role)) = λ subject res.
          engine error_response (elim manager [
            | none ↦ list_roles_v2 b e res
            | some m ↦ list_manager_roles_v2 b e m res
          ])
          >>= respond 200 in
        let deleted : Resource → Resource → H b (Response (Unit {0})) =
          λ subject role. engine error_response (delete_role_v2 b e role) >> respond 200 tt in
        (
          after_parse b e c s named role_action_create 400 id
              (λ p. bind 500 create >>= λ req.
                on_resource b e c s error_response role_action_create (created req) p)
              s refl
              (λ p hp.
                after_bind b e c s named role_action_create 500 create
                  (λ req. on_resource b e c s error_response role_action_create (created req) p) s
                  refl
                  (λ req.
                    on_resource-IsMediated b e c s error_response role_action_create (created req)
                      id p hp)),
          after_parse b e c s named role_action_update 400 id
              (λ p. bind 500 update >>= λ req.
                on_resource b e c s error_response role_action_update (updated req) p)
              s refl
              (λ p hp.
                after_bind b e c s named role_action_update 500 update
                  (λ req. on_resource b e c s error_response role_action_update (updated req) p) s
                  refl
                  (λ req.
                    on_resource-IsMediated b e c s error_response role_action_update (updated req)
                      id p hp)),
          after_parse b e c s named role_action_get 400 id
              (on_resource b e c s error_response role_action_get got) s refl
              (on_resource-IsMediated b e c s error_response role_action_get got id),
          after_parse b e c s named role_action_list 400 id
              (on_resource b e c s error_response role_action_list listed) s refl
              (on_resource-IsMediated b e c s error_response role_action_list listed id),
          after_parse b e c s named role_action_delete 400 id
              (on_resource b e c s error_response role_action_delete deleted) s refl
              (on_resource-IsMediated b e c s error_response role_action_delete deleted id),
        )
