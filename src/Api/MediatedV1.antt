-- ===== src/Api/MediatedV1.antt =====
-- The handlers of internal/api/roles.go, and those of internal/api/assignments.go that assign a role
-- and take it away, serve a request only if its actor has the permission.
use permissions_api.Base.{String, refl, Option, none, some, List, map}
use permissions_api.Types.{Resource, Role}
use permissions_api.Iapl.Rbac.{
  role_action_create, role_action_get, role_action_list, role_action_update, role_action_delete,
}
use permissions_api.Query.Engine.{Engine}
use permissions_api.Query.Monad.{Backend, State}
use permissions_api.Query.Roles.{create_role, update_role, get_role, delete_role}
use permissions_api.Query.Relations.{assign_subject_role, unassign_subject_role}
use permissions_api.Query.Listings.{list_roles, list_manager_roles}
use permissions_api.Api.Http.{
  Response, H, Context, respond, engine, bind, parse, always, ◌>>=◌, ◌>>◌, resource_of,
}
use permissions_api.Api.Mediation.{Names, IsMediated, after_parse, after_bind, after_resource}
use permissions_api.Api.Targets.{
  OwnsRole, on_resource, on_resource-IsMediated, on_role_owner, on_role_owner-IsMediated,
  on_role_and_owner, on_role_and_owner-IsMediated,
}
use permissions_api.Api.RolesV2.{CreateRoleRequest, UpdateRoleRequest}
use permissions_api.Api.Roles.{
  role_create, role_update, role_get, roles_list, role_delete, role_get_resource, create_status,
  update_status, found_status, without_resource,
}
use permissions_api.Api.Assignments.{role_named, assignment_create, assignment_delete}

module _ (b : Backend) (e : Engine) (c : Context) (s : State b) where
  -- Each of the handlers of v1 roles turns its request away, having changed nothing, or its actor
  -- had the permission for the action before it did anything: to create or list roles, on the
  -- resource that the request names, and to update, get or delete a role or to get its resource, on
  -- the resource that the database gives for the role that the request names.
  pub role-IsMediated :
      (trim : String → String) (id : String) (create : Option CreateRoleRequest)
      (update : Option UpdateRoleRequest) (manager : Option String)
      → IsMediated b e c s
          (Names b e c s id)
          role_action_create
          (role_create b e trim c id create s)
        × IsMediated b e c s
            (Names b e c s id)
            role_action_list
            (roles_list b e trim c id manager s)
        × IsMediated b e c s
            (OwnsRole b e c s id)
            role_action_update
            (role_update b e trim c id update s)
        × IsMediated b e c s (OwnsRole b e c s id) role_action_get (role_get b e trim c id s)
        × IsMediated b e c s (OwnsRole b e c s id) role_action_delete (role_delete b e trim c id s)
        × IsMediated b e c s
            (OwnsRole b e c s id)
            role_action_get
            (role_get_resource b e trim c id s)
  unfolding role_create roles_list role_update role_get role_delete role_get_resource
  role-IsMediated trim id create update manager =
      let named = Names b e c s id in
      let owner = OwnsRole b e c s id in
      let created : CreateRoleRequest → Resource → Resource → H b (Response Role) =
        λ req subject res.
          engine create_status (
            create_role b e subject res (CreateRoleRequest.manager req)
              (trim (CreateRoleRequest.name req)) (CreateRoleRequest.actions req))
          >>= respond 201 in
      let listed : Resource → Resource → H b (Response (List Role)) = λ subject res.
        engine (always 500)
          (elim manager [ none ↦ list_roles b e res | some m ↦ list_manager_roles b e m res ])
        >>= λ roles. respond 200 (map without_resource roles) in
      let updated : UpdateRoleRequest → Resource → Resource → H b (Response Role) =
        λ req subject role.
          engine update_status (
            update_role b e subject role (trim (UpdateRoleRequest.name req))
              (UpdateRoleRequest.actions req))
          >>= respond 200 in
      let got : Resource → Resource → H b (Response Role) =
        λ subject role. engine found_status (get_role b e role) >>= respond 200 in
      let deleted : Resource → Resource → H b (Response (Unit {0})) =
        λ subject role. engine found_status (delete_role b e role) >> respond 200 tt in
      let located : Resource → Resource → Resource → H b (Response String) =
        λ subject role res. respond 200 res.id in
      (
        after_parse b e c s named role_action_create 400 id
            (λ p. bind 400 create >>= λ req.
              on_resource b e c s (always 400) role_action_create (created req) p)
            s refl
            (λ p hp.
              after_bind b e c s named role_action_create 400 create
                (λ req. on_resource b e c s (always 400) role_action_create (created req) p) s refl
                (λ req.
                  on_resource-IsMediated b e c s (always 400) role_action_create (created req) id p
                    hp)),
        after_parse b e c s named role_action_list 400 id
            (on_resource b e c s (always 400) role_action_list listed) s refl
            (on_resource-IsMediated b e c s (always 400) role_action_list listed id),
        after_parse b e c s owner role_action_update 400 id
            (λ p.
              bind 400 update >>= λ req. on_role_owner b e c s role_action_update (updated req) p)
            s refl
            (λ p hp.
              after_bind b e c s owner role_action_update 400 update
                (λ req. on_role_owner b e c s role_action_update (updated req) p) s refl
                (λ req. on_role_owner-IsMediated b e c s role_action_update (updated req) id p hp)),
        after_parse b e c s owner role_action_get 400 id (on_role_owner b e c s role_action_get got)
            s refl (on_role_owner-IsMediated b e c s role_action_get got id),
        after_parse b e c s owner role_action_delete 400 id
            (on_role_owner b e c s role_action_delete deleted) s refl
            (on_role_owner-IsMediated b e c s role_action_delete deleted id),
        after_parse b e c s owner role_action_get 400 id
            (on_role_and_owner b e c s role_action_get located) s refl
            (on_role_and_owner-IsMediated b e c s role_action_get located id),
      )

  module _ (id : String) (body : Option String) (status : String → Resource → H b (Unit {0}))
      (ok_status : String → H b (Response (Unit {0}))) where
    -- A handler that names a role and a subject, then checks that the role may be updated.
    abbrev on_assignment : H b (Response (Unit {0}))
    on_assignment = parse 404 id >>= λ p. bind 400 body >>= λ subject_id.
        parse 400 subject_id >>= λ assignee_id.
        resource_of b e (always 400) assignee_id >>= λ assignee.
        on_role_owner b e c s role_action_update (λ _ _. status p assignee >> ok_status p) p

    on_assignment-IsMediated :
        IsMediated b e c s (OwnsRole b e c s id) role_action_update (on_assignment s)
    on_assignment-IsMediated =
        let owner = OwnsRole b e c s id in
        let last : String → Resource → H b (Response (Unit {0})) = λ p assignee.
          on_role_owner b e c s role_action_update (λ _ _. status p assignee >> ok_status p) p in
        let found : String → String → H b (Response (Unit {0})) =
          λ p assignee_id. resource_of b e (always 400) assignee_id >>= last p in
        let parsed : String → String → H b (Response (Unit {0})) =
          λ p subject_id. parse 400 subject_id >>= found p in
        after_parse b e c s owner role_action_update 404 id (λ p. bind 400 body >>= parsed p) s refl
          (λ p hp.
            after_bind b e c s owner role_action_update 400 body (parsed p) s refl (λ subject_id.
              after_parse b e c s owner role_action_update 400 subject_id (found p) s refl
                (λ assignee_id _.
                  after_resource b e c s owner role_action_update (always 400) assignee_id (last p)
                    s refl
                    (λ assignee _.
                      on_role_owner-IsMediated b e c s role_action_update
                        (λ _ _. status p assignee >> ok_status p) id p hp))))

  -- The handlers that assign a role to a subject and take it away turn their request away, having
  -- changed nothing, or the actor had the permission to update roles of the resource that the
  -- database gives for the role before they did anything.
  pub assignment-IsMediated :
      (id : String) (body : Option String)
      → let owner = OwnsRole b e c s id in
        IsMediated b e c s owner role_action_update (assignment_create b e c id body s)
        × IsMediated b e c s owner role_action_update (assignment_delete b e c id body s)
  unfolding assignment_create assignment_delete
  assignment-IsMediated id body = (
    on_assignment-IsMediated id body
        (λ p assignee. engine (always 500) (assign_subject_role b e assignee (role_named p)))
        (λ _. respond 201 tt),
    on_assignment-IsMediated id body
        (λ p assignee. engine (always 500) (unassign_subject_role b e assignee (role_named p)))
        (λ _. respond 200 tt),
  )
