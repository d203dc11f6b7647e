-- ===== src/Api/MediatedBindings.antt =====
-- The handlers of internal/api/rolebindings.go serve a request only if its actor has the permission.
use permissions_api.Base.{String, refl, Option, none, some, List}
use permissions_api.Types.{Resource, RoleBinding}
use permissions_api.Query.Engine.{Engine}
use permissions_api.Query.Monad.{Backend, State}
use permissions_api.Query.RoleBindings.{
  create_role_binding, update_role_binding, delete_role_binding,
}
use permissions_api.Query.BindingLists.{list_role_bindings, list_manager_role_bindings}
use permissions_api.Api.Http.{
  Response, H, Context, respond, engine, bind, parse, error_response, ◌>>=◌, ◌>>◌, resource_of,
}
use permissions_api.Api.Mediation.{Names, IsMediated, after_parse, after_bind}
use permissions_api.Api.Targets.{
  OwnsBinding, HoldsBinding, on_named, on_named-IsMediated, on_binding_owner,
  on_binding_owner-IsMediated, on_held, on_held-IsMediated,
}
use permissions_api.Api.RoleBindings.{
  RoleBindingRequest, RolebindingUpdateRequest, subjects_of_ids, role_binding_create,
  role_bindings_list, role_binding_delete, role_binding_get, role_binding_update,
}

module _ (b : Backend) (e : Engine) (c : Context) (s : State b) where
  -- Each of the handlers of role bindings turns its request away, having changed nothing, or its
  -- actor had the permission for the action before it did anything: to create or list bindings, on
  -- the resource that the request names, and to delete, get or update a binding, on the resource
  -- that the database gives for the binding that the request names.
  pub role_binding-IsMediated :
      (id : String) (create : Option RoleBindingRequest) (update : Option RolebindingUpdateRequest)
      (manager : Option String)
      → IsMediated b e c s
          (Names b e c s id)
          "iam_rolebinding_create"
          (role_binding_create b e c id create s)
        × IsMediated b e c s
            (Names b e c s id)
            "iam_rolebinding_list"
            (role_bindings_list b e c id manager s)
        × IsMediated b e c s
            (OwnsBinding b e c s id)
            "iam_rolebinding_delete"
            (role_binding_delete b e c id s)
        × IsMediated b e c s
            (HoldsBinding b e c s id)
            "iam_rolebinding_get"
            (role_binding_get b e c id s)
        × IsMediated b e c s
            (OwnsBinding b e c s id)
            "iam_rolebinding_update"
            (role_binding_update b e c id update s)
  unfolding role_binding_create role_bindings_list role_binding_delete role_binding_get
      role_binding_update
  role_binding-IsMediated id create update manager =
      let named = Names b e c s id in
      let owner = OwnsBinding b e c s id in
      let created : RoleBindingRequest → Resource → Resource → H b (Response RoleBinding) =
        λ req actor res. parse 400 (RoleBindingRequest.role_id req) >>= λ role_id.
        resource_of b e error_response role_id >>= λ role.
        subjects_of_ids b e c (RoleBindingRequest.subject_ids req) >>= λ subjects.
        engine error_response
          (create_role_binding b e actor res role (RoleBindingRequest.manager req) subjects)
        >>= respond 201 in
      let listed : Resource → Resource → H b (Response (List RoleBinding)) = λ subject res.
        engine error_response (elim manager [
          | none ↦ list_role_bindings b e res none
          | some m ↦ list_manager_role_bindings b e m res none
        ])
        >>= respond 200 in
      let deleted : Resource → Resource → H b (Response (Unit {0})) =
        λ actor rb. engine error_response (delete_role_binding b e rb) >> respond 200 tt in
      let updated : Resource → Resource → H b (Response RoleBinding) = λ actor rb.
        bind 500 update >>= λ body.
        subjects_of_ids b e c (RolebindingUpdateRequest.subject_ids body) >>= λ subjects.
        engine error_response (update_role_binding b e actor rb subjects) >>= respond 200 in
      (
        after_parse b e c s named "iam_rolebinding_create" 400 id
            (λ p.
              bind 500 create >>= λ req. on_named b e c s "iam_rolebinding_create" (created req) p)
            s refl
            (λ p hp.
              after_bind b e c s named "iam_rolebinding_create" 500 create
                (λ req. on_named b e c s "iam_rolebinding_create" (created req) p) s refl
                (λ req.
                  on_named-IsMediated b e c s "iam_rolebinding_create" (created req) id p hp)),
        after_parse b e c s named "iam_rolebinding_list" 400 id
            (on_named b e c s "iam_rolebinding_list" listed) s refl
            (on_named-IsMediated b e c s "iam_rolebinding_list" listed id),
        after_parse b e c s owner "iam_rolebinding_delete" 400 id
            (on_binding_owner b e c s "iam_rolebinding_delete" deleted) s refl
            (on_binding_owner-IsMediated b e c s "iam_rolebinding_delete" deleted id),
        after_parse b e c s (HoldsBinding b e c s id) "iam_rolebinding_get" 400 id
            (on_held b e c s "iam_rolebinding_get" (respond 200)) s refl
            (on_held-IsMediated b e c s "iam_rolebinding_get" (respond 200) id),
        after_parse b e c s owner "iam_rolebinding_update" 400 id
            (on_binding_owner b e c s "iam_rolebinding_update" updated) s refl
            (on_binding_owner-IsMediated b e c s "iam_rolebinding_update" updated id),
      )
