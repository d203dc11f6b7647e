-- ===== src/Tests/Handlers.antt =====
-- The handlers of internal/api at small inputs.
use permissions_api.Base.{String, none, some, [], ◌∷◌, map}
use permissions_api.Iapl.Rbac.{
  role_action_create, role_action_get, role_action_list, role_action_update, role_action_delete,
}
use permissions_api.Types
use permissions_api.Query.Engine.{Engine}
use permissions_api.Api.Http.{Context}
use permissions_api.Api.Mediation.{Names, IsMediated}
use permissions_api.Api.Targets.{OwnsRole, OwnsBinding, HoldsBinding}
use permissions_api.Api.RolesV2.{
  CreateRoleRequest, UpdateRoleRequest, role_v2_create, role_v2_update, role_v2_get, role_v2s_list,
  role_v2_delete,
}
use permissions_api.Api.RoleBindings.{
  RoleBindingRequest, RolebindingUpdateRequest, role_binding_create, role_bindings_list,
  role_binding_delete, role_binding_get, role_binding_update,
}
use permissions_api.Api.Roles.{
  role_create, role_update, role_get, roles_list, role_get_resource, role_delete,
}
use permissions_api.Api.Assignments.{assignment_create, assignment_delete}
use permissions_api.Api.MediatedV2.{role_v2-IsMediated}
use permissions_api.Api.MediatedBindings.{role_binding-IsMediated}
use permissions_api.Api.MediatedV1.{role-IsMediated, assignment-IsMediated}
use permissions_api.Tests.World.{calm, engine, tenant_type, at_rest}

abbrev action : String → Types.Action
action name = record { name = name; conditions = []; condition_sets = [] }

-- An engine in which a tenant has the actions on roles and role bindings.
abbrev acting : Engine
acting = record engine {
  schema_type_map =
      (
        "tenant",
        record tenant_type {
          actions = map action (
              role_action_create ∷ role_action_get ∷ role_action_list ∷ role_action_update
              ∷ role_action_delete ∷ "iam_rolebinding_create" ∷ "iam_rolebinding_update"
              ∷ "iam_rolebinding_delete" ∷ "iam_rolebinding_get" ∷ "iam_rolebinding_list" ∷ []);
        },
      )
      ∷ [];
}

abbrev caller : Context
caller = record { actor = "tnntten" }

abbrev new_role : CreateRoleRequest
new_role = record { name = "viewers"; manager = ""; actions = "view" ∷ [] }

abbrev changed_role : UpdateRoleRequest
changed_role = record { name = "readers"; actions = "view" ∷ [] }

abbrev new_binding : RoleBindingRequest
new_binding = record { role_id = "permrv2-a"; subject_ids = "idntusr-a" ∷ []; manager = "" }

abbrev changed_binding : RolebindingUpdateRequest
changed_binding = record { subject_ids = "idntusr-a" ∷ [] }

abbrev as_is : String → String
as_is s = s

role_v2-IsMediated_example :
    let named = Names calm acting caller at_rest "tnntten" in
    IsMediated calm acting caller at_rest named role_action_create
      (role_v2_create calm acting as_is caller "tnntten" (some new_role) at_rest)
    × IsMediated calm acting caller at_rest named role_action_update
        (role_v2_update calm acting as_is caller "tnntten" (some changed_role) at_rest)
    × IsMediated calm acting caller at_rest named role_action_get
        (role_v2_get calm acting as_is caller "tnntten" at_rest)
    × IsMediated calm acting caller at_rest named role_action_list
        (role_v2s_list calm acting as_is caller "tnntten" none at_rest)
    × IsMediated calm acting caller at_rest named role_action_delete
        (role_v2_delete calm acting as_is caller "tnntten" at_rest)
role_v2-IsMediated_example =
    role_v2-IsMediated calm acting caller at_rest as_is "tnntten" (some new_role)
      (some changed_role) none

role_binding-IsMediated_example :
    IsMediated calm acting caller at_rest
      (Names calm acting caller at_rest "tnntten")
      "iam_rolebinding_create"
      (role_binding_create calm acting caller "tnntten" (some new_binding) at_rest)
    × IsMediated calm acting caller at_rest
        (Names calm acting caller at_rest "tnntten")
        "iam_rolebinding_list"
        (role_bindings_list calm acting caller "tnntten" none at_rest)
    × IsMediated calm acting caller at_rest
        (OwnsBinding calm acting caller at_rest "tnntten")
        "iam_rolebinding_delete"
        (role_binding_delete calm acting caller "tnntten" at_rest)
    × IsMediated calm acting caller at_rest
        (HoldsBinding calm acting caller at_rest "tnntten")
        "iam_rolebinding_get"
        (role_binding_get calm acting caller "tnntten" at_rest)
    × IsMediated calm acting caller at_rest
        (OwnsBinding calm acting caller at_rest "tnntten")
        "iam_rolebinding_update"
        (role_binding_update calm acting caller "tnntten" (some changed_binding) at_rest)
role_binding-IsMediated_example =
    role_binding-IsMediated calm acting caller at_rest "tnntten" (some new_binding)
      (some changed_binding) none

role-IsMediated_example :
    IsMediated calm acting caller at_rest
      (Names calm acting caller at_rest "tnntten")
      role_action_create
      (role_create calm acting as_is caller "tnntten" (some new_role) at_rest)
    × IsMediated calm acting caller at_rest
        (Names calm acting caller at_rest "tnntten")
        role_action_list
        (roles_list calm acting as_is caller "tnntten" none at_rest)
    × IsMediated calm acting caller at_rest
        (OwnsRole calm acting caller at_rest "tnntten")
        role_action_update
        (role_update calm acting as_is caller "tnntten" (some changed_role) at_rest)
    × IsMediated calm acting caller at_rest
        (OwnsRole calm acting caller at_rest "tnntten")
        role_action_get
        (role_get calm acting as_is caller "tnntten" at_rest)
    × IsMediated calm acting caller at_rest
        (OwnsRole calm acting caller at_rest "tnntten")
        role_action_delete
        (role_delete calm acting as_is caller "tnntten" at_rest)
    × IsMediated calm acting caller at_rest
        (OwnsRole calm acting caller at_rest "tnntten")
        role_action_get
        (role_get_resource calm acting as_is caller "tnntten" at_rest)
role-IsMediated_example =
    role-IsMediated calm acting caller at_rest as_is "tnntten" (some new_role) (some changed_role)
      none

assignment-IsMediated_example :
    let owner = OwnsRole calm acting caller at_rest "tnntten" in
    IsMediated calm acting caller at_rest owner role_action_update
      (assignment_create calm acting caller "tnntten" (some "tnntten") at_rest)
    × IsMediated calm acting caller at_rest owner role_action_update
        (assignment_delete calm acting caller "tnntten" (some "tnntten") at_rest)
assignment-IsMediated_example =
    assignment-IsMediated calm acting caller at_rest "tnntten" (some "tnntten")
