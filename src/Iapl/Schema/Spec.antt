-- ===== src/Iapl/Schema/Spec.antt =====
-- What the loops of `Schema` of internal/iapl/policy.go add to each resource type, read off the policy
-- without the maps that the code builds. What it should give is in Called.
use permissions_api.Base.{
  String, Bool, not, ◌&&◌, Option, none, some, List, [], ◌∷◌, ◌++◌, map, any, ◌==◌, when,
}
use permissions_api.Types
use permissions_api.Iapl.Document.{ResourceRoleBindingV2, ResourceType, Condition, ActionBinding}
use permissions_api.Iapl.Rbac.{create_role_binding_actions_for_resource}
use permissions_api.Iapl.Policy.{Policy}
use permissions_api.Iapl.Schema.{
  out_relationship, role_binding_relationship, role_binding_v2_of, out_action,
}

-- One relation for each v1 role-binding condition.
unfoldable pub condition_relationships :
    String → List Condition → List Types.ResourceTypeRelationship
condition_relationships action [] = []
condition_relationships action (c ∷ cs) =
    when c.role_binding (role_binding_relationship action ∷ []) ++ condition_relationships action cs

-- The relations that the bindings of the type `n` add to it.
unfoldable pub relationships_for : String → List ActionBinding → List Types.ResourceTypeRelationship
relationships_for n [] = []
relationships_for n (b ∷ bn) =
    when (b.type_name == n) (condition_relationships b.action_name b.conditions)
    ++ relationships_for n bn

-- One action for each binding of the type `n`, in the order of the bindings.
unfoldable pub actions_for :
    Option ResourceRoleBindingV2 → String → List ActionBinding → List Types.Action
actions_for rbv2 n [] = []
actions_for rbv2 n (b ∷ bn) =
    when (b.type_name == n) (out_action b rbv2 ∷ []) ++ actions_for rbv2 n bn

-- A condition of the second kind that is not of the first.
abbrev pub is_v2 : Condition → Bool
is_v2 c = not c.role_binding && c.role_binding_v2

-- The type `n` has a binding with a v2 role-binding condition.
unfoldable pub uses_role_bindings : String → List ActionBinding → Bool
uses_role_bindings n bn = any (λ b. b.type_name == n && any is_v2 b.conditions) bn

-- The actions on role bindings, once, for a type that uses them.
unfoldable pub role_binding_actions_for :
    Option ResourceRoleBindingV2 → String → List ActionBinding → List Types.Action
role_binding_actions_for none n bn = []
role_binding_actions_for (some r) n bn =
    when (uses_role_bindings n bn)
      (create_role_binding_actions_for_resource r.inherit_permissions_from)

unfoldable pub grown_type : Policy → String → ResourceType → Types.ResourceType
grown_type v n rt =
    let rbv2 = role_binding_v2_of v n in
    record {
      name = rt.name;
      id_prefix = rt.id_prefix;
      relationships = map out_relationship rt.relationships ++ relationships_for n v.bn;
      actions = actions_for rbv2 n v.bn ++ role_binding_actions_for rbv2 n v.bn;
    }
