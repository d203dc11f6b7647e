-- ===== src/Iapl/Policy.antt =====
-- The policy of internal/iapl/policy.go: its maps, and how `NewPolicy` builds and expands them.
-- A loop over a map visits its entries in the order of the runtime `g`.
use Prim.Native.String
use mathlib.Core.Option
use permissions_api.Base.{
  String, false, Option, none, some, List, [], ◌∷◌, ◌++◌, map, foldl, is_empty, if◌then◌else◌,
}
use permissions_api.Dict.{Dict, lookup, has, insert, Runtime}
use permissions_api.Types.{TargetType}
use permissions_api.Types
use permissions_api.Iapl.Document.{
  ResourceRoleBindingV2, Relationship, ResourceType, Union, Action, Condition, ActionBinding, Rbac,
  PolicyDocument,
}
use permissions_api.Iapl.Rbac.{
  role_owner_relation, role_owner_member_role_relation, available_roles_list,
  rolebinding_role_relation, rolebinding_subject_relation, permission_relation_suffix, follow,
  role_binding_actions, role_owners_set, add_name,
}

pub record Policy : Type 0 where
  pub rt : Dict ResourceType
  pub un : Dict Union
  pub ac : Dict Action
  pub rb : Dict (Dict (Unit {0}))
  pub bn : List ActionBinding
  pub p : PolicyDocument

-- `for _, x := range xs { m[x.Name] = x }`
unfoldable pub index : {V : Type 0} → (V → String) → Dict V → List V → Dict V
index name = foldl (λ d x. insert (name x) x d)

-- action.Name + PermissionRelationSuffix
abbrev pub permission_relation : String → String
permission_relation action = String.◌++◌ action permission_relation_suffix

abbrev pub named : String → TargetType
named name = record { name = name; subject_identifier = ""; subject_relation = "" }

abbrev wildcard : String → TargetType
wildcard name = record { name = name; subject_identifier = "*"; subject_relation = "" }

-- The relationship that stands for one action in the v2 role type.
abbrev action_relationship : Rbac → String × Action → Relationship
action_relationship r (_, action) = record {
  relation = permission_relation action.name;
  target_types = map wildcard r.role_subject_types;
}

unfoldable pub create_v2_role_resource_type : Runtime → Rbac → Policy → Policy
create_v2_role_resource_type g r v =
    let owners : Relationship = record {
      relation = role_owner_relation;
      target_types = map named r.role_owners;
    } in
    let role : ResourceType = record {
      name = r.role_resource.name;
      id_prefix = r.role_resource.id_prefix;
      role_binding_v2 = none;
      relationships = map (action_relationship r) (g.order Action v.ac) ++ owners ∷ [];
    } in
    record v { rt = insert role.name role v.rt }

abbrev follow_condition : String → String → Types.Condition
follow_condition relation action = record {
  role_binding = false;
  role_binding_v2 = false;
  relationship_action = some (follow relation action);
}

-- The binding of an action to the role-binding type: its role must hold the action, and the
-- subject must be bound.
abbrev role_binding_action_binding : Rbac → String × Action → ActionBinding
role_binding_action_binding r (action_name, _) = record {
  action_name = action_name;
  type_name = r.role_binding_resource.name;
  conditions = [];
  condition_sets =
      record {
        conditions =
            follow_condition rolebinding_role_relation (permission_relation action_name) ∷ [];
      }
      ∷ record { conditions = follow_condition rolebinding_subject_relation "" ∷ [] }
      ∷ [];
}

unfoldable pub create_role_binding_resource_type : Runtime → Rbac → Policy → Policy
create_role_binding_resource_type g r v =
    let role : Relationship = record {
      relation = rolebinding_role_relation;
      target_types = named r.role_resource.name ∷ [];
    } in
    let subjects : Relationship = record {
      relation = rolebinding_subject_relation;
      target_types = r.role_binding_subjects;
    } in
    let rolebinding : ResourceType = record {
      name = r.role_binding_resource.name;
      id_prefix = r.role_binding_resource.id_prefix;
      role_binding_v2 = none;
      relationships = role ∷ subjects ∷ [];
    } in
    record v {
      bn = v.bn ++ map (role_binding_action_binding r) (g.order Action v.ac);
      rt = insert r.role_binding_resource.name rolebinding v.rt;
    }

abbrev action_condition : String → String → Condition
action_condition relation action = record {
  role_binding = false;
  role_binding_v2 = false;
  relationship_action = some (follow relation action);
}

-- The relation through which a role owner reaches its roles.
abbrev member_role_relationship : Rbac → Relationship
member_role_relationship r = record {
  relation = role_owner_member_role_relation;
  target_types = named r.role_resource.name ∷ [];
}

abbrev inherits_from : Option ResourceRoleBindingV2 → List String
inherits_from none = []
inherits_from (some b) = b.inherit_permissions_from

-- `availableRoles` of a resource type, after both of the loop's tests.
unfoldable pub available_roles : Rbac → String → ResourceType → List Condition
available_roles r name resource_type =
    (if has name (role_owners_set r)
      then action_condition role_owner_member_role_relation "" ∷ []
      else [])
    ++ map (λ from. action_condition from available_roles_list)
        (inherits_from resource_type.role_binding_v2)

abbrev available_roles_binding : ResourceType → List Condition → ActionBinding
available_roles_binding resource_type conditions = record {
  action_name = available_roles_list;
  type_name = resource_type.name;
  conditions = conditions;
  condition_sets = [];
}

-- One round of the loop of `expandRBACV2Relationships`.
unfoldable pub expand_rbac_v2_relationship : Rbac → Policy → String × ResourceType → Policy
unfolding available_roles
expand_rbac_v2_relationship r v (name, resource_type) =
    let relationships : List Relationship =
      if has name (role_owners_set r)
      then resource_type.relationships ++ member_role_relationship r ∷ []
      else resource_type.relationships in
    let roles = available_roles r name resource_type in
    record v {
      bn =
          if is_empty roles then v.bn else v.bn ++ available_roles_binding resource_type roles ∷ [];
      rt = insert name (record resource_type { relationships = relationships }) v.rt;
    }

unfoldable pub expand_rbac_v2_relationships : Runtime → Rbac → Policy → Policy
expand_rbac_v2_relationships g r v =
    foldl (expand_rbac_v2_relationship r) v (g.order ResourceType v.rt)

-- A binding to a union stands for one binding to each of its types.
unfoldable pub expand_action_binding : Dict Union → ActionBinding → List ActionBinding
expand_action_binding un bn = elim (lookup bn.type_name un) [
  | none ↦ bn ∷ []
  | some u ↦ map (λ t. record bn { type_name = t.name }) u.resource_types
]

-- `b := v.rb[ab.TypeName]`, made if it is missing; then `b[ab.ActionName] = struct{}{}`
unfoldable pub add_binding : Dict (Dict (Unit {0})) → ActionBinding → Dict (Dict (Unit {0}))
add_binding rb ab =
    let b : Dict (Unit {0}) = Option.get_or (lookup ab.type_name rb) [] in
    insert ab.type_name (add_name b ab.action_name) rb

expand_bindings : Dict Union → List ActionBinding → List ActionBinding → List ActionBinding
expand_bindings un = foldl (λ bn b. bn ++ expand_action_binding un b)

unfoldable pub expand_action_bindings : Policy → Policy
unfolding expand_bindings
expand_action_bindings v =
    let bn = expand_bindings v.un v.bn v.p.action_bindings in
    record v { bn = bn; rb = foldl add_binding [] bn }

-- A target that is a union stands for the union's types.
unfoldable pub expand_target_types : Dict Union → List TargetType → List TargetType
expand_target_types un [] = []
expand_target_types un (tt' ∷ rest) = elim (lookup tt'.name un) [
  | none ↦ tt' ∷ expand_target_types un rest
  | some u ↦ u.resource_types ++ expand_target_types un rest
]

abbrev expand_relationship : Dict Union → Relationship → Relationship
expand_relationship un rel = record rel { target_types = expand_target_types un rel.target_types }

unfoldable pub expand_resource_type : Policy → String × ResourceType → Policy
expand_resource_type v (name, resource_type) = record v {
  rt =
      insert name
        (record resource_type {
          relationships = map (expand_relationship v.un) resource_type.relationships;
        })
        v.rt;
}

unfoldable pub expand_resource_types : Runtime → Policy → Policy
expand_resource_types g v = foldl expand_resource_type v (g.order ResourceType v.rt)

unfoldable pub expand_rbac : Runtime → Option Rbac → Policy → Policy
expand_rbac g none v = v
expand_rbac g (some r) v =
    let v' = record v { ac = index Action.name v.ac role_binding_actions } in
    expand_rbac_v2_relationships g r
      (create_role_binding_resource_type g r (create_v2_role_resource_type g r v'))

-- The maps of the document, before anything is expanded.
unfoldable pub start : PolicyDocument → Policy
start p = record {
  rt = index ResourceType.name [] p.resource_types;
  un = index Union.name [] p.unions;
  ac = index Action.name [] p.actions;
  rb = [];
  bn = [];
  p = p;
}

unfoldable pub new_policy : Runtime → PolicyDocument → Policy
new_policy g p = expand_resource_types g (expand_action_bindings (expand_rbac g p.rbac (start p)))
