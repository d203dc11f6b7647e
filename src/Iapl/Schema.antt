-- ===== src/Iapl/Schema.antt =====
-- `Schema` of internal/iapl/policy.go: the resource types and actions that are written to SpiceDB.
-- The entries of `typeMap` are pointers: following one that is missing panics, which is `none`.
pub mod Spec
pub mod Effect
pub mod Loop
pub mod Total
pub mod Maps
pub mod Called
pub mod Complete
use permissions_api.Base.{
  String, true, false, Option, none, some, List, [], ◌∷◌, ◌++◌, map, foldl, flat_map, if◌then◌else◌,
  fold_opt, ◌>>=◌,
}
use permissions_api.Dict.{Dict, lookup, has, insert, Runtime}
use permissions_api.Types.{TargetType}
use permissions_api.Types
use permissions_api.Iapl.Document.{
  ResourceRoleBindingV2, Relationship, ResourceType, Condition, ActionBinding,
}
use permissions_api.Iapl.Rbac.{
  rolebinding_role_relation, rolebinding_subject_relation, follow,
  create_role_binding_conditions_for_action, create_role_binding_actions_for_resource,
}
use permissions_api.Iapl.Policy.{Policy, permission_relation}

pub record SchemaState : Type 0 where
  pub type_map : Dict Types.ResourceType
  pub rbv2_actions : Dict (List Types.Action)

abbrev pub out_relationship : Relationship → Types.ResourceTypeRelationship
out_relationship rel = record { relation = rel.relation; types = rel.target_types }

abbrev pub out_type : ResourceType → Types.ResourceType
out_type rt = record {
  name = rt.name;
  id_prefix = rt.id_prefix;
  relationships = map out_relationship rt.relationships;
  actions = [];
}

-- A write through `typeMap[name]`.
unfoldable pub update_type :
    String
    → (Types.ResourceType → Types.ResourceType)
    → Dict Types.ResourceType
    → Option (Dict Types.ResourceType)
update_type name f types = do t ← lookup name types; some (insert name (f t) types)

abbrev pub append_relationship :
    Types.ResourceTypeRelationship → Types.ResourceType → Types.ResourceType
append_relationship rel t = record t { relationships = t.relationships ++ rel ∷ [] }

abbrev pub append_actions : List Types.Action → Types.ResourceType → Types.ResourceType
append_actions actions t = record t { actions = t.actions ++ actions }

-- `v.rt[typeName].RoleBindingV2`, nil if there is no such type
unfoldable pub role_binding_v2_of : Policy → String → Option ResourceRoleBindingV2
role_binding_v2_of v type_name = do rt ← lookup type_name v.rt; rt.role_binding_v2

-- The relation that a v1 role-binding condition adds to the type.
abbrev pub role_binding_relationship : String → Types.ResourceTypeRelationship
role_binding_relationship action = record {
  relation = permission_relation action;
  types =
      record {
        name = rolebinding_role_relation;
        subject_identifier = "";
        subject_relation = rolebinding_subject_relation;
      }
      ∷ [];
}

abbrev role_binding_condition : String → Types.Condition
role_binding_condition action = record {
  role_binding = true;
  role_binding_v2 = false;
  relationship_action = some (follow (permission_relation action) "");
}

abbrev inherits_all : ResourceRoleBindingV2 → List String
inherits_all b = if b.inherit_all_actions then b.inherit_permissions_from else []

-- The conditions that one condition of a binding stands for: the three cases of the switch.
unfoldable pub out_conditions :
    String → Option ResourceRoleBindingV2 → Condition → List Types.Condition
out_conditions action rbv2 c =
    if c.role_binding
    then role_binding_condition action ∷ []
    else if c.role_binding_v2
    then (elim rbv2 [
      | none ↦
          record {
            role_binding = false;
            role_binding_v2 = false;
            relationship_action = c.relationship_action;
          }
          ∷ []
      | some b ↦ create_role_binding_conditions_for_action action (inherits_all b)
    ])
    else record {
      role_binding = false;
      role_binding_v2 = false;
      relationship_action = c.relationship_action;
    }
      ∷ []

-- What one condition of a binding writes to the maps.
unfoldable pub record_condition :
    ActionBinding → Option ResourceRoleBindingV2 → Condition → SchemaState → Option SchemaState
record_condition b rbv2 c st =
    if c.role_binding
    then (do
      types ←
          update_type b.type_name (append_relationship (role_binding_relationship b.action_name))
            st.type_map
      some (record st { type_map = types }))
    else if c.role_binding_v2
    then (elim rbv2 [
      | none ↦ some st
      | some r ↦ some (
          if has b.type_name st.rbv2_actions then st else record st {
            rbv2_actions =
                insert b.type_name
                  (create_role_binding_actions_for_resource r.inherit_permissions_from)
                  st.rbv2_actions;
          })
    ])
    else some st

unfoldable pub out_action : ActionBinding → Option ResourceRoleBindingV2 → Types.Action
out_action b rbv2 = record {
  name = b.action_name;
  conditions = flat_map (out_conditions b.action_name rbv2) b.conditions;
  condition_sets = b.condition_sets;
}

-- One round of the loop over the bindings.
unfoldable pub schema_binding : Policy → ActionBinding → SchemaState → Option SchemaState
schema_binding v b st = do
  let rbv2 = role_binding_v2_of v b.type_name
  st' ← fold_opt (record_condition b rbv2) b.conditions st
  types ← update_type b.type_name (append_actions (out_action b rbv2 ∷ [])) st'.type_map
  some (record st' { type_map = types })

-- One round of the loop over `rbv2Actions`.
unfoldable pub add_rbv2_actions :
    String × List Types.Action → Dict Types.ResourceType → Option (Dict Types.ResourceType)
add_rbv2_actions (name, actions) types = update_type name (append_actions actions) types

abbrev pub out_entry : Dict Types.ResourceType → String × ResourceType → Dict Types.ResourceType
out_entry types (name, rt) = insert name (out_type rt) types

unfoldable pub schema_types : Runtime → Policy → Option (Dict Types.ResourceType)
schema_types g v = do
  let types = foldl out_entry [] (g.order ResourceType v.rt)
  st ← fold_opt (schema_binding v) v.bn (record { type_map = types; rbv2_actions = [] })
  fold_opt add_rbv2_actions (g.order (List Types.Action) st.rbv2_actions) st.type_map

unfoldable pub schema : Runtime → Policy → Option (List Types.ResourceType)
schema g v = do types ← schema_types g v; some (map (λ e. e.1) (g.order Types.ResourceType types))
