-- ===== src/Iapl/Rbac.antt =====
-- The RBAC configuration of internal/iapl/rbac.go: its names, and the conditions and actions that
-- it generates. The receiver is read only for the set of role owners; the set is built afresh
-- here, where the code keeps it after the first call.
use permissions_api.Base.{String, true, false, some, List, [], ◌∷◌, ◌++◌, map, foldl}
use permissions_api.Dict.{Dict, insert}
use permissions_api.Types
use permissions_api.Iapl.Document.{Action, Rbac}

abbrev pub role_owner_relation : String
role_owner_relation = "owner"

abbrev pub role_owner_member_role_relation : String
role_owner_member_role_relation = "member_role"

abbrev pub available_roles_list : String
available_roles_list = "avail_role"

abbrev pub rolebinding_role_relation : String
rolebinding_role_relation = "role"

abbrev pub rolebinding_subject_relation : String
rolebinding_subject_relation = "subject"

abbrev pub permission_relation_suffix : String
permission_relation_suffix = "_rel"

abbrev pub grant_relationship : String
grant_relationship = "grant"

-- `actionsStr` in both of the functions below.
abbrev pub role_binding_action_names : List String
role_binding_action_names =
    "iam_rolebinding_create" ∷ "iam_rolebinding_update" ∷ "iam_rolebinding_delete"
    ∷ "iam_rolebinding_get" ∷ "iam_rolebinding_list" ∷ []

abbrev pub follow : String → String → Types.ConditionRelationshipAction
follow relation action = record { relation = relation; action_name = action }

abbrev inherited : String → String → Types.Condition
inherited action from = record {
  role_binding = false;
  role_binding_v2 = false;
  relationship_action = some (follow from action);
}

unfoldable pub create_role_binding_conditions_for_action :
    String → List String → List Types.Condition
create_role_binding_conditions_for_action action inherit_from =
    record {
      role_binding = false;
      role_binding_v2 = true;
      relationship_action = some (follow grant_relationship action);
    }
    ∷ map (inherited action) inherit_from

unfoldable pub create_role_binding_actions_for_resource : List String → List Types.Action
create_role_binding_actions_for_resource inherit_from =
    map
      (λ action. record {
        name = action;
        conditions = create_role_binding_conditions_for_action action inherit_from;
        condition_sets = [];
      })
      role_binding_action_names

unfoldable pub role_binding_actions : List Action
role_binding_actions =
    map (λ action. record { name = action }) role_binding_action_names
    ++ record { name = available_roles_list } ∷ []

-- A set of names is a map into the empty struct.
abbrev pub add_name : Dict (Unit {0}) → String → Dict (Unit {0})
add_name d k = insert k tt d

unfoldable pub set_of : List String → Dict (Unit {0})
set_of = foldl add_name []

unfoldable pub role_owners_set : Rbac → Dict (Unit {0})
role_owners_set r = set_of r.role_owners

abbrev pub role_action_create : String
role_action_create = "role_create"

abbrev pub role_action_get : String
role_action_get = "role_get"

abbrev pub role_action_list : String
role_action_list = "role_list"

abbrev pub role_action_update : String
role_action_update = "role_update"

abbrev pub role_action_delete : String
role_action_delete = "role_delete"
