-- ===== src/Query/RolesV2/Relations.antt =====
-- The relationships of v2 roles that internal/query/roles_v2.go writes: those that give a role its
-- actions, and those between a role and its owner.
use permissions_api.Base.{String, none, some, List, [], ◌∷◌, map, flat_map}
use permissions_api.Types.{Resource}
use permissions_api.Iapl.Rbac.{role_owner_relation, role_owner_member_role_relation}
use permissions_api.Query.Messages.{
  Outcome, ok, err, panic, role_v2_resource_not_defined, Operation, touch, ObjectReference, Update,
}
use permissions_api.Query.Engine.{Engine, new_resource_from_id, get_resource_type}
use permissions_api.Query.Updates.{namespaced, resource_to_spicedb_ref, action_to_relation}

-- The update that gives or takes an action for the wildcard of one type of subjects.
abbrev pub action_update : Engine → String → ObjectReference → Operation → String → Update
action_update e action role_ref op subj_type = record {
  operation = op;
  relationship = record {
    resource = role_ref;
    relation = action_to_relation action;
    subject = record {
      object = record { object_type = namespaced e subj_type; object_id = "*" };
      optional_relation = "";
    };
  };
}

unfoldable pub action_updates : Engine → String → ObjectReference → Operation → List Update
action_updates e action role_ref op =
    map (action_update e action role_ref op) e.rbac.role_subject_types

unfoldable pub role_v2_relationships :
    (String → String) → Engine → String → List String → Outcome (List Update)
role_v2_relationships prefix e role_id actions = elim (new_resource_from_id prefix e role_id) [
  | err x ↦ err x
  | panic ↦ panic
  | ok role_resource ↦ elim (get_resource_type e e.rbac.role_resource.name) [
    | none ↦ err role_v2_resource_not_defined
    | some _ ↦ ok (
        flat_map (λ action. action_updates e action (resource_to_spicedb_ref e role_resource) touch)
          actions)
  ]
]

abbrev pub touched : ObjectReference → String → ObjectReference → Update
touched resource relation subject = record {
  operation = touch;
  relationship = record {
    resource = resource;
    relation = relation;
    subject = record { object = subject; optional_relation = "" };
  };
}

unfoldable pub role_v2_owner_relationship :
    (String → String) → Engine → String → Resource → Outcome (List Update)
role_v2_owner_relationship prefix e role_id owner = elim (new_resource_from_id prefix e role_id) [
  | err x ↦ err x
  | panic ↦ panic
  | ok role_resource ↦ elim (get_resource_type e e.rbac.role_resource.name) [
    | none ↦ ok []
    | some _ ↦
        let role_ref = resource_to_spicedb_ref e role_resource in
        let owner_ref = resource_to_spicedb_ref e owner in
        ok (
          touched role_ref role_owner_relation owner_ref
          ∷ touched owner_ref role_owner_member_role_relation role_ref
          ∷ [])
  ]
]
