-- ===== src/Query/Engine.antt =====
-- The engine of internal/query/service.go and its look-ups in internal/query/relations.go. The
-- connections to SpiceDB and to the database are in Query/Monad; logging and tracing are left out.
-- `prefix` is gidx's `Prefix`.
use permissions_api.Base.{
  String, Bool, not, ◌&&◌, Option, none, some, List, [], ◌∷◌, ◌++◌, foldl, any, if◌then◌else◌, ◌==◌,
  first_error, fail_if,
}
use mathlib.Core.Option
use permissions_api.Dict.{Dict, lookup, insert}
use permissions_api.Types
use permissions_api.Types.{TargetType, Resource}
use permissions_api.Iapl.Document.{Rbac}
use permissions_api.Query.Messages.{
  Error, Outcome, ok, err, invalid_namespace, invalid_type, invalid_action, invalid_relationship,
}

pub record Engine : Type 0 where
  pub namespace : String
  pub schema : List Types.ResourceType
  pub schema_prefix_map : Dict Types.ResourceType
  pub schema_type_map : Dict Types.ResourceType
  pub schema_subject_relation_map : Dict (Dict (List String))
  pub schema_roleables : List Types.ResourceType
  pub rbac : Rbac
  pub rolebinding_subjects_map : Dict TargetType
  pub rbac_v2_resource_types : List Types.ResourceType

unfoldable pub resource_has_role_bindings : Types.ResourceType → Bool
resource_has_role_bindings res_type =
    any (λ action. any Types.Condition.role_binding action.conditions) res_type.actions

-- The code returns the condition, a pointer to an empty struct, or nil.
unfoldable pub resource_has_role_binding_v2 : Types.ResourceType → Bool
resource_has_role_binding_v2 res_type =
    any (λ action. any Types.Condition.role_binding_v2 action.conditions) res_type.actions

-- One target type of one relationship of `res`, in `schemaSubjectRelationMap`.
unfoldable pub add_subject_relation :
    String → String → Dict (Dict (List String)) → TargetType → Dict (Dict (List String))
add_subject_relation res_name relation m t =
    let relations : Dict (List String) = Option.get_or (lookup t.name m) [] in
    let names : List String = Option.get_or (lookup relation relations) [] in
    insert t.name (insert relation (names ++ res_name ∷ []) relations) m

unfoldable pub add_relationship :
    String → Dict (Dict (List String)) → Types.ResourceTypeRelationship → Dict (Dict (List String))
add_relationship res_name m rel = foldl (add_subject_relation res_name rel.relation) m rel.types

-- One round of the loop of `cacheSchemaResources`.
unfoldable pub cache_resource : Engine → Types.ResourceType → Engine
cache_resource e res = record e {
  schema_prefix_map = insert res.id_prefix res e.schema_prefix_map;
  schema_type_map = insert res.name res e.schema_type_map;
  schema_subject_relation_map =
      foldl (add_relationship res.name) e.schema_subject_relation_map res.relationships;
  schema_roleables =
      if resource_has_role_bindings res then e.schema_roleables ++ res ∷ [] else e.schema_roleables;
  rbac_v2_resource_types =
      if resource_has_role_binding_v2 res
      then e.rbac_v2_resource_types ++ res ∷ []
      else e.rbac_v2_resource_types;
}

-- The engine before the loop over its schema.
abbrev pub emptied : Engine → Engine
emptied e = record e {
  schema_prefix_map = [];
  schema_type_map = [];
  schema_subject_relation_map = [];
  schema_roleables = [];
  rolebinding_subjects_map = foldl (λ m s. insert s.name s m) [] e.rbac.role_binding_subjects;
  rbac_v2_resource_types = [];
}

unfoldable pub cache_schema_resources : Engine → Engine
cache_schema_resources e = foldl cache_resource (emptied e) e.schema

-- The loop over the schema that finds the first type of a name; `none` is ErrInvalidType.
unfoldable pub find_type : String → List Types.ResourceType → Option Types.ResourceType
find_type name [] = none
find_type name (t ∷ ts) = if name == t.name then some t else find_type name ts

unfoldable pub get_type_for_resource : Engine → Resource → Option Types.ResourceType
get_type_for_resource e res = find_type res.type e.schema

-- A relation of the type with the relationship's name that admits the subject's type.
unfoldable pub admits : Types.ResourceType → String → String → Bool
admits res_type relation subject_type =
    any (λ rel. relation == rel.relation && any (λ t. subject_type == t.name) rel.types)
      res_type.relationships

unfoldable pub validate_relationship : Engine → Types.Relationship → Option Error
validate_relationship e rel = elim (get_type_for_resource e rel.subject) [
  | none ↦ some invalid_type
  | some subj_type ↦ elim (get_type_for_resource e rel.resource) [
    | none ↦ some invalid_type
    | some res_type ↦
        fail_if (not (admits res_type rel.relation subj_type.name)) invalid_relationship
  ]
]

-- The actions of a type, none if the type is unknown.
abbrev pub actions_of : Engine → String → List Types.Action
actions_of e name = elim (lookup name e.schema_type_map) [ none ↦ [] | some t ↦ t.actions ]

-- The error lists the invalid actions; here it is the sentinel.
unfoldable pub validate_resource_actions : Engine → Resource → List String → Option Error
validate_resource_actions e resource actions =
    first_error
      (λ action.
        fail_if (not (any (λ a. a.name == action) (actions_of e resource.type))) invalid_action)
      actions

unfoldable pub new_resource_from_id : (String → String) → Engine → String → Outcome Resource
new_resource_from_id prefix e id = elim (lookup (prefix id) e.schema_prefix_map) [
  | none ↦ err invalid_namespace
  | some t ↦ ok (record { type = t.name; id = id })
]

unfoldable pub get_resource_type : Engine → String → Option Types.ResourceType
get_resource_type e name = lookup name e.schema_type_map
