-- ===== src/Query/Listings.antt =====
-- The operations of internal/query/relations.go that list roles and relationships.
use mathlib.Core.Option
use permissions_api.Base.{
  String, Bool, ◌||◌, none, some, List, [], ◌∷◌, ◌++◌, map, ◌==◌, if◌then◌else◌,
}
use permissions_api.Dict.{Dict, lookup, insert, Runtime}
use permissions_api.Types
use permissions_api.Types.{Resource, Role}
use permissions_api.Query.Messages.{
  Outcome, ok, err, panic, answer, failure, invalid_type, Relationship, Filter, StorageRole,
}
use permissions_api.Query.Engine.{Engine, new_resource_from_id}
use permissions_api.Query.Updates.{namespaced, relation_to_action, role_subject_relation}
use permissions_api.Query.Monad.{Backend, M, replied, pure, ◌>>=◌, lift, call}
use permissions_api.Query.Roles.{role_of}

module _ (b : Backend) where
  -- The roles of the relationships that were read: the actions of each, in a map that lists the
  -- roles in the order in which they are first met. An identifier that gidx refuses is a panic, as
  -- is a relation that is not a role's.
  unfoldable pub relationships_to_roles :
      List Relationship → Dict (List String) → Outcome (Dict (List String))
  relationships_to_roles [] roles = ok roles
  relationships_to_roles (rel ∷ rels) roles = elim (b.parse_id rel.subject.object.object_id) [
    | failure _ ↦ panic
    | answer id ↦ elim (relation_to_action rel.relation) [
      | none ↦ panic
      | some action ↦
          let actions : List String = Option.get_or (lookup id roles) [] in
          relationships_to_roles rels (insert id (actions ++ action ∷ []) roles)
    ]
  ]

module _ (b : Backend) (e : Engine) where
  unfoldable pub new_resource_from_id_string : String → M b Resource
  new_resource_from_id_string id = do
    parsed ← lift (replied (b.parse_id id))
    lift (new_resource_from_id b.prefix e parsed)

  -- A relationship with a v1 role, or with the wildcard of a v2 role.
  abbrev pub is_of_role : Relationship → Bool
  is_of_role rel =
      rel.subject.object.object_type == namespaced e "role" || rel.subject.object.object_id == "*"

  unfoldable pub relationships_to_non_roles : List Relationship → M b (List Types.Relationship)
  unfolding new_resource_from_id_string
  relationships_to_non_roles [] = pure []
  relationships_to_non_roles (rel ∷ rels) =
      let rest = relationships_to_non_roles rels in
      if is_of_role rel then rest else (do
        res ← new_resource_from_id_string rel.resource.object_id
        subj ← new_resource_from_id_string rel.subject.object.object_id
        out ← rest
        pure (record { resource = res; relation = rel.relation; subject = subj } ∷ out))

  unfoldable pub list_relationships_from : Resource → M b (List Types.Relationship)
  unfolding relationships_to_non_roles
  list_relationships_from resource = do
    rels ← call (
        b.spice_read (record {
          resource_type = namespaced e resource.type;
          optional_resource_id = resource.id;
          optional_relation = "";
          optional_subject_filter = none;
        }))
    relationships_to_non_roles rels

  abbrev to_resource : Resource → String → Filter
  to_resource resource rel_type = record {
    resource_type = namespaced e rel_type;
    optional_resource_id = "";
    optional_relation = "";
    optional_subject_filter = some (record {
      subject_type = namespaced e resource.type;
      optional_subject_id = resource.id;
      optional_relation = none;
    });
  }

  -- The relationships from resources of some types.
  unfoldable pub read_types : Resource → List String → M b (List Relationship)
  read_types resource [] = pure []
  read_types resource (rel_type ∷ rel_types) = do
    rels ← call (b.spice_read (to_resource resource rel_type))
    rest ← read_types resource rel_types
    pure (rels ++ rest)

  unfoldable pub read_relations : Resource → Dict (List String) → M b (List Relationship)
  read_relations resource [] = pure []
  read_relations resource ((_, rel_types) ∷ more) = do
    rels ← read_types resource rel_types
    rest ← read_relations resource more
    pure (rels ++ rest)

  unfoldable pub list_relationships_to : Runtime → Resource → M b (List Types.Relationship)
  unfolding read_relations relationships_to_non_roles
  list_relationships_to g resource = elim (lookup resource.type e.schema_subject_relation_map) [
    | none ↦ lift (err invalid_type)
    | some rel_types ↦
        read_relations resource (g.order (List String) rel_types) >>= relationships_to_non_roles
  ]

  -- The rows that are not of v2 roles, up to the first identifier of an unknown type.
  unfoldable pub v1_roles : List StorageRole → Outcome (List StorageRole)
  v1_roles [] = ok []
  v1_roles (r ∷ rs) = elim (new_resource_from_id b.prefix e r.id) [
    | err x ↦ err x
    | panic ↦ panic
    | ok res ↦ elim (v1_roles rs) [
      | err x ↦ err x
      | panic ↦ panic
      | ok out ↦ ok (if res.type == e.rbac.role_resource.name then out else r ∷ out)
    ]
  ]

  -- The loop of `ListManagerRoles` skips the rows of other managers before it reads identifiers.
  unfoldable pub managed_rows : String → List StorageRole → List StorageRole
  managed_rows manager [] = []
  managed_rows manager (r ∷ rs) =
      if r.manager == manager then r ∷ managed_rows manager rs else managed_rows manager rs

  abbrev roles_of_resource : Resource → Filter
  roles_of_resource resource = record {
    resource_type = namespaced e resource.type;
    optional_resource_id = resource.id;
    optional_relation = "";
    optional_subject_filter = some (record {
      subject_type = namespaced e "role";
      optional_subject_id = "";
      optional_relation = some role_subject_relation;
    });
  }

  abbrev actions_in : Dict (List String) → String → List String
  actions_in roles id = Option.get_or (lookup id roles) []

  -- What both of the lists do with their rows.
  unfoldable pub with_actions : Resource → List StorageRole → M b (List Role)
  unfolding relationships_to_roles
  with_actions resource rows = do
    rels ← call (b.spice_read (roles_of_resource resource))
    roles ← lift (relationships_to_roles b rels [])
    pure (map (λ row. role_of row (actions_in roles row.id)) rows)

  unfoldable pub list_roles : Resource → M b (List Role)
  unfolding v1_roles with_actions
  list_roles resource = do
    db_roles ← call (b.store_list_resource_roles resource.id)
    rows ← lift (v1_roles db_roles)
    with_actions resource rows

  unfoldable pub list_manager_roles : String → Resource → M b (List Role)
  unfolding v1_roles managed_rows with_actions
  list_manager_roles manager resource = do
    db_roles ← call (b.store_list_resource_roles resource.id)
    rows ← lift (v1_roles (managed_rows manager db_roles))
    with_actions resource rows
