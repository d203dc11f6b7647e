-- ===== src/Query/RolesV2.antt =====
-- The operations on v2 roles of internal/query/roles_v2.go, with `newRoleWithPrefix` of
-- internal/query/roles.go. The child module Relations has the relationships that they write.
pub mod Relations
pub mod Lists
pub mod Closing
pub mod Deletion
pub mod NoActions
pub mod RoundTrip
use permissions_api.Base.{
  String, Bool, false, not, ◌&&◌, Option, none, some, List, [], ◌∷◌, ◌++◌, map, is_empty, ◌==◌,
  flat_map, if◌then◌else◌, ◌or_else◌,
}
use permissions_api.Dict.{has, lookup}
use permissions_api.Types
use permissions_api.Types.{Resource, Role}
use permissions_api.Iapl.Rbac.{available_roles_list, rolebinding_role_relation, role_owners_set}
use permissions_api.Query.Messages.{
  Error, Outcome, ok, err, panic, Reply, answer, failure, invalid_type, delete_role_in_use,
  LookupRequest, fully_consistent, touch, delete, Update, Filter, Relationship, StorageRole,
}
use permissions_api.Query.Engine.{Engine}
use permissions_api.Query.Diff.{diff}
use permissions_api.Query.Updates.{namespaced, resource_to_spicedb_ref}
use permissions_api.Query.Monad.{
  Backend, State, M, pure, ◌>>=◌, ◌>>◌, lift, check, call, on_error, begun_or, attempt,
  begin_context, commit_context, rollback_context, write_relationships, delete_relationships,
}
use permissions_api.Query.Roles.{
  empty_role, role_of, actions_of_relationships, new_resource, get_storage_role,
  lock_role_for_update,
}
use permissions_api.Query.RolesV2.Relations.{
  action_updates, role_v2_relationships, role_v2_owner_relationship,
}

module _ (b : Backend) (e : Engine) where
  -- The prefix of the type of roles, empty if the schema has no such type.
  abbrev pub role_prefix : String
  role_prefix = elim (lookup e.rbac.role_resource.name e.schema_type_map) [
    | none ↦ ""
    | some t ↦ Types.ResourceType.id_prefix t
  ]

  -- What `CreateRoleV2` does inside its transaction.
  unfoldable pub store_role_v2 :
      Resource → Resource → String → String → List String → String → List Update → M b Role
  unfolding write_relationships commit_context rollback_context
  store_role_v2 actor owner manager role_name actions id role_rels = do
    db_role ←
        on_error (call (b.store_create_role actor.id id role_name manager owner.id))
          (rollback_context b)
    on_error (write_relationships b role_rels) (rollback_context b)
    on_error (commit_context b) (rollback_context b)
    pure (record (role_of db_role actions) { id = id; name = role_name })

  unfoldable pub create_role_v2 : Resource → Resource → String → String → List String → M b Role
  unfolding begin_context
  create_role_v2 actor owner manager role_name actions = do
    id ← call (b.new_id role_prefix)
    role_rels ← lift (role_v2_relationships b.prefix e id actions)
    owner_rels ← lift (role_v2_owner_relationship b.prefix e id owner)
    begun_or empty_role
        (store_role_v2 actor owner manager role_name actions id (role_rels ++ owner_rels))
        (begin_context b)

  abbrev pub owned_roles : Resource → LookupRequest
  owned_roles owner = record {
    consistency = fully_consistent;
    resource = resource_to_spicedb_ref e owner;
    permission = available_roles_list;
    subject_object_type = namespaced e e.rbac.role_resource.name;
  }

  -- The loop over the stream: it ends at the first error, and skips an identifier that gidx
  -- refuses.
  unfoldable pub received_ids : List (Reply String) → List String
  received_ids [] = []
  received_ids (failure _ ∷ _) = []
  received_ids (answer id ∷ stream) = elim (b.parse_id id) [
    | answer parsed ↦ parsed ∷ received_ids stream
    | failure _ ↦ received_ids stream
  ]

  -- The roles that both of the lists start from.
  unfoldable pub stored_roles_of : Resource → M b (List StorageRole)
  unfolding received_ids
  stored_roles_of owner = do
    check (if has owner.type (role_owners_set e.rbac) then none else some invalid_type)
    stream ← call (b.spice_lookup_subjects (owned_roles owner))
    call (b.store_batch_get_roles (received_ids stream))

  abbrev pub without_actions : StorageRole → Role
  without_actions r = role_of r []

  unfoldable pub list_roles_v2 : Resource → M b (List Role)
  list_roles_v2 owner = do
    storage_roles ← stored_roles_of owner
    pure (map without_actions storage_roles)

  -- The loop that keeps the roles of a manager.
  unfoldable pub managed : String → List StorageRole → List Role
  managed manager [] = []
  managed manager (r ∷ rs) =
      if r.manager == manager then without_actions r ∷ managed manager rs else managed manager rs

  unfoldable pub list_manager_roles_v2 : String → Resource → M b (List Role)
  unfolding managed
  list_manager_roles_v2 manager owner = do
    storage_roles ← stored_roles_of owner
    pure (managed manager storage_roles)

  -- The relationships of a role with the wildcard of its first subject type.
  abbrev pub actions_filter : String → String → Filter
  actions_filter role_id subject_type = record {
    resource_type = namespaced e e.rbac.role_resource.name;
    optional_resource_id = role_id;
    optional_relation = "";
    optional_subject_filter = some (record {
      subject_type = namespaced e subject_type;
      optional_subject_id = "*";
      optional_relation = none;
    });
  }

  abbrev pub list_actions_from : String → List String → M b (List String)
  list_actions_from role_id [] = pure []
  list_actions_from role_id (subject_type ∷ _) =
      call (b.spice_read (actions_filter role_id subject_type)) >>= λ rels.
      lift (actions_of_relationships rels)

  unfoldable pub list_role_v2_actions : String → M b (List String)
  list_role_v2_actions role_id = list_actions_from role_id e.rbac.role_subject_types

  unfoldable pub get_role_v2 : Resource → M b Role
  unfolding list_role_v2_actions get_storage_role
  get_role_v2 role = do
    check (if role.type == e.rbac.role_resource.name then none else some invalid_type)
    actions ← list_role_v2_actions role.id
    db_role ← get_storage_role b e role
    pure (role_of db_role actions)

  abbrev pub role_v2_updates : Resource → List String → List String → List Update
  role_v2_updates role_resource add_actions rm_actions =
      let role_ref = resource_to_spicedb_ref e role_resource in
      flat_map (λ action. action_updates e action role_ref delete) rm_actions
      ++ flat_map (λ action. action_updates e action role_ref touch) add_actions

  -- What `UpdateRoleV2` does once it knows that something changes.
  unfoldable pub apply_role_v2_update :
      Resource → Resource → Role → String → List String → List String → List String → M b Role
  unfolding write_relationships commit_context rollback_context
  apply_role_v2_update actor role_resource role new_name new_actions add_actions rm_actions = do
    db_role ← on_error (call (b.store_update_role actor.id role.id new_name)) (rollback_context b)
    on_error (write_relationships b (role_v2_updates role_resource add_actions rm_actions))
        (rollback_context b)
    on_error (commit_context b) (rollback_context b)
    pure (record (role_of db_role new_actions) { id = role.id })

  abbrev pub change_role_v2 : Resource → Resource → String → List String → Role → M b Role
  change_role_v2 actor role_resource new_name' new_actions role =
      let new_name = if new_name' == "" then role.name else new_name' in
      let changes = diff role.actions new_actions false in
      if new_name == role.name && (is_empty changes.0 && is_empty changes.1)
      then commit_context b >> pure role
      else apply_role_v2_update actor role_resource role new_name new_actions changes.0 changes.1

  unfoldable pub update_role_v2 : Resource → Resource → String → List String → M b Role
  unfolding begin_context rollback_context commit_context
  update_role_v2 actor role_resource new_name new_actions = do
    begin_context b
    on_error (lock_role_for_update b e role_resource) (rollback_context b)
    role ← on_error (get_role_v2 role_resource) (rollback_context b)
    change_role_v2 actor role_resource new_name new_actions role

  abbrev pub role_as_subject : String → String → String → Filter
  role_as_subject resource_type relation role_id = record {
    resource_type = namespaced e resource_type;
    optional_resource_id = "";
    optional_relation = relation;
    optional_subject_filter = some (record {
      subject_type = namespaced e e.rbac.role_resource.name;
      optional_subject_id = role_id;
      optional_relation = none;
    });
  }

  abbrev pub role_as_resource : String → Filter
  role_as_resource role_id = record {
    resource_type = namespaced e e.rbac.role_resource.name;
    optional_resource_id = role_id;
    optional_relation = "";
    optional_subject_filter = none;
  }

  -- What `DeleteRoleV2` does once it has found that the role may be deleted. Both of the deletions
  -- are attempted before the first error is returned.
  unfoldable pub erase_role_v2 : String → Resource → M b (Unit {0})
  unfolding rollback_context commit_context delete_relationships
  erase_role_v2 role_id role_owner = do
    on_error (call (b.store_delete_role role_id)) (rollback_context b)
    err₁ ← attempt (delete_relationships b (role_as_resource role_id))
    err₂ ← attempt (delete_relationships b (role_as_subject role_owner.type "" role_id))
    on_error (check (err₁ or_else err₂)) (rollback_context b)
    on_error (commit_context b) (rollback_context b)

  abbrev pub bindings_of : String → Filter
  bindings_of role_id =
      role_as_subject e.rbac.role_binding_resource.name rolebinding_role_relation role_id

  unfoldable pub delete_role_v2 : Resource → M b (Unit {0})
  unfolding begin_context rollback_context
  delete_role_v2 role_resource = do
    begin_context b
    on_error (lock_role_for_update b e role_resource) (rollback_context b)
    bindings ← call (b.spice_read (bindings_of role_resource.id))
    check (if is_empty bindings then none else some delete_role_in_use)
    db_role ← get_storage_role b e role_resource
    role_owner ← new_resource b e db_role.resource_id
    erase_role_v2 role_resource.id role_owner

-- The actions of the type of role bindings; none if the schema has no such type.
unfoldable pub all_actions : Engine → List String
all_actions e = elim (lookup e.rbac.role_binding_resource.name e.schema_type_map) [
  | none ↦ []
  | some rbv2 ↦ map Types.Action.name rbv2.actions
]
