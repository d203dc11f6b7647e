-- ===== src/Query/Roles.antt =====
-- The operations on v1 roles and on relationships of internal/query/relations.go, with the tokens
-- of internal/query/zedtokens.go.
use permissions_api.Base.{
  String, false, ◌&&◌, none, some, List, [], ◌∷◌, is_empty, ◌==◌, if◌then◌else◌,
}
use permissions_api.Types.{Resource, Role}
use permissions_api.Query.Messages.{
  Error, Outcome, ok, err, panic, role_not_found, no_role_found, Filter, Relationship,
  SubjectFilter, StorageRole,
}
use permissions_api.Query.Engine.{Engine, validate_resource_actions, new_resource_from_id}
use permissions_api.Query.Diff.{diff}
use permissions_api.Query.Updates.{
  role_subject_relation, namespaced, relation_to_action, role_relationships,
  role_resource_relationships_touch_delete,
}
use permissions_api.Query.Monad.{
  Backend, M, pure, ◌>>=◌, ◌>>◌, lift, check, call, on_error, map_error, begin_context,
  commit_context, rollback_context, write_relationships, delete_relationships,
}

abbrev pub empty_role : Role
empty_role = record {
  id = "";
  name = "";
  manager = "";
  actions = [];
  resource_id = "";
  created_by = "";
  updated_by = "";
  created_at = 0;
  updated_at = 0;
}

-- A role of the database with its actions.
abbrev pub role_of : StorageRole → List String → Role
role_of r actions = record {
  id = r.id;
  name = r.name;
  manager = r.manager;
  actions = actions;
  resource_id = r.resource_id;
  created_by = r.created_by;
  updated_by = r.updated_by;
  created_at = r.created_at;
  updated_at = r.updated_at;
}

abbrev not_found_error : Error → Error
not_found_error no_role_found = role_not_found
not_found_error e = e

-- The actions of the relations that were read; a relation that is not a role's is a panic.
unfoldable pub actions_of_relationships : List Relationship → Outcome (List String)
actions_of_relationships [] = ok []
actions_of_relationships (rel ∷ rels) = elim (relation_to_action rel.relation) [
  | none ↦ panic
  | some action ↦ elim (actions_of_relationships rels) [
    | ok actions ↦ ok (action ∷ actions)
    | err e ↦ err e
    | panic ↦ panic
  ]
]

module _ (b : Backend) (e : Engine) where
  unfoldable pub new_resource : String → M b Resource
  new_resource id = lift (new_resource_from_id b.prefix e id)

  unfoldable pub get_storage_role : Resource → M b StorageRole
  get_storage_role role_resource =
      map_error not_found_error (call (b.store_get_role_by_id role_resource.id))

  unfoldable pub lock_role_for_update : Resource → M b (Unit {0})
  lock_role_for_update role_resource =
      map_error not_found_error (call (b.store_lock_role role_resource.id))

  abbrev role_subject_filter : String → SubjectFilter
  role_subject_filter role_id = record {
    subject_type = namespaced e "role";
    optional_subject_id = role_id;
    optional_relation = some role_subject_relation;
  }

  unfoldable pub list_role_resource_actions : StorageRole → M b (List String)
  unfolding new_resource
  list_role_resource_actions role = do
    owner ← new_resource role.resource_id
    relationships ← call (
        b.spice_read (record {
          resource_type = namespaced e owner.type;
          optional_resource_id = owner.id;
          optional_relation = "";
          optional_subject_filter = some (role_subject_filter role.id);
        }))
    lift (actions_of_relationships relationships)

  unfoldable pub get_role : Resource → M b Role
  unfolding get_storage_role list_role_resource_actions
  get_role role_resource = do
    db_role ← get_storage_role role_resource
    actions ← list_role_resource_actions db_role
    pure (record (role_of db_role actions) { id = role_resource.id })

  unfoldable pub get_role_resource : Resource → M b Resource
  unfolding get_storage_role new_resource
  get_role_resource role_resource = do
    db_role ← get_storage_role role_resource
    new_resource db_role.resource_id

  -- An error of the resource of a new role's own identifier is a panic.
  abbrev must : {A : Type 0} → Outcome A → Outcome A
  must (ok a) = ok a
  must (err _) = panic
  must panic = panic

  -- The result of `BeginContext`'s error in `CreateRole`: an empty role and a nil error.
  abbrev if_begun : M b Role → M b Role
  if_begun k s =
      let (r, s') = begin_context b s in
      elim r [ ok _ ↦ k s' | err _ ↦ (ok empty_role, s') | panic ↦ (panic, s') ]

  unfoldable pub create_role : Resource → Resource → String → String → List String → M b Role
  unfolding write_relationships commit_context rollback_context begin_context
  create_role actor res manager role_name actions = do
    check (validate_resource_actions e res actions)
    id ← λ s. let (r, s') = call (b.new_id "permrol") s in (must r, s')
    role_resource ← lift (must (new_resource_from_id b.prefix e id))
    let role_rels = role_relationships e role_resource actions res
    if_begun (do
      db_role ← call (b.store_create_role actor.id id role_name manager res.id)
      on_error (write_relationships b role_rels) (rollback_context b)
      on_error (commit_context b) (rollback_context b)
      pure (record (role_of db_role actions) { id = id; name = role_name }))

  -- What `UpdateRole` does once it knows that something changes.
  unfoldable pub apply_role_update :
      Resource → Resource → Role → String → List String → List String → List String → M b Role
  unfolding new_resource write_relationships commit_context rollback_context
  apply_role_update actor role_resource role new_name new_actions add_actions rem_actions = do
    resource ← new_resource role.resource_id
    db_role ← on_error (call (b.store_update_role actor.id role.id new_name)) (rollback_context b)
    actions ← if is_empty add_actions && is_empty rem_actions then pure role.actions else (do
      on_error
          (write_relationships b (
            role_resource_relationships_touch_delete e role_resource resource add_actions
              rem_actions))
          (rollback_context b)
      pure new_actions)
    on_error (commit_context b) (rollback_context b)
    pure (record (role_of db_role actions) { id = role.id })

  unfoldable pub update_role : Resource → Resource → String → List String → M b Role
  unfolding begin_context rollback_context
  update_role actor role_resource new_name' new_actions = do
    begin_context b
    on_error (lock_role_for_update role_resource) (rollback_context b)
    role ← on_error (get_role role_resource) (rollback_context b)
    res ← on_error (new_resource role.resource_id) (rollback_context b)
    on_error (check (validate_resource_actions e res new_actions)) (rollback_context b)
    let new_name = if new_name' == "" then role.name else new_name'
    let changes = diff role.actions new_actions false
    if new_name == role.name && (is_empty changes.0 && is_empty changes.1)
        then pure role
        else apply_role_update actor role_resource role new_name new_actions changes.0 changes.1

  -- The filters of `DeleteRole`, one for each action.
  unfoldable pub delete_filters : Resource → Resource → List String → List Filter
  delete_filters role_resource owner [] = []
  delete_filters role_resource owner (action ∷ actions) =
      record {
        resource_type = namespaced e owner.type;
        optional_resource_id = owner.id;
        optional_relation = action;
        optional_subject_filter = some (role_subject_filter role_resource.id);
      }
      ∷ delete_filters role_resource owner actions

  unfoldable pub delete_all : List Filter → M b (Unit {0})
  delete_all [] = pure tt
  delete_all (f ∷ fs) = on_error (delete_relationships b f) (rollback_context b) >> delete_all fs

  unfoldable pub delete_role : Resource → M b (Unit {0})
  unfolding begin_context rollback_context commit_context
  delete_role role_resource = do
    begin_context b
    db_role ← get_storage_role role_resource
    owner ← new_resource db_role.resource_id
    on_error (lock_role_for_update role_resource) (rollback_context b)
    actions ← on_error (list_role_resource_actions db_role) (rollback_context b)
    map_error not_found_error
        (on_error (call (b.store_delete_role role_resource.id)) (rollback_context b))
    delete_all (delete_filters role_resource owner actions)
    on_error (commit_context b) (rollback_context b)
