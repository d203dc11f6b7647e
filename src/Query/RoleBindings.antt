-- ===== src/Query/RoleBindings.antt =====
-- The operations on role bindings of internal/query/rolebindings.go.
use permissions_api.Base.{
  String, true, none, some, List, [], ◌∷◌, ◌++◌, ◌&&◌, map, is_empty, ◌==◌, if◌then◌else◌,
}
use permissions_api.Dict.{lookup}
use permissions_api.Types.{Resource, RoleBinding, RoleBindingSubject}
use permissions_api.Iapl.Rbac.{
  available_roles_list, rolebinding_subject_relation, grant_relationship,
}
use permissions_api.Query.Messages.{
  Error, Outcome, ok, err, panic, action_not_assigned, role_not_found, no_role_found,
  role_binding_not_found, storage_role_binding_not_found, role_binding_has_no_relationships,
  CheckRequest, Operation, touch, delete, Update, Filter, Relationship, fully_consistent,
}
use permissions_api.Query.Engine.{Engine, new_resource_from_id}
use permissions_api.Query.Diff.{diff}
use permissions_api.Query.Updates.{
  namespaced, rolebinding_subject_relationship, rolebinding_role_relationship,
  rolebinding_grant_resource_relationship,
}
use permissions_api.Query.Monad.{
  Backend, State, M, replied, pure, ◌>>=◌, ◌>>◌, lift, check, call, on_error, map_error,
  begin_context, commit_context, rollback_context,
}
use permissions_api.Query.Relations.{check_permission, apply_updates, rollback_updates}

abbrev pub empty_role_binding : RoleBinding
empty_role_binding = record {
  id = "";
  resource_id = "";
  manager = "";
  role_id = "";
  subject_ids = [];
  created_by = "";
  updated_by = "";
  created_at = 0;
  updated_at = 0;
}

abbrev binding_error : Error → Error
binding_error storage_role_binding_not_found = role_binding_not_found
binding_error e = e

abbrev pub role_error : Error → Error
role_error no_role_found = role_not_found
role_error e = e

abbrev pub bindable_error : Error → Error
bindable_error action_not_assigned = role_not_found
bindable_error e = e

abbrev pub with_operation : Operation → Relationship → Update
with_operation op rel = record { operation = op; relationship = rel }

module _ (b : Backend) (e : Engine) where
  abbrev binding_filter : String → Filter
  binding_filter rb_id = record {
    resource_type = namespaced e e.rbac.role_binding_resource.name;
    optional_resource_id = rb_id;
    optional_relation = "";
    optional_subject_filter = none;
  }

  -- The loop of `GetRoleBinding` over the relationships that were read.
  unfoldable pub read_binding : List Relationship → RoleBinding → M b RoleBinding
  read_binding [] rb = pure rb
  read_binding (rel ∷ rels) rb = do
    id ← lift (replied (b.parse_id rel.subject.object.object_id))
    read_binding rels (
        if rel.relation == rolebinding_subject_relation
        then record rb { subject_ids = rb.subject_ids ++ id ∷ [] }
        else record rb { role_id = id })

  unfoldable pub get_role_binding : Resource → M b RoleBinding
  unfolding read_binding
  get_role_binding role_binding = do
    rb ← map_error binding_error (call (b.store_get_role_binding role_binding.id))
    rels ← call (b.spice_read (binding_filter role_binding.id))
    check (if is_empty rels then some role_binding_has_no_relationships else none)
    read_binding rels (record rb { subject_ids = [] })

  -- The check that the role is among those of the resource.
  abbrev pub bindable_request : Resource → Resource → CheckRequest
  bindable_request role res = record {
    consistency = fully_consistent;
    resource = record { object_type = namespaced e res.type; object_id = res.id };
    permission = available_roles_list;
    subject = record { object_type = namespaced e e.rbac.role_resource.name; object_id = role.id };
  }

  unfoldable pub is_role_bindable : Resource → Resource → M b (Unit {0})
  unfolding check_permission
  is_role_bindable role res =
      map_error bindable_error (check_permission b (bindable_request role res))

  abbrev pub subject_update : String → RoleBindingSubject → Outcome Update
  subject_update rb_id subj =
      elim (rolebinding_subject_relationship e subj.subject_resource rb_id) [
        | ok rel ↦ ok (with_operation touch rel)
        | err x ↦ err x
        | panic ↦ panic
      ]

  -- The updates for the subjects of a new binding, up to the first that is refused.
  unfoldable pub subject_updates : String → List RoleBindingSubject → M b (List Update)
  subject_updates rb_id [] = pure []
  subject_updates rb_id (subj ∷ subjs) = do
    u ← lift (subject_update rb_id subj)
    us ← subject_updates rb_id subjs
    pure (u ∷ us)

  abbrev pub id_prefix_of : String → String
  id_prefix_of name = elim (lookup name e.schema_type_map) [ none ↦ "" | some t ↦ t.id_prefix ]

  -- An error of `BeginContext` is answered with an empty binding and a nil error.
  abbrev pub begun : M b RoleBinding → Outcome (Unit {0}) × State b → Outcome RoleBinding × State b
  begun k (r, s) = elim r [ ok _ ↦ k s | err _ ↦ (ok empty_role_binding, s) | panic ↦ (panic, s) ]

  abbrev pub if_begun : M b RoleBinding → M b RoleBinding
  if_begun k s = begun k (begin_context b s)

  -- What `CreateRoleBinding` does inside its transaction.
  unfoldable pub write_role_binding :
      Resource → Resource → String → String → List RoleBindingSubject → M b RoleBinding
  unfolding rollback_context commit_context
  write_role_binding actor resource role_id manager subjects = do
    rbid ←
        on_error (call (b.new_id (id_prefix_of e.rbac.role_binding_resource.name)))
          (rollback_context b)
    rb ←
        on_error (call (b.store_create_role_binding actor.id rbid resource.id manager))
          (rollback_context b)
    subj_updates ← on_error (subject_updates rb.id subjects) (rollback_context b)
    let updates =
        with_operation touch (rolebinding_role_relationship e role_id rb.id)
        ∷ with_operation touch (rolebinding_grant_resource_relationship e resource rb.id)
        ∷ subj_updates
    on_error (apply_updates b updates) (rollback_context b)
    on_error (commit_context b) (rollback_context b >> rollback_updates b updates)
    pure (record rb {
      role_id = role_id;
      subject_ids = map (λ s. Resource.id (RoleBindingSubject.subject_resource s)) subjects;
    })

  unfoldable pub create_role_binding :
      Resource → Resource → Resource → String → List RoleBindingSubject → M b RoleBinding
  unfolding begin_context
  create_role_binding actor resource role_resource manager subjects = do
    is_role_bindable role_resource resource
    db_role ← map_error role_error (call (b.store_get_role_by_id role_resource.id))
    if_begun (write_role_binding actor resource db_role.id manager subjects)

  -- Both of the reads of `DeleteRoleBinding`.
  unfoldable pub binding_relationships : Resource → String → M b (List Relationship)
  binding_relationships res rb_id = do
    from_rels ← call (b.spice_read (binding_filter rb_id))
    to_rels ← call (
        b.spice_read (record {
          resource_type = namespaced e res.type;
          optional_resource_id = "";
          optional_relation = grant_relationship;
          optional_subject_filter = some (record {
            subject_type = namespaced e e.rbac.role_binding_resource.name;
            optional_subject_id = rb_id;
            optional_relation = none;
          });
        }))
    pure (from_rels ++ to_rels)

  unfoldable pub delete_role_binding : Resource → M b (Unit {0})
  unfolding begin_context rollback_context commit_context
  delete_role_binding rb = do
    begin_context b
    on_error (call (b.store_lock_role_binding rb.id)) (rollback_context b)
    rb_from_db ← call (b.store_get_role_binding rb.id)
    res ← lift (new_resource_from_id b.prefix e rb_from_db.resource_id)
    rels ← on_error (binding_relationships res rb.id) (rollback_context b)
    let updates = map (with_operation delete) rels
    on_error (apply_updates b updates) (rollback_context b)
    on_error (call (b.store_delete_role_binding rb.id))
        (rollback_context b >> rollback_updates b updates)
    on_error (commit_context b) (rollback_context b >> rollback_updates b updates)

  -- The updates that add or remove subjects given by their identifiers, up to the first refused.
  unfoldable pub id_updates : Operation → String → List String → M b (List Update)
  id_updates op rb_id [] = pure []
  id_updates op rb_id (id ∷ ids) = do
    parsed ← lift (replied (b.parse_id id))
    subj ← lift (new_resource_from_id b.prefix e parsed)
    rel ← lift (rolebinding_subject_relationship e subj rb_id)
    us ← id_updates op rb_id ids
    pure (with_operation op rel ∷ us)

  -- An error after which the code cleans up and goes on, with the zero value for the result.
  abbrev pub resumed :
      M b (Unit {0}) → Outcome RoleBinding × State b → Outcome RoleBinding × State b
  resumed cleanup (r, s) = elim r [
    | ok rb ↦ (ok rb, s)
    | err _ ↦ (ok empty_role_binding, (cleanup s).1)
    | panic ↦ (panic, s)
  ]

  abbrev pub go_on : M b RoleBinding → M b (Unit {0}) → M b RoleBinding
  go_on m cleanup s = resumed cleanup (m s)

  -- What `UpdateRoleBinding` does once it knows that the subjects change. There is no return
  -- after an error of `store.UpdateRoleBinding`.
  unfoldable pub apply_binding_update :
      Resource → Resource → RoleBinding → List String → List String → List String → M b RoleBinding
  unfolding rollback_context commit_context
  apply_binding_update actor rb rolebinding new_subject_ids add remove = do
    added ← on_error (id_updates touch rb.id add) (rollback_context b)
    removed ← on_error (id_updates delete rb.id remove) (rollback_context b)
    let updates = added ++ removed
    on_error (apply_updates b updates) (rollback_context b)
    rb_from_db ←
        go_on (call (b.store_update_role_binding actor.id rb.id))
          (rollback_context b >> rollback_updates b updates)
    on_error (commit_context b) (rollback_context b >> rollback_updates b updates)
    pure (record rolebinding {
      subject_ids = new_subject_ids;
      updated_at = rb_from_db.updated_at;
      updated_by = rb_from_db.updated_by;
    })

  abbrev incoming_ids : List RoleBindingSubject → List String
  incoming_ids = map (λ s. Resource.id (RoleBindingSubject.subject_resource s))

  unfoldable pub update_role_binding :
      Resource → Resource → List RoleBindingSubject → M b RoleBinding
  unfolding begin_context rollback_context
  update_role_binding actor rb subjects = do
    begin_context b
    on_error (call (b.store_lock_role_binding rb.id)) (rollback_context b)
    rolebinding ← on_error (get_role_binding rb) (rollback_context b)
    let changes = diff rolebinding.subject_ids (incoming_ids subjects) true
    if is_empty changes.0 && is_empty changes.1
        then pure rolebinding
        else apply_binding_update actor rb rolebinding (incoming_ids subjects) changes.0 changes.1

  unfoldable pub get_role_binding_resource : Resource → M b Resource
  get_role_binding_resource rb = do
    rb_from_db ← map_error binding_error (call (b.store_get_role_binding rb.id))
    lift (new_resource_from_id b.prefix e rb_from_db.resource_id)
