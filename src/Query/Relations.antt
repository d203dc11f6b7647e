-- ===== src/Query/Relations.antt =====
-- The operations on relationships and permissions of internal/query/relations.go, with the tokens
-- of internal/query/zedtokens.go. `order` is the order in which the runtime visits a set.
use permissions_api.Base.{
  String, Option, none, some, List, [], ◌∷◌, foldl, first_error, ◌==◌, if◌then◌else◌,
}
use permissions_api.Dict.{Dict, Runtime}
use permissions_api.Types
use permissions_api.Types.{Resource}
use permissions_api.Iapl.Rbac.{add_name}
use permissions_api.Query.Messages.{
  Error, Outcome, ok, err, panic, action_not_assigned, invalid_relationship, Operation, touch,
  delete, Update, Relationship, Consistency, minimize_latency, at_least_as_fresh, CheckRequest,
}
use permissions_api.Query.Engine.{
  Engine, validate_relationship, validate_resource_actions, new_resource_from_id,
}
use permissions_api.Query.Updates.{
  role_subject_relation, namespaced, resource_to_spicedb_ref, relationships_to_updates, rollbacks,
  subject_role_rel_create, subject_role_rel_delete,
}
use permissions_api.Query.Monad.{
  Backend, State, M, replied, pure, ◌>>=◌, ◌>>◌, lift, check, call, on_error, begin_context,
  commit_context, rollback_context, write_relationships, delete_relationships,
}

-- A set of identifiers: the resource and the subject of each relationship.
abbrev pub add_ids : Dict (Unit {0}) → Types.Relationship → Dict (Unit {0})
add_ids d rel = add_name (add_name d rel.resource.id) rel.subject.id

module _ (b : Backend) where
  unfoldable pub upsert_zed_token : String → String → M b (Unit {0})
  upsert_zed_token resource_id token = do
    id ← lift (replied (b.parse_id resource_id))
    call (b.store_upsert_zed_token id token)

  unfoldable pub upsert_all : List (String × Unit {0}) → String → M b (Unit {0})
  upsert_all [] token = pure tt
  upsert_all ((id, _) ∷ ids) token = upsert_zed_token id token >> upsert_all ids token

  -- Errors are only logged.
  abbrev pub ignored : Outcome (Unit {0}) × State b → Outcome (Unit {0}) × State b
  ignored (r, s) = elim r [ ok _ ↦ (ok tt, s) | err _ ↦ (ok tt, s) | panic ↦ (panic, s) ]

  abbrev pub ignore_errors : M b (Unit {0}) → M b (Unit {0})
  ignore_errors m s = ignored (m s)

  unfoldable pub update_relationship_zed_tokens :
      Runtime → List Types.Relationship → String → M b (Unit {0})
  unfolding upsert_all begin_context commit_context rollback_context
  update_relationship_zed_tokens g rels token =
      let ids = g.order (Unit {0}) (foldl add_ids [] rels) in
      ignore_errors (do
        begin_context b
        on_error (upsert_all ids token) (rollback_context b)
        on_error (commit_context b) (rollback_context b))

  -- A missing or failing token means the fastest answer.
  unfoldable pub determine_consistency : Resource → M b Consistency
  determine_consistency resource s =
      let (r, s') = call (b.store_latest_zed_token resource.id) s in
      elim r [
        | ok token ↦ (ok (if token == "" then minimize_latency else at_least_as_fresh token), s')
        | err _ ↦ (ok minimize_latency, s')
        | panic ↦ (panic, s')
      ]

  unfoldable pub check_permission : CheckRequest → M b (Unit {0})
  check_permission req = do
    granted ← call (b.spice_check req)
    check (if granted then none else some action_not_assigned)

  unfoldable pub upsert_resources : List Update → String → M b (Unit {0})
  upsert_resources [] token = pure tt
  upsert_resources (u ∷ us) token =
      upsert_zed_token u.relationship.resource.object_id token >> upsert_resources us token

  unfoldable pub apply_updates : List Update → M b (Unit {0})
  unfolding write_relationships
  apply_updates updates = do token ← write_relationships b updates; upsert_resources updates token

  unfoldable pub rollback_updates : List Update → M b (Unit {0})
  unfolding write_relationships
  rollback_updates updates = do write_relationships b (rollbacks updates); pure tt

module _ (b : Backend) (e : Engine) where
  unfoldable pub subject_has_permission : Resource → String → Resource → M b (Unit {0})
  unfolding determine_consistency check_permission
  subject_has_permission subject action resource = do
    consistency ← determine_consistency b resource
    check (validate_resource_actions e resource (action ∷ []))
    check_permission b (record {
      consistency = consistency;
      resource = resource_to_spicedb_ref e resource;
      permission = action;
      subject = resource_to_spicedb_ref e subject;
    })

  unfoldable pub assign_subject_role : Resource → Types.Role → M b (Unit {0})
  unfolding write_relationships
  assign_subject_role subject role = do
    write_relationships b (subject_role_rel_create e subject role.id ∷ [])
    pure tt

  unfoldable pub unassign_subject_role : Resource → Types.Role → M b (Unit {0})
  unfolding delete_relationships
  unassign_subject_role subject role =
      delete_relationships b (subject_role_rel_delete e subject role.id)

  -- Parsed identifiers as resources, up to the first that fails.
  unfoldable pub subjects_of : List Relationship → M b (List Resource)
  subjects_of [] = pure []
  subjects_of (rel ∷ rels) = do
    id ← lift (replied (b.parse_id rel.subject.object.object_id))
    res ← lift (new_resource_from_id b.prefix e id)
    out ← subjects_of rels
    pure (res ∷ out)

  unfoldable pub list_assignments : Types.Role → M b (List Resource)
  list_assignments role = do
    relationships ← call (
        b.spice_read (record {
          resource_type = namespaced e "role";
          optional_resource_id = role.id;
          optional_relation = role_subject_relation;
          optional_subject_filter = none;
        }))
    subjects_of relationships

  -- Whether any relationship of a request is invalid.
  abbrev pub invalid_among : List Types.Relationship → Option Error
  invalid_among rels = elim (first_error (validate_relationship e) rels) [
    | none ↦ none
    | some _ ↦ some invalid_relationship
  ]

  -- The write of the updates and of the token that it gives.
  unfoldable pub write_updates : Runtime → Operation → List Types.Relationship → M b (Unit {0})
  unfolding write_relationships update_relationship_zed_tokens
  write_updates g op rels = do
    token ← write_relationships b (relationships_to_updates e rels op)
    update_relationship_zed_tokens b g rels token

  unfoldable pub create_relationships : Runtime → List Types.Relationship → M b (Unit {0})
  create_relationships g rels = check (invalid_among rels) >> write_updates g touch rels

  unfoldable pub remove_relationships : Runtime → List Types.Relationship → M b (Unit {0})
  remove_relationships g rels = check (invalid_among rels) >> write_updates g delete rels

  unfoldable pub delete_resource_relationships : Resource → M b (Unit {0})
  unfolding delete_relationships
  delete_resource_relationships resource = delete_relationships b (record {
    resource_type = namespaced e resource.type;
    optional_resource_id = resource.id;
    optional_relation = "";
    optional_subject_filter = none;
  })
