-- ===== src/Tests/Engine.antt =====
-- The engine of internal/query at small inputs.
use permissions_api.Base.{
  inl, inr, inl, ◌≡◌, ◌≢◌, ◌↔◌, ◌⊎◌, refl, true, false, none, some, List, [], ◌∷◌, All, Exists,
  foldl,
}
use permissions_api.Types
use permissions_api.Types.{Resource}
use permissions_api.Query.Messages.{
  delete, invalid_namespace, invalid_relationship, ok, err, answer, touch, Relationship, Update,
  Filter, Consistency,
}
use permissions_api.Query.Engine.{
  cache_schema_resources, new_resource_from_id, actions_of, validate_relationship,
}
use permissions_api.Query.Diff.{without, diff, diff_lem, IsIn}
use permissions_api.Dict.{lookup, insert}
use permissions_api.Iapl.Rbac.{set_of}
use permissions_api.Query.Updates.{
  relationships_to_updates, relation_to_action, action_to_relation, cut_rel, begins_with_rel,
  rollbacks,
}
use permissions_api.Query.Monad.{State}
use permissions_api.Query.Roles.{delete_filters, actions_of_relationships}
use permissions_api.Query.Relations.{
  subject_has_permission, determine_consistency, create_relationships, remove_relationships,
  check_permission,
}
use permissions_api.Query.RoleBindings.{create_role_binding, is_role_bindable}
use permissions_api.Query.Names.{HoldsRel, relation_to_action-action_to_relation}
use permissions_api.Query.Rollback.{HoldsAfter, rollbacks_lem}
use permissions_api.Query.Permission.{
  IsFirst, IsAdmitted, request, subject_has_permission_iff, validate_relationship_iff,
}
use permissions_api.Query.Steps.{Leaves}
use permissions_api.Query.Transactions.{create_role_binding_closes}
use permissions_api.Query.Caches.{new_resource_from_id-cache_schema_resources}
use permissions_api.Query.Tokens.{answer_to, admitted}
use permissions_api.Query.Deletion.{role_rels, delete_filters_lem}
use permissions_api.Query.Requests.{refused}
use permissions_api.Tests.Inputs.{in_order}
use permissions_api.Tests.World.{
  tenant_type, calm, stuck, tenant_type, engine, tenant, user, role, subjects, at_rest, at_rest',
}

create_role_binding_closes_example :
    Leaves false (create_role_binding calm engine user tenant role "" subjects at_rest)
create_role_binding_closes_example =
    create_role_binding_closes calm engine user tenant role "" subjects at_rest refl

bindable : is_role_bindable stuck engine role tenant at_rest' ≡ (ok tt, at_rest')
unfolding is_role_bindable check_permission
bindable = refl

subject_has_permission_iff_example :
    (c : Consistency) × (s' : State calm) × (determine_consistency calm tenant at_rest ≡ (ok c, s'))
    × (((subject_has_permission calm engine user "view" tenant at_rest).0 ≡ ok tt) ↔ (
        Exists (λ a. Types.Action.name a ≡ "view") (actions_of engine "tenant")
        × ((calm.spice_check (request engine c user "view" tenant) s'.world).0 ≡ answer true)))
subject_has_permission_iff_example =
    subject_has_permission_iff calm engine user "view" tenant at_rest

abbrev to_user : Types.Relationship
to_user = record { resource = tenant; relation = "parent"; subject = user }

validate_relationship_iff_example :
    (validate_relationship engine to_user ≡ none) ↔ IsAdmitted engine to_user
validate_relationship_iff_example = validate_relationship_iff engine to_user

no_user : (t : Types.ResourceType) → ¬ IsFirst "user" (tenant_type ∷ []) t
no_user t (inl (p, q)) = cc
no_user t (inr (n, x)) = x

refused_example :
    (create_relationships calm engine in_order (to_user ∷ []) at_rest
      ≡ (err invalid_relationship, at_rest))
    × (remove_relationships calm engine in_order (to_user ∷ []) at_rest
        ≡ (err invalid_relationship, at_rest))
refused_example =
    refused calm engine in_order (to_user ∷ []) at_rest
      (λ ((t, found, _, _, _), _). no_user t found)

diff_lem_example :
    let (add, rem) = diff ("a" ∷ []) ("b" ∷ []) false in
    (IsIn "b" add ↔ (IsIn "b" ("b" ∷ []) × ¬ IsIn "b" ("a" ∷ [])))
    × (IsIn "b" rem ↔ (IsIn "b" ("a" ∷ []) × ¬ IsIn "b" ("b" ∷ [])))
    × (IsIn "b" ("b" ∷ []) ↔ (IsIn "b" add ⊎ (IsIn "b" ("a" ∷ []) × ¬ IsIn "b" rem)))
diff_lem_example = diff_lem ("a" ∷ []) ("b" ∷ []) false "b" refl

diff_swap : diff ("a" ∷ "b" ∷ []) ("b" ∷ "c" ∷ []) false ≡ ("c" ∷ [], "a" ∷ [])
unfolding diff without set_of lookup insert
diff_swap = refl

relation_to_action-action_to_relation_example :
    (relation_to_action (action_to_relation "view") ≡ some "view") ↔ ¬ HoldsRel "view"
relation_to_action-action_to_relation_example = relation_to_action-action_to_relation "view"

view_read : relation_to_action (action_to_relation "view") ≡ some "view"
unfolding relation_to_action action_to_relation cut_rel begins_with_rel
view_read = refl

-- An action whose name holds "_rel" is read back cut short.
truncated : relation_to_action (action_to_relation "loadbalancer_relabel") ≡ some "loadbalancer"
unfolding relation_to_action action_to_relation cut_rel begins_with_rel
truncated = refl

abbrev role_relationships_of : List Relationship
role_relationships_of = role_rels calm engine role tenant ("view" ∷ [])

delete_filters_lem_example :
    (actions_of_relationships role_relationships_of ≡ ok ("view" ∷ []))
    × All
        (λ f.
          All (λ rel. Filter.optional_relation f ≢ Relationship.relation rel) role_relationships_of)
        (delete_filters calm engine role tenant ("view" ∷ []))
delete_filters_lem_example =
    delete_filters_lem calm engine role tenant ("view" ∷ [])
      ((relation_to_action-action_to_relation "view").0 view_read, tt)

-- A store as the predicate of what it holds.
abbrev Held : Type 1
Held = Relationship → Type 0

abbrev write : Held → Update → Held
write s u r = HoldsAfter u.operation (r ≡ u.relationship) (s r)

abbrev parent : Relationship
parent = record {
  resource = record { object_type = "infra/tenant"; object_id = "tnntten-a" };
  relation = "parent";
  subject = record {
    object = record { object_type = "infra/tenant"; object_id = "tnntten-b" };
    optional_relation = "";
  };
}

abbrev written : List Update
written = record { operation = touch; relationship = parent } ∷ []

abbrev nothing : Held
nothing r = ⊥

rollbacks_lem_example :
    foldl write (foldl write nothing written) (rollbacks written) parent ↔ nothing parent
rollbacks_lem_example =
    rollbacks_lem Held (λ s r. s r) write (λ s u r. (λ x. x, λ x. x)) written nothing (λ x. x, tt)
      parent

new_resource_from_id-cache_schema_resources_example :
    ((new_resource_from_id (λ id. id) (cache_schema_resources engine) "tnntten"
        ≡ err invalid_namespace)
      × ¬ Exists (λ res. Types.ResourceType.id_prefix res ≡ "tnntten") engine.schema)
    ⊎ Exists
        (λ res.
          (Types.ResourceType.id_prefix res ≡ "tnntten")
          × (new_resource_from_id (λ id. id) (cache_schema_resources engine) "tnntten"
              ≡ ok (record { type = Types.ResourceType.name res; id = "tnntten" })))
        engine.schema
new_resource_from_id-cache_schema_resources_example =
    new_resource_from_id-cache_schema_resources (λ id. id) engine "tnntten"

abbrev to_parent : Types.Relationship
to_parent = record {
  resource = tenant;
  relation = "parent";
  subject = record { type = "tenant"; id = "tnntten-b" };
}

tenant_found : IsFirst "tenant" (tenant_type ∷ []) tenant_type
tenant_found = inl (refl, refl)

admitted_example :
    ((create_relationships calm engine in_order (to_parent ∷ []) at_rest).0
      ≡ answer_to calm
          (calm.spice_write (relationships_to_updates engine (to_parent ∷ []) touch) tt).0)
    × ((remove_relationships calm engine in_order (to_parent ∷ []) at_rest).0
        ≡ answer_to calm
            (calm.spice_write (relationships_to_updates engine (to_parent ∷ []) delete) tt).0)
admitted_example =
    admitted calm engine in_order (to_parent ∷ []) at_rest
      ((tenant_type, tenant_found, tenant_type, tenant_found, inl (refl, inl refl)), tt)
