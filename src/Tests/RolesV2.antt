-- ===== src/Tests/RolesV2.antt =====
-- v2 roles and lists of role bindings (internal/query) at small inputs.
use mathlib.Core.List.{flat_map}
use permissions_api.Base.{
  String, ◌≡◌, ◌≢◌, refl, eq_iff, arith, false, none, some, List, [], ◌∷◌, map,
}
use permissions_api.Dict.{lookup}
use permissions_api.Types
use permissions_api.Types.{Resource, Role}
use permissions_api.Query.Messages.{touch, ok, answer, Relationship, StorageRole, Update}
use permissions_api.Query.Engine.{Engine, new_resource_from_id, get_resource_type}
use permissions_api.Query.Updates.{
  namespaced, relation_to_action, action_to_relation, cut_rel, begins_with_rel,
  resource_to_spicedb_ref,
}
use permissions_api.Query.Monad.{
  Backend, State, Event, began, committed, removed, wrote, begin_context, commit_context,
  rollback_context, delete_relationships, write_relationships,
}
use permissions_api.Query.Roles.{
  role_of, get_storage_role, lock_role_for_update, new_resource, actions_of_relationships,
}
use permissions_api.Query.RolesV2.{
  create_role_v2, delete_role_v2, erase_role_v2, role_as_subject, role_as_resource, update_role_v2,
  get_role_v2, list_role_v2_actions,
}
use permissions_api.Query.RolesV2.Relations.{action_update, action_updates, role_v2_relationships}
use permissions_api.Query.RolesV2.Closing.{create_role_v2_closes}
use permissions_api.Query.RolesV2.Deletion.{with_role, of_role, delete_role_v2-eq-ok}
use permissions_api.Query.RolesV2.NoActions.{stripped, update_role_v2_no_actions}
use permissions_api.Query.RolesV2.RoundTrip.{
  of_subject_type, actions_of_relationships-role_v2_relationships,
}
use permissions_api.Query.Names.{relation_to_action-action_to_relation}
use permissions_api.Query.Steps.{Leaves}
use permissions_api.Query.BindingLists.{list_role_bindings, list_manager_role_bindings}
use permissions_api.Query.BindingFilters
use permissions_api.Query.BindingFilters.{on_ok, list_manager_role_bindings_lem}
use permissions_api.Tests.World.{
  calm, engine, tenant_type, tenant, user, role, at_rest, stored_role,
}

-- An engine that has a type of roles.
abbrev role_type : Types.ResourceType
role_type = record { name = "rolev2"; id_prefix = "permrbn-a"; relationships = []; actions = [] }

abbrev role_engine : Engine
role_engine = record engine {
  schema_prefix_map = ("permrbn-a", role_type) ∷ ("tnntten-a", tenant_type) ∷ [];
  schema_type_map = ("rolev2", role_type) ∷ ("tenant", tenant_type) ∷ [];
}

create_role_v2_closes_example :
    Leaves false (create_role_v2 calm role_engine user tenant "" "viewers" ("view" ∷ []) at_rest)
create_role_v2_closes_example =
    create_role_v2_closes calm role_engine user tenant "" "viewers" ("view" ∷ []) at_rest refl

abbrev deleted : State calm
deleted = record {
  world = tt;
  log =
      committed
      ∷ removed (role_as_subject calm role_engine "tenant" "" "permrv2-a")
      ∷ removed (role_as_resource calm role_engine "permrv2-a")
      ∷ began
      ∷ [];
}

deletes : delete_role_v2 calm role_engine role at_rest ≡ (ok tt, deleted)
unfolding delete_role_v2 begin_context lock_role_for_update get_storage_role new_resource
    new_resource_from_id lookup erase_role_v2 delete_relationships commit_context rollback_context
deletes = refl

delete_role_v2-eq-ok_example :
    ((calm.begin_tx tt).0 ≡ answer tt)
    × ((calm.store_lock_role "permrv2-a" tt).0 ≡ answer tt)
    × ((calm.spice_read (with_role calm role_engine "role_binding" "role" "permrv2-a") tt).0
        ≡ answer [])
    × ((gone : StorageRole) × ((calm.store_delete_role "permrv2-a" tt).0 ≡ answer gone))
    × (row : StorageRole) × (owner : Resource) × ((calm.store_get_role_by_id "permrv2-a" tt).0
        ≡ answer row)
    × (new_resource_from_id calm.prefix role_engine row.resource_id ≡ ok owner)
    × (deleted.log
        ≡ committed
          ∷ removed (with_role calm role_engine owner.type "" "permrv2-a")
          ∷ removed (of_role calm role_engine "permrv2-a")
          ∷ began
          ∷ [])
delete_role_v2-eq-ok_example = delete_role_v2-eq-ok calm role_engine role at_rest deleted deletes

abbrev bound_to : Relationship
bound_to = record {
  resource = record { object_type = "infra/role_binding"; object_id = "permrbn-b" };
  relation = "role";
  subject = record {
    object = record { object_type = "infra/rolev2"; object_id = "permrv2-a" };
    optional_relation = "";
  };
}

-- A SpiceDB in which a binding has the role.
abbrev used : Backend
used = record calm { spice_read = λ f w. (answer (bound_to ∷ []), w) }

abbrev at_start : State used
at_start = record { world = tt; log = [] }

abbrev begun : State used
begun = record { world = tt; log = began ∷ [] }

begins : begin_context used at_start ≡ (ok tt, begun)
unfolding begin_context
begins = refl

locks : lock_role_for_update used role_engine role begun ≡ (ok tt, begun)
unfolding lock_role_for_update
locks = refl

-- A SpiceDB in which the role has an action.
abbrev viewing : Relationship
viewing = Update.relationship (
    action_update role_engine "view"
      (record { object_type = "infra/rolev2"; object_id = "permrv2-a" }) touch "user")

abbrev with_view : Backend
with_view = record calm { spice_read = λ f w. (answer (viewing ∷ []), w) }

abbrev state : List Event → State with_view
state log = record { world = tt; log = log }

abbrev viewers : Role
viewers = role_of stored_role ("view" ∷ [])

gets :
    get_role_v2 with_view role_engine role (state (began ∷ [])) ≡ (ok viewers, state (began ∷ []))
unfolding get_role_v2 list_role_v2_actions actions_of_relationships get_storage_role
    relation_to_action action_to_relation cut_rel begins_with_rel
gets = refl

begins' : begin_context with_view (state []) ≡ (ok tt, state (began ∷ []))
unfolding begin_context
begins' = refl

locks' :
    lock_role_for_update with_view role_engine role (state (began ∷ []))
    ≡ (ok tt, state (began ∷ []))
unfolding lock_role_for_update
locks' = refl

writes :
    write_relationships with_view [] (state (began ∷ []))
    ≡ (ok "token", state (wrote [] ∷ began ∷ []))
unfolding write_relationships
writes = refl

commits :
    commit_context with_view (state (wrote [] ∷ began ∷ []))
    ≡ (ok tt, state (committed ∷ wrote [] ∷ began ∷ []))
unfolding commit_context
commits = refl

renamed : ◌≢◌ {A = String} "readers" "viewers"
renamed p = let q = (eq_iff "readers" "viewers").1 p in ground arith

-- The role has an action, and the answer has none.
update_role_v2_no_actions_example :
    update_role_v2 with_view role_engine user role "readers" [] (state []) ≡ (
      ok (stripped with_view role_engine user role "readers" viewers stored_role),
      state (committed ∷ wrote [] ∷ began ∷ []),
    )
update_role_v2_no_actions_example =
    update_role_v2_no_actions with_view role_engine user role "readers" viewers (state [])
      (state (began ∷ [])) (state (began ∷ [])) (state (began ∷ [])) (state (began ∷ []))
      (state (wrote [] ∷ began ∷ [])) (state (committed ∷ wrote [] ∷ began ∷ [])) stored_role
      "token" begins' locks' gets (λ p. cc) renamed refl writes commits

abbrev role_updates : List Update
role_updates =
    action_update role_engine "view"
      (record { object_type = "infra/rolev2"; object_id = "permrbn-a" }) touch "user"
    ∷ []

view_read : relation_to_action (action_to_relation "view") ≡ some "view"
unfolding relation_to_action action_to_relation cut_rel begins_with_rel
view_read = refl

updates_written :
    role_v2_relationships (λ id. id) role_engine "permrbn-a" ("view" ∷ []) ≡ ok role_updates
unfolding role_v2_relationships new_resource_from_id get_resource_type lookup flat_map
    action_updates resource_to_spicedb_ref
updates_written = refl

actions_of_relationships-role_v2_relationships_example :
    actions_of_relationships
      (of_subject_type (namespaced role_engine "user") (map Update.relationship role_updates))
    ≡ ok ("view" ∷ [])
actions_of_relationships-role_v2_relationships_example =
    actions_of_relationships-role_v2_relationships (λ id. id) role_engine "permrbn-a" "user" []
      ("view" ∷ []) role_updates refl tt
      ((relation_to_action-action_to_relation "view").0 view_read, tt) updates_written

list_manager_role_bindings_lem_example :
    list_manager_role_bindings used role_engine "other" tenant none at_start
    ≡ on_ok
        (BindingFilters.of_manager "other")
        (list_role_bindings used role_engine tenant none at_start)
list_manager_role_bindings_lem_example =
    list_manager_role_bindings_lem used role_engine "other" none tenant at_start
