-- ===== src/Query/Deletion.antt =====
-- Which relationships `DeleteRole` of internal/query/relations.go asks SpiceDB to delete.
use permissions_api.Base.{String, ◌≡◌, ◌≢◌, refl, some, List, [], ◌∷◌, map, All}
use permissions_api.Types.{Resource}
use permissions_api.Query.Messages.{touch, ok, Update, Relationship, Filter}
use permissions_api.Query.Engine.{Engine}
use permissions_api.Query.Updates.{
  role_update, resource_to_spicedb_ref, role_relationships, action_to_relation, relation_to_action,
}
use permissions_api.Query.Monad.{Backend}
use permissions_api.Query.Names.{HoldsRel, relation_to_action-action_to_relation}
use permissions_api.Query.Roles.{delete_filters, actions_of_relationships}

actions-cons :
    (rel : Relationship) (rels : List Relationship) {a : String} {actions : List String}
    → relation_to_action rel.relation ≡ some a
    → actions_of_relationships rels ≡ ok actions
    → actions_of_relationships (rel ∷ rels) ≡ ok (a ∷ actions)
unfolding actions_of_relationships
actions-cons rel rels h k = rw (h, k, actions_of_relationships) refl

module _ (b : Backend) (e : Engine) (role_resource owner : Resource) where
  -- The relationships that give a role its actions.
  abbrev pub role_rels : List String → List Relationship
  role_rels actions = map Update.relationship (role_relationships e role_resource actions owner)

  actions_read :
      (actions : List String)
      → All (λ a. ¬ HoldsRel a) actions
      → actions_of_relationships (role_rels actions) ≡ ok actions
  unfolding actions_of_relationships role_relationships
  actions_read [] h = refl
  actions_read (a ∷ actions) (h, hs) =
      actions-cons
        (Update.relationship (
          role_update (resource_to_spicedb_ref e owner) (resource_to_spicedb_ref e role_resource)
            touch a))
        (role_rels actions) ((relation_to_action-action_to_relation a).1 h)
        (actions_read actions hs)

  misses :
      (x : String)
      → ¬ HoldsRel x
      → (actions : List String) → All (λ rel. x ≢ Relationship.relation rel) (role_rels actions)
  unfolding role_relationships action_to_relation
  misses x h [] = tt
  misses x h (a ∷ actions) = (λ p. h (a, "", p), misses x h actions)

  filters_miss :
      (actions all : List String)
      → All (λ a. ¬ HoldsRel a) actions
      → All
          (λ f. All (λ rel. Filter.optional_relation f ≢ Relationship.relation rel) (role_rels all))
          (delete_filters b e role_resource owner actions)
  unfolding delete_filters
  filters_miss [] all h = tt
  filters_miss (a ∷ actions) all (h, hs) = (misses a h all, filters_miss actions all hs)

  -- If no action's name holds "_rel", the engine reads back from the relationships of a role the
  -- actions that it wrote, and each of the filters by which it deletes the role names a relation
  -- that none of them has.
  pub delete_filters_lem :
      (actions : List String)
      → All (λ a. ¬ HoldsRel a) actions
      → (actions_of_relationships (role_rels actions) ≡ ok actions)
        × All
            (λ f.
              All
                (λ rel. Filter.optional_relation f ≢ Relationship.relation rel)
                (role_rels actions))
            (delete_filters b e role_resource owner actions)
  delete_filters_lem actions h = (actions_read actions h, filters_miss actions actions h)
