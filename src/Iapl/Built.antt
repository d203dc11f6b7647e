-- ===== src/Iapl/Built.antt =====
-- What `NewPolicy` of internal/iapl/policy.go establishes for every document: the keys of the
-- type map are distinct, and the index of the bindings is up to date.
use permissions_api.Base.{String, ◌≡◌, refl, Option, none, some, List, [], foldl, foldl_inv}
use permissions_api.Dict.{Dict, Runtime}
use permissions_api.Dict.Keys.{AreKeysDistinct, insert-AreKeysDistinct}
use permissions_api.Iapl.Document.{Rbac, ResourceType, PolicyDocument}
use permissions_api.Iapl.Policy.{
  Policy, index, create_v2_role_resource_type, create_role_binding_resource_type,
  expand_rbac_v2_relationship, expand_rbac_v2_relationships, add_binding, expand_action_bindings,
  expand_resource_type, expand_resource_types, expand_rbac, start, new_policy,
}

-- The index of the bindings is up to date.
abbrev pub IsIndexed : Policy → Type 0
IsIndexed v = v.rb ≡ foldl add_binding [] v.bn

expand_resource_types-IsIndexed :
    (g : Runtime) (v : Policy) → IsIndexed v → IsIndexed (expand_resource_types g v)
unfolding expand_resource_types expand_resource_type
expand_resource_types-IsIndexed g v h =
    foldl_inv IsIndexed expand_resource_type (λ s x i. i) (g.order ResourceType v.rt) v h

expand_action_bindings-IsIndexed : (v : Policy) → IsIndexed (expand_action_bindings v)
unfolding expand_action_bindings
expand_action_bindings-IsIndexed v = refl

pub new_policy-IsIndexed : (g : Runtime) (p : PolicyDocument) → IsIndexed (new_policy g p)
unfolding new_policy
new_policy-IsIndexed g p = expand_resource_types-IsIndexed g _ (expand_action_bindings-IsIndexed _)

index-AreKeysDistinct :
    {V : Type 0} (name : V → String) (d : Dict V) (xs : List V)
    → AreKeysDistinct d
    → AreKeysDistinct (index name d xs)
unfolding index
index-AreKeysDistinct name d xs h =
    foldl_inv AreKeysDistinct _ (λ e x i. insert-AreKeysDistinct (name x) x e i) xs d h

abbrev AreTypesDistinct : Policy → Type 0
AreTypesDistinct v = AreKeysDistinct v.rt

module _ (g : Runtime) where
  role_resource-AreTypesDistinct :
      (r : Rbac) (v : Policy)
      → AreTypesDistinct v
      → AreTypesDistinct (create_v2_role_resource_type g r v)
  unfolding create_v2_role_resource_type
  role_resource-AreTypesDistinct r v h = insert-AreKeysDistinct _ _ v.rt h

  role_binding_resource-AreTypesDistinct :
      (r : Rbac) (v : Policy)
      → AreTypesDistinct v
      → AreTypesDistinct (create_role_binding_resource_type g r v)
  unfolding create_role_binding_resource_type
  role_binding_resource-AreTypesDistinct r v h = insert-AreKeysDistinct _ _ v.rt h

  relationships-AreTypesDistinct :
      (r : Rbac) (v : Policy)
      → AreTypesDistinct v
      → AreTypesDistinct (expand_rbac_v2_relationships g r v)
  unfolding expand_rbac_v2_relationships expand_rbac_v2_relationship
  relationships-AreTypesDistinct r v h =
      foldl_inv AreTypesDistinct (expand_rbac_v2_relationship r)
        (λ s x i. insert-AreKeysDistinct x.0 _ s.rt i) (g.order ResourceType v.rt) v h

  expand_rbac-AreTypesDistinct :
      (r : Option Rbac) (v : Policy) → AreTypesDistinct v → AreTypesDistinct (expand_rbac g r v)
  unfolding expand_rbac
  expand_rbac-AreTypesDistinct none v h = h
  expand_rbac-AreTypesDistinct (some r) v h =
      relationships-AreTypesDistinct r _
        (role_binding_resource-AreTypesDistinct r _ (role_resource-AreTypesDistinct r _ h))

  expand_resource_types-AreTypesDistinct :
      (v : Policy) → AreTypesDistinct v → AreTypesDistinct (expand_resource_types g v)
  unfolding expand_resource_types expand_resource_type
  expand_resource_types-AreTypesDistinct v h =
      foldl_inv AreTypesDistinct expand_resource_type (λ s x i. insert-AreKeysDistinct x.0 _ s.rt i)
        (g.order ResourceType v.rt) v h

  -- The type map of the policy made of any document has distinct keys, whatever orders the maps are
  -- visited in.
  pub new_policy-AreKeysDistinct : (p : PolicyDocument) → AreKeysDistinct (new_policy g p).rt
  unfolding new_policy start expand_action_bindings
  new_policy-AreKeysDistinct p =
      expand_resource_types-AreTypesDistinct
        (expand_action_bindings (expand_rbac g p.rbac (start p)))
        (expand_rbac-AreTypesDistinct p.rbac (start p)
          (index-AreKeysDistinct ResourceType.name [] p.resource_types tt))
