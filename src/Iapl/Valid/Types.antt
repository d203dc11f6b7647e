-- ===== src/Iapl/Valid/Types.antt =====
-- Unions, resource types and role owners are accepted exactly if they are valid
-- (internal/iapl/policy.go).
use permissions_api.Base.{
  String, ◌≡◌, ◌↔◌, Bool, true, none, List, arith, All, All-perm, any_iff, eq_iff, first_error_iff,
}
use mathlib.Core.List.Permᴰ
use permissions_api.Dict.{Runtime}
use permissions_api.Types.{TargetType}
use permissions_api.Iapl.Document.{Relationship, ResourceType, Union}
use permissions_api.Iapl.Policy.{Policy}
use permissions_api.Iapl.Validate.{
  find_relationship, find_action_binding, relationships_of, validate_union_member, validate_union,
  validate_unions, validate_target_type, validate_relationship, validate_resource_type,
  validate_resource_types, validate_roles, role_owners_of,
}
use permissions_api.Iapl.Valid.Spec.{
  Declares, IsValidUnion, HasRelation, Binds, IsValidTarget, IsValidRelationship,
  IsValidResourceType,
}

pub find_relationship_iff :
    (rels : List Relationship) (name : String)
    → (find_relationship rels name ≡ true) ↔ HasRelation rels name
unfolding find_relationship
find_relationship_iff rels name = any_iff _ _ (λ rel. eq_iff rel.relation name) rels

pub find_action_binding_iff :
    (v : Policy) (action_name type_name : String)
    → (find_action_binding v action_name type_name ≡ true) ↔ Binds v.bn action_name type_name
unfolding find_action_binding
find_action_binding_iff v action_name type_name =
    any_iff _ _
      (λ b. ground (arith, eq_iff b.action_name action_name, eq_iff b.type_name type_name)) v.bn

module _ (v : Policy) where
  union_member_iff : (t : TargetType) → (validate_union_member v t ≡ none) ↔ Declares v t.name
  unfolding validate_union_member
  union_member_iff t = ground arith

  union_iff : (u : Union) → (validate_union v u ≡ none) ↔ IsValidUnion v u
  unfolding validate_union
  union_iff u = ground (arith, first_error_iff _ _ union_member_iff u.resource_types)

  pub unions_iff : (validate_unions v ≡ none) ↔ All (IsValidUnion v) v.p.unions
  unfolding validate_unions
  unions_iff = first_error_iff _ _ union_iff v.p.unions

  target_type_iff : (t : TargetType) → (validate_target_type v t ≡ none) ↔ IsValidTarget v t
  unfolding validate_target_type
  target_type_iff t = ground (
    arith,
    eq_iff t.subject_relation "",
    find_relationship_iff (relationships_of v t.name) t.subject_relation,
    find_action_binding_iff v t.subject_relation t.name,
  )

  relationship_iff :
      (rel : Relationship) → (validate_relationship v rel ≡ none) ↔ IsValidRelationship v rel
  unfolding validate_relationship
  relationship_iff rel = first_error_iff _ _ target_type_iff rel.target_types

  resource_type_iff :
      (prefix_ok : String → Bool) (e : String × ResourceType)
      → (validate_resource_type prefix_ok v e ≡ none) ↔ IsValidResourceType prefix_ok v e
  unfolding validate_resource_type
  resource_type_iff prefix_ok (name, rt) =
      ground (arith, first_error_iff _ _ relationship_iff rt.relationships)

  -- The order in which the types are visited does not matter.
  pub resource_types_iff :
      (g : Runtime) (prefix_ok : String → Bool)
      → (validate_resource_types g prefix_ok v ≡ none) ↔ All (IsValidResourceType prefix_ok v) v.rt
  unfolding validate_resource_types
  resource_types_iff g prefix_ok =
      let each = first_error_iff _ _ (resource_type_iff prefix_ok) (g.order ResourceType v.rt) in
      let visits = g.visits ResourceType v.rt in
      (λ ok. All-perm _ (Permᴰ.symm visits) (each.0 ok), λ valid. each.1 (All-perm _ visits valid))

  pub roles_iff : (validate_roles v ≡ none) ↔ All (Declares v) (role_owners_of v.p.rbac)
  unfolding validate_roles
  roles_iff = first_error_iff _ _ (λ (owner : String). ground arith) (role_owners_of v.p.rbac)
