-- ===== src/Iapl/Validate.antt =====
-- `Validate` of internal/iapl/policy.go. `none` is Go's nil error; an error keeps its sentinel and
-- leaves out the text that wraps it. `prefix_ok` says for which prefixes `gidx.NewID` succeeds.
use permissions_api.Base.{
  ℕ, ◌+◌, String, Bool, true, false, not, ◌&&◌, Option, none, some, List, [], ◌∷◌, ◌==◌, any,
  first_error, is_some, ◌or_else◌, fail_if, if◌then◌else◌,
}
use Prim.Native.Nat.{compare, Ordering}
use permissions_api.Dict.{Dict, lookup, has, Runtime}
use permissions_api.Types.{TargetType, ConditionRelationshipAction}
use permissions_api.Iapl.Document.{
  Error, type_exists, action_binding_exists, unknown_type, invalid_condition, unknown_relation,
  unknown_action, bad_prefix, Relationship, ResourceType, Union, Condition, ActionBinding, Rbac,
}
use permissions_api.Iapl.Policy.{Policy}

abbrev ne : String → String → Bool
ne s t = not (s == t)

-- `v.findRelationship`
unfoldable pub find_relationship : List Relationship → String → Bool
find_relationship rels name = any (λ rel. rel.relation == name) rels

-- `v.findActionBinding`
unfoldable pub find_action_binding : Policy → String → String → Bool
find_action_binding v action_name type_name =
    any (λ bn. bn.action_name == action_name && bn.type_name == type_name) v.bn

-- `v.rt[name].Relationships`, which is empty if there is no such type
abbrev pub relationships_of : Policy → String → List Relationship
relationships_of v name = elim (lookup name v.rt) [ none ↦ [] | some rt ↦ rt.relationships ]

unfoldable pub validate_union_member : Policy → TargetType → Option Error
validate_union_member v rt = fail_if (not (has rt.name v.rt)) unknown_type

unfoldable pub validate_union : Policy → Union → Option Error
validate_union v u =
    fail_if (has u.name v.rt) type_exists
    or_else first_error (validate_union_member v) u.resource_types

unfoldable pub validate_unions : Policy → Option Error
validate_unions v = first_error (validate_union v) v.p.unions

unfoldable pub validate_target_type : Policy → TargetType → Option Error
validate_target_type v t =
    fail_if (not (has t.name v.rt)) unknown_type
    or_else fail_if
        (ne t.subject_relation ""
          && not (find_relationship (relationships_of v t.name) t.subject_relation)
          && not (find_action_binding v t.subject_relation t.name))
        unknown_relation

unfoldable pub validate_relationship : Policy → Relationship → Option Error
validate_relationship v rel = first_error (validate_target_type v) rel.target_types

unfoldable pub validate_resource_type :
    (String → Bool) → Policy → String × ResourceType → Option Error
validate_resource_type prefix_ok v (_, rt) =
    fail_if (not (prefix_ok rt.id_prefix)) bad_prefix
    or_else first_error (validate_relationship v) rt.relationships

unfoldable pub validate_resource_types : Runtime → (String → Bool) → Policy → Option Error
validate_resource_types g prefix_ok v =
    first_error (validate_resource_type prefix_ok v) (g.order ResourceType v.rt)

-- The loop that finds the first relationship with a name.
unfoldable pub find_by_relation : String → List Relationship → Option Relationship
find_by_relation name [] = none
find_by_relation name (rel ∷ rels) =
    if name == rel.relation then some rel else find_by_relation name rels

-- `_, ok := v.rb[typeName][actionName]`
unfoldable pub is_bound : Dict (Dict (Unit {0})) → String → String → Bool
is_bound rb type_name action_name = elim (lookup type_name rb) [
  | none ↦ false
  | some b ↦ has action_name b
]

unfoldable pub validate_condition_relationship_action :
    Policy → ResourceType → ConditionRelationshipAction → Option Error
validate_condition_relationship_action v rt c =
    elim (find_by_relation c.relation rt.relationships) [
      | none ↦ some unknown_relation
      | some rel ↦
          if c.action_name == ""
          then none
          else first_error (λ t. fail_if (not (is_bound v.rb t.name c.action_name)) unknown_action)
              rel.target_types
    ]

abbrev one_if : Bool → ℕ
one_if b = if b then 1 else 0

abbrev is_one : ℕ → Bool
is_one n = elim (compare n 1) [ Ordering.eq ↦ true | _ ↦ false ]

-- `numClauses`
unfoldable pub num_clauses : Condition → ℕ
num_clauses c =
    one_if c.role_binding + one_if c.role_binding_v2 + one_if (is_some c.relationship_action)

unfoldable pub validate_condition : Policy → ResourceType → Condition → Option Error
validate_condition v rt c =
    fail_if (not (is_one (num_clauses c))) invalid_condition or_else (elim c.relationship_action [
      | none ↦ none
      | some a ↦ validate_condition_relationship_action v rt a
    ])

unfoldable pub validate_conditions : Policy → ResourceType → List Condition → Option Error
validate_conditions v rt conds = first_error (validate_condition v rt) conds

-- The checks of one binding, given the keys of the bindings before it.
unfoldable pub validate_action_binding :
    Policy → List (String × String) → ActionBinding → Option Error
validate_action_binding v seen b =
    fail_if (b.action_name == "") unknown_action
    or_else fail_if (b.type_name == "") unknown_type
    or_else fail_if (any (λ k. k.0 == b.action_name && k.1 == b.type_name) seen)
        action_binding_exists
    or_else fail_if (not (has b.action_name v.ac)) unknown_action
    or_else (elim (lookup b.type_name v.rt) [
      | none ↦ some unknown_type
      | some rt ↦ validate_conditions v rt b.conditions
    ])

-- The loop of `validateActionBindings`; `seen` is `bindingMap`.
unfoldable pub validate_bindings_from :
    Policy → List (String × String) → List ActionBinding → Option Error
validate_bindings_from v seen [] = none
validate_bindings_from v seen (b ∷ bs) =
    validate_action_binding v seen b
    or_else validate_bindings_from v ((b.action_name, b.type_name) ∷ seen) bs

unfoldable pub validate_action_bindings : Policy → Option Error
validate_action_bindings v = validate_bindings_from v [] v.bn

abbrev pub role_owners_of : Option Rbac → List String
role_owners_of none = []
role_owners_of (some r) = r.role_owners

unfoldable pub validate_roles : Policy → Option Error
validate_roles v =
    first_error (λ owner. fail_if (not (has owner v.rt)) unknown_type) (role_owners_of v.p.rbac)

unfoldable pub validate : Runtime → (String → Bool) → Policy → Option Error
validate g prefix_ok v =
    validate_unions v
    or_else validate_resource_types g prefix_ok v
    or_else validate_action_bindings v
    or_else validate_roles v
