-- ===== src/Iapl/Schema/Effect.antt =====
-- What each step of `Schema` (internal/iapl/policy.go) does to the entry of a type `n`.
use mathlib.Core.Option
use mathlib.Core.Path.{subst}
use permissions_api.Base.{
  String, ◌≡◌, refl, ◌≢◌, ap, sym, Bool, Option, none, some, List, [], ◌∷◌, ◌++◌, ◌==◌, eq_iff,
  arith, append-nil, append_assoc, if◌then◌else◌, when, Bool-cases, Option-cases, inl, inr, ◌||◌,
  ◌&&◌,
}
use permissions_api.Dict.{Dict, lookup, insert, lookup-insert}
use permissions_api.Types
use permissions_api.Iapl.Document.{ResourceRoleBindingV2, Condition, ActionBinding}
use permissions_api.Iapl.Rbac.{create_role_binding_actions_for_resource}
use permissions_api.Iapl.Schema.{
  SchemaState, update_type, record_condition, role_binding_relationship, append_relationship,
  append_actions,
}
use permissions_api.Iapl.Schema.Spec.{is_v2}

abbrev pub grow :
    List Types.ResourceTypeRelationship
    → List Types.Action
    → Types.ResourceType
    → Types.ResourceType
grow rels actions t = record t {
  relationships = t.relationships ++ rels;
  actions = t.actions ++ actions;
}

pub grow_nil : (o : Option Types.ResourceType) → o ≡ Option.map (grow [] []) o
grow_nil none = refl
grow_nil (some t) = ap some λ i. record t {
  relationships = sym (append-nil t.relationships) i;
  actions = sym (append-nil t.actions) i;
}

pub grow-grow :
    (r r' : List Types.ResourceTypeRelationship) (a a' : List Types.Action)
    (o : Option Types.ResourceType)
    → Option.map (grow r' a') (Option.map (grow r a) o) ≡ Option.map (grow (r ++ r') (a ++ a')) o
grow-grow r r' a a' none = refl
grow-grow r r' a a' (some t) = ap some λ i. record t {
  relationships = append_assoc t.relationships r r' i;
  actions = append_assoc t.actions a a' i;
}

append_relationship_lem :
    (rel : Types.ResourceTypeRelationship) → append_relationship rel ≡ grow (rel ∷ []) []
append_relationship_lem rel = λ i t. record t {
  relationships = t.relationships ++ rel ∷ [];
  actions = sym (append-nil t.actions) i;
}

append_actions_lem : (actions : List Types.Action) → append_actions actions ≡ grow [] actions
append_actions_lem actions = λ i t. record t {
  relationships = sym (append-nil t.relationships) i;
  actions = t.actions ++ actions;
}

module _ (name n : String) (r : List Types.ResourceTypeRelationship) (a : List Types.Action) where
  -- A write through the pointer of `name` lets that entry grow, and no other.
  update_type_grows :
      (types types' : Dict Types.ResourceType)
      → update_type name (grow r a) types ≡ some types'
      → lookup n types'
        ≡ Option.map (grow (when (name == n) r) (when (name == n) a)) (lookup n types)
  unfolding update_type
  update_type_grows types types' h = elim (Option-cases (lookup name types)) [
    | inl missing ↦ ground arith
    | inr (t, found) ↦
        ground
          (arith, lookup-insert name n (grow r a t) types, eq_iff name n, grow_nil (lookup n types))
  ]

pub append_relationship_grows :
    (name n : String) (rel : Types.ResourceTypeRelationship)
    (types types' : Dict Types.ResourceType)
    → update_type name (append_relationship rel) types ≡ some types'
    → lookup n types'
      ≡ Option.map (grow (when (name == n) (rel ∷ [])) (when (name == n) [])) (lookup n types)
append_relationship_grows name n rel types types' h =
    update_type_grows name n (rel ∷ []) [] types types'
      (subst (λ f. update_type name f types ≡ some types') (append_relationship_lem rel) h)

pub append_actions_grows :
    (name n : String) (actions : List Types.Action) (types types' : Dict Types.ResourceType)
    → update_type name (append_actions actions) types ≡ some types'
    → lookup n types'
      ≡ Option.map (grow (when (name == n) []) (when (name == n) actions)) (lookup n types)
append_actions_grows name n actions types types' h =
    update_type_grows name n [] actions types types'
      (subst (λ f. update_type name f types ≡ some types') (append_actions_lem actions) h)

pub update_type-some :
    (name : String) (f : Types.ResourceType → Types.ResourceType) (types : Dict Types.ResourceType)
    → lookup name types ≢ none
    → (types' : Dict Types.ResourceType) × (update_type name f types ≡ some types')
unfolding update_type
update_type-some name f types h = elim (Option-cases (lookup name types)) [
  | inl missing ↦ absurd (h missing)
  | inr (t, found) ↦ (insert name (f t) types, rw found)
]

-- What the code remembers for a type: the actions on role bindings, once the type has used them.
abbrev pub offer :
    Option ResourceRoleBindingV2 → Bool → Option (List Types.Action) → Option (List Types.Action)
offer none used o = o
offer (some r) used o =
    if used
    then some
        (Option.get_or o (create_role_binding_actions_for_resource r.inherit_permissions_from))
    else o

pub offer-offer :
    (rbv2 : Option ResourceRoleBindingV2) (u u' : Bool) (o : Option (List Types.Action))
    → offer rbv2 u' (offer rbv2 u o) ≡ offer rbv2 (u || u') o
offer-offer none u u' o = refl
offer-offer (some r) u u' o = ground arith

module _ (b : ActionBinding) (rbv2 : Option ResourceRoleBindingV2) (n : String) where
  -- What one condition of a binding does to the entry of `n`.
  pub record_condition_grows :
      (c : Condition) (st st' : SchemaState)
      → record_condition b rbv2 c st ≡ some st'
      → lookup n st'.type_map
        ≡ Option.map
            (grow
              (when
                (b.type_name == n)
                (when c.role_binding (role_binding_relationship b.action_name ∷ [])))
              [])
            (lookup n st.type_map)
  unfolding record_condition
  record_condition_grows c st st' h =
      let rel = role_binding_relationship b.action_name in
      elim (Bool-cases c.role_binding) [
        | inl v1 ↦
            elim (Option-cases (update_type b.type_name (append_relationship rel) st.type_map)) [
              | inl panics ↦ ground arith
              | inr (types, found) ↦
                  ground
                    (arith, append_relationship_grows b.type_name n rel st.type_map types found)
            ]
        | inr other ↦ ground (arith, grow_nil (lookup n st.type_map))
      ]

  pub record_condition_offers :
      (c : Condition) (st st' : SchemaState)
      → record_condition b rbv2 c st ≡ some st'
      → lookup n st'.rbv2_actions
        ≡ offer rbv2 (b.type_name == n && is_v2 c) (lookup n st.rbv2_actions)
  unfolding record_condition
  record_condition_offers c st st' h = elim (Option-cases rbv2) [
    | inl no_v2 ↦ ground arith
    | inr (r, v2) ↦ ground (
      arith,
      eq_iff b.type_name n,
      lookup-insert {0} b.type_name n
          (create_role_binding_actions_for_resource r.inherit_permissions_from) st.rbv2_actions,
    )
  ]
