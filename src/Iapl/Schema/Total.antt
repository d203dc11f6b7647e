-- ===== src/Iapl/Schema/Total.antt =====
-- `Schema` of internal/iapl/policy.go never follows a missing pointer for a policy whose bindings
-- are all of declared types, and gives each type what the specification says.
use mathlib.Core.Option
use mathlib.Core.Option.{some-injective}
use permissions_api.Base.{
  String, ◌≡◌, ◌≢◌, Option, none, some, List, [], ◌∷◌, arith, fold_opt, fold_opt_total,
  Option-cases, inl, inr, All, All-const,
}
use permissions_api.Dict.{Dict, lookup}
use permissions_api.Dict.Keys.{AreKeysDistinct, insert-AreKeysDistinct}
use permissions_api.Types
use permissions_api.Iapl.Document.{ResourceRoleBindingV2, Condition, ActionBinding}
use permissions_api.Iapl.Rbac.{create_role_binding_actions_for_resource}
use permissions_api.Iapl.Policy.{Policy}
use permissions_api.Iapl.Schema.{
  SchemaState, update_type, record_condition, schema_binding, append_actions, append_relationship,
  role_binding_relationship, out_action, role_binding_v2_of, add_rbv2_actions,
}
use permissions_api.Iapl.Schema.Effect.{
  append_actions_grows, update_type-some, record_condition_grows,
}

-- Every declared type has an entry.
abbrev pub HasTypes : Policy → Dict Types.ResourceType → Type 0
HasTypes v types = (n : String) → lookup n v.rt ≢ none → lookup n types ≢ none

map-ne-none :
    (f : Types.ResourceType → Types.ResourceType) (o o' : Option Types.ResourceType)
    → o' ≡ Option.map f o
    → o ≢ none
    → o' ≢ none
map-ne-none f o o' e h = ground arith

-- The state in the loop: entries for the declared types, and distinct keys in both maps.
pub record IsSound (v : Policy) (st : SchemaState) : Type 0 where
  pub has_types : HasTypes v st.type_map
  pub distinct_types : AreKeysDistinct st.type_map
  pub distinct : AreKeysDistinct st.rbv2_actions

update_type-AreKeysDistinct :
    (name : String) (f : Types.ResourceType → Types.ResourceType)
    (types types' : Dict Types.ResourceType)
    → update_type name f types ≡ some types'
    → AreKeysDistinct types
    → AreKeysDistinct types'
unfolding update_type
update_type-AreKeysDistinct name f types types' e h = elim (Option-cases (lookup name types)) [
  | inl missing ↦ ground arith
  | inr (t, found) ↦ ground (arith, insert-AreKeysDistinct name (f t) types h)
]

module _ (b : ActionBinding) (rbv2 : Option ResourceRoleBindingV2) (c : Condition) where
  record_condition-ne-none :
      (st : SchemaState)
      → lookup b.type_name st.type_map ≢ none
      → record_condition b rbv2 c st ≢ none
  unfolding record_condition update_type
  record_condition-ne-none st h = ground arith

  record_condition-AreKeysDistinct :
      (st st' : SchemaState)
      → record_condition b rbv2 c st ≡ some st'
      → AreKeysDistinct st.rbv2_actions
      → AreKeysDistinct st'.rbv2_actions
  unfolding record_condition update_type
  record_condition-AreKeysDistinct st st' e h = elim (Option-cases rbv2) [
    | inl no_v2 ↦ ground arith
    | inr (r, v2) ↦ ground (
      arith,
      insert-AreKeysDistinct b.type_name
          (create_role_binding_actions_for_resource r.inherit_permissions_from) st.rbv2_actions h,
    )
  ]

  record_condition-types_distinct :
      (st st' : SchemaState)
      → record_condition b rbv2 c st ≡ some st'
      → AreKeysDistinct st.type_map
      → AreKeysDistinct st'.type_map
  unfolding record_condition
  record_condition-types_distinct st st' e h =
      let grown = append_relationship (role_binding_relationship b.action_name) in
      elim (Option-cases (update_type b.type_name grown st.type_map)) [
        | inl panics ↦ ground arith
        | inr (types, found) ↦
            ground (arith, update_type-AreKeysDistinct b.type_name grown st.type_map types found h)
      ]

module _ (v : Policy) where
  record_condition_total :
      (b : ActionBinding) (rbv2 : Option ResourceRoleBindingV2) (c : Condition) (st : SchemaState)
      → lookup b.type_name v.rt ≢ none
      → IsSound v st
      → (st' : SchemaState) × (record_condition b rbv2 c st ≡ some st') × IsSound v st'
  record_condition_total b rbv2 c st declared h =
      elim (Option-cases (record_condition b rbv2 c st)) [
        | inl panics ↦
            absurd (record_condition-ne-none b rbv2 c st (h.has_types b.type_name declared) panics)
        | inr (st', e) ↦ (
          st',
          e,
          record {
            has_types = λ n d.
                map-ne-none _ (lookup n st.type_map) (lookup n st'.type_map)
                  (record_condition_grows b rbv2 n c st st' e) (h.has_types n d);
            distinct_types = record_condition-types_distinct b rbv2 c st st' e h.distinct_types;
            distinct = record_condition-AreKeysDistinct b rbv2 c st st' e h.distinct;
          },
        )
      ]

  update_type_total :
      (name : String) (actions : List Types.Action) (types : Dict Types.ResourceType)
      → lookup name v.rt ≢ none
      → HasTypes v types
      → (types' : Dict Types.ResourceType) × (update_type name (append_actions actions) types
          ≡ some types')
        × HasTypes v types'
  update_type_total name actions types declared h =
      let (types', e) = update_type-some name (append_actions actions) types (h name declared) in
      (
        types',
        e,
        λ n d.
            map-ne-none _ (lookup n types) (lookup n types')
              (append_actions_grows name n actions types types' e) (h n d),
      )

  pub schema_binding_total :
      (b : ActionBinding) (st : SchemaState)
      → lookup b.type_name v.rt ≢ none
      → IsSound v st
      → (st' : SchemaState) × (schema_binding v b st ≡ some st') × IsSound v st'
  unfolding schema_binding
  schema_binding_total b st declared h =
      let rbv2 = role_binding_v2_of v b.type_name in
      let (s1, e1, h1) =
        fold_opt_total (record_condition b rbv2) (IsSound v) (λ c. lookup b.type_name v.rt ≢ none)
          (λ c s d i. record_condition_total b rbv2 c s d i) b.conditions st
          (All-const b.conditions declared) h in
      let (types, e2, h2) =
        update_type_total b.type_name (out_action b rbv2 ∷ []) s1.type_map declared h1.has_types in
      (
        record s1 { type_map = types },
        rw (e1, e2),
        record {
          has_types = h2;
          distinct_types = update_type-AreKeysDistinct _ _ _ types e2 h1.distinct_types;
          distinct = h1.distinct;
        },
      )

  -- The last loop does not panic where all its keys are declared types.
  pub add_rbv2_actions_total :
      (es : Dict (List Types.Action)) (types : Dict Types.ResourceType)
      → All (λ e. lookup e.0 v.rt ≢ none) es
      → HasTypes v types
      → AreKeysDistinct types
      → (types' : Dict Types.ResourceType) × (fold_opt add_rbv2_actions es types ≡ some types')
        × (HasTypes v types' × AreKeysDistinct types')
  unfolding add_rbv2_actions
  add_rbv2_actions_total es types declared h distinct =
      fold_opt_total add_rbv2_actions (λ s. HasTypes v s × AreKeysDistinct s)
        (λ e. lookup e.0 v.rt ≢ none)
        (λ e s d i.
          let (s', updated, has_types) = update_type_total e.0 e.1 s d i.0 in
          (s', updated, (has_types, update_type-AreKeysDistinct _ _ s s' updated i.1)))
        es types declared (h, distinct)
