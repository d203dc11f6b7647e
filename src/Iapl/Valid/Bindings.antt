-- ===== src/Iapl/Valid/Bindings.antt =====
-- Action bindings are accepted exactly if they are valid and distinct (internal/iapl/policy.go).
-- The index `rb` must be that of the bindings, as `expandActionBindings` leaves it.
use permissions_api.Base.{
  String, ◌≡◌, ◌↔◌, true, none, some, List, [], ◌∷◌, arith, All, Exists, eq_iff, first_error_iff,
  ◌==◌, any, any_iff, ◌&&◌, fail_if, not, Option-cases, eq-cases, inl, inr, sym,
}
use mathlib.Core.Path.{subst}
use mathlib.Core.Option.{some-injective}
use permissions_api.Dict.{lookup}
use permissions_api.Types.{TargetType, ConditionRelationshipAction}
use permissions_api.Iapl.Document.{
  Relationship, ResourceType, ActionBinding, Condition, unknown_action,
}
use permissions_api.Iapl.Policy.{Policy}
use permissions_api.Iapl.Built.{IsIndexed}
use permissions_api.Iapl.Validate.{
  find_by_relation, is_bound, validate_condition_relationship_action, num_clauses,
  validate_condition, validate_conditions, validate_action_binding, validate_bindings_from,
  validate_action_bindings,
}
use permissions_api.Iapl.Valid.Spec.{
  Binds, LeadsToAction, FirstNamed, IsValidStep, IsValidCondition, IsValidBinding, Differs,
  AreDistinct,
}
use permissions_api.Iapl.Valid.Index.{is_bound_iff}

-- The relationship that is found is the first of the name.
found_iff :
    (name : String) (P : Relationship → Type 0) (rel : Relationship) (rels : List Relationship)
    → find_by_relation name rels ≡ some rel
    → FirstNamed name P rels ↔ P rel
unfolding find_by_relation
found_iff name P rel [] h = cc
found_iff name P rel (r ∷ rels) h = elim (eq-cases name r.relation) [
  | inl (e, test) ↦
      let same = some-injective r rel (rw test at h) in
      (
        λ f. subst P same (elim f [ inl k ↦ k.1 | inr k ↦ absurd (k.0 e) ]),
        λ p. inl (e, subst P (sym same) p),
      )
  | inr (ne, test) ↦
      let later = found_iff name P rel rels (rw test at h) in
      (λ f. elim f [ inl k ↦ absurd (ne k.0) | inr k ↦ later.0 k.1 ], λ p. inr (ne, later.1 p))
]

-- If none is found, no relationship has the name.
not_found :
    (name : String) (P : Relationship → Type 0) (rels : List Relationship)
    → find_by_relation name rels ≡ none
    → ¬ FirstNamed name P rels
unfolding find_by_relation
not_found name P [] h f = f
not_found name P (r ∷ rels) h (inl k) = cc ((eq_iff name r.relation).1 k.0)
not_found name P (r ∷ rels) h (inr k) = elim (eq-cases name r.relation) [
  | inl (e, test) ↦ absurd (k.0 e)
  | inr (ne, test) ↦ not_found name P rels (rw test at h) k.1
]

-- A binding's key is among those seen.
abbrev IsSeen : List (String × String) → ActionBinding → Type 0
IsSeen seen b = Exists (λ k. (k.0 ≡ b.action_name) × (k.1 ≡ b.type_name)) seen

IsSeen-cons_iff :
    (seen : List (String × String)) (b : ActionBinding) (bs : List ActionBinding)
    → All (λ c. ¬ IsSeen ((b.action_name, b.type_name) ∷ seen) c) bs
      ↔ (All (Differs b) bs × All (λ c. ¬ IsSeen seen c) bs)
IsSeen-cons_iff seen b [] = ground arith
IsSeen-cons_iff seen b (c ∷ bs) = ground (arith, IsSeen-cons_iff seen b bs)

IsSeen-iff :
    (seen : List (String × String)) (b : ActionBinding)
    → (any (λ k. k.0 == b.action_name && k.1 == b.type_name) seen ≡ true) ↔ IsSeen seen b
IsSeen-iff seen b =
    any_iff _ _ (λ k. ground (arith, eq_iff k.0 b.action_name, eq_iff k.1 b.type_name)) seen

module _ (v : Policy) (indexed : IsIndexed v) where
  target_iff :
      (action : String) (t : TargetType)
      → (fail_if (not (is_bound v.rb t.name action)) unknown_action ≡ none)
        ↔ Binds v.bn action t.name
  target_iff action t = rw indexed (ground (arith, is_bound_iff v.bn t.name action))

  step_iff :
      (rt : ResourceType) (c : ConditionRelationshipAction)
      → (validate_condition_relationship_action v rt c ≡ none) ↔ IsValidStep v rt c
  unfolding validate_condition_relationship_action
  step_iff rt c = elim (Option-cases (find_by_relation c.relation rt.relationships)) [
    | inl missing ↦
        ground
          (arith, not_found c.relation (LeadsToAction v c.action_name) rt.relationships missing)
    | inr (rel, found) ↦ ground (
      arith,
      eq_iff c.action_name "",
      found_iff c.relation (LeadsToAction v c.action_name) rel rt.relationships found,
      first_error_iff _ _ (target_iff c.action_name) rel.target_types,
    )
  ]

  condition_iff :
      (rt : ResourceType) (c : Condition)
      → (validate_condition v rt c ≡ none) ↔ IsValidCondition v rt c
  unfolding validate_condition num_clauses
  condition_iff rt c = elim (Option-cases c.relationship_action) [
    | inl none_set ↦ ground arith
    | inr (a, set) ↦ ground (arith, step_iff rt a)
  ]

  binding_iff :
      (seen : List (String × String)) (b : ActionBinding)
      → (validate_action_binding v seen b ≡ none) ↔ (IsValidBinding v b × ¬ IsSeen seen b)
  unfolding validate_action_binding validate_conditions
  binding_iff seen b = elim (Option-cases (lookup b.type_name v.rt)) [
    | inl missing ↦
        ground (arith, eq_iff b.action_name "", eq_iff b.type_name "", IsSeen-iff seen b)
    | inr (rt, found) ↦ ground (
      arith,
      eq_iff b.action_name "",
      eq_iff b.type_name "",
      IsSeen-iff seen b,
      first_error_iff _ _ (condition_iff rt) b.conditions,
    )
  ]

  bindings_from_iff :
      (seen : List (String × String)) (bs : List ActionBinding)
      → (validate_bindings_from v seen bs ≡ none)
        ↔ (All (IsValidBinding v) bs × AreDistinct bs × All (λ b. ¬ IsSeen seen b) bs)
  unfolding validate_bindings_from
  bindings_from_iff seen [] = ground arith
  bindings_from_iff seen (b ∷ bs) = ground (
    arith,
    binding_iff seen b,
    bindings_from_iff ((b.action_name, b.type_name) ∷ seen) bs,
    IsSeen-cons_iff seen b bs,
  )

  none-IsSeen : (bs : List ActionBinding) → All (λ b. ¬ IsSeen [] b) bs
  none-IsSeen [] = tt
  none-IsSeen (b ∷ bs) = (λ h. h, none-IsSeen bs)

  pub action_bindings_iff :
      (validate_action_bindings v ≡ none) ↔ (All (IsValidBinding v) v.bn × AreDistinct v.bn)
  unfolding validate_action_bindings
  action_bindings_iff = ground (arith, bindings_from_iff [] v.bn, none-IsSeen v.bn)
