-- ===== src/Iapl/Schema/Loop.antt =====
-- What the loop of `Schema` (internal/iapl/policy.go) over the bindings does to the entry of `n`.
use mathlib.Core.Option
use mathlib.Core.Option.{some-injective}
use mathlib.Core.Path.{subst, subst₃}
use permissions_api.Base.{
  String, ◌≡◌, refl, ◌∙◌, ap, sym, Bool, true, false, Option, none, some, List, [], ◌∷◌, ◌++◌, ◌==◌,
  fold_opt, >>=-eq-some, append-nil, fold_opt-cons, inl, inr, any, ◌&&◌, ◌||◌, when, when_append,
  when_nil, false-eq-and, and_or, eq-cases,
}
use permissions_api.Dict.{lookup}
use permissions_api.Types
use permissions_api.Iapl.Document.{ResourceRoleBindingV2, Condition, ActionBinding}
use permissions_api.Iapl.Policy.{Policy}
use permissions_api.Iapl.Schema.{
  SchemaState, update_type, record_condition, schema_binding, append_actions, out_action,
  role_binding_v2_of,
}
use permissions_api.Iapl.Schema.Spec.{
  condition_relationships, is_v2, relationships_for, actions_for, uses_role_bindings,
}
use permissions_api.Iapl.Schema.Effect.{
  grow, grow_nil, grow-grow, append_actions_grows, offer, offer-offer, record_condition_grows,
  record_condition_offers,
}

-- The entry of `n` grows by the relations and actions, and its role-binding actions are offered.
abbrev pub Changes :
    String
    → Option ResourceRoleBindingV2
    → List Types.ResourceTypeRelationship
    → List Types.Action
    → Bool
    → SchemaState
    → SchemaState
    → Type 0
Changes n rbv2 rels actions used st st' =
    (lookup n st'.type_map ≡ Option.map (grow rels actions) (lookup n st.type_map))
    × (lookup n st'.rbv2_actions ≡ offer rbv2 used (lookup n st.rbv2_actions))

changes_trans :
    (n : String) (rbv2 : Option ResourceRoleBindingV2) (r r' : List Types.ResourceTypeRelationship)
    (a a' : List Types.Action) (u u' : Bool) (st st' st'' : SchemaState)
    → Changes n rbv2 r a u st st'
    → Changes n rbv2 r' a' u' st' st''
    → Changes n rbv2 (r ++ r') (a ++ a') (u || u') st st''
changes_trans n rbv2 r r' a a' u u' st st' st'' (t, o) (t', o') = (
  t' ∙ (ap (Option.map (grow r' a')) t ∙ grow-grow r r' a a' (lookup n st.type_map)),
  o' ∙ (ap (offer rbv2 u') o ∙ offer-offer rbv2 u u' (lookup n st.rbv2_actions)),
)

or_false : (b : Bool) → (b || false) ≡ b
or_false true = refl
or_false false = refl

offer-false :
    (rbv2 : Option ResourceRoleBindingV2) (o : Option (List Types.Action)) → o ≡ offer rbv2 false o
offer-false none o = refl
offer-false (some r) o = refl

changes_refl :
    (n : String) (rbv2 : Option ResourceRoleBindingV2) (st : SchemaState)
    → Changes n rbv2 [] [] false st st
changes_refl n none st = (grow_nil (lookup n st.type_map), refl)
changes_refl n (some r) st = (grow_nil (lookup n st.type_map), refl)

module _ (n : String) (rbv2 : Option ResourceRoleBindingV2) (st st' : SchemaState) where
  changes_cast :
      {r r' : List Types.ResourceTypeRelationship} {a a' : List Types.Action} {u u' : Bool}
      → r ≡ r'
      → a ≡ a'
      → u ≡ u'
      → Changes n rbv2 r a u st st'
      → Changes n rbv2 r' a' u' st st'
  changes_cast e f g h = subst₃ (λ r a u. Changes n rbv2 r a u st st') e f g h

  changes_none :
      {r : List Types.ResourceTypeRelationship} {a : List Types.Action} {u : Bool}
      → [] ≡ r
      → [] ≡ a
      → false ≡ u
      → some st ≡ some st'
      → Changes n rbv2 r a u st st'
  changes_none e f g h =
      changes_cast e f g
        (subst (Changes n rbv2 [] [] false st) (some-injective st st' h) (changes_refl n rbv2 st))

module _ (n : String) where
  conditions_change :
      (b : ActionBinding) (rbv2 : Option ResourceRoleBindingV2) (cs : List Condition)
      (st st' : SchemaState)
      → fold_opt (record_condition b rbv2) cs st ≡ some st'
      → Changes n rbv2
          (when (b.type_name == n) (condition_relationships b.action_name cs))
          []
          (b.type_name == n && any is_v2 cs)
          st
          st'
  unfolding condition_relationships any fold_opt
  conditions_change b rbv2 [] st st' h =
      changes_none n rbv2 st st' (when_nil (b.type_name == n)) refl
        (false-eq-and (b.type_name == n)) h
  conditions_change b rbv2 (c ∷ cs) st st' h =
      let (s1, first, rest) = fold_opt-cons (record_condition b rbv2) c cs st st' h in
      changes_cast n rbv2 st st' (when_append (b.type_name == n) _ _) refl
        (and_or (b.type_name == n) (is_v2 c) (any is_v2 cs))
        (changes_trans n rbv2 _ _ _ _ _ _ st s1 st'
          (
            record_condition_grows b rbv2 n c st s1 first,
            record_condition_offers b rbv2 n c st s1 first,
          )
          (conditions_change b rbv2 cs s1 st' rest))

  -- One round of the loop, with the role bindings of the type that it is about.
  round_change :
      (v : Policy) (b : ActionBinding) (st st' : SchemaState)
      → schema_binding v b st ≡ some st'
      → let rbv2 = role_binding_v2_of v b.type_name in
        Changes n rbv2
          (when (b.type_name == n) (condition_relationships b.action_name b.conditions))
          (when (b.type_name == n) (out_action b rbv2 ∷ []))
          (b.type_name == n && any is_v2 b.conditions)
          st
          st'
  unfolding schema_binding
  round_change v b st st' h =
      let rbv2 = role_binding_v2_of v b.type_name in
      let (s1, looped, h1) = >>=-eq-some (fold_opt (record_condition b rbv2) b.conditions st) _ h in
      let (types, updated, h2) =
        >>=-eq-some (update_type b.type_name (append_actions (out_action b rbv2 ∷ [])) s1.type_map)
          _ h1 in
      let s2 : SchemaState = record s1 { type_map = types } in
      let grown =
        append_actions_grows b.type_name n (out_action b rbv2 ∷ []) s1.type_map types updated in
      subst (Changes n rbv2 _ _ _ st) (some-injective s2 st' h2) (
        changes_cast n rbv2 st s2
          (when_append (b.type_name == n) _ [] ∙ ap (when (b.type_name == n)) (append-nil _)) refl
          (or_false _)
          (changes_trans n rbv2 _ _ _ _ _ _ st s1 s2
            (conditions_change b rbv2 b.conditions st s1 looped)
            (grown, offer-false rbv2 (lookup n s1.rbv2_actions))))

  -- The same, with the role bindings of `n`, which differ only where nothing changes.
  binding_change :
      (v : Policy) (b : ActionBinding) (st st' : SchemaState)
      → schema_binding v b st ≡ some st'
      → let rbv2 = role_binding_v2_of v n in
        Changes n rbv2
          (when (b.type_name == n) (condition_relationships b.action_name b.conditions))
          (when (b.type_name == n) (out_action b rbv2 ∷ []))
          (b.type_name == n && any is_v2 b.conditions)
          st
          st'
  binding_change v b st st' h = elim (eq-cases b.type_name n) [
    | inl (same, test) ↦
        subst
          (λ t.
            Changes n (role_binding_v2_of v t)
              (when (b.type_name == n) (condition_relationships b.action_name b.conditions))
              (when (b.type_name == n) (out_action b (role_binding_v2_of v t) ∷ []))
              (b.type_name == n && any is_v2 b.conditions) st st')
          same (round_change v b st st' h)
    | inr (other, test) ↦
        let (grown, offered) = round_change v b st st' h in
        let kept = (rw test at offered) ∙ sym (offer-false (role_binding_v2_of v b.type_name) _) in
        (rw test (rw test at grown), rw test (kept ∙ offer-false (role_binding_v2_of v n) _))
  ]

  -- The whole loop: what the specification says of `n`.
  pub bindings_change :
      (v : Policy) (bn : List ActionBinding) (st st' : SchemaState)
      → fold_opt (schema_binding v) bn st ≡ some st'
      → let rbv2 = role_binding_v2_of v n in
        Changes n rbv2
          (relationships_for n bn)
          (actions_for rbv2 n bn)
          (uses_role_bindings n bn)
          st
          st'
  unfolding relationships_for actions_for uses_role_bindings any fold_opt
  bindings_change v [] st st' h = changes_none n (role_binding_v2_of v n) st st' refl refl refl h
  bindings_change v (b ∷ bn) st st' h =
      let (s1, first, rest) = fold_opt-cons (schema_binding v) b bn st st' h in
      changes_trans n (role_binding_v2_of v n) _ _ _ _ _ _ st s1 st'
        (binding_change v b st s1 first) (bindings_change v bn s1 st' rest)
