-- ===== src/Iapl/Expand.antt =====
-- What the expansions of unions in internal/iapl/policy.go give: `expandActionBindings` and the
-- targets of `expandResourceTypes`.
use mathlib.Core.Path.{subst}
use permissions_api.Base.{
  refl, sym, ap, ◌∙◌, foldl_inv, true, Option, ◌==◌, if◌then◌else◌, String, ◌≡◌, ◌↔◌, ◌⊎◌, inl, inr,
  none, some, List, [], ◌∷◌, ◌++◌, map, arith, Exists, Option-cases, foldl_iff, Exists-append,
}
use permissions_api.Dict.{Dict, Runtime, lookup, insert, lookup-insert}
use permissions_api.Types.{TargetType}
use permissions_api.Iapl.Document.{Union, ActionBinding, ResourceType, PolicyDocument}
use permissions_api.Iapl.Policy.{
  Policy, index, new_policy, start, expand_rbac, expand_resource_types, expand_resource_type,
  expand_action_binding, expand_action_bindings, expand_target_types,
}
use permissions_api.Iapl.Valid.Spec.{Binds}
use permissions_api.Iapl.Valid.Index.{is_bound_iff}
use permissions_api.Iapl.Validate.{is_bound}
use permissions_api.Iapl.Built.{new_policy-IsIndexed}

-- For itself, or for the members of a union.
abbrev pub Stands : Option Union → String → String → Type 0
Stands none name t = name ≡ t
Stands (some u) name t = Exists (λ x. x.name ≡ t) u.resource_types

-- A name stands for itself, or for the members of the union of that name if there is one.
abbrev pub StandsFor : Dict Union → String → String → Type 0
StandsFor un name t = Stands (lookup name un) name t

members_iff :
    (b : ActionBinding) (a t : String) (ts : List TargetType)
    → Binds (map (λ x. record b { type_name = TargetType.name x }) ts) a t
      ↔ ((b.action_name ≡ a) × Exists (λ x. x.name ≡ t) ts)
members_iff b a t [] = ground arith
members_iff b a t (x ∷ ts) = ground (arith, members_iff b a t ts)

binding_iff :
    (un : Dict Union) (b : ActionBinding) (a t : String)
    → Binds (expand_action_binding un b) a t ↔ ((b.action_name ≡ a) × StandsFor un b.type_name t)
unfolding expand_action_binding
binding_iff un b a t = elim (Option-cases (lookup b.type_name un)) [
  | inl n ↦ rw (n, expand_action_binding, StandsFor) (ground arith)
  | inr (u, p) ↦ rw (p, expand_action_binding, StandsFor) (members_iff b a t u.resource_types)
]

round_iff :
    (un : Dict Union) (a t : String) (bn : List ActionBinding) (b : ActionBinding)
    → Binds (bn ++ expand_action_binding un b) a t
      ↔ (Binds bn a t ⊎ ((b.action_name ≡ a) × StandsFor un b.type_name t))
round_iff un a t bn b = ground (
  arith,
  Exists-append (λ b. (b.action_name ≡ a) × (b.type_name ≡ t)) bn (expand_action_binding un b),
  binding_iff un b a t,
)

-- After the expansion an action is bound to a type exactly if it was before, or a binding of the
-- document binds it to a name that stands for the type.
pub expand_action_bindings_iff :
    (v : Policy) (a t : String)
    → Binds (expand_action_bindings v).bn a t ↔ (
        Binds v.bn a t
        ⊎ Exists (λ b. (b.action_name ≡ a) × StandsFor v.un b.type_name t) v.p.action_bindings)
unfolding expand_action_bindings
expand_action_bindings_iff v a t =
    foldl_iff (λ bn. Binds bn a t) (λ b. (b.action_name ≡ a) × StandsFor v.un b.type_name t)
      (λ bn b. bn ++ expand_action_binding v.un b) (round_iff v.un a t) v.bn v.p.action_bindings

-- The expanded targets of a relation name a type exactly if one of the targets has a name that
-- stands for it.
pub expand_target_types_iff :
    (un : Dict Union) (targets : List TargetType) (t : String)
    → Exists (λ x. x.name ≡ t) (expand_target_types un targets)
      ↔ Exists (λ x. StandsFor un (TargetType.name x) t) targets
unfolding expand_target_types
expand_target_types_iff un [] t = ground arith
expand_target_types_iff un (x ∷ targets) t = elim (Option-cases (lookup x.name un)) [
  | inl n ↦
      rw (n, expand_target_types, StandsFor) (ground (arith, expand_target_types_iff un targets t))
  | inr (u, p) ↦
      rw (p, expand_target_types, StandsFor)
        (ground (
          arith,
          expand_target_types_iff un targets t,
          Exists-append (λ x. TargetType.name x ≡ t) u.resource_types
              (expand_target_types un targets),
        ))
]

-- The last union of the name, if there is one.
abbrev pub last_named : String → List Union → Option Union
last_named name [] = none
last_named name (u ∷ us) = elim (last_named name us) [
  | some w ↦ some w
  | none ↦ if u.name == name then some u else none
]

-- In a document with these unions, a name stands for itself, or for the members of the last union of
-- that name if there is one.
abbrev pub Means : List Union → String → String → Type 0
Means us name t = Stands (last_named name us) name t

lookup-index :
    (name : String) (us : List Union) (d : Dict Union)
    → lookup name (index Union.name d us)
      ≡ (elim (last_named name us) [ some w ↦ some w | none ↦ lookup name d ])
unfolding index
lookup-index name [] d = refl
lookup-index name (u ∷ us) d =
    ground (arith, lookup-index name us (insert u.name u d), lookup-insert u.name name u d)

or_none : (o : Option Union) → (elim o [ some w ↦ some w | none ↦ none ]) ≡ o
or_none none = refl
or_none (some u) = refl

StandsFor-index :
    (us : List Union) (name t : String)
    → StandsFor (index Union.name [] us) name t ≡ Means us name t
unfolding lookup
StandsFor-index us name t =
    ap (λ o. Stands o name t) (lookup-index name us [] ∙ or_none (last_named name us))

start-Binds :
    (p : PolicyDocument) (a t : String)
    → Binds (expand_action_bindings (start p)).bn a t
      ↔ Exists (λ b. (b.action_name ≡ a) × Means p.unions b.type_name t) p.action_bindings
unfolding start
start-Binds p a t =
    subst
      (λ (M : String → Type 0).
        Binds (expand_action_bindings (start p)).bn a t
        ↔ Exists (λ b. (b.action_name ≡ a) × M b.type_name) p.action_bindings)
      (λ i name. StandsFor-index p.unions name t i)
      (let q = expand_action_bindings_iff (start p) a t in
        (λ x. elim (q.0 x) [ inl n ↦ absurd n | inr y ↦ y ], λ y. q.1 (inr y)))

module _ (g : Runtime) where
  expand_resource_types-bn : (v : Policy) → (expand_resource_types g v).bn ≡ v.bn
  unfolding expand_resource_types expand_resource_type
  expand_resource_types-bn v =
      foldl_inv (λ w. w.bn ≡ v.bn) expand_resource_type (λ s x i. i) (g.order ResourceType v.rt) v
        refl

  new_policy-bn :
      (p : PolicyDocument)
      → p.rbac ≡ none
      → (new_policy g p).bn ≡ (expand_action_bindings (start p)).bn
  unfolding new_policy expand_rbac
  new_policy-bn p e = expand_resource_types-bn _ ∙ rw e refl

  -- In the policy made of a document without RBAC, an action is bound to a type exactly if one of the
  -- document's bindings binds it to a name that stands for the type: to the type itself, if no union
  -- has its name, or to a union whose last definition has the type as a member. The index of the
  -- policy answers so.
  pub new_policy-Binds :
      (p : PolicyDocument) (a t : String)
      → p.rbac ≡ none
      → let bound =
          Exists (λ b. (b.action_name ≡ a) × Means p.unions b.type_name t) p.action_bindings in
        (Binds (new_policy g p).bn a t ↔ bound)
        × ((is_bound (new_policy g p).rb t a ≡ true) ↔ bound)
  new_policy-Binds p a t e =
      let bound =
        Exists (λ b. (b.action_name ≡ a) × Means p.unions b.type_name t) p.action_bindings in
      let binds =
        subst (λ bn. Binds bn a t ↔ bound) (sym (new_policy-bn p e)) (start-Binds p a t) in
      let indexed =
        subst (λ rb. (is_bound rb t a ≡ true) ↔ Binds (new_policy g p).bn a t)
          (sym (new_policy-IsIndexed g p)) (is_bound_iff (new_policy g p).bn t a) in
      (binds, (λ x. binds.0 (indexed.0 x), λ y. indexed.1 (binds.1 y)))
