-- ===== src/Iapl/Valid/Index.antt =====
-- The index `rb` of internal/iapl/policy.go answers which actions are bound to a type.
use permissions_api.Base.{
  String, ◌≡◌, ◌↔◌, ◌⊎◌, true, List, [], ◌∷◌, foldl, arith, eq_iff, Option-cases, inl, inr,
}
use permissions_api.Dict.{Dict, lookup, insert, lookup-insert}
use permissions_api.Iapl.Document.{ActionBinding}
use permissions_api.Iapl.Policy.{add_binding}
use permissions_api.Iapl.Validate.{is_bound}
use permissions_api.Iapl.Valid.Spec.{Binds}

-- One more binding adds its own key to the index.
is_bound-add_binding :
    (rb : Dict (Dict (Unit {0}))) (b : ActionBinding) (t a : String)
    → (is_bound (add_binding rb b) t a ≡ true)
      ↔ (((b.action_name ≡ a) × (b.type_name ≡ t)) ⊎ (is_bound rb t a ≡ true))
unfolding is_bound add_binding lookup
is_bound-add_binding rb b t a = elim (Option-cases (lookup b.type_name rb)) [
  | inl missing ↦ ground (
    arith,
    lookup-insert {0} b.type_name t (insert b.action_name tt []) rb,
    lookup-insert {0} b.action_name a tt [],
    eq_iff b.type_name t,
    eq_iff b.action_name a,
  )
  | inr (d, found) ↦ ground (
    arith,
    lookup-insert {0} b.type_name t (insert b.action_name tt d) rb,
    lookup-insert {0} b.action_name a tt d,
    eq_iff b.type_name t,
    eq_iff b.action_name a,
  )
]

is_bound-foldl :
    (rb : Dict (Dict (Unit {0}))) (bn : List ActionBinding) (t a : String)
    → (is_bound (foldl add_binding rb bn) t a ≡ true) ↔ (Binds bn a t ⊎ (is_bound rb t a ≡ true))
is_bound-foldl rb [] t a = ground arith
is_bound-foldl rb (b ∷ bn) t a =
    ground (arith, is_bound-foldl (add_binding rb b) bn t a, is_bound-add_binding rb b t a)

-- The index that is built from the bindings answers that an action is bound to a type exactly if
-- one of the bindings binds it.
pub is_bound_iff :
    (bn : List ActionBinding) (t a : String)
    → (is_bound (foldl add_binding [] bn) t a ≡ true) ↔ Binds bn a t
unfolding is_bound lookup
is_bound_iff bn t a = ground (arith, is_bound-foldl [] bn t a)
