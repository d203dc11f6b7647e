-- ===== src/Iapl/Schema/Maps.antt =====
-- The loops of `Schema` (internal/iapl/policy.go) over whole maps: the first, which makes an entry
-- for each type, and the last, which adds the actions on role bindings.
use mathlib.Core.Option
use mathlib.Core.Option.{some-injective}
use mathlib.Core.Path.{subst}
use permissions_api.Base.{
  String, ◌≡◌, refl, ◌∙◌, ap, sym, ◌≢◌, Option, none, some, List, [], ◌∷◌, foldl, foldl_inv, arith,
  fold_opt, fold_opt-cons, eq-cases, inl, inr, All, eq_refl,
}
use permissions_api.Dict.{Dict, lookup, insert, lookup-insert, lookup-insert_ne, Runtime}
use permissions_api.Dict.Keys.{AreKeysDistinct, insert-AreKeysDistinct, order-IsReordering}
use permissions_api.Types
use permissions_api.Iapl.Document.{ResourceType}
use permissions_api.Iapl.Schema.{out_type, out_entry, add_rbv2_actions}
use permissions_api.Iapl.Schema.Effect.{grow, grow_nil, append_actions_grows}

-- The last loop lets each entry grow by what was remembered for it.
pub add_rbv2_actions-grow :
    (n : String) (es : Dict (List Types.Action)) (types types' : Dict Types.ResourceType)
    → AreKeysDistinct es
    → fold_opt add_rbv2_actions es types ≡ some types'
    → lookup n types' ≡ Option.map (grow [] (Option.get_or (lookup n es) [])) (lookup n types)
unfolding lookup fold_opt add_rbv2_actions
add_rbv2_actions-grow n [] types types' distinct h =
    ap (lookup n) (sym (some-injective types types' h)) ∙ grow_nil (lookup n types)
add_rbv2_actions-grow n ((k, actions) ∷ es) types types' distinct h =
    let (s1, first, rest) = fold_opt-cons add_rbv2_actions (k, actions) es types types' h in
    let step = append_actions_grows k n actions types s1 first in
    let ih = add_rbv2_actions-grow n es s1 types' distinct.1 rest in
    elim (eq-cases k n) [
      | inl (same, test) ↦
          let unseen : lookup n es ≡ none = subst (λ j. lookup j es ≡ none) same distinct.0 in
          rw test ((rw unseen at ih) ∙ (sym (grow_nil (lookup n s1)) ∙ (rw test at step)))
      | inr (other, test) ↦
          let still = (rw test at step) ∙ sym (grow_nil (lookup n types)) in
          rw test (rw still at ih)
    ]

-- The entry of a declared type at the start, and otherwise what was there.
abbrev pub entry_or : Option Types.ResourceType → Option ResourceType → Option Types.ResourceType
entry_or o none = o
entry_or o (some rt) = some (out_type rt)

-- The entries of `typeMap` at the start.
pub out_entries_lookup :
    (n : String) (es : Dict ResourceType) (types : Dict Types.ResourceType)
    → AreKeysDistinct es
    → lookup n (foldl out_entry types es) ≡ entry_or (lookup n types) (lookup n es)
unfolding lookup
out_entries_lookup n [] types distinct = refl
out_entries_lookup n ((k, rt) ∷ es) types distinct =
    let ih = out_entries_lookup n es (insert k (out_type rt) types) distinct.1 in
    elim (eq-cases k n) [
      | inl (same, test) ↦
          let unseen : lookup n es ≡ none = subst (λ j. lookup j es ≡ none) same distinct.0 in
          rw test ((rw unseen at ih) ∙ (lookup-insert k n (out_type rt) types ∙ (rw test)))
      | inr (other, test) ↦
          let kept = lookup-insert_ne k n (out_type rt) types other in
          rw test (ih ∙ ap (λ o. entry_or o (lookup n es)) kept)
    ]

pub All-keys :
    {V : Type 0} (P : String → Type 0) (es : Dict V)
    → ((k : String) → lookup k es ≢ none → P k)
    → All (λ e. P e.0) es
unfolding lookup
All-keys P [] h = tt
All-keys P ((k, x) ∷ es) h = (
  h k (λ missing. cc (eq_refl k, missing)),
  All-keys P es (λ j found. h j (λ missing. ground arith)),
)

-- The entries at the start: one for each declared type.
module _ (g : Runtime) (rt : Dict ResourceType) (distinct : AreKeysDistinct rt) where
  abbrev pub entries : Dict Types.ResourceType
  entries = foldl out_entry [] (g.order ResourceType rt)

  entry_or-none : (o : Option ResourceType) → entry_or none o ≡ Option.map out_type o
  entry_or-none none = refl
  entry_or-none (some rt) = refl

  pub entries-lookup : (n : String) → lookup n entries ≡ Option.map out_type (lookup n rt)
  unfolding lookup
  entries-lookup n =
      let (distinct', same) = order-IsReordering g rt distinct in
      out_entries_lookup n (g.order ResourceType rt) [] distinct'
      ∙ (ap (entry_or none) (same n) ∙ entry_or-none (lookup n rt))

  pub entries-AreKeysDistinct : AreKeysDistinct entries
  entries-AreKeysDistinct =
      foldl_inv AreKeysDistinct out_entry (λ d e i. insert-AreKeysDistinct e.0 (out_type e.1) d i)
        (g.order ResourceType rt) [] tt
