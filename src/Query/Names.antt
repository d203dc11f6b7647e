-- ===== src/Query/Names.antt =====
-- The relation that the engine writes for an action, `action_rel`, and how it reads the action back
-- (`actionToRelation` and `relationToAction` of internal/query/relations.go).
use Prim.Native.Char.{Char, char, code}
use Prim.Native.String
use mathlib.Core.Option
use text.Mathlib.TextLemmas.{cons-append, nil-append, cons≢nil, tail-eq_of_cons-eq}
use text.Mathlib.TextEquality.{codes_equal}
use permissions_api.Base.{
  String, ◌≡◌, refl, sym, ap, ◌∙◌, ◌≢◌, ◌↔◌, Bool, true, false, ◌&&◌, Option, none, some, arith,
  if◌then◌else◌, Bool-cases, Option-cases, inl, inr,
}
use permissions_api.Query.Updates.{
  is_char, begins_with_rel, cut_rel, relation_to_action, action_to_relation,
}

-- A text that holds "_rel".
abbrev pub HoldsRel : String → Type 0
HoldsRel a = (x : String) × (y : String) × (a ≡ String.◌++◌ x (String.◌++◌ "_rel" y))

and_false_tail : (a : Bool) → (a && (false && (false && false))) ≡ false
and_false_tail a = ground arith

begins-append :
    (c : Char) (s : String)
    → begins_with_rel (String.◌∷◌ c (String.◌++◌ s "_rel")) ≡ begins_with_rel (String.◌∷◌ c s)
unfolding begins_with_rel
begins-append c String.[] = ground arith
begins-append c (String.◌∷◌ d String.[]) = rw (cons-append d "" "_rel") (ground arith)
begins-append c (String.◌∷◌ d (String.◌∷◌ e String.[])) =
    rw (cons-append d (String.◌∷◌ e "") "_rel", cons-append e "" "_rel") (ground arith)
begins-append c (String.◌∷◌ d (String.◌∷◌ e (String.◌∷◌ f s))) =
    rw
      (
        cons-append d (String.◌∷◌ e (String.◌∷◌ f s)) "_rel",
        cons-append e (String.◌∷◌ f s) "_rel",
        cons-append f s "_rel",
      )
      refl

cut-append : (s : String) → cut_rel (String.◌++◌ s "_rel") ≡ some (Option.get_or (cut_rel s) s)
unfolding cut_rel begins_with_rel
cut-append String.[] = refl
cut-append (String.◌∷◌ c s) =
    rw (cons-append c s "_rel", begins-append c s, cut-append s)
      (elim (Bool-cases (begins_with_rel (String.◌∷◌ c s))) [
        | inl b ↦ rw b refl
        | inr b ↦
            rw b (elim (Option-cases (cut_rel s)) [ inl n ↦ rw n refl | inr (y, q) ↦ rw q refl ])
      ])

is_char_eq : (c d : Char) → is_char (code c) d ≡ true → d ≡ c
is_char_eq c d h = codes_equal d c (ground arith)

rel_append :
    (y : String)
    → String.◌++◌ "_rel" y
      ≡ String.◌∷◌
          (char 95 tt)
          (String.◌∷◌ (char 114 tt) (String.◌∷◌ (char 101 tt) (String.◌∷◌ (char 108 tt) y)))
rel_append y =
    cons-append (char 95 tt) "rel" y
    ∙ ap (String.◌∷◌ (char 95 tt)) (
        cons-append (char 114 tt) "el" y
        ∙ ap (String.◌∷◌ (char 114 tt)) (
            cons-append (char 101 tt) "l" y
            ∙ ap (String.◌∷◌ (char 101 tt))
                (cons-append (char 108 tt) "" y ∙ ap (String.◌∷◌ (char 108 tt)) (nil-append y))))

begins_iff : (s : String) → begins_with_rel s ≡ true → (y : String) × (s ≡ String.◌++◌ "_rel" y)
unfolding begins_with_rel
begins_iff String.[] h = ground arith
begins_iff (String.◌∷◌ a String.[]) h = ground arith
begins_iff (String.◌∷◌ a (String.◌∷◌ b String.[])) h = ground arith
begins_iff (String.◌∷◌ a (String.◌∷◌ b (String.◌∷◌ c String.[]))) h = ground arith
begins_iff (String.◌∷◌ a (String.◌∷◌ b (String.◌∷◌ c (String.◌∷◌ d s)))) h = (
  s,
  let chars : (is_char b'_' a ≡ true)
          × (is_char b'r' b ≡ true)
          × (is_char b'e' c ≡ true)
          × (is_char b'l' d ≡ true) =
        ground arith in
      let (p, q, r, t) = chars in
      rw
        (
          is_char_eq (char 95 tt) a p,
          is_char_eq (char 114 tt) b q,
          is_char_eq (char 101 tt) c r,
          is_char_eq (char 108 tt) d t,
        )
        (sym (rel_append s)),
)

cut_rel_append : (y : String) → cut_rel (String.◌++◌ "_rel" y) ≡ some ""
unfolding cut_rel begins_with_rel
cut_rel_append y = rw (rel_append y) refl

step_none :
    (b : Bool) (c : Char) {o : Option String}
    → (if b then some "" else Option.map (String.◌∷◌ c) o) ≡ none
    → o ≡ none
step_none b c {o} h = ground arith

cut_holds : (x y : String) → cut_rel (String.◌++◌ x (String.◌++◌ "_rel" y)) ≢ none
unfolding cut_rel begins_with_rel
cut_holds String.[] y h =
    cc (sym (cut_rel_append y) ∙ sym (ap cut_rel (nil-append (String.◌++◌ "_rel" y))) ∙ h)
cut_holds (String.◌∷◌ c x) y h =
    let rest = String.◌++◌ "_rel" y in
    let h' = sym (ap cut_rel (cons-append c x rest)) ∙ h in
    cut_holds x y (step_none (begins_with_rel (String.◌∷◌ c (String.◌++◌ x rest))) c h')

cut-HoldsRel : (s : String) {x : String} → cut_rel s ≡ some x → HoldsRel s
unfolding cut_rel
cut-HoldsRel String.[] h = ground arith
cut-HoldsRel (String.◌∷◌ c s) {x} h = elim (Bool-cases (begins_with_rel (String.◌∷◌ c s))) [
  | inl b ↦
      let (y, p) = begins_iff (String.◌∷◌ c s) b in
      ("", y, p ∙ sym (nil-append (String.◌++◌ "_rel" y)))
  | inr b ↦ elim (Option-cases (cut_rel s)) [
    | inl n ↦ ground arith
    | inr (y, q) ↦
        let (u, v, w) = cut-HoldsRel s q in
        (String.◌∷◌ c u, v, ap (String.◌∷◌ c) w ∙ sym (cons-append c u (String.◌++◌ "_rel" v)))
  ]
]

cut-shorter : (s : String) {x : String} → cut_rel s ≡ some x → x ≢ s
unfolding cut_rel
cut-shorter String.[] h e = ground arith
cut-shorter (String.◌∷◌ c s) {x} h e = elim (Bool-cases (begins_with_rel (String.◌∷◌ c s))) [
  | inl b ↦ let p : x ≡ "" = ground arith in cons≢nil (sym e ∙ p)
  | inr b ↦ elim (Option-cases (cut_rel s)) [
    | inl n ↦ ground arith
    | inr (y, q) ↦
        let p : x ≡ String.◌∷◌ c y = ground arith in
        cut-shorter s q (tail-eq_of_cons-eq (sym p ∙ e))
  ]
]

-- The engine reads an action back from the relation that it wrote for it exactly if the action's
-- name does not hold "_rel".
pub relation_to_action-action_to_relation :
    (a : String) → (relation_to_action (action_to_relation a) ≡ some a) ↔ ¬ HoldsRel a
unfolding relation_to_action action_to_relation
relation_to_action-action_to_relation a = elim (Option-cases (cut_rel a)) [
  | inl n ↦ (λ _ (x, y, p). cut_holds x y (ap cut_rel (sym p) ∙ n), λ _. rw (cut-append a, n) refl)
  | inr (x, q) ↦ (
    λ h. absurd (
        cut-shorter a q (
          let p = sym (cut-append a) ∙ h in
          let r : some x ≡ some a = rw (sym (ap (λ o. some (Option.get_or o a)) q)) p in
          ground arith)),
    λ h. absurd (h (cut-HoldsRel a q)),
  )
]
