-- ===== src/Dict/Keys.antt =====
-- Maps whose keys are distinct, which all maps are that start empty and grow by writes, and loops
-- over their entries in any order.
use mathlib.Core.Path.{subst}
use permissions_api.Base.{
  String, ◌≡◌, refl, sym, ap, ◌∙◌, none, some, [], ◌∷◌, arith, ◌==◌, eq_iff, Permᴰ, if◌then◌else◌,
  eq-cases, inl, inr,
}
use permissions_api.Dict.{Dict, lookup, insert, lookup-insert_ne, Runtime}

module _ {ℓ} {V : Type ℓ} where
  abbrev pub AreKeysDistinct : Dict V → Type ℓ
  AreKeysDistinct [] = Unit
  AreKeysDistinct ((k, v) ∷ d) = (lookup k d ≡ none) × AreKeysDistinct d

  lookup_nil : (k : String) → lookup {V = V} k [] ≡ none
  unfolding lookup
  lookup_nil k = refl

  pub insert-AreKeysDistinct :
      (k : String) (v : V) (d : Dict V) → AreKeysDistinct d → AreKeysDistinct (insert k v d)
  unfolding insert
  insert-AreKeysDistinct k v [] h = (lookup_nil k, tt)
  insert-AreKeysDistinct k v ((j, w) ∷ d) h = elim (eq-cases j k) [
    | inl (e, test) ↦ rw test h
    | inr (ne, test) ↦
        rw test (lookup-insert_ne k j v d (λ e. ne (sym e)) ∙ h.0, insert-AreKeysDistinct k v d h.1)
  ]

  -- The entries of `e` are those of `d`, with distinct keys.
  abbrev pub IsReordering : Dict V → Dict V → Type ℓ
  IsReordering d e = AreKeysDistinct e × ((k : String) → lookup k e ≡ lookup k d)

  cons-IsReordering :
      (a : String × V) (d e : Dict V)
      → AreKeysDistinct (a ∷ d)
      → IsReordering d e
      → IsReordering (a ∷ d) (a ∷ e)
  unfolding lookup
  cons-IsReordering a d e h (distinct, same) =
      ((same a.0 ∙ h.0, distinct), λ k. ap (λ o. if a.0 == k then some a.1 else o) (same k))

  swap_first :
      (a b : String × V) (d : Dict V) → AreKeysDistinct (a ∷ b ∷ d) → AreKeysDistinct (b ∷ a ∷ d)
  unfolding lookup
  swap_first a b d h = ground (arith, eq_iff b.0 a.0, eq_iff a.0 b.0)

  swap_lookup :
      (a b : String × V) (d : Dict V) (k : String)
      → AreKeysDistinct (a ∷ b ∷ d)
      → lookup k (b ∷ a ∷ d) ≡ lookup k (a ∷ b ∷ d)
  unfolding lookup
  swap_lookup a b d k h = ground (arith, eq_iff b.0 k, eq_iff a.0 k, eq_iff b.0 a.0)

  -- The order of the entries does not matter where the keys are distinct.
  pub perm-IsReordering : {d e : Dict V} → Permᴰ d e → AreKeysDistinct d → IsReordering d e
  perm-IsReordering Permᴰ.nil h = (tt, λ k. refl)
  perm-IsReordering (Permᴰ.cons {a} {b} {l₁} {l₂} same p) h =
      subst (λ x. IsReordering (a ∷ l₁) (x ∷ l₂)) same
        (cons-IsReordering a l₁ l₂ h (perm-IsReordering p h.1))
  perm-IsReordering (Permᴰ.swap {a} {b} {a'} {b'} {l} e e') h =
      subst (λ x. IsReordering (a ∷ b ∷ l) (x ∷ b' ∷ l)) e'
        (subst (λ x. IsReordering (a ∷ b ∷ l) (b ∷ x ∷ l)) e
          (swap_first a b l h, λ k. swap_lookup a b l k h))
  perm-IsReordering (Permᴰ.trans p q) h =
      let (distinct, same) = perm-IsReordering p h in
      let (distinct', same') = perm-IsReordering q distinct in (distinct', λ k. same' k ∙ same k)

-- A `range` loop sees each key once, with its value.
pub order-IsReordering :
    {V : Type 0} (g : Runtime) (d : Dict V) → AreKeysDistinct d → IsReordering d (g.order V d)
order-IsReordering {V} g d h = perm-IsReordering (g.visits V d) h
