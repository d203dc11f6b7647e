-- ===== src/Dict.antt =====
-- Go's maps with text keys: association lists with a value for each key, in the order in which
-- the keys were first written, and a parameter for the order in which a `range` loop visits them.
pub mod Keys
use permissions_api.Base.{
  String, ◌≡◌, refl, ◌≢◌, Bool, Option, none, some, List, [], ◌∷◌, arith, ◌==◌, eq_iff, eq_refl,
  Permᴰ, if◌then◌else◌, is_some,
}

abbrev pub Dict {ℓ} : Type ℓ → Type ℓ
Dict V = List (String × V)

module _ {ℓ} {V : Type ℓ} where
  -- `m[k]`, with the second result of `v, ok := m[k]` as `none` or `some`.
  unfoldable pub lookup : String → Dict V → Option V
  lookup k [] = none
  lookup k ((j, v) ∷ d) = if j == k then some v else lookup k d

  -- `_, ok := m[k]`
  abbrev pub has : String → Dict V → Bool
  has k d = is_some (lookup k d)

  -- `m[k] = v`
  unfoldable pub insert : String → V → Dict V → Dict V
  insert k v [] = (k, v) ∷ []
  insert k v ((j, w) ∷ d) = if j == k then (j, v) ∷ d else (j, w) ∷ insert k v d

  pub lookup-insert :
      (k j : String) (v : V) (d : Dict V)
      → lookup j (insert k v d) ≡ (if k == j then some v else lookup j d)
  unfolding lookup insert
  lookup-insert k j v [] = refl
  lookup-insert k j v ((i, w) ∷ d) =
      ground (arith, eq_iff k j, eq_iff i k, eq_iff i j, lookup-insert k j v d)

  pub lookup-insert_self : (k : String) (v : V) (d : Dict V) → lookup k (insert k v d) ≡ some v
  lookup-insert_self k v d = simp (lookup-insert, eq_refl)

  pub lookup-insert_ne :
      (k j : String) (v : V) (d : Dict V) → k ≢ j → lookup j (insert k v d) ≡ lookup j d
  lookup-insert_ne k j v d h = ground (arith, lookup-insert k j v d, eq_iff k j)

  -- A write keeps every key.
  pub lookup-insert-ne-none :
      (k j : String) (v : V) (d : Dict V) → lookup j d ≢ none → lookup j (insert k v d) ≢ none
  lookup-insert-ne-none k j v d h = ground (arith, lookup-insert k j v d)

-- What the Go runtime chooses: the order in which a `range` over a map visits its entries. Each
-- entry is visited exactly once. Two loops over the same entries visit them in the same order, where
-- Go may choose another.
pub record Runtime : Type 1 where
  pub order : (V : Type 0) → Dict V → Dict V
  pub visits : (V : Type 0) (d : Dict V) → Permᴰ d (order V d)
