-- ===== src/Base/Lists.antt =====
-- Predicates on the elements of a list, the loops that test them, and their laws.
use Prim.Native.Nat.{ℕ, suc}
use mathlib.Core.Path.{◌≡◌, refl, subst}
use mathlib.Core.Logic.{◌⊎◌, inl, inr, ◌↔◌}
use mathlib.Core.Bool.{Bool, true, false, ◌||◌, ◌&&◌}
use mathlib.Core.Option.{Option, none, some}
use mathlib.Core.List.{List, [], ◌∷◌, ◌++◌, Permᴰ, foldl}
use permissions_api.Base.Branches.{Option-cases}
use native.Mathlib.Omega.{arith}

abbrev pub length {ℓ} : {A : Type ℓ} → List A → ℕ
length [] = 0
length (x ∷ xs) = suc (length xs)

abbrev pub is_empty {ℓ} : {A : Type ℓ} → List A → Bool
is_empty [] = true
is_empty (_ ∷ _) = false

-- The list, if the test passes.
abbrev pub when {ℓ} : {A : Type ℓ} → Bool → List A → List A
when true xs = xs
when false xs = []

module _ {ℓ κ} {A : Type ℓ} where
  -- Every element satisfies `P`.
  abbrev pub All : (A → Type κ) → List A → Type κ
  All P [] = Unit
  All P (x ∷ xs) = P x × All P xs

module _ {ℓ} {A : Type ℓ} where
  -- Some element satisfies `P`.
  abbrev pub Exists : (A → Type 0) → List A → Type 0
  Exists P [] = ⊥
  Exists P (x ∷ xs) = P x ⊎ Exists P xs

  -- There is a value, and it satisfies `P`.
  abbrev pub Holds : (A → Type 0) → Option A → Type 0
  Holds P none = ⊥
  Holds P (some x) = P x

  -- The loop that returns true at the first element that passes the test.
  unfoldable pub any : (A → Bool) → List A → Bool
  any p [] = false
  any p (x ∷ xs) = p x || any p xs

  -- The loop that returns the first error.
  unfoldable pub first_error {μ} : {E : Type μ} → (A → Option E) → List A → Option E
  first_error f [] = none
  first_error f (x ∷ xs) = elim (f x) [ none ↦ first_error f xs | some e ↦ some e ]

  -- A loop of which each round may panic.
  unfoldable pub fold_opt {σ} : {S : Type σ} → (A → S → Option S) → List A → S → Option S
  fold_opt f [] s = some s
  fold_opt f (x ∷ xs) s = elim (f x s) [ none ↦ none | some s' ↦ fold_opt f xs s' ]

module _ {ℓ} {A : Type ℓ} where
  pub any_iff :
      (p : A → Bool) (P : A → Type 0)
      → ((x : A) → (p x ≡ true) ↔ P x)
      → (xs : List A) → (any p xs ≡ true) ↔ Exists P xs
  unfolding any
  any_iff p P h [] = ground arith
  any_iff p P h (x ∷ xs) = ground (arith, h x, any_iff p P h xs)

  pub first_error_iff {μ} :
      {E : Type μ} (f : A → Option E) (P : A → Type 0)
      → ((x : A) → (f x ≡ none) ↔ P x)
      → (xs : List A) → (first_error f xs ≡ none) ↔ All P xs
  unfolding first_error
  first_error_iff f P h [] = (λ _. tt, λ _. refl)
  first_error_iff f P h (x ∷ xs) = ground (arith, h x, first_error_iff f P h xs)

  pub All-append {κ} : (P : A → Type κ) (xs ys : List A) → All P xs → All P ys → All P (xs ++ ys)
  All-append P [] ys h k = k
  All-append P (x ∷ xs) ys h k = (h.0, All-append P xs ys h.1 k)

  pub All-const {κ} : {P : Type κ} (xs : List A) → P → All (λ _. P) xs
  All-const [] p = tt
  All-const (x ∷ xs) p = (p, All-const xs p)

  pub All-append_left {κ} : (P : A → Type κ) (xs ys : List A) → All P (xs ++ ys) → All P xs
  All-append_left P [] ys h = tt
  All-append_left P (x ∷ xs) ys h = (h.0, All-append_left P xs ys h.1)

  pub All-append_right {κ} : (P : A → Type κ) (xs ys : List A) → All P (xs ++ ys) → All P ys
  All-append_right P [] ys h = h
  All-append_right P (x ∷ xs) ys h = All-append_right P xs ys h.1

  pub All-imp {κ ρ} :
      (P : A → Type κ) (Q : A → Type ρ)
      → ((x : A) → P x → Q x)
      → (xs : List A) → All P xs
      → All Q xs
  All-imp P Q f [] h = tt
  All-imp P Q f (x ∷ xs) h = (f x h.0, All-imp P Q f xs h.1)

  pub Exists-perm : (P : A → Type 0) {xs ys : List A} → Permᴰ xs ys → Exists P xs → Exists P ys
  Exists-perm P Permᴰ.nil h = h
  Exists-perm P (Permᴰ.cons e p) (inl h) = inl (subst P e h)
  Exists-perm P (Permᴰ.cons e p) (inr h) = inr (Exists-perm P p h)
  Exists-perm P (Permᴰ.swap e e') (inl h) = inr (inl (subst P e h))
  Exists-perm P (Permᴰ.swap e e') (inr (inl h)) = inl (subst P e' h)
  Exists-perm P (Permᴰ.swap e e') (inr (inr h)) = inr (inr h)
  Exists-perm P (Permᴰ.trans p q) h = Exists-perm P q (Exists-perm P p h)

  pub All-perm {κ} : (P : A → Type κ) {xs ys : List A} → Permᴰ xs ys → All P xs → All P ys
  All-perm P Permᴰ.nil h = tt
  All-perm P (Permᴰ.cons e p) h = (subst P e h.0, All-perm P p h.1)
  All-perm P (Permᴰ.swap e e') h = (subst P e' h.1.0, (subst P e h.0, h.1.1))
  All-perm P (Permᴰ.trans p q) h = All-perm P q (All-perm P p h)

-- What each round of a loop keeps, the loop keeps.
pub foldl_inv {ℓ σ κ} :
    {A : Type ℓ} {S : Type σ} (P : S → Type κ) (f : S → A → S)
    → ((s : S) (x : A) → P s → P (f s x))
    → (xs : List A) (s : S) → P s
    → P (foldl f s xs)
foldl_inv P f keep [] s h = h
foldl_inv P f keep (x ∷ xs) s h = foldl_inv P f keep xs (f s x) (keep s x h)

pub when_append {ℓ} :
    {A : Type ℓ} (b : Bool) (xs ys : List A) → when b xs ++ when b ys ≡ when b (xs ++ ys)
when_append true xs ys = refl
when_append false xs ys = refl

pub when_nil {ℓ} : {A : Type ℓ} (b : Bool) → [] ≡ when {A = A} b []
when_nil true = refl
when_nil false = refl

pub false-eq-and : (b : Bool) → false ≡ (b && false)
false-eq-and true = refl
false-eq-and false = refl

pub and_or : (b c d : Bool) → (b && c || b && d) ≡ (b && (c || d))
and_or true c d = refl
and_or false c d = refl

module _ {ℓ σ} {A : Type ℓ} {S : Type σ} (f : A → S → Option S) where
  -- The rounds of a loop that did not panic.
  pub fold_opt-cons :
      (x : A) (xs : List A) (s t : S)
      → fold_opt f (x ∷ xs) s ≡ some t
      → (s' : S) × (f x s ≡ some s') × (fold_opt f xs s' ≡ some t)
  unfolding fold_opt
  fold_opt-cons x xs s t h = elim (Option-cases (f x s)) [
    | inl panics ↦ cc (panics, h)
    | inr (s', e) ↦ (s', e, rw (e, fold_opt) at h)
  ]

  -- A loop does not panic if no round does, where `P` holds before it and `Q` of its element.
  pub fold_opt_total {κ ρ} :
      (P : S → Type κ) (Q : A → Type ρ)
      → ((x : A) (s : S) → Q x → P s → (s' : S) × (f x s ≡ some s') × P s')
      → (xs : List A) (s : S) → All Q xs
      → P s
      → (s' : S) × (fold_opt f xs s ≡ some s') × P s'
  unfolding fold_opt
  fold_opt_total P Q round [] s q p = (s, refl, p)
  fold_opt_total P Q round (x ∷ xs) s q p =
      let (s1, e, p1) = round x s q.0 p in
      let (s2, e2, p2) = fold_opt_total P Q round xs s1 q.1 p1 in (s2, rw (e, fold_opt) e2, p2)

-- A loop each of whose rounds adds a reason for `P` gives `P` for any of them.
pub foldl_iff :
    {S A : Type 0} (P : S → Type 0) (Q : A → Type 0) (f : S → A → S)
    → ((s : S) (a : A) → P (f s a) ↔ (P s ⊎ Q a))
    → (s : S) (xs : List A) → P (foldl f s xs) ↔ (P s ⊎ Exists Q xs)
foldl_iff P Q f h s [] = (inl, λ (x : P s ⊎ ⊥). elim x [ inl p ↦ p | inr q ↦ absurd q ])
foldl_iff P Q f h s (a ∷ xs) = ground (arith, h s a, foldl_iff P Q f h (f s a) xs)

module _ {ℓ} {A : Type ℓ} where
  pub Exists-append :
      (P : A → Type 0) (xs ys : List A) → Exists P (xs ++ ys) ↔ (Exists P xs ⊎ Exists P ys)
  Exists-append P [] ys = ground arith
  Exists-append P (x ∷ xs) ys = ground (arith, Exists-append P xs ys)

  pub Exists-imp :
      (P Q : A → Type 0) → ((a : A) → P a → Q a) → (xs : List A) → Exists P xs → Exists Q xs
  Exists-imp P Q f [] h = absurd h
  Exists-imp P Q f (x ∷ xs) (inl p) = inl (f x p)
  Exists-imp P Q f (x ∷ xs) (inr q) = inr (Exists-imp P Q f xs q)
