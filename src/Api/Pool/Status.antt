-- ===== src/Api/Pool/Status.antt =====
-- The status that `checkAllActions` of internal/api/permissions.go answers depends only on which
-- verdicts there are.
use permissions_api.Base.{
  ℕ, zero, suc, ◌≡◌, ◌↔◌, inl, inr, refl, some, none, Option, List, [], ◌∷◌, All, Exists,
  Bool-cases, arith,
}
use permissions_api.Query.Messages.{Error}
use permissions_api.Api.Checks.{
  Verdict, allowed, denied, invalid, internal, verdict_of, is_not_assigned, is_invalid_action,
  Counters, counted, tally, no_errors, status_for, final_status,
}

abbrev pub Occurs : Verdict → List Verdict → Type 0
Occurs v vs = Exists (λ w. w ≡ v) vs

module _ where
  is_internal :
      (n : Counters) (vs : List Verdict)
      → ((tally n vs).internal_errors ≡ 0) ↔ ((n.internal_errors ≡ 0) × ¬ Occurs internal vs)
  unfolding tally counted
  is_internal n [] = ground arith
  is_internal n (allowed ∷ vs) = ground (arith, is_internal n vs)
  is_internal n (denied ∷ vs) = ground (arith, is_internal (counted n denied) vs)
  is_internal n (invalid ∷ vs) = ground (arith, is_internal (counted n invalid) vs)
  is_internal n (internal ∷ vs) = ground (arith, is_internal (counted n internal) vs)

  is_denied :
      (n : Counters) (vs : List Verdict)
      → ((tally n vs).unauthorized_errors ≡ 0) ↔ ((n.unauthorized_errors ≡ 0) × ¬ Occurs denied vs)
  unfolding tally counted
  is_denied n [] = ground arith
  is_denied n (allowed ∷ vs) = ground (arith, is_denied n vs)
  is_denied n (denied ∷ vs) = ground (arith, is_denied (counted n denied) vs)
  is_denied n (invalid ∷ vs) = ground (arith, is_denied (counted n invalid) vs)
  is_denied n (internal ∷ vs) = ground (arith, is_denied (counted n internal) vs)

  is_invalid :
      (n : Counters) (vs : List Verdict)
      → ((tally n vs).bad_request_errors ≡ 0) ↔ ((n.bad_request_errors ≡ 0) × ¬ Occurs invalid vs)
  unfolding tally counted
  is_invalid n [] = ground arith
  is_invalid n (allowed ∷ vs) = ground (arith, is_invalid n vs)
  is_invalid n (denied ∷ vs) = ground (arith, is_invalid (counted n denied) vs)
  is_invalid n (invalid ∷ vs) = ground (arith, is_invalid (counted n invalid) vs)
  is_invalid n (internal ∷ vs) = ground (arith, is_invalid (counted n internal) vs)

status_for-eq :
    (i i' u u' r r' : ℕ)
    → (i ≡ 0) ↔ (i' ≡ 0)
    → (u ≡ 0) ↔ (u' ≡ 0)
    → (r ≡ 0) ↔ (r' ≡ 0)
    → status_for i u r ≡ status_for i' u' r'
status_for-eq (suc i) (suc i') u u' r r' f g h = refl
status_for-eq (suc i) zero u u' r r' f g h = ground arith
status_for-eq zero (suc i') u u' r r' f g h = ground arith
status_for-eq zero zero (suc u) (suc u') r r' f g h = refl
status_for-eq zero zero (suc u) zero r r' f g h = ground arith
status_for-eq zero zero zero (suc u') r r' f g h = ground arith
status_for-eq zero zero zero zero (suc r) (suc r') f g h = refl
status_for-eq zero zero zero zero (suc r) zero f g h = ground arith
status_for-eq zero zero zero zero zero (suc r') f g h = ground arith
status_for-eq zero zero zero zero zero zero f g h = refl

pub final_status-eq :
    (vs ws : List Verdict)
    → ((v : Verdict) → Occurs v vs ↔ Occurs v ws)
    → final_status (tally no_errors vs) ≡ final_status (tally no_errors ws)
unfolding final_status
final_status-eq vs ws h =
    status_for-eq (tally no_errors vs).internal_errors (tally no_errors ws).internal_errors
      (tally no_errors vs).unauthorized_errors (tally no_errors ws).unauthorized_errors
      (tally no_errors vs).bad_request_errors (tally no_errors ws).bad_request_errors
      (ground (arith, h internal, is_internal no_errors vs, is_internal no_errors ws))
      (ground (arith, h denied, is_denied no_errors vs, is_denied no_errors ws))
      (ground (arith, h invalid, is_invalid no_errors vs, is_invalid no_errors ws))

ok_zero : (i u r : ℕ) → status_for i u r ≡ 200 → (i ≡ 0) × (u ≡ 0) × (r ≡ 0)
ok_zero (suc i) u r h = ground arith
ok_zero zero (suc u) r h = ground arith
ok_zero zero zero (suc r) h = ground arith
ok_zero zero zero zero h = (refl, refl, refl)

All-allowed :
    (vs : List Verdict)
    → ¬ Occurs internal vs
    → ¬ Occurs denied vs
    → ¬ Occurs invalid vs
    → All (λ v. v ≡ allowed) vs
All-allowed [] f g h = tt
All-allowed (allowed ∷ vs) f g h =
    (refl, All-allowed vs (λ x. f (inr x)) (λ x. g (inr x)) (λ x. h (inr x)))
All-allowed (denied ∷ vs) f g h = absurd (g (inl refl))
All-allowed (invalid ∷ vs) f g h = absurd (h (inl refl))
All-allowed (internal ∷ vs) f g h = absurd (f (inl refl))

-- With status 200 every verdict is that the action is allowed.
pub final_status-allowed :
    (vs : List Verdict) → final_status (tally no_errors vs) ≡ 200 → All (λ v. v ≡ allowed) vs
unfolding final_status
final_status-allowed vs h =
    let n = tally no_errors vs in
    let (i, u, r) = ok_zero n.internal_errors n.unauthorized_errors n.bad_request_errors h in
    All-allowed vs ((is_internal no_errors vs).0 i).1 ((is_denied no_errors vs).0 u).1
      ((is_invalid no_errors vs).0 r).1

pub verdict_of-allowed : (x : Option Error) → verdict_of x ≡ allowed → x ≡ none
unfolding verdict_of
verdict_of-allowed none h = refl
verdict_of-allowed (some x) h = elim (Bool-cases (is_not_assigned x)) [
  | inl p ↦ ground arith
  | inr p ↦ elim (Bool-cases (is_invalid_action x)) [ inl q ↦ ground arith | inr q ↦ ground arith ]
]
