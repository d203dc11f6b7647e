-- ===== src/Api/Pool/Safety.antt =====
-- What the answer of `checkAllActions` of internal/api/permissions.go means, in whatever order its
-- workers and its collector run and whenever the time runs out.
use mathlib.Core.Path.{subst}
use permissions_api.Base.{
  ℕ, suc, ◌<◌, ◌≡◌, inl, inr, refl, ap, ◌∙◌, Bool, false, none, Option, List, [], ◌∷◌, map, length,
  All, Exists, arith,
}
use permissions_api.Query.Messages.{Error}
use permissions_api.Api.Checks.{
  CheckRequest, Verdict, allowed, verdict_of, tally, no_errors, final_status,
}
use permissions_api.Api.Pool.{
  Result, checked, timed_out, Pool, start, Reach, verdict, status_of_results,
}
use permissions_api.Api.Pool.Invariant.{
  asked, IsAmong, IsOf, IsSomewhere, weight, Reach-weight, Reach-IsSomewhere, IsTrue, Reach-AreTrue,
}
use permissions_api.Api.Pool.Status.{
  Occurs, final_status-eq, final_status-allowed, verdict_of-allowed,
}

among-length : (r : CheckRequest) (rs : List CheckRequest) → IsAmong r rs → 0 < length rs
among-length r [] h = absurd h
among-length r (q ∷ rs) h = omega arith

of-asked : (r : CheckRequest) (xs : List Result) → Exists (IsOf r) xs → 0 < asked xs
of-asked r [] h = absurd h
of-asked r (checked q x ∷ xs) h = omega arith
of-asked r (timed_out ∷ xs) (inl h) = absurd h
of-asked r (timed_out ∷ xs) (inr h) = of-asked r xs h

-- Once as many requests are collected as there are, each is.
settled :
    (p : Pool) (n : ℕ) (r : CheckRequest)
    → weight p ≡ n
    → asked p.received ≡ n
    → IsSomewhere r p
    → Exists (IsOf r) p.received
settled p n r h k (inl (inl x)) =
    let l = among-length r p.requests x in let no : ⊥ = omega arith in absurd no
settled p n r h k (inl (inr x)) =
    let l = among-length r p.busy x in let no : ⊥ = omega arith in absurd no
settled p n r h k (inr (inl x)) =
    let l = of-asked r p.results x in let no : ⊥ = omega arith in absurd no
settled p n r h k (inr (inr x)) = x

All-among :
    (P : CheckRequest → Type 0) (rs : List CheckRequest)
    → ((r : CheckRequest) → IsAmong r rs → P r)
    → All P rs
All-among P [] h = tt
All-among P (r ∷ rs) h = (h r (inl refl), All-among P rs (λ q x. h q (inr x)))

AreAllowed : List Result → Type 0
AreAllowed xs = All (λ v. v ≡ allowed) (map verdict xs)

allowed-asked : (xs : List Result) → AreAllowed xs → asked xs ≡ length xs
unfolding AreAllowed
allowed-asked [] h = refl
allowed-asked (checked r x ∷ xs) h = ap suc (allowed-asked xs h.1)
allowed-asked (timed_out ∷ xs) h = ground arith

module _ (answers : CheckRequest → Option Error → Type 0) (total : ℕ) where
  allowed-answers :
      (e : Bool) (r : CheckRequest) (xs : List Result)
      → All (IsTrue answers total e) xs
      → AreAllowed xs
      → Exists (IsOf r) xs
      → answers r none
  unfolding AreAllowed
  allowed-answers e r [] t h x = absurd x
  allowed-answers e r (checked q y ∷ xs) t h (inl same) =
      subst (λ r. answers r none) same (subst (answers q) (verdict_of-allowed y h.0) t.0)
  allowed-answers e r (checked q y ∷ xs) t h (inr x) = allowed-answers e r xs t.1 h.1 x
  allowed-answers e r (timed_out ∷ xs) t h (inl x) = absurd x
  allowed-answers e r (timed_out ∷ xs) t h (inr x) = allowed-answers e r xs t.1 h.1 x

-- If `checkAllActions` has collected as many results as there are requests and answers with status
-- 200, the engine has answered each of the requests without an error.
pub status_of_results_safe :
    (answers : CheckRequest → Option Error → Type 0) (workers n : ℕ) (rs : List CheckRequest)
    (p : Pool)
    → Reach answers (length rs) (start workers rs) n p
    → length p.received ≡ length rs
    → status_of_results p.received ≡ 200
    → All (λ r. answers r none) rs
unfolding status_of_results AreAllowed
status_of_results_safe answers workers n rs p path done fine =
    let total = length rs in
    let good = final_status-allowed (map verdict p.received) fine in
    let (_, are_true) = Reach-AreTrue answers total path in
    let counted = allowed-asked p.received good ∙ done in
    All-among (λ r. answers r none) rs
      (λ r x. allowed-answers answers total p.expired r p.received are_true good (
        settled p total r (Reach-weight answers total path) counted
          ((Reach-IsSomewhere answers total r path).1 x)))

module _ (f : CheckRequest → Option Error) where
  abbrev pub Answers : CheckRequest → Option Error → Type 0
  Answers r x = x ≡ f r

  abbrev pub verdict_on : CheckRequest → Verdict
  verdict_on r = verdict_of (f r)

  module _ (total : ℕ) where
    in_time : (xs : List Result) → All (IsTrue Answers total false) xs → asked xs ≡ length xs
    in_time [] h = refl
    in_time (checked r x ∷ xs) h = ap suc (in_time xs h.1)
    in_time (timed_out ∷ xs) h = ground arith

    collected :
        (v : Verdict) (xs : List Result)
        → All (IsTrue Answers total false) xs
        → Occurs v (map verdict xs)
        → (r : CheckRequest) × Exists (IsOf r) xs × (verdict_on r ≡ v)
    collected v [] h x = absurd x
    collected v (checked r y ∷ xs) h (inl x) = (r, inl refl, subst (λ y. verdict_of y ≡ v) h.0 x)
    collected v (checked r y ∷ xs) h (inr x) = let (q, m, k) = collected v xs h.1 x in (q, inr m, k)
    collected v (timed_out ∷ xs) h x = ground arith

    counts :
        (r : CheckRequest) (xs : List Result)
        → All (IsTrue Answers total false) xs
        → Exists (IsOf r) xs
        → Occurs (verdict_on r) (map verdict xs)
    counts r [] h x = absurd x
    counts r (checked q y ∷ xs) h (inl x) = inl (ap verdict_of h.0 ∙ ap verdict_on x)
    counts r (checked q y ∷ xs) h (inr x) = inr (counts r xs h.1 x)
    counts r (timed_out ∷ xs) h (inl x) = absurd x
    counts r (timed_out ∷ xs) h (inr x) = inr (counts r xs h.1 x)

  asked_for :
      (v : Verdict) (rs : List CheckRequest)
      → Occurs v (map verdict_on rs)
      → (r : CheckRequest) × IsAmong r rs × (verdict_on r ≡ v)
  asked_for v [] x = absurd x
  asked_for v (r ∷ rs) (inl x) = (r, inl refl, x)
  asked_for v (r ∷ rs) (inr x) = let (q, m, k) = asked_for v rs x in (q, inr m, k)

  among-verdict :
      (r : CheckRequest) (rs : List CheckRequest)
      → IsAmong r rs
      → Occurs (verdict_on r) (map verdict_on rs)
  among-verdict r [] x = absurd x
  among-verdict r (q ∷ rs) (inl x) = inl (ap verdict_on x)
  among-verdict r (q ∷ rs) (inr x) = inr (among-verdict r rs x)

  -- If the engine has one answer to each request, and `checkAllActions` has collected as many
  -- results as there are requests before the time runs out, its status is that of the verdicts on
  -- the requests, whatever the order in which the checks ran.
  pub status_of_results_lem :
      (workers n : ℕ) (rs : List CheckRequest) (p : Pool)
      → Reach Answers (length rs) (start workers rs) n p
      → length p.received ≡ length rs
      → p.expired ≡ false
      → status_of_results p.received ≡ final_status (tally no_errors (map verdict_on rs))
  unfolding status_of_results
  status_of_results_lem workers n rs p path done early =
      let total = length rs in
      let are_true : All (IsTrue Answers total false) p.received =
        subst (λ e. All (IsTrue Answers total e) p.received) early
          (Reach-AreTrue Answers total path).1 in
      let here = in_time total p.received are_true ∙ done in
      final_status-eq (map verdict p.received) (map verdict_on rs) (λ v. (
        λ x.
            let (r, m, k) = collected total v p.received are_true x in
            subst (λ v. Occurs v (map verdict_on rs)) k
              (among-verdict r rs ((Reach-IsSomewhere Answers total r path).0 (inr (inr m)))),
        λ x.
            let (r, m, k) = asked_for v rs x in
            subst (λ v. Occurs v (map verdict p.received)) k
              (counts total r p.received are_true (
                settled p total r (Reach-weight Answers total path) here
                  ((Reach-IsSomewhere Answers total r path).1 m))),
      ))
