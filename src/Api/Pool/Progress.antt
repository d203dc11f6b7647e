-- ===== src/Api/Pool/Progress.antt =====
-- The checks of one request to `checkAllActions` of internal/api/permissions.go end: a step is
-- possible until all results are collected, and only so many steps are.
use permissions_api.Base.{
  ℕ, suc, ◌+◌, ◌*◌, ◌≤◌, ◌<◌, ◌≡◌, ◌⊎◌, inl, inr, refl, ap, ◌∙◌, false, Option, List, [], ◌∷◌,
  length, arith,
}
use permissions_api.Query.Messages.{Error}
use permissions_api.Api.Checks.{CheckRequest}
use permissions_api.Api.Pool.{
  Result, checked, timed_out, Pool, start, Step, take, finish, quit, expire, give_up, collect,
  collect_expired, Reach, here, next,
}
use permissions_api.Api.Pool.Invariant.{asked, Reach-weight, length-append}

List-cases : {A : Type 0} (xs : List A) → (xs ≡ []) ⊎ ((x : A) × (ys : List A) × (xs ≡ x ∷ ys))
List-cases [] = inl refl
List-cases (x ∷ xs) = inr (x, xs, refl)

asked_at_most : (xs : List Result) → asked xs ≤ length xs
asked_at_most [] = omega arith
asked_at_most (checked r x ∷ xs) = let ih = asked_at_most xs in omega arith
asked_at_most (timed_out ∷ xs) = let ih = asked_at_most xs in omega arith

module _ (answers : CheckRequest → Option Error → Type 0) (total : ℕ) where
  -- No worker leaves while requests wait.
  abbrev IsStaffed : ℕ → Pool → Type 0
  IsStaffed workers p = (p.idle + length p.busy ≡ workers) ⊎ (p.requests ≡ [])

  Step-IsStaffed :
      (workers : ℕ) {p q : Pool}
      → Step answers total p q
      → IsStaffed workers p
      → IsStaffed workers q
  Step-IsStaffed workers (take p r rs k h i) (inl s) = inl (omega arith)
  Step-IsStaffed workers (take p r rs k h i) (inr s) = cc
  Step-IsStaffed workers (finish p before r after x h a room) (inl s) =
      let l = ap length h ∙ length-append before (r ∷ after) in
      let m = length-append before after in inl (omega arith)
  Step-IsStaffed workers (finish p before r after x h a room) (inr s) = inr s
  Step-IsStaffed workers (quit p k h i) s = inr h
  Step-IsStaffed workers (expire p) s = s
  Step-IsStaffed workers (give_up p k h i room) s = s
  Step-IsStaffed workers (collect p x xs h room) s = s
  Step-IsStaffed workers (collect_expired p h room) s = s

  Reach-IsStaffed :
      {k : ℕ} {rs : List CheckRequest} {n : ℕ} {p : Pool}
      → Reach answers total (start k rs) n p
      → IsStaffed k p
  Reach-IsStaffed here = inl (omega arith)
  Reach-IsStaffed (next path step) = Step-IsStaffed _ step (Reach-IsStaffed path)

  -- A bound for the steps that remain if the time does not run out.
  abbrev measure : Pool → ℕ
  measure p = length p.requests * 3 + length p.busy * 3 + length p.results + p.idle

  Step-measure :
      {p q : Pool}
      → Step answers total p q
      → q.expired ≡ false
      → (p.expired ≡ false) × (suc (measure q) ≤ measure p)
  Step-measure (take p r rs k h i) e = let l = ap length h in (e, omega arith)
  Step-measure (finish p before r after x h a room) e =
      let l = ap length h ∙ length-append before (r ∷ after) in
      let m = length-append before after in
      let n = length-append p.results (checked r x ∷ []) in (e, omega arith)
  Step-measure (quit p k h i) e = (e, omega arith)
  Step-measure (expire p) e = ground arith
  Step-measure (give_up p k h i room) e = ground arith
  Step-measure (collect p x xs h room) e = let l = ap length h in (e, omega arith)
  Step-measure (collect_expired p h room) e = ground arith

  Reach-measure :
      {k : ℕ} {rs : List CheckRequest} {n : ℕ} {p : Pool}
      → Reach answers total (start k rs) n p
      → p.expired ≡ false
      → n + measure p ≤ length rs * 3 + k
  Reach-measure here e = omega arith
  Reach-measure (next path step) e =
      let (before, less) = Step-measure step e in let ih = Reach-measure path before in omega arith

-- As long as the time has not run out, the workers and the collector have taken no more steps than
-- three for each request and one for each worker.
pub Reach-bounded :
    (answers : CheckRequest → Option Error → Type 0) (workers n : ℕ) (rs : List CheckRequest)
    (p : Pool)
    → Reach answers (length rs) (start workers rs) n p
    → p.expired ≡ false
    → n ≤ length rs * 3 + workers
Reach-bounded answers workers n rs p path early =
    let bound = Reach-measure answers (length rs) path early in omega arith

-- If there is a worker and the engine has an answer to each request, a step is possible, and the
-- time need not run out for it, until as many results are collected as there are requests.
pub Step-progress :
    (answers : CheckRequest → Option Error → Type 0) (w n : ℕ) (rs : List CheckRequest) (p : Pool)
    → ((r : CheckRequest) → (x : Option Error) × answers r x)
    → Reach answers (length rs) (start (suc w) rs) n p
    → length p.received < length rs
    → (q : Pool) × Step answers (length rs) p q × (q.expired ≡ p.expired)
Step-progress answers w n rs p reply path short = elim (List-cases p.results) [
  | inr (x, xs, h) ↦ (_, collect p x xs h short, refl)
  | inl no_results ↦ elim (List-cases p.busy) [
    | inr (r, after, h) ↦
        let (x, a) = reply r in
        let room : length p.results < length rs = let l = ap length no_results in omega arith in
        (_, finish p [] r after x h a room, refl)
    | inl none_busy ↦ elim (List-cases p.requests) [
      | inr (r, rest, h) ↦ elim (Reach-IsStaffed answers (length rs) path) [
        | inl s ↦
            let idle : p.idle ≡ suc w = let l = ap length none_busy in omega arith in
            (_, take p r rest w h idle, refl)
        | inr s ↦ cc
      ]
      | inl none_left ↦
          let a = ap length no_results in
          let b = ap length none_busy in
          let c = ap length none_left in
          let d = Reach-weight answers (length rs) path in
          let e = asked_at_most p.received in
          let f = asked_at_most p.results in let no : ⊥ = omega arith in absurd no
    ]
  ]
]
