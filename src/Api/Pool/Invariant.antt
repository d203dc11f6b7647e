-- ===== src/Api/Pool/Invariant.antt =====
-- What holds of the pool of checks of internal/api/permissions.go in every state that it comes to.
use mathlib.Core.Path.{subst}
use permissions_api.Base.{
  ℕ, suc, ◌+◌, ◌≡◌, ◌↔◌, ◌⊎◌, refl, ap, ◌∙◌, Bool, true, Option, List, [], ◌∷◌, ◌++◌, length, All,
  Exists, Exists-append, All-append, arith,
}
use permissions_api.Query.Messages.{Error}
use permissions_api.Api.Checks.{CheckRequest}
use permissions_api.Api.Pool.{
  Result, checked, timed_out, Pool, start, Step, take, finish, quit, expire, give_up, collect,
  collect_expired, Reach, here, next,
}

-- How many results are of requests.
abbrev pub asked : List Result → ℕ
asked [] = 0
asked (checked r x ∷ rs) = suc (asked rs)
asked (timed_out ∷ rs) = asked rs

abbrev pub IsAmong : CheckRequest → List CheckRequest → Type 0
IsAmong r rs = Exists (λ q. q ≡ r) rs

abbrev pub IsOf : CheckRequest → Result → Type 0
IsOf r (checked q x) = q ≡ r
IsOf r timed_out = ⊥

pub length-append : {A : Type 0} (xs ys : List A) → length (xs ++ ys) ≡ length xs + length ys
length-append [] ys = omega arith
length-append (x ∷ xs) ys = let ih = length-append xs ys in omega arith

asked-append : (xs ys : List Result) → asked (xs ++ ys) ≡ asked xs + asked ys
asked-append [] ys = omega arith
asked-append (checked r x ∷ xs) ys = let ih = asked-append xs ys in omega arith
asked-append (timed_out ∷ xs) ys = asked-append xs ys

-- The requests that are waiting, taken, sent or collected.
abbrev pub weight : Pool → ℕ
weight p = (length p.requests + length p.busy) + (asked p.results + asked p.received)

abbrev pub IsSomewhere : CheckRequest → Pool → Type 0
IsSomewhere r p =
    (IsAmong r p.requests ⊎ IsAmong r p.busy)
    ⊎ (Exists (IsOf r) p.results ⊎ Exists (IsOf r) p.received)

module _ (answers : CheckRequest → Option Error → Type 0) (total : ℕ) where
  Step-weight : {p q : Pool} → Step answers total p q → weight q ≡ weight p
  Step-weight (take p r rs k h i) = let l = ap length h in omega arith
  Step-weight (finish p before r after x h a room) =
      let l = ap length h ∙ length-append before (r ∷ after) in
      let m = length-append before after in
      let n = asked-append p.results (checked r x ∷ []) in omega arith
  Step-weight (quit p k h i) = refl
  Step-weight (expire p) = refl
  Step-weight (give_up p k h i room) =
      let n = asked-append p.results (timed_out ∷ []) in omega arith
  Step-weight (collect p (checked r x) xs h room) =
      let m = ap asked h in let n = asked-append p.received (checked r x ∷ []) in omega arith
  Step-weight (collect p timed_out xs h room) =
      let m = ap asked h in let n = asked-append p.received (timed_out ∷ []) in omega arith
  Step-weight (collect_expired p h room) =
      let n = asked-append p.received (timed_out ∷ []) in omega arith

  Step-IsSomewhere :
      {p q : Pool} (r : CheckRequest) → Step answers total p q → IsSomewhere r q ↔ IsSomewhere r p
  Step-IsSomewhere r (take p s rs k h i) = rw h (ground arith)
  Step-IsSomewhere r (finish p before s after x h a room) = rw h (
      ground (
        arith,
        Exists-append (λ q. q ≡ r) before after,
        Exists-append (λ q. q ≡ r) before (s ∷ after),
        Exists-append (IsOf r) p.results (checked s x ∷ []),
      ))
  Step-IsSomewhere r (quit p k h i) = ground arith
  Step-IsSomewhere r (expire p) = ground arith
  Step-IsSomewhere r (give_up p k h i room) =
      ground (arith, Exists-append (IsOf r) p.results (timed_out ∷ []))
  Step-IsSomewhere r (collect p x xs h room) =
      rw h (ground (arith, Exists-append (IsOf r) p.received (x ∷ [])))
  Step-IsSomewhere r (collect_expired p h room) =
      ground (arith, Exists-append (IsOf r) p.received (timed_out ∷ []))

  pub Reach-weight :
      {k : ℕ} {rs : List CheckRequest} {n : ℕ} {p : Pool}
      → Reach answers total (start k rs) n p
      → weight p ≡ length rs
  Reach-weight here = omega arith
  Reach-weight (next path step) = Step-weight step ∙ Reach-weight path

  -- No request is lost and none is made up.
  pub Reach-IsSomewhere :
      {k : ℕ} {rs : List CheckRequest} {n : ℕ} {p : Pool} (r : CheckRequest)
      → Reach answers total (start k rs) n p
      → IsSomewhere r p ↔ IsAmong r rs
  Reach-IsSomewhere r here = ground arith
  Reach-IsSomewhere r (next path step) =
      let (f, g) = Step-IsSomewhere r step in
      let (u, v) = Reach-IsSomewhere r path in (λ x. u (f x), λ x. g (v x))

  -- A result is an answer of the engine, unless the time has run out.
  abbrev pub IsTrue : Bool → Result → Type 0
  IsTrue expired (checked r x) = answers r x
  IsTrue expired timed_out = expired ≡ true

  abbrev pub AreTrue : Pool → Type 0
  AreTrue p = All (IsTrue p.expired) p.results × All (IsTrue p.expired) p.received

  expired-IsTrue : (e : Bool) (xs : List Result) → All (IsTrue e) xs → All (IsTrue true) xs
  expired-IsTrue e [] h = tt
  expired-IsTrue e (checked r x ∷ xs) h = (h.0, expired-IsTrue e xs h.1)
  expired-IsTrue e (timed_out ∷ xs) h = (refl, expired-IsTrue e xs h.1)

  Step-AreTrue : {p q : Pool} → Step answers total p q → AreTrue p → AreTrue q
  Step-AreTrue (take p s rs k h i) t = t
  Step-AreTrue (finish p before s after x h a room) (u, v) =
      (All-append (IsTrue p.expired) p.results (checked s x ∷ []) u (a, tt), v)
  Step-AreTrue (quit p k h i) t = t
  Step-AreTrue (expire p) (u, v) =
      (expired-IsTrue p.expired p.results u, expired-IsTrue p.expired p.received v)
  Step-AreTrue (give_up p k h i room) (u, v) =
      (All-append (IsTrue p.expired) p.results (timed_out ∷ []) u (h, tt), v)
  Step-AreTrue (collect p x xs h room) (u, v) =
      let (t, ts) : All (IsTrue p.expired) (x ∷ xs) = subst (All (IsTrue p.expired)) h u in
      (ts, All-append (IsTrue p.expired) p.received (x ∷ []) v (t, tt))
  Step-AreTrue (collect_expired p h room) (u, v) =
      (u, All-append (IsTrue p.expired) p.received (timed_out ∷ []) v (h, tt))

  pub Reach-AreTrue :
      {k : ℕ} {rs : List CheckRequest} {n : ℕ} {p : Pool}
      → Reach answers total (start k rs) n p
      → AreTrue p
  Reach-AreTrue here = (tt, tt)
  Reach-AreTrue (next path step) = Step-AreTrue step (Reach-AreTrue path)
