-- ===== src/Hosts/Checks.antt =====
-- The checks of the hosts (pkg/permissions/internal/selecthost/host.go and selector.go).
use mathlib.Core.Path.{subst}
use Prim.Native.Nat.add
use permissions_api.Base.{
  is_empty, Permᴰ, Exists-perm, Bool-cases, ℕ, zero, suc, ◌+◌, ◌≤◌, ◌≡◌, refl, ap, ◌∙◌, sym, ◌↔◌,
  ◌⊎◌, inl, inr, Bool, true, false, Option, none, some, List, [], ◌∷◌, Exists, Holds, ◌++◌, arith,
}
use permissions_api.Hosts.Choice.{HasNoError, select_host-HasNoError, select_host-heap}
use permissions_api.Hosts.Selector.{
  Selector, same, put, check_each, select_host, run_checks, sorted, check_hosts,
}
use permissions_api.Hosts.{
  HostError, Results, no_results, Host, Answer, run, add_run, with_error, last_error, is_stopped,
  check_loop, check,
}

last_error-append : (xs : List HostError) (x : HostError) → last_error (xs ++ x ∷ []) ≡ some x
last_error-append [] x = refl
last_error-append (y ∷ []) x = refl
last_error-append (y ∷ z ∷ xs) x = last_error-append (z ∷ xs) x

-- An error is the last one, if there is one.
last_error-with_error :
    (xs : List HostError) (o : Option HostError)
    → (last_error (with_error xs o) ≡ none) ↔ ((last_error xs ≡ none) × (o ≡ none))
last_error-with_error xs none = ground arith
last_error-with_error xs (some x) = rw (last_error-append xs x) (ground arith)

-- The runs below a number have no error.
abbrev pub Clean : (ℕ → Answer) → ℕ → Type 0
Clean ask zero = Unit
Clean ask (suc n) = Clean ask n × ((run (ask n)).1 ≡ none)

not_below : (k : ℕ) → ¬ (suc k ≤ 0)
not_below k l = omega arith

at_most_suc : (k m : ℕ) → k ≤ suc m → (k ≤ m) ⊎ (k ≡ suc m)
at_most_suc k m l = ground arith

Clean-below : (ask : ℕ → Answer) (k m : ℕ) → Clean ask m → k ≤ m → Clean ask k
Clean-below ask zero zero h l = tt
Clean-below ask (suc k) zero h l = absurd (not_below k l)
Clean-below ask k (suc m) h l = elim (at_most_suc k m l) [
  | inl b ↦ Clean-below ask k m h.0 b
  | inr e ↦ subst (Clean ask) (sym e) h
]

module _ (stop : ℕ → Bool) (ask : ℕ → Answer) where
  -- The results so far say whether the runs so far had an error.
  abbrev IsFaithful : Results → Type 0
  IsFaithful r = (last_error r.errors ≡ none) ↔ Clean ask r.checks

  add_run-IsFaithful : (r : Results) → IsFaithful r → IsFaithful (add_run r (run (ask r.checks)))
  add_run-IsFaithful r h =
      let l = last_error-with_error r.errors (run (ask r.checks)).1 in
      (λ e. (h.0 (l.0 e).0, (l.0 e).1), λ k. l.1 (h.1 k.0, k.1))

  check_loop_lem :
      (i n : ℕ) (r : Results)
      → r.checks ≡ i
      → IsFaithful r
      → IsFaithful (check_loop stop ask i n r) × ((check_loop stop ask i n r).checks ≤ i + n)
  unfolding check_loop
  check_loop_lem i zero r e h = (h, omega arith)
  check_loop_lem i (suc n) r e h =
      let rest =
        check_loop_lem (suc i) n (add_run r (run (ask i))) (ap suc e)
          (subst (λ j. IsFaithful (add_run r (run (ask j)))) e (add_run-IsFaithful r h)) in
      elim (Bool-cases (is_stopped stop i)) [
        | inl p ↦ rw (p) (h, omega arith)
        | inr p ↦ rw (p) (rest.0, let l = rest.1 in omega arith)
      ]

-- A check makes at most as many runs as are configured, and the host has no error after it exactly
-- if none of the runs that were made had one.
pub check_lem :
    (check_count : ℕ) (stop : ℕ → Bool) (ask : ℕ → Answer) (h : Host)
    → ((check check_count stop ask h).last_check.checks ≤ check_count)
      × (((check check_count stop ask h).error ≡ none)
          ↔ Clean ask (check check_count stop ask h).last_check.checks)
unfolding check
check_lem n stop ask h =
    let l = check_loop_lem stop ask 0 n no_results refl ((λ _. tt), λ _. refl) in
    (subst (λ k. (check_loop stop ask 0 n no_results).checks ≤ k) (add.zero n) l.1, l.0)

pub same-cases : (a b : ℕ) → ((a ≡ b) × (same a b ≡ true)) ⊎ (same a b ≡ false)
same-cases a b = ground arith

module _ (n : ℕ) (stop : ℕ → ℕ → Bool) (ask : ℕ → ℕ → Answer) where
  -- The error that a check of the host leaves, which depends only on what its requests come to.
  abbrev error_after : ℕ → Option HostError
  error_after a = last_error (check_loop (stop a) (ask a) 0 n no_results).errors

  abbrev checked : (ℕ → Host) → ℕ → ℕ → Host
  checked heap b = put heap b (check n (stop b) (ask b) (heap b))

  checked_self : (heap : ℕ → Host) (a : ℕ) → (checked heap a a).error ≡ error_after a
  unfolding check
  checked_self heap a = ground arith

  checked-other :
      (heap : ℕ → Host) (b a : ℕ)
      → (heap a).error ≡ error_after a
      → (checked heap b a).error ≡ error_after a
  checked-other heap b a e = elim (same-cases b a) [
    | inl p ↦ subst (λ c. (checked heap b c).error ≡ error_after c) p.0 (checked_self heap b)
    | inr p ↦ rw (p) e
  ]

  check_each-keeps :
      (bs : List ℕ) (heap : ℕ → Host) (a : ℕ)
      → (heap a).error ≡ error_after a
      → (check_each n stop ask bs heap a).error ≡ error_after a
  unfolding check_each
  check_each-keeps [] heap a e = e
  check_each-keeps (b ∷ bs) heap a e =
      check_each-keeps bs (checked heap b) a (checked-other heap b a e)

  -- The host that is checked has this error when all are.
  check_each-error :
      (bs : List ℕ) (heap : ℕ → Host) (a : ℕ)
      → Exists (λ b. b ≡ a) bs
      → (check_each n stop ask bs heap a).error ≡ error_after a
  unfolding check_each
  check_each-error [] heap a m = absurd m
  check_each-error (b ∷ bs) heap a (inl e) =
      check_each-keeps bs (checked heap b) a
        (subst (λ c. (checked heap b c).error ≡ error_after c) e (checked_self heap b))
  check_each-error (b ∷ bs) heap a (inr m) = check_each-error bs (checked heap b) a m

  error_after-Clean : (a : ℕ) → Clean (ask a) n → error_after a ≡ none
  error_after-Clean a h =
      let l = check_loop_lem (stop a) (ask a) 0 n no_results refl ((λ _. tt), λ _. refl) in
      l.0.1 (
        Clean-below (ask a) (check_loop (stop a) (ask a) 0 n no_results).checks n h
          (subst (λ k. (check_loop (stop a) (ask a) 0 n no_results).checks ≤ k) (add.zero n) l.1))

not_empty : (a : ℕ) (bs : List ℕ) → Exists (λ b. b ≡ a) bs → ¬ (is_empty bs ≡ true)
not_empty a [] m e = m
not_empty a (b ∷ bs) m e = ground arith

pub Exists-map :
    {P Q : ℕ → Type 0} (bs : List ℕ) → ((b : ℕ) → P b → Q b) → Exists P bs → Exists Q bs
Exists-map [] f h = h
Exists-map (b ∷ bs) f (inl h) = inl (f b h)
Exists-map (b ∷ bs) f (inr h) = inr (Exists-map bs f h)

pub select_host-Holds :
    (now later : ℕ) (s : Selector)
    → Exists (HasNoError s.heap) s.hosts
    → Holds (HasNoError (select_host now later s).heap) (select_host now later s).selected
select_host-Holds now later s h =
    subst (λ heap. Holds (HasNoError heap) (select_host now later s).selected)
      (sym (select_host-heap now later s)) (select_host-HasNoError now later s h)

module _ (stop : ℕ → ℕ → Bool) (ask : ℕ → ℕ → Answer) (s : Selector) where
  run_checks-HasNoError :
      (a : ℕ)
      → same s.check_concurrency 0 ≡ false
      → Exists (λ b. b ≡ a) s.hosts
      → Clean (ask a) s.check_count
      → HasNoError (run_checks stop ask s) a
  unfolding run_checks
  run_checks-HasNoError a c m h = rw (c) (
      check_each-error s.check_count stop ask s.hosts s.heap a m
      ∙ error_after-Clean s.check_count stop ask a h)

-- If at least one worker checks the hosts, and one host would answer each of its requests without an
-- error, then the host that is selected after the checks has no error, whatever order the hosts are
-- sorted in.
pub check_hosts-HasNoError :
    (sort : (ℕ → ℕ → Bool) → List ℕ → List ℕ)
    (permutes : (p : ℕ → ℕ → Bool) (bs : List ℕ) → Permᴰ bs (sort p bs)) (stop : ℕ → ℕ → Bool)
    (ask : ℕ → ℕ → Answer) (now later : ℕ) (s : Selector) (a : ℕ)
    → same s.check_concurrency 0 ≡ false
    → Exists (λ b. b ≡ a) s.hosts
    → Clean (ask a) s.check_count
    → Holds
        (HasNoError (check_hosts sort stop ask now later s).heap)
        (check_hosts sort stop ask now later s).selected
unfolding check_hosts
check_hosts-HasNoError sort permutes stop ask now later s a c m h =
    let hosts = Exists-perm (λ b. b ≡ a) (permutes _ s.hosts) m in
    let healthy =
      Exists-map _
        (λ b e.
          subst (HasNoError (run_checks stop ask s)) (sym e)
            (run_checks-HasNoError stop ask s a c m h))
        hosts in
    elim (Bool-cases (is_empty s.hosts)) [
      | inl e ↦ absurd (not_empty a s.hosts m e)
      | inr e ↦ rw (e) (select_host-Holds now later (sorted sort (run_checks stop ask s) s) healthy)
    ]
