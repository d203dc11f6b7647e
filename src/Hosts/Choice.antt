-- ===== src/Hosts/Choice.antt =====
-- Which host selectHost chooses (pkg/permissions/internal/selecthost/selector.go).
use permissions_api.Base.{
  Bool-cases, ◌≢◌, ℕ, ◌≡◌, refl, ap, ◌∙◌, sym, ◌↔◌, ◌⊎◌, inl, inr, Bool, true, false, not, ◌&&◌,
  Option, none, some, List, [], ◌∷◌, Exists, Holds, is_some, if◌then◌else◌, arith,
}
use permissions_api.Hosts.{ltb, Host}
use permissions_api.Hosts.Selector.{
  Selector, same_host, has_id, or_if, Found, nothing_found, noted, scan, chosen, select_host,
}

-- The first host of a list that passes a test.
abbrev pub find : (ℕ → Bool) → List ℕ → Option ℕ
find p [] = none
find p (a ∷ bs) = if p a then some a else find p bs

abbrev pub is_healthy : (ℕ → Host) → ℕ → Bool
is_healthy heap a = not (is_some (heap a).error)

infixr 20 ◌otherwise◌
abbrev pub ◌otherwise◌ : Option ℕ → Option ℕ → Option ℕ
some a otherwise o = some a
none otherwise o = o

abbrev pub healthy_with_id : Selector → Option ℕ → Option ℕ
healthy_with_id s x = find (λ a. is_healthy s.heap a && has_id s.heap x a) s.hosts

-- The order of preference that the comment of `selectHost` gives.
abbrev pub preferred : ℕ → Selector → Option ℕ
preferred now s =
    (if ltb now s.sticky_until then healthy_with_id s s.selected else none)
    otherwise healthy_with_id s s.prefer
    otherwise find (is_healthy s.heap) s.hosts
    otherwise s.fallback
    otherwise s.selected

kept :
    (o : Option ℕ) (test : Bool) (a : ℕ) (rest : Option ℕ)
    → (or_if o test a otherwise rest) ≡ (o otherwise (if test then some a else rest))
kept o test a rest = ground arith

module _ (s : Selector) where
  -- The test of a host in the search for one kind of host.
  abbrev healthy_and : (ℕ → Bool) → ℕ → Bool
  healthy_and p a = is_healthy s.heap a && p a

  scan-first :
      (f : Found) (bs : List ℕ)
      → (scan s f bs).first ≡ (f.first otherwise find (is_healthy s.heap) bs)
  unfolding scan
  scan-first f [] = ground arith
  scan-first f (a ∷ bs) = ground (arith, scan-first f bs, scan-first (noted s f a) bs)

  scan-selected :
      (f : Found) (bs : List ℕ)
      → (scan s f bs).selected
        ≡ (f.selected otherwise find (healthy_and (has_id s.heap s.selected)) bs)
  unfolding scan
  scan-selected f [] = ground arith
  scan-selected f (a ∷ bs) = ground (arith, scan-selected f bs, scan-selected (noted s f a) bs)

  scan-prefer :
      (f : Found) (bs : List ℕ)
      → (scan s f bs).prefer ≡ (f.prefer otherwise find (healthy_and (has_id s.heap s.prefer)) bs)
  unfolding scan
  scan-prefer f [] = ground arith
  scan-prefer f (a ∷ bs) = ground (arith, scan-prefer f bs, scan-prefer (noted s f a) bs)

  -- A host that passes both tests passes the first.
  find-healthy_and :
      (p : ℕ → Bool) (bs : List ℕ)
      → find (is_healthy s.heap) bs ≡ none
      → find (healthy_and p) bs ≡ none
  find-healthy_and p [] h = refl
  find-healthy_and p (a ∷ bs) h = ground (arith, find-healthy_and p bs)

  same_host-eq : (o o' : Option ℕ) → same_host o o' ≡ true → o ≡ o'
  same_host-eq none none h = refl
  same_host-eq none (some b) h = ground arith
  same_host-eq (some a) none h = ground arith
  same_host-eq (some a) (some b) h = ap some (ground arith)

  -- What is kept is the choice, if there is one, and the host before, if not.
  select_host-selected :
      (now later : ℕ)
      → (select_host now later s).selected
        ≡ (chosen s (ltb now s.sticky_until) (scan s nothing_found s.hosts) otherwise s.selected)
  unfolding select_host
  select_host-selected now later =
      let c = chosen s (ltb now s.sticky_until) (scan s nothing_found s.hosts) in
      ground (arith, same_host-eq s.selected c)

  chosen-otherwise :
      (sticky : Bool) (f : Found) (old : Option ℕ)
      → (f.first ≡ none → f.selected ≡ none)
      → (chosen s sticky f otherwise old) ≡ (
          (if sticky then f.selected else none)
          otherwise f.prefer
          otherwise f.first
          otherwise s.fallback
          otherwise old)
  chosen-otherwise sticky f old h = ground arith

-- The selected host is the one that the order of preference gives: the current host, if it is among
-- the hosts without an error and is sticky; then the preferred host, if it is among these; then the
-- first of these; then the fallback; and then the current host.
pub select_host_lem :
    (now later : ℕ) (s : Selector) → (select_host now later s).selected ≡ preferred now s
select_host_lem now later s =
    select_host-selected s now later
    ∙ chosen-otherwise s (ltb now s.sticky_until) (scan s nothing_found s.hosts) s.selected (λ e.
      scan-selected s nothing_found s.hosts
      ∙ find-healthy_and s _ s.hosts (sym (scan-first s nothing_found s.hosts) ∙ e))
    ∙ rw
        (
          scan-first s nothing_found s.hosts,
          scan-selected s nothing_found s.hosts,
          scan-prefer s nothing_found s.hosts,
        )
        refl

abbrev pub HasNoError : (ℕ → Host) → ℕ → Type 0
HasNoError heap a = (heap a).error ≡ none

some-ne-none : {a : ℕ} → ¬ (some a ≡ none)
some-ne-none e = ground arith

module _ (heap : ℕ → Host) where
  is_healthy_iff : (a : ℕ) → (is_healthy heap a ≡ true) ↔ HasNoError heap a
  is_healthy_iff a = ground arith

  -- A host that is found passes the test.
  find-Holds :
      (p : ℕ → Bool) (bs : List ℕ)
      → (find p bs ≡ none) ⊎ ((a : ℕ) × (find p bs ≡ some a) × (p a ≡ true))
  find-Holds p [] = inl refl
  find-Holds p (a ∷ bs) = elim (Bool-cases (p a)) [
    | inl e ↦ inr (a, ground arith, e)
    | inr e ↦ ground (arith, find-Holds p bs)
  ]

  find-ne-none : (bs : List ℕ) → Exists (HasNoError heap) bs → find (is_healthy heap) bs ≢ none
  find-ne-none [] e h = e
  find-ne-none (a ∷ bs) (inl e) h = ground arith
  find-ne-none (a ∷ bs) (inr e) h = ground (arith, find-ne-none bs e)

  otherwise-Holds :
      (P : ℕ → Type 0) (o rest : Option ℕ)
      → (o ≡ none) ⊎ Holds P o
      → Holds P rest
      → Holds P (o otherwise rest)
  otherwise-Holds P none rest h k = k
  otherwise-Holds P (some a) rest (inl e) k = absurd (some-ne-none e)
  otherwise-Holds P (some a) rest (inr h) k = h

  -- What a search for hosts without an error finds.
  search-Holds :
      (p : ℕ → Bool) (bs : List ℕ)
      → ((a : ℕ) → p a ≡ true → HasNoError heap a)
      → (find p bs ≡ none) ⊎ Holds (HasNoError heap) (find p bs)
  search-Holds p bs h = elim (find-Holds p bs) [
    | inl e ↦ inl e
    | inr (a, e, t) ↦ inr (rw (e) (h a t))
  ]

module _ (s : Selector) where
  with_id-Holds :
      (x : Option ℕ)
      → (healthy_with_id s x ≡ none) ⊎ Holds (HasNoError s.heap) (healthy_with_id s x)
  with_id-Holds x = search-Holds s.heap _ s.hosts (λ a e. ground arith)

  sticky-Holds :
      (b : Bool)
      → ((if b then healthy_with_id s s.selected else none) ≡ none)
        ⊎ Holds (HasNoError s.heap) (if b then healthy_with_id s s.selected else none)
  sticky-Holds true = with_id-Holds s.selected
  sticky-Holds false = inl refl

  first-Holds :
      (rest : Option ℕ)
      → Exists (HasNoError s.heap) s.hosts
      → Holds (HasNoError s.heap) (find (is_healthy s.heap) s.hosts otherwise rest)
  first-Holds rest h = elim (find-Holds s.heap (is_healthy s.heap) s.hosts) [
    | inl e ↦ absurd (find-ne-none s.heap s.hosts h e)
    | inr (a, e, t) ↦ rw (e) ((is_healthy_iff s.heap a).0 t)
  ]

  preferred-Holds :
      (now : ℕ) → Exists (HasNoError s.heap) s.hosts → Holds (HasNoError s.heap) (preferred now s)
  preferred-Holds now h =
      otherwise-Holds s.heap (HasNoError s.heap) _ _ (sticky-Holds (ltb now s.sticky_until))
        (otherwise-Holds s.heap (HasNoError s.heap) _ _ (with_id-Holds s.prefer) (first-Holds _ h))

-- If one of the hosts has no error, the selected host has none.
pub select_host-HasNoError :
    (now later : ℕ) (s : Selector)
    → Exists (HasNoError s.heap) s.hosts
    → Holds (HasNoError s.heap) (select_host now later s).selected
select_host-HasNoError now later s h = rw (select_host_lem now later s) (preferred-Holds s now h)

-- Selecting a host changes no host.
pub select_host-heap : (now later : ℕ) (s : Selector) → (select_host now later s).heap ≡ s.heap
unfolding select_host
select_host-heap now later s = ground arith
