-- ===== src/Hosts/Found.antt =====
-- What a discovery does to the hosts (diffHosts of pkg/permissions/internal/selecthost/helpers.go).
use mathlib.Core.Path.{subst}
use permissions_api.Base.{
  ℕ, ◌<◌, ◌≡◌, refl, sym, ap, ◌∙◌, inl, inr, String, none, some, List, [], ◌∷◌, ◌==◌, All, map,
  Bool-cases, eq-cases, Option-cases, if◌then◌else◌, arith,
}
use permissions_api.Dict.{Dict, lookup, insert, lookup-insert}
use permissions_api.Hosts.{host_removed, Srv, Host, Texts, host_id, new_host}
use permissions_api.Hosts.Checks.{same-cases}
use permissions_api.Hosts.Selector.{Selector, put}
use permissions_api.Hosts.Discovery.{
  allocate, key_of, host_of, tracked, match_hosts, found_host, new_found, is_listed, remove_hosts,
  diff_hosts,
}

abbrev pub id_in : (ℕ → Host) → ℕ → String
id_in heap a = (heap a).id

-- Removing dots twice removes no more, and a port is read back from its digits.
pub record AreLawful (t : Texts) : Type 0 where
  pub trims : (x : String) → t.trim_dots (t.trim_dots x) ≡ t.trim_dots x
  pub parses : (n : ℕ) → n < 65536 → t.parse_uint16 (t.format_uint n) ≡ n

put-below : (heap : ℕ → Host) (a b : ℕ) (h : Host) → a < b → put heap b h a ≡ heap a
put-below heap a b h l = ground arith

pub put-id :
    (heap : ℕ → Host) (b a : ℕ) (h : Host) → h.id ≡ (heap b).id → (put heap b h a).id ≡ (heap a).id
put-id heap b a h e = elim (same-cases b a) [
  | inl p ↦ rw (p.1) (e ∙ ap (λ c. (heap c).id) p.0)
  | inr p ↦ rw (p) refl
]

cons-eq : {x y : String} {xs ys : List String} → x ≡ y → xs ≡ ys → (x ∷ xs) ≡ (y ∷ ys)
cons-eq e e' = cc (e, e')

nothing-eq : (k : String) (a : ℕ) → ¬ (lookup k [] ≡ some a)
unfolding lookup
nothing-eq k a e = ground arith

ids-eq :
    (heap heap' : ℕ → Host)
    → ((a : ℕ) → (heap a).id ≡ (heap' a).id)
    → (bs : List ℕ) → map (id_in heap) bs ≡ map (id_in heap') bs
ids-eq heap heap' e [] = refl
ids-eq heap heap' e (a ∷ bs) = cons-eq (e a) (ids-eq heap heap' e bs)

some-injective : {b a : ℕ} → some b ≡ some a → b ≡ a
some-injective e = ground arith

put_self : (heap : ℕ → Host) (a : ℕ) (h : Host) → put heap a h a ≡ h
put_self heap a h = ground arith

module _ (t : Texts) (laws : AreLawful t) where
  host_of-id : (r : Srv) → r.port < 65536 → (host_of t r).id ≡ key_of t r
  unfolding new_host host_id
  host_of-id r l = rw (laws.trims r.target, laws.parses r.port l) refl

module _ (t : Texts) where
  match_hosts-new :
      (d : Dict ℕ) (r : Srv) (rs : List Srv) (s : Selector)
      → lookup (key_of t r) d ≡ none
      → match_hosts t d (r ∷ rs) s
        ≡ new_found s.next_host (match_hosts t d rs (allocate (host_of t r) s))
  unfolding match_hosts
  match_hosts-new d r rs s e = rw (match_hosts, e) refl

  match_hosts-tracked :
      (d : Dict ℕ) (r : Srv) (rs : List Srv) (s : Selector) (a : ℕ)
      → lookup (key_of t r) d ≡ some a
      → match_hosts t d (r ∷ rs) s ≡ found_host a (match_hosts t d rs s)
  unfolding match_hosts
  match_hosts-tracked d r rs s a e = rw (match_hosts, e) refl

  -- What a loop over the records finds does not change the hosts that there were.
  pub match_hosts-old :
      (d : Dict ℕ) (rs : List Srv) (s : Selector) (a : ℕ)
      → a < s.next_host
      → (match_hosts t d rs s).selector.heap a ≡ s.heap a
  unfolding match_hosts
  match_hosts-old d [] s a l = refl
  match_hosts-old d (r ∷ rs) s a l = elim (Option-cases (lookup (key_of t r) d)) [
    | inl e ↦ rw (match_hosts-new d r rs s e) (
        match_hosts-old d rs (allocate (host_of t r) s) a (omega arith)
        ∙ put-below s.heap a s.next_host (host_of t r) l)
    | inr (b, e) ↦ rw (match_hosts-tracked d r rs s b e) (match_hosts-old d rs s a l)
  ]

  -- A map of hosts by their identifiers.
  abbrev AreIds : Dict ℕ → Selector → Type 0
  AreIds d s = (k : String) (a : ℕ) → lookup k d ≡ some a → ((s.heap a).id ≡ k) × (a < s.next_host)

  AreIds-allocate : (d : Dict ℕ) (h : Host) (s : Selector) → AreIds d s → AreIds d (allocate h s)
  AreIds-allocate d h s ids k a e =
      let (i, l) = ids k a e in (ap Host.id (put-below s.heap a s.next_host h l) ∙ i, omega arith)

  found_id :
      (s : Selector) (b : ℕ) (k : String) (a : ℕ)
      → (s.heap b).id ≡ k
      → b < s.next_host
      → b ≡ a
      → ((s.heap a).id ≡ k) × (a < s.next_host)
  found_id s b k a i l e = subst (λ c. ((s.heap c).id ≡ k) × (c < s.next_host)) e (i, l)

  inserted :
      (s : Selector) (b : ℕ) (d : Dict ℕ)
      → b < s.next_host
      → AreIds d s
      → (k : String) (a : ℕ) → (if (s.heap b).id == k then some b else lookup k d) ≡ some a
      → ((s.heap a).id ≡ k) × (a < s.next_host)
  inserted s b d l ids k a e = elim (eq-cases (s.heap b).id k) [
    | inl p ↦
        found_id s b k a p.0 l
          (some-injective (subst (λ x. (if x then some b else lookup k d) ≡ some a) p.1 e))
    | inr p ↦ ids k a (subst (λ x. (if x then some b else lookup k d) ≡ some a) p.1 e)
  ]

  AreIds-tracked :
      (s : Selector) (bs : List ℕ) (d : Dict ℕ)
      → All (λ a. a < s.next_host) bs
      → AreIds d s
      → AreIds (tracked s.heap bs d) s
  AreIds-tracked s [] d f ids = ids
  AreIds-tracked s (b ∷ bs) d f ids =
      AreIds-tracked s bs (insert (s.heap b).id b d) f.1
        (λ k a e. inserted s b d f.0 ids k a (sym (lookup-insert (s.heap b).id k b d) ∙ e))

module _ (t : Texts) (laws : AreLawful t) where
  match_hosts-id :
      (d : Dict ℕ) (rs : List Srv) (s : Selector)
      → All (λ r. Srv.port r < 65536) rs
      → AreIds t d s
      → map (id_in (match_hosts t d rs s).selector.heap) (match_hosts t d rs s).matched
        ≡ map (key_of t) rs
  unfolding match_hosts
  match_hosts-id d [] s p ids = refl
  match_hosts-id d (r ∷ rs) s p ids = elim (Option-cases (lookup (key_of t r) d)) [
    | inl e ↦ rw (match_hosts-new t d r rs s e) (
        cons-eq
          (ap Host.id (
              match_hosts-old t d rs (allocate (host_of t r) s) s.next_host (omega arith)
              ∙ put_self s.heap s.next_host (host_of t r))
            ∙ host_of-id t laws r p.0)
          (match_hosts-id d rs (allocate (host_of t r) s) p.1
            (AreIds-allocate t d (host_of t r) s ids)))
    | inr (b, e) ↦ rw (match_hosts-tracked t d r rs s b e) (
        cons-eq
          (ap Host.id (match_hosts-old t d rs s b (ids (key_of t r) b e).1)
            ∙ (ids (key_of t r) b e).0)
          (match_hosts-id d rs s p.1 ids))
  ]

module _ (t : Texts) where
  remove_hosts-id :
      (rs : List Srv) (bs : List ℕ) (heap : ℕ → Host) (a : ℕ)
      → ((remove_hosts t rs bs heap).1 a).id ≡ (heap a).id
  unfolding remove_hosts
  remove_hosts-id rs [] heap a = refl
  remove_hosts-id rs (b ∷ bs) heap a = elim (Bool-cases (is_listed t rs (heap b).id)) [
    | inl e ↦ rw (e) (remove_hosts-id rs bs heap a)
    | inr e ↦ rw (e) (
        remove_hosts-id rs bs (put heap b (record (heap b) { error = some host_removed })) a
        ∙ put-id heap b a (record (heap b) { error = some host_removed }) refl)
  ]

-- If the hosts of the selector are in its heap, the ports of the records have 16 bits, and the names
-- and ports that are written are read back, the hosts that a discovery gives have the identifiers of
-- its records, in the order of the records.
pub diff_hosts-id :
    (t : Texts) (laws : AreLawful t) (s : Selector) (rs : List Srv)
    → All (λ a. a < s.next_host) s.hosts
    → All (λ r. Srv.port r < 65536) rs
    → map (id_in (diff_hosts t s rs).selector.heap) (diff_hosts t s rs).matched ≡ map (key_of t) rs
unfolding diff_hosts
diff_hosts-id t laws s rs f p =
    let m = match_hosts t (tracked s.heap s.hosts []) rs s in
    ids-eq (remove_hosts t rs s.hosts m.selector.heap).1 m.selector.heap
      (remove_hosts-id t rs s.hosts m.selector.heap) m.matched
    ∙ match_hosts-id t laws (tracked s.heap s.hosts []) rs s p
        (AreIds-tracked t s s.hosts [] f (λ k a e. absurd (nothing-eq k a e)))
