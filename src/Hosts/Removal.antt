-- ===== src/Hosts/Removal.antt =====
-- Which hosts a discovery marks as removed (diffHosts of
-- pkg/permissions/internal/selecthost/helpers.go).
use mathlib.Core.Path.{subst}
use permissions_api.Base.{
  any_iff, eq_iff, ◌==◌, String, ◌↔◌, ◌⊎◌, ℕ, ◌<◌, ◌≡◌, refl, sym, ap, ◌∙◌, inl, inr, true, false,
  some, List, [], ◌∷◌, All, Exists, Bool-cases, arith,
}
use permissions_api.Hosts.{host_removed, Srv, Host, Texts, host_id}
use permissions_api.Hosts.Checks.{same-cases}
use permissions_api.Hosts.Selector.{Selector, put}
use permissions_api.Hosts.Discovery.{
  tracked, match_hosts, key_of, is_listed, remove_hosts, diff_hosts,
}
use permissions_api.Hosts.Found.{match_hosts-old, put-id}

abbrev marked : (ℕ → Host) → ℕ → ℕ → Host
marked heap b = put heap b (record (heap b) { error = some host_removed })

marked_self : (heap : ℕ → Host) (a : ℕ) → (marked heap a a).error ≡ some host_removed
marked_self heap a = ground arith

true-ne-false : ¬ (true ≡ false)
true-ne-false e = ground arith

module _ (t : Texts) (rs : List Srv) where
  marked-listed :
      (heap : ℕ → Host) (b a : ℕ)
      → is_listed t rs (heap b).id ≡ false
      → is_listed t rs (heap a).id ≡ true
      → marked heap b a ≡ heap a
  marked-listed heap b a u l = elim (same-cases b a) [
    | inl p ↦ absurd (true-ne-false (sym l ∙ ap (λ c. is_listed t rs (heap c).id) (sym p.0) ∙ u))
    | inr p ↦ rw (p) refl
  ]

  remove_hosts-listed :
      (bs : List ℕ) (heap : ℕ → Host) (a : ℕ)
      → is_listed t rs (heap a).id ≡ true
      → (remove_hosts t rs bs heap).1 a ≡ heap a
  unfolding remove_hosts
  remove_hosts-listed [] heap a l = refl
  remove_hosts-listed (b ∷ bs) heap a l = elim (Bool-cases (is_listed t rs (heap b).id)) [
    | inl e ↦ rw (e) (remove_hosts-listed bs heap a l)
    | inr e ↦
        let m = marked-listed heap b a e l in
        rw (e) (
          remove_hosts-listed bs (marked heap b) a (ap (λ h. is_listed t rs (Host.id h)) m ∙ l) ∙ m)
  ]

  marked-stays :
      (heap : ℕ → Host) (b a : ℕ)
      → (heap a).error ≡ some host_removed
      → (marked heap b a).error ≡ some host_removed
  marked-stays heap b a e = ground arith

  remove_hosts-stays :
      (bs : List ℕ) (heap : ℕ → Host) (a : ℕ)
      → (heap a).error ≡ some host_removed
      → ((remove_hosts t rs bs heap).1 a).error ≡ some host_removed
  unfolding remove_hosts
  remove_hosts-stays [] heap a e = e
  remove_hosts-stays (b ∷ bs) heap a e = elim (Bool-cases (is_listed t rs (heap b).id)) [
    | inl l ↦ rw (l) (remove_hosts-stays bs heap a e)
    | inr u ↦ rw (u) (remove_hosts-stays bs (marked heap b) a (marked-stays heap b a e))
  ]

  marked-id : (heap : ℕ → Host) (b a : ℕ) → (marked heap b a).id ≡ (heap a).id
  marked-id heap b a = put-id heap b a (record (heap b) { error = some host_removed }) refl

  -- A host that is listed is another than one that is not.
  later :
      (bs : List ℕ) (heap : ℕ → Host) (b a : ℕ)
      → is_listed t rs (heap b).id ≡ true
      → is_listed t rs (heap a).id ≡ false
      → Exists (λ c. c ≡ a) (b ∷ bs)
      → Exists (λ c. c ≡ a) bs
  later bs heap b a l u (inl e) =
      absurd (true-ne-false (sym l ∙ ap (λ c. is_listed t rs (heap c).id) e ∙ u))
  later bs heap b a l u (inr m) = m

  remove_hosts-unlisted :
      (bs : List ℕ) (heap : ℕ → Host) (a : ℕ)
      → is_listed t rs (heap a).id ≡ false
      → Exists (λ b. b ≡ a) bs
      → ((remove_hosts t rs bs heap).1 a).error ≡ some host_removed
  unfolding remove_hosts
  remove_hosts-unlisted [] heap a u m = absurd m
  remove_hosts-unlisted (b ∷ bs) heap a u m = elim (Bool-cases (is_listed t rs (heap b).id)) [
    | inl l ↦ rw (l) (remove_hosts-unlisted bs heap a u (later bs heap b a l u m))
    | inr w ↦ rw (w) (elim m [
      | inl e ↦
          remove_hosts-stays bs (marked heap b) a
            (subst (λ c. (marked heap b c).error ≡ some host_removed) e (marked_self heap b))
      | inr k ↦
          remove_hosts-unlisted bs (marked heap b) a (ap (is_listed t rs) (marked-id heap b a) ∙ u)
            k
    ])
  ]

below-All : (n : ℕ) (bs : List ℕ) (a : ℕ) → All (λ b. b < n) bs → Exists (λ b. b ≡ a) bs → a < n
below-All n [] a f m = absurd m
below-All n (b ∷ bs) a f (inl e) = subst (λ c. c < n) e f.0
below-All n (b ∷ bs) a f (inr m) = below-All n bs a f.1 m

-- The record has this target, port, priority and weight in its identifier.
abbrev pub IsIdOf : Texts → String → Srv → Type 0
IsIdOf t id r = host_id t r.target r.port r.priority r.weight ≡ id

is_listed_iff :
    (t : Texts) (rs : List Srv) (id : String) → (is_listed t rs id ≡ true) ↔ Exists (IsIdOf t id) rs
is_listed_iff t rs id =
    any_iff (λ r. key_of t r == id) (IsIdOf t id) (λ r. eq_iff (key_of t r) id) rs

-- If the hosts of the selector are in its heap, a discovery leaves the error of a host whose
-- identifier is that of a record, by its target, port, priority and weight, and marks any other as
-- removed.
pub diff_hosts-error :
    (t : Texts) (s : Selector) (rs : List Srv) (a : ℕ)
    → All (λ b. b < s.next_host) s.hosts
    → Exists (λ b. b ≡ a) s.hosts
    → (Exists (IsIdOf t (s.heap a).id) rs
        × (((diff_hosts t s rs).selector.heap a).error ≡ (s.heap a).error))
      ⊎ ((¬ Exists (IsIdOf t (s.heap a).id) rs)
          × (((diff_hosts t s rs).selector.heap a).error ≡ some host_removed))
unfolding diff_hosts
diff_hosts-error t s rs a f m =
    let d = tracked s.heap s.hosts [] in
    let o = match_hosts-old t d rs s a (below-All s.next_host s.hosts a f m) in
    let heap = (match_hosts t d rs s).selector.heap in
    elim (Bool-cases (is_listed t rs (s.heap a).id)) [
      | inl l ↦ inl (
        (is_listed_iff t rs (s.heap a).id).0 l,
        ap Host.error (
            remove_hosts-listed t rs s.hosts heap a (ap (λ h. is_listed t rs (Host.id h)) o ∙ l)
            ∙ o),
      )
      | inr u ↦ inr (
        λ x. true-ne-false (sym ((is_listed_iff t rs (s.heap a).id).1 x) ∙ u),
        remove_hosts-unlisted t rs s.hosts heap a (ap (λ h. is_listed t rs (Host.id h)) o ∙ u) m,
      )
    ]
