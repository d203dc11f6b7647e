-- ===== src/Hosts/Failover.antt =====
-- What a failed request to the selected host does (RoundTrip of
-- pkg/permissions/internal/selecthost/http.go).
use permissions_api.Base.{
  ℕ, String, ◌≡◌, ◌≢◌, refl, ap, ◌∙◌, ◌⊎◌, inl, inr, true, some, ◌==◌, Exists, Holds, arith,
}
use permissions_api.Hosts.{HostError, Host, Texts}
use permissions_api.Hosts.Selector.{Selector, put, select_host}
use permissions_api.Hosts.Choice.{HasNoError, select_host-heap}
use permissions_api.Hosts.Checks.{Exists-map, select_host-Holds}
use permissions_api.Hosts.Transport.{Request, selected_error, address_of, redirected, round_trip}

-- The selector with an error on a host.
abbrev failed_at : ℕ → HostError → Selector → Selector
failed_at a x s = record s { heap = put s.heap a (record (s.heap a) { error = some x }) }

failed_at_self : (a : ℕ) (x : HostError) (s : Selector) → ((failed_at a x s).heap a).error ≡ some x
failed_at_self a x s = ground arith

failed_at-other :
    (a b : ℕ) (x : HostError) (s : Selector)
    → a ≢ b
    → HasNoError s.heap b
    → HasNoError (failed_at a x s).heap b
failed_at-other a b x s n e = ground arith

module _ {A : Type 0} (t : Texts) (send : Request → HostError ⊎ A) (target : String)
    (now later : ℕ) where
  round_trip-failed :
      (r : Request) (s : Selector) (a : ℕ) (x : HostError)
      → (r.url_host == target) ≡ true
      → send (redirected t (s.heap a) r) ≡ inl x
      → round_trip t send target now later r (inr a) s
        ≡ (selected_error (address_of t (s.heap a) r) x, select_host now later (failed_at a x s))
  unfolding round_trip
  round_trip-failed r s a x e f = rw (e, f) refl

  -- If a request to the target fails at the selected host, and another host of the selector has no
  -- error, then the error is returned with the host's address and left on the host, and the host that
  -- is selected for the next request has no error.
  pub round_trip_lem :
      (r : Request) (s : Selector) (a : ℕ) (x : HostError)
      → (r.url_host == target) ≡ true
      → send (redirected t (s.heap a) r) ≡ inl x
      → Exists (λ b. (a ≢ b) × HasNoError s.heap b) s.hosts
      → ((round_trip t send target now later r (inr a) s).0
          ≡ selected_error (address_of t (s.heap a) r) x)
        × (((round_trip t send target now later r (inr a) s).1.heap a).error ≡ some x)
        × Holds
            (HasNoError (round_trip t send target now later r (inr a) s).1.heap)
            (round_trip t send target now later r (inr a) s).1.selected
  round_trip_lem r s a x e f m =
      let s' = failed_at a x s in
      rw (round_trip-failed r s a x e f) (
        refl,
        ap (λ heap. Host.error (heap a)) (select_host-heap now later s') ∙ failed_at_self a x s,
        select_host-Holds now later s'
            (Exists-map s.hosts (λ b p. failed_at-other a b x s p.0 p.1) m),
      )
