-- ===== src/Hosts/Discovery.antt =====
-- How the hosts of a selector are configured and found: parseHost and diffHosts of
-- pkg/permissions/internal/selecthost/helpers.go, options.go, and NewSelector and discoverRecords of
-- selector.go.
use permissions_api.Base.{
  ℕ, suc, String, Bool, none, some, List, [], ◌∷◌, ◌==◌, ◌⊎◌, inl, inr, any, if◌then◌else◌,
}
use permissions_api.Dict.{Dict, lookup, insert}
use permissions_api.Hosts.{
  HostError, host_removed, Srv, Host, Split, split, missing_port, malformed, Texts, host_id,
  new_host,
}
use permissions_api.Hosts.Selector.{Selector, put}

abbrev no_srv : Srv
no_srv = record { target = ""; port = 0; priority = 0; weight = 0 }

-- `host` in a new place of the heap.
abbrev pub allocate : Host → Selector → Selector
allocate h s = record s { heap = put s.heap s.next_host h; next_host = suc s.next_host }

-- The map `trackedHosts`.
abbrev pub tracked : (ℕ → Host) → List ℕ → Dict ℕ → Dict ℕ
tracked heap [] d = d
tracked heap (a ∷ bs) d = tracked heap bs (insert (heap a).id a d)

pub record Matched : Type 0 where
  pub added : List ℕ
  pub matched : List ℕ
  pub selector : Selector

abbrev pub found_host : ℕ → Matched → Matched
found_host a m = record m { matched = a ∷ m.matched }

abbrev pub new_found : ℕ → Matched → Matched
new_found a m = record m { added = a ∷ m.added; matched = a ∷ m.matched }

pub record Difference : Type 0 where
  pub added : List ℕ
  pub removed : List ℕ
  pub matched : List ℕ
  pub selector : Selector

module _ (t : Texts) where
  abbrev parsed : String → Split → HostError ⊎ Host
  parsed host (split h p) = inr (new_host t h p no_srv)
  parsed host missing_port = inr (new_host t host "" no_srv)
  parsed host (malformed x) = inl x

  unfoldable pub parse_host : String → HostError ⊎ Host
  parse_host host = parsed host (t.split_host_port host)

  -- An option of a selector: a change, or an error.
  unfoldable pub prefer : String → Selector → HostError ⊎ Selector
  prefer host s = elim (parse_host host) [
    | inl x ↦ inl x
    | inr h ↦ inr (record (allocate h s) { prefer = some s.next_host })
  ]

  unfoldable pub fallback : String → Selector → HostError ⊎ Selector
  fallback host s = elim (parse_host host) [
    | inl x ↦ inl x
    | inr h ↦ inr (record (allocate h s) { fallback = some s.next_host })
  ]

  abbrev apply_options :
      List (Selector → HostError ⊎ Selector) → HostError ⊎ Selector → HostError ⊎ Selector
  apply_options [] r = r
  apply_options (o ∷ os) (inl x) = inl x
  apply_options (o ∷ os) (inr s) = apply_options os (o s)

  -- The heap of a new selector is the same host everywhere, until a place is allocated.
  abbrev default_selector : Selector
  default_selector = record {
    check_count = 5;
    check_interval = 60000000000;
    check_concurrency = 5;
    sticky_until = 0;
    selected = none;
    prefer = none;
    fallback = none;
    hosts = [];
    heap = λ _. new_host t "" "" no_srv;
    next_host = 0;
  }

  unfoldable pub new_selector :
      String → List (Selector → HostError ⊎ Selector) → HostError ⊎ Selector
  new_selector target options = apply_options options (fallback target default_selector)

  -- The identifier that the host of a record would have.
  abbrev pub key_of : Srv → String
  key_of r = host_id t r.target r.port r.priority r.weight

  abbrev pub host_of : Srv → Host
  host_of r = new_host t r.target (t.format_uint r.port) r

  -- The loop over the records.
  unfoldable pub match_hosts : Dict ℕ → List Srv → Selector → Matched
  match_hosts d [] s = record { added = []; matched = []; selector = s }
  match_hosts d (r ∷ rs) s = elim (lookup (key_of r) d) [
    | some a ↦ found_host a (match_hosts d rs s)
    | none ↦ new_found s.next_host (match_hosts d rs (allocate (host_of r) s))
  ]

  abbrev pub is_listed : List Srv → String → Bool
  is_listed rs id = any (λ r. key_of r == id) rs

  -- The loop over the hosts that are no longer found.
  unfoldable pub remove_hosts : List Srv → List ℕ → (ℕ → Host) → List ℕ × (ℕ → Host)
  remove_hosts rs [] heap = ([], heap)
  remove_hosts rs (a ∷ bs) heap =
      let kept = remove_hosts rs bs heap in
      let removed =
        remove_hosts rs bs (put heap a (record (heap a) { error = some host_removed })) in
      if is_listed rs (heap a).id then kept else (a ∷ removed.0, removed.1)

  unfoldable pub diff_hosts : Selector → List Srv → Difference
  diff_hosts s rs =
      let m = match_hosts (tracked s.heap s.hosts []) rs s in
      let r = remove_hosts rs s.hosts m.selector.heap in
      record {
        added = m.added;
        removed = r.0;
        matched = m.matched;
        selector = record m.selector { heap = r.1 };
      }

  -- What `discoverRecords` does with the records that LookupSRV gives, of which there may be some
  -- beside an error; the error itself is only logged. The hosts are checked at the first discovery,
  -- by `checks`.
  unfoldable pub discover_records : (Selector → Selector) → Bool → List Srv → Selector → Selector
  discover_records checks is_first rs s =
      let d = diff_hosts s rs in
      let s' = record d.selector { hosts = d.matched } in if is_first then checks s' else s'
