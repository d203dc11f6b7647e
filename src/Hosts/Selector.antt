-- ===== src/Hosts/Selector.antt =====
-- The choice of a host of the client library, and how its hosts are found and checked:
-- pkg/permissions/internal/selecthost/selector.go, diffHosts of helpers.go, and http.go. A host is a
-- number, its address, under which the selector's heap has its state.
use Prim.Native.Nat.{compare, Ordering}
use permissions_api.Base.{
  ℕ, ◌+◌, ◌*◌, Bool, true, false, not, ◌&&◌, Option, none, some, List, [], ◌∷◌, ◌==◌, is_some,
  is_empty, if◌then◌else◌,
}
use permissions_api.Hosts.{ltb, Host, before, Answer, check}

-- The fields that the operations below read or write.
pub record Selector : Type 0 where
  pub check_count : ℕ
  pub check_interval : ℕ
  pub check_concurrency : ℕ
  pub sticky_until : ℕ
  pub selected : Option ℕ
  pub prefer : Option ℕ
  pub fallback : Option ℕ
  pub hosts : List ℕ
  pub heap : ℕ → Host
  pub next_host : ℕ

abbrev pub same : ℕ → ℕ → Bool
same a b = elim (compare a b) [ Ordering.eq ↦ true | _ ↦ false ]

abbrev pub same_host : Option ℕ → Option ℕ → Bool
same_host none none = true
same_host (some a) (some b) = same a b
same_host _ _ = false

abbrev pub put : (ℕ → Host) → ℕ → Host → ℕ → Host
put heap a h c = if same a c then h else heap c

-- `x != nil && x.ID() == host.ID()`
abbrev pub has_id : (ℕ → Host) → Option ℕ → ℕ → Bool
has_id heap none a = false
has_id heap (some x) a = (heap x).id == (heap a).id

pub record Found : Type 0 where
  pub first : Option ℕ
  pub selected : Option ℕ
  pub prefer : Option ℕ

abbrev pub nothing_found : Found
nothing_found = record { first = none; selected = none; prefer = none }

abbrev pub or_if : Option ℕ → Bool → ℕ → Option ℕ
or_if (some x) test a = some x
or_if none test a = if test then some a else none

-- What one round of the loop of `selectHost` keeps of a host without an error.
abbrev pub noted : Selector → Found → ℕ → Found
noted s f a = record {
  first = or_if f.first true a;
  selected = or_if f.selected (has_id s.heap s.selected a) a;
  prefer = or_if f.prefer (has_id s.heap s.prefer a) a;
}

abbrev pub is_complete : Found → Bool
is_complete f = is_some f.first && (is_some f.selected && is_some f.prefer)

unfoldable pub scan : Selector → Found → List ℕ → Found
scan s f [] = f
scan s f (a ∷ bs) =
    let skipped = scan s f bs in
    let rest = scan s (noted s f a) bs in
    if is_some (s.heap a).error
    then skipped
    else if is_complete (noted s f a)
    then noted s f a
    else rest

-- The `switch` of `selectHost`.
abbrev pub chosen : Selector → Bool → Found → Option ℕ
chosen s sticky f =
    if is_some f.selected && sticky
    then f.selected
    else if is_some f.prefer
    then f.prefer
    else if is_some f.first
    then f.first
    else if is_some s.fallback
    then s.fallback
    else f.selected

-- The two readings of the clock are `now` and `later`.
unfoldable pub select_host : ℕ → ℕ → Selector → Selector
select_host now later s =
    let sticky = ltb now s.sticky_until in
    let selected = chosen s sticky (scan s nothing_found s.hosts) in
    if not (same_host s.selected selected) && is_some selected
    then record s { selected = selected; sticky_until = later + 5 * s.check_interval }
    else if is_some selected && (same_host s.selected selected && not sticky)
    then record s { sticky_until = later + 5 * s.check_interval }
    else s

-- The checks of the hosts, with what stops each and what each of its requests comes to. Where the
-- source checks them at the same time, each check changes only its own host.
unfoldable pub check_each : ℕ → (ℕ → ℕ → Bool) → (ℕ → ℕ → Answer) → List ℕ → (ℕ → Host) → ℕ → Host
check_each n stop ask [] heap = heap
check_each n stop ask (a ∷ bs) heap =
    check_each n stop ask bs (put heap a (check n (stop a) (ask a) (heap a)))

-- The hosts after the workers of `checkHosts` are done.
unfoldable pub run_checks : (ℕ → ℕ → Bool) → (ℕ → ℕ → Answer) → Selector → ℕ → Host
run_checks stop ask s =
    let heap = check_each s.check_count stop ask s.hosts s.heap in
    if same s.check_concurrency 0 then s.heap else heap

abbrev pub sorted : ((ℕ → ℕ → Bool) → List ℕ → List ℕ) → (ℕ → Host) → Selector → Selector
sorted sort heap s = record s {
  heap = heap;
  hosts = sort (λ a b. before (heap a) (heap b)) s.hosts;
}

-- `sort` stands for sort.Sort.
unfoldable pub check_hosts :
    ((ℕ → ℕ → Bool) → List ℕ → List ℕ)
    → (ℕ → ℕ → Bool)
    → (ℕ → ℕ → Answer)
    → ℕ
    → ℕ
    → Selector
    → Selector
check_hosts sort stop ask now later s =
    if is_empty s.hosts
    then select_host now later s
    else select_host now later (sorted sort (run_checks stop ask s) s)
