-- ===== src/Hosts.antt =====
-- The hosts of the client library and their checks: pkg/permissions/internal/selecthost/host.go and
-- helpers.go. The selector, whose hosts these are, is in Hosts/Selector.
pub mod Checks
pub mod Choice
pub mod Discovery
pub mod Failover
pub mod Found
pub mod Order
pub mod Removal
pub mod Selector
pub mod Transport
use Prim.Native.String
use Prim.Native.Nat.{◌/◌, compare, Ordering}
use permissions_api.Base.{
  ℕ, zero, suc, ◌+◌, String, Bool, true, false, not, ◌&&◌, ◌||◌, Option, none, some, List, [], ◌∷◌,
  ◌++◌, ◌==◌, is_some, if◌then◌else◌,
}

abbrev pub ltb : ℕ → ℕ → Bool
ltb a b = elim (compare a b) [ Ordering.lt ↦ true | _ ↦ false ]

pub data HostError : Type 0 where
  host_removed : HostError
  unexpected_status_code : ℕ → String → HostError
  failed : String → HostError

-- A record of the domain name system (net.SRV).
pub record Srv : Type 0 where
  pub target : String
  pub port : ℕ
  pub priority : ℕ
  pub weight : ℕ

-- The time and the host of the results are left out, as nothing reads them. The durations are those
-- of a clock that does not go back.
pub record Results : Type 0 where
  pub checks : ℕ
  pub total_duration : ℕ
  pub errors : List HostError

abbrev average_of : ℕ → ℕ → ℕ
average_of total zero = 0
average_of total (suc n) = total / suc n

unfoldable pub average : Results → ℕ
average r = average_of r.total_duration r.checks

abbrev pub no_results : Results
no_results = record { checks = 0; total_duration = 0; errors = [] }

pub record Host : Type 0 where
  pub id : String
  pub srv : Srv
  pub host : String
  pub port : String
  pub last_check : Results
  pub error : Option HostError

-- What the source calls of strings, strconv and net.
pub data Split : Type 0 where
  split : String → String → Split
  missing_port : Split
  malformed : HostError → Split

pub record Texts : Type 0 where
  pub trim_dots : String → String
  pub format_uint : ℕ → String
  -- The number that ParseUint gives for 16 bits, with or without an error.
  pub parse_uint16 : String → ℕ
  pub has_colon : String → Bool
  pub split_host_port : String → Split

-- strings.Join
unfoldable pub join : String → List String → String
join sep [] = ""
join sep (x ∷ []) = x
join sep (x ∷ y ∷ xs) = String.◌++◌ x (String.◌++◌ sep (join sep (y ∷ xs)))

module _ (t : Texts) where
  abbrev in_brackets : Bool → String → String
  in_brackets b host = if b then String.◌++◌ "[" (String.◌++◌ host "]") else host

  unfoldable pub join_host_port : String → String → String
  join_host_port host port =
      let host' = in_brackets (t.has_colon host) host in
      if port == "" then host' else String.◌++◌ host' (String.◌++◌ ":" port)

  unfoldable pub host_id : String → ℕ → ℕ → ℕ → String
  host_id host port priority weight =
      join ":"
        (t.trim_dots host ∷ t.format_uint port ∷ t.format_uint priority ∷ t.format_uint weight ∷ [])

  unfoldable pub new_host : String → String → Srv → Host
  new_host target port srv = record {
    id = host_id (t.trim_dots target) (t.parse_uint16 port) srv.priority srv.weight;
    srv = srv;
    host = t.trim_dots target;
    port = port;
    last_check = no_results;
    error = none;
  }

-- `Before`: a host without an error first, then the priority, the weight and the average duration.
unfoldable pub before : Host → Host → Bool
before h g =
    if not (is_some h.error) && is_some g.error
    then true
    else if is_some h.error && not (is_some g.error)
    then false
    else if ltb h.srv.priority g.srv.priority
    then true
    else if ltb g.srv.priority h.srv.priority
    then false
    else if ltb h.srv.weight g.srv.weight
    then true
    else if ltb g.srv.weight h.srv.weight
    then false
    else ltb (average h.last_check) (average g.last_check)

-- What a request of a check comes to: it cannot be made, it fails, or it is answered with a status
-- and a body.
pub data Answer : Type 0 where
  no_request : HostError → Answer
  no_response : ℕ → HostError → Answer
  answered : ℕ → ℕ → String → Answer

unfoldable pub run : Answer → ℕ × Option HostError
run (no_request x) = (0, some x)
run (no_response duration x) = (duration, some x)
run (answered duration status body) = (
  duration,
  if ltb status 200 || not (ltb status 300)
      then some (unexpected_status_code status body)
      else none,
)

abbrev pub with_error : List HostError → Option HostError → List HostError
with_error xs none = xs
with_error xs (some x) = xs ++ x ∷ []

abbrev pub add_run : Results → ℕ × Option HostError → Results
add_run r (duration, x) = record {
  checks = suc r.checks;
  total_duration = r.total_duration + duration;
  errors = with_error r.errors x;
}

abbrev pub last_error : List HostError → Option HostError
last_error [] = none
last_error (x ∷ []) = some x
last_error (x ∷ y ∷ xs) = last_error (y ∷ xs)

-- Before each run but the first: whether the context is done or the selector stopped.
abbrev pub is_stopped : (ℕ → Bool) → ℕ → Bool
is_stopped stop zero = false
is_stopped stop (suc i) = stop (suc i)

-- The loop `checkLoop` from run `i` on, with so many runs left.
unfoldable pub check_loop : (ℕ → Bool) → (ℕ → Answer) → ℕ → ℕ → Results → Results
check_loop stop ask i zero r = r
check_loop stop ask i (suc n) r =
    let rest = check_loop stop ask (suc i) n (add_run r (run (ask i))) in
    if is_stopped stop i then r else rest

unfoldable pub check : ℕ → (ℕ → Bool) → (ℕ → Answer) → Host → Host
check check_count stop ask h =
    let r = check_loop stop ask 0 check_count no_results in
    record h { last_check = r; error = last_error r.errors }
