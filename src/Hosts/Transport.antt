-- ===== src/Hosts/Transport.antt =====
-- Requests that are sent to the selected host: pkg/permissions/internal/selecthost/http.go, GetHost
-- of selector.go, and buildURI of host.go.
use permissions_api.Base.{
  ℕ, String, Bool, not, ◌&&◌, ◌||◌, Option, none, some, ◌==◌, ◌⊎◌, inl, inr, if◌then◌else◌,
}
use permissions_api.Hosts.{
  HostError, Host, Split, split, missing_port, malformed, Texts, join_host_port,
}
use permissions_api.Hosts.Selector.{Selector, put, select_host}

pub data SelectorError : Type 0 where
  selector_stopped wait_timedout host_not_found : SelectorError

-- What `GetHost` waits for, if no host is selected: that the selector is stopped, that the time
-- runs out, or that the first checks are done, with the host that is selected then.
pub data Waited : Type 0 where
  stopped timed_out : Waited
  started : Option ℕ → Waited

abbrev waited_host : Waited → SelectorError ⊎ ℕ
waited_host stopped = inl selector_stopped
waited_host timed_out = inl wait_timedout
waited_host (started none) = inl host_not_found
waited_host (started (some a)) = inr a

unfoldable pub get_host : Option ℕ → Waited → SelectorError ⊎ ℕ
get_host (some a) w = inr a
get_host none w = waited_host w

pub record Request : Type 0 where
  pub scheme : String
  pub url_host : String
  pub host_header : String

pub data Trip (A : Type 0) : Type 0 where
  no_host : SelectorError → Trip A
  response : A → Trip A
  -- An error of a request to another host than the target.
  base_error : HostError → Trip A
  -- An error of the request to the selected host, with its address.
  selected_error : String → HostError → Trip A

pub record Url : Type 0 where
  pub scheme : String
  pub host : String
  pub path : String

abbrev pub is_default_port : String → String → Bool
is_default_port scheme port =
    (scheme == "http" && port == "80") || (scheme == "https" && port == "443")

module _ (t : Texts) where
  abbrev scheme_for : String → String → String
  scheme_for check_scheme port =
      if not (check_scheme == "") then check_scheme else if port == "443" then "https" else "http"

  unfoldable pub build_uri : String → String → Host → Url
  build_uri check_scheme check_path h =
      let scheme = scheme_for check_scheme h.port in
      let port = if is_default_port scheme h.port then "" else h.port in
      record { scheme = scheme; host = join_host_port t h.host port; path = check_path }

  abbrev split_port : Split → String
  split_port (split h p) = p
  split_port missing_port = ""
  split_port (malformed x) = ""

  -- The port of the host, or that of the request, unless it is the scheme's own.
  unfoldable pub request_port : String → Request → String
  request_port port r =
      let p = if port == "" then split_port (t.split_host_port r.url_host) else port in
      if is_default_port r.scheme p then "" else p

  unfoldable pub address_of : Host → Request → String
  address_of h r = join_host_port t h.host (request_port h.port r)

  abbrev pub redirected : Host → Request → Request
  redirected h r = record r { url_host = address_of h r; host_header = address_of h r }

  module _ {A : Type 0} (send : Request → HostError ⊎ A) where
    abbrev forwarded : HostError ⊎ A → Trip A
    forwarded (inl x) = base_error x
    forwarded (inr a) = response a

    -- A failed request leaves its error on the host, and another host is selected.
    abbrev delivered : ℕ → ℕ → ℕ → String → HostError ⊎ A → Selector → Trip A × Selector
    delivered now later a address (inr y) s = (response y, s)
    delivered now later a address (inl x) s = (
      selected_error address x,
      select_host now later
          (record s { heap = put s.heap a (record (s.heap a) { error = some x }) }),
    )

    abbrev trip_to : String → ℕ → ℕ → Request → SelectorError ⊎ ℕ → Selector → Trip A × Selector
    trip_to target now later r (inl x) s = (no_host x, s)
    trip_to target now later r (inr a) s =
        if not (r.url_host == target)
        then (forwarded (send r), s)
        else delivered now later a (address_of (s.heap a) r) (send (redirected (s.heap a) r)) s

    -- `s` is the selector when `GetHost` has returned.
    unfoldable pub round_trip :
        String → ℕ → ℕ → Request → SelectorError ⊎ ℕ → Selector → Trip A × Selector
    round_trip target now later r got s = trip_to target now later r got s
