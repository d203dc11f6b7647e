-- ===== src/Tests/Hosts.antt =====
-- The selection of hosts of the client library (pkg/permissions/internal/selecthost) at small inputs.
use permissions_api.Client.{Published, submit}
use permissions_api.Client.Submitted.{IsPublished, submit_iff}
use permissions_api.Base.{
  Exists, ap, ℕ, zero, suc, ◌≤◌, ◌<◌, ◌≡◌, refl, ◌↔◌, ◌⊎◌, inl, inr, String, Bool, true, false,
  Option, none, some, List, [], ◌∷◌, ◌==◌, All, Holds, map, Permᴰ, if◌then◌else◌, arith,
}
use permissions_api.Hosts.{
  HostError, failed, host_removed, Srv, Host, no_results, Texts, missing_port, before, Answer,
  answered, no_response, check,
}
use permissions_api.Hosts.Order.{before_lem}
use permissions_api.Hosts.Selector.{Selector, same, select_host, check_hosts}
use permissions_api.Hosts.Choice.{HasNoError, preferred, select_host_lem}
use permissions_api.Hosts.Checks.{Clean, check_lem, check_hosts-HasNoError}
use permissions_api.Hosts.Discovery.{key_of, diff_hosts}
use permissions_api.Hosts.Found.{AreLawful, id_in, diff_hosts-id}
use permissions_api.Hosts.Removal.{IsIdOf, diff_hosts-error}
use permissions_api.Hosts.Transport.{
  Request, Trip, selected_error, address_of, redirected, round_trip,
}
use permissions_api.Hosts.Failover.{round_trip_lem}

-- Texts in which a number is as many ones, and no name ends in a dot.
abbrev ones : ℕ → String
ones zero = ""
ones (suc n) = String.◌∷◌ "1" (ones n)

abbrev count : String → ℕ
count String.[] = 0
count (String.◌∷◌ c s) = suc (count s)

count-ones : (n : ℕ) → count (ones n) ≡ n
count-ones zero = refl
count-ones (suc n) = ap suc (count-ones n)

abbrev texts : Texts
texts = record {
  trim_dots = λ x. x;
  format_uint = ones;
  parse_uint16 = count;
  has_colon = λ x. false;
  split_host_port = λ x. missing_port;
}

abbrev record_of : String → Srv
record_of name = record { target = name; port = 80; priority = 0; weight = 0 }

abbrev host_at : String → Option HostError → Host
host_at name x = record {
  id = name;
  srv = record_of name;
  host = name;
  port = "80";
  last_check = no_results;
  error = x;
}

-- The first host fails, the second does not, and the third is the fallback.
abbrev three_hosts : ℕ → Host
three_hosts zero = host_at "one" (some (failed "refused"))
three_hosts (suc zero) = host_at "two" none
three_hosts (suc (suc _)) = host_at "main" none

abbrev two_found : Selector
two_found = record {
  check_count = 2;
  check_interval = 60;
  check_concurrency = 5;
  sticky_until = 0;
  selected = some 0;
  prefer = none;
  fallback = some 2;
  hosts = 0 ∷ 1 ∷ [];
  heap = three_hosts;
  next_host = 3;
}

moves_on : (select_host 10 11 two_found).selected ≡ some 1
unfolding select_host permissions_api.Hosts.Selector.scan
moves_on = refl

select_host_lem_example : (select_host 10 11 two_found).selected ≡ preferred 10 two_found
select_host_lem_example = select_host_lem 10 11 two_found

two_first : before (three_hosts 1) (three_hosts 0) ≡ true
unfolding before
two_first = refl

before_lem_example :
    (before (three_hosts 0) (three_hosts 1) ≡ false)
    × ((before (three_hosts 1) (three_hosts 2) ≡ true)
        ⊎ (before (three_hosts 2) (three_hosts 0) ≡ true))
before_lem_example = before_lem (three_hosts 1) (three_hosts 2) (three_hosts 0) two_first

-- The second request is not answered.
abbrev flaky : ℕ → Answer
flaky zero = answered 5 200 ""
flaky (suc _) = no_response 7 (failed "reset")

check_lem_example :
    ((check 2 (λ _. false) flaky (three_hosts 1)).last_check.checks ≤ 2)
    × (((check 2 (λ _. false) flaky (three_hosts 1)).error ≡ none)
        ↔ Clean flaky (check 2 (λ _. false) flaky (three_hosts 1)).last_check.checks)
check_lem_example = check_lem 2 (λ _. false) flaky (three_hosts 1)

abbrev all_well : ℕ → ℕ → Answer
all_well a i = answered 5 204 ""

abbrev as_found : (ℕ → ℕ → Bool) → List ℕ → List ℕ
as_found p bs = bs

as_found-permutes : (p : ℕ → ℕ → Bool) (bs : List ℕ) → Permᴰ bs (as_found p bs)
as_found-permutes p [] = Permᴰ.nil
as_found-permutes p (b ∷ bs) = Permᴰ.cons refl (as_found-permutes p bs)

well_answered : Clean (all_well 0) 2
unfolding permissions_api.Hosts.run
well_answered = ((tt, refl), refl)

check_hosts-HasNoError_example :
    Holds
      (HasNoError (check_hosts as_found (λ _ _. false) all_well 10 11 two_found).heap)
      (check_hosts as_found (λ _ _. false) all_well 10 11 two_found).selected
check_hosts-HasNoError_example =
    check_hosts-HasNoError as_found as_found-permutes (λ _ _. false) all_well 10 11 two_found 0 refl
      (inl refl) well_answered

abbrev records : List Srv
records = record_of "two" ∷ record_of "new" ∷ []

trims_and_parses : AreLawful texts
trims_and_parses = record { trims = λ x. refl; parses = λ n l. count-ones n }

known_hosts : All (λ a. a < two_found.next_host) two_found.hosts
known_hosts = (omega arith, (omega arith, tt))

diff_hosts-id_example :
    map
      (id_in (diff_hosts texts two_found records).selector.heap)
      (diff_hosts texts two_found records).matched
    ≡ map (key_of texts) records
diff_hosts-id_example =
    diff_hosts-id texts trims_and_parses two_found records known_hosts
      (omega arith, (omega arith, tt))

diff_hosts-error_example :
    (Exists (IsIdOf texts "one") records
      × (((diff_hosts texts two_found records).selector.heap 0).error ≡ some (failed "refused")))
    ⊎ ((¬ Exists (IsIdOf texts "one") records)
        × (((diff_hosts texts two_found records).selector.heap 0).error ≡ some host_removed))
diff_hosts-error_example = diff_hosts-error texts two_found records 0 known_hosts (inl refl)

-- A request that the second host answers and no other.
abbrev to_main : Request
to_main = record { scheme = "http"; url_host = "main"; host_header = "main" }

abbrev refuse : Request → HostError ⊎ ℕ
refuse r = if r.url_host == "two" then inr 200 else inl (failed "refused")

refused_by_main : refuse (redirected texts (three_hosts 2) to_main) ≡ inl (failed "refused")
unfolding address_of permissions_api.Hosts.Transport.request_port
    permissions_api.Hosts.join_host_port
refused_by_main = refl

round_trip_lem_example :
    ((round_trip texts refuse "main" 10 11 to_main (inr 2) two_found).0
      ≡ selected_error (address_of texts (three_hosts 2) to_main) (failed "refused"))
    × (((round_trip texts refuse "main" 10 11 to_main (inr 2) two_found).1.heap 2).error
        ≡ some (failed "refused"))
    × Holds
        (HasNoError (round_trip texts refuse "main" 10 11 to_main (inr 2) two_found).1.heap)
        (round_trip texts refuse "main" 10 11 to_main (inr 2) two_found).1.selected
round_trip_lem_example =
    round_trip_lem texts refuse "main" 10 11 to_main two_found 2 (failed "refused") refl
      refused_by_main (inr (inl ((λ e. omega arith), refl)))

-- A publisher that nobody answers.
abbrev unheard : ℕ → Published HostError
unheard r = record { error = some (failed "no responders"); response = none }

abbrev any_request : ℕ → Option HostError
any_request r = none

submit_iff_example :
    (submit any_request (λ x. true) true (some unheard) 3 ≡ [])
    ↔ ((any_request 3 ≡ none) × IsPublished (λ x. true) true (some unheard) 3)
submit_iff_example = submit_iff (λ x. true) true any_request (some unheard) 3
