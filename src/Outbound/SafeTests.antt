-- ===== src/Outbound/SafeTests.antt =====
-- A page that redirects for ever.
use recruiting_os.Common.{
  ◌≡◌, ◌∷◌, str_eq, some, refl, ok, none, if◌then◌else◌, err, [], String, Result, List,
}
use recruiting_os.Outbound.Safe.{safe_fetch, lookup, fetch_from, PageResponse, Address}
use recruiting_os.Outbound.Hops.{safe_fetch-IsGuarded, IsGuarded}
use recruiting_os.Outbound.Bounded.{read_chunks, bounded_response, Thrown}

safe_runs : Unit {0}
unfolding safe_fetch fetch_from bounded_response read_chunks lookup
safe_runs = tt

abbrev one_address : List Address
one_address = record { address = "93.184.216.34"; family = 4 } ∷ []

abbrev accept : String → Result Thrown (List Address)
accept url = if str_eq url "http://inside/" then err (Thrown.error "private") else ok one_address

abbrev join_to : String → String → Result Thrown String
join_to location url = ok location

abbrev same_case : String → String
same_case s = s

abbrev moved : String → PageResponse
moved location = record {
  location = some location;
  response = record { status = 302; declared = none; retry_after = none; body = none };
}

abbrev in_circles : String → String → List Address → Result Thrown PageResponse
in_circles method url addresses = ok (moved "http://a/")

safe_fetch-IsGuarded_example :
    IsGuarded accept join_to same_case in_circles 10 3
      (safe_fetch accept join_to same_case in_circles 10 (some 2) none "http://a/")
safe_fetch-IsGuarded_example =
    safe_fetch-IsGuarded accept join_to same_case in_circles 10 (some 2) none "http://a/"

circles_end : safe_fetch accept join_to same_case in_circles 10 (some 1) none "http://a/" ≡ record {
  outcome = err (Thrown.error "Too many redirects");
  hops = ("http://a/", one_address) ∷ ("http://a/", one_address) ∷ [];
}
unfolding safe_runs
circles_end = refl

-- A redirect to a refused address makes no second request.
abbrev to_inside : String → String → List Address → Result Thrown PageResponse
to_inside method url addresses = ok (moved "http://inside/")

inside_is_refused :
    safe_fetch accept join_to same_case to_inside 10 none none "http://a/"
    ≡ record { outcome = err (Thrown.error "private"); hops = ("http://a/", one_address) ∷ [] }
unfolding safe_runs
inside_is_refused = refl
