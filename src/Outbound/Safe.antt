-- ===== src/Outbound/Safe.antt =====
-- `SafeHttpClient` of src/infrastructure/outbound-http/safe-http-client.ts. A URL is the text of a
-- parsed one. Timers, headers and the agent's end are left out; a request that is aborted throws.
use recruiting_os.Common.{
  ◌∷◌, ◌||◌, ◌==◌, zero, suc, str_eq, some, or_else, ok, none, length, if◌then◌else◌, err, [],
  String, Result, Option, List, Bool, ℕ, ◌%◌,
}
use recruiting_os.Outbound.Bounded.{bounded_response, Thrown, Response, BoundedResponse}
use recruiting_os.Auth.Repository.{joined}

pub record Address : Type 0 where
  pub address : String
  pub family : ℕ

-- A response with its `location` header.
pub record PageResponse : Type 0 where
  pub location : Option String
  pub response : Response

abbrev pub is_redirect : ℕ → Bool
is_redirect status =
    (status == 301)
    || ((status == 302) || ((status == 303) || ((status == 307) || (status == 308))))

-- `addresses[n]`
abbrev pub address_at : List Address → ℕ → Option Address
address_at [] n = none
address_at (a ∷ rest) zero = some a
address_at (a ∷ rest) (suc n) = address_at rest n

-- The agent's lookup, at its n-th call.
abbrev pub found_address : Option Address → Result Thrown Address
found_address none = err (Thrown.error "No validated public address")
found_address (some a) = ok a

unfoldable pub lookup : List Address → ℕ → Result Thrown Address
lookup addresses n = found_address (address_at addresses (n % length addresses))

-- What a fetch comes to, and the requests that it made: each URL with the addresses that its
-- connection may use.
pub record Fetched : Type 0 where
  pub outcome : Result Thrown BoundedResponse
  pub hops : List (String × List Address)

abbrev pub throws : String → Fetched
throws message = record { outcome = err (Thrown.error message); hops = [] }

abbrev pub hop_then : String → List Address → Fetched → Fetched
hop_then url addresses later = record later { hops = (url, addresses) ∷ later.hops }

-- `resolver` is `resolvePublicHttpTarget`, `join` resolves a location against a URL, `upper` is
-- `toUpperCase`, and the transport answers a URL over some addresses.
module _ (resolver : String → Result Thrown (List Address))
    (join : String → String → Result Thrown String) (upper : String → String)
    (transport : String → String → List Address → Result Thrown PageResponse) (max_bytes : ℕ) where
  -- What follows a redirect, if the loop may go on; `next` is the fetch of another URL.
  abbrev pub follow : Option String → String → Option (String → Fetched) → Fetched
  follow none url next = throws "Redirect response is missing a location"
  follow (some location) url none =
      if str_eq location ""
      then throws "Redirect response is missing a location"
      else throws "Too many redirects"
  follow (some location) url (some next) =
      if str_eq location ""
      then throws "Redirect response is missing a location"
      else elim (join location url) [
        | err e ↦ record { outcome = err e; hops = [] }
        | ok joined ↦ next joined
      ]

  abbrev pub after_response :
      String → Option (String → Fetched) → Result Thrown PageResponse → Fetched
  after_response url next (err e) = record { outcome = err e; hops = [] }
  after_response url next (ok page) =
      if is_redirect page.response.status
      then follow page.location url next
      else record { outcome = bounded_response page.response max_bytes url; hops = [] }

  abbrev pub visit :
      String → String → Option (String → Fetched) → Result Thrown (List Address) → Fetched
  visit method url next (err e) = record { outcome = err e; hops = [] }
  visit method url next (ok addresses) =
      hop_then url addresses (after_response url next (transport method url addresses))

  -- The loop, for the number of redirects that are left.
  unfoldable pub fetch_from : String → ℕ → String → Fetched
  fetch_from method zero url = visit method url none (resolver url)
  fetch_from method (suc left) url = visit method url (some (fetch_from method left)) (resolver url)

  unfoldable pub safe_fetch : Option ℕ → Option String → String → Fetched
  safe_fetch max_redirects method url =
      let m = upper (or_else method "GET") in
      if str_eq m "GET" || str_eq m "HEAD"
      then fetch_from m (or_else max_redirects 5) url
      else throws "Safe public fetch only supports GET and HEAD"
