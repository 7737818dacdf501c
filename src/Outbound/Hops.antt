-- ===== src/Outbound/Hops.antt =====
-- Where `SafeHttpClient` of src/infrastructure/outbound-http/safe-http-client.ts connects to.
use native.Mathlib.Omega.{mod_fact}
use recruiting_os.Common.{
  ◌∷◌, ◌<◌, ap, ◌⊎◌, ◌≡◌, ◌||◌, zero, suc, str_eq, some, refl, or_else, ok, none, length, inr, inl,
  err, arith, [], String, Result-cases, Result, Option, List, In, Bool-cases, All, ℕ, ◌+◌, ◌%◌, ◌≤◌,
}
use recruiting_os.Outbound.Safe.{
  found_address, address_at, visit, safe_fetch, lookup, is_redirect, follow, fetch_from,
  after_response, PageResponse, Fetched, Address,
}
use recruiting_os.Outbound.Bounded.{Thrown}
use recruiting_os.Auth.Repository.{joined}

module _ (resolver : String → Result Thrown (List Address))
    (join : String → String → Result Thrown String) (upper : String → String)
    (transport : String → String → List Address → Result Thrown PageResponse) (max_bytes : ℕ) where
  abbrev pub IsValidated : String × List Address → Type 0
  IsValidated hop = resolver hop.0 ≡ ok hop.1

  abbrev pub IsGuarded : ℕ → Fetched → Type 0
  IsGuarded n fetched = All IsValidated fetched.hops × (length fetched.hops ≤ n)

  abbrev Continues : ℕ → Option (String → Fetched) → Type 0
  Continues n none = Unit
  Continues n (some next) = (url : String) → IsGuarded n (next url)

  follow-IsGuarded :
      (n : ℕ) (location : Option String) (url : String) (next : Option (String → Fetched))
      → Continues n next
      → IsGuarded n (follow resolver join upper transport max_bytes location url next)
  follow-IsGuarded n none url next h = (tt, omega arith)
  follow-IsGuarded n (some location) url none h = elim (Bool-cases (str_eq location "")) [
    | inl t ↦ rw t (tt, omega arith)
    | inr t ↦ rw t (tt, omega arith)
  ]
  follow-IsGuarded n (some location) url (some next) h = elim (Bool-cases (str_eq location "")) [
    | inl t ↦ rw t (tt, omega arith)
    | inr t ↦ elim (Result-cases (join location url)) [
      | inl (e, j) ↦ rw (t, j) (tt, omega arith)
      | inr (joined, j) ↦ rw (t, j) (h joined)
    ]
  ]

  response-IsGuarded :
      (n : ℕ) (url : String) (next : Option (String → Fetched)) (r : Result Thrown PageResponse)
      → Continues n next
      → IsGuarded n (after_response resolver join upper transport max_bytes url next r)
  response-IsGuarded n url next (err e) h = (tt, omega arith)
  response-IsGuarded n url next (ok page) h = elim (Bool-cases (is_redirect page.response.status)) [
    | inl t ↦ rw t (follow-IsGuarded n page.location url next h)
    | inr t ↦ rw t (tt, omega arith)
  ]

  visit-IsGuarded :
      (n : ℕ) (method url : String) (next : Option (String → Fetched))
      (r : Result Thrown (List Address))
      → resolver url ≡ r
      → Continues n next
      → IsGuarded (n + 1) (visit resolver join upper transport max_bytes method url next r)
  visit-IsGuarded n method url next (err e) v h = (tt, omega arith)
  visit-IsGuarded n method url next (ok addresses) v h =
      let (a, l) = response-IsGuarded n url next (transport method url addresses) h in
      ((v, a), omega (arith, l))

  fetch_from-IsGuarded :
      (method : String) (left : ℕ) (url : String)
      → IsGuarded (left + 1) (fetch_from resolver join upper transport max_bytes method left url)
  unfolding fetch_from
  fetch_from-IsGuarded method zero url = visit-IsGuarded 0 method url none (resolver url) refl tt
  fetch_from-IsGuarded method (suc left) url =
      let (a, l) =
        visit-IsGuarded (left + 1) method url
          (some (fetch_from resolver join upper transport max_bytes method left)) (resolver url)
          refl (fetch_from-IsGuarded method left) in
      (a, omega (arith, l))

  -- Whatever a page redirects to: each request of `SafeHttpClient` goes to a URL that the resolver
  -- has just accepted, over the addresses that it gave, and the requests are one more than the
  -- allowed redirects at most, which are five if the options say nothing.
  pub safe_fetch-IsGuarded :
      (max_redirects : Option ℕ) (method : Option String) (url : String)
      → IsGuarded
          (or_else max_redirects 5 + 1)
          (safe_fetch resolver join upper transport max_bytes max_redirects method url)
  unfolding safe_fetch
  safe_fetch-IsGuarded max_redirects method url =
      let m = upper (or_else method "GET") in
      elim (Bool-cases (str_eq m "GET" || str_eq m "HEAD")) [
        | inl t ↦ rw t (fetch_from-IsGuarded m (or_else max_redirects 5) url)
        | inr t ↦ rw t (tt, omega arith)
      ]

address_at-In :
    (addresses : List Address) (i : ℕ)
    → i < length addresses
    → (a : Address) × In a addresses × (address_at addresses i ≡ some a)
address_at-In [] i n = absurd (omega (arith, n))
address_at-In (a ∷ rest) zero n = (a, inl refl, refl)
address_at-In (a ∷ rest) (suc i) n =
    let (x, m, e) = address_at-In rest i (omega (arith, n)) in (x, inr m, e)

-- The agent's lookup yields one of the validated addresses, as often as it is asked, and fails only
-- where there are none.
pub lookup-In :
    (addresses : List Address) (n : ℕ)
    → ((a : Address) × In a addresses × (lookup addresses n ≡ ok a))
      ⊎ ((addresses ≡ []) × (lookup addresses n ≡ err (Thrown.error "No validated public address")))
unfolding lookup
lookup-In [] n = inr (refl, refl)
lookup-In (a ∷ rest) n =
    let (x, m, e) = address_at-In (a ∷ rest) (n % suc (length rest)) (mod_fact n (length rest)) in
    inl (x, m, ap found_address e)
