-- ===== src/Outbound/Circuit.antt =====
-- The attempts, the waits and the circuit of
-- src/infrastructure/outbound-http/provider-http-client.ts.
use recruiting_os.Common.{
  not, ◌⊎◌, ◌^◌, ◌*◌, zero, true, suc, subst, refl, or_else, ok, min, ltb→lt, leb, if◌then◌else◌,
  false, err, Result, Clock, Bool, ◌≡◌, ◌-◌, some, none, ltb, length, inr, inl, arith, String,
  Option, All, ℕ, ◌+◌, ◌≤◌, ◌<◌,
}
use recruiting_os.Outbound.Client.{
  settle_fetch, refused, try_once, is_allowed, settle_outcome, fetch, stop, sleep_then,
  attempts_from, ProviderUrl, ProviderHttpOptions, Client, retry_delay_ms, after_attempt, Attempts,
  Attempt,
}
use recruiting_os.Outbound.Bounded.{Response, BoundedResponse, Thrown, RetryAfter}

-- However a provider answers, `retryDelayMs` waits five seconds at most.
pub retry_delay_ms-bound :
    (retry_after : Option RetryAfter) (attempt now : ℕ)
    → retry_delay_ms retry_after attempt now ≤ 5000
unfolding retry_delay_ms
retry_delay_ms-bound (some (RetryAfter.seconds n)) attempt now = omega arith
retry_delay_ms-bound (some (RetryAfter.date d)) attempt now = omega arith
retry_delay_ms-bound (some RetryAfter.unreadable) attempt now = omega arith
retry_delay_ms-bound none attempt now = omega arith

lt-ltb : (a b : ℕ) → a < b → ltb a b ≡ true
lt-ltb a b n = ground arith

each_branch :
    {X : Type 0} (P : X → Type 0) (a b : Bool) (x y z : X)
    → P x
    → P y
    → P z
    → P (if a then x else if b then y else z)
each_branch P true b x y z p q r = p
each_branch P false true x y z p q r = q
each_branch P false false x y z p q r = r

refused_branch :
    (allowed open_circuit : Bool) (client : Client) (x y : Attempts) (z : Attempts × Client)
    → x.calls ≡ 0
    → y.calls ≡ 0
    → (allowed ≡ false) ⊎ (open_circuit ≡ true)
    → (let r = if not allowed then (x, client) else if open_circuit then (y, client) else z in
        (r.0.calls ≡ 0) × (r.1 ≡ client))
refused_branch false o client x y z p q h = (p, refl)
refused_branch true true client x y z p q h = (q, refl)
refused_branch true false client x y z p q (inl e) = cc
refused_branch true false client x y z p q (inr e) = cc

module _ (digits : ℕ → String) where
  -- Within a number of calls, each wait of five seconds at most and fewer waits than calls.
  abbrev pub IsModest : ℕ → Attempts → Type 0
  IsModest calls tried =
      (tried.calls ≤ calls) × (length tried.sleeps ≤ calls - 1) × All (λ ms. ms ≤ 5000) tried.sleeps

  chosen-IsModest :
      (left ms : ℕ) (later : Attempts) (out : Result Thrown BoundedResponse) (again : Bool)
      → ms ≤ 5000
      → (again ≡ true → 0 < left)
      → (0 < left → IsModest left later)
      → IsModest (left + 1) (if again then sleep_then ms later else stop out)
  chosen-IsModest left ms later out true n more h =
      let (c, l, a) = h (more refl) in (omega (arith, c), omega (arith, l, more refl), (n, a))
  chosen-IsModest left ms later out false n more h = (omega arith, omega arith, tt)

  more_left :
      (max_attempts attempt left : ℕ)
      → attempt + left ≡ max_attempts
      → ltb attempt max_attempts ≡ true
      → 0 < left
  more_left max_attempts attempt left n t = omega (arith, n, ltb→lt attempt max_attempts t)

  after-IsModest :
      (max_attempts attempt now left : ℕ) (later : Attempts) (a : Attempt)
      → attempt + left ≡ max_attempts
      → (0 < left → IsModest left later)
      → IsModest (left + 1) (after_attempt digits max_attempts attempt now later a)
  unfolding after_attempt
  after-IsModest max_attempts attempt now left later (Attempt.done b) n h =
      (omega arith, omega arith, tt)
  after-IsModest max_attempts attempt now left later (Attempt.unavailable status r) n h =
      chosen-IsModest left (retry_delay_ms r attempt now) later _ (ltb attempt max_attempts)
        (retry_delay_ms-bound r attempt now) (more_left max_attempts attempt left n) h
  after-IsModest max_attempts attempt now left later (Attempt.failed Thrown.size_limit) n h =
      (omega arith, omega arith, tt)
  after-IsModest max_attempts attempt now left later (Attempt.failed (Thrown.error m)) n h =
      chosen-IsModest left (min 1000 (100 * 2 ^ (attempt - 1))) later _ (ltb attempt max_attempts)
        (omega arith) (more_left max_attempts attempt left n) h
  after-IsModest max_attempts attempt now left later (Attempt.failed Thrown.non_error) n h =
      chosen-IsModest left (min 1000 (100 * 2 ^ (attempt - 1))) later _ (ltb attempt max_attempts)
        (omega arith) (more_left max_attempts attempt left n) h

  attempts_from-IsModest :
      (transport : ℕ → Result Thrown Response) (clock : Clock) (max_attempts max_bytes : ℕ)
      (url : String) (left attempt : ℕ)
      → attempt + left ≡ max_attempts + 1
      → IsModest left (attempts_from digits transport clock max_attempts max_bytes url left attempt)
  unfolding attempts_from
  attempts_from-IsModest transport clock max_attempts max_bytes url zero attempt n =
      (omega arith, omega arith, tt)
  attempts_from-IsModest transport clock max_attempts max_bytes url (suc left) attempt n =
      let later =
        attempts_from digits transport clock max_attempts max_bytes url left (attempt + 1) in
      let a = try_once max_bytes url (transport attempt) in
      subst (λ k. IsModest k (after_attempt digits max_attempts attempt (clock attempt) later a))
        (suc_eq left)
        (after-IsModest max_attempts attempt (clock attempt) left later a (omega (arith, n)) (λ m.
          attempts_from-IsModest transport clock max_attempts max_bytes url left (attempt + 1)
            (omega (arith, n))))
    where
      suc_eq : (k : ℕ) → k + 1 ≡ suc k
      suc_eq k = omega arith

  settle-IsModest :
      (calls now : ℕ) (client : Client) (tried : Attempts) (o : Result Thrown BoundedResponse)
      → IsModest calls tried
      → IsModest calls (settle_outcome digits now client tried o).0
  settle-IsModest calls now client tried (ok b) h = h
  settle-IsModest calls now client tried (err e) h = h

  settle-failures :
      (now : ℕ) (client : Client) (tried : Attempts) (o : Result Thrown BoundedResponse)
      → client.failures < 5
      → (settle_outcome digits now client tried o).1.failures < 5
  settle-failures now client tried (ok b) h = omega arith
  settle-failures now client tried (err e) h = counted (leb 5 (client.failures + 1)) refl
    where
      counted :
          (b : Bool)
          → leb 5 (client.failures + 1) ≡ b
          → (if b
              then record { failures = 0; circuit_open_until = now + 30000 }
              else record client { failures = client.failures + 1 }).failures
            < 5
      counted true e = omega arith
      counted false e = ground arith

  -- A `fetch` calls the transport at most as often as the options allow, three times if they say
  -- nothing, waits less often than that and never more than five seconds at a time; and the count of
  -- failures stays below the five that open the circuit.
  pub fetch-IsModest :
      (options : ProviderHttpOptions) (transport : ℕ → Result Thrown Response) (clock : Clock)
      (last : ℕ) (url : ProviderUrl) (client : Client)
      → client.failures < 5
      → (let r = fetch digits options transport clock last url client in
          IsModest (or_else options.max_attempts 3) r.0 × (r.1.failures < 5))
  unfolding fetch
  fetch-IsModest options transport clock last url client f =
      let calls = or_else options.max_attempts 3 in
      let tried =
        attempts_from digits transport clock calls (or_else options.max_response_bytes 6000000)
          url.text calls 1 in
      each_branch (λ r. IsModest calls r.0 × (r.1.failures < 5))
        (not (is_allowed digits options url)) (ltb (clock 0) client.circuit_open_until)
        (refused digits "Provider URL is not allowlisted", client)
        (refused digits "Provider circuit is open", client) (settle_fetch digits last client tried)
        ((omega arith, omega arith, tt), f) ((omega arith, omega arith, tt), f)
        (
          settle-IsModest calls last client tried tried.outcome (
              attempts_from-IsModest transport clock calls
                (or_else options.max_response_bytes 6000000) url.text calls 1 (omega arith)),
          settle-failures last client tried tried.outcome f,
        )

  -- To a URL that is not allowed, and while the circuit is open, `fetch` does not call the transport
  -- and does not change the counts.
  pub fetch-refuses :
      (options : ProviderHttpOptions) (transport : ℕ → Result Thrown Response) (clock : Clock)
      (last : ℕ) (url : ProviderUrl) (client : Client)
      → (is_allowed digits options url ≡ false) ⊎ (clock 0 < client.circuit_open_until)
      → ((fetch digits options transport clock last url client).0.calls ≡ 0)
        × ((fetch digits options transport clock last url client).1 ≡ client)
  unfolding fetch
  fetch-refuses options transport clock last url client h =
      refused_branch (is_allowed digits options url) (ltb (clock 0) client.circuit_open_until)
        client (refused digits "Provider URL is not allowlisted")
        (refused digits "Provider circuit is open") _ refl refl
        (elim h [ inl n ↦ inl n | inr n ↦ inr (lt-ltb (clock 0) client.circuit_open_until n) ])
