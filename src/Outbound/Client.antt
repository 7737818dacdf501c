-- ===== src/Outbound/Client.antt =====
-- `ProviderHttpClient` of src/infrastructure/outbound-http/provider-http-client.ts. The transport is
-- its answer to each attempt, in which a request that is aborted throws; cancelling the body of a
-- response is taken to succeed.
use Prim.Native.String.{◌++◌ as ◌+++◌}
use recruiting_os.Common.{
  ◌∷◌, ◌||◌, ◌==◌, ◌&&◌, zero, suc, str_eq, some, or_else, ok, not, none, min, ltb, leb,
  if◌then◌else◌, err, any, [], String, Result, Option, List, Clock, Bool, ℕ, ◌+◌, ◌-◌, ◌*◌, ◌^◌,
}
use recruiting_os.Outbound.Bounded.{bounded_response, Thrown, RetryAfter, Response, BoundedResponse}

pub record ProviderHttpOptions : Type 0 where
  pub allowed_hosts : List String
  pub max_attempts : Option ℕ
  pub max_response_bytes : Option ℕ

-- The fields that change.
pub record Client : Type 0 where
  pub failures : ℕ
  pub circuit_open_until : ℕ

-- A URL that has been parsed; its host is in lower case.
pub record ProviderUrl : Type 0 where
  pub protocol : String
  pub hostname : String
  pub text : String

-- `retryDelayMs`
unfoldable pub retry_delay_ms : Option RetryAfter → ℕ → ℕ → ℕ
retry_delay_ms (some (RetryAfter.seconds n)) attempt now = min 5000 (n * 1000)
retry_delay_ms (some (RetryAfter.date d)) attempt now = min 5000 (d - now)
retry_delay_ms (some RetryAfter.unreadable) attempt now = min 5000 (250 * 2 ^ (attempt - 1))
retry_delay_ms none attempt now = min 5000 (250 * 2 ^ (attempt - 1))

-- What one attempt comes to.
pub data Attempt : Type 0 where
  done : BoundedResponse → Attempt
  unavailable : ℕ → Option RetryAfter → Attempt
  failed : Thrown → Attempt

-- `response.status === 429 || response.status >= 500`
abbrev pub is_unavailable : Response → Bool
is_unavailable response = (response.status == 429) || leb 500 response.status

abbrev pub attempt_of : Result Thrown BoundedResponse → Attempt
attempt_of (ok b) = Attempt.done b
attempt_of (err e) = Attempt.failed e

unfoldable pub try_once : ℕ → String → Result Thrown Response → Attempt
try_once max_bytes url (err e) = Attempt.failed e
try_once max_bytes url (ok response) =
    if is_unavailable response
    then Attempt.unavailable response.status response.retry_after
    else attempt_of (bounded_response response max_bytes url)

-- The outcome of the loop: what it returns or the last error, the milliseconds that it slept each
-- time, and how often the transport was called.
pub record Attempts : Type 0 where
  pub outcome : Result Thrown BoundedResponse
  pub sleeps : List ℕ
  pub calls : ℕ

abbrev pub stop : Result Thrown BoundedResponse → Attempts
stop outcome = record { outcome = outcome; sleeps = []; calls = 1 }

abbrev pub sleep_then : ℕ → Attempts → Attempts
sleep_then milliseconds later = record later {
  sleeps = milliseconds ∷ later.sleeps;
  calls = later.calls + 1;
}

-- `Provider unavailable: ${status}` with the digits of the status.
module _ (digits : ℕ → String) where
  abbrev pub unavailable_error : ℕ → Thrown
  unavailable_error status = Thrown.error ("Provider unavailable: " +++ digits status)

  -- What follows an attempt, with what the loop would do next.
  unfoldable pub after_attempt : ℕ → ℕ → ℕ → Attempts → Attempt → Attempts
  after_attempt max_attempts attempt now later (Attempt.done b) = stop (ok b)
  after_attempt max_attempts attempt now later (Attempt.unavailable status retry_after) =
      if ltb attempt max_attempts
      then sleep_then (retry_delay_ms retry_after attempt now) later
      else stop (err (unavailable_error status))
  after_attempt max_attempts attempt now later (Attempt.failed Thrown.size_limit) =
      stop (err Thrown.size_limit)
  after_attempt max_attempts attempt now later (Attempt.failed e) =
      if ltb attempt max_attempts
      then sleep_then (min 1000 (100 * 2 ^ (attempt - 1))) later
      else stop (err e)

  -- The loop from an attempt on, for as many attempts as are left; `clock n` is the time at which
  -- the n-th attempt has been answered.
  unfoldable pub attempts_from :
      (ℕ → Result Thrown Response) → Clock → ℕ → ℕ → String → ℕ → ℕ → Attempts
  attempts_from transport clock max_attempts max_bytes url zero attempt = record {
    outcome = err Thrown.non_error;
    sleeps = [];
    calls = 0;
  }
  attempts_from transport clock max_attempts max_bytes url (suc left) attempt =
      let later = attempts_from transport clock max_attempts max_bytes url left (attempt + 1) in
      after_attempt max_attempts attempt (clock attempt) later
        (try_once max_bytes url (transport attempt))

  -- `lastError instanceof Error ? lastError : new Error('Provider request failed')`
  abbrev pub thrown_error : Thrown → Thrown
  thrown_error Thrown.non_error = Thrown.error "Provider request failed"
  thrown_error e = e

  -- The counters after the loop has given up.
  abbrev pub count_failure : ℕ → Client → Client
  count_failure now client =
      if leb 5 (client.failures + 1)
      then record { failures = 0; circuit_open_until = now + 30000 }
      else record client { failures = client.failures + 1 }

  abbrev pub settle_outcome :
      ℕ → Client → Attempts → Result Thrown BoundedResponse → Attempts × Client
  settle_outcome now client tried (ok b) = (tried, record client { failures = 0 })
  settle_outcome now client tried (err e) =
      (record tried { outcome = err (thrown_error e) }, count_failure now client)

  abbrev pub settle_fetch : ℕ → Client → Attempts → Attempts × Client
  settle_fetch now client tried = settle_outcome now client tried tried.outcome

  abbrev pub is_allowed : ProviderHttpOptions → ProviderUrl → Bool
  is_allowed options url =
      str_eq url.protocol "https:" && any (λ h. str_eq h url.hostname) options.allowed_hosts

  abbrev pub refused : String → Attempts
  refused message = record { outcome = err (Thrown.error message); sleeps = []; calls = 0 }

  -- `fetch`: `clock 0` is read first and `last` is the time at which the loop has given up.
  unfoldable pub fetch :
      ProviderHttpOptions
      → (ℕ → Result Thrown Response)
      → Clock
      → ℕ
      → ProviderUrl
      → Client
      → Attempts × Client
  fetch options transport clock last url client =
      let max_attempts = or_else options.max_attempts 3 in
      let max_bytes = or_else options.max_response_bytes 6000000 in
      if not (is_allowed options url)
      then (refused "Provider URL is not allowlisted", client)
      else if ltb (clock 0) client.circuit_open_until
      then (refused "Provider circuit is open", client)
      else settle_fetch last client
          (attempts_from transport clock max_attempts max_bytes url.text max_attempts 1)
