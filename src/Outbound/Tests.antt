-- ===== src/Outbound/Tests.antt =====
-- Requests to one provider.
use recruiting_os.Common.{
  ◌==◌, if◌then◌else◌, List, ◌≤◌, ◌≡◌, ◌∷◌, ◌↔◌, ◌<◌, some, refl, ok, none, length, err, arith, [],
  String, Result, Clock, ℕ,
}
use recruiting_os.Outbound.Client.{
  fetch, try_once, retry_delay_ms, attempts_from, after_attempt, ProviderUrl, ProviderHttpOptions,
  Client,
}
use recruiting_os.Outbound.Reading.{read_chunks_iff, Delivers}
use recruiting_os.Outbound.Circuit.{retry_delay_ms-bound, fetch-IsModest, IsModest}
use recruiting_os.Outbound.Bounded.{
  read_limited, read_chunks, bounded_response, Thrown, Stream, RetryAfter, Response,
}

outbound_runs : Unit {0}
unfolding fetch attempts_from after_attempt try_once bounded_response read_chunks retry_delay_ms
outbound_runs = tt

abbrev no_digits : ℕ → String
no_digits n = "503"

abbrev tick : Clock
tick n = 100

abbrev options_of : ProviderHttpOptions
options_of = record {
  allowed_hosts = "api.test" ∷ [];
  max_attempts = none;
  max_response_bytes = some 4;
}

abbrev api_url : ProviderUrl
api_url = record { protocol = "https:"; hostname = "api.test"; text = "https://api.test/" }

abbrev closed : Client
closed = record { failures = 0; circuit_open_until = 0 }

abbrev busy : Response
busy = record {
  status = 503;
  declared = none;
  retry_after = some (RetryAfter.seconds 9);
  body = none;
}

abbrev two_chunks : Stream
two_chunks = Stream.chunk (1 ∷ 2 ∷ []) (Stream.chunk (3 ∷ []) Stream.ended)

abbrev answer : Response
answer = record { status = 200; declared = some 3; retry_after = none; body = some two_chunks }

abbrev three_bytes : List ℕ
three_bytes = 1 ∷ 2 ∷ 3 ∷ []

-- Busy at first, then an answer.
abbrev recovers : ℕ → Result Thrown Response
recovers n = if n == 1 then ok busy else ok answer

recovers_after_a_wait : fetch no_digits options_of recovers tick 100 api_url closed ≡ (
  record {
    outcome = ok (record { status = 200; bytes = 1 ∷ 2 ∷ 3 ∷ []; url = "https://api.test/" });
    sleeps = 5000 ∷ [];
    calls = 2;
  },
  closed,
)
unfolding outbound_runs
recovers_after_a_wait = refl

abbrev always_busy : ℕ → Result Thrown Response
always_busy n = ok busy

fifth_failure_opens :
    fetch no_digits options_of always_busy tick 100 api_url
      (record { failures = 4; circuit_open_until = 0 })
    ≡ (
      record {
        outcome = err (Thrown.error "Provider unavailable: 503");
        sleeps = 5000 ∷ 5000 ∷ [];
        calls = 3;
      },
      record { failures = 0; circuit_open_until = 30100 },
    )
unfolding outbound_runs
fifth_failure_opens = refl

fetch-IsModest_example :
    IsModest no_digits 3 (fetch no_digits options_of always_busy tick 100 api_url closed).0
    × ((fetch no_digits options_of always_busy tick 100 api_url closed).1.failures < 5)
fetch-IsModest_example =
    fetch-IsModest no_digits options_of always_busy tick 100 api_url closed (omega arith)

abbrev opened : Client
opened = record { failures = 0; circuit_open_until = 500 }

read_chunks_iff_example :
    (read_limited 4 (some two_chunks) ≡ ok three_bytes)
    ↔ (Delivers two_chunks three_bytes × (length three_bytes ≤ 4))
read_chunks_iff_example = read_chunks_iff 4 two_chunks three_bytes

wait_until_a_date : retry_delay_ms (some (RetryAfter.date 99999)) 1 100 ≤ 5000
wait_until_a_date = retry_delay_ms-bound (some (RetryAfter.date 99999)) 1 100
