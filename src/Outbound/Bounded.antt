-- ===== src/Outbound/Bounded.antt =====
-- `boundedResponse` and `readLimited` of src/infrastructure/outbound-http/bounded-response.ts.
use recruiting_os.Common.{
  some, ok, none, ltb, length, if◌then◌else◌, false, err, [], String, Result, Option, List, Bool, ℕ,
  ◌+◌, ◌++◌,
}

-- What code throws: the size limit, another `Error` with its message, or a value of another kind.
pub data Thrown : Type 0 where
  size_limit : Thrown
  error : String → Thrown
  non_error : Thrown

-- A body as its reader delivers it: chunks of bytes, then the end or a failure.
pub data Stream : Type 0 where
  ended : Stream
  broken : Thrown → Stream
  chunk : List ℕ → Stream → Stream

-- What `Number` and `Date.parse` make of a `retry-after` header: seconds that are finite and not
-- negative, a date, or neither.
pub data RetryAfter : Type 0 where
  seconds : ℕ → RetryAfter
  date : ℕ → RetryAfter
  unreadable : RetryAfter

-- A response; `declared` is the number that its `content-length` reads as, if it is finite. A header
-- that is not there reads as 0.
pub record Response : Type 0 where
  pub status : ℕ
  pub declared : Option ℕ
  pub retry_after : Option RetryAfter
  pub body : Option Stream

-- The response with its body read.
pub record BoundedResponse : Type 0 where
  pub status : ℕ
  pub bytes : List ℕ
  pub url : String

abbrev pub prepend : List ℕ → Result Thrown (List ℕ) → Result Thrown (List ℕ)
prepend bytes (ok rest) = ok (bytes ++ rest)
prepend bytes (err e) = err e

-- The loop of `readLimited`, with the length read so far.
unfoldable pub read_chunks : ℕ → ℕ → Stream → Result Thrown (List ℕ)
read_chunks max_bytes so_far Stream.ended = ok []
read_chunks max_bytes so_far (Stream.broken e) = err e
read_chunks max_bytes so_far (Stream.chunk value rest) =
    let later = read_chunks max_bytes (so_far + length value) rest in
    if ltb max_bytes (so_far + length value) then err Thrown.size_limit else prepend value later

abbrev pub read_limited : ℕ → Option Stream → Result Thrown (List ℕ)
read_limited max_bytes none = ok []
read_limited max_bytes (some stream) = read_chunks max_bytes 0 stream

abbrev pub exceeds : Option ℕ → ℕ → Bool
exceeds none max_bytes = false
exceeds (some declared) max_bytes = ltb max_bytes declared

unfoldable pub bounded_response : Response → ℕ → String → Result Thrown BoundedResponse
bounded_response response max_bytes url =
    if exceeds response.declared max_bytes
    then err Thrown.size_limit
    else elim (read_limited max_bytes response.body) [
      | err e ↦ err e
      | ok bytes ↦ ok (record { status = response.status; bytes = bytes; url = url })
    ]
