-- ===== src/RateLimit/Memory.antt =====
-- `InMemoryRateLimiter` of src/infrastructure/rate-limit/in-memory-rate-limiter.ts. A `Map` is the
-- list of its entries in the order in which their keys were first set.
use recruiting_os.Common.{
  ◌∷◌, true, str_eq, some, none, ltb, length, leb, if◌then◌else◌, false, [], String, Option, List,
  Clock, Bool, ℕ, ◌-◌, ◌+◌,
}
use recruiting_os.RateLimit.Port.{RateLimiter, RateLimitResult}

pub record Bucket : Type 0 where
  pub count : ℕ
  pub reset_at : ℕ

abbrev pub Buckets : Type 0
Buckets = List (String × Bucket)

unfoldable pub get_bucket : String → Buckets → Option Bucket
get_bucket key [] = none
get_bucket key ((k, b) ∷ rest) = if str_eq k key then some b else get_bucket key rest

unfoldable pub set_bucket : String → Bucket → Buckets → Buckets
set_bucket key bucket [] = (key, bucket) ∷ []
set_bucket key bucket ((k, b) ∷ rest) =
    if str_eq k key then (k, bucket) ∷ rest else (k, b) ∷ set_bucket key bucket rest

-- The bucket that counts: the one that is there, if its window has not ended.
abbrev pub current_bucket : ℕ → ℕ → Option Bucket → Bucket
current_bucket now window none = record { count = 0; reset_at = now + window }
current_bucket now window (some b) =
    if leb b.reset_at now then record { count = 0; reset_at = now + window } else b

-- The loop of `prune` over the entries that are left, of `size` in all; whether it returned.
unfoldable pub prune_expired : ℕ → ℕ → ℕ → Buckets → Buckets × Bool
prune_expired now max_buckets size [] = ([], false)
prune_expired now max_buckets size ((k, b) ∷ rest) =
    let dropped = prune_expired now max_buckets (size - 1) rest in
    let kept = prune_expired now max_buckets size rest in
    if leb b.reset_at now
    then (if leb (size - 1) max_buckets then (rest, true) else dropped)
    else if leb size max_buckets
    then ((k, b) ∷ rest, true)
    else ((k, b) ∷ kept.0, kept.1)

-- `if (first) this.buckets.delete(first)`
abbrev pub delete_first : Buckets → Buckets
delete_first [] = []
delete_first ((k, b) ∷ rest) = if str_eq k "" then (k, b) ∷ rest else rest

unfoldable pub prune : ℕ → ℕ → Buckets → Buckets
prune now max_buckets buckets =
    let swept = prune_expired now max_buckets (length buckets) buckets in
    if swept.1 then swept.0 else delete_first swept.0

module _ (max_buckets : ℕ) where
  unfoldable pub consume : String → ℕ → ℕ → Clock → Buckets → RateLimitResult × Buckets
  consume key limit window clock buckets =
      let now = clock 0 in
      let current = current_bucket now window (get_bucket key buckets) in
      let counted = record current { count = current.count + 1 } in
      let stored = set_bucket key counted buckets in
      (
        record {
          allowed = leb counted.count limit;
          remaining = limit - counted.count;
          reset_at = counted.reset_at;
        },
        if ltb max_buckets (length stored) then prune now max_buckets stored else stored,
      )

  abbrev pub in_memory : RateLimiter Buckets
  in_memory = record { consume = consume }
