-- ===== src/RateLimit/Tests.antt =====
-- Runs of the limiter in memory.
use recruiting_os.Common.{◌≤◌, ◌≡◌, ◌∷◌, true, some, refl, none, false, arith, [], Clock}
use recruiting_os.RateLimit.Memory.{
  set_bucket, prune_expired, prune, get_bucket, Buckets, Bucket, consume,
}
use recruiting_os.RateLimit.Window.{consume-answers, answers}
use recruiting_os.RateLimit.Size.{IsSmall, length-consume}

limiter_runs : Unit {0}
unfolding consume get_bucket set_bucket prune prune_expired
limiter_runs = tt

abbrev full : Buckets
full = ("a", record { count = 3; reset_at = 50 }) ∷ ("b", record { count = 1; reset_at = 90 }) ∷ []

abbrev at_60 : Clock
at_60 n = 60

missing : get_bucket "c" full ≡ none
unfolding limiter_runs
missing = refl

consume-answers_example : answers 10 "c" 2 1000 (5 ∷ 6 ∷ 7 ∷ []) full ≡ true ∷ true ∷ false ∷ []
consume-answers_example =
    consume-answers 10 "c" 2 1000 5 (6 ∷ 7 ∷ []) full none_yet (omega arith)
      (omega arith, (omega arith, tt))
  where
    none_yet : (b : Bucket) → get_bucket "c" full ≡ some b → b.reset_at ≤ 5
    none_yet b e = absurd (cc (missing, e))

length-consume_example : IsSmall 2 (consume 2 "c" 2 1000 at_60 full).1
length-consume_example =
    length-consume 2 "c" 2 1000 at_60 full refl ((refl, (refl, tt)), omega arith)

-- The bucket whose window has ended makes room.
ended_makes_room :
    (consume 2 "c" 2 1000 at_60 full).1
    ≡ ("b", record { count = 1; reset_at = 90 }) ∷ ("c", record { count = 1; reset_at = 1060 }) ∷ []
unfolding limiter_runs
ended_makes_room = refl
