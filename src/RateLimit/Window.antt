-- ===== src/RateLimit/Window.antt =====
-- What the limiter of src/infrastructure/rate-limit/in-memory-rate-limiter.ts allows in one window.
use recruiting_os.Common.{
  ◌∙◌, true, sym, subst, ltb, false, ap, Option-cases, ◌≤◌, ◌≡◌, ◌∷◌, suc, str_eq, some, refl,
  length, leb, inr, inl, eq_iff, arith, [], String, List, Bool-cases, Bool, All, ℕ, ◌<◌, ◌+◌,
}
use recruiting_os.RateLimit.Memory.{
  set_bucket, get_bucket, current_bucket, Buckets, Bucket, consume,
}

get-set_bucket :
    (key : String) (b : Bucket) (bs : Buckets) → get_bucket key (set_bucket key b bs) ≡ some b
unfolding get_bucket set_bucket
get-set_bucket key b [] = ground (arith, (eq_iff key key).1 refl)
get-set_bucket key b ((k, c) ∷ bs) = elim (Bool-cases (str_eq k key)) [
  | inl t ↦ ground (arith, t)
  | inr t ↦ ground (arith, t, get-set_bucket key b bs)
]

pub length-set_bucket :
    (key : String) (b : Bucket) (bs : Buckets) → length (set_bucket key b bs) ≤ suc (length bs)
unfolding set_bucket
length-set_bucket key b [] = omega arith
length-set_bucket key b ((k, c) ∷ bs) = elim (Bool-cases (str_eq k key)) [
  | inl t ↦ ground (arith, t)
  | inr t ↦ ground (arith, t, length-set_bucket key b bs)
]

length-set_known :
    (key : String) (b c : Bucket) (bs : Buckets)
    → get_bucket key bs ≡ some c
    → length (set_bucket key b bs) ≡ length bs
unfolding set_bucket get_bucket
length-set_known key b c [] e = cc
length-set_known key b c ((k, d) ∷ bs) e = elim (Bool-cases (str_eq k key)) [
  | inl t ↦ ground (arith, t)
  | inr t ↦ ground (arith, t, length-set_known key b c bs (rw (t, get_bucket) at e))
]

pub ltb-leb : (a b : ℕ) → a < b → leb b a ≡ false
ltb-leb a b n = ground arith

pub le-leb : (a b : ℕ) → a ≤ b → leb a b ≡ true
le-leb a b n = ground arith

module _ (max_buckets : ℕ) (key : String) (limit window : ℕ) where
  -- The answers to requests of one key at the given times.
  abbrev pub answers : List ℕ → Buckets → List Bool
  answers [] bs = []
  answers (t ∷ times) bs =
      let r = consume max_buckets key limit window (λ n. t) bs in r.0.allowed ∷ answers times r.1

  -- The n-th request and those after it, each allowed if its number is within the limit.
  abbrev pub within_limit : ℕ → List ℕ → List Bool
  within_limit n [] = []
  within_limit n (t ∷ times) = leb n limit ∷ within_limit (n + 1) times

  -- The bucket after a request at a time.
  abbrev next_bucket : ℕ → Buckets → Bucket
  next_bucket t bs =
      let b = current_bucket t window (get_bucket key bs) in record b { count = b.count + 1 }

  stored-step :
      (t : ℕ) (bs : Buckets) (b : Bucket)
      → next_bucket t bs ≡ b
      → length (set_bucket key b bs) ≤ max_buckets
      → (consume max_buckets key limit window (λ n. t) bs).1 ≡ set_bucket key b bs
  unfolding consume
  stored-step t bs b e n =
      let room =
        subst (λ (c : Bucket). ltb max_buckets (length (set_bucket key c bs)) ≡ false) (sym e)
          (ground (arith, n)) in
      rw room (ap (λ (c : Bucket). set_bucket key c bs) e)

  allowed-step :
      (t : ℕ) (bs : Buckets) (b : Bucket)
      → next_bucket t bs ≡ b
      → (consume max_buckets key limit window (λ n. t) bs).0.allowed ≡ leb b.count limit
  unfolding consume
  allowed-step t bs b e = ap (λ (c : Bucket). leb c.count limit) e

  answers-step :
      (t : ℕ) (times : List ℕ) (bs : Buckets) (b : Bucket)
      → next_bucket t bs ≡ b
      → length (set_bucket key b bs) ≤ max_buckets
      → answers (t ∷ times) bs ≡ leb b.count limit ∷ answers times (set_bucket key b bs)
  answers-step t times bs b e n =
      ap (λ r. r ∷ answers times (consume max_buckets key limit window (λ n. t) bs).1)
        (allowed-step t bs b e)
      ∙ ap (λ c. leb b.count limit ∷ answers times c) (stored-step t bs b e n)

  open-bucket :
      (t : ℕ) (bs : Buckets) (b : Bucket)
      → get_bucket key bs ≡ some b
      → t < b.reset_at
      → next_bucket t bs ≡ record b { count = b.count + 1 }
  open-bucket t bs b g n = let open_yet = ltb-leb t b.reset_at n in rw (g, open_yet)

  running :
      (times : List ℕ) (bs : Buckets) (b : Bucket)
      → get_bucket key bs ≡ some b
      → length bs ≤ max_buckets
      → All (λ t. t < b.reset_at) times
      → answers times bs ≡ within_limit (b.count + 1) times
  running [] bs b g n h = refl
  running (t ∷ times) bs b g n h =
      let c = record b { count = b.count + 1 } in
      let same = length-set_known key c b bs g in
      answers-step t times bs c (open-bucket t bs b g h.0) (omega (arith, same))
      ∙ ap (λ r. leb c.count limit ∷ r)
          (running times (set_bucket key c bs) c (get-set_bucket key c bs) (omega (arith, same))
            h.1)

  abbrev opening : ℕ → Bucket
  opening t = record { count = 1; reset_at = t + window }

  fresh-bucket :
      (t : ℕ) (bs : Buckets)
      → ((b : Bucket) → get_bucket key bs ≡ some b → b.reset_at ≤ t)
      → next_bucket t bs ≡ opening t
  fresh-bucket t bs old = elim (Option-cases (get_bucket key bs)) [
    | inl g ↦ rw g
    | inr (b, g) ↦ let ended = le-leb b.reset_at t (old b g) in rw (g, ended)
  ]

  -- Of the requests of one key in the window that its first request opens exactly those up to the
  -- limit are allowed, whenever they come in that window, as long as there is room for the bucket.
  pub consume-answers :
      (first : ℕ) (times : List ℕ) (bs : Buckets)
      → ((b : Bucket) → get_bucket key bs ≡ some b → b.reset_at ≤ first)
      → length bs < max_buckets
      → All (λ t. t < first + window) times
      → answers (first ∷ times) bs ≡ within_limit 1 (first ∷ times)
  consume-answers first times bs old room h =
      let b = opening first in
      let grown = length-set_bucket key b bs in
      answers-step first times bs b (fresh-bucket first bs old) (omega (arith, grown, room))
      ∙ ap (λ r. leb 1 limit ∷ r)
          (running times (set_bucket key b bs) b (get-set_bucket key b bs)
            (omega (arith, grown, room)) h)
