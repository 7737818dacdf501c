-- ===== src/RateLimit/Size.antt =====
-- The bound on the number of buckets that the limiter holds.
use recruiting_os.Common.{
  ◌≤◌, ◌∙◌, ltb→lt, ltb-false→le, ltb, if◌then◌else◌, Clock, ◌-◌, sym, subst, leb, inl, arith, ap,
  Bool-cases, Bool, All, ◌⊎◌, ◌≡◌, ◌∷◌, true, suc, str_eq, refl, length, inr, false, [], String, ℕ,
  ◌+◌,
}
use recruiting_os.RateLimit.Memory.{
  set_bucket, get_bucket, delete_first, current_bucket, prune, prune_expired, Buckets, Bucket,
  consume,
}
use recruiting_os.RateLimit.Window.{length-set_bucket, ltb-leb, le-leb}

abbrev pub IsNamedBucket : String × Bucket → Type 0
IsNamedBucket e = str_eq e.0 "" ≡ false

-- With one entry too many the loop drops the first one whose window has ended, if there is one.
abbrev One : Buckets → Buckets × Bool → Type 0
One bs r = ((r.1 ≡ true) × (suc (length r.0) ≡ length bs)) ⊎ ((r.1 ≡ false) × (r.0 ≡ bs))

ended-entry :
    (now max_buckets : ℕ) (k : String) (b : Bucket) (rest : Buckets)
    → leb b.reset_at now ≡ true
    → prune_expired now max_buckets (suc max_buckets) ((k, b) ∷ rest) ≡ (rest, true)
unfolding prune_expired
ended-entry now max_buckets k b rest e =
    let small = le-leb (suc max_buckets - 1) max_buckets (omega arith) in rw (e, small)

open-entry :
    (now max_buckets : ℕ) (k : String) (b : Bucket) (rest : Buckets)
    → leb b.reset_at now ≡ false
    → (let r = prune_expired now max_buckets (suc max_buckets) rest in
        prune_expired now max_buckets (suc max_buckets) ((k, b) ∷ rest) ≡ ((k, b) ∷ r.0, r.1))
unfolding prune_expired
open-entry now max_buckets k b rest e =
    let large = ltb-leb max_buckets (suc max_buckets) (omega arith) in rw (e, large)

prune_expired-One :
    (now max_buckets : ℕ) (bs : Buckets)
    → One bs (prune_expired now max_buckets (suc max_buckets) bs)
unfolding prune_expired
prune_expired-One now max_buckets [] = inr (refl, refl)
prune_expired-One now max_buckets ((k, b) ∷ rest) = elim (Bool-cases (leb b.reset_at now)) [
  | inl e ↦
      subst (One ((k, b) ∷ rest)) (sym (ended-entry now max_buckets k b rest e)) (inl (refl, refl))
  | inr e ↦
      subst (One ((k, b) ∷ rest)) (sym (open-entry now max_buckets k b rest e))
        (elim (prune_expired-One now max_buckets rest) [
          | inl (d, n) ↦ inl (d, ap suc n)
          | inr (d, same) ↦ inr (d, ap (λ r. (k, b) ∷ r) same)
        ])
]

abbrev pruned : Buckets × Bool → Buckets
pruned r = if r.1 then r.0 else delete_first r.0

length-delete_first :
    (max_buckets : ℕ) (bs : Buckets)
    → All IsNamedBucket bs
    → length bs ≡ suc max_buckets
    → length (delete_first bs) ≡ max_buckets
length-delete_first max_buckets [] named n = absurd (omega arith)
length-delete_first max_buckets ((k, b) ∷ bs) named n = ground (arith, named.0)

pruned-length :
    (max_buckets : ℕ) (bs : Buckets)
    → All IsNamedBucket bs
    → length bs ≡ suc max_buckets
    → (r : Buckets × Bool) → One bs r
    → length (pruned r) ≡ max_buckets
pruned-length max_buckets bs named n (rest, true) (inl (d, e)) = omega (arith, e, n)
pruned-length max_buckets bs named n (rest, false) (inl (d, e)) = cc
pruned-length max_buckets bs named n (rest, true) (inr (d, e)) = cc
pruned-length max_buckets bs named n (rest, false) (inr (d, e)) =
    subst (λ r. length (delete_first r) ≡ max_buckets) (sym e)
      (length-delete_first max_buckets bs named n)

-- One entry too many is one entry less after pruning, if the first key is not the empty text.
length-prune :
    (now max_buckets : ℕ) (bs : Buckets)
    → All IsNamedBucket bs
    → length bs ≡ suc max_buckets
    → length (prune now max_buckets bs) ≡ max_buckets
unfolding prune
length-prune now max_buckets bs named n =
    ap (λ m. length (pruned (prune_expired now max_buckets m bs))) n
    ∙ pruned-length max_buckets bs named n (prune_expired now max_buckets (suc max_buckets) bs)
        (prune_expired-One now max_buckets bs)

named-set_bucket :
    (key : String) (b : Bucket) (bs : Buckets)
    → str_eq key "" ≡ false
    → All IsNamedBucket bs
    → All IsNamedBucket (set_bucket key b bs)
unfolding set_bucket
named-set_bucket key b [] k named = (k, tt)
named-set_bucket key b ((l, c) ∷ bs) k named = elim (Bool-cases (str_eq l key)) [
  | inl t ↦ rw t (named.0, named.1)
  | inr t ↦ rw t (named.0, named-set_bucket key b bs k named.1)
]

named-prune_expired :
    (now max_buckets size : ℕ) (bs : Buckets)
    → All IsNamedBucket bs
    → All IsNamedBucket (prune_expired now max_buckets size bs).0
unfolding prune_expired
named-prune_expired now max_buckets size [] named = tt
named-prune_expired now max_buckets size ((k, b) ∷ rest) named =
    elim (Bool-cases (leb b.reset_at now)) [
      | inl t ↦ elim (Bool-cases (leb (size - 1) max_buckets)) [
        | inl u ↦ rw (t, u) named.1
        | inr u ↦ rw (t, u) (named-prune_expired now max_buckets (size - 1) rest named.1)
      ]
      | inr t ↦ elim (Bool-cases (leb size max_buckets)) [
        | inl u ↦ rw (t, u) named
        | inr u ↦ rw (t, u) (named.0, named-prune_expired now max_buckets size rest named.1)
      ]
    ]

named-delete_first : (bs : Buckets) → All IsNamedBucket bs → All IsNamedBucket (delete_first bs)
named-delete_first [] named = tt
named-delete_first ((k, b) ∷ bs) named = rw named.0 named.1

named-prune :
    (now max_buckets : ℕ) (bs : Buckets)
    → All IsNamedBucket bs
    → All IsNamedBucket (prune now max_buckets bs)
unfolding prune
named-prune now max_buckets bs named =
    let swept = prune_expired now max_buckets (length bs) bs in
    let h = named-prune_expired now max_buckets (length bs) bs named in
    elim (Bool-cases swept.1) [ inl t ↦ rw t h | inr t ↦ rw t (named-delete_first swept.0 h) ]

-- A map of at most so many buckets, none of them under the empty text.
abbrev pub IsSmall : ℕ → Buckets → Type 0
IsSmall max_buckets bs = All IsNamedBucket bs × (length bs ≤ max_buckets)

-- Each `consume` of a key that is not the empty text keeps the number of buckets within the bound,
-- also when the map is full and no window in it has ended, where the number was within the bound
-- before and no key in the map is the empty text, which would not be dropped. The keys of the new
-- map are not empty either, so the bound lasts over any sequence of such calls.
pub length-consume :
    (max_buckets : ℕ) (key : String) (limit window : ℕ) (clock : Clock) (bs : Buckets)
    → str_eq key "" ≡ false
    → IsSmall max_buckets bs
    → IsSmall max_buckets (consume max_buckets key limit window clock bs).1
unfolding consume
length-consume max_buckets key limit window clock bs k (named, n) =
    let current = current_bucket (clock 0) window (get_bucket key bs) in
    bounded (set_bucket key (record current { count = current.count + 1 }) bs)
      (named-set_bucket key _ bs k named) (length-set_bucket key _ bs)
  where
    bounded :
        (stored : Buckets)
        → All IsNamedBucket stored
        → length stored ≤ suc (length bs)
        → IsSmall max_buckets
            (if ltb max_buckets (length stored) then prune (clock 0) max_buckets stored else stored)
    bounded stored h m = elim (Bool-cases (ltb max_buckets (length stored))) [
      | inl t ↦ rw t (
        named-prune (clock 0) max_buckets stored h,
        omega (
          arith,
          length-prune (clock 0) max_buckets stored h
              (omega (arith, ltb→lt max_buckets (length stored) t, m, n)),
        ),
      )
      | inr t ↦ rw t (h, ltb-false→le max_buckets (length stored) t)
    ]
