-- ===== src/Outbound/Reading.antt =====
-- What `boundedResponse` of src/infrastructure/outbound-http/bounded-response.ts returns.
use recruiting_os.Common.{
  subst, ltb-false→le, false, Result, ◌≡◌, ◌∷◌, ◌↔◌, some, refl, ok, ltb, length, inr, inl, arith,
  [], Result-cases, List, Bool-cases, ℕ, ◌+◌, ◌++◌, ◌≤◌,
}
use recruiting_os.Outbound.Bounded.{Thrown, read_limited, read_chunks, Stream}

-- The chunks of a stream that ends, in order.
pub data Delivers : Stream → List ℕ → Type 0 where
  nothing : Delivers Stream.ended []
  next :
      (value : List ℕ) (rest : Stream) (bytes : List ℕ)
      → Delivers rest bytes
      → Delivers (Stream.chunk value rest) (value ++ bytes)

length-append : (xs ys : List ℕ) → length (xs ++ ys) ≡ length xs + length ys
length-append [] ys = omega arith
length-append (x ∷ xs) ys = omega (arith, length-append xs ys)

abbrev read : List ℕ → Result Thrown (List ℕ)
read bytes = ok bytes

ok-bytes : (a b : List ℕ) → read a ≡ read b → a ≡ b
ok-bytes a b e = cc e

le-not_ltb : (a b : ℕ) → b ≤ a → ltb a b ≡ false
le-not_ltb a b n = ground arith

read_chunks-ok :
    (max_bytes so_far : ℕ) (stream : Stream) (bytes : List ℕ)
    → so_far ≤ max_bytes
    → read_chunks max_bytes so_far stream ≡ ok bytes
    → Delivers stream bytes × (so_far + length bytes ≤ max_bytes)
unfolding read_chunks
read_chunks-ok max_bytes so_far Stream.ended bytes n e =
    let same = ok-bytes [] bytes e in
    (
      subst (Delivers Stream.ended) same Delivers.nothing,
      subst (λ b. so_far + length b ≤ max_bytes) same (omega (arith, n)),
    )
read_chunks-ok max_bytes so_far (Stream.broken x) bytes n e = cc
read_chunks-ok max_bytes so_far (Stream.chunk value rest) bytes n e =
    elim (Bool-cases (ltb max_bytes (so_far + length value))) [
      | inl t ↦ absurd (cc (rw (t, read_chunks) at e))
      | inr t ↦ elim (Result-cases (read_chunks max_bytes (so_far + length value) rest)) [
        | inl (x, r) ↦ absurd (cc (rw (t, r, read_chunks) at e))
        | inr (more, r) ↦
            let same = ok-bytes (value ++ more) bytes (rw (t, r, read_chunks) at e) in
            let fits = ltb-false→le max_bytes (so_far + length value) t in
            let (d, m) = read_chunks-ok max_bytes (so_far + length value) rest more fits r in
            (
              subst (Delivers (Stream.chunk value rest)) same (Delivers.next value rest more d),
              subst (λ b. so_far + length b ≤ max_bytes) same
                  (omega (arith, m, length-append value more)),
            )
      ]
    ]

-- A stream that delivers no more than the bound is read in full.
read_chunks-within :
    (max_bytes so_far : ℕ) (stream : Stream) (bytes : List ℕ)
    → Delivers stream bytes
    → so_far + length bytes ≤ max_bytes
    → read_chunks max_bytes so_far stream ≡ ok bytes
unfolding read_chunks
read_chunks-within max_bytes so_far stream bytes Delivers.nothing n = refl
read_chunks-within max_bytes so_far stream bytes (Delivers.next value rest more d) n =
    let fits =
      le-not_ltb max_bytes (so_far + length value) (omega (arith, n, length-append value more)) in
    rw (
      fits,
      read_chunks-within max_bytes (so_far + length value) rest more d
          (omega (arith, n, length-append value more)),
    )

-- `readLimited` yields the bytes of a body exactly when it ends within the limit: never more than
-- the limit, never a part, and every body within the limit.
pub read_chunks_iff :
    (max_bytes : ℕ) (stream : Stream) (bytes : List ℕ)
    → (read_limited max_bytes (some stream) ≡ ok bytes)
      ↔ (Delivers stream bytes × (length bytes ≤ max_bytes))
read_chunks_iff max_bytes stream bytes = (
  (λ e.
      let (d, n) = read_chunks-ok max_bytes 0 stream bytes (omega arith) e in
      (d, omega (arith, n))),
  (λ (d, n). read_chunks-within max_bytes 0 stream bytes d (omega (arith, n))),
)
