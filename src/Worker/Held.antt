-- ===== src/Worker/Held.antt =====
-- What `stop` of src/application/queue/job-lease-heartbeat.ts lets the worker settle.
use mathlib.Core.Option.{some-injective}
use recruiting_os.Common.{
  refl, if◌then◌else◌, Bool, ◌∙◌, true, sym, subst, arith, ap, Option-cases, ◌⊎◌, ◌≡◌, some, ok,
  none, leb, inr, inl, false, err, Result, Option, Bool-cases, ℕ, ◌<◌,
}
use recruiting_os.Queue.Rows.{Job}
use recruiting_os.Worker.Heartbeat.{
  stop_until, stop_heartbeat, is_short, held_job, Heartbeat, renew,
}

-- A job that may be settled: just renewed, or with a lease that goes on past a time.
abbrev pub IsHeld : Result (Unit {0}) (Option Job) → ℕ → ℕ → Job → Type 0
IsHeld answer now later job =
    (answer ≡ ok (some job))
    ⊎ ((until : ℕ) × (job.leased_until ≡ some until) × ((now < until) ⊎ (later < until)))

not_short : (until seconds now : ℕ) → is_short until seconds now ≡ false → now < until
not_short until seconds now h = ground arith

leb-false→lt : (a b : ℕ) → leb a b ≡ false → b < a
leb-false→lt a b h = ground arith

held-eq : (h : Heartbeat) (job : Job) → held_job h ≡ some job → (h.lost ≡ false) × (h.current ≡ job)
held-eq h job e = elim (Bool-cases h.lost) [
  | inl t ↦ absurd (cc (rw t at e))
  | inr t ↦ (t, some-injective h.current job (rw t at e))
]

thrown-late :
    (x : Unit {0}) (later until : ℕ) (h : Heartbeat)
    → h.current.leased_until ≡ some until
    → leb until later ≡ true
    → renew (err x) later h ≡ record h { lost = true }
unfolding renew
thrown-late x later until h u t = rw (u, t)

thrown-early :
    (x : Unit {0}) (later until : ℕ) (h : Heartbeat)
    → h.current.leased_until ≡ some until
    → leb until later ≡ false
    → renew (err x) later h ≡ h
unfolding renew
thrown-early x later until h u t = rw (u, t)

renewed-IsHeld :
    (answer : Result (Unit {0}) (Option Job)) (now later until : ℕ) (h : Heartbeat) (job : Job)
    → h.lost ≡ false
    → h.current.leased_until ≡ some until
    → held_job (renew answer later h) ≡ some job
    → IsHeld answer now later job
unfolding renew
renewed-IsHeld (ok (some j)) now later until h job l u e =
    inl (ap (λ k. ok (some k)) (held-eq (record h { current = j }) job e).1)
renewed-IsHeld (ok none) now later until h job l u e = cc
renewed-IsHeld (err x) now later until h job l u e = elim (Bool-cases (leb until later)) [
  | inl t ↦ absurd (
      cc (
        (held-eq (record h { lost = true }) job
          (subst (λ k. held_job k ≡ some job) (thrown-late x later until h u t) e)).0))
  | inr t ↦
      let same =
        (held-eq h job
          (subst (λ k. held_job k ≡ some job) (thrown-early x later until h u t) e)).1 in
      inr (until, ap (λ (k : Job). k.leased_until) (sym same) ∙ u, inr (leb-false→lt until later t))
]

-- `stop` of a heartbeat that has not lost its lease, by its test.
stop-eq :
    (seconds until : ℕ) (answer : Result (Unit {0}) (Option Job)) (now later : ℕ) (h : Heartbeat)
    (short : Bool)
    → h.lost ≡ false
    → h.current.leased_until ≡ some until
    → is_short until seconds now ≡ short
    → stop_heartbeat seconds answer now later h
      ≡ held_job (if short then renew answer later h else h)
unfolding stop_heartbeat
stop-eq seconds until answer now later h short l u t =
    ap (λ b. if b then none else stop_until h.current.leased_until seconds answer now later h) l
    ∙ ap (λ o. stop_until o seconds answer now later h) u
    ∙ ap (λ b. held_job (if b then renew answer later h else h)) t

lost-none :
    (seconds : ℕ) (answer : Result (Unit {0}) (Option Job)) (now later : ℕ) (h : Heartbeat)
    → (h.lost ≡ true) ⊎ (h.current.leased_until ≡ none)
    → stop_heartbeat seconds answer now later h ≡ none
unfolding stop_heartbeat
lost-none seconds answer now later h (inl l) =
    ap (λ b. if b then none else stop_until h.current.leased_until seconds answer now later h) l
lost-none seconds answer now later h (inr u) =
    ap (λ o. if h.lost then none else stop_until o seconds answer now later h) u
    ∙ either h.lost none refl
  where
    either : (b : Bool) (o : Option Job) → o ≡ none → (if b then none else o) ≡ none
    either true o e = refl
    either false o e = e

-- `stop` gives the worker a job to settle only if that job has just been renewed, or its lease ends
-- after the time at which `stop` has looked at it, or after the time at which a renewal has thrown;
-- a heartbeat that has lost its lease gives none.
pub stop_heartbeat-IsHeld :
    (seconds : ℕ) (answer : Result (Unit {0}) (Option Job)) (now later : ℕ) (h : Heartbeat)
    (job : Job)
    → stop_heartbeat seconds answer now later h ≡ some job
    → IsHeld answer now later job × (h.lost ≡ false)
stop_heartbeat-IsHeld seconds answer now later h job e = elim (Bool-cases h.lost) [
  | inl l ↦ absurd (cc (lost-none seconds answer now later h (inl l), e))
  | inr l ↦ elim (Option-cases h.current.leased_until) [
    | inl u ↦ absurd (cc (lost-none seconds answer now later h (inr u), e))
    | inr (until, u) ↦ elim (Bool-cases (is_short until seconds now)) [
      | inl t ↦
          let stopped = stop-eq seconds until answer now later h true l u t in
          (renewed-IsHeld answer now later until h job l u (sym stopped ∙ e), l)
      | inr t ↦
          let stopped = stop-eq seconds until answer now later h false l u t in
          let same = (held-eq h job (sym stopped ∙ e)).1 in
          (
            inr (
              until,
              ap (λ (k : Job). k.leased_until) (sym same) ∙ u,
              inl (not_short until seconds now t),
            ),
            l,
          )
    ]
  ]
]
