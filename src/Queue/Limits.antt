-- ===== src/Queue/Limits.antt =====
-- The limit of attempts over histories of calls.
use recruiting_os.Common.{
  Distinct, ◌≡◌, ◌∷◌, ◌∙◌, ◌<◌, ◌+◌, ◌*◌, true, sym, subst, refl, or_else, ok, inr, inl, err, arith,
  [], String, Result, Option-cases, List, In, Clock, Bool, All-update, All-append, All, ℕ,
}
use recruiting_os.Queue.Machine.{step, run, after_enqueue, after, Call}
use recruiting_os.Queue.Unique.{ids}
use recruiting_os.Queue.Enqueue.{upsert, requeue, enqueue, conflicts, EnqueueJob}
use recruiting_os.Queue.Attempts.{
  succeed-IsBounded, requeue-IsBounded, renew-IsBounded, lease_next-IsBounded, fail_row-IsBounded,
  cancel_each-IsBounded, IsBounded,
}
use recruiting_os.Queue.Rows.{Queue, JobRow, Job}
use recruiting_os.Queue.Cancel.{cancel_pending, cancel_ids}
use recruiting_os.Queue.Settle.{succeed_row, settle, fail, complete}
use recruiting_os.Queue.Insert.{upsert-cases, enqueue-ok}
use recruiting_os.Queue.Lease.{renew_lease, lease_of, holds_lease, extend_lease}
use recruiting_os.Queue.Fencing.{lease_of-eq, holds-parts}
use recruiting_os.Queue.History.{step-Distinct}

-- The job object of a failure agrees with the row whose lease it holds.
abbrev pub Agrees : Job → Queue → Type 0
Agrees job q =
    (r : JobRow)
    → In r q.jobs
    → r.id ≡ job.id
    → r.leased_by ≡ job.leased_by
    → r.leased_until ≡ job.leased_until
    → (job.attempt_count ≡ r.attempt_count) × (job.max_attempts ≡ r.max_attempts)

-- What a call has to bring.
abbrev pub IsSound : Call → Queue → Type 0
IsSound (Call.enqueues input) q = 0 < or_else input.max_attempts 5
IsSound (Call.fails job message) q = Agrees job q
IsSound _ q = Unit {0}

after-IsBounded :
    (holds : JobRow → Bool) (change : JobRow → JobRow) (q : Queue)
    → ((r : JobRow) → In r q.jobs → holds r ≡ true → IsBounded r → IsBounded (change r))
    → All IsBounded q.jobs
    → All IsBounded (after q (settle holds change q)).jobs
unfolding settle
after-IsBounded holds change q keep h =
    ground (arith, h, All-update IsBounded holds change q.jobs keep h)

complete-IsBounded :
    (job : Job) (clock : Clock) (q : Queue)
    → All IsBounded q.jobs
    → All IsBounded (after q (complete job clock q)).jobs
unfolding complete
complete-IsBounded job clock q h = elim (Option-cases (lease_of job)) [
  | inl e ↦ rw (e, complete) h
  | inr (l, e) ↦
      rw (e, complete)
        (after-IsBounded (holds_lease job.id l.0 l.1 (clock 2)) (succeed_row (clock 0) (clock 1)) q
          (λ x m t k. succeed-IsBounded (clock 0) (clock 1) x k) h)
]

fail-IsBounded :
    (job : Job) (message : String) (clock : Clock) (q : Queue)
    → Agrees job q
    → All IsBounded q.jobs
    → All IsBounded (after q (fail job message clock q)).jobs
unfolding fail
fail-IsBounded job message clock q agrees h = elim (Option-cases (lease_of job)) [
  | inl e ↦ rw (e, fail) h
  | inr (l, e) ↦
      rw (e, fail)
        (after-IsBounded (holds_lease job.id l.0 l.1 (clock 3)) _ q
          (λ x m t k.
            let (same, by, until) = holds-parts job.id l.0 l.1 (clock 3) x t in
            let (jb, ju) = lease_of-eq job.leased_by job.leased_until l e in
            let (a, b) = agrees x m same (by ∙ sym jb) (until ∙ sym ju) in
            rw (a, b) (fail_row-IsBounded _ _ (clock 1) (clock 2) x k))
          h)
]

renew_lease-IsBounded :
    (job : Job) (seconds : ℕ) (clock : Clock) (q : Queue)
    → All IsBounded q.jobs
    → All IsBounded (renew_lease job seconds clock q).1.jobs
unfolding renew_lease
renew_lease-IsBounded job seconds clock q h = elim (Option-cases (lease_of job)) [
  | inl e ↦ rw (e, renew_lease) h
  | inr (l, e) ↦
      rw (e, renew_lease)
        (All-update IsBounded (holds_lease job.id l.0 l.1 (clock 2))
          (extend_lease (clock 0 + seconds * 1000) (clock 1)) q.jobs
          (λ x m t k. renew-IsBounded _ (clock 1) x k) h)
]

upsert-IsBounded :
    (input : EnqueueJob) (id : String) (now : ℕ) (rows later : List JobRow)
    → 0 < or_else input.max_attempts 5
    → upsert input id now rows ≡ ok later
    → All IsBounded rows
    → All IsBounded later
upsert-IsBounded input id now rows later p e h = elim (upsert-cases input id now rows later e) [
  | inl (t, f) ↦ subst (All IsBounded) (sym f) (
      All-update IsBounded (conflicts input) (requeue input now) rows
        (λ x m u k. requeue-IsBounded input now x p k) h)
  | inr (t, u, f) ↦
      subst (All IsBounded) (sym f)
        (All-append IsBounded rows _ h (record { within = omega arith; left = λ g. p }, tt))
]

module _ (stable_id : String → String → String) where
  step-IsBounded :
      (clock : Clock) (call : Call) (q : Queue)
      → IsSound call q
      → Distinct (ids q.jobs)
      → All IsBounded q.jobs
      → All IsBounded (step stable_id clock call q).jobs
  unfolding step
  step-IsBounded clock (Call.enqueues input) q s d h =
      inserted (enqueue stable_id input clock q) refl
    where
      inserted :
          (r : Result String (Job × Queue))
          → enqueue stable_id input clock q ≡ r
          → All IsBounded (after_enqueue q r).jobs
      inserted (err e) p = h
      inserted (ok (j, q')) p =
          upsert-IsBounded input _ _ q.jobs q'.jobs s (enqueue-ok stable_id input clock q j q' p) h
  step-IsBounded clock (Call.cancels input) q s d h =
      unfold cancel_pending in cancel_each-IsBounded clock 0 (cancel_ids input q) q.jobs h
  step-IsBounded clock (Call.leases worker seconds) q s d h =
      lease_next-IsBounded worker seconds clock q d h
  step-IsBounded clock (Call.renews job seconds) q s d h =
      renew_lease-IsBounded job seconds clock q h
  step-IsBounded clock (Call.completes job) q s d h = complete-IsBounded job clock q h
  step-IsBounded clock (Call.fails job message) q s d h = fail-IsBounded job message clock q s h

  -- Every call of the history brings what `IsSound` asks of it.
  abbrev pub AllSound : List (Clock × Call) → Queue → Type 0
  AllSound [] q = Unit {0}
  AllSound ((clock, call) ∷ h) q = IsSound call q × AllSound h (step stable_id clock call q)

  -- Over a history of calls in which each job is enqueued with a limit above 0 and each failure is
  -- reported with the job as it was leased, no job has more attempts than its limit, and a job
  -- that waits has an attempt left; if that held at the start and the ids were distinct.
  pub run-IsBounded :
      (h : List (Clock × Call)) (q : Queue)
      → AllSound h q
      → Distinct (ids q.jobs)
      → All IsBounded q.jobs
      → All IsBounded (run stable_id h q).jobs
  unfolding run
  run-IsBounded [] q s d a = a
  run-IsBounded ((clock, call) ∷ h) q (s, rest) d a =
      run-IsBounded h _ rest (step-Distinct stable_id clock call q d)
        (step-IsBounded clock call q s d a)
