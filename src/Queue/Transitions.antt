-- ===== src/Queue/Transitions.antt =====
-- The life of a job, call by call of `JobQueue`.
use recruiting_os.Common.{
  leb, if◌then◌else◌, Distinct, ◌⊎◌, ◌≢◌, inr, inl, List, In-append, In, Clock, All, All-In, ◌≡◌,
  true, false, refl, subst, arith, String, Bool, Option-cases, Result, ok, err, ℕ,
}
use recruiting_os.Domain.{JobStatus}
use recruiting_os.Queue.Rows.{Queue, JobRow, Job}
use recruiting_os.Queue.Enqueue.{EnqueueJob, upsert, enqueue, requeue}
use recruiting_os.Queue.Lease.{holds_lease, lease_of, renew_lease}
use recruiting_os.Queue.Settle.{complete, fail}
use recruiting_os.Queue.Moves.{
  Follows, Follows-self, Follows-update, Moves, cancel_pending-Follows, changes, lease_next-Follows,
  settle-Follows,
}
use recruiting_os.Queue.Machine.{Call, after, after_enqueue, step}
use recruiting_os.Queue.Unique.{ids}
use recruiting_os.Queue.Keys.{no_row-ids, requeue-id}
use recruiting_os.Queue.Insert.{enqueue-ok, upsert-cases}

holder-running :
    (id worker : String) (until now : ℕ) (r : JobRow)
    → holds_lease id worker until now r ≡ true
    → r.status ≡ JobStatus.running
holder-running id worker until now r h = by_status r.status refl
  where
    by_status : (s : JobStatus) → r.status ≡ s → r.status ≡ JobStatus.running
    by_status JobStatus.running e = e
    by_status JobStatus.queued e = absurd (ground arith)
    by_status JobStatus.retryable_failed e = absurd (ground arith)
    by_status JobStatus.succeeded e = absurd (ground arith)
    by_status JobStatus.dead_letter e = absurd (ground arith)
    by_status JobStatus.cancelled e = absurd (ground arith)

renew_lease-Follows :
    (job : Job) (seconds : ℕ) (clock : Clock) (q : Queue)
    → All
        (Follows (changes (Call.renews job seconds)) q.jobs)
        (renew_lease job seconds clock q).1.jobs
unfolding renew_lease
renew_lease-Follows job seconds clock q = elim (Option-cases (lease_of job)) [
  | inl e ↦ rw (e, renew_lease) (Follows-self _ q.jobs)
  | inr (l, e) ↦ rw (e, renew_lease) (Follows-update _ _ _ q.jobs (λ x. refl) (λ x m t. inl refl))
]

complete-Follows :
    (job : Job) (clock : Clock) (q : Queue)
    → All (Follows (changes (Call.completes job)) q.jobs) (after q (complete job clock q)).jobs
unfolding complete
complete-Follows job clock q = elim (Option-cases (lease_of job)) [
  | inl e ↦ rw (e, complete) (Follows-self _ q.jobs)
  | inr (l, e) ↦
      rw (e, complete)
        (settle-Follows _ _ _ q (λ x. refl)
          λ x t. inr (rw (holder-running job.id l.0 l.1 (clock 2) x t) refl))
]

fails_to :
    (job : Job) (message : String) (terminal : Bool)
    → changes
        (Call.fails job message)
        JobStatus.running
        (if terminal then JobStatus.dead_letter else JobStatus.retryable_failed)
      ≡ true
fails_to job message true = refl
fails_to job message false = refl

fail-Follows :
    (job : Job) (message : String) (clock : Clock) (q : Queue)
    → All
        (Follows (changes (Call.fails job message)) q.jobs)
        (after q (fail job message clock q)).jobs
unfolding fail
fail-Follows job message clock q = elim (Option-cases (lease_of job)) [
  | inl e ↦ rw (e, fail) (Follows-self _ q.jobs)
  | inr (l, e) ↦
      rw (e, fail)
        (settle-Follows _ _ _ q (λ x. refl)
          λ x t. inr (
            rw (holder-running job.id l.0 l.1 (clock 3) x t)
              (fails_to job message (leb job.max_attempts job.attempt_count))))
]

-- A row that `enqueue` has inserted: it waits, under an id that no row had.
abbrev pub IsInserted : Call → List JobRow → JobRow → Type 0
IsInserted call rows a =
    (input : EnqueueJob) × (call ≡ Call.enqueues input)
    × (a.status ≡ JobStatus.queued)
    × All (λ y. y ≢ a.id) (ids rows)

requeue-Moves :
    (input : EnqueueJob) (now : ℕ) (r : JobRow)
    → Moves (changes (Call.enqueues input)) r.status (requeue input now r).status
unfolding requeue
requeue-Moves input now r = by_status r.status refl
  where
    by_status :
        (s : JobStatus)
        → r.status ≡ s
        → Moves (changes (Call.enqueues input)) r.status (requeue input now r).status
    by_status JobStatus.cancelled e = inr (rw (e, requeue) refl)
    by_status JobStatus.running e = inl (rw (e, requeue) refl)
    by_status JobStatus.queued e = inl (rw (e, requeue) refl)
    by_status JobStatus.retryable_failed e = inl (rw (e, requeue) refl)
    by_status JobStatus.succeeded e = inl (rw (e, requeue) refl)
    by_status JobStatus.dead_letter e = inl (rw (e, requeue) refl)

upsert-Follows :
    (input : EnqueueJob) (id : String) (now : ℕ) (rows later : List JobRow)
    → upsert input id now rows ≡ ok later
    → (a : JobRow) → In a later
    → Follows (changes (Call.enqueues input)) rows a ⊎ IsInserted (Call.enqueues input) rows a
upsert-Follows input id now rows later e a m = elim (upsert-cases input id now rows later e) [
  | inl (t, p) ↦ inl (
      All-In _ _ a
        (Follows-update (changes (Call.enqueues input)) _ _ rows (requeue-id input now)
          (λ x n u. requeue-Moves input now x))
        (subst (In a) p m))
  | inr (t, u, p) ↦ elim (In-append rows _ a (subst (In a) p m)) [
    | inl n ↦ inl (a, n, refl, inl refl)
    | inr n ↦ elim n [
      | inl k ↦ inr (
          subst (IsInserted (Call.enqueues input) rows) k (input, refl, refl, no_row-ids id rows u))
      | inr k ↦ absurd k
    ]
  ]
]

module _ (stable_id : String → String → String) where
  -- Each row after a call is that of an old job, whose status has stayed or changed as the call may
  -- change it, or one that `enqueue` has inserted, `queued` and under a new id. So only `leaseNext`
  -- moves a job to `running`, and only a waiting one; a running job comes to `dead_letter` by
  -- `leaseNext` or `fail`, to `retryable_failed` by `fail` and to `succeeded` by `complete` alone;
  -- only `cancelPending` cancels, and only a waiting job; only `enqueue` queues a job again, and
  -- only a cancelled one. The ids were distinct.
  pub step-Follows :
      (clock : Clock) (call : Call) (q : Queue)
      → Distinct (ids q.jobs)
      → (a : JobRow) → In a (step stable_id clock call q).jobs
      → Follows (changes call) q.jobs a ⊎ IsInserted call q.jobs a
  unfolding step
  step-Follows clock (Call.enqueues input) q d a m =
      inserted (enqueue stable_id input clock q) refl m
    where
      inserted :
          (r : Result String (Job × Queue))
          → enqueue stable_id input clock q ≡ r
          → In a (after_enqueue q r).jobs
          → Follows (changes (Call.enqueues input)) q.jobs a
            ⊎ IsInserted (Call.enqueues input) q.jobs a
      inserted (err e) p n = inl (a, n, refl, inl refl)
      inserted (ok (j, q')) p n =
          upsert-Follows input _ _ q.jobs q'.jobs (enqueue-ok stable_id input clock q j q' p) a n
  step-Follows clock (Call.cancels input) q d a m =
      inl (All-In _ _ a (cancel_pending-Follows input clock q) m)
  step-Follows clock (Call.leases worker seconds) q d a m =
      inl (All-In _ _ a (lease_next-Follows worker seconds clock q d) m)
  step-Follows clock (Call.renews job seconds) q d a m =
      inl (All-In _ _ a (renew_lease-Follows job seconds clock q) m)
  step-Follows clock (Call.completes job) q d a m =
      inl (All-In _ _ a (complete-Follows job clock q) m)
  step-Follows clock (Call.fails job message) q d a m =
      inl (All-In _ _ a (fail-Follows job message clock q) m)
