-- ===== src/Queue/Machine.antt =====
-- The queue as a machine: a call of `JobQueue` (src/application/ports/job-queue.ts) with the
-- readings of the clock that it makes, and histories of such calls.
use recruiting_os.Common.{
  Distinct, ◌≡◌, ◌∷◌, refl, ok, err, [], All-In, In-All, All, Clock, List, Result, String, ℕ,
}
use recruiting_os.Queue.Rows.{JobRow, Queue, Job}
use recruiting_os.Queue.Enqueue.{job_key, EnqueueJob, enqueue, new_row}
use recruiting_os.Queue.Steps.{From-self, From}
use recruiting_os.Queue.Cancel.{cancel_pending, CancelPendingJobs}
use recruiting_os.Queue.Unique.{ids}
use recruiting_os.Queue.Insert.{enqueue-Origin, Origin}
use recruiting_os.Queue.Calls.{
  renew_lease-From, lease_next-From, fail-From, complete-From, cancel_pending-From,
}
use recruiting_os.Queue.Settle.{fail, complete}
use recruiting_os.Queue.Lease.{renew_lease, lease_next}

pub data Call : Type 0 where
  enqueues : EnqueueJob → Call
  cancels : CancelPendingJobs → Call
  leases : String → ℕ → Call
  renews : Job → ℕ → Call
  completes : Job → Call
  fails : Job → String → Call

-- The tables after a call; one that throws leaves them as they were.
abbrev pub after_enqueue : Queue → Result String (Job × Queue) → Queue
after_enqueue q (ok (j, q')) = q'
after_enqueue q (err e) = q

abbrev pub after : Queue → Result String Queue → Queue
after q (ok q') = q'
after q (err e) = q

module _ (stable_id : String → String → String) where
  unfoldable pub step : Clock → Call → Queue → Queue
  step clock (Call.enqueues input) q = after_enqueue q (enqueue stable_id input clock q)
  step clock (Call.cancels input) q = (cancel_pending input clock q).1
  step clock (Call.leases worker seconds) q = (lease_next worker seconds clock q).1
  step clock (Call.renews job seconds) q = (renew_lease job seconds clock q).1
  step clock (Call.completes job) q = after q (complete job clock q)
  step clock (Call.fails job message) q = after q (fail job message clock q)

  unfoldable pub run : List (Clock × Call) → Queue → Queue
  run [] q = q
  run ((clock, call) ∷ rest) q = run rest (step clock call q)

  -- A row after any call: one that `enqueue` has inserted, or an old row after row steps.
  pub data Came (q : Queue) (a : JobRow) : Type 0 where
    old : From q.jobs a → Came q a
    inserted :
        (input : EnqueueJob) (now : ℕ)
        → a ≡ new_row input (stable_id "job" (job_key input)) now
        → Came q a

  Came-of_From : (q : Queue) (rows : List JobRow) → All (From q.jobs) rows → All (Came q) rows
  Came-of_From q rows h = In-All (Came q) rows (λ a m. Came.old (All-In (From q.jobs) rows a h m))

  Came-of_Origin :
      (input : EnqueueJob) (q : Queue) (rows : List JobRow)
      → All (Origin input (stable_id "job" (job_key input)) q.jobs) rows
      → All (Came q) rows
  Came-of_Origin input q rows h = In-All (Came q) rows λ a m. came a (All-In _ rows a h m)
    where
      came : (a : JobRow) → Origin input (stable_id "job" (job_key input)) q.jobs a → Came q a
      came a (Origin.old f) = Came.old f
      came a (Origin.inserted now e) = Came.inserted input now e

  pub step-Came :
      (clock : Clock) (call : Call) (q : Queue)
      → Distinct (ids q.jobs)
      → All (Came q) (step clock call q).jobs
  unfolding step
  step-Came clock (Call.enqueues input) q d =
      after_enqueue-Came (enqueue stable_id input clock q) refl
    where
      after_enqueue-Came :
          (r : Result String (Job × Queue))
          → enqueue stable_id input clock q ≡ r
          → All (Came q) (after_enqueue q r).jobs
      after_enqueue-Came (ok (j, q')) e =
          Came-of_Origin input q q'.jobs (enqueue-Origin stable_id input clock q j q' e)
      after_enqueue-Came (err m) e = Came-of_From q q.jobs (From-self q.jobs)
  step-Came clock (Call.cancels input) q d = Came-of_From q _ (cancel_pending-From input clock q)
  step-Came clock (Call.leases worker seconds) q d =
      Came-of_From q _ (lease_next-From worker seconds clock q d)
  step-Came clock (Call.renews job seconds) q d =
      Came-of_From q _ (renew_lease-From job seconds clock q)
  step-Came clock (Call.completes job) q d = after-Came (complete job clock q) refl
    where
      after-Came :
          (r : Result String Queue) → complete job clock q ≡ r → All (Came q) (after q r).jobs
      after-Came (ok q') e = Came-of_From q q'.jobs (complete-From job clock q q' e)
      after-Came (err m) e = Came-of_From q q.jobs (From-self q.jobs)
  step-Came clock (Call.fails job message) q d = after-Came (fail job message clock q) refl
    where
      after-Came :
          (r : Result String Queue) → fail job message clock q ≡ r → All (Came q) (after q r).jobs
      after-Came (ok q') e = Came-of_From q q'.jobs (fail-From job message clock q q' e)
      after-Came (err m) e = Came-of_From q q.jobs (From-self q.jobs)
