-- ===== src/Queue/Final.antt =====
-- Jobs that have succeeded or died stay as they are.
use recruiting_os.Common.{
  Distinct, ◌+◌, ◌*◌, err, Result, ◌∷◌, update_where, update-In_old, update-In_new, sym, suc, subst,
  str_eq, ok, inr, inl, eq_iff, ap, [], Option-cases, List, In-append_left, In, Clock, Bool-cases,
  ◌≡◌, true, refl, false, arith, String, Bool, ℕ,
}
use recruiting_os.Queue.Enqueue.{enqueue, upsert, conflicts, requeue, EnqueueJob}
use recruiting_os.Queue.Rows.{Queue, Job, JobRow}
use recruiting_os.Domain.{JobStatus}
use recruiting_os.Queue.Settle.{fail, complete, settle}
use recruiting_os.Queue.Unique.{row_of_id, ids}
use recruiting_os.Queue.Machine.{step, run, after_enqueue, Call, after}
use recruiting_os.Queue.Cancel.{cancel_pending, cancel_ids, is_target, cancel_each}
use recruiting_os.Queue.Lease.{
  take_lease, extend_lease, bury, sweep, renew_lease, next_row, lease_of, lease_next, is_ready,
  is_exhausted, holds_lease,
}
use recruiting_os.Queue.Calls.{sweep-ids, next_row-In}
use recruiting_os.Queue.Insert.{enqueue-ok, upsert-cases}
use recruiting_os.Queue.History.{step-Distinct}

abbrev pub is_final : JobStatus → Bool
is_final JobStatus.succeeded = true
is_final JobStatus.dead_letter = true
is_final _ = false

-- A row that is at the end of its life is met by no condition of an update.
final-target : (id : String) (r : JobRow) → is_final r.status ≡ true → is_target id r ≡ false
final-target id r f = ground arith

final-exhausted : (t : ℕ) (r : JobRow) → is_final r.status ≡ true → is_exhausted t r ≡ false
final-exhausted t r f = ground arith

final-ready : (clock : Clock) (r : JobRow) → is_final r.status ≡ true → is_ready clock r ≡ false
final-ready clock r f = ground arith

final-holds :
    (id worker : String) (until now : ℕ) (r : JobRow)
    → is_final r.status ≡ true
    → holds_lease id worker until now r ≡ false
final-holds id worker until now r f = ground arith

final-requeue :
    (input : EnqueueJob) (now : ℕ) (r : JobRow) → is_final r.status ≡ true → requeue input now r ≡ r
unfolding requeue
final-requeue input now r f = ground arith

module _ (a : JobRow) (final : is_final a.status ≡ true) where
  cancel_each-final :
      (clock : Clock) (n : ℕ) (keys : List String) (rows : List JobRow)
      → In a rows
      → In a (cancel_each clock n keys rows).1
  unfolding cancel_each
  cancel_each-final clock n [] rows m = m
  cancel_each-final clock n (id ∷ keys) rows m =
      cancel_each-final clock (suc (suc n)) keys _
        (update-In_old (is_target id) _ rows a m (final-target id a final))

  sweep-final : (clock : Clock) (rows : List JobRow) → In a rows → In a (sweep clock rows)
  unfolding sweep
  sweep-final clock rows m =
      update-In_old (is_exhausted (clock 2)) (bury (clock 0) (clock 1)) rows a m
        (final-exhausted (clock 2) a final)

  other_id :
      (clock : Clock) (rows : List JobRow) (r : JobRow)
      → Distinct (ids rows)
      → In a rows
      → In r rows
      → is_ready clock r ≡ true
      → str_eq a.id r.id ≡ false
  other_id clock rows r d m n ready = elim (Bool-cases (str_eq a.id r.id)) [
    | inr f ↦ f
    | inl t ↦
        let same = row_of_id rows a r d m n ((eq_iff a.id r.id).0 t) in
        absurd (cc (final-ready clock a final, ap (λ (y : JobRow). is_ready clock y) same, ready))
  ]

  lease_next-final :
      (worker : String) (seconds : ℕ) (clock : Clock) (q : Queue)
      → Distinct (ids q.jobs)
      → In a q.jobs
      → In a (lease_next worker seconds clock q).1.jobs
  unfolding lease_next
  lease_next-final worker seconds clock q d m =
      let rows = sweep clock q.jobs in
      elim (Option-cases (next_row clock q.last_leased rows)) [
        | inl e ↦ rw (e, lease_next) (sweep-final clock q.jobs m)
        | inr (r, e) ↦
            let (n, ready) = next_row-In clock q.last_leased rows r e in
            let d' = subst Distinct (sym (sweep-ids clock q.jobs)) d in
            let m' = sweep-final clock q.jobs m in
            rw (e, lease_next)
              (update-In_old (λ s. str_eq s.id r.id)
                (take_lease worker (clock 6 + seconds * 1000) (clock 7)) rows a m'
                (other_id clock rows r d' m' n ready))
      ]

  settle-final :
      (holds : JobRow → Bool) (change : JobRow → JobRow) (q : Queue)
      → holds a ≡ false
      → In a q.jobs
      → In a (after q (settle holds change q)).jobs
  unfolding settle
  settle-final holds change q h m = ground (arith, update-In_old holds change q.jobs a m h)

  renew_lease-final :
      (job : Job) (seconds : ℕ) (clock : Clock) (q : Queue)
      → In a q.jobs
      → In a (renew_lease job seconds clock q).1.jobs
  unfolding renew_lease
  renew_lease-final job seconds clock q m = elim (Option-cases (lease_of job)) [
    | inl e ↦ rw (e, renew_lease) m
    | inr (l, e) ↦
        rw (e, renew_lease)
          (update-In_old (holds_lease job.id l.0 l.1 (clock 2))
            (extend_lease (clock 0 + seconds * 1000) (clock 1)) q.jobs a m
            (final-holds job.id l.0 l.1 (clock 2) a final))
  ]

  complete-final :
      (job : Job) (clock : Clock) (q : Queue)
      → In a q.jobs
      → In a (after q (complete job clock q)).jobs
  unfolding complete
  complete-final job clock q m = elim (Option-cases (lease_of job)) [
    | inl e ↦ rw (e, complete) m
    | inr (l, e) ↦
        rw (e, complete) (settle-final _ _ q (final-holds job.id l.0 l.1 (clock 2) a final) m)
  ]

  fail-final :
      (job : Job) (message : String) (clock : Clock) (q : Queue)
      → In a q.jobs
      → In a (after q (fail job message clock q)).jobs
  unfolding fail
  fail-final job message clock q m = elim (Option-cases (lease_of job)) [
    | inl e ↦ rw (e, fail) m
    | inr (l, e) ↦
        rw (e, fail) (settle-final _ _ q (final-holds job.id l.0 l.1 (clock 3) a final) m)
  ]

  upsert-final :
      (input : EnqueueJob) (id : String) (now : ℕ) (rows later : List JobRow)
      → upsert input id now rows ≡ ok later
      → In a rows
      → In a later
  upsert-final input id now rows later e m = elim (upsert-cases input id now rows later e) [
    | inr (t, u, p) ↦ subst (In a) (sym p) (In-append_left rows _ a m)
    | inl (t, p) ↦ subst (In a) (sym p) (elim (Bool-cases (conflicts input a)) [
      | inr n ↦ update-In_old (conflicts input) (requeue input now) rows a m n
      | inl y ↦
          subst (λ (b : JobRow). In b (update_where (conflicts input) (requeue input now) rows))
            (final-requeue input now a final)
            (update-In_new (conflicts input) (requeue input now) rows a m y)
    ])
  ]

module _ (stable_id : String → String → String) where
  step-final :
      (clock : Clock) (call : Call) (q : Queue) (a : JobRow)
      → is_final a.status ≡ true
      → Distinct (ids q.jobs)
      → In a q.jobs
      → In a (step stable_id clock call q).jobs
  unfolding step
  step-final clock (Call.enqueues input) q a f d m = inserted (enqueue stable_id input clock q) refl
    where
      inserted :
          (r : Result String (Job × Queue))
          → enqueue stable_id input clock q ≡ r
          → In a (after_enqueue q r).jobs
      inserted (err e) p = m
      inserted (ok (j, q')) p =
          upsert-final a f input _ _ q.jobs q'.jobs (enqueue-ok stable_id input clock q j q' p) m
  step-final clock (Call.cancels input) q a f d m =
      unfold cancel_pending in cancel_each-final a f clock 0 (cancel_ids input q) q.jobs m
  step-final clock (Call.leases worker seconds) q a f d m =
      lease_next-final a f worker seconds clock q d m
  step-final clock (Call.renews job seconds) q a f d m = renew_lease-final a f job seconds clock q m
  step-final clock (Call.completes job) q a f d m = complete-final a f job clock q m
  step-final clock (Call.fails job message) q a f d m = fail-final a f job message clock q m

  -- Over every history of calls, the row of a job that has succeeded or died stays in the table
  -- as it is, in all its columns, where the ids were distinct at the start.
  pub run-keeps_final :
      (h : List (Clock × Call)) (q : Queue) (a : JobRow)
      → Distinct (ids q.jobs)
      → In a q.jobs
      → is_final a.status ≡ true
      → In a (run stable_id h q).jobs
  unfolding run
  run-keeps_final [] q a d m f = m
  run-keeps_final ((clock, call) ∷ h) q a d m f =
      run-keeps_final h _ a (step-Distinct stable_id clock call q d)
        (step-final clock call q a f d m) f
