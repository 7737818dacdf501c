-- ===== src/Queue/Attempts.antt =====
-- No job is given out more often than its limit of attempts allows.
use recruiting_os.Common.{
  Distinct, sym, subst, eq_iff, ◌+◌, ◌*◌, str_eq, Option-cases, ◌≤◌, ◌≡◌, ◌∷◌, ◌<◌, true, suc,
  or_else, leb, inr, inl, arith, [], String, List, Clock, Bool-cases, All-update, All, ℕ,
}
use recruiting_os.Queue.Enqueue.{requeue, EnqueueJob}
use recruiting_os.Queue.Rows.{Queue, is_pending, is_cancelled, JobRow}
use recruiting_os.Queue.Cancel.{is_target, cancel_row, cancel_each}
use recruiting_os.Queue.Lease.{
  next_row, lease_next, is_exhausted, bury, take_lease, sweep, is_ready, extend_lease,
}
use recruiting_os.Queue.Settle.{succeed_row, fail_row}
use recruiting_os.Queue.Unique.{row_of_id, ids}
use recruiting_os.Queue.Calls.{sweep-ids, next_row-In}

-- A row keeps to its limit, and one that waits has an attempt left.
pub record IsBounded (r : JobRow) : Type 0 where
  pub within : r.attempt_count ≤ r.max_attempts
  pub left : is_pending r.status ≡ true → r.attempt_count < r.max_attempts

pub cancel_row-IsBounded : (a b : ℕ) (r : JobRow) → IsBounded r → IsBounded (cancel_row a b r)
cancel_row-IsBounded a b r h = record { within = h.within; left = λ e. cc }

pub cancel_each-IsBounded :
    (clock : Clock) (n : ℕ) (keys : List String) (rows : List JobRow)
    → All IsBounded rows
    → All IsBounded (cancel_each clock n keys rows).1
unfolding cancel_each
cancel_each-IsBounded clock n [] rows h = h
cancel_each-IsBounded clock n (id ∷ keys) rows h =
    cancel_each-IsBounded clock (suc (suc n)) keys _ (
      All-update IsBounded (is_target id) (cancel_row (clock n) (clock (suc n))) rows
        (λ x m t k. cancel_row-IsBounded (clock n) (clock (suc n)) x k) h)

pub sweep-IsBounded :
    (clock : Clock) (rows : List JobRow) → All IsBounded rows → All IsBounded (sweep clock rows)
unfolding sweep
sweep-IsBounded clock rows h =
    All-update IsBounded (is_exhausted (clock 2)) (bury (clock 0) (clock 1)) rows
      (λ x m t k. record { within = k.within; left = λ e. cc }) h

pub take_lease-IsBounded :
    (worker : String) (until now : ℕ) (clock : Clock) (r : JobRow)
    → is_ready clock r ≡ true
    → IsBounded r
    → IsBounded (take_lease worker until now r)
take_lease-IsBounded worker until now clock r t h = record {
  within = elim (Bool-cases (is_pending r.status)) [
    | inl p ↦ omega (arith, h.left p)
    | inr p ↦ ground arith
  ];
  left = λ e. cc;
}

pub renew-IsBounded :
    (until now : ℕ) (r : JobRow) → IsBounded r → IsBounded (extend_lease until now r)
renew-IsBounded until now r h = record { within = h.within; left = h.left }

pub succeed-IsBounded : (a b : ℕ) (r : JobRow) → IsBounded r → IsBounded (succeed_row a b r)
succeed-IsBounded a b r h = record { within = h.within; left = λ e. cc }

pub fail_row-IsBounded :
    (message : String) (at a b : ℕ) (r : JobRow)
    → IsBounded r
    → IsBounded (fail_row (leb r.max_attempts r.attempt_count) message at a b r)
fail_row-IsBounded message at a b r h = record { within = h.within; left = λ e. ground arith }

pub requeue-IsBounded :
    (input : EnqueueJob) (now : ℕ) (r : JobRow)
    → 0 < or_else input.max_attempts 5
    → IsBounded r
    → IsBounded (requeue input now r)
unfolding requeue
requeue-IsBounded input now r p h = elim (Bool-cases (is_cancelled r.status)) [
  | inl t ↦ rw (t, requeue) (record { within = omega arith; left = λ e. p })
  | inr t ↦ rw (t, requeue) h
]

pub lease_next-IsBounded :
    (worker : String) (seconds : ℕ) (clock : Clock) (q : Queue)
    → Distinct (ids q.jobs)
    → All IsBounded q.jobs
    → All IsBounded (lease_next worker seconds clock q).1.jobs
unfolding lease_next
lease_next-IsBounded worker seconds clock q d h =
    let rows = sweep clock q.jobs in
    let until = clock 6 + seconds * 1000 in
    elim (Option-cases (next_row clock q.last_leased rows)) [
      | inl e ↦ rw (e, lease_next) (sweep-IsBounded clock q.jobs h)
      | inr (r, e) ↦
          let (m, t) = next_row-In clock q.last_leased rows r e in
          let swept = sweep-IsBounded clock q.jobs h in
          rw (e, lease_next)
            (All-update IsBounded (λ s. str_eq s.id r.id) (take_lease worker until (clock 7)) rows
              (λ x n u k.
                take_lease-IsBounded worker until (clock 7) clock x
                  (subst (λ (y : JobRow). is_ready clock y ≡ true)
                    (row_of_id rows r x (subst Distinct (sym (sweep-ids clock q.jobs)) d) m n
                      (sym ((eq_iff x.id r.id).0 u)))
                    t)
                  k)
              swept)
    ]
