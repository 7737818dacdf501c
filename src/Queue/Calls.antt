-- ===== src/Queue/Calls.antt =====
-- The rows that each call of the queue leaves, as they come from those before it.
use recruiting_os.Common.{
  Distinct, ℕ, String, Bool, true, ◌≡◌, inl, inr, refl, sym, subst, some, List, [], ◌∷◌, arith,
  Clock, ok, str_eq, All, In, update_where, suc, eq_iff, Option-cases, select_where, In-select,
  least-In,
}
use recruiting_os.Queue.Rows.{JobRow, Queue, Job, is_running}
use recruiting_os.Queue.Cancel.{
  CancelPendingJobs, cancel_row, cancel_each, cancel_pending, is_target,
}
use recruiting_os.Queue.Lease.{
  sweep, is_ready, take_lease, next_row, lease_next, holds_lease, lease_of, renew_lease,
  is_served_before, is_first_of_tenant,
}
use recruiting_os.Queue.Settle.{complete, fail, settle}
use recruiting_os.Queue.Unique.{ids, row_of_id, ids-update}
use recruiting_os.Queue.Steps.{RowStep, From, From-self, From-compose, From-update}

cancel_each-From :
    (clock : Clock) (n : ℕ) (keys : List String) (rows : List JobRow)
    → All (From rows) (cancel_each clock n keys rows).1
unfolding cancel_each
cancel_each-From clock n [] rows = From-self rows
cancel_each-From clock n (id ∷ keys) rows =
    let later = update_where (is_target id) (cancel_row (clock n) (clock (suc n))) rows in
    From-compose rows later _
      (From-update (is_target id) _ rows
        (λ x m t. RowStep.cancel (clock n) (clock (suc n)) x (ground arith)))
      (cancel_each-From clock (suc (suc n)) keys later)

pub cancel_pending-From :
    (input : CancelPendingJobs) (clock : Clock) (q : Queue)
    → All (From q.jobs) (cancel_pending input clock q).1.jobs
unfolding cancel_pending
cancel_pending-From input clock q = cancel_each-From clock 0 _ q.jobs

pub sweep-From : (clock : Clock) (rows : List JobRow) → All (From rows) (sweep clock rows)
unfolding sweep
sweep-From clock rows =
    From-update _ _ rows (λ x m t. RowStep.expire (clock 2) (clock 0) (clock 1) x t)

pub sweep-ids : (clock : Clock) (rows : List JobRow) → ids (sweep clock rows) ≡ ids rows
unfolding sweep
sweep-ids clock rows = ids-update _ _ rows (λ r. refl)

-- The row that the query yields is a ready row of the table.
pub next_row-In :
    (clock : Clock) (last : List (String × ℕ)) (rows : List JobRow) (r : JobRow)
    → next_row clock last rows ≡ some r
    → In r rows × (is_ready clock r ≡ true)
unfolding next_row
next_row-In clock last rows r e =
    let ready = select_where (is_ready clock) rows in
    In-select (is_ready clock) rows r
      (In-select (is_first_of_tenant ready) ready r (least-In (is_served_before last) _ r e)).0

lease_row-From :
    (worker : String) (until now : ℕ) (clock : Clock) (rows : List JobRow) (r : JobRow)
    → Distinct (ids rows)
    → In r rows
    → is_ready clock r ≡ true
    → All (From rows) (update_where (λ s. str_eq s.id r.id) (take_lease worker until now) rows)
lease_row-From worker until now clock rows r d m ready = From-update _ _ rows λ x n t.
    RowStep.lease worker until now clock x (
      subst (λ (y : JobRow). is_ready clock y ≡ true)
        (row_of_id rows r x d m n (sym ((eq_iff x.id r.id).0 t))) ready)

pub lease_next-From :
    (worker : String) (seconds : ℕ) (clock : Clock) (q : Queue)
    → Distinct (ids q.jobs)
    → All (From q.jobs) (lease_next worker seconds clock q).1.jobs
unfolding lease_next
lease_next-From worker seconds clock q d =
    elim (Option-cases (next_row clock q.last_leased (sweep clock q.jobs))) [
      | inl e ↦ rw (e, lease_next) (sweep-From clock q.jobs)
      | inr (r, e) ↦
          let (m, ready) = next_row-In clock q.last_leased (sweep clock q.jobs) r e in
          let d' = subst Distinct (sym (sweep-ids clock q.jobs)) d in
          rw (e, lease_next)
            (From-compose q.jobs _ _ (sweep-From clock q.jobs)
              (lease_row-From worker _ _ clock (sweep clock q.jobs) r d' m ready))
    ]

lease_holder-running :
    (id worker : String) (until now : ℕ) (r : JobRow)
    → holds_lease id worker until now r ≡ true
    → is_running r.status ≡ true
lease_holder-running id worker until now r h = ground arith

pub renew_lease-From :
    (job : Job) (seconds : ℕ) (clock : Clock) (q : Queue)
    → All (From q.jobs) (renew_lease job seconds clock q).1.jobs
unfolding renew_lease
renew_lease-From job seconds clock q = elim (Option-cases (lease_of job)) [
  | inl e ↦ rw (e, renew_lease) (From-self q.jobs)
  | inr (l, e) ↦
      rw (e, renew_lease)
        (From-update _ _ q.jobs
          λ x m t. RowStep.renew _ (clock 1) x (lease_holder-running job.id l.0 l.1 (clock 2) x t))
]

pub settle-ok :
    (holds : JobRow → Bool) (change : JobRow → JobRow) (q q' : Queue)
    → settle holds change q ≡ ok q'
    → q' ≡ record q { jobs = update_where holds change q.jobs }
unfolding settle
settle-ok holds change q q' e = ground arith

settle-From :
    (holds : JobRow → Bool) (change : JobRow → JobRow) (q q' : Queue)
    → ((x : JobRow) → holds x ≡ true → RowStep x (change x))
    → settle holds change q ≡ ok q'
    → All (From q.jobs) q'.jobs
settle-From holds change q q' step e =
    subst (λ (p : Queue). All (From q.jobs) p.jobs) (sym (settle-ok holds change q q' e))
      (From-update holds change q.jobs (λ x m t. step x t))

pub complete-From :
    (job : Job) (clock : Clock) (q q' : Queue)
    → complete job clock q ≡ ok q'
    → All (From q.jobs) q'.jobs
unfolding complete
complete-From job clock q q' e = elim (Option-cases (lease_of job)) [
  | inl n ↦ absurd (cc (rw (n, complete) at e))
  | inr (l, n) ↦
      settle-From _ _ q q'
        (λ x t.
          RowStep.succeed (clock 0) (clock 1) x (lease_holder-running job.id l.0 l.1 (clock 2) x t))
        (rw (n, complete) at e)
]

pub fail-From :
    (job : Job) (message : String) (clock : Clock) (q q' : Queue)
    → fail job message clock q ≡ ok q'
    → All (From q.jobs) q'.jobs
unfolding fail
fail-From job message clock q q' e = elim (Option-cases (lease_of job)) [
  | inl n ↦ absurd (cc (rw (n, fail) at e))
  | inr (l, n) ↦
      settle-From _ _ q q'
        (λ x t.
          RowStep.give_back job _ _ (clock 1) (clock 2) x
            (lease_holder-running job.id l.0 l.1 (clock 3) x t))
        (rw (n, fail) at e)
]
