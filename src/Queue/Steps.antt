-- ===== src/Queue/Steps.antt =====
-- Every call of the queue as changes of single rows.
use recruiting_os.Common.{
  ℕ, String, Bool, true, false, ◌≡◌, ◌⊎◌, inl, inr, sym, subst, List, Clock, leb, All, In, In-All,
  All-In, In-update, update_where,
}
use recruiting_os.Queue.Rows.{JobRow, Job, is_pending, is_running}
use recruiting_os.Queue.Enqueue.{EnqueueJob, requeue}
use recruiting_os.Queue.Cancel.{cancel_row}
use recruiting_os.Queue.Lease.{is_exhausted, bury, is_ready, take_lease, extend_lease}
use recruiting_os.Queue.Settle.{succeed_row, fail_row}

-- What one statement may do to one row.
pub data RowStep : JobRow → JobRow → Type 0 where
  revive : (input : EnqueueJob) (now : ℕ) (r : JobRow) → RowStep r (requeue input now r)
  cancel : (a b : ℕ) (r : JobRow) → is_pending r.status ≡ true → RowStep r (cancel_row a b r)
  expire : (t a b : ℕ) (r : JobRow) → is_exhausted t r ≡ true → RowStep r (bury a b r)
  lease :
      (worker : String) (until now : ℕ) (clock : Clock) (r : JobRow)
      → is_ready clock r ≡ true
      → RowStep r (take_lease worker until now r)
  renew :
      (until now : ℕ) (r : JobRow)
      → is_running r.status ≡ true
      → RowStep r (extend_lease until now r)
  succeed : (a b : ℕ) (r : JobRow) → is_running r.status ≡ true → RowStep r (succeed_row a b r)
  give_back :
      (job : Job) (message : String) (at a b : ℕ) (r : JobRow)
      → is_running r.status ≡ true
      → RowStep r (fail_row (leb job.max_attempts job.attempt_count) message at a b r)

pub data RowSteps (r : JobRow) : JobRow → Type 0 where
  same : RowSteps r r
  then_step : {s t : JobRow} → RowSteps r s → RowStep s t → RowSteps r t

pub RowSteps-trans : {r s t : JobRow} → RowSteps r s → RowSteps s t → RowSteps r t
RowSteps-trans a same = a
RowSteps-trans a (then_step b c) = then_step (RowSteps-trans a b) c

-- A row that comes from one of a table by row steps.
abbrev pub From : List JobRow → JobRow → Type 0
From rows a = (x : JobRow) × In x rows × RowSteps x a

pub From-self : (rows : List JobRow) → All (From rows) rows
From-self rows = In-All (From rows) rows (λ a m. (a, m, same))

pub From-trans :
    (rows later : List JobRow) (a : JobRow) → All (From rows) later → From later a → From rows a
From-trans rows later a h (x, m, steps) =
    let (y, n, before) = All-In (From rows) later x h m in (y, n, RowSteps-trans before steps)

pub From-compose :
    (rows later last : List JobRow)
    → All (From rows) later
    → All (From later) last
    → All (From rows) last
From-compose rows later last h k =
    In-All (From rows) last λ a m. From-trans rows later a h (All-In (From later) last a k m)

pub From-update :
    (p : JobRow → Bool) (f : JobRow → JobRow) (rows : List JobRow)
    → ((x : JobRow) → In x rows → p x ≡ true → RowStep x (f x))
    → All (From rows) (update_where p f rows)
From-update p f rows step = In-All (From rows) _ λ a m. came a (In-update p f rows a m)
  where
    came :
        (a : JobRow)
        → (x : JobRow) × In x rows × (((p x ≡ true) × (a ≡ f x)) ⊎ ((p x ≡ false) × (a ≡ x)))
        → From rows a
    came a (x, m, inl (t, e)) =
        (x, m, subst (λ (y : JobRow). RowSteps x y) (sym e) (then_step same (step x m t)))
    came a (x, m, inr (t, e)) = (x, m, subst (λ (y : JobRow). RowSteps x y) (sym e) same)
