-- ===== src/Queue/Owner.antt =====
-- The holder of a lease settles its job, and how long a failed one waits.
use recruiting_os.Common.{
  if◌then◌else◌, Option, Bool, ap, none, ◌∙◌, ◌<◌, update_where, update-In_new, true, sym, subst,
  refl, ok, leb, eq_iff, In, ◌≤◌, ◌≡◌, ◌^◌, ◌+◌, ◌*◌, zero, suc, str_eq, some, min, false, arith,
  String, Clock, ℕ,
}
use recruiting_os.Domain.{JobStatus, Record}
use recruiting_os.Queue.Rows.{Queue, JobRow, Job, redact}
use recruiting_os.Queue.Fairness.{lease_next-Leased}
use recruiting_os.Queue.Lease.{leased_job, lease_of, holds_lease, take_lease, lease_next}
use recruiting_os.Queue.Settle.{succeed_row, slice_start, fail_row, fail, complete, retry_delay}
use recruiting_os.Queue.Fencing.{settle_some}
use recruiting_os.Queue.Choice.{sweep-ready}

pow-le : (k : ℕ) → k ≤ 9 → 2 ^ k ≤ 512
pow-le zero h = omega arith
pow-le (suc zero) h = omega arith
pow-le (suc (suc zero)) h = omega arith
pow-le (suc (suc (suc zero))) h = omega arith
pow-le (suc (suc (suc (suc zero)))) h = omega arith
pow-le (suc (suc (suc (suc (suc zero))))) h = omega arith
pow-le (suc (suc (suc (suc (suc (suc zero)))))) h = omega arith
pow-le (suc (suc (suc (suc (suc (suc (suc zero))))))) h = omega arith
pow-le (suc (suc (suc (suc (suc (suc (suc (suc zero)))))))) h = omega arith
pow-le (suc (suc (suc (suc (suc (suc (suc (suc (suc zero))))))))) h = omega arith
pow-le (suc (suc (suc (suc (suc (suc (suc (suc (suc (suc k)))))))))) h = absurd (omega arith)

-- The delay doubles with each attempt up to 512 seconds; the limit of 900 is never reached.
pub retry_delay_lem : (n : ℕ) → (retry_delay n ≡ 2 ^ min n 9) × (retry_delay n ≤ 512)
unfolding retry_delay
retry_delay_lem n = let h = pow-le (min n 9) (omega arith) in (omega (arith, h), omega (arith, h))

-- The columns that every way of settling a lease sets: one attempt is counted, and nobody holds it.
abbrev pub settled_row : JobRow → JobStatus → ℕ → Option String → Record → ℕ → JobRow
settled_row r status available_at last_error payload now = record {
  id = r.id;
  tenant_id = r.tenant_id;
  type = r.type;
  idempotency_key = r.idempotency_key;
  payload = payload;
  status = status;
  priority = r.priority;
  attempt_count = r.attempt_count + 1;
  max_attempts = r.max_attempts;
  available_at = available_at;
  leased_until = none;
  leased_by = none;
  last_error = last_error;
  created_at = r.created_at;
  updated_at = now;
}

-- The row that a failed attempt leaves: to be tried again at `at`, or dead where the attempts have
-- reached their limit.
abbrev pub failed_row : JobRow → ℕ → Option String → ℕ → ℕ → JobRow
failed_row r at error redacted_at now =
    if leb r.max_attempts (r.attempt_count + 1)
    then settled_row r JobStatus.dead_letter at error (redact r redacted_at) now
    else settled_row r JobStatus.retryable_failed at error r.payload now

fail_row-take_lease :
    (worker : String) (until given at : ℕ) (message : String) (redacted_at now : ℕ) (r : JobRow)
    → fail_row
        (leb r.max_attempts (r.attempt_count + 1))
        message
        at
        redacted_at
        now
        (take_lease worker until given r)
      ≡ failed_row r at (some message) redacted_at now
fail_row-take_lease worker until given at message redacted_at now r =
    by_limit (leb r.max_attempts (r.attempt_count + 1))
  where
    by_limit :
        (terminal : Bool)
        → fail_row terminal message at redacted_at now (take_lease worker until given r) ≡ (
            if terminal
            then settled_row r JobStatus.dead_letter at (some message) (redact r redacted_at) now
            else settled_row r JobStatus.retryable_failed at (some message) r.payload now)
    by_limit true = refl
    by_limit false = refl

module _ (worker : String) (named : str_eq worker "" ≡ false) (until at : ℕ) (r : JobRow)
    (q : Queue) (m : In (take_lease worker until at r) q.jobs) where
  lease_of-leased_job : lease_of (leased_job worker until r) ≡ some (worker, until)
  lease_of-leased_job = rw named (rw named refl)

  leased-holds :
      (now : ℕ)
      → now < until
      → holds_lease r.id worker until now (take_lease worker until at r) ≡ true
  leased-holds now h = ground (arith, eq_iff r.id r.id, eq_iff worker worker)

  complete-leased :
      (later : Clock)
      → later 2 < until
      → (q' : Queue) × (complete (leased_job worker until r) later q ≡ ok q')
        × In
            (settled_row r JobStatus.succeeded r.available_at none (redact r (later 0)) (later 1))
            q'.jobs
  unfolding complete
  complete-leased later h =
      let holds = holds_lease r.id worker until (later 2) in
      let change = succeed_row (later 0) (later 1) in
      (
        record q { jobs = update_where holds change q.jobs },
        rw (lease_of-leased_job, complete)
            (settle_some holds change q _ m (leased-holds (later 2) h)),
        update-In_new holds change q.jobs _ m (leased-holds (later 2) h),
      )

  fail-leased :
      (message : String) (later : Clock)
      → later 3 < until
      → (q' : Queue) × (fail (leased_job worker until r) message later q ≡ ok q')
        × In
            (failed_row r
              (later 0 + 2 ^ min (r.attempt_count + 1) 9 * 1000)
              (some (slice_start 500 message))
              (later 1)
              (later 2))
            q'.jobs
  unfolding fail
  fail-leased message later h =
      let holds = holds_lease r.id worker until (later 3) in
      let change =
        fail_row (leb r.max_attempts (r.attempt_count + 1)) (slice_start 500 message)
          (later 0 + retry_delay (r.attempt_count + 1) * 1000) (later 1) (later 2) in
      (
        record q { jobs = update_where holds change q.jobs },
        rw (lease_of-leased_job, fail) (settle_some holds change q _ m (leased-holds (later 3) h)),
        subst (λ s. In s (update_where holds change q.jobs))
            (fail_row-take_lease worker until at _ (slice_start 500 message) (later 1) (later 2) r
              ∙ ap
                  (λ d.
                    failed_row r (later 0 + d * 1000) (some (slice_start 500 message)) (later 1)
                      (later 2))
                  (retry_delay_lem (r.attempt_count + 1)).0)
            (update-In_new holds change q.jobs _ m (leased-holds (later 3) h)),
      )

-- What the holder of the lease of the row `r` may do before it ends at `until`.
abbrev pub MaySettle : String → ℕ → ℕ → JobRow → Job → Queue → Type 0
MaySettle worker until at r j q =
    ((later : Clock)
      → later 2 < until
      → (q' : Queue) × (complete j later q ≡ ok q')
        × In (settled_row r JobStatus.succeeded r.available_at none (redact r (later 0)) (later 1))
            q'.jobs)
    × ((message : String) (later : Clock)
        → later 3 < until
        → (q' : Queue) × (fail j message later q ≡ ok q')
          × In
              (failed_row r (later 0 + 2 ^ min (r.attempt_count + 1) 9 * 1000)
                (some (slice_start 500 message)) (later 1) (later 2))
              q'.jobs)

-- The worker that `leaseNext` gives a job to settles it, if it comes before its lease ends. Of the
-- row `r` that was read, `complete` leaves a row that has succeeded, without an error; `fail` leaves
-- one that waits `2 ^ min(attempts, 9)` seconds, or is dead where the attempts have reached their
-- limit, with the first 500 characters of the message. Either row counts one attempt more than `r`,
-- is leased to nobody and keeps every other column, its payload redacted where it is done with.
-- The name of the worker is not empty.
pub lease_next-MaySettle :
    (worker : String) (seconds : ℕ) (clock : Clock) (q : Queue) (j : Job) (q' : Queue)
    → str_eq worker "" ≡ false
    → lease_next worker seconds clock q ≡ (some j, q')
    → (r : JobRow) × In r q.jobs × MaySettle worker (clock 6 + seconds * 1000) (clock 7) r j q'
lease_next-MaySettle worker seconds clock q j q' named e =
    let l = lease_next-Leased worker seconds clock q j q' e in
    let until = clock 6 + seconds * 1000 in
    let given = subst (In (take_lease worker until (clock 7) l.row)) (sym l.jobs) (
      update-In_new (λ s. str_eq s.id l.row.id) (take_lease worker until (clock 7)) _ l.row l.listed
        ((eq_iff l.row.id l.row.id).1 refl)) in
    (
      l.row,
      sweep-ready clock q.jobs l.row l.listed l.ready,
      subst (λ (k : Job). MaySettle worker until (clock 7) l.row k q') (sym l.job)
          (
            complete-leased worker named until (clock 7) l.row q' given,
            fail-leased worker named until (clock 7) l.row q' given,
          ),
    )
