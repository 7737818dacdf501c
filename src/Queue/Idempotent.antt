-- ===== src/Queue/Idempotent.antt =====
-- `enqueue` with a key that is known, and with a new one.
use Prim.Native.String.{◌++◌ as ◌+++◌}
use mathlib.Core.List.{map-append}
use recruiting_os.Common.{
  leb, or_else, Distinct-concat, Distinct, ◌++◌, ◌∷◌, update_where-same, subst, inr, inl,
  any-true_of, any, [], In-append_right, Bool-cases, ◌≡◌, ◌∙◌, true, sym, str_eq, some, refl, ok,
  none, find_where-some, find_where-none, find_where, false, eq_iff, arith, ap, String, Option,
  List, In, Clock, All-In, All, ℕ,
}
use recruiting_os.Queue.Machine.{run, Call}
use recruiting_os.Queue.Unique.{row_of_id, ids}
use recruiting_os.Queue.Enqueue.{
  requeue, new_row, upsert, read_back, job_key, ensure_tenant, enqueue, conflicts, EnqueueJob,
}
use recruiting_os.Domain.{JobStatus}
use recruiting_os.Queue.Lease.{is_ready}
use recruiting_os.Queue.Rows.{to_job, is_cancelled, Queue, JobRow}
use recruiting_os.Queue.Steps.{RowStep}
use recruiting_os.Queue.History.{run-All}
use recruiting_os.Queue.Keys.{no_row-ids}

abbrev pub row_key : JobRow → String
row_key r = r.tenant_id +++ ":" +++ r.type +++ ":" +++ r.idempotency_key

conflicts-eq :
    (input : EnqueueJob) (r : JobRow)
    → conflicts input r ≡ true
    → (r.tenant_id ≡ input.tenant_id)
      × (r.type ≡ input.type)
      × (r.idempotency_key ≡ input.idempotency_key)
conflicts-eq input r h = (
  (eq_iff r.tenant_id input.tenant_id).0 (ground arith),
  (eq_iff r.type input.type).0 (ground arith),
  (eq_iff r.idempotency_key input.idempotency_key).0 (ground arith),
)

conflicts-key :
    (input : EnqueueJob) (r : JobRow) → conflicts input r ≡ true → row_key r ≡ job_key input
conflicts-key input r h = let (a, b, c) = conflicts-eq input r h in rw (a, b, c)

find-row :
    (rows : List JobRow) (r : JobRow) (id : String)
    → Distinct (ids rows)
    → In r rows
    → r.id ≡ id
    → find_where (λ s. str_eq s.id id) rows ≡ some r
find-row rows r id d m e = found (find_where (λ s. str_eq s.id id) rows) refl
  where
    found :
        (o : Option JobRow)
        → find_where (λ s. str_eq s.id id) rows ≡ o
        → find_where (λ s. str_eq s.id id) rows ≡ some r
    found none p = absurd (cc (find_where-none _ rows r p m, (eq_iff r.id id).1 e))
    found (some s) p =
        let (n, t) = find_where-some _ rows s p in
        p ∙ ap some (row_of_id rows s r d n m ((eq_iff s.id id).0 t ∙ sym e))

module _ (stable_id : String → String → String) where
  -- Each id is the digest of the key of its row.
  abbrev pub IsKeyed : JobRow → Type 0
  IsKeyed r = r.id ≡ stable_id "job" (row_key r)

  requeue-IsKeyed :
      (input : EnqueueJob) (now : ℕ) (r : JobRow) → IsKeyed r → IsKeyed (requeue input now r)
  unfolding requeue
  requeue-IsKeyed input now r h = elim (Bool-cases (is_cancelled r.status)) [
    | inl t ↦ rw (t, requeue) h
    | inr t ↦ rw (t, requeue) h
  ]

  RowStep-IsKeyed : (r s : JobRow) → RowStep r s → IsKeyed r → IsKeyed s
  RowStep-IsKeyed _ _ (RowStep.revive input now r) h = requeue-IsKeyed input now r h
  RowStep-IsKeyed _ _ (RowStep.cancel a b r t) h = h
  RowStep-IsKeyed _ _ (RowStep.expire t a b r u) h = h
  RowStep-IsKeyed _ _ (RowStep.lease worker until now clock r t) h = h
  RowStep-IsKeyed _ _ (RowStep.renew until now r t) h = h
  RowStep-IsKeyed _ _ (RowStep.succeed a b r t) h = h
  RowStep-IsKeyed _ _ (RowStep.give_back job message at a b r t) h = h

  -- Over every history of calls, each id stays the digest of tenant, type and key.
  pub run-IsKeyed :
      (h : List (Clock × Call)) (q : Queue)
      → Distinct (ids q.jobs)
      → All IsKeyed q.jobs
      → All IsKeyed (run stable_id h q).jobs
  run-IsKeyed h q d a = run-All stable_id IsKeyed (λ input now. refl) RowStep-IsKeyed h q d a

  module _ (input : EnqueueJob) (clock : Clock) (q : Queue) where
    abbrev pub ensured : Queue
    ensured = record q { tenants = ensure_tenant input.tenant_id q.tenants }

    -- A row with the key of the input is the one row of the id that the input has.
    conflict-id :
        (r : JobRow)
        → All IsKeyed q.jobs
        → In r q.jobs
        → conflicts input r ≡ true
        → r.id ≡ stable_id "job" (job_key input)
    conflict-id r keyed m c =
        All-In IsKeyed q.jobs r keyed m ∙ ap (stable_id "job") (conflicts-key input r c)

    upsert_known :
        (r : JobRow)
        → Distinct (ids q.jobs)
        → All IsKeyed q.jobs
        → In r q.jobs
        → conflicts input r ≡ true
        → is_cancelled r.status ≡ false
        → (id : String) (now : ℕ) → upsert input id now q.jobs ≡ ok q.jobs
    unfolding upsert requeue
    upsert_known r d keyed m c live id now =
        let hit = any-true_of (conflicts input) q.jobs r m c in
        let same = update_where-same (conflicts input) (requeue input now) q.jobs λ x n t.
          let one =
            row_of_id q.jobs x r d n m (conflict-id x keyed n t ∙ sym (conflict-id r keyed m c)) in
          let quiet = ap (λ (y : JobRow). is_cancelled y.status) one ∙ live in rw quiet refl in
        rw hit (ap ok same)

    -- Enqueueing a job whose tenant, type and key are those of a row that is not cancelled leaves
    -- the table of jobs as it is, and yields the job of that row, whatever its status; where the
    -- ids are distinct digests of the keys.
    pub enqueue_idempotent :
        (r : JobRow)
        → Distinct (ids q.jobs)
        → All IsKeyed q.jobs
        → In r q.jobs
        → conflicts input r ≡ true
        → is_cancelled r.status ≡ false
        → enqueue stable_id input clock q ≡ ok (to_job r, ensured)
    unfolding enqueue read_back
    enqueue_idempotent r d keyed m c live =
        rw (upsert_known r d keyed m c live _ (clock 0), enqueue)
          (rw (find-row q.jobs r _ d m (conflict-id r keyed m c), read_back))

    upsert_new :
        (id : String) (now : ℕ)
        → any (conflicts input) q.jobs ≡ false
        → any (λ r. str_eq r.id id) q.jobs ≡ false
        → upsert input id now q.jobs ≡ ok (q.jobs ++ new_row input id now ∷ [])
    unfolding upsert
    upsert_new id now c i = ground arith

    -- The row of a job that nobody has worked on.
    abbrev pub untouched_row : JobRow
    untouched_row = record {
      id = stable_id "job" (job_key input);
      tenant_id = input.tenant_id;
      type = input.type;
      idempotency_key = input.idempotency_key;
      payload = input.payload;
      status = JobStatus.queued;
      priority = or_else input.priority 100;
      attempt_count = 0;
      max_attempts = or_else input.max_attempts 5;
      available_at = or_else input.available_at (clock 0);
      leased_until = none;
      leased_by = none;
      last_error = none;
      created_at = clock 0;
      updated_at = clock 0;
    }

    -- Enqueueing a job with a new key and a new id, where the ids are distinct, appends one row to
    -- the table and yields the job of it, which `toJob` reads back. The row is `queued`, has no
    -- attempt, no error and no lease, and has the input's priority, limit of attempts and time, or
    -- 100, 5 and the present. `leaseNext` finds it ready unless the time that the input asks for
    -- is still to come.
    pub enqueue_new :
        Distinct (ids q.jobs)
        → any (conflicts input) q.jobs ≡ false
        → any (λ r. str_eq r.id (stable_id "job" (job_key input))) q.jobs ≡ false
        → (enqueue stable_id input clock q
            ≡ ok (to_job untouched_row, record ensured { jobs = q.jobs ++ untouched_row ∷ [] }))
          × ((later : Clock)
              → is_ready later untouched_row ≡ leb (or_else input.available_at (clock 0)) (later 3))
    unfolding enqueue read_back
    enqueue_new d c i =
        let id = stable_id "job" (job_key input) in
        let row = new_row input id (clock 0) in
        let rows = q.jobs ++ row ∷ [] in
        let distinct =
          subst Distinct (sym (map-append (λ (r : JobRow). r.id) q.jobs (row ∷ [])))
            (Distinct-concat (ids q.jobs) id d (no_row-ids id q.jobs i)) in
        (
          rw (upsert_new id (clock 0) c i, enqueue)
              (rw (
                find-row rows row id distinct (In-append_right q.jobs (row ∷ []) row (inl refl))
                    refl,
                read_back,
              )),
          λ later. ground arith,
        )
