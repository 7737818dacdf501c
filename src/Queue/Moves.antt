-- ===== src/Queue/Moves.antt =====
-- Which statuses each call of `JobQueue` may set, and the rows that cancelling and leasing leave.
use recruiting_os.Common.{
  Distinct, ◌⊎◌, ◌∙◌, ◌∷◌, [], inr, inl, List, In-All, In-update, In, Clock, All, All-In, ◌≡◌, true,
  false, refl, sym, subst, arith, String, Bool, Option-cases, str_eq, eq_iff, suc, update_where, ℕ,
}
use recruiting_os.Domain.{JobStatus}
use recruiting_os.Queue.Rows.{Queue, JobRow}
use recruiting_os.Queue.Cancel.{
  CancelPendingJobs, cancel_pending, cancel_each, cancel_row, is_target,
}
use recruiting_os.Queue.Lease.{is_ready, lease_next, next_row, sweep, take_lease}
use recruiting_os.Queue.Settle.{settle}
use recruiting_os.Queue.Machine.{Call, after}
use recruiting_os.Queue.Unique.{ids, row_of_id}
use recruiting_os.Queue.Calls.{next_row-In, sweep-ids}

-- The changes of status that the sweep of `leaseNext` makes, and that its lease makes.
abbrev pub buries : JobStatus → JobStatus → Bool
buries JobStatus.running JobStatus.dead_letter = true
buries _ _ = false

abbrev pub starts : JobStatus → JobStatus → Bool
starts JobStatus.queued JobStatus.running = true
starts JobStatus.retryable_failed JobStatus.running = true
starts _ _ = false

-- The changes of status that a call may make. Renewing a lease makes none.
abbrev pub changes : Call → JobStatus → JobStatus → Bool
changes (Call.enqueues input) JobStatus.cancelled JobStatus.queued = true
changes (Call.cancels input) JobStatus.queued JobStatus.cancelled = true
changes (Call.cancels input) JobStatus.retryable_failed JobStatus.cancelled = true
changes (Call.leases worker seconds) JobStatus.queued JobStatus.running = true
changes (Call.leases worker seconds) JobStatus.retryable_failed JobStatus.running = true
changes (Call.leases worker seconds) JobStatus.running JobStatus.dead_letter = true
changes (Call.completes job) JobStatus.running JobStatus.succeeded = true
changes (Call.fails job message) JobStatus.running JobStatus.retryable_failed = true
changes (Call.fails job message) JobStatus.running JobStatus.dead_letter = true
changes _ _ _ = false

-- The status stays, or changes as the table allows.
abbrev pub Moves : (JobStatus → JobStatus → Bool) → JobStatus → JobStatus → Type 0
Moves allowed s t = (t ≡ s) ⊎ (allowed s t ≡ true)

-- The row is that of an old one with the same id, from whose status its own has come.
abbrev pub Follows : (JobStatus → JobStatus → Bool) → List JobRow → JobRow → Type 0
Follows allowed rows a = (x : JobRow) × In x rows × (a.id ≡ x.id) × Moves allowed x.status a.status

module _ (allowed : JobStatus → JobStatus → Bool) where
  pub Follows-self : (rows : List JobRow) → All (Follows allowed rows) rows
  Follows-self rows = In-All _ rows (λ a m. (a, m, refl, inl refl))

  pub Follows-update :
      (p : JobRow → Bool) (f : JobRow → JobRow) (rows : List JobRow)
      → ((x : JobRow) → (f x).id ≡ x.id)
      → ((x : JobRow) → In x rows → p x ≡ true → Moves allowed x.status (f x).status)
      → All (Follows allowed rows) (update_where p f rows)
  Follows-update p f rows keep moves = In-All _ _ λ a m. came a (In-update p f rows a m)
    where
      came :
          (a : JobRow)
          → (x : JobRow) × In x rows × (((p x ≡ true) × (a ≡ f x)) ⊎ ((p x ≡ false) × (a ≡ x)))
          → Follows allowed rows a
      came a (x, m, inl (t, e)) = subst (Follows allowed rows) (sym e) (x, m, keep x, moves x m t)
      came a (x, m, inr (t, e)) = subst (Follows allowed rows) (sym e) (x, m, refl, inl refl)

  pub settle-Follows :
      (holds : JobRow → Bool) (change : JobRow → JobRow) (q : Queue)
      → ((x : JobRow) → (change x).id ≡ x.id)
      → ((x : JobRow) → holds x ≡ true → Moves allowed x.status (change x).status)
      → All (Follows allowed q.jobs) (after q (settle holds change q)).jobs
  unfolding settle
  settle-Follows holds change q keep moves =
      ground
        (arith, Follows-self q.jobs, Follows-update holds change q.jobs keep (λ x m t. moves x t))

-- Two changes one after the other, where the tables compose.
Follows-compose :
    (first second both : JobStatus → JobStatus → Bool)
    → ((s t u : JobStatus) → Moves first s t → Moves second t u → Moves both s u)
    → (rows later last : List JobRow) → All (Follows first rows) later
    → All (Follows second later) last
    → All (Follows both rows) last
Follows-compose first second both compose rows later last h k = In-All _ last λ a m.
    let (x, n, e, c) = All-In (Follows second later) last a k m in
    let (y, o, f, b) = All-In (Follows first rows) later x h n in
    (y, o, e ∙ f, compose y.status x.status a.status b c)

Moves-compose :
    (first second both : JobStatus → JobStatus → Bool)
    → ((s t : JobStatus) → first s t ≡ true → both s t ≡ true)
    → ((s t : JobStatus) → second s t ≡ true → both s t ≡ true)
    → ((s t u : JobStatus) → first s t ≡ true → second t u ≡ false)
    → (s t u : JobStatus) → Moves first s t
    → Moves second t u
    → Moves both s u
Moves-compose first second both h k never s t u (inl e) (inl f) = inl (f ∙ e)
Moves-compose first second both h k never s t u (inl e) (inr c) =
    inr (subst (λ r. both r u ≡ true) e (k t u c))
Moves-compose first second both h k never s t u (inr b) (inl f) =
    inr (subst (λ r. both s r ≡ true) (sym f) (h s t b))
Moves-compose first second both h k never s t u (inr b) (inr c) = absurd (cc (never s t u b, c))

module _ (input : CancelPendingJobs) where
  cancels_never :
      (s t u : JobStatus)
      → changes (Call.cancels input) s t ≡ true
      → changes (Call.cancels input) t u ≡ false
  cancels_never s t u e = ground arith

  cancel_each-Follows :
      (clock : Clock) (n : ℕ) (keys : List String) (rows : List JobRow)
      → All (Follows (changes (Call.cancels input)) rows) (cancel_each clock n keys rows).1
  unfolding cancel_each
  cancel_each-Follows clock n [] rows = Follows-self _ rows
  cancel_each-Follows clock n (id ∷ keys) rows =
      let table = changes (Call.cancels input) in
      let later = update_where (is_target id) (cancel_row (clock n) (clock (suc n))) rows in
      Follows-compose table table table
        (Moves-compose table table table (λ s t e. e) (λ s t e. e) cancels_never) rows later _
        (Follows-update table (is_target id) _ rows (λ x. refl) (λ x m t. inr (ground arith)))
        (cancel_each-Follows clock (suc (suc n)) keys later)

  pub cancel_pending-Follows :
      (clock : Clock) (q : Queue)
      → All (Follows (changes (Call.cancels input)) q.jobs) (cancel_pending input clock q).1.jobs
  unfolding cancel_pending
  cancel_pending-Follows clock q = cancel_each-Follows clock 0 _ q.jobs

module _ (worker : String) (seconds : ℕ) where
  leases_buries :
      (s t : JobStatus) → buries s t ≡ true → changes (Call.leases worker seconds) s t ≡ true
  leases_buries s t e = ground arith

  leases_starts :
      (s t : JobStatus) → starts s t ≡ true → changes (Call.leases worker seconds) s t ≡ true
  leases_starts s t e = ground arith

  buried_never : (s t u : JobStatus) → buries s t ≡ true → starts t u ≡ false
  buried_never s t u e = ground arith

  sweep-Follows :
      (clock : Clock) (rows : List JobRow) → All (Follows buries rows) (sweep clock rows)
  unfolding sweep
  sweep-Follows clock rows =
      Follows-update buries _ _ rows (λ x. refl) (λ x m t. inr (ground arith))

  ready-starts :
      (clock : Clock) (r : JobRow)
      → is_ready clock r ≡ true
      → Moves starts r.status JobStatus.running
  ready-starts clock r t = by_status r.status refl
    where
      by_status : (s : JobStatus) → r.status ≡ s → Moves starts s JobStatus.running
      by_status JobStatus.queued e = inr refl
      by_status JobStatus.running e = inl refl
      by_status JobStatus.retryable_failed e = inr refl
      by_status JobStatus.succeeded e = absurd (ground arith)
      by_status JobStatus.dead_letter e = absurd (ground arith)
      by_status JobStatus.cancelled e = absurd (ground arith)

  lease_row-Follows :
      (until now : ℕ) (clock : Clock) (rows : List JobRow) (r : JobRow)
      → Distinct (ids rows)
      → In r rows
      → is_ready clock r ≡ true
      → All
          (Follows starts rows)
          (update_where (λ s. str_eq s.id r.id) (take_lease worker until now) rows)
  lease_row-Follows until now clock rows r d m ready =
      Follows-update starts _ _ rows (λ x. refl)
        λ x n t. ready-starts clock x (
          subst (λ (y : JobRow). is_ready clock y ≡ true)
            (row_of_id rows r x d m n (sym ((eq_iff x.id r.id).0 t))) ready)

  pub lease_next-Follows :
      (clock : Clock) (q : Queue)
      → Distinct (ids q.jobs)
      → All
          (Follows (changes (Call.leases worker seconds)) q.jobs)
          (lease_next worker seconds clock q).1.jobs
  unfolding lease_next
  lease_next-Follows clock q d =
      let rows = sweep clock q.jobs in
      let both = changes (Call.leases worker seconds) in
      let compose = Moves-compose buries starts both leases_buries leases_starts buried_never in
      elim (Option-cases (next_row clock q.last_leased rows)) [
        | inl e ↦
            rw (e, lease_next)
              (Follows-compose buries starts both compose q.jobs rows rows
                (sweep-Follows clock q.jobs) (Follows-self starts rows))
        | inr (r, e) ↦
            let (m, ready) = next_row-In clock q.last_leased rows r e in
            let d' = subst Distinct (sym (sweep-ids clock q.jobs)) d in
            rw (e, lease_next)
              (Follows-compose buries starts both compose q.jobs rows _ (sweep-Follows clock q.jobs)
                (lease_row-Follows _ _ clock rows r d' m ready))
      ]
