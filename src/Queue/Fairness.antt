-- ===== src/Queue/Fairness.antt =====
-- What `leaseNext` of src/infrastructure/queue/sqlite-job-queue.ts promises to tenants and jobs.
use recruiting_os.Common.{
  ◌≤◌, ◌≡◌, ◌↔◌, ◌+◌, ◌*◌, update_where, true, sym, str_eq, some, none, inr, inl, false, arith, ap,
  String, Option-cases, Option, List, In, Clock, Bool-cases, ℕ,
}
use recruiting_os.Queue.Rows.{Queue, JobRow, Job}
use recruiting_os.Queue.Lease.{
  take_lease, sweep, ranks_before, next_row, leased_job, lease_next, last_leased_at, is_ready,
}
use recruiting_os.Queue.Calls.{next_row-In}
use recruiting_os.Queue.Choice.{sweep-ready, ready-sweep, next_row-none, next_row-least}

-- No tenant has waited longer than that of the row `r`, and in its own tenant no ready job comes
-- before it by priority and age.
abbrev pub IsNext : Clock → Queue → JobRow → Type 0
IsNext clock q r =
    (a : JobRow)
    → In a q.jobs
    → is_ready clock a ≡ true
    → (last_leased_at q.last_leased r.tenant_id ≤ last_leased_at q.last_leased a.tenant_id)
      × (a.tenant_id ≡ r.tenant_id
          → (r.priority ≤ a.priority) × (a.priority ≡ r.priority → r.created_at ≤ a.created_at))

ranks_le :
    (a r : JobRow)
    → ranks_before a r ≡ false
    → (r.priority ≤ a.priority) × (a.priority ≡ r.priority → r.created_at ≤ a.created_at)
ranks_le a r h = (ground arith, λ e. ground arith)

module _ (worker : String) (seconds : ℕ) (clock : Clock) (q : Queue) where
  -- What a call of `leaseNext` that yields a job has done.
  pub record Leased (j : Job) (q' : Queue) : Type 0 where
    pub row : JobRow
    pub listed : In row (sweep clock q.jobs)
    pub ready : is_ready clock row ≡ true
    pub chosen : next_row clock q.last_leased (sweep clock q.jobs) ≡ some row
    pub job : j ≡ leased_job worker (clock 6 + seconds * 1000) row
    pub jobs :
        q'.jobs
        ≡ update_where
            (λ s. str_eq s.id row.id)
            (take_lease worker (clock 6 + seconds * 1000) (clock 7))
            (sweep clock q.jobs)

  pub lease_next-Leased :
      (j : Job) (q' : Queue) → lease_next worker seconds clock q ≡ (some j, q') → Leased j q'
  unfolding lease_next
  lease_next-Leased j q' e =
      elim (Option-cases (next_row clock q.last_leased (sweep clock q.jobs))) [
        | inl n ↦ absurd (cc (ap (λ (p : Option Job × Queue). p.0) (rw (n, lease_next) at e)))
        | inr (r, n) ↦
            let f = rw (n, lease_next) at e in
            let (m, t) = next_row-In clock q.last_leased (sweep clock q.jobs) r n in
            record {
              row = r;
              listed = m;
              ready = t;
              chosen = n;
              job = ground arith;
              jobs = sym (ap (λ (p : Option Job × Queue). p.1.jobs) f);
            }
      ]

  -- A call of `leaseNext` that yields a job yields a ready one of the table, which is the next to
  -- serve: the tenant longest without a lease comes first, and in it the lowest priority number,
  -- then the oldest job.
  pub lease_next-fair :
      (j : Job) (q' : Queue)
      → lease_next worker seconds clock q ≡ (some j, q')
      → (r : JobRow) × In r q.jobs
        × (is_ready clock r ≡ true)
        × (j ≡ leased_job worker (clock 6 + seconds * 1000) r)
        × IsNext clock q r
  lease_next-fair j q' e =
      let l = lease_next-Leased j q' e in
      (
        l.row,
        sweep-ready clock q.jobs l.row l.listed l.ready,
        l.ready,
        l.job,
        λ a m t.
            let (waited, ranks) =
              next_row-least clock q.last_leased (sweep clock q.jobs) l.row a l.chosen
                (ready-sweep clock q.jobs a m t) t in
            (waited, λ p. ranks_le a l.row (ranks p)),
      )

  -- `leaseNext` yields no job exactly when no row of the table is ready.
  pub lease_next-none_iff :
      ((lease_next worker seconds clock q).0 ≡ none)
      ↔ ((a : JobRow) → In a q.jobs → is_ready clock a ≡ false)
  unfolding lease_next
  lease_next-none_iff = (none_ready, none_leased)
    where
      rows : List JobRow
      rows = sweep clock q.jobs

      none_ready :
          (lease_next worker seconds clock q).0 ≡ none
          → (a : JobRow) → In a q.jobs
          → is_ready clock a ≡ false
      none_ready e a m = elim (Bool-cases (is_ready clock a)) [
        | inr f ↦ f
        | inl t ↦
            next_row-none clock q.last_leased rows a (ground arith) (ready-sweep clock q.jobs a m t)
      ]

      none_leased :
          ((a : JobRow) → In a q.jobs → is_ready clock a ≡ false)
          → (lease_next worker seconds clock q).0 ≡ none
      none_leased h = elim (Option-cases (next_row clock q.last_leased rows)) [
        | inl n ↦ rw (n, lease_next)
        | inr (r, n) ↦
            let (m, t) = next_row-In clock q.last_leased rows r n in
            absurd (cc (h r (sweep-ready clock q.jobs r m t), t))
      ]
