-- ===== src/Queue/Fencing.antt =====
-- A lease that has gone to another holder, and one that is still held.
use recruiting_os.Common.{
  ◌⊎◌, ◌∙◌, ◌==◌, update_where-none, sym, subst, str_eq, inr, inl, if◌then◌else◌, count_where, ap,
  Option-cases, In-update, Bool-cases, ◌≡◌, ◌<◌, ◌+◌, ◌*◌, update_where, true, some, ok, none,
  false, err, eq_iff, count_where-zero, count_where-pos, arith, String, Option, In-All, In, Clock,
  Bool, ℕ,
}
use recruiting_os.Queue.Rows.{Job, Queue, JobRow}
use recruiting_os.Queue.Lease.{
  take_lease, sweep, renew_lease, lease_of, lease_next, is_until, is_by, extend_lease, lease_values,
  holds_lease,
}
use recruiting_os.Queue.Settle.{fail, complete, settle}
use recruiting_os.Queue.Fairness.{lease_next-Leased, Leased}

-- What holds of every row, or of none, decides the count.
pub settle_none :
    (holds : JobRow → Bool) (change : JobRow → JobRow) (q : Queue)
    → ((x : JobRow) → In x q.jobs → holds x ≡ false)
    → settle holds change q ≡ err "Job lease is no longer valid"
unfolding settle
settle_none holds change q h = rw (count_where-zero holds q.jobs (In-All _ q.jobs h))

pub settle_some :
    (holds : JobRow → Bool) (change : JobRow → JobRow) (q : Queue) (a : JobRow)
    → In a q.jobs
    → holds a ≡ true
    → settle holds change q ≡ ok (record q { jobs = update_where holds change q.jobs })
unfolding settle
settle_some holds change q a m t = ground (arith, count_where-pos holds q.jobs a m t)

pub lease_of-eq :
    (by : Option String) (until : Option ℕ) (l : String × ℕ)
    → lease_values by until ≡ some l
    → (by ≡ some l.0) × (until ≡ some l.1)
lease_of-eq none until l e = cc
lease_of-eq (some w) none l e = cc
lease_of-eq (some w) (some t) l e = ground arith

is_by-eq : (o : Option String) (w : String) → is_by o w ≡ true → o ≡ some w
is_by-eq none w h = cc
is_by-eq (some v) w h = ap some ((eq_iff v w).0 h)

is_until-eq :
    (o : Option ℕ) (until now : ℕ) → is_until o until now ≡ true → (o ≡ some until) × (now < until)
is_until-eq none until now h = cc
is_until-eq (some t) until now h = ground arith

pub holds-parts :
    (id worker : String) (until now : ℕ) (r : JobRow)
    → holds_lease id worker until now r ≡ true
    → (r.id ≡ id) × (r.leased_by ≡ some worker) × (r.leased_until ≡ some until)
holds-parts id worker until now r h =
    let (at, n) = is_until-eq r.leased_until until now (ground arith) in
    ((eq_iff r.id id).0 (ground arith), is_by-eq r.leased_by worker (ground arith), at)

module _ (worker : String) (seconds : ℕ) (clock : Clock) (q : Queue) where
  abbrev pub lease_end : ℕ
  lease_end = clock 6 + seconds * 1000

  -- The job object names this job, but not the lease that `leaseNext` has given.
  pub record IsStale (j job : Job) : Type 0 where
    pub same_job : job.id ≡ j.id
    pub other_lease : ¬ ((job.leased_by ≡ some worker) × (job.leased_until ≡ some lease_end))

  stale-holds :
      (j job : Job) (q' : Queue) (l : String × ℕ) (now : ℕ)
      → lease_next worker seconds clock q ≡ (some j, q')
      → IsStale j job
      → lease_of job ≡ some l
      → (x : JobRow) → In x q'.jobs
      → holds_lease job.id l.0 l.1 now x ≡ false
  stale-holds j job q' l now e st n x m = elim (Bool-cases (holds_lease job.id l.0 l.1 now x)) [
    | inr f ↦ f
    | inl t ↦ absurd (clash (leased x (subst (In x) g.jobs m)) t)
  ]
    where
      g : Leased worker seconds clock q j q'
      g = lease_next-Leased worker seconds clock q j q' e

      -- A row of the new table with the id of the job is the one that was leased.
      leased :
          (y : JobRow)
          → In y (
              update_where
                (λ s. str_eq s.id g.row.id)
                (take_lease worker lease_end (clock 7))
                (sweep clock q.jobs))
          → y.id ≡ g.row.id
          → (y.leased_by ≡ some worker) × (y.leased_until ≡ some lease_end)
      leased y k s =
          found
            (In-update (λ s. str_eq s.id g.row.id) (take_lease worker lease_end (clock 7)) _ y k)
        where
          found :
              (z : JobRow) × In z (sweep clock q.jobs)
                × (((str_eq z.id g.row.id ≡ true) × (y ≡ take_lease worker lease_end (clock 7) z))
                    ⊎ ((str_eq z.id g.row.id ≡ false) × (y ≡ z)))
              → (y.leased_by ≡ some worker) × (y.leased_until ≡ some lease_end)
          found (z, i, inl (u, p)) =
              (ap (λ (w : JobRow). w.leased_by) p, ap (λ (w : JobRow). w.leased_until) p)
          found (z, i, inr (u, p)) =
              absurd (cc (u, (eq_iff z.id g.row.id).1 (sym (ap (λ (w : JobRow). w.id) p) ∙ s)))

      clash :
          (x.id ≡ g.row.id → (x.leased_by ≡ some worker) × (x.leased_until ≡ some lease_end))
          → holds_lease job.id l.0 l.1 now x ≡ true
          → ⊥
      clash k t =
          let (same, by, until) = holds-parts job.id l.0 l.1 now x t in
          let (jb, ju) = lease_of-eq job.leased_by job.leased_until l n in
          let (xb, xu) = k (same ∙ st.same_job ∙ ap (λ (y : Job). y.id) g.job) in
          st.other_lease (jb ∙ sym by ∙ xb, ju ∙ sym until ∙ xu)

  -- Once `leaseNext` has given a job to a worker, a job object with another lease settles
  -- nothing, whenever it comes: `complete` and `fail` throw, and `renewLease` yields nothing and
  -- leaves the tables as they are.
  pub lease_next-fences :
      (j job : Job) (q' : Queue) (message : String) (more : ℕ) (later : Clock)
      → lease_next worker seconds clock q ≡ (some j, q')
      → IsStale j job
      → ((m : String) × (complete job later q' ≡ err m))
        × ((m : String) × (fail job message later q' ≡ err m))
        × (renew_lease job more later q' ≡ (none, q'))
  unfolding complete fail renew_lease
  lease_next-fences j job q' message more later e st = elim (Option-cases (lease_of job)) [
    | inl n ↦ (
      ("Job lease is missing", rw (n, complete)),
      ("Job lease is missing", rw (n, fail)),
      rw (n, renew_lease),
    )
    | inr (l, n) ↦ (
      (
        "Job lease is no longer valid",
        rw (n, complete) (settle_none _ _ q' (stale-holds j job q' l (later 2) e st n)),
      ),
      (
        "Job lease is no longer valid",
        rw (n, fail) (settle_none _ _ q' (stale-holds j job q' l (later 3) e st n)),
      ),
      rw (n, renew_lease) (unchanged l (later 2) (stale-holds j job q' l (later 2) e st n)),
    )
  ]
    where
      unchanged :
          (l : String × ℕ) (now : ℕ)
          → ((x : JobRow) → In x q'.jobs → holds_lease job.id l.0 l.1 now x ≡ false)
          → ◌≡◌ {A = Option Job × Queue}
              (
                if count_where (holds_lease job.id l.0 l.1 now) q'.jobs == 0
                    then none
                    else some (record job { leased_until = some (later 0 + more * 1000) }),
                record q' {
                  jobs =
                      update_where
                        (holds_lease job.id l.0 l.1 now)
                        (extend_lease (later 0 + more * 1000) (later 1))
                        q'.jobs;
                },
              )
              (none, q')
      unchanged l now h =
          let c = count_where-zero (holds_lease job.id l.0 l.1 now) q'.jobs (In-All _ q'.jobs h) in
          ground (
            arith,
            c,
            update_where-none (holds_lease job.id l.0 l.1 now)
                (extend_lease (later 0 + more * 1000) (later 1)) q'.jobs c,
          )
