-- ===== src/Queue/Ownership.antt =====
-- Who may work on a job: leases that have not run out, and calls with a lease that is lost.
use recruiting_os.Common.{
  Distinct, ◌≤◌, ◌≢◌, ◌≡◌, ◌∙◌, ◌+◌, ◌*◌, update-In_old, true, sym, subst, str_eq, some, none, inr,
  inl, false, eq_iff, arith, ap, String, Option-cases, Option, List, In, Clock, Bool-cases, ℕ,
}
use recruiting_os.Queue.Unique.{row_of_id, ids}
use recruiting_os.Queue.Rows.{is_running, Queue, JobRow, Job}
use recruiting_os.Queue.Lease.{
  take_lease, sweep, next_row, lease_next, is_ready, is_exhausted, bury,
}
use recruiting_os.Queue.Calls.{sweep-ids, next_row-In}

module _ (worker : String) (seconds : ℕ) (clock : Clock) (q : Queue) where
  held-exhausted :
      (a : JobRow) (until : ℕ)
      → a.leased_until ≡ some until
      → clock 2 ≤ until
      → is_exhausted (clock 2) a ≡ false
  held-exhausted a until e h = elim (Bool-cases (is_exhausted (clock 2) a)) [
    | inr f ↦ f
    | inl t ↦ absurd (ground arith)
  ]

  held-ready :
      (a : JobRow) (until : ℕ)
      → is_running a.status ≡ true
      → a.leased_until ≡ some until
      → clock 5 ≤ until
      → is_ready clock a ≡ false
  held-ready a until r e h = elim (Bool-cases (is_ready clock a)) [
    | inr f ↦ f
    | inl t ↦ absurd (ground arith)
  ]

  -- While the lease of a running job lasts, no call of `leaseNext` yields that job or changes its
  -- row: here `a` is the row, its lease ends at `until`, and the call reads the clock no later.
  pub lease_next-exclusive :
      (a : JobRow) (until : ℕ)
      → Distinct (ids q.jobs)
      → In a q.jobs
      → is_running a.status ≡ true
      → a.leased_until ≡ some until
      → clock 2 ≤ until
      → clock 5 ≤ until
      → In a (lease_next worker seconds clock q).1.jobs
        × ((j : Job) → (lease_next worker seconds clock q).0 ≡ some j → j.id ≢ a.id)
  unfolding lease_next
  lease_next-exclusive a until d m run e h k =
      elim (Option-cases (next_row clock q.last_leased rows)) [
        | inl n ↦ rw (n, lease_next) (swept, λ j p. cc)
        | inr (r, n) ↦
            let (i, t) = next_row-In clock q.last_leased rows r n in
            let other = differ r i t in
            rw (n, lease_next)
              (
                update-In_old (λ s. str_eq s.id r.id)
                    (take_lease worker (clock 6 + seconds * 1000) (clock 7)) rows a swept
                    (str_ne a.id r.id other),
                λ j p s. other (sym s ∙ sym (ap (λ (o : Option Job). job_id o r.id) p)),
              )
      ]
    where
      rows : List JobRow
      rows = sweep clock q.jobs

      swept : In a rows
      swept =
          unfold sweep in
          update-In_old (is_exhausted (clock 2)) (bury (clock 0) (clock 1)) q.jobs a m
            (held-exhausted a until e h)

      differ : (r : JobRow) → In r rows → is_ready clock r ≡ true → a.id ≢ r.id
      differ r i t same =
          let one =
            row_of_id rows a r (subst Distinct (sym (sweep-ids clock q.jobs)) d) swept i same in
          cc (held-ready a until run e k, ap (λ (y : JobRow). is_ready clock y) one, t)

      job_id : Option Job → String → String
      job_id none s = s
      job_id (some j) s = j.id

      str_ne : (s t : String) → s ≢ t → str_eq s t ≡ false
      str_ne s t n = elim (Bool-cases (str_eq s t)) [
        | inr f ↦ f
        | inl y ↦ absurd (n ((eq_iff s t).0 y))
      ]
