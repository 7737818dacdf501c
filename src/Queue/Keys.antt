-- ===== src/Queue/Keys.antt =====
-- The ids of the table over calls and histories: none is lost, and none stands twice.
use mathlib.Core.List.{map-append}
use recruiting_os.Common.{
  ◌⊎◌, ◌≢◌, ◌≡◌, ◌∷◌, ◌∙◌, ◌++◌, suc, str_eq, refl, ok, inr, inl, false, eq_iff, arith, ap, any, [],
  String, Option-cases, List, Clock, Bool, All, ℕ,
}
use recruiting_os.Queue.Enqueue.{upsert, requeue, EnqueueJob}
use recruiting_os.Queue.Rows.{Queue, JobRow, Job}
use recruiting_os.Queue.Machine.{after}
use recruiting_os.Queue.Cancel.{is_target, cancel_each}
use recruiting_os.Queue.Settle.{settle, fail, complete}
use recruiting_os.Queue.Unique.{ids, ids-update}
use recruiting_os.Queue.Lease.{sweep, renew_lease, next_row, lease_of, lease_next}
use recruiting_os.Queue.Calls.{sweep-ids}
use recruiting_os.Queue.Insert.{upsert-cases}

pub cancel_each-ids :
    (clock : Clock) (n : ℕ) (keys : List String) (rows : List JobRow)
    → ids (cancel_each clock n keys rows).1 ≡ ids rows
unfolding cancel_each
cancel_each-ids clock n [] rows = refl
cancel_each-ids clock n (id ∷ keys) rows =
    cancel_each-ids clock (suc (suc n)) keys _ ∙ ids-update (is_target id) _ rows (λ r. refl)

pub lease_next-ids :
    (worker : String) (seconds : ℕ) (clock : Clock) (q : Queue)
    → ids (lease_next worker seconds clock q).1.jobs ≡ ids q.jobs
unfolding lease_next
lease_next-ids worker seconds clock q =
    elim (Option-cases (next_row clock q.last_leased (sweep clock q.jobs))) [
      | inl e ↦ rw (e, lease_next) (sweep-ids clock q.jobs)
      | inr (r, e) ↦
          rw (e, lease_next)
            (ids-update _ _ (sweep clock q.jobs) (λ r. refl) ∙ sweep-ids clock q.jobs)
    ]

pub renew_lease-ids :
    (job : Job) (seconds : ℕ) (clock : Clock) (q : Queue)
    → ids (renew_lease job seconds clock q).1.jobs ≡ ids q.jobs
unfolding renew_lease
renew_lease-ids job seconds clock q = elim (Option-cases (lease_of job)) [
  | inl e ↦ rw (e, renew_lease)
  | inr (l, e) ↦ rw (e, renew_lease) (ids-update _ _ q.jobs (λ r. refl))
]

settle-ids :
    (holds : JobRow → Bool) (change : JobRow → JobRow) (q : Queue)
    → ((r : JobRow) → (change r).id ≡ r.id)
    → ids (after q (settle holds change q)).jobs ≡ ids q.jobs
unfolding settle
settle-ids holds change q keep = ground (arith, ids-update holds change q.jobs keep)

pub complete-ids :
    (job : Job) (clock : Clock) (q : Queue) → ids (after q (complete job clock q)).jobs ≡ ids q.jobs
unfolding complete
complete-ids job clock q = elim (Option-cases (lease_of job)) [
  | inl e ↦ rw (e, complete)
  | inr (l, e) ↦ rw (e, complete) (settle-ids _ _ q (λ r. refl))
]

pub fail-ids :
    (job : Job) (message : String) (clock : Clock) (q : Queue)
    → ids (after q (fail job message clock q)).jobs ≡ ids q.jobs
unfolding fail
fail-ids job message clock q = elim (Option-cases (lease_of job)) [
  | inl e ↦ rw (e, fail)
  | inr (l, e) ↦ rw (e, fail) (settle-ids _ _ q (λ r. refl))
]

pub requeue-id : (input : EnqueueJob) (now : ℕ) (r : JobRow) → (requeue input now r).id ≡ r.id
unfolding requeue
requeue-id input now r = ground arith

pub no_row-ids :
    (id : String) (rows : List JobRow)
    → any (λ r. str_eq r.id id) rows ≡ false
    → All (λ y. y ≢ id) (ids rows)
no_row-ids id [] h = tt
no_row-ids id (r ∷ rows) h =
    ((λ e. cc ((eq_iff r.id id).1 e, h)), no_row-ids id rows (ground arith))

-- Either the column stays, or one new id stands at its end.
pub upsert-ids :
    (input : EnqueueJob) (id : String) (now : ℕ) (rows later : List JobRow)
    → upsert input id now rows ≡ ok later
    → (ids later ≡ ids rows) ⊎ ((ids later ≡ ids rows ++ id ∷ []) × All (λ y. y ≢ id) (ids rows))
upsert-ids input id now rows later e = elim (upsert-cases input id now rows later e) [
  | inl (t, p) ↦ inl (ap ids p ∙ ids-update _ _ rows (requeue-id input now))
  | inr (t, u, p) ↦ inr (ap ids p ∙ map-append _ rows _, no_row-ids id rows u)
]
