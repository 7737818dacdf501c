-- ===== src/Queue/Tests.antt =====
-- Runs of the queue, and its theorems at one table of four jobs.
use Prim.Native.String.{◌++◌ as ◌+++◌}
use mathlib.Core.Option.{some-injective}
use recruiting_os.Common.{
  ◌⊎◌, leb, Distinct, ◌++◌, ◌≤◌, ◌∙◌, ◌↔◌, ◌^◌, ℕ, ok, min, inr, inl, err, count_where, arith, ap,
  All, ◌≢◌, ◌≡◌, ◌∷◌, true, str_eq, some, refl, none, map, least_from, least, false, eq_iff, [],
  String, List, In, Clock,
}
use recruiting_os.Queue.Machine.{step, run, Call}
use recruiting_os.Queue.Unique.{ids}
use recruiting_os.Queue.Fairness.{lease_next-none_iff, lease_next-fair, IsNext}
use recruiting_os.Queue.Rows.{to_job, redacted_payload, Queue, JobRow, Job}
use recruiting_os.Domain.{property, Json, JobStatus}
use recruiting_os.Queue.Cancel.{
  is_candidate, cancel_row, CancelPendingJobs, matches_payload, is_text, cancel_pending,
  cancel_each,
}
use recruiting_os.Queue.Settle.{
  stats, slice_start, settle, retry_delay, fail, earliest, count_status, complete,
}
use recruiting_os.Queue.Enqueue.{EnqueueJob, upsert, requeue, read_back, ensure_tenant, enqueue}
use recruiting_os.Queue.Lease.{
  sweep, set_last_leased, renew_lease, next_row, leased_job, lease_next, last_leased_at, is_ready,
}
use recruiting_os.Queue.Limits.{run-IsBounded, Agrees}
use recruiting_os.Queue.Moves.{Follows, changes}
use recruiting_os.Queue.Transitions.{IsInserted, step-Follows}
use recruiting_os.Queue.Attempts.{IsBounded}
use recruiting_os.Queue.Idempotent.{
  untouched_row, ensured, enqueue_new, enqueue_idempotent, IsKeyed,
}
use recruiting_os.Queue.Redaction.{run-IsRedacted, IsRedacted}
use recruiting_os.Queue.Fencing.{lease_next-fences, IsStale}
use recruiting_os.Queue.Owner.{retry_delay_lem, lease_next-MaySettle, MaySettle}
use recruiting_os.Queue.Revoked.{cancel_pending_lem}
use recruiting_os.Queue.Ownership.{lease_next-exclusive}
use recruiting_os.Queue.Final.{run-keeps_final}

abbrev digest : String → String → String
digest prefix value = prefix +++ "_" +++ value

queue_runs : Unit {0}
unfolding lease_next sweep next_row set_last_leased last_leased_at least least_from enqueue upsert
    requeue ensure_tenant read_back cancel_pending cancel_each matches_payload property is_text
    redacted_payload complete fail settle renew_lease retry_delay slice_start stats count_status
    earliest step run
queue_runs = tt

abbrev frozen : Clock
frozen n = 1000

abbrev at_2000 : Clock
at_2000 n = 2000

abbrev waiting : JobRow
waiting = record {
  id = "job_t1:connector.sync:k1";
  tenant_id = "t1";
  type = "connector.sync";
  idempotency_key = "k1";
  payload = ("userId", Json.str "ann") ∷ [];
  status = JobStatus.queued;
  priority = 100;
  attempt_count = 0;
  max_attempts = 5;
  available_at = 10;
  leased_until = none;
  leased_by = none;
  last_error = none;
  created_at = 10;
  updated_at = 10;
}

abbrev held : JobRow
held = record waiting {
  id = "job_t2:ingest.url:k2";
  tenant_id = "t2";
  type = "ingest.url";
  idempotency_key = "k2";
  status = JobStatus.running;
  attempt_count = 1;
  leased_until = some 5000;
  leased_by = some "w1";
}

abbrev over : JobRow
over = record waiting {
  id = "job_t1:ingest.screenshot:k3";
  type = "ingest.screenshot";
  idempotency_key = "k3";
  payload = redacted_payload 900;
  status = JobStatus.succeeded;
  attempt_count = 1;
}

abbrev overdue : JobRow
overdue = record waiting {
  id = "job_t3:ingest.screenshot:k4";
  tenant_id = "t3";
  type = "ingest.screenshot";
  idempotency_key = "k4";
  status = JobStatus.running;
  attempt_count = 5;
  leased_until = some 500;
  leased_by = some "w1";
}

abbrev tables : Queue
tables = record {
  tenants = "t1" ∷ "t2" ∷ "t3" ∷ [];
  jobs = waiting ∷ held ∷ over ∷ overdue ∷ [];
  last_leased = ("t2", 400) ∷ [];
}

abbrev given : Job
given = leased_job "w2" 61000 waiting

abbrev leased : Queue
leased = (lease_next "w2" 60 frozen tables).1

leases_waiting : lease_next "w2" 60 frozen tables ≡ (some given, leased)
unfolding queue_runs
leases_waiting = refl

-- The screenshot job whose last lease ran out is buried, without its payload.
buries_overdue :
    map (λ r. r.status) leased.jobs
    ≡ JobStatus.running ∷ JobStatus.running ∷ JobStatus.succeeded ∷ JobStatus.dead_letter ∷ []
unfolding queue_runs
buries_overdue = refl

ne_of_eq : (s t : String) → str_eq s t ≡ false → s ≢ t
ne_of_eq s t h e = cc (h, (eq_iff s t).1 e)

tables-Distinct : Distinct (ids tables.jobs)
tables-Distinct = (
  (ne_of_eq _ _ refl, (ne_of_eq _ _ refl, (ne_of_eq _ _ refl, tt))),
  ((ne_of_eq _ _ refl, (ne_of_eq _ _ refl, tt)), ((ne_of_eq _ _ refl, tt), (tt, tt))),
)

abbrev history : List (Clock × Call)
history =
    (frozen, Call.leases "w2" 60)
    ∷ (at_2000, Call.fails given "timed out")
    ∷ (
      at_2000,
      Call.cancels
          (record { tenant_id = "t1"; type = "connector.sync"; payload = ("userId", "ann") ∷ [] }),
    )
    ∷ []

lease_next-fair_example :
    (r : JobRow) × In r tables.jobs
    × (is_ready frozen r ≡ true)
    × (given ≡ leased_job "w2" 61000 r)
    × IsNext frozen tables r
lease_next-fair_example = lease_next-fair "w2" 60 frozen tables given leased leases_waiting

lease_next-exclusive_example :
    In held leased.jobs
    × ((j : Job) → (lease_next "w2" 60 frozen tables).0 ≡ some j → j.id ≢ held.id)
lease_next-exclusive_example =
    lease_next-exclusive "w2" 60 frozen tables held 5000 tables-Distinct (inr (inl refl)) refl refl
      (omega arith) (omega arith)

abbrev stale : Job
stale = record given { leased_by = some "w1"; leased_until = some 900 }

stale-IsStale : IsStale "w2" 60 frozen tables given stale
stale-IsStale = record {
  same_job = refl;
  other_lease = λ h. ne_of_eq "w1" "w2" refl (some-injective _ _ h.0);
}

lease_next-fences_example :
    ((m : String) × (complete stale at_2000 leased ≡ err m))
    × ((m : String) × (fail stale "late" at_2000 leased ≡ err m))
    × (renew_lease stale 60 at_2000 leased ≡ (none, leased))
lease_next-fences_example =
    lease_next-fences "w2" 60 frozen tables given stale leased "late" 60 at_2000 leases_waiting
      stale-IsStale

lease_next-MaySettle_example :
    (r : JobRow) × In r tables.jobs × MaySettle "w2" 61000 1000 r given leased
lease_next-MaySettle_example =
    lease_next-MaySettle "w2" 60 frozen tables given leased refl leases_waiting

tables-IsBounded : All IsBounded tables.jobs
tables-IsBounded = (
  record { within = omega arith; left = λ e. omega arith },
  (
    record { within = omega arith; left = λ e. cc },
    (
      record { within = omega arith; left = λ e. cc },
      (record { within = omega arith; left = λ e. cc }, tt),
    ),
  ),
)

agrees : Agrees given leased
unfolding queue_runs
agrees r (inl e) same by until = rw (← e) (refl, refl)
agrees r (inr (inl e)) same by until =
    absurd (ne_of_eq "w1" "w2" refl (some-injective _ _ (ap (λ (x : JobRow). x.leased_by) e ∙ by)))
agrees r (inr (inr (inl e))) same by until = absurd (cc (ap (λ (x : JobRow). x.leased_by) e ∙ by))
agrees r (inr (inr (inr (inl e)))) same by until =
    absurd (cc (ap (λ (x : JobRow). x.leased_by) e ∙ by))
agrees r (inr (inr (inr (inr m)))) same by until = elim m [ ]

run-IsBounded_example : All IsBounded (run digest history tables).jobs
unfolding step lease_next sweep next_row set_last_leased last_leased_at least least_from
run-IsBounded_example =
    run-IsBounded digest history tables (tt, (agrees, (tt, tt))) tables-Distinct tables-IsBounded

run-IsRedacted_example : All IsRedacted (run digest history tables).jobs
run-IsRedacted_example = run-IsRedacted digest history tables tables-Distinct (
  record { redacted = λ e s. cc },
  (
    record { redacted = λ e s. cc },
    (record { redacted = λ e s. (900, refl) }, (record { redacted = λ e s. cc }, tt)),
  ),
)

run-keeps_final_example : In over (run digest history tables).jobs
run-keeps_final_example =
    run-keeps_final digest history tables over tables-Distinct (inr (inr (inl refl))) refl

abbrev buried : JobRow
buried = record overdue {
  status = JobStatus.dead_letter;
  leased_until = none;
  leased_by = none;
  last_error = some "Worker lease expired after final attempt";
  payload = redacted_payload 1000;
  updated_at = 1000;
}

buried_stands : In buried (step digest frozen (Call.leases "w2" 60) tables).jobs
unfolding queue_runs
buried_stands = inr (inr (inr (inl refl)))

step-Follows_example :
    Follows (changes (Call.leases "w2" 60)) tables.jobs buried
    ⊎ IsInserted (Call.leases "w2" 60) tables.jobs buried
step-Follows_example =
    step-Follows digest frozen (Call.leases "w2" 60) tables tables-Distinct buried buried_stands

lease_next-none_iff_example :
    ((lease_next "w2" 60 frozen tables).0 ≡ none)
    ↔ ((a : JobRow) → In a tables.jobs → is_ready frozen a ≡ false)
lease_next-none_iff_example = lease_next-none_iff "w2" 60 frozen tables

retry_delay_lem_example : (retry_delay 12 ≡ 2 ^ min 12 9) × (retry_delay 12 ≤ 512)
retry_delay_lem_example = retry_delay_lem 12

abbrev again : EnqueueJob
again = record {
  tenant_id = "t1";
  type = "connector.sync";
  idempotency_key = "k1";
  payload = [];
  priority = none;
  max_attempts = some 3;
  available_at = none;
}

tables-IsKeyed : All (IsKeyed digest) tables.jobs
tables-IsKeyed = (refl, (refl, (refl, (refl, tt))))

enqueue_idempotent_example :
    enqueue digest again frozen tables ≡ ok (to_job waiting, ensured digest again frozen tables)
enqueue_idempotent_example =
    enqueue_idempotent digest again frozen tables waiting tables-Distinct tables-IsKeyed (inl refl)
      refl refl

abbrev fresh : EnqueueJob
fresh = record again { idempotency_key = "k9" }

enqueue_new_example :
    (enqueue digest fresh frozen tables
      ≡ ok (
        to_job (untouched_row digest fresh frozen tables),
        record (ensured digest fresh frozen tables) {
          jobs = tables.jobs ++ untouched_row digest fresh frozen tables ∷ [];
        },
      ))
    × ((later : Clock)
        → is_ready later (untouched_row digest fresh frozen tables) ≡ leb 1000 (later 3))
enqueue_new_example = enqueue_new digest fresh frozen tables tables-Distinct refl refl

abbrev revocation : CancelPendingJobs
revocation = record { tenant_id = "t1"; type = "connector.sync"; payload = ("userId", "ann") ∷ [] }

cancel_pending_lem_example :
    ((cancel_pending revocation frozen tables).0
      ≡ count_where (is_candidate revocation) tables.jobs)
    × ((r : JobRow)
        → In r tables.jobs
        → is_candidate revocation r ≡ true
        → (s : ℕ) × (t : ℕ) × In
            (cancel_row s t r)
            (cancel_pending revocation frozen tables).1.jobs)
    × ((r : JobRow)
        → In r tables.jobs
        → is_candidate revocation r ≡ false
        → In r (cancel_pending revocation frozen tables).1.jobs)
    × ((a : JobRow)
        → In a (cancel_pending revocation frozen tables).1.jobs
        → is_candidate revocation a ≡ false)
cancel_pending_lem_example = cancel_pending_lem revocation frozen tables tables-Distinct

-- One job is cancelled.
cancels_one : (cancel_pending revocation frozen tables).0 ≡ 1
unfolding queue_runs
cancels_one = refl
