-- ===== src/Queue/Settle.antt =====
-- `complete`, `fail` and `stats` of src/infrastructure/queue/sqlite-job-queue.ts.
use recruiting_os.Common.{
  ℕ, zero, suc, String, Bool, Option, none, some, List, [], ◌∷◌, ◌+◌, ◌-◌, ◌*◌, ◌^◌, ◌&&◌, Clock,
  Result, ok, err, str_eq, leb, ◌==◌, update_where, select_where, count_where, if◌then◌else◌, min,
}
use recruiting_os.Domain.{JobStatus}
use recruiting_os.Queue.Rows.{JobRow, Queue, Job, is_pending, redact}
use recruiting_os.Queue.Lease.{holds_lease, lease_of}

abbrev pub succeed_row : ℕ → ℕ → JobRow → JobRow
succeed_row redacted_at now r = record r {
  status = JobStatus.succeeded;
  leased_by = none;
  leased_until = none;
  last_error = none;
  payload = redact r redacted_at;
  updated_at = now;
}

-- An update of the rows that hold the lease of a job; without such a row it throws.
unfoldable pub settle : (JobRow → Bool) → (JobRow → JobRow) → Queue → Result String Queue
settle holds change q =
    if count_where holds q.jobs == 0
    then err "Job lease is no longer valid"
    else ok (record q { jobs = update_where holds change q.jobs })

unfoldable pub complete : Job → Clock → Queue → Result String Queue
complete job clock q = elim (lease_of job) [
  | none ↦ err "Job lease is missing"
  | some (worker, until) ↦
      settle (holds_lease job.id worker until (clock 2)) (succeed_row (clock 0) (clock 1)) q
]

-- `text.slice(0, n)`, in code points
unfoldable pub slice_start : ℕ → String → String
slice_start zero text = ""
slice_start (suc n) String.[] = ""
slice_start (suc n) (String.◌∷◌ c rest) = String.◌∷◌ c (slice_start n rest)

-- The seconds to wait before the next attempt.
unfoldable pub retry_delay : ℕ → ℕ
retry_delay attempts = min 900 (2 ^ min attempts 9)

abbrev pub fail_row : Bool → String → ℕ → ℕ → ℕ → JobRow → JobRow
fail_row terminal message available redacted_at now r = record r {
  status = if terminal then JobStatus.dead_letter else JobStatus.retryable_failed;
  available_at = available;
  leased_by = none;
  leased_until = none;
  last_error = some message;
  payload = if terminal then redact r redacted_at else r.payload;
  updated_at = now;
}

unfoldable pub fail : Job → String → Clock → Queue → Result String Queue
fail job message clock q = elim (lease_of job) [
  | none ↦ err "Job lease is missing"
  | some (worker, until) ↦
      let terminal = leb job.max_attempts job.attempt_count in
      let available = clock 0 + retry_delay job.attempt_count * 1000 in
      settle (holds_lease job.id worker until (clock 3))
        (fail_row terminal (slice_start 500 message) available (clock 1) (clock 2)) q
]

pub record Stats : Type 0 where
  pub queued : ℕ
  pub running : ℕ
  pub retryable_failed : ℕ
  pub dead_letter : ℕ
  pub cancelled : ℕ
  pub oldest_ready_age_ms : ℕ

abbrev pub status_index : JobStatus → ℕ
status_index JobStatus.queued = 0
status_index JobStatus.running = 1
status_index JobStatus.succeeded = 2
status_index JobStatus.retryable_failed = 3
status_index JobStatus.dead_letter = 4
status_index JobStatus.cancelled = 5

-- The count of one status among the groups of the first query.
unfoldable pub count_status : String → JobStatus → List JobRow → ℕ
count_status tenant s rows =
    count_where (λ r. str_eq r.tenant_id tenant && status_index r.status == status_index s) rows

-- `min(available_at)`
unfoldable pub earliest : List JobRow → Option ℕ
earliest [] = none
earliest (r ∷ rows) = elim (earliest rows) [
  | none ↦ some r.available_at
  | some t ↦ some (min r.available_at t)
]

abbrev pub is_waiting : String → ℕ → JobRow → Bool
is_waiting tenant now r =
    str_eq r.tenant_id tenant && (is_pending r.status && leb r.available_at now)

-- The age is in milliseconds, where the source divides it into seconds.
unfoldable pub stats : String → Clock → Queue → Stats
stats tenant clock q = record {
  queued = count_status tenant JobStatus.queued q.jobs;
  running = count_status tenant JobStatus.running q.jobs;
  retryable_failed = count_status tenant JobStatus.retryable_failed q.jobs;
  dead_letter = count_status tenant JobStatus.dead_letter q.jobs;
  cancelled = count_status tenant JobStatus.cancelled q.jobs;
  oldest_ready_age_ms = elim (earliest (select_where (is_waiting tenant (clock 0)) q.jobs)) [
    | none ↦ 0
    | some t ↦ clock 1 - t
  ];
}
