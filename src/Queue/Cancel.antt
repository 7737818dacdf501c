-- ===== src/Queue/Cancel.antt =====
-- `cancelPending` of src/infrastructure/queue/sqlite-job-queue.ts.
use recruiting_os.Common.{
  ℕ, String, Bool, false, Option, none, some, List, [], ◌∷◌, ◌+◌, ◌&&◌, Clock, str_eq, all, map,
  select_where, update_where, count_where, suc,
}
use recruiting_os.Domain.{Json, Record, JobStatus, property}
use recruiting_os.Queue.Rows.{JobRow, Queue, is_pending, redact}
use recruiting_os.Queue.Unique.{ids}

pub record CancelPendingJobs : Type 0 where
  pub tenant_id : String
  pub type : String
  pub payload : List (String × String)

-- `payload[key] === value` for a text `value`
unfoldable pub is_text : Option Json → String → Bool
is_text (some (Json.str s)) value = str_eq s value
is_text _ value = false

-- `Object.entries(input.payload).every(…)`
unfoldable pub matches_payload : List (String × String) → Record → Bool
unfolding is_text property
matches_payload wanted payload = all (λ e. is_text (property e.0 payload) e.1) wanted

abbrev pub is_candidate : CancelPendingJobs → JobRow → Bool
is_candidate input r =
    str_eq r.tenant_id input.tenant_id
    && (str_eq r.type input.type
        && (is_pending r.status && matches_payload input.payload r.payload))

-- `update jobs set status='cancelled',… where id=? and status in ('queued','retryable_failed')`
abbrev pub cancel_row : ℕ → ℕ → JobRow → JobRow
cancel_row redacted_at now r = record r {
  status = JobStatus.cancelled;
  leased_by = none;
  leased_until = none;
  last_error = some "Cancelled by connector revocation";
  payload = redact r redacted_at;
  updated_at = now;
}

abbrev pub is_target : String → JobRow → Bool
is_target id r = str_eq r.id id && is_pending r.status

-- The loop over the ids, from the n-th reading of the clock, with the sum of the changes.
unfoldable pub cancel_each : Clock → ℕ → List String → List JobRow → ℕ × List JobRow
cancel_each clock n [] rows = (0, rows)
cancel_each clock n (id ∷ ids) rows =
    let later = update_where (is_target id) (cancel_row (clock n) (clock (suc n))) rows in
    let rest = cancel_each clock (suc (suc n)) ids later in
    (count_where (is_target id) rows + rest.0, rest.1)

-- The ids of the candidates, in the order of the table.
abbrev pub cancel_ids : CancelPendingJobs → Queue → List String
cancel_ids input q = map (λ r. r.id) (select_where (is_candidate input) q.jobs)

unfoldable pub cancel_pending : CancelPendingJobs → Clock → Queue → ℕ × Queue
cancel_pending input clock q =
    let done = cancel_each clock 0 (cancel_ids input q) q.jobs in
    (done.0, record q { jobs = done.1 })
