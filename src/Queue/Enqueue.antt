-- ===== src/Queue/Enqueue.antt =====
-- `enqueue` of src/infrastructure/queue/sqlite-job-queue.ts. The digest behind `stableId` is a
-- parameter.
use Prim.Native.String.{◌++◌ as ◌+++◌}
use recruiting_os.Common.{
  ℕ, String, Bool, Option, none, some, List, [], ◌∷◌, ◌++◌, ◌&&◌, Clock, Result, ok, err, str_eq,
  or_else, any, find_where, update_where, if◌then◌else◌,
}
use recruiting_os.Domain.{Record, JobStatus}
use recruiting_os.Queue.Rows.{JobRow, Queue, Job, to_job, is_cancelled}

pub record EnqueueJob : Type 0 where
  pub tenant_id : String
  pub type : String
  pub idempotency_key : String
  pub payload : Record
  pub priority : Option ℕ
  pub max_attempts : Option ℕ
  pub available_at : Option ℕ

-- `insert or ignore into tenants`
unfoldable pub ensure_tenant : String → List String → List String
ensure_tenant t ts = if any (λ u. str_eq u t) ts then ts else ts ++ t ∷ []

-- `on conflict(tenant_id,type,idempotency_key)`
abbrev pub conflicts : EnqueueJob → JobRow → Bool
conflicts input r =
    str_eq r.tenant_id input.tenant_id
    && str_eq r.type input.type
    && str_eq r.idempotency_key input.idempotency_key

abbrev pub new_row : EnqueueJob → String → ℕ → JobRow
new_row input id now = record {
  id = id;
  tenant_id = input.tenant_id;
  type = input.type;
  idempotency_key = input.idempotency_key;
  payload = input.payload;
  status = JobStatus.queued;
  priority = or_else input.priority 100;
  attempt_count = 0;
  max_attempts = or_else input.max_attempts 5;
  available_at = or_else input.available_at now;
  leased_until = none;
  leased_by = none;
  last_error = none;
  created_at = now;
  updated_at = now;
}

-- `do update set … where jobs.status='cancelled'`
unfoldable pub requeue : EnqueueJob → ℕ → JobRow → JobRow
requeue input now r =
    if is_cancelled r.status
    then record r {
      payload = input.payload;
      status = JobStatus.queued;
      priority = or_else input.priority 100;
      attempt_count = 0;
      max_attempts = or_else input.max_attempts 5;
      available_at = or_else input.available_at now;
      leased_until = none;
      leased_by = none;
      last_error = none;
      updated_at = now;
    }
    else r

-- The insert with its conflict clause; a second row of one id breaks the primary key.
unfoldable pub upsert : EnqueueJob → String → ℕ → List JobRow → Result String (List JobRow)
upsert input id now rows =
    if any (conflicts input) rows
    then ok (update_where (conflicts input) (requeue input now) rows)
    else if any (λ r. str_eq r.id id) rows
    then err "UNIQUE constraint failed: jobs.id"
    else ok (rows ++ new_row input id now ∷ [])

-- The row of an id, once the transaction has committed; reading no row throws.
unfoldable pub read_back : String → Queue → Result String (Job × Queue)
read_back id q = elim (find_where (λ r. str_eq r.id id) q.jobs) [
  | none ↦ err "Cannot read properties of undefined"
  | some r ↦ ok (to_job r, q)
]

abbrev pub job_key : EnqueueJob → String
job_key input = input.tenant_id +++ ":" +++ input.type +++ ":" +++ input.idempotency_key

module _ (stable_id : String → String → String) where
  -- A statement that throws rolls the transaction back, so an error leaves the tables alone.
  unfoldable pub enqueue : EnqueueJob → Clock → Queue → Result String (Job × Queue)
  enqueue input clock q =
      let id = stable_id "job" (job_key input) in
      elim (upsert input id (clock 0) q.jobs) [
        | err e ↦ err e
        | ok rows ↦
            read_back id
              (record q { tenants = ensure_tenant input.tenant_id q.tenants; jobs = rows })
      ]
