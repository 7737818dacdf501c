-- ===== src/Queue/Rows.antt =====
-- The columns of `jobs` (src/store.ts), and a job as the queue hands it out (`map` of
-- src/infrastructure/queue/sqlite-job-queue.ts).
use recruiting_os.Common.{
  ℕ, String, Bool, true, false, Option, List, [], ◌∷◌, truthy, str_eq, if◌then◌else◌,
}
use recruiting_os.Domain.{Json, Record, JobStatus}

pub record JobRow : Type 0 where
  pub id : String
  pub tenant_id : String
  pub type : String
  pub idempotency_key : String
  pub payload : Record
  pub status : JobStatus
  pub priority : ℕ
  pub attempt_count : ℕ
  pub max_attempts : ℕ
  pub available_at : ℕ
  pub leased_until : Option ℕ
  pub leased_by : Option String
  pub last_error : Option String
  pub created_at : ℕ
  pub updated_at : ℕ

-- The tables that the queue reads and writes.
pub record Queue : Type 0 where
  pub tenants : List String
  pub jobs : List JobRow
  pub last_leased : List (String × ℕ)

pub record Job : Type 0 where
  pub id : String
  pub tenant_id : String
  pub type : String
  pub idempotency_key : String
  pub payload : Record
  pub status : JobStatus
  pub attempt_count : ℕ
  pub max_attempts : ℕ
  pub available_at : ℕ
  pub leased_by : Option String
  pub leased_until : Option ℕ

abbrev pub to_job : JobRow → Job
to_job r = record {
  id = r.id;
  tenant_id = r.tenant_id;
  type = r.type;
  idempotency_key = r.idempotency_key;
  payload = r.payload;
  status = r.status;
  attempt_count = r.attempt_count;
  max_attempts = r.max_attempts;
  available_at = r.available_at;
  leased_by = truthy r.leased_by;
  leased_until = r.leased_until;
}

-- `status in ('queued','retryable_failed')`
abbrev pub is_pending : JobStatus → Bool
is_pending JobStatus.queued = true
is_pending JobStatus.retryable_failed = true
is_pending _ = false

abbrev pub is_running : JobStatus → Bool
is_running JobStatus.running = true
is_running _ = false

abbrev pub is_cancelled : JobStatus → Bool
is_cancelled JobStatus.cancelled = true
is_cancelled _ = false

-- `redactedPayload`
unfoldable pub redacted_payload : ℕ → Record
redacted_payload now =
    ("retentionRedacted", Json.bool true)
    ∷ ("redactedAt", Json.num now)
    ∷ ("reason", Json.str "terminal-screenshot-job")
    ∷ []

-- `case when type='ingest.screenshot' then ? else payload end`
abbrev pub redact : JobRow → ℕ → Record
redact r now = if str_eq r.type "ingest.screenshot" then redacted_payload now else r.payload
