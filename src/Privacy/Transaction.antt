-- ===== src/Privacy/Transaction.antt =====
-- The end of `eraseAccount` of src/infrastructure/privacy/sqlite-privacy-repository.ts, and the
-- whole. `like` is the operator of the database, `stable_id` the digest behind `stableId`.
use Prim.Native.String.{◌++◌ as ◌+++◌}
use recruiting_os.Common.{
  ◌∷◌, ◌++◌, ◌&&◌, some, ok, str_eq, not, none, map, if◌then◌else◌, any, err, [], String, Result,
  List, Clock, Bool, ℕ,
}
use recruiting_os.Domain.{Json, JobStatus}
use recruiting_os.Queue.Rows.{JobRow}
use recruiting_os.Privacy.Rows.{AccountErasureResult, AuditRow, Database}
use recruiting_os.Privacy.Export.{is_member}
use recruiting_os.Privacy.Erase.{Origin, distinct_by, empty_erasure, is_override_by}
use recruiting_os.Privacy.Account.{
  erasure_json, erasure_result, forget, leave, orphans, without_orphans,
}

-- `[...new Set(orphaned.map((row) => row.organization_id))]`
abbrev pub affected : List Origin → List String
affected os = distinct_by str_eq (map (λ (o : Origin). o.organization_id) os)

module _ (stable_id : String → String → String) where
  abbrev pub reconcile_key : String → String → String → String
  reconcile_key user operation organization =
      "privacy:" +++ user +++ ":" +++ operation +++ ":" +++ organization

  abbrev pub reconcile_job : String → String → String → ℕ → String → JobRow
  reconcile_job tenant user operation now organization = record {
    id =
        stable_id "job"
          (tenant +++ ":privacy.reconcile:" +++ reconcile_key user operation organization);
    tenant_id = tenant;
    type = "privacy.reconcile";
    idempotency_key = reconcile_key user operation organization;
    payload = ("organizationId", Json.str organization) ∷ [];
    status = JobStatus.queued;
    priority = 10;
    attempt_count = 0;
    max_attempts = 5;
    available_at = now;
    leased_until = none;
    leased_by = none;
    last_error = none;
    created_at = now;
    updated_at = now;
  }

  -- A membership of the tenant was there, so its tenant is.
  unfoldable pub insert_job : JobRow → List JobRow → Result String (List JobRow)
  insert_job r jobs =
      if any (λ (j : JobRow). str_eq j.id r.id) jobs
      then err "UNIQUE constraint failed: jobs.id"
      else if any
          (λ (j : JobRow).
            str_eq j.tenant_id r.tenant_id
            && (str_eq j.type r.type && str_eq j.idempotency_key r.idempotency_key))
          jobs
      then err "UNIQUE constraint failed: jobs.tenant_id, jobs.type, jobs.idempotency_key"
      else ok (jobs ++ r ∷ [])

  unfoldable pub insert_jobs : List JobRow → List JobRow → Result String (List JobRow)
  insert_jobs [] jobs = ok jobs
  insert_jobs (r ∷ rs) jobs = elim (insert_job r jobs) [
    | err e ↦ err e
    | ok jobs' ↦ insert_jobs rs jobs'
  ]

  abbrev pub erasure_event : String → String → String → ℕ → AccountErasureResult → AuditRow
  erasure_event tenant user operation now result = record {
    id = stable_id "aud" (tenant +++ ":privacy.erase:" +++ user +++ ":" +++ operation);
    tenant_id = tenant;
    actor_id = none;
    action = "privacy.erase";
    resource_type = "account";
    resource_id = none;
    request_id = some operation;
    metadata = erasure_json result;
    created_at = now;
  }

  unfoldable pub insert_audit : AuditRow → List AuditRow → Result String (List AuditRow)
  insert_audit r audits =
      if any (λ (a : AuditRow). str_eq a.id r.id) audits
      then err "UNIQUE constraint failed: audit_events.id"
      else ok (audits ++ r ∷ [])

  module _ {R : Type 0} (like : String → String → Bool) where
    -- The end of the transaction: the jobs and the audit event.
    unfoldable pub reconcile :
        List JobRow
        → AuditRow
        → AccountErasureResult
        → Database R
        → Result String (AccountErasureResult × Database R)
    reconcile rows event result q = elim (insert_jobs rows q.jobs) [
      | err e ↦ err e
      | ok jobs ↦ elim (insert_audit event q.audits) [
        | err e ↦ err e
        | ok audits ↦ ok (result, record q { jobs = jobs; audits = audits })
      ]
    ]

    -- A statement that throws rolls the transaction back, so an error leaves the tables alone.
    unfoldable pub erase_account :
        String
        → String
        → String
        → Clock
        → Database R
        → Result String (AccountErasureResult × Database R)
    erase_account tenant user operation clock q =
        if not (any (is_member tenant user) q.members)
        then ok (empty_erasure, q)
        else if any (is_override_by tenant user) q.overrides
        then err "NOT NULL constraint failed: opportunity_overrides.actor_id"
        else (let organizations = affected (orphans tenant user q) in
            let rows = map (reconcile_job tenant user operation (clock 0)) organizations in
            let result =
              erasure_result like tenant user q organizations (map (λ (r : JobRow). r.id) rows) in
            reconcile rows (erasure_event tenant user operation (clock 0) result) result
              (leave tenant user (forget like tenant user (without_orphans tenant user q))))
