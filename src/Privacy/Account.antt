-- ===== src/Privacy/Account.antt =====
-- `eraseAccount` of src/infrastructure/privacy/sqlite-privacy-repository.ts, statement after statement.
-- `like` is the operator of the database.
use Prim.Native.String.{◌++◌ as ◌+++◌}
use recruiting_os.Common.{
  ◌∷◌, ◌||◌, ◌&&◌, ◌==◌, count_where, delete_where, false, select_where, str_eq, none, map,
  if◌then◌else◌, any, update_where, [], String, List, Bool,
}
use recruiting_os.Domain.{Json, Items, Fields}
use recruiting_os.Auth.Tables.{MemberRow, UserRow}
use recruiting_os.Catalog.Rows.{ConnectorRow}
use recruiting_os.Privacy.Rows.{AccountErasureResult, AuditRow, Database}
use recruiting_os.Privacy.Export.{
  contributed, is_activity_of, is_contribution_of, is_credential_of, is_member,
}
use recruiting_os.Privacy.Erase.{
  Origin, delete_jobs, delete_membership, delete_user, delete_versions, distinct_by,
  is_empty_source, is_orphaned, is_session_of, origin, same_origin,
}

abbrev texts : List String → Items
texts [] = Items.nil
texts (s ∷ ss) = Items.item (Json.str s) (texts ss)

-- `JSON.stringify(result)`
abbrev pub erasure_json : AccountErasureResult → Json
erasure_json r = Json.obj (
    Fields.field "membershipDeleted" (Json.bool r.membership_deleted) (
      Fields.field "identityDeleted" (Json.bool r.identity_deleted) (
        Fields.field "credentialsDeleted" (Json.num r.credentials_deleted) (
          Fields.field "sessionsDeleted" (Json.num r.sessions_deleted) (
            Fields.field "jobsDeleted" (Json.num r.jobs_deleted) (
              Fields.field "connectorStatesDeleted" (Json.num r.connector_states_deleted) (
                Fields.field "contributionsRemoved" (Json.num r.contributions_removed) (
                  Fields.field "privateSourceVersionsDeleted"
                    (Json.num r.private_source_versions_deleted)
                    (Fields.field "claimsDeleted" (Json.num r.claims_deleted) (
                      Fields.field "affectedOrganizationIds"
                        (Json.arr (texts r.affected_organization_ids))
                        (Fields.field "reconciliationJobIds"
                          (Json.arr (texts r.reconciliation_job_ids)) Fields.end)))))))))))

module _ {R : Type 0} where
  abbrev pub origins : String → String → Database R → List Origin
  origins tenant user q = distinct_by same_origin (
      map origin (
        contributed (select_where (is_contribution_of tenant user) q.contributors) q.versions
          q.sources))

  abbrev pub forget_contributions : String → String → Database R → Database R
  forget_contributions tenant user q = record q {
    contributors = delete_where (is_contribution_of tenant user) q.contributors;
  }

  abbrev pub orphans : String → String → Database R → List Origin
  orphans tenant user q =
      select_where (is_orphaned tenant (forget_contributions tenant user q)) (origins tenant user q)

  -- The tables once the orphaned versions are gone.
  abbrev pub without_orphans : String → String → Database R → Database R
  without_orphans tenant user q =
      let (n, q') =
        delete_versions tenant (orphans tenant user q) (forget_contributions tenant user q) in
      q'

  -- The membership, and the identity if it has no other one.
  unfoldable pub leave : String → String → Database R → Database R
  leave tenant user q =
      let q' = delete_membership tenant user q in
      if any (λ (m : MemberRow). str_eq m.user_id user) q'.members then q' else delete_user user q'

module _ (like : String → String → Bool) where
  -- `scope=? or scope like ?`
  abbrev pub is_scope_of : String → String → ConnectorRow → Bool
  is_scope_of tenant user r =
      str_eq r.tenant_id tenant && (str_eq r.scope user || like r.scope (user +++ ":%"))

  module _ {R : Type 0} where
    -- The statements up to the one on the audit events.
    unfoldable pub forget : String → String → Database R → Database R
    forget tenant user q = record q {
      sources = delete_where (is_empty_source tenant q.versions) q.sources;
      credentials = delete_where (is_credential_of tenant user) q.credentials;
      sessions = delete_where (is_session_of tenant user) q.sessions;
      jobs =
          (delete_jobs tenant user (select_where (λ r. str_eq r.tenant_id tenant) q.jobs) q.jobs).1;
      connectors = delete_where (is_scope_of tenant user) q.connectors;
      audits =
          update_where (is_activity_of tenant user) (λ (r : AuditRow). record r { actor_id = none })
            q.audits;
    }

    abbrev pub erasure_result :
        String → String → Database R → List String → List String → AccountErasureResult
    erasure_result tenant user q organizations job_ids =
        let ((claims, versions), q2) =
          delete_versions tenant (orphans tenant user q) (forget_contributions tenant user q) in
        let q4 = delete_membership tenant user (forget tenant user q2) in
        record {
          membership_deleted = count_where (is_member tenant user) q2.members == 1;
          identity_deleted =
              if any (λ (m : MemberRow). str_eq m.user_id user) q4.members
              then false
              else count_where (λ (u : UserRow). str_eq u.id user) q4.users == 1;
          credentials_deleted = count_where (is_credential_of tenant user) q2.credentials;
          sessions_deleted = count_where (is_session_of tenant user) q2.sessions;
          jobs_deleted =
              (delete_jobs tenant user (select_where (λ r. str_eq r.tenant_id tenant) q2.jobs)
                q2.jobs).0;
          connector_states_deleted = count_where (is_scope_of tenant user) q2.connectors;
          contributions_removed = count_where (is_contribution_of tenant user) q.contributors;
          private_source_versions_deleted = versions;
          claims_deleted = claims;
          affected_organization_ids = organizations;
          reconciliation_job_ids = job_ids;
        }
