-- ===== src/Privacy/Rows.antt =====
-- The tables that export and erasure of an account touch (src/store.ts), the results of
-- src/application/ports/privacy-repository.ts, and src/domain/data-policy.ts.
use recruiting_os.Common.{String, Option, List, Bool, true, false, ℕ}
use recruiting_os.Domain.{Json, Role, SourceType, SourceVersionStatus}
use recruiting_os.Auth.Tables.{UserRow, MemberRow, SessionRow}
use recruiting_os.Credentials.Repository.{CredentialRow}
use recruiting_os.Sources.Rows.{ContributorRow, SourceRow, VersionRow}
use recruiting_os.Catalog.Rows.{ClaimRow, ConnectorRow, OverrideRow}
use recruiting_os.Queue.Rows.{JobRow}

pub record AuditRow : Type 0 where
  pub id : String
  pub tenant_id : String
  pub actor_id : Option String
  pub action : String
  pub resource_type : String
  pub resource_id : Option String
  pub request_id : Option String
  pub metadata : Json
  pub created_at : ℕ

pub record Database (R : Type 0) : Type 0 where
  pub users : List UserRow
  pub members : List MemberRow
  pub sessions : List SessionRow
  pub credentials : List CredentialRow
  pub contributors : List ContributorRow
  pub sources : List SourceRow
  pub versions : List VersionRow
  pub claims : List (ClaimRow R)
  pub connectors : List ConnectorRow
  pub overrides : List OverrideRow
  pub jobs : List JobRow
  pub audits : List AuditRow

pub record AccountErasureResult : Type 0 where
  pub membership_deleted : Bool
  pub identity_deleted : Bool
  pub credentials_deleted : ℕ
  pub sessions_deleted : ℕ
  pub jobs_deleted : ℕ
  pub connector_states_deleted : ℕ
  pub contributions_removed : ℕ
  pub private_source_versions_deleted : ℕ
  pub claims_deleted : ℕ
  pub affected_organization_ids : List String
  pub reconciliation_job_ids : List String

pub record Identity : Type 0 where
  pub id : String
  pub issuer : String
  pub subject : String
  pub email : Option String
  pub display_name : Option String
  pub created_at : ℕ

pub record Membership : Type 0 where
  pub tenant_id : String
  pub roles : List Role
  pub organization_ids : List String
  pub created_at : ℕ

pub record Connector : Type 0 where
  pub provider : String
  pub scopes : List String
  pub expires_at : Option String
  pub revoked_at : Option ℕ
  pub created_at : ℕ

pub record Contribution : Type 0 where
  pub source_version_id : String
  pub organization_id : String
  pub source_type : SourceType
  pub title : Option String
  pub url : Option String
  pub published_at : Option String
  pub fetched_at : String
  pub status : SourceVersionStatus
  pub shared : Bool

pub record Activity : Type 0 where
  pub action : String
  pub resource_type : String
  pub resource_id : Option String
  pub created_at : ℕ

pub record AccountDataExport : Type 0 where
  pub generated_at : ℕ
  pub identity : Identity
  pub membership : Membership
  pub connectors : List Connector
  pub contributions : List Contribution
  pub activity : List Activity

-- `privateSourceTypes.has(…)`, the set of `PRIVATE_SOURCE_TYPES`.
abbrev pub is_private : SourceType → Bool
is_private SourceType.gmail = true
is_private SourceType.groupme = true
is_private SourceType.screenshot = true
is_private _ = false
