-- ===== src/Privacy/Erase.antt =====
-- `eraseAccount` of src/infrastructure/privacy/sqlite-privacy-repository.ts. `like` is the operator
-- of the database, `stable_id` the digest behind `stableId`.
use recruiting_os.Common.{
  ◌∷◌, ◌&&◌, ◌+◌, count_where, delete_where, false, some, str_eq, not, if◌then◌else◌, any, [],
  String, Option, List, Bool, ℕ,
}
use recruiting_os.Domain.{Json, SourceType, property}
use recruiting_os.Auth.Tables.{UserRow, MemberRow, SessionRow}
use recruiting_os.Credentials.Repository.{CredentialRow}
use recruiting_os.Sources.Rows.{ContributorRow, SourceRow, VersionRow, source_type_name}
use recruiting_os.Sources.Stage.{is_version}
use recruiting_os.Catalog.Rows.{ClaimRow, ConnectorRow, OverrideRow}
use recruiting_os.Queue.Rows.{JobRow}
use recruiting_os.Privacy.Rows.{AccountErasureResult, Database, is_private}
use recruiting_os.Privacy.Export.{Contributed, is_by, is_contribution_of, is_member}

abbrev pub empty_erasure : AccountErasureResult
empty_erasure = record {
  membership_deleted = false;
  identity_deleted = false;
  credentials_deleted = 0;
  sessions_deleted = 0;
  jobs_deleted = 0;
  connector_states_deleted = 0;
  contributions_removed = 0;
  private_source_versions_deleted = 0;
  claims_deleted = 0;
  affected_organization_ids = [];
  reconciliation_job_ids = [];
}

-- `select distinct sv.id,sv.organization_id,s.source_type`
pub record Origin : Type 0 where
  pub id : String
  pub organization_id : String
  pub source_type : SourceType

abbrev pub origin : Contributed → Origin
origin row = record {
  id = row.version.id;
  organization_id = row.version.organization_id;
  source_type = row.source.source_type;
}

abbrev pub same_origin : Origin → Origin → Bool
same_origin a b =
    str_eq a.id b.id
    && (str_eq a.organization_id b.organization_id
        && str_eq (source_type_name a.source_type) (source_type_name b.source_type))

unfoldable pub distinct_by {ℓ} : {A : Type ℓ} → (A → A → Bool) → List A → List A
distinct_by same [] = []
distinct_by same (x ∷ xs) = x ∷ delete_where (same x) (distinct_by same xs)

-- `payload.userId === userId`
abbrev pub is_user : String → Option Json → Bool
is_user user (some (Json.str s)) = str_eq s user
is_user user _ = false

abbrev pub is_job_of : String → JobRow → Bool
is_job_of user r = is_user user (property "userId" r.payload)

abbrev pub is_job : String → String → JobRow → Bool
is_job tenant id r = str_eq r.tenant_id tenant && str_eq r.id id

-- The loop over the jobs of the tenant: how many rows went, and what is left.
unfoldable pub delete_jobs : String → String → List JobRow → List JobRow → ℕ × List JobRow
delete_jobs tenant user [] jobs = (0, jobs)
delete_jobs tenant user (r ∷ rest) jobs =
    if is_job_of user r
    then (let (n, left) = delete_jobs tenant user rest (delete_where (is_job tenant r.id) jobs) in
        (count_where (is_job tenant r.id) jobs + n, left))
    else delete_jobs tenant user rest jobs

abbrev pub is_session_of : String → String → SessionRow → Bool
is_session_of tenant user r = str_eq r.tenant_id tenant && str_eq r.user_id user

abbrev pub is_version_claim : {R : Type 0} → String → String → ClaimRow R → Bool
is_version_claim tenant version r = str_eq r.tenant_id tenant && str_eq r.source_version_id version

abbrev pub is_override_by : String → String → OverrideRow → Bool
is_override_by tenant user r = str_eq r.tenant_id tenant && str_eq r.actor_id user

-- `owner_user_id` of `on delete cascade`
abbrev pub is_owned : String → String → ConnectorRow → Bool
is_owned tenant user r = str_eq r.tenant_id tenant && is_by user r.owner_user_id

-- `not exists(select 1 from source_versions where source_id=sources.id)`
abbrev pub is_empty_source : String → List VersionRow → SourceRow → Bool
is_empty_source tenant versions s =
    str_eq s.tenant_id tenant && not (any (λ (v : VersionRow). str_eq v.source_id s.id) versions)

module _ {R : Type 0} where
  -- The two deletes of the loop over the orphaned versions. What refers to the version goes too.
  unfoldable pub delete_version : String → String → Database R → Database R
  delete_version tenant id q =
      let claims = delete_where (is_version_claim tenant id) q.claims in
      if any (is_version tenant id) q.versions
      then record q {
        versions = delete_where (is_version tenant id) q.versions;
        claims = delete_where (λ c. str_eq c.source_version_id id) claims;
        contributors = delete_where (λ c. str_eq c.source_version_id id) q.contributors;
      }
      else record q { claims = claims }

  -- The loop: claims and versions deleted, and the tables after it.
  unfoldable pub delete_versions : String → List Origin → Database R → (ℕ × ℕ) × Database R
  delete_versions tenant [] q = ((0, 0), q)
  delete_versions tenant (o ∷ os) q =
      let ((claims, versions), q') = delete_versions tenant os (delete_version tenant o.id q) in
      (
        (
          count_where (is_version_claim tenant o.id) q.claims + claims,
          count_where (is_version tenant o.id) q.versions + versions,
        ),
        q',
      )

  -- A private version that no user of the tenant contributes any more.
  abbrev pub is_orphaned : String → Database R → Origin → Bool
  is_orphaned tenant q o =
      is_private o.source_type
      && not (
          any (λ (c : ContributorRow). str_eq c.tenant_id tenant && str_eq c.source_version_id o.id)
            q.contributors)

  -- `delete from memberships`, and what refers to the membership.
  unfoldable pub delete_membership : String → String → Database R → Database R
  delete_membership tenant user q =
      if any (is_member tenant user) q.members
      then record q {
        members = delete_where (is_member tenant user) q.members;
        contributors = delete_where (is_contribution_of tenant user) q.contributors;
        connectors = delete_where (is_owned tenant user) q.connectors;
      }
      else q

  -- `delete from users`, and what refers to the user.
  unfoldable pub delete_user : String → Database R → Database R
  delete_user user q =
      if any (λ (u : UserRow). str_eq u.id user) q.users
      then record q {
        users = delete_where (λ (u : UserRow). str_eq u.id user) q.users;
        members = delete_where (λ (m : MemberRow). str_eq m.user_id user) q.members;
        sessions = delete_where (λ (s : SessionRow). str_eq s.user_id user) q.sessions;
        credentials =
            delete_where (λ (c : CredentialRow). str_eq c.credential.user_id user) q.credentials;
      }
      else q
