-- ===== src/Privacy/Export.antt =====
-- `exportAccount` of src/infrastructure/privacy/sqlite-privacy-repository.ts.
use recruiting_os.Common.{
  ◌∷◌, ◌++◌, ◌&&◌, ltb, truthy, text_lt, str_eq, sort_by, some, select_where, not, none, map,
  if◌then◌else◌, find_where, any, [], String, Option, List, Clock, Bool, false,
}
use recruiting_os.Auth.Tables.{UserRow, MemberRow}
use recruiting_os.Credentials.Repository.{CredentialRow}
use recruiting_os.Sources.Rows.{ContributorRow, SourceRow, VersionRow}
use recruiting_os.Privacy.Rows.{
  AccountDataExport, Activity, AuditRow, Connector, Contribution, Database, Identity, Membership,
  is_private,
}

-- `where tenant_id=? and user_id=?`
abbrev pub is_member : String → String → MemberRow → Bool
is_member tenant user r = str_eq r.tenant_id tenant && str_eq r.user_id user

abbrev pub is_credential_of : String → String → CredentialRow → Bool
is_credential_of tenant user r =
    str_eq r.credential.tenant_id tenant && str_eq r.credential.user_id user

abbrev pub is_contribution_of : String → String → ContributorRow → Bool
is_contribution_of tenant user r = str_eq r.tenant_id tenant && str_eq r.user_id user

-- `actor_id=?`, which is not true of NULL.
abbrev pub is_by : String → Option String → Bool
is_by user none = false
is_by user (some actor) = str_eq actor user

abbrev pub is_activity_of : String → String → AuditRow → Bool
is_activity_of tenant user r = str_eq r.tenant_id tenant && is_by user r.actor_id

-- A contribution with its version and its source.
pub record Contributed : Type 0 where
  pub contributor : ContributorRow
  pub version : VersionRow
  pub source : SourceRow

-- `join sources s on s.id=sv.source_id and s.tenant_id=sv.tenant_id`
unfoldable pub with_sources : ContributorRow → VersionRow → List SourceRow → List Contributed
with_sources c v [] = []
with_sources c v (s ∷ ss) =
    let rest = with_sources c v ss in
    if str_eq s.id v.source_id && str_eq s.tenant_id v.tenant_id
    then record { contributor = c; version = v; source = s } ∷ rest
    else rest

-- `join source_versions sv on sv.id=svc.source_version_id and sv.tenant_id=svc.tenant_id`
unfoldable pub with_versions : ContributorRow → List VersionRow → List SourceRow → List Contributed
with_versions c [] ss = []
with_versions c (v ∷ vs) ss =
    let rest = with_versions c vs ss in
    if str_eq v.id c.source_version_id && str_eq v.tenant_id c.tenant_id
    then with_sources c v ss ++ rest
    else rest

unfoldable pub contributed :
    List ContributorRow → List VersionRow → List SourceRow → List Contributed
contributed [] vs ss = []
contributed (c ∷ cs) vs ss = with_versions c vs ss ++ contributed cs vs ss

-- `exists(select 1 from source_version_contributors other where …)`
abbrev pub is_shared : List ContributorRow → ContributorRow → Bool
is_shared all c =
    any
      (λ (other : ContributorRow).
        str_eq other.tenant_id c.tenant_id
        && (str_eq other.source_version_id c.source_version_id
            && not (str_eq other.user_id c.user_id)))
      all

abbrev pub unless_private : Contributed → Option String → Option String
unless_private row text = if is_private row.source.source_type then none else truthy text

abbrev pub read_contribution : List ContributorRow → Contributed → Contribution
read_contribution all row = record {
  source_version_id = row.version.id;
  organization_id = row.version.organization_id;
  source_type = row.source.source_type;
  title = unless_private row row.source.title;
  url = unless_private row row.source.url;
  published_at = truthy row.version.published_at;
  fetched_at = row.version.fetched_at;
  status = row.version.status;
  shared = is_shared all row.contributor;
}

abbrev pub read_identity : UserRow → Identity
read_identity u = record {
  id = u.id;
  issuer = u.issuer;
  subject = u.subject;
  email = truthy u.email;
  display_name = truthy u.display_name;
  created_at = u.created_at;
}

abbrev pub read_membership : String → MemberRow → Membership
read_membership tenant m = record {
  tenant_id = tenant;
  roles = m.roles;
  organization_ids = m.organization_ids;
  created_at = m.created_at;
}

abbrev pub read_provider : CredentialRow → Connector
read_provider r = record {
  provider = r.credential.provider;
  scopes = r.credential.scopes;
  expires_at = truthy r.credential.expires_at;
  revoked_at = r.credential.revoked_at;
  created_at = r.created_at;
}

abbrev pub read_activity : AuditRow → Activity
read_activity r = record {
  action = r.action;
  resource_type = r.resource_type;
  resource_id = truthy r.resource_id;
  created_at = r.created_at;
}

-- `from users u join memberships m on m.user_id=u.id where m.tenant_id=? and u.id=?`
unfoldable pub find_account :
    String → String → List UserRow → List MemberRow → Option (UserRow × MemberRow)
find_account tenant user users members =
    elim (find_where (λ (u : UserRow). str_eq u.id user) users) [
      | none ↦ none
      | some u ↦ elim (find_where (is_member tenant user) members) [
        | none ↦ none
        | some m ↦ some (u, m)
      ]
    ]

unfoldable pub export_account :
    {R : Type 0} → String → String → Clock → Database R → Option AccountDataExport
export_account tenant user clock q = elim (find_account tenant user q.users q.members) [
  | none ↦ none
  | some (u, m) ↦ some (record {
    generated_at = clock 0;
    identity = read_identity u;
    membership = read_membership tenant m;
    connectors = map read_provider (
        sort_by
          (λ (a : CredentialRow) (b : CredentialRow).
            text_lt a.credential.provider b.credential.provider)
          (select_where (is_credential_of tenant user) q.credentials));
    contributions = map (read_contribution q.contributors) (
        sort_by
          (λ (a : Contributed) (b : Contributed).
            ltb b.contributor.created_at a.contributor.created_at)
          (contributed (select_where (is_contribution_of tenant user) q.contributors) q.versions
            q.sources));
    activity = map read_activity (
        sort_by (λ (a : AuditRow) (b : AuditRow). ltb b.created_at a.created_at)
          (select_where (is_activity_of tenant user) q.audits));
  })
]
