-- ===== src/Privacy/Tests.antt =====
-- Two users of one tenant, who share one of two messages, and the erasure of the first.
use recruiting_os.Common.{
  ◌≡◌, ◌∷◌, refl, true, false, inl, inr, any, In, some, none, ok, err, [], String, Clock, Bool, ℕ,
  insert_by, sort_by,
}
use recruiting_os.Domain.{
  ClaimField, Json, JobStatus, Role, SourceType, SourceVersionStatus, property,
}
use recruiting_os.Auth.Tables.{UserRow, MemberRow}
use recruiting_os.Sources.Rows.{ContributorRow, SourceRow, VersionRow}
use recruiting_os.Sources.Stage.{is_version}
use recruiting_os.Catalog.Rows.{Catalog, ClaimRow, OpportunityOverride, OrganizationRow}
use recruiting_os.Catalog.Overrides.{new_override, put_opportunity_override}
use recruiting_os.Queue.Rows.{JobRow}
use recruiting_os.Privacy.Rows.{AccountErasureResult, Database}
use recruiting_os.Privacy.Export.{
  Contributed, contributed, export_account, find_account, with_sources, with_versions,
}
use recruiting_os.Privacy.Erase.{
  delete_jobs, delete_membership, delete_user, delete_version, delete_versions, distinct_by,
  empty_erasure, is_version_claim,
}
use recruiting_os.Privacy.Account.{forget, leave}
use recruiting_os.Privacy.Transaction.{
  erase_account, insert_audit, insert_job, insert_jobs, reconcile,
}
use recruiting_os.Privacy.Forgotten.{IsForgotten}
use recruiting_os.Privacy.Erased.{erase_account-forgets}
use recruiting_os.Privacy.Kept.{erase_account-keeps_shared}
use recruiting_os.Privacy.Orphans.{erase_account-deletes_private}
use recruiting_os.Privacy.Refused.{put_opportunity_override-erase_account}

privacy_runs : Unit {0}
unfolding insert_by sort_by property find_account export_account with_sources with_versions
    contributed delete_jobs delete_membership delete_user delete_version delete_versions distinct_by
    forget leave insert_job insert_jobs insert_audit reconcile erase_account
    put_opportunity_override
privacy_runs = tt

abbrev digest_of : String → String → String
digest_of prefix value = value

abbrev never_like : String → String → Bool
never_like text pattern = false

abbrev zero_clock : Clock
zero_clock n = 0

abbrev user_named : String → UserRow
user_named id = record {
  id = id;
  issuer = "issuer";
  subject = id;
  email = none;
  display_name = none;
  created_at = 0;
  updated_at = 0;
}

abbrev member_named : String → MemberRow
member_named id = record {
  tenant_id = "t1";
  user_id = id;
  roles = Role.student ∷ [];
  organization_ids = [];
  created_at = 0;
  updated_at = 0;
}

abbrev message : String → VersionRow
message id = record {
  id = id;
  source_id = "s1";
  tenant_id = "t1";
  organization_id = "o1";
  content_hash = id;
  raw_text = "text";
  media = [];
  published_at = none;
  fetched_at = "2026";
  metadata = [];
  status = SourceVersionStatus.succeeded;
  attempt_count = 1;
  next_attempt_at = none;
  last_error = none;
  started_at = none;
  completed_at = none;
  created_at = 0;
}

abbrev mailbox : SourceRow
mailbox = record {
  id = "s1";
  tenant_id = "t1";
  organization_id = "o1";
  source_type = SourceType.gmail;
  identity_key = "k";
  external_id = none;
  url = some "u";
  title = some "Secret";
  created_at = 0;
  last_seen_at = 0;
}

abbrev by : String → String → ContributorRow
by user version = record {
  tenant_id = "t1";
  source_version_id = version;
  user_id = user;
  created_at = 0;
}

abbrev claim_from : String → ClaimRow ℕ
claim_from version = record {
  id = version;
  tenant_id = "t1";
  organization_id = "o1";
  source_version_id = version;
  field = ClaimField.status;
  value = Json.str "x";
  confidence = 50;
  published_at = none;
  extracted_at = "2026";
  supersedes = [];
  evidence = none;
  temporal_precision = none;
}

abbrev job_for : String → JobRow
job_for user = record {
  id = user;
  tenant_id = "t1";
  type = "connector.sync";
  idempotency_key = user;
  payload = ("userId", Json.str user) ∷ [];
  status = JobStatus.queued;
  priority = 100;
  attempt_count = 0;
  max_attempts = 5;
  available_at = 0;
  leased_until = none;
  leased_by = none;
  last_error = none;
  created_at = 0;
  updated_at = 0;
}

abbrev two_users : Database ℕ
two_users = record {
  users = user_named "ada" ∷ user_named "bob" ∷ [];
  members = member_named "ada" ∷ member_named "bob" ∷ [];
  sessions = [];
  credentials = [];
  contributors = by "ada" "v1" ∷ by "ada" "v2" ∷ by "bob" "v2" ∷ [];
  sources = mailbox ∷ [];
  versions = message "v1" ∷ message "v2" ∷ [];
  claims = claim_from "v1" ∷ claim_from "v2" ∷ [];
  connectors = [];
  overrides = [];
  jobs = job_for "ada" ∷ job_for "bob" ∷ [];
  audits = [];
}

abbrev outcome : AccountErasureResult × Database ℕ
outcome = elim (erase_account digest_of never_like "t1" "ada" "op" zero_clock two_users) [
  | ok pair ↦ pair
  | err e ↦ (empty_erasure, two_users)
]

erasure_goes_through :
    erase_account digest_of never_like "t1" "ada" "op" zero_clock two_users
    ≡ ok (outcome.0, outcome.1)
unfolding privacy_runs
erasure_goes_through = refl

erasure_counts : outcome.0 ≡ record {
  membership_deleted = true;
  identity_deleted = true;
  credentials_deleted = 0;
  sessions_deleted = 0;
  jobs_deleted = 1;
  connector_states_deleted = 0;
  contributions_removed = 2;
  private_source_versions_deleted = 1;
  claims_deleted = 1;
  affected_organization_ids = "o1" ∷ [];
  reconciliation_job_ids = "t1:privacy.reconcile:privacy:ada:op:o1" ∷ [];
}
unfolding privacy_runs
erasure_counts = refl

erase_account-forgets_example :
    IsForgotten never_like "t1" "ada" outcome.1
    × (export_account "t1" "ada" zero_clock outcome.1 ≡ none)
erase_account-forgets_example =
    erase_account-forgets digest_of never_like "t1" "ada" "op" zero_clock zero_clock two_users
      outcome.1 outcome.0 refl erasure_goes_through

erase_account-keeps_shared_example :
    In (message "v2") outcome.1.versions
    × ((claim : ClaimRow ℕ)
        → In claim two_users.claims
        → claim.source_version_id ≡ "v2"
        → In claim outcome.1.claims)
erase_account-keeps_shared_example =
    erase_account-keeps_shared digest_of never_like "t1" "ada" "op" zero_clock two_users outcome.1
      outcome.0 (by "bob" "v2") (message "v2") refl erasure_goes_through (inr (inr (inl refl))) refl
      refl (inr (inl refl)) refl

abbrev ada_v1 : Contributed
ada_v1 = record { contributor = by "ada" "v1"; version = message "v1"; source = mailbox }

ada_contributes :
    In ada_v1
      (contributed (by "ada" "v1" ∷ by "ada" "v2" ∷ []) two_users.versions two_users.sources)
unfolding privacy_runs
ada_contributes = inl refl

erase_account-deletes_private_example :
    (any (is_version "t1" "v1") outcome.1.versions ≡ false)
    × (any (is_version_claim "t1" "v1") outcome.1.claims ≡ false)
erase_account-deletes_private_example =
    erase_account-deletes_private digest_of never_like "t1" "ada" "op" zero_clock two_users
      outcome.1 outcome.0 ada_v1 refl erasure_goes_through ada_contributes refl refl

abbrev closing : OpportunityOverride
closing = record {
  id = "x1";
  tenant_id = "t1";
  opportunity_id = "p1";
  organization_id = "o1";
  actor_id = some "ada";
  patch = record {
    title = none;
    deadline_at = none;
    starts_at = none;
    url = none;
    stale = some true;
  };
  reason = "closed";
  created_at = "2026";
}

abbrev one_organization : OrganizationRow
one_organization = record {
  tenant_id = "t1";
  id = "o1";
  name = "Chess";
  school = "UNC";
  heel_life_url = none;
  website_url = none;
  instagram_handle = none;
  linkedin_url = none;
  created_at = 0;
  updated_at = 0;
}

abbrev no_overrides : Catalog ℕ
no_overrides = record {
  tenants = "t1" ∷ [];
  memberships = [];
  organizations = one_organization ∷ [];
  sources = [];
  versions = [];
  claims = [];
  opportunities = [];
  overrides = [];
  connectors = [];
}

abbrev with_override : Catalog ℕ
with_override = record no_overrides { overrides = new_override "t1" "ada" closing ∷ [] }

stored_override : put_opportunity_override closing (some "t1") no_overrides ≡ ok with_override
unfolding privacy_runs
stored_override = refl

put_opportunity_override-erase_account_example :
    erase_account digest_of never_like "t1" "ada" "op" zero_clock
      (record two_users { overrides = with_override.overrides })
    ≡ err "NOT NULL constraint failed: opportunity_overrides.actor_id"
put_opportunity_override-erase_account_example =
    put_opportunity_override-erase_account digest_of never_like closing "t1" "ada" "op" zero_clock
      no_overrides with_override (record two_users { overrides = with_override.overrides }) refl
      stored_override refl refl
