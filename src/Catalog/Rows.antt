-- ===== src/Catalog/Rows.antt =====
-- `Organization`, `Claim`, `Opportunity` and `OpportunityOverride` of src/domain/models.ts, and the
-- tables that hold them (src/store.ts).
use recruiting_os.Common.{if◌then◌else◌, false, String, Option, List, Bool, ℕ}
use recruiting_os.Domain.{Json, Record, ClaimField, TemporalPrecision}
use recruiting_os.Sources.Rows.{SourceRow, VersionRow}

-- What the program uses of floating point numbers; `lit a b` is the literal a / b, `larger` and
-- `smaller` are `Math.max` and `Math.min`, `is_finite` is `Number.isFinite`.
pub record Reals (R : Type 0) : Type 0 where
  pub lit : ℕ → ℕ → R
  pub minus : R → R → R
  pub times : R → R → R
  pub over : R → R → R
  pub larger : R → R → R
  pub smaller : R → R → R
  pub le : R → R → Bool
  pub lt : R → R → Bool
  pub is_finite : R → Bool

pub record Organization : Type 0 where
  pub id : String
  pub tenant_id : Option String
  pub name : String
  pub school : String
  pub heel_life_url : Option String
  pub website_url : Option String
  pub instagram_handle : Option String
  pub linkedin_url : Option String

pub record OrganizationRow : Type 0 where
  pub tenant_id : String
  pub id : String
  pub name : String
  pub school : String
  pub heel_life_url : Option String
  pub website_url : Option String
  pub instagram_handle : Option String
  pub linkedin_url : Option String
  pub created_at : ℕ
  pub updated_at : ℕ

pub record Claim (R : Type 0) : Type 0 where
  pub id : String
  pub tenant_id : Option String
  pub organization_id : String
  pub source_item_id : String
  pub field : ClaimField
  pub value : Json
  pub confidence : R
  pub published_at : Option String
  pub extracted_at : String
  pub evidence : Option String
  pub supersedes : Option (List String)
  pub temporal_precision : Option TemporalPrecision

pub record ClaimRow (R : Type 0) : Type 0 where
  pub id : String
  pub tenant_id : String
  pub organization_id : String
  pub source_version_id : String
  pub field : ClaimField
  pub value : Json
  pub confidence : R
  pub published_at : Option String
  pub extracted_at : String
  pub supersedes : List String
  pub evidence : Option String
  pub temporal_precision : Option TemporalPrecision

pub data OpportunityKind : Type 0 where
  application event task : OpportunityKind

pub record Opportunity (R : Type 0) : Type 0 where
  pub id : String
  pub tenant_id : Option String
  pub organization_id : String
  pub kind : OpportunityKind
  pub title : String
  pub deadline_at : Option String
  pub starts_at : Option String
  pub url : Option String
  pub role : Option String
  pub confidence : R
  pub stale : Bool
  pub source_claim_ids : List String
  pub explanation : String
  pub resolved_at : String
  pub resolver_version : Option String
  pub deadline_precision : Option TemporalPrecision
  pub starts_at_precision : Option TemporalPrecision

-- A row of `opportunities`: the opportunity with the tenant that it stands in.
pub record OpportunityRow (R : Type 0) : Type 0 where
  pub tenant_id : String
  pub opportunity : Opportunity R

-- `Partial<Pick<Opportunity, …>>`: a key that is missing is none.
pub record Patch : Type 0 where
  pub title : Option String
  pub deadline_at : Option (Option String)
  pub starts_at : Option (Option String)
  pub url : Option (Option String)
  pub stale : Option Bool

pub record OpportunityOverride : Type 0 where
  pub id : String
  pub tenant_id : String
  pub opportunity_id : String
  pub organization_id : String
  pub actor_id : Option String
  pub patch : Patch
  pub reason : String
  pub created_at : String

-- A row of `opportunity_overrides`, whose `actor_id` is not null.
pub record OverrideRow : Type 0 where
  pub id : String
  pub tenant_id : String
  pub opportunity_id : String
  pub organization_id : String
  pub actor_id : String
  pub patch : Patch
  pub reason : String
  pub created_at : String
  pub revoked_at : Option String

pub record ConnectorRow : Type 0 where
  pub tenant_id : String
  pub connector : String
  pub scope : String
  pub cursor : Option String
  pub metadata : Record
  pub owner_user_id : Option String
  pub updated_at : ℕ

pub record ConnectorState : Type 0 where
  pub cursor : Option String
  pub metadata : Record

-- The tables of what is known of the organizations; of memberships the keys.
pub record Catalog (R : Type 0) : Type 0 where
  pub tenants : List String
  pub memberships : List (String × String)
  pub organizations : List OrganizationRow
  pub sources : List SourceRow
  pub versions : List VersionRow
  pub claims : List (ClaimRow R)
  pub opportunities : List (OpportunityRow R)
  pub overrides : List OverrideRow
  pub connectors : List ConnectorRow

-- The name that a field has in the database.
abbrev pub field_name : ClaimField → String
field_name ClaimField.application_open = "application_open"
field_name ClaimField.application_deadline = "application_deadline"
field_name ClaimField.application_url = "application_url"
field_name ClaimField.event = "event"
field_name ClaimField.requirement = "requirement"
field_name ClaimField.status = "status"
field_name ClaimField.social_handle = "social_handle"
field_name ClaimField.recruiting_note = "recruiting_note"

-- `check(confidence >= 0 and confidence <= 1)`
abbrev pub is_confidence : {R : Type 0} → Reals R → R → Bool
is_confidence n c = if n.le (n.lit 0 1) c then n.le c (n.lit 1 1) else false
