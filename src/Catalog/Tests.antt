-- ===== src/Catalog/Tests.antt =====
-- One organization with its claims, opportunities and connector, on whole percents.
use Prim.Native.Nat.{◌/◌}
use recruiting_os.Common.{
  max, min, ltb, ◌≡◌, ◌∷◌, ◌*◌, ◌-◌, leb, some, refl, ok, none, err, [], String, Clock, ℕ, true,
  false, map, insert_by, sort_by, upsert_where, null_first, str_eq, ◌&&◌, least, least_from,
}
use recruiting_os.Domain.{ClaimField, Json, SourceType, SourceVersionStatus}
use recruiting_os.Sources.Rows.{VersionRow, SourceRow}
use recruiting_os.Queue.Enqueue.{ensure_tenant}
use recruiting_os.Catalog.Rows.{
  Catalog, Claim, ClaimRow, Opportunity, OpportunityKind, OpportunityOverride, Organization, Reals,
}
use recruiting_os.Catalog.Organizations.{
  find_organization, get_source, join, list_organizations, upsert_organization, write_organization,
  get_organization, new_organization,
}
use recruiting_os.Catalog.Claims.{put_claim, write_claims, put_claims, list_claims}
use recruiting_os.Catalog.Opportunities.{
  insert_opportunity, write_opportunities, replace_opportunities, list_opportunities,
  read_opportunity, new_opportunity, due,
}
use recruiting_os.Catalog.Overrides.{put_opportunity_override, list_opportunity_overrides}
use recruiting_os.Catalog.Connectors.{
  write_connector, read_connector, set_connector_state, get_connector_state,
}
use recruiting_os.Catalog.Known.{known_organization, upsert_organization-get_organization}
use recruiting_os.Catalog.Cursors.{set_connector_state-get}
use recruiting_os.Catalog.Merged.{record_claims}
use recruiting_os.Catalog.Replaced.{replace_opportunities-list}

catalog_runs : Unit {0}
unfolding insert_by sort_by upsert_where ensure_tenant write_organization find_organization join
    list_organizations get_source put_claim write_claims put_claims list_claims insert_opportunity
    write_opportunities replace_opportunities list_opportunities put_opportunity_override
    list_opportunity_overrides write_connector read_connector set_connector_state least least_from
    record_claims
catalog_runs = tt

abbrev percent : Reals ℕ
percent = record {
  lit = λ a b. (a * 100) / b;
  minus = λ a b. a - b;
  times = λ a b. (a * b) / 100;
  over = λ a b. (a * 100) / b;
  larger = max;
  smaller = min;
  le = leb;
  lt = ltb;
  is_finite = λ a. true;
}

abbrev json_text : Json → String
json_text (Json.bool true) = "true"
json_text (Json.bool false) = "false"
json_text (Json.str s) = s
json_text j = "?"

abbrev chess : Organization
chess = record {
  id = "o1";
  tenant_id = none;
  name = "Chess";
  school = "UNC";
  heel_life_url = none;
  website_url = some "w";
  instagram_handle = none;
  linkedin_url = none;
}

abbrev one_version : VersionRow
one_version = record {
  id = "v1";
  source_id = "s1";
  tenant_id = "t1";
  organization_id = "o1";
  content_hash = "h";
  raw_text = "text";
  media = [];
  published_at = none;
  fetched_at = "2026";
  metadata = [];
  status = SourceVersionStatus.succeeded;
  attempt_count = 1;
  next_attempt_at = none;
  last_error = none;
  started_at = none;
  completed_at = none;
  created_at = 0;
}

abbrev one_source : SourceRow
one_source = record {
  id = "s1";
  tenant_id = "t1";
  organization_id = "o1";
  source_type = SourceType.website;
  identity_key = "k";
  external_id = none;
  url = some "";
  title = none;
  created_at = 0;
  last_seen_at = 0;
}

abbrev one_organization : Catalog ℕ
one_organization = record {
  tenants = "t1" ∷ [];
  memberships = [];
  organizations = new_organization "t1" chess 5 ∷ [];
  sources = one_source ∷ [];
  versions = one_version ∷ [];
  claims = [];
  opportunities = [];
  overrides = [];
  connectors = [];
}

abbrev zero_clock : Clock
zero_clock n = 0

abbrev open_claim : String → ℕ → Claim ℕ
open_claim id confidence = record {
  id = id;
  tenant_id = none;
  organization_id = "o1";
  source_item_id = "v1";
  field = ClaimField.application_open;
  value = Json.bool true;
  confidence = confidence;
  published_at = none;
  extracted_at = "2026";
  evidence = none;
  supersedes = none;
  temporal_precision = none;
}

abbrev open_row : ClaimRow ℕ
open_row = record {
  id = "c1";
  tenant_id = "t1";
  organization_id = "o1";
  source_version_id = "v1";
  field = ClaimField.application_open;
  value = Json.bool true;
  confidence = 70;
  published_at = none;
  extracted_at = "2026";
  supersedes = [];
  evidence = none;
  temporal_precision = none;
}

too_sure :
    put_claims percent json_text "t1"
      (open_claim "c1" 70 ∷ open_claim "c2" 101 ∷ [])
      none
      one_organization
    ≡ err (
      "CHECK constraint failed: confidence >= 0 and confidence <= 1",
      record one_organization { claims = open_row ∷ [] },
    )
unfolding catalog_runs
too_sure = refl

abbrev application : Opportunity ℕ
application = record {
  id = "p1";
  tenant_id = none;
  organization_id = "o1";
  kind = OpportunityKind.application;
  title = "Application";
  deadline_at = some "2026";
  starts_at = none;
  url = none;
  role = none;
  confidence = 50;
  stale = false;
  source_claim_ids = [];
  explanation = "because";
  resolved_at = "2026";
  resolver_version = none;
  deadline_precision = none;
  starts_at_precision = none;
}

abbrev one_opportunity : Catalog ℕ
one_opportunity = record one_organization { opportunities = new_opportunity "t1" application ∷ [] }

replaced_once :
    replace_opportunities percent "t1" "o1" (application ∷ []) (some "t1") one_opportunity
    ≡ ok one_opportunity
unfolding catalog_runs
replaced_once = refl

replace_opportunities-list_example :
    (list_opportunities "t1" (some "o1") (some "t1") one_opportunity
      ≡ map read_opportunity (
          sort_by
            (λ a b. null_first (due a) (due b))
            (map (new_opportunity "t1") (application ∷ []))))
    × ((other : String)
        → str_eq "o1" other ≡ false
        → str_eq other "" ≡ false
        → list_opportunities "t1" (some other) (some "t1") one_opportunity
          ≡ list_opportunities "t1" (some other) (some "t1") one_opportunity)
replace_opportunities-list_example =
    replace_opportunities-list percent "t1" "o1" "t1" (application ∷ []) one_opportunity
      one_opportunity replaced_once ((refl, refl), tt) refl

abbrev nameless : OpportunityOverride
nameless = record {
  id = "x1";
  tenant_id = "t1";
  opportunity_id = "p1";
  organization_id = "o1";
  actor_id = some "";
  patch = record {
    title = none;
    deadline_at = none;
    starts_at = none;
    url = none;
    stale = some true;
  };
  reason = "closed";
  created_at = "2026";
}

no_actor :
    put_opportunity_override nameless none one_opportunity
    ≡ err "Opportunity override actor is required"
unfolding catalog_runs
no_actor = refl

abbrev with_cursor : Catalog ℕ
with_cursor = record one_organization {
  connectors =
      record {
        tenant_id = "t1";
        connector = "gmail";
        scope = "u1";
        cursor = some "9";
        metadata = [];
        owner_user_id = none;
        updated_at = 0;
      }
      ∷ [];
}

stored_cursor :
    set_connector_state "t1" "gmail" "u1" (some "9") none none none zero_clock one_organization
    ≡ ok with_cursor
unfolding catalog_runs
stored_cursor = refl

set_connector_state-get_example :
    (get_connector_state "t1" "gmail" "u1" none with_cursor
      ≡ record { cursor = some "9"; metadata = [] })
    × ((t c s : String)
        → (str_eq "t1" t && (str_eq "gmail" c && str_eq "u1" s)) ≡ false
        → get_connector_state "t1" c s (some t) with_cursor
          ≡ get_connector_state "t1" c s (some t) one_organization)
set_connector_state-get_example =
    set_connector_state-get "t1" "gmail" "u1" (some "9") none none none zero_clock one_organization
      with_cursor stored_cursor

abbrev renamed : Organization
renamed = record chess { name = "Chess Club"; website_url = none; linkedin_url = some "l" }

upsert_organization-get_organization_example :
    (get_organization "t1" "o1"
        (some "t1")
        (upsert_organization "t1" renamed none zero_clock one_organization)
      ≡ some (
          known_organization "t1" renamed
            (get_organization "t1" "o1" (some "t1") one_organization)))
    × ((other id : String)
        → (str_eq "t1" other && str_eq "o1" id) ≡ false
        → get_organization "t1" id
            (some other)
            (upsert_organization "t1" renamed none zero_clock one_organization)
          ≡ get_organization "t1" id (some other) one_organization)
upsert_organization-get_organization_example =
    upsert_organization-get_organization "t1" renamed none zero_clock one_organization

renamed_lists :
    list_organizations "t1" none (upsert_organization "t1" renamed none zero_clock one_organization)
    ≡ record renamed { tenant_id = some "t1"; website_url = some "w" } ∷ []
unfolding catalog_runs
renamed_lists = refl
