-- ===== src/Ingestion/Tests.antt =====
-- One page that is ingested, with an extractor that finds one claim and one that throws.
use recruiting_os.Common.{
  ◌≡◌, ◌≤◌, ◌&&◌, ◌∷◌, ◌*◌, ◌-◌, ◌/◌, ltb, leb, min, max, refl, true, false, some, none, ok, err,
  [], length, map, String, Result, Option, List, ℕ, insert_by, sort_by, least, least_from,
}
use recruiting_os.Domain.{ClaimField, Json, SourceType, SourceVersionStatus}
use recruiting_os.Queue.Settle.{slice_start, retry_delay}
use recruiting_os.Sources.Rows.{SourceItem, fields_of, media_items, VersionRow}
use recruiting_os.Sources.Stage.{
  add_contributor, claim_version, insert_version, stage_source, upsert_source, write_source,
}
use recruiting_os.Sources.Settle.{mark_source_failed, mark_source_processing, mark_source_succeeded}
use recruiting_os.Catalog.Rows.{OrganizationRow, Reals}
use recruiting_os.Catalog.Organizations.{get_source, join}
use recruiting_os.Catalog.Claims.{list_claims, put_claim, put_claims, write_claims}
use recruiting_os.Catalog.Opportunities.{
  insert_opportunity, replace_opportunities, write_opportunities,
}
use recruiting_os.Catalog.Overrides.{list_opportunity_overrides}
use recruiting_os.Privacy.Erase.{distinct_by}
use recruiting_os.Resolver.Score.{last_value, scores_of}
use recruiting_os.Resolver.Application.{applications, judge}
use recruiting_os.Resolver.Events.{events_of, member, override_all, override_first}
use recruiting_os.Resolver.Resolve.{resolve_organization}
use recruiting_os.Resolver.Host.{Host}
use recruiting_os.Ingestion.Source.{
  Clocks, ExtractionResult, IngestResult, Store, attempt_source, claims_of, ingest_source, process,
  settle_failure, store_claims,
}
use recruiting_os.Ingestion.Links.{
  UrlKind, follow_candidate, follow_candidates, follow_pages, ingest,
}
use recruiting_os.Ingestion.Outcome.{Outcome, ingest_source-Outcome}
use recruiting_os.Ingestion.Bounds.{length-ingest}

ingestion_runs : Unit {0}
unfolding insert_by sort_by least least_from slice_start retry_delay fields_of media_items
    upsert_source insert_version add_contributor claim_version write_source stage_source
    mark_source_processing mark_source_succeeded mark_source_failed join get_source put_claim
    write_claims put_claims list_claims insert_opportunity write_opportunities replace_opportunities
    list_opportunity_overrides distinct_by last_value scores_of judge applications member events_of
    override_first override_all resolve_organization claims_of store_claims process settle_failure
    attempt_source ingest_source follow_pages follow_candidate follow_candidates ingest
ingestion_runs = tt

abbrev permille : Reals ℕ
permille = record {
  lit = λ a b. (a * 1000) / b;
  minus = λ a b. a - b;
  times = λ a b. (a * b) / 1000;
  over = λ a b. (a * 1000) / b;
  larger = max;
  smaller = min;
  le = leb;
  lt = ltb;
  is_finite = λ a. true;
}

abbrev day : String → ℕ
day text = 0

abbrev shown : Option Json → String
shown (some (Json.str s)) = s
shown j = "?"

abbrev json_text : Json → String
json_text j = "?"

abbrev iso : ℕ → String
iso n = "now"

abbrev number : ℕ → String
number n = "0"

abbrev digest_of : String → String → String
digest_of prefix value = prefix

abbrev digest_json : Json → String
digest_json j = "hash"

abbrev host : Host ℕ
host = record {
  reals = permille;
  time = day;
  string = shown;
  stable_id = digest_of;
  iso = iso;
  json = json_text;
  digest = digest_json;
  number = number;
  default_tenant = "t1";
}

abbrev five_clocks : Clocks
five_clocks k n = 5

abbrev page : SourceItem
page = record {
  id = "p1";
  tenant_id = some "t1";
  contributor_user_id = none;
  organization_id = "o1";
  source_type = SourceType.website;
  external_id = none;
  url = some "https://chess.example";
  title = none;
  raw_text = "Apply by Friday";
  media = [];
  published_at = none;
  fetched_at = "2026";
  metadata = none;
}

abbrev chess : OrganizationRow
chess = record {
  tenant_id = "t1";
  id = "o1";
  name = "Chess";
  school = "UNC";
  heel_life_url = none;
  website_url = none;
  instagram_handle = none;
  linkedin_url = none;
  created_at = 0;
  updated_at = 0;
}

abbrev empty_store : Store ℕ
empty_store = record {
  sources = record {
    organizations = ("t1", "o1") ∷ [];
    memberships = [];
    sources = [];
    versions = [];
    contributors = [];
  };
  catalog = record {
    tenants = "t1" ∷ [];
    memberships = [];
    organizations = chess ∷ [];
    sources = [];
    versions = [];
    claims = [];
    opportunities = [];
    overrides = [];
    connectors = [];
  };
}

abbrev finds : SourceItem → Result String (ExtractionResult ℕ)
finds source = ok (record {
  claims =
      record {
        field = ClaimField.application_deadline;
        value = Json.str "Friday";
        confidence = 900;
        evidence = none;
        temporal_precision = none;
      }
      ∷ [];
  discovered_urls = "a" ∷ "b" ∷ "a" ∷ [];
})

abbrev throws : SourceItem → Result String (ExtractionResult ℕ)
throws source = err "no model"

abbrev ingested :
    (SourceItem → Result String (ExtractionResult ℕ))
    → Result String (IngestResult × List String) × Store ℕ
ingested extract = ingest_source host extract page five_clocks empty_store

abbrev statuses : Store ℕ → List (SourceVersionStatus × ℕ)
statuses s =
    map {B = SourceVersionStatus × ℕ} (λ (v : VersionRow). (v.status, v.attempt_count))
      s.sources.versions

it_succeeds : statuses (ingested finds).1 ≡ (SourceVersionStatus.succeeded, 1) ∷ []
unfolding ingestion_runs
it_succeeds = refl

it_fails : statuses (ingested throws).1 ≡ (SourceVersionStatus.retryable_failed, 1) ∷ []
unfolding ingestion_runs
it_fails = refl

ingest_source-Outcome_example : Outcome host finds page five_clocks empty_store (ingested finds)
ingest_source-Outcome_example = ingest_source-Outcome host finds page five_clocks empty_store

abbrev kind_of : String → UrlKind
kind_of url = UrlKind.website

abbrev fetched_page : String → String → Result String (SourceItem × List String)
fetched_page organization url = ok (record page { url = some url }, [])

abbrev with_links : Result String IngestResult × (List String × Store ℕ)
with_links = ingest host finds kind_of fetched_page page true 2 (λ n. five_clocks) empty_store

two_links : with_links.1.0 ≡ "b" ∷ "a" ∷ []
unfolding ingestion_runs
two_links = refl

length-ingest_example :
    (length with_links.1.0 ≤ 132) × ((true && ltb 0 2) ≡ false → with_links.1.0 ≡ [])
length-ingest_example =
    length-ingest host finds kind_of fetched_page page true 2 (λ n. five_clocks) empty_store
