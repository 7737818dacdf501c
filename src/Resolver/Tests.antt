-- ===== src/Resolver/Tests.antt =====
-- One organization whose deadline is followed by a newer claim, and an event from two sources.
use recruiting_os.Common.{
  ◌≡◌, ◌∷◌, ltb, leb, refl, true, false, inl, In, IsOrderOn, some, none, ok, err, [], String,
  Result, Option, List, Clock, Distinct, ℕ, str_eq, map, arith, insert_by, sort_by, least,
  least_from, null_first, ◌*◌, ◌-◌, ◌/◌, min, max, if◌then◌else◌,
}
use recruiting_os.Domain.{ClaimField, Fields, Json}
use recruiting_os.Catalog.Rows.{Catalog, Claim, ClaimRow, Opportunity, OpportunityKind, Reals}
use recruiting_os.Catalog.Organizations.{get_source, join}
use recruiting_os.Catalog.Claims.{list_claims}
use recruiting_os.Catalog.Opportunities.{
  due, insert_opportunity, list_opportunities, new_opportunity, read_opportunity,
  replace_opportunities, write_opportunities,
}
use recruiting_os.Catalog.Overrides.{list_opportunity_overrides}
use recruiting_os.Resolver.Host.{Host}
use recruiting_os.Resolver.Score.{claim_instant, last_value, score, scores_of}
use recruiting_os.Resolver.Application.{applications, evidence, judge, of_field}
use recruiting_os.Resolver.Events.{events_of, member, override_all, override_first}
use recruiting_os.Resolver.Resolve.{resolve_organization}
use recruiting_os.Resolver.Listed.{resolve_organization-list_opportunities}
use recruiting_os.Resolver.Unique.{event_ids, resolve_organization-Distinct}
use recruiting_os.Resolver.Choice.{AllFinite, IsGreatest, IsJudged, applications_lem}

resolver_runs : Unit {0}
unfolding insert_by sort_by least least_from join get_source list_claims insert_opportunity
    write_opportunities replace_opportunities list_opportunities list_opportunity_overrides
    last_value scores_of judge applications member events_of override_first override_all
    resolve_organization event_ids
resolver_runs = tt

abbrev permille : Reals ℕ
permille = record {
  lit = λ a b. (a * 1000) / b;
  minus = λ a b. a - b;
  times = λ a b. (a * b) / 1000;
  over = λ a b. (a * 1000) / b;
  larger = max;
  smaller = min;
  le = leb;
  lt = ltb;
  is_finite = λ a. true;
}

ltb-IsOrderOn : IsOrderOn permille.is_finite ltb
ltb-IsOrderOn = record { asym = λ a b p q t. ground arith; chain = λ a b c p q r t u. ground arith }

-- The days of the test; other texts are day 0.
abbrev day : String → ℕ
day text =
    if str_eq text "d1"
    then 1000
    else if str_eq text "d2"
    then 2000
    else if str_eq text "d3"
    then 3000
    else 0

abbrev string : Option Json → String
string none = "undefined"
string (some (Json.str s)) = s
string (some (Json.bool true)) = "true"
string (some (Json.bool false)) = "false"
string (some Json.null) = "null"
string (some j) = "?"

abbrev iso : ℕ → String
iso n = "now"

abbrev digest_of : String → String → String
digest_of prefix value = value

abbrev zero_clock : Clock
zero_clock n = 0

abbrev text_of_json : Json → String
text_of_json j = string (some j)

abbrev host : Host ℕ
host = record {
  reals = permille;
  time = day;
  string = string;
  stable_id = digest_of;
  iso = iso;
  json = text_of_json;
  digest = text_of_json;
  number = iso;
  default_tenant = "t1";
}

abbrev claim_row : String → ClaimField → Json → String → ClaimRow ℕ
claim_row id f value at = record {
  id = id;
  tenant_id = "t1";
  organization_id = "o1";
  source_version_id = id;
  field = f;
  value = value;
  confidence = 800;
  published_at = some at;
  extracted_at = at;
  supersedes = [];
  evidence = none;
  temporal_precision = none;
}

abbrev with_claims : List (ClaimRow ℕ) → Catalog ℕ
with_claims claims = record {
  tenants = "t1" ∷ [];
  memberships = [];
  organizations =
      record {
        tenant_id = "t1";
        id = "o1";
        name = "Chess";
        school = "UNC";
        heel_life_url = none;
        website_url = none;
        instagram_handle = none;
        linkedin_url = none;
        created_at = 0;
        updated_at = 0;
      }
      ∷ [];
  sources = [];
  versions = [];
  claims = claims;
  opportunities = [];
  overrides = [];
  connectors = [];
}

abbrev meeting : Json
meeting = Json.obj (
    Fields.field "title" (Json.str "Info night")
      (Fields.field "startsAt" (Json.str "d3") Fields.end))

abbrev reopening : Catalog ℕ
reopening = with_claims (
    claim_row "c1" ClaimField.application_deadline (Json.str "d1") "d1"
    ∷ claim_row "c2" ClaimField.application_open (Json.bool true) "d2"
    ∷ claim_row "c3" ClaimField.event meeting "d2"
    ∷ [])

abbrev outcome : List (Opportunity ℕ) × Catalog ℕ
outcome = elim (resolve_organization host "o1" (some "t1") 2 zero_clock reopening) [
  | ok pair ↦ pair
  | err e ↦ ([], reopening)
]

it_resolves :
    resolve_organization host "o1" (some "t1") 2 zero_clock reopening ≡ ok (outcome.0, outcome.1)
unfolding resolver_runs
it_resolves = refl

resolved_ids :
    map {B = String × Option String} (λ (o : Opportunity ℕ). (o.id, o.deadline_at)) outcome.0
    ≡ ("o1:application", none) ∷ ("o1:event:Info night:d3", none) ∷ []
unfolding resolver_runs
resolved_ids = refl

resolve_organization-list_opportunities_example :
    (list_opportunities "t1" (some "o1") (some "t1") outcome.1
      ≡ map read_opportunity
          (sort_by (λ a b. null_first (due a) (due b)) (map (new_opportunity "t1") outcome.0)))
    × ((other : String)
        → str_eq "o1" other ≡ false
        → str_eq other "" ≡ false
        → list_opportunities "t1" (some other) (some "t1") outcome.1
          ≡ list_opportunities "t1" (some other) (some "t1") reopening)
resolve_organization-list_opportunities_example =
    resolve_organization-list_opportunities host "o1" "t1" 2 zero_clock reopening outcome.1
      outcome.0 it_resolves refl

resolve_organization-Distinct_example :
    Distinct (map (λ (o : Opportunity ℕ). o.id) outcome.0)
    × Distinct (
        event_ids host "o1"
          (of_field ClaimField.event (list_claims "t1" "o1" (some "t1") reopening)))
resolve_organization-Distinct_example =
    resolve_organization-Distinct host "o1" "t1" 2 zero_clock reopening outcome.1 outcome.0
      it_resolves

abbrev twice_reported : Catalog ℕ
twice_reported = with_claims (
    claim_row "c1" ClaimField.event meeting "d1"
    ∷ claim_row "c2" ClaimField.event meeting "d2"
    ∷ [])

abbrev is_refused : Result (String × Catalog ℕ) (List (Opportunity ℕ) × Catalog ℕ) → String
is_refused (ok r) = "resolved"
is_refused (err (e, q)) = e

twice_reported_fails :
    is_refused (resolve_organization host "o1" (some "t1") 2 zero_clock twice_reported)
    ≡ "UNIQUE constraint failed: opportunities.tenant_id, opportunities.id"
unfolding resolver_runs
twice_reported_fails = refl

abbrev claims_of_o1 : List (Claim ℕ)
claims_of_o1 = list_claims "t1" "o1" (some "t1") reopening

abbrev first_application : Opportunity ℕ
first_application =
    elim (applications permille day text_of_json digest_of "o1" [] claims_of_o1 2000 "now") [
      | o ∷ os ↦ o
      | [] ↦ record {
        id = "";
        tenant_id = none;
        organization_id = "";
        kind = OpportunityKind.task;
        title = "";
        deadline_at = none;
        starts_at = none;
        url = none;
        role = none;
        confidence = 0;
        stale = false;
        source_claim_ids = [];
        explanation = "";
        resolved_at = "";
        resolver_version = none;
        deadline_precision = none;
        starts_at_precision = none;
      }
    ]

it_applies :
    In first_application
      (applications permille day text_of_json digest_of "o1" [] claims_of_o1 2000 "now")
unfolding resolver_runs
it_applies = inl refl

finite_scores :
    AllFinite permille
      (λ (c : Claim ℕ). score permille [] (some c))
      (of_field ClaimField.application_deadline claims_of_o1)
unfolding resolver_runs
finite_scores = (refl, tt)

finite_times :
    AllFinite permille
      (claim_instant permille day)
      (of_field ClaimField.application_open claims_of_o1)
unfolding resolver_runs
finite_times = (refl, tt)

applications_lem_example :
    IsGreatest permille
      (λ (c : Claim ℕ). score permille [] (some c))
      (of_field ClaimField.application_deadline claims_of_o1)
      (evidence permille day text_of_json [] claims_of_o1).best_deadline
    × IsGreatest permille
        (claim_instant permille day)
        (of_field ClaimField.application_open claims_of_o1)
        (evidence permille day text_of_json [] claims_of_o1).latest_open
    × IsJudged permille day text_of_json
        (evidence permille day text_of_json [] claims_of_o1)
        2000
        first_application
applications_lem_example =
    applications_lem permille day text_of_json digest_of ltb-IsOrderOn "o1" [] claims_of_o1 2000
      "now" first_application finite_scores finite_times it_applies
