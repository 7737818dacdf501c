-- ===== src/Resolver/Events.antt =====
-- The events of an organization and the reviewed overrides in `resolveOrganization` of
-- src/resolver.ts. The texts of an event are texts, as `EventValue` declares them.
use Prim.Native.String.{◌++◌ as ◌+++◌}
use recruiting_os.Common.{
  ◌∷◌, ◌+◌, truthy, str_eq, some, or_else, none, if◌then◌else◌, false, [], String, Option, List,
  Clock, Bool, ℕ,
}
use recruiting_os.Domain.{Fields, Json, TemporalPrecision}
use recruiting_os.Catalog.Rows.{
  Claim, Opportunity, OpportunityKind, OpportunityOverride, Patch, Reals,
}
use recruiting_os.Resolver.Score.{score}
use recruiting_os.Resolver.Application.{resolver_version}

-- `value.key` of an object.
unfoldable pub member : String → Fields → Option Json
member key Fields.end = none
member key (Fields.field k v rest) = if str_eq k key then some v else member key rest

-- `v && typeof v === 'object'`, with its members; an array has none of those that are read.
abbrev pub object_of : Json → Option Fields
object_of (Json.obj fields) = some fields
object_of (Json.arr items) = some Fields.end
object_of j = none

-- A member that is a text; `null` and a missing one are `undefined`.
abbrev pub text_of : Option Json → Option String
text_of (some (Json.str s)) = some s
text_of j = none

-- The precision of a name. An unknown name, for which the check of the column refuses the row, is
-- read as none here.
abbrev pub precision_named : Option String → Option TemporalPrecision
precision_named none = none
precision_named (some s) =
    if str_eq s "date"
    then some TemporalPrecision.date
    else if str_eq s "date_time"
    then some TemporalPrecision.date_time
    else if str_eq s "relative_inferred"
    then some TemporalPrecision.relative_inferred
    else none

module _ {R : Type 0} (reals : Reals R) (time : String → R) (string : Option Json → String)
    (stable_id : String → String → String) where
  -- `startsAt ? new Date(startsAt).getTime() < now : false`
  abbrev pub has_started : Option String → R → Bool
  has_started none now = false
  has_started (some start) now = reals.lt (time start) now

  -- `String(v.title ?? 'Recruiting event')`
  abbrev pub title_of : Option Json → String
  title_of none = "Recruiting event"
  title_of (some Json.null) = "Recruiting event"
  title_of (some j) = string (some j)

  -- `${orgId}:event:${v.title}:${v.startsAt ?? ''}`
  abbrev pub event_id : String → Fields → String
  event_id organization v = stable_id "opp" (
      organization
      +++ ":event:"
      +++ string (member "title" v)
      +++ ":"
      +++ or_else (text_of (member "startsAt" v)) "")

  abbrev pub event_of : String → List (String × R) → Claim R → Fields → R → String → Opportunity R
  event_of organization scores c v now resolved_at = record {
    id = event_id organization v;
    tenant_id = none;
    organization_id = organization;
    kind = OpportunityKind.event;
    title = title_of (member "title" v);
    deadline_at = none;
    starts_at = text_of (member "startsAt" v);
    url = text_of (member "url" v);
    role = none;
    confidence = score reals scores (some c);
    stale = has_started (truthy (text_of (member "startsAt" v))) now;
    source_claim_ids = c.id ∷ [];
    explanation = "Event extracted from recruiting source.";
    resolved_at = resolved_at;
    resolver_version = some resolver_version;
    deadline_precision = none;
    starts_at_precision = precision_named (text_of (member "startsAtPrecision" v));
  }

  module _ (iso : ℕ → String) where
    -- The loop over the event claims; each opportunity reads the clock.
    unfoldable pub events_of :
        String → List (String × R) → R → Clock → ℕ → List (Claim R) → List (Opportunity R)
    events_of organization scores now clock n [] = []
    events_of organization scores now clock n (c ∷ cs) = elim (object_of c.value) [
      | none ↦ events_of organization scores now clock n cs
      | some v ↦
          event_of organization scores c v now (iso (clock n))
          ∷ events_of organization scores now clock (n + 1) cs
    ]

module _ {R : Type 0} where
  -- `Object.assign(opportunity, override.patch, …)`
  abbrev pub assign : Patch → String → Opportunity R → Opportunity R
  assign p reason o = record o {
    title = or_else p.title o.title;
    deadline_at = or_else p.deadline_at o.deadline_at;
    starts_at = or_else p.starts_at o.starts_at;
    url = or_else p.url o.url;
    stale = or_else p.stale o.stale;
    explanation = o.explanation +++ " Reviewed override: " +++ reason;
    resolver_version = some (resolver_version +++ "+review");
  }

  -- `out.find(…)`, and the opportunity that it gives is changed.
  unfoldable pub override_first : OpportunityOverride → List (Opportunity R) → List (Opportunity R)
  override_first x [] = []
  override_first x (o ∷ os) =
      let rest = override_first x os in
      if str_eq o.id x.opportunity_id then assign x.patch x.reason o ∷ os else o ∷ rest

  unfoldable pub override_all :
      List OpportunityOverride → List (Opportunity R) → List (Opportunity R)
  override_all [] os = os
  override_all (x ∷ xs) os = override_all xs (override_first x os)
