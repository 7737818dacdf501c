-- ===== src/Resolver/Application.antt =====
-- The application of an organization in `resolveOrganization` of src/resolver.ts. `string` is
-- JavaScript's `String`, `stable_id` the digest behind `stableId`.
use Prim.Native.String.{◌++◌ as ◌+++◌}
use recruiting_os.Common.{
  ◌∷◌, ◌||◌, ◌&&◌, truthy, true, str_eq, some, select_where, not, none, if◌then◌else◌, false, [],
  String, Option, List, Bool,
}
use recruiting_os.Domain.{ClaimField, Json, TemporalPrecision}
use recruiting_os.Catalog.Rows.{Claim, Opportunity, OpportunityKind, Reals, field_name}
use recruiting_os.Resolver.Score.{best, claim_instant, newest, score}

abbrev pub resolver_version : String
resolver_version = "resolver-v2"

-- `claims.filter((c) => c.field === …)`
abbrev pub of_field : {R : Type 0} → ClaimField → List (Claim R) → List (Claim R)
of_field f claims = select_where (λ c. str_eq (field_name c.field) (field_name f)) claims

abbrev pub is_bool : Bool → Json → Bool
is_bool true (Json.bool true) = true
is_bool false (Json.bool false) = true
is_bool b j = false

-- `claim?.value === b`
abbrev pub is_value : {R : Type 0} → Bool → Option (Claim R) → Bool
is_value b none = false
is_value b (some c) = is_bool b c.value

-- `[a?.id, b?.id, c?.id].filter(Boolean)`
abbrev pub known_ids : {R : Type 0} → List (Option (Claim R)) → List String
known_ids [] = []
known_ids (none ∷ rest) = known_ids rest
known_ids (some c ∷ rest) = let ids = known_ids rest in if str_eq c.id "" then ids else c.id ∷ ids

-- The three claims that an application is resolved from.
pub record Evidence (R : Type 0) : Type 0 where
  pub best_deadline : Option (Claim R)
  pub best_url : Option (Claim R)
  pub latest_open : Option (Claim R)

-- What the code makes out of them.
pub record Verdict : Type 0 where
  pub explicitly_closed : Bool
  pub reopened : Bool
  pub stale : Bool

module _ {R : Type 0} (reals : Reals R) (time : String → R) (string : Json → String) where
  abbrev pub evidence : List (String × R) → List (Claim R) → Evidence R
  evidence scores claims = record {
    best_deadline = best reals scores (of_field ClaimField.application_deadline claims);
    best_url = best reals scores (of_field ClaimField.application_url claims);
    latest_open = newest reals time (of_field ClaimField.application_open claims);
  }

  -- `claim ? new Date(…).getTime() : 0`
  abbrev pub instant_or_zero : Option (Claim R) → R
  instant_or_zero none = reals.lit 0 1
  instant_or_zero (some c) = claim_instant reals time c

  -- `String(claim.value)`
  abbrev pub value_text : Option (Claim R) → Option String
  value_text none = none
  value_text (some c) = some (string c.value)

  -- `Number.isFinite(deadlineTime) && deadlineTime < now`, where no deadline is NaN.
  abbrev pub is_past : Option String → R → Bool
  is_past none now = false
  is_past (some deadline) now = reals.is_finite (time deadline) && reals.lt (time deadline) now

  unfoldable pub judge : Evidence R → R → Verdict
  judge e now =
      let opened = instant_or_zero e.latest_open in
      let claimed = instant_or_zero e.best_deadline in
      let closed = is_value false e.latest_open && reals.le claimed opened in
      let reopened = is_value true e.latest_open && reals.lt claimed opened in
      record {
        explicitly_closed = closed;
        reopened = reopened;
        stale = closed || (not reopened && is_past (truthy (value_text e.best_deadline)) now);
      }

  abbrev pub precision_of : Option (Claim R) → Option TemporalPrecision
  precision_of none = none
  precision_of (some c) = c.temporal_precision

  abbrev pub explain : Verdict → String
  explain v =
      if v.reopened
      then "A newer source says applications are open; older deadline suppressed until a current deadline is confirmed."
      else if v.explicitly_closed
      then "The newest authoritative source says applications are closed."
      else if v.stale
      then "The best-supported deadline is in the past."
      else "Resolved from the highest-confidence application claims."

  module _ (stable_id : String → String → String) where
    abbrev pub application_of : String → List (String × R) → Evidence R → R → String → Opportunity R
    application_of organization scores e now resolved_at =
        let v = judge e now in
        record {
          id = stable_id "opp" (organization +++ ":application");
          tenant_id = none;
          organization_id = organization;
          kind = OpportunityKind.application;
          title = "Application";
          deadline_at = if v.reopened then none else value_text e.best_deadline;
          starts_at = none;
          url = value_text e.best_url;
          role = none;
          confidence =
              reals.larger (score reals scores e.best_deadline) (score reals scores e.latest_open);
          stale = v.stale;
          source_claim_ids = known_ids (e.best_deadline ∷ e.best_url ∷ e.latest_open ∷ []);
          explanation = explain v;
          resolved_at = resolved_at;
          resolver_version = some resolver_version;
          deadline_precision = if v.reopened then none else precision_of e.best_deadline;
          starts_at_precision = none;
        }

    -- `if (bestDeadline || latestOpen) out.push(…)`
    unfoldable pub applications :
        String → List (String × R) → List (Claim R) → R → String → List (Opportunity R)
    applications organization scores claims now resolved_at =
        let e = evidence scores claims in
        let one = application_of organization scores e now resolved_at ∷ [] in
        elim e.best_deadline [
          | some c ↦ one
          | none ↦ elim e.latest_open [ some c ↦ one | none ↦ [] ]
        ]
