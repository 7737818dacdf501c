-- ===== src/Resolver/Unique.antt =====
-- The ids of the opportunities that `resolveOrganization` of src/resolver.ts stores.
use recruiting_os.Common.{
  ◌≡◌, ◌∙◌, ◌∷◌, ◌++◌, ◌+◌, [], sym, ap, subst, refl, inl, inr, str_eq, some, none, map, All,
  Distinct, Bool-cases, Option-cases, ok, String, List, Clock, ℕ, length,
}
use recruiting_os.Domain.{ClaimField}
use recruiting_os.Catalog.Rows.{Catalog, Claim, Opportunity, OpportunityOverride}
use recruiting_os.Catalog.Claims.{list_claims}
use recruiting_os.Catalog.Overrides.{list_opportunity_overrides}
use recruiting_os.Catalog.Replaced.{IsOf}
use recruiting_os.Resolver.Score.{scores_of}
use recruiting_os.Resolver.Host.{Host}
use recruiting_os.Resolver.Application.{applications, of_field}
use recruiting_os.Resolver.Events.{event_id, events_of, object_of, override_all, override_first}
use recruiting_os.Resolver.Resolve.{resolve_organization}
use recruiting_os.Resolver.Listed.{opportunities_of-IsOf, resolve_organization-ok}
use recruiting_os.Catalog.Apart.{
  Distinct-append_right, map_append, opportunity_id, replace_opportunities-written,
  write_opportunities-Distinct,
}

override_first-ids :
    {R : Type 0} (x : OpportunityOverride) (os : List (Opportunity R))
    → map opportunity_id (override_first x os) ≡ map opportunity_id os
unfolding override_first
override_first-ids x [] = refl
override_first-ids x (o ∷ os) = elim (Bool-cases (str_eq o.id x.opportunity_id)) [
  | inl t ↦ rw (t, override_first) refl
  | inr t ↦ rw (t, override_first) (ap (λ k. o.id ∷ k) (override_first-ids x os))
]

override_all-ids :
    {R : Type 0} (xs : List OpportunityOverride) (os : List (Opportunity R))
    → map opportunity_id (override_all xs os) ≡ map opportunity_id os
unfolding override_all
override_all-ids [] os = refl
override_all-ids (x ∷ xs) os = override_all-ids xs (override_first x os) ∙ override_first-ids x os

All-tenant :
    {R : Type 0} (organization : String) (os : List (Opportunity R))
    → All (IsOf organization) os
    → All (λ o. o.tenant_id ≡ none) os
All-tenant organization [] h = tt
All-tenant organization (o ∷ os) h = (h.0.1, All-tenant organization os h.1)

module _ {R : Type 0} (host : Host R) (organization : String) where
  -- The ids that the events of the claims have: by the title and the start of each event.
  unfoldable pub event_ids : List (Claim R) → List String
  event_ids [] = []
  event_ids (c ∷ cs) = elim (object_of c.value) [
    | none ↦ event_ids cs
    | some v ↦
        event_id host.reals host.time host.string host.stable_id organization v ∷ event_ids cs
  ]

  events_of-ids :
      (scores : List (String × R)) (now : R) (clock : Clock) (n : ℕ) (claims : List (Claim R))
      → map opportunity_id (
          events_of host.reals host.time host.string host.stable_id host.iso organization scores now
            clock n claims)
        ≡ event_ids claims
  unfolding events_of event_ids
  events_of-ids scores now clock n [] = refl
  events_of-ids scores now clock n (c ∷ cs) = elim (Option-cases (object_of c.value)) [
    | inl u ↦ rw (u, events_of, event_ids) (events_of-ids scores now clock n cs)
    | inr (v, u) ↦
        rw (u, events_of, event_ids)
          (ap (λ k. event_id host.reals host.time host.string host.stable_id organization v ∷ k)
            (events_of-ids scores now clock (n + 1) cs))
  ]

  module _ (tenant : String) (now : ℕ) (clock : Clock) where
    opportunities_of-Distinct :
        (q q' : Catalog R) (out : List (Opportunity R))
        → resolve_organization host organization (some tenant) now clock q ≡ ok (out, q')
        → Distinct (map opportunity_id out)
    opportunities_of-Distinct q q' out e =
        let (same, stored) =
          resolve_organization-ok host organization (some tenant) now clock q q' out e in
        let (rows, written) =
          replace_opportunities-written host.reals host.default_tenant organization out
            (some tenant) q q' stored in
        write_opportunities-Distinct host.reals tenant q.organizations out _ rows written (
          subst (All (λ o. o.tenant_id ≡ none)) (sym same) (
            All-tenant organization _
              (opportunities_of-IsOf host organization (some tenant) now clock q)))

    -- When `resolveOrganization` goes through, the opportunities that it returned have distinct ids,
    -- and so are the ids that the titles and starts of the organization's event claims give: it does
    -- not go through while two claims report one event.
    pub resolve_organization-Distinct :
        (q q' : Catalog R) (out : List (Opportunity R))
        → resolve_organization host organization (some tenant) now clock q ≡ ok (out, q')
        → Distinct (map opportunity_id out)
          × Distinct (
              event_ids (
                of_field ClaimField.event
                  (list_claims host.default_tenant organization (some tenant) q)))
    resolve_organization-Distinct q q' out e =
        let d = opportunities_of-Distinct q q' out e in
        let (same, stored) =
          resolve_organization-ok host organization (some tenant) now clock q q' out e in
        let claims = list_claims host.default_tenant organization (some tenant) q in
        (
          d,
          Distinct-append_right _ _ (
              subst Distinct
                (ap (map opportunity_id) same
                  ∙ override_all-ids
                      (list_opportunity_overrides host.default_tenant organization (some tenant) q)
                      _
                  ∙ map_append opportunity_id _ _
                  ∙ ap
                      (λ k.
                        map opportunity_id (
                          applications host.reals host.time (λ j. host.string (some j))
                            host.stable_id organization
                            (scores_of host.reals host.time host.default_tenant (some tenant) clock
                              q 0 claims)
                            claims (host.reals.lit now 1) (host.iso (clock (length claims))))
                        ++ k)
                      (events_of-ids _ _ clock (length claims + 1)
                        (of_field ClaimField.event claims)))
                d),
        )
