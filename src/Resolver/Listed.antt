-- ===== src/Resolver/Listed.antt =====
-- What `resolveOrganization` of src/resolver.ts returns is what `listOpportunities` of src/store.ts
-- lists.
use recruiting_os.Common.{
  ◌≡◌, ◌∙◌, ◌∷◌, ◌+◌, [], sym, ap, subst, refl, inl, inr, false, str_eq, some, map, All, All-append,
  Bool-cases, Option-cases, sort_by, null_first, Result-cases, ok, ok_value, String, Option, List,
  Clock, ℕ,
}
use recruiting_os.Domain.{Json}
use recruiting_os.Catalog.Rows.{Catalog, Claim, Opportunity, OpportunityOverride, Reals}
use recruiting_os.Catalog.Opportunities.{
  due, list_opportunities, new_opportunity, read_opportunity, replace_opportunities,
}
use recruiting_os.Catalog.Overrides.{list_opportunity_overrides}
use recruiting_os.Catalog.Replaced.{IsOf, replace_opportunities-list}
use recruiting_os.Resolver.Host.{Host}
use recruiting_os.Resolver.Application.{applications, evidence}
use recruiting_os.Resolver.Events.{events_of, object_of, override_all, override_first}
use recruiting_os.Resolver.Resolve.{opportunities_of, resolve_organization}

module _ {R : Type 0} (reals : Reals R) (time : String → R) (organization : String) where
  applications-IsOf :
      (string : Json → String) (stable_id : String → String → String) (scores : List (String × R))
      (claims : List (Claim R)) (now : R) (at : String)
      → All
          (IsOf organization)
          (applications reals time string stable_id organization scores claims now at)
  unfolding applications
  applications-IsOf string stable_id scores claims now at =
      let e = evidence reals time string scores claims in
      elim (Option-cases e.best_deadline) [
        | inr (c, u) ↦ rw (u, applications) ((refl, refl), tt)
        | inl u ↦ elim (Option-cases e.latest_open) [
          | inr (c, v) ↦ rw (u, v, applications) ((refl, refl), tt)
          | inl v ↦ rw (u, v, applications) tt
        ]
      ]

  events_of-IsOf :
      (string : Option Json → String) (stable_id : String → String → String) (iso : ℕ → String)
      (scores : List (String × R)) (now : R) (clock : Clock) (n : ℕ) (claims : List (Claim R))
      → All
          (IsOf organization)
          (events_of reals time string stable_id iso organization scores now clock n claims)
  unfolding events_of
  events_of-IsOf string stable_id iso scores now clock n [] = tt
  events_of-IsOf string stable_id iso scores now clock n (c ∷ cs) =
      elim (Option-cases (object_of c.value)) [
        | inl u ↦ rw (u, events_of) (events_of-IsOf string stable_id iso scores now clock n cs)
        | inr (v, u) ↦
            rw (u, events_of)
              ((refl, refl), events_of-IsOf string stable_id iso scores now clock (n + 1) cs)
      ]

override_first-IsOf :
    {R : Type 0} (organization : String) (x : OpportunityOverride) (os : List (Opportunity R))
    → All (IsOf organization) os
    → All (IsOf organization) (override_first x os)
unfolding override_first
override_first-IsOf organization x [] h = tt
override_first-IsOf organization x (o ∷ os) h = elim (Bool-cases (str_eq o.id x.opportunity_id)) [
  | inl t ↦ rw (t, override_first) (h.0, h.1)
  | inr t ↦ rw (t, override_first) (h.0, override_first-IsOf organization x os h.1)
]

override_all-IsOf :
    {R : Type 0} (organization : String) (xs : List OpportunityOverride) (os : List (Opportunity R))
    → All (IsOf organization) os
    → All (IsOf organization) (override_all xs os)
unfolding override_all
override_all-IsOf organization [] os h = h
override_all-IsOf organization (x ∷ xs) os h =
    override_all-IsOf organization xs (override_first x os)
      (override_first-IsOf organization x os h)

module _ {R : Type 0} (host : Host R) where
  pub opportunities_of-IsOf :
      (organization : String) (tenant : Option String) (now : ℕ) (clock : Clock) (q : Catalog R)
      → All (IsOf organization) (opportunities_of host organization tenant now clock q)
  opportunities_of-IsOf organization tenant now clock q =
      override_all-IsOf organization
        (list_opportunity_overrides host.default_tenant organization tenant q) _
        (All-append (IsOf organization) _ _
          (applications-IsOf host.reals host.time organization (λ j. host.string (some j))
            host.stable_id _ _ _ _)
          (events_of-IsOf host.reals host.time organization host.string host.stable_id host.iso _ _
            _ _ _))

  pub resolve_organization-ok :
      (organization : String) (tenant : Option String) (now : ℕ) (clock : Clock) (q q' : Catalog R)
      (out : List (Opportunity R))
      → resolve_organization host organization tenant now clock q ≡ ok (out, q')
      → (out ≡ opportunities_of host organization tenant now clock q)
        × (replace_opportunities host.reals host.default_tenant organization out tenant q ≡ ok q')
  unfolding resolve_organization
  resolve_organization-ok organization tenant now clock q q' out e =
      let os = opportunities_of host organization tenant now clock q in
      elim (Result-cases
        (replace_opportunities host.reals host.default_tenant organization os tenant q)) [
          | inl (m, u) ↦ absurd (cc (rw (u, resolve_organization) at e))
          | inr (q1, u) ↦
              let k = ok_value (os, q1) (out, q') (rw (u, resolve_organization) at e) in
              let same = ap (λ (p : List (Opportunity R) × Catalog R). p.0) k in
              (
                sym same,
                subst
                    (λ os'.
                      replace_opportunities host.reals host.default_tenant organization os' tenant q
                      ≡ ok q')
                    same (u ∙ ap (λ (p : List (Opportunity R) × Catalog R). ok p.1) k),
              )
        ]

-- When `resolveOrganization` goes through for an organization with a non-empty id,
-- `listOpportunities` lists exactly what it returned for the organization, each once and in the order
-- of their dates, and for every other organization of the tenant what it listed before.
pub resolve_organization-list_opportunities :
    {R : Type 0} (host : Host R) (organization tenant : String) (now : ℕ) (clock : Clock)
    (q q' : Catalog R) (out : List (Opportunity R))
    → resolve_organization host organization (some tenant) now clock q ≡ ok (out, q')
    → str_eq organization "" ≡ false
    → (list_opportunities host.default_tenant (some organization) (some tenant) q'
        ≡ map read_opportunity
            (sort_by (λ a b. null_first (due a) (due b)) (map (new_opportunity tenant) out)))
      × ((other : String)
          → str_eq organization other ≡ false
          → str_eq other "" ≡ false
          → list_opportunities host.default_tenant (some other) (some tenant) q'
            ≡ list_opportunities host.default_tenant (some other) (some tenant) q)
resolve_organization-list_opportunities host organization tenant now clock q q' out e n =
    let (same, stored) =
      resolve_organization-ok host organization (some tenant) now clock q q' out e in
    replace_opportunities-list host.reals host.default_tenant organization tenant out q q' stored
      (subst (All (IsOf organization)) (sym same)
        (opportunities_of-IsOf host organization (some tenant) now clock q))
      n
