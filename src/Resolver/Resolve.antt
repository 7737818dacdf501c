-- ===== src/Resolver/Resolve.antt =====
-- `resolveOrganization` of src/resolver.ts.
use recruiting_os.Common.{◌++◌, ◌+◌, some, ok, length, err, String, Result, Option, List, Clock, ℕ}
use recruiting_os.Domain.{ClaimField}
use recruiting_os.Catalog.Rows.{Catalog, Claim, Opportunity}
use recruiting_os.Catalog.Claims.{list_claims}
use recruiting_os.Catalog.Opportunities.{replace_opportunities}
use recruiting_os.Catalog.Overrides.{list_opportunity_overrides}
use recruiting_os.Resolver.Host.{Host}
use recruiting_os.Resolver.Score.{scores_of}
use recruiting_os.Resolver.Application.{applications, of_field}
use recruiting_os.Resolver.Events.{events_of, override_all}

module _ {R : Type 0} (host : Host R) where
  -- What the resolver makes out of the claims, before the overrides.
  abbrev pub resolved :
      String → Option String → ℕ → Clock → Catalog R → List (Claim R) → List (Opportunity R)
  resolved organization tenant now clock q claims =
      let scores = scores_of host.reals host.time host.default_tenant tenant clock q 0 claims in
      let t = host.reals.lit now 1 in
      applications host.reals host.time (λ j. host.string (some j)) host.stable_id organization
        scores claims t (host.iso (clock (length claims)))
      ++ events_of host.reals host.time host.string host.stable_id host.iso organization scores t
          clock (length claims + 1) (of_field ClaimField.event claims)

  abbrev pub opportunities_of :
      String → Option String → ℕ → Clock → Catalog R → List (Opportunity R)
  opportunities_of organization tenant now clock q =
      override_all (list_opportunity_overrides host.default_tenant organization tenant q) (
        resolved organization tenant now clock q
          (list_claims host.default_tenant organization tenant q))

  unfoldable pub resolve_organization :
      String
      → Option String
      → ℕ
      → Clock
      → Catalog R
      → Result (String × Catalog R) (List (Opportunity R) × Catalog R)
  resolve_organization organization tenant now clock q =
      let out = opportunities_of organization tenant now clock q in
      elim (replace_opportunities host.reals host.default_tenant organization out tenant q) [
        | err e ↦ err e
        | ok q' ↦ ok (out, q')
      ]
