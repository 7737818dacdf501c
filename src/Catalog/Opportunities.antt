-- ===== src/Catalog/Opportunities.antt =====
-- `replaceOpportunities` and `listOpportunities` of src/store.ts.
use recruiting_os.Common.{
  ◌∷◌, ◌++◌, ◌&&◌, truthy, str_eq, sort_by, some, select_where, or_else, ok, null_first, not, none,
  map, if◌then◌else◌, err, delete_where, any, [], String, Result, Option, List, Bool,
}
use recruiting_os.Catalog.Rows.{
  Catalog, Opportunity, OpportunityRow, OrganizationRow, Reals, is_confidence,
}
use recruiting_os.Catalog.Organizations.{is_organization}

-- `resolverVersion ?? 'resolver-v1'`, and the tenant that the statement gets.
abbrev pub new_opportunity : {R : Type 0} → String → Opportunity R → OpportunityRow R
new_opportunity tenant o = record {
  tenant_id = or_else o.tenant_id tenant;
  opportunity = record o {
    tenant_id = some (or_else o.tenant_id tenant);
    resolver_version = some (or_else o.resolver_version "resolver-v1");
  };
}

abbrev pub is_opportunity_of : {R : Type 0} → String → String → OpportunityRow R → Bool
is_opportunity_of tenant organization r =
    str_eq r.tenant_id tenant && str_eq r.opportunity.organization_id organization

-- `primary key (tenant_id, id)`
abbrev pub is_opportunity : {R : Type 0} → String → String → OpportunityRow R → Bool
is_opportunity tenant id r = str_eq r.tenant_id tenant && str_eq r.opportunity.id id

module _ {R : Type 0} (reals : Reals R) where
  unfoldable pub insert_opportunity :
      List OrganizationRow
      → OpportunityRow R
      → List (OpportunityRow R)
      → Result String (List (OpportunityRow R))
  insert_opportunity organizations r rows =
      if not (is_confidence reals r.opportunity.confidence)
      then err "CHECK constraint failed: confidence >= 0 and confidence <= 1"
      else if any (is_opportunity r.tenant_id r.opportunity.id) rows
      then err "UNIQUE constraint failed: opportunities.tenant_id, opportunities.id"
      else if any (is_organization r.tenant_id r.opportunity.organization_id) organizations
      then ok (rows ++ r ∷ [])
      else err "FOREIGN KEY constraint failed"

  -- The loop. Outside a transaction the rows before the one that fails stay.
  unfoldable pub write_opportunities :
      String
      → List OrganizationRow
      → List (Opportunity R)
      → List (OpportunityRow R)
      → Result (String × List (OpportunityRow R)) (List (OpportunityRow R))
  write_opportunities tenant organizations [] rows = ok rows
  write_opportunities tenant organizations (o ∷ os) rows =
      elim (insert_opportunity organizations (new_opportunity tenant o) rows) [
        | err e ↦ err (e, rows)
        | ok rows' ↦ write_opportunities tenant organizations os rows'
      ]

  unfoldable pub replace_opportunities :
      String
      → String
      → List (Opportunity R)
      → Option String
      → Catalog R
      → Result (String × Catalog R) (Catalog R)
  replace_opportunities default_tenant organization os tenant q =
      let t = or_else tenant default_tenant in
      elim (write_opportunities t q.organizations os
        (delete_where (is_opportunity_of t organization) q.opportunities)) [
          | err (e, rows) ↦ err (e, record q { opportunities = rows })
          | ok rows ↦ ok (record q { opportunities = rows })
        ]

module _ {R : Type 0} where
  abbrev pub read_opportunity : OpportunityRow R → Opportunity R
  read_opportunity r = record r.opportunity {
    tenant_id = some r.tenant_id;
    deadline_at = truthy r.opportunity.deadline_at;
    starts_at = truthy r.opportunity.starts_at;
    url = truthy r.opportunity.url;
    role = truthy r.opportunity.role;
  }

  -- `coalesce(deadline_at,starts_at)`
  abbrev pub due : OpportunityRow R → Option String
  due r = elim r.opportunity.deadline_at [ none ↦ r.opportunity.starts_at | some t ↦ some t ]

  -- An organization that is missing or empty lists the whole tenant.
  abbrev pub is_listed : String → Option String → OpportunityRow R → Bool
  is_listed tenant none r = str_eq r.tenant_id tenant
  is_listed tenant (some organization) r = is_opportunity_of tenant organization r

  unfoldable pub list_opportunities :
      String → Option String → Option String → Catalog R → List (Opportunity R)
  list_opportunities default_tenant organization tenant q = map read_opportunity (
      sort_by (λ (a : OpportunityRow R) (b : OpportunityRow R). null_first (due a) (due b))
        (select_where (is_listed (or_else tenant default_tenant) (truthy organization))
          q.opportunities))
