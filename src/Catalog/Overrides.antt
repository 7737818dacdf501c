-- ===== src/Catalog/Overrides.antt =====
-- `putOpportunityOverride` and `listOpportunityOverrides` of src/store.ts.
use recruiting_os.Common.{
  ◌∷◌, ◌++◌, ◌&&◌, truthy, true, text_lt, str_eq, sort_by, some, select_where, or_else, ok, none,
  map, if◌then◌else◌, false, err, any, [], String, Result, Option, List, Bool,
}
use recruiting_os.Catalog.Rows.{Catalog, OpportunityOverride, OverrideRow}
use recruiting_os.Catalog.Organizations.{is_organization}

abbrev pub new_override : String → String → OpportunityOverride → OverrideRow
new_override tenant actor o = record {
  id = o.id;
  tenant_id = tenant;
  opportunity_id = o.opportunity_id;
  organization_id = o.organization_id;
  actor_id = actor;
  patch = o.patch;
  reason = o.reason;
  created_at = o.created_at;
  revoked_at = none;
}

unfoldable pub put_opportunity_override :
    {R : Type 0} → OpportunityOverride → Option String → Catalog R → Result String (Catalog R)
put_opportunity_override o tenant q = elim (truthy o.actor_id) [
  | none ↦ err "Opportunity override actor is required"
  | some actor ↦
      let t = or_else tenant o.tenant_id in
      if any (λ r. str_eq r.id o.id) q.overrides
      then err "UNIQUE constraint failed: opportunity_overrides.id"
      else if any (is_organization t o.organization_id) q.organizations
      then ok (record q { overrides = q.overrides ++ new_override t actor o ∷ [] })
      else err "FOREIGN KEY constraint failed"
]

abbrev pub is_active : String → String → OverrideRow → Bool
is_active tenant organization r =
    str_eq r.tenant_id tenant
    && (str_eq r.organization_id organization && elim r.revoked_at [ none ↦ true | some t ↦ false ])

abbrev pub read_override : OverrideRow → OpportunityOverride
read_override r = record {
  id = r.id;
  tenant_id = r.tenant_id;
  opportunity_id = r.opportunity_id;
  organization_id = r.organization_id;
  actor_id = truthy (some r.actor_id);
  patch = r.patch;
  reason = r.reason;
  created_at = r.created_at;
}

unfoldable pub list_opportunity_overrides :
    {R : Type 0} → String → String → Option String → Catalog R → List OpportunityOverride
list_opportunity_overrides default_tenant organization tenant q = map read_override (
    sort_by (λ (a : OverrideRow) (b : OverrideRow). text_lt a.created_at b.created_at)
      (select_where (is_active (or_else tenant default_tenant) organization) q.overrides))
