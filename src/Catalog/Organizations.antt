-- ===== src/Catalog/Organizations.antt =====
-- `upsertOrganization`, `getOrganization`, `listOrganizations` and `getSource` of src/store.ts.
use recruiting_os.Common.{
  ◌∷◌, ◌++◌, ◌||◌, ◌&&◌, upsert_where, truthy, text_lt, str_eq, sort_by, some, select_where,
  or_else, none, map, least, find_where, [], String, Option, List, Clock, Bool, ℕ,
}
use recruiting_os.Sources.Rows.{SourceItem, SourceRow, VersionRow}
use recruiting_os.Queue.Enqueue.{ensure_tenant}
use recruiting_os.Catalog.Rows.{Catalog, Organization, OrganizationRow}

-- `where tenant_id=? and id=?`
abbrev pub is_organization : String → String → OrganizationRow → Bool
is_organization tenant id r = str_eq r.tenant_id tenant && str_eq r.id id

-- `coalesce(excluded.column,organizations.column)`
abbrev pub coalesce : Option String → Option String → Option String
coalesce none old_value = old_value
coalesce (some s) old_value = some s

abbrev pub new_organization : String → Organization → ℕ → OrganizationRow
new_organization tenant o now = record {
  tenant_id = tenant;
  id = o.id;
  name = o.name;
  school = o.school;
  heel_life_url = o.heel_life_url;
  website_url = o.website_url;
  instagram_handle = o.instagram_handle;
  linkedin_url = o.linkedin_url;
  created_at = now;
  updated_at = now;
}

-- `do update set …`
abbrev pub renew_organization : Organization → ℕ → OrganizationRow → OrganizationRow
renew_organization o now r = record r {
  name = o.name;
  school = o.school;
  heel_life_url = coalesce o.heel_life_url r.heel_life_url;
  website_url = coalesce o.website_url r.website_url;
  instagram_handle = coalesce o.instagram_handle r.instagram_handle;
  linkedin_url = coalesce o.linkedin_url r.linkedin_url;
  updated_at = now;
}

-- `mapOrganization`
abbrev pub map_organization : OrganizationRow → Organization
map_organization r = record {
  id = r.id;
  tenant_id = some r.tenant_id;
  name = r.name;
  school = r.school;
  heel_life_url = truthy r.heel_life_url;
  website_url = truthy r.website_url;
  instagram_handle = truthy r.instagram_handle;
  linkedin_url = truthy r.linkedin_url;
}

unfoldable pub write_organization :
    String → Organization → ℕ → List OrganizationRow → List OrganizationRow
write_organization tenant o now rows =
    upsert_where (is_organization tenant o.id) (renew_organization o now)
      (new_organization tenant o now) rows

unfoldable pub find_organization : String → String → List OrganizationRow → Option Organization
find_organization tenant id rows = elim (find_where (is_organization tenant id) rows) [
  | none ↦ none
  | some row ↦ some (map_organization row)
]

-- The row of the join that `getSource` reads.
abbrev pub map_source : VersionRow × SourceRow → SourceItem
map_source (v, s) = record {
  id = v.id;
  tenant_id = some v.tenant_id;
  contributor_user_id = none;
  organization_id = v.organization_id;
  source_type = s.source_type;
  external_id = truthy s.external_id;
  url = truthy s.url;
  title = truthy s.title;
  raw_text = v.raw_text;
  media = v.media;
  published_at = truthy v.published_at;
  fetched_at = v.fetched_at;
  metadata = some v.metadata;
}

-- `from source_versions v join sources s on s.id=v.source_id`
unfoldable pub join : List VersionRow → List SourceRow → List (VersionRow × SourceRow)
join [] sources = []
join (v ∷ vs) sources =
    map (λ (s : SourceRow). (v, s)) (select_where (λ s. str_eq s.id v.source_id) sources)
    ++ join vs sources

abbrev pub is_wanted : String → String → VersionRow × SourceRow → Bool
is_wanted tenant id (v, s) = str_eq v.tenant_id tenant && (str_eq v.id id || str_eq s.id id)

-- `order by v.fetched_at desc limit 1`
abbrev pub fetched_later : VersionRow × SourceRow → VersionRow × SourceRow → Bool
fetched_later (v, s) (w, t) = text_lt w.fetched_at v.fetched_at

module _ {R : Type 0} (default_tenant : String) where
  abbrev pub upsert_organization : Organization → Option String → Clock → Catalog R → Catalog R
  upsert_organization o tenant clock q =
      let t = or_else tenant (or_else o.tenant_id default_tenant) in
      record q {
        tenants = ensure_tenant t q.tenants;
        organizations = write_organization t o (clock 1) q.organizations;
      }

  abbrev pub get_organization : String → Option String → Catalog R → Option Organization
  get_organization id tenant q =
      find_organization (or_else tenant default_tenant) id q.organizations

  unfoldable pub list_organizations : Option String → Catalog R → List Organization
  list_organizations tenant q = map map_organization (
      sort_by (λ (a : OrganizationRow) (b : OrganizationRow). text_lt a.name b.name)
        (select_where (λ r. str_eq r.tenant_id (or_else tenant default_tenant)) q.organizations))

  unfoldable pub get_source : String → Option String → Catalog R → Option SourceItem
  get_source id tenant q =
      elim (least fetched_later
        (select_where (is_wanted (or_else tenant default_tenant) id) (join q.versions q.sources))) [
          | none ↦ none
          | some row ↦ some (map_source row)
        ]
