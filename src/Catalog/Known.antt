-- ===== src/Catalog/Known.antt =====
-- What is known of the organizations after `upsertOrganization` of src/store.ts.
use recruiting_os.Common.{
  arith, truthy, eq_iff, find_where-some, ◌≡◌, ◌&&◌, ◌∙◌, sym, ap, false, str_eq, same_pair,
  pair_refl, find-upsert, find-upsert_other, find_where, some, none, refl, upserted, String, Option,
  List, Clock, ℕ, or_else,
}
use recruiting_os.Catalog.Rows.{Catalog, Organization, OrganizationRow}
use recruiting_os.Catalog.Organizations.{
  coalesce, is_organization, new_organization, renew_organization, map_organization,
  write_organization, find_organization, upsert_organization, get_organization,
}

write_organization_lem :
    (tenant : String) (o : Organization) (now : ℕ) (rows : List OrganizationRow)
    → find_where (is_organization tenant o.id) (write_organization tenant o now rows)
      ≡ some (
          upserted
            (renew_organization o now)
            (new_organization tenant o now)
            (find_where (is_organization tenant o.id) rows))
unfolding write_organization
write_organization_lem tenant o now rows =
    find-upsert (is_organization tenant o.id) (renew_organization o now)
      (new_organization tenant o now) rows (λ x t. t) (pair_refl tenant o.id)

write_organization_other :
    (tenant other id : String) (o : Organization) (now : ℕ) (rows : List OrganizationRow)
    → (str_eq tenant other && str_eq o.id id) ≡ false
    → find_where (is_organization other id) (write_organization tenant o now rows)
      ≡ find_where (is_organization other id) rows
unfolding write_organization
write_organization_other tenant other id o now rows n =
    find-upsert_other (is_organization other id) (is_organization tenant o.id)
      (renew_organization o now) (new_organization tenant o now) rows
      (λ x t. let m = same_pair x.tenant_id x.id tenant o.id t other id ∙ n in (m, m)) n

abbrev option_of : Option OrganizationRow → Option Organization
option_of none = none
option_of (some r) = some (map_organization r)

find_organization_lem :
    (tenant id : String) (rows : List OrganizationRow)
    → find_organization tenant id rows ≡ option_of (find_where (is_organization tenant id) rows)
unfolding find_organization
find_organization_lem tenant id rows = refl

-- A link after an upsert that has the link `new_link`, where `getOrganization` gave `known` before.
abbrev pub known_link :
    Option String → (Organization → Option String) → Option Organization → Option String
known_link none link none = none
known_link none link (some known) = link known
known_link (some s) link known = truthy (some s)

abbrev pub known_organization : String → Organization → Option Organization → Organization
known_organization tenant o known = record {
  id = o.id;
  tenant_id = some tenant;
  name = o.name;
  school = o.school;
  heel_life_url = known_link o.heel_life_url (λ (k : Organization). k.heel_life_url) known;
  website_url = known_link o.website_url (λ (k : Organization). k.website_url) known;
  instagram_handle = known_link o.instagram_handle (λ (k : Organization). k.instagram_handle) known;
  linkedin_url = known_link o.linkedin_url (λ (k : Organization). k.linkedin_url) known;
}

new_link :
    (link : Organization → Option String) (l : Option String) → truthy l ≡ known_link l link none
new_link link none = refl
new_link link (some s) = refl

coalesced_link :
    (link : Organization → Option String) (known : Organization) (l old : Option String)
    → truthy old ≡ link known
    → truthy (coalesce l old) ≡ known_link l link (some known)
coalesced_link link known none old e = e
coalesced_link link known (some s) old e = refl

known_organization_lem :
    (tenant : String) (o : Organization) (now : ℕ) (row : Option OrganizationRow)
    → ((r : OrganizationRow) → row ≡ some r → (r.id ≡ o.id) × (r.tenant_id ≡ tenant))
    → map_organization (upserted (renew_organization o now) (new_organization tenant o now) row)
      ≡ known_organization tenant o (option_of row)
known_organization_lem tenant o now none h = λ i. record {
  id = o.id;
  tenant_id = some tenant;
  name = o.name;
  school = o.school;
  heel_life_url = new_link (λ (k : Organization). k.heel_life_url) o.heel_life_url i;
  website_url = new_link (λ (k : Organization). k.website_url) o.website_url i;
  instagram_handle = new_link (λ (k : Organization). k.instagram_handle) o.instagram_handle i;
  linkedin_url = new_link (λ (k : Organization). k.linkedin_url) o.linkedin_url i;
}
known_organization_lem tenant o now (some r) h =
    let known = map_organization r in
    let (same_id, same_tenant) = h r refl in
    λ i. record {
      id = same_id i;
      tenant_id = some (same_tenant i);
      name = o.name;
      school = o.school;
      heel_life_url =
          coalesced_link (λ (k : Organization). k.heel_life_url) known o.heel_life_url
            r.heel_life_url refl i;
      website_url =
          coalesced_link (λ (k : Organization). k.website_url) known o.website_url r.website_url
            refl i;
      instagram_handle =
          coalesced_link (λ (k : Organization). k.instagram_handle) known o.instagram_handle
            r.instagram_handle refl i;
      linkedin_url =
          coalesced_link (λ (k : Organization). k.linkedin_url) known o.linkedin_url r.linkedin_url
            refl i;
    }

-- After an upsert `getOrganization` gives the organization with its new name and school; each link
-- is the new one (none where that is the empty text), or where the upsert has none, the one that
-- `getOrganization` gave before. Of every other organization of any tenant it gives what it gave
-- before.
pub upsert_organization-get_organization :
    {R : Type 0} (default_tenant : String) (o : Organization) (tenant : Option String)
    (clock : Clock) (q : Catalog R)
    → let t = or_else tenant (or_else o.tenant_id default_tenant) in
      (get_organization default_tenant o.id
          (some t)
          (upsert_organization default_tenant o tenant clock q)
        ≡ some (known_organization t o (get_organization default_tenant o.id (some t) q)))
      × ((other id : String)
          → (str_eq t other && str_eq o.id id) ≡ false
          → get_organization default_tenant id
              (some other)
              (upsert_organization default_tenant o tenant clock q)
            ≡ get_organization default_tenant id (some other) q)
upsert_organization-get_organization default_tenant o tenant clock q =
    let t = or_else tenant (or_else o.tenant_id default_tenant) in
    let rows = write_organization t o (clock 1) q.organizations in
    (
      find_organization_lem t o.id rows
          ∙ ap option_of (write_organization_lem t o (clock 1) q.organizations)
          ∙ ap some (
              known_organization_lem t o (clock 1)
                (find_where (is_organization t o.id) q.organizations)
                λ r e.
                  let found = (find_where-some _ q.organizations r e).1 in
                  ((eq_iff r.id o.id).0 (ground arith), (eq_iff r.tenant_id t).0 (ground arith)))
          ∙ ap (λ k. some (known_organization t o k))
              (sym (find_organization_lem t o.id q.organizations)),
      λ other id n.
          find_organization_lem other id rows
          ∙ ap option_of (write_organization_other t other id o (clock 1) q.organizations n)
          ∙ sym (find_organization_lem other id q.organizations),
    )
