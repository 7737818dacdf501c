-- ===== src/Catalog/Replaced.antt =====
-- What `replaceOpportunities` of src/store.ts leaves, and `listOpportunities` lists after it.
use recruiting_os.Common.{
  ◌≡◌, ◌&&◌, ◌∙◌, ◌∷◌, [], ◌++◌, sym, ap, arith, false, true, str_eq, some, none, refl, ok,
  Result-cases, inl, inr, String, Option, List, or_else, ok_value, concat_nil, concat_snoc, sort_by,
  null_first, select-append, select-All, select-nothing, select-delete, select-delete_other,
  str_eq_refl, same_pair, All, map, delete_where, select_where,
}
use recruiting_os.Catalog.Rows.{Catalog, Opportunity, OpportunityRow, OrganizationRow, Reals}
use recruiting_os.Catalog.Opportunities.{
  new_opportunity, is_opportunity_of, insert_opportunity, write_opportunities,
  replace_opportunities, due, read_opportunity, list_opportunities,
}

module _ {R : Type 0} (reals : Reals R) where
  pub insert_opportunity-ok :
      (organizations : List OrganizationRow) (r : OpportunityRow R)
      (rows rows' : List (OpportunityRow R))
      → insert_opportunity reals organizations r rows ≡ ok rows'
      → rows ++ r ∷ [] ≡ rows'
  unfolding insert_opportunity
  insert_opportunity-ok organizations r rows rows' e = ground arith

  write_opportunities-ok :
      (tenant : String) (organizations : List OrganizationRow) (os : List (Opportunity R))
      (rows rows' : List (OpportunityRow R))
      → write_opportunities reals tenant organizations os rows ≡ ok rows'
      → rows' ≡ rows ++ map (new_opportunity tenant) os
  unfolding write_opportunities
  write_opportunities-ok tenant organizations [] rows rows' e = cc (e, concat_nil rows)
  write_opportunities-ok tenant organizations (o ∷ os) rows rows' e =
      elim (Result-cases (insert_opportunity reals organizations (new_opportunity tenant o) rows)) [
        | inl (n, u) ↦ absurd (cc (rw (u, write_opportunities) at e))
        | inr (rows1, u) ↦
            write_opportunities-ok tenant organizations os rows1 rows'
              (rw (u, write_opportunities) at e)
            ∙ ap (λ k. k ++ map (new_opportunity tenant) os)
                (sym (insert_opportunity-ok organizations (new_opportunity tenant o) rows rows1 u))
            ∙ concat_snoc rows (map (new_opportunity tenant) os) (new_opportunity tenant o)
      ]

  replace_opportunities-rows :
      (default_tenant organization : String) (os : List (Opportunity R)) (tenant : Option String)
      (q q' : Catalog R)
      → replace_opportunities reals default_tenant organization os tenant q ≡ ok q'
      → q'.opportunities
        ≡ delete_where
            (is_opportunity_of (or_else tenant default_tenant) organization)
            q.opportunities
          ++ map (new_opportunity (or_else tenant default_tenant)) os
  unfolding replace_opportunities
  replace_opportunities-rows default_tenant organization os tenant q q' e =
      let t = or_else tenant default_tenant in
      let kept = delete_where (is_opportunity_of t organization) q.opportunities in
      elim (Result-cases (write_opportunities reals t q.organizations os kept)) [
        | inl (n, u) ↦ absurd (cc (rw (u, replace_opportunities) at e))
        | inr (rows, u) ↦
            sym (
              ap (λ (k : Catalog R). k.opportunities)
                (ok_value _ q' (rw (u, replace_opportunities) at e)))
            ∙ write_opportunities-ok t q.organizations os kept rows u
      ]

-- The opportunities of the call stand under the organization and the tenant of the call.
abbrev pub IsOf : {R : Type 0} → String → Opportunity R → Type 0
IsOf organization o = (o.organization_id ≡ organization) × (o.tenant_id ≡ none)

abbrev listed : {R : Type 0} → List (OpportunityRow R) → List (Opportunity R)
listed rows = map read_opportunity (sort_by (λ a b. null_first (due a) (due b)) rows)

stands_under :
    (t organization g other : String) (u : Option String)
    → g ≡ organization
    → u ≡ none
    → (str_eq (or_else u t) t && str_eq g other) ≡ str_eq organization other
stands_under t organization g other u e n =
    ap (λ k. str_eq (or_else k t) t && str_eq g other) n
    ∙ ap (λ b. b && str_eq g other) (str_eq_refl t)
    ∙ ap (λ k. str_eq k other) e

module _ {R : Type 0} where
  list_opportunities-select :
      (default_tenant tenant organization : String) (q : Catalog R)
      → str_eq organization "" ≡ false
      → list_opportunities default_tenant (some organization) (some tenant) q
        ≡ listed (select_where (is_opportunity_of tenant organization) q.opportunities)
  unfolding list_opportunities
  list_opportunities-select default_tenant tenant organization q n = rw n refl

  new_opportunity-own :
      (t organization : String) (os : List (Opportunity R))
      → All (IsOf organization) os
      → All (λ r. is_opportunity_of t organization r ≡ true) (map (new_opportunity t) os)
  new_opportunity-own t organization [] h = tt
  new_opportunity-own t organization (o ∷ os) h = (
    stands_under t organization o.organization_id organization o.tenant_id h.0.0 h.0.1
        ∙ str_eq_refl organization,
    new_opportunity-own t organization os h.1,
  )

  new_opportunity-other :
      (t organization other : String) (os : List (Opportunity R))
      → str_eq organization other ≡ false
      → All (IsOf organization) os
      → All (λ r. is_opportunity_of t other r ≡ false) (map (new_opportunity t) os)
  new_opportunity-other t organization other [] n h = tt
  new_opportunity-other t organization other (o ∷ os) n h = (
    stands_under t organization o.organization_id other o.tenant_id h.0.0 h.0.1 ∙ n,
    new_opportunity-other t organization other os n h.1,
  )

  module _ (t organization : String) (os : List (Opportunity R)) (rows : List (OpportunityRow R))
      (h : All (IsOf organization) os) where
    replaced-own :
        select_where
          (is_opportunity_of t organization)
          (delete_where (is_opportunity_of t organization) rows ++ map (new_opportunity t) os)
        ≡ map (new_opportunity t) os
    replaced-own =
        select-append (is_opportunity_of t organization)
          (delete_where (is_opportunity_of t organization) rows) _
        ∙ ap
            (λ k. k ++ select_where (is_opportunity_of t organization) (map (new_opportunity t) os))
            (select-delete (is_opportunity_of t organization) rows)
        ∙ select-All (is_opportunity_of t organization) _ (new_opportunity-own t organization os h)

    replaced-other :
        (other : String)
        → str_eq organization other ≡ false
        → select_where
            (is_opportunity_of t other)
            (delete_where (is_opportunity_of t organization) rows ++ map (new_opportunity t) os)
          ≡ select_where (is_opportunity_of t other) rows
    replaced-other other n =
        select-append (is_opportunity_of t other)
          (delete_where (is_opportunity_of t organization) rows) _
        ∙ ap
            (λ k.
              select_where (is_opportunity_of t other)
                (delete_where (is_opportunity_of t organization) rows)
              ++ k)
            (select-nothing (is_opportunity_of t other) _
              (new_opportunity-other t organization other os n h))
        ∙ concat_nil _
        ∙ select-delete_other (is_opportunity_of t other) (is_opportunity_of t organization) rows
            (λ r m. is_apart r m)
      where
        is_apart :
            (r : OpportunityRow R)
            → is_opportunity_of t organization r ≡ true
            → is_opportunity_of t other r ≡ false
        is_apart r m =
            same_pair r.tenant_id r.opportunity.organization_id t organization m t other
            ∙ ap (λ b. b && str_eq organization other) (str_eq_refl t)
            ∙ n

-- When `replaceOpportunities` goes through for an organization with a non-empty id and
-- opportunities of it that name no tenant, then `listOpportunities` lists exactly them, each once
-- and in the order of their dates, and for every other organization of the tenant what it listed
-- before.
pub replace_opportunities-list :
    {R : Type 0} (reals : Reals R) (default_tenant organization tenant : String)
    (os : List (Opportunity R)) (q q' : Catalog R)
    → replace_opportunities reals default_tenant organization os (some tenant) q ≡ ok q'
    → All (IsOf organization) os
    → str_eq organization "" ≡ false
    → (list_opportunities default_tenant (some organization) (some tenant) q'
        ≡ map read_opportunity
            (sort_by (λ a b. null_first (due a) (due b)) (map (new_opportunity tenant) os)))
      × ((other : String)
          → str_eq organization other ≡ false
          → str_eq other "" ≡ false
          → list_opportunities default_tenant (some other) (some tenant) q'
            ≡ list_opportunities default_tenant (some other) (some tenant) q)
replace_opportunities-list reals default_tenant organization tenant os q q' e h n =
    let rows =
      replace_opportunities-rows reals default_tenant organization os (some tenant) q q' e in
    (
      list_opportunities-select default_tenant tenant organization q' n
          ∙ ap (λ k. listed (select_where (is_opportunity_of tenant organization) k)) rows
          ∙ ap listed (replaced-own tenant organization os q.opportunities h),
      λ other m k.
          list_opportunities-select default_tenant tenant other q' k
          ∙ ap (λ z. listed (select_where (is_opportunity_of tenant other) z)) rows
          ∙ ap listed (replaced-other tenant organization os q.opportunities h other m)
          ∙ sym (list_opportunities-select default_tenant tenant other q k),
    )
