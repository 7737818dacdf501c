-- ===== src/Catalog/Apart.antt =====
-- The primary key of the opportunities that `replaceOpportunities` of src/store.ts inserts.
use recruiting_os.Common.{
  ◌≡◌, ◌≢◌, ◌∙◌, ◌∷◌, ◌++◌, ◌&&◌, [], sym, ap, subst, refl, inl, inr, true, false, str_eq, none,
  map, All, In, Distinct, any, any-false-In, delete_where, All-In, pair_refl, In-append_left,
  In-append_right, Result-cases, ok, or_else, String, Option, List, arith,
}
use recruiting_os.Catalog.Rows.{Catalog, Opportunity, OpportunityRow, OrganizationRow, Reals}
use recruiting_os.Catalog.Opportunities.{
  insert_opportunity, is_opportunity, is_opportunity_of, new_opportunity, replace_opportunities,
  write_opportunities,
}
use recruiting_os.Catalog.Replaced.{insert_opportunity-ok}

abbrev pub opportunity_id : {R : Type 0} → Opportunity R → String
opportunity_id o = o.id

All-map :
    {A B : Type 0} (P : B → Type 0) (f : A → B) (xs : List A)
    → ((x : A) → In x xs → P (f x))
    → All P (map f xs)
All-map P f [] h = tt
All-map P f (x ∷ xs) h = (h x (inl refl), All-map P f xs (λ y m. h y (inr m)))

pub Distinct-append_right : (xs ys : List String) → Distinct (xs ++ ys) → Distinct ys
Distinct-append_right [] ys d = d
Distinct-append_right (x ∷ xs) ys d = Distinct-append_right xs ys d.1

pub map_append :
    {A B : Type 0} (f : A → B) (xs ys : List A) → map f (xs ++ ys) ≡ map f xs ++ map f ys
map_append f [] ys = refl
map_append f (x ∷ xs) ys = ap (λ k. f x ∷ k) (map_append f xs ys)

pub replace_opportunities-written :
    {R : Type 0} (reals : Reals R) (default_tenant organization : String)
    (os : List (Opportunity R)) (tenant : Option String) (q q' : Catalog R)
    → replace_opportunities reals default_tenant organization os tenant q ≡ ok q'
    → (rows : List (OpportunityRow R)) × (write_opportunities reals
          (or_else tenant default_tenant)
          q.organizations
          os
          (delete_where
            (is_opportunity_of (or_else tenant default_tenant) organization)
            q.opportunities)
        ≡ ok rows)
unfolding replace_opportunities
replace_opportunities-written reals default_tenant organization os tenant q q' e =
    let t = or_else tenant default_tenant in
    elim (Result-cases (
      write_opportunities reals t q.organizations os
        (delete_where (is_opportunity_of t organization) q.opportunities))) [
          | inl (m, u) ↦ absurd (cc (rw (u, replace_opportunities) at e))
          | inr (rows, u) ↦ (rows, u)
        ]

same_key :
    (t i j : String) (u w : Option String)
    → u ≡ none
    → w ≡ none
    → i ≡ j
    → (str_eq (or_else u t) (or_else w t) && str_eq i j) ≡ true
same_key t i j u w a b e =
    ap (λ k. str_eq (or_else k t) (or_else w t) && str_eq i j) a
    ∙ ap (λ k. str_eq t (or_else k t) && str_eq i j) b
    ∙ ap (λ k. str_eq t t && str_eq i k) (sym e)
    ∙ pair_refl t i

module _ {R : Type 0} (reals : Reals R) (tenant : String)
    (organizations : List OrganizationRow) where
  insert_opportunity_unique :
      (r : OpportunityRow R) (rows rows' : List (OpportunityRow R))
      → insert_opportunity reals organizations r rows ≡ ok rows'
      → any (is_opportunity r.tenant_id r.opportunity.id) rows ≡ false
  unfolding insert_opportunity
  insert_opportunity_unique r rows rows' e = ground arith

  -- What is inserted later has another id than what is there.
  write_opportunities-apart :
      (os : List (Opportunity R)) (rows rows' : List (OpportunityRow R)) (r : OpportunityRow R)
      (p : Opportunity R)
      → write_opportunities reals tenant organizations os rows ≡ ok rows'
      → In r rows
      → In p os
      → is_opportunity (or_else p.tenant_id tenant) p.id r ≡ false
  unfolding write_opportunities
  write_opportunities-apart [] rows rows' r p e m n = elim n [ ]
  write_opportunities-apart (o ∷ os) rows rows' r p e m n =
      elim (Result-cases (insert_opportunity reals organizations (new_opportunity tenant o) rows)) [
        | inl (k, u) ↦ absurd (cc (rw (u, write_opportunities) at e))
        | inr (rows1, u) ↦ elim n [
          | inl same ↦
              subst
                (λ (x : Opportunity R). is_opportunity (or_else x.tenant_id tenant) x.id r ≡ false)
                same
                (any-false-In _ rows r
                  (insert_opportunity_unique (new_opportunity tenant o) rows rows1 u) m)
          | inr later ↦
              write_opportunities-apart os rows1 rows' r p (rw (u, write_opportunities) at e)
                (subst (In r)
                  (insert_opportunity-ok reals organizations (new_opportunity tenant o) rows rows1
                    u)
                  (In-append_left rows _ r m))
                later
        ]
      ]

  pub write_opportunities-Distinct :
      (os : List (Opportunity R)) (rows rows' : List (OpportunityRow R))
      → write_opportunities reals tenant organizations os rows ≡ ok rows'
      → All (λ o. o.tenant_id ≡ none) os
      → Distinct (map opportunity_id os)
  unfolding write_opportunities
  write_opportunities-Distinct [] rows rows' e h = tt
  write_opportunities-Distinct (o ∷ os) rows rows' e h =
      elim (Result-cases (insert_opportunity reals organizations (new_opportunity tenant o) rows)) [
        | inl (k, u) ↦ absurd (cc (rw (u, write_opportunities) at e))
        | inr (rows1, u) ↦
            let e1 = rw (u, write_opportunities) at e in
            let there =
              subst (In (new_opportunity tenant o))
                (insert_opportunity-ok reals organizations (new_opportunity tenant o) rows rows1 u)
                (In-append_right rows _ _ (inl refl)) in
            (
              All-map (λ k. o.id ≢ k) opportunity_id os
                  (λ p m same. absurd (
                    cc (
                      write_opportunities-apart os rows1 rows' _ p e1 there m,
                      same_key tenant o.id p.id o.tenant_id p.tenant_id h.0
                          (All-In (λ (x : Opportunity R). x.tenant_id ≡ none) os p h.1 m) same,
                    ))),
              write_opportunities-Distinct os rows1 rows' e1 h.1,
            )
      ]
