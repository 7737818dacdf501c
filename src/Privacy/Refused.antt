-- ===== src/Privacy/Refused.antt =====
-- Overrides of `putOpportunityOverride` of src/store.ts against `eraseAccount` of
-- src/infrastructure/privacy/sqlite-privacy-repository.ts.
use recruiting_os.Common.{
  ◌≡◌, ◌∙◌, ◌∷◌, ◌++◌, [], sym, ap, refl, inl, inr, true, any, any-true_of, In-append_right, some,
  truthy, Bool-cases, str_eq, or_else, ok, err, Option, Clock, String, Bool, pair_refl, ok_value,
}
use recruiting_os.Catalog.Rows.{Catalog, OpportunityOverride, OverrideRow}
use recruiting_os.Catalog.Organizations.{is_organization}
use recruiting_os.Catalog.Overrides.{new_override, put_opportunity_override}
use recruiting_os.Privacy.Rows.{Database}
use recruiting_os.Privacy.Export.{is_member}
use recruiting_os.Privacy.Erase.{is_override_by}
use recruiting_os.Privacy.Transaction.{erase_account}

put_opportunity_override-rows :
    {R : Type 0} (o : OpportunityOverride) (tenant : Option String) (user : String)
    (c c' : Catalog R)
    → truthy o.actor_id ≡ some user
    → put_opportunity_override o tenant c ≡ ok c'
    → c.overrides ++ new_override (or_else tenant o.tenant_id) user o ∷ [] ≡ c'.overrides
unfolding put_opportunity_override
put_opportunity_override-rows o tenant user c c' a e =
    let t = or_else tenant o.tenant_id in
    elim (Bool-cases (any (λ (r : OverrideRow). str_eq r.id o.id) c.overrides)) [
      | inl u ↦ absurd (cc (rw (a, u, put_opportunity_override) at e))
      | inr u ↦ elim (Bool-cases (any (is_organization t o.organization_id) c.organizations)) [
        | inl v ↦
            ap (λ (k : Catalog _). k.overrides)
              (ok_value _ c' (rw (a, u, v, put_opportunity_override) at e))
        | inr v ↦ absurd (cc (rw (a, u, v, put_opportunity_override) at e))
      ]
    ]

-- Once `putOpportunityOverride` has stored an override of a user, every `eraseAccount` of that user
-- in the tenant of the override fails while the user is a member there: the statement that clears
-- `opportunity_overrides.actor_id` breaks the column's `not null`, and the whole erasure is rolled
-- back.
pub put_opportunity_override-erase_account :
    {R : Type 0} (stable_id : String → String → String) (like : String → String → Bool)
    (o : OpportunityOverride) (tenant user operation : String) (clock : Clock) (c c' : Catalog R)
    (q : Database R)
    → truthy o.actor_id ≡ some user
    → put_opportunity_override o (some tenant) c ≡ ok c'
    → q.overrides ≡ c'.overrides
    → any (is_member tenant user) q.members ≡ true
    → erase_account stable_id like tenant user operation clock q
      ≡ err "NOT NULL constraint failed: opportunity_overrides.actor_id"
unfolding erase_account
put_opportunity_override-erase_account stable_id like o tenant user operation clock c c' q a e s m =
    let rows = sym (s ∙ sym (put_opportunity_override-rows o (some tenant) user c c' a e)) in
    let mine =
      any-true_of (is_override_by tenant user) _ (new_override tenant user o)
        (In-append_right c.overrides (new_override tenant user o ∷ []) (new_override tenant user o)
          (inl refl))
        (pair_refl tenant user) in
    let blocked = sym (ap (any (is_override_by tenant user)) rows) ∙ mine in
    rw (m, blocked, erase_account) refl
