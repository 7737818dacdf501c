-- ===== src/Privacy/Orphans.antt =====
-- What `eraseAccount` of src/infrastructure/privacy/sqlite-privacy-repository.ts deletes of what
-- only the user contributes.
use recruiting_os.Common.{
  ◌≡◌, ◌∙◌, ◌∷◌, ◌&&◌, [], ap, subst, inl, inr, true, false, not, str_eq, and_true, any,
  any-false_of, any-false-In, any-delete, any-delete_other, In, In-delete, select-In, select_where,
  Bool-cases, ok, String, List, Clock, Bool,
}
use recruiting_os.Sources.Rows.{ContributorRow}
use recruiting_os.Sources.Stage.{is_version}
use recruiting_os.Privacy.Rows.{AccountErasureResult, Database, is_private}
use recruiting_os.Privacy.Export.{Contributed, contributed, is_contribution_of, is_member}
use recruiting_os.Privacy.Erase.{
  Origin, delete_version, delete_versions, is_orphaned, is_version_claim, origin, same_origin,
}
use recruiting_os.Privacy.Account.{forget_contributions, orphans, without_orphans}
use recruiting_os.Privacy.Transaction.{erase_account}
use recruiting_os.Privacy.Kept.{erase_account-contents}
use recruiting_os.Privacy.Origins.{distinct_by-In, same_origin_trans, same_origin_lem, In-map}

abbrev pub contributes_too : String → String → String → ContributorRow → Bool
contributes_too tenant user id c =
    str_eq c.tenant_id tenant && (str_eq c.source_version_id id && not (str_eq c.user_id user))

module _ {R : Type 0} (tenant : String) where
  abbrev IsDeleted : String → Database R → Type 0
  IsDeleted id q =
      (any (is_version tenant id) q.versions ≡ false)
      × (any (is_version_claim tenant id) q.claims ≡ false)

  delete_version-IsDeleted :
      (id : String) (q : Database R) → IsDeleted id (delete_version tenant id q)
  unfolding delete_version
  delete_version-IsDeleted id q = elim (Bool-cases (any (is_version tenant id) q.versions)) [
    | inl t ↦
        rw (t, delete_version)
          (
            any-delete (is_version tenant id) q.versions,
            any-delete_other (is_version_claim tenant id) _ _
                (any-delete (is_version_claim tenant id) q.claims),
          )
    | inr t ↦ rw (t, delete_version) (t, any-delete (is_version_claim tenant id) q.claims)
  ]

  delete_version-keeps :
      (id other : String) (q : Database R)
      → IsDeleted id q
      → IsDeleted id (delete_version tenant other q)
  unfolding delete_version
  delete_version-keeps id other q (a, b) =
      let c =
        any-delete_other (is_version_claim tenant id) (is_version_claim tenant other) q.claims b in
      elim (Bool-cases (any (is_version tenant other) q.versions)) [
        | inl t ↦
            rw (t, delete_version)
              (
                any-delete_other (is_version tenant id) _ q.versions a,
                any-delete_other (is_version_claim tenant id) _ _ c,
              )
        | inr t ↦ rw (t, delete_version) (a, c)
      ]

  delete_versions-keeps :
      (id : String) (os : List Origin) (q : Database R)
      → IsDeleted id q
      → IsDeleted id (delete_versions tenant os q).1
  unfolding delete_versions
  delete_versions-keeps id [] q h = h
  delete_versions-keeps id (o ∷ os) q h =
      delete_versions-keeps id os (delete_version tenant o.id q) (delete_version-keeps id o.id q h)

  delete_versions-IsDeleted :
      (os : List Origin) (o : Origin) (q : Database R)
      → In o os
      → IsDeleted o.id (delete_versions tenant os q).1
  unfolding delete_versions
  delete_versions-IsDeleted [] o q m = elim m [ ]
  delete_versions-IsDeleted (p ∷ os) o q (inl e) =
      delete_versions-keeps o.id os (delete_version tenant p.id q) (
        subst (λ k. IsDeleted k (delete_version tenant p.id q)) (ap (λ (k : Origin). k.id) e)
          (delete_version-IsDeleted p.id q))
  delete_versions-IsDeleted (p ∷ os) o q (inr m) =
      delete_versions-IsDeleted os o (delete_version tenant p.id q) m

  -- Without another contributor nothing refers to the version once the user's rows are gone.
  forget_contributions-alone :
      (user id : String) (q : Database R)
      → any (contributes_too tenant user id) q.contributors ≡ false
      → any
          (λ (c : ContributorRow). str_eq c.tenant_id tenant && str_eq c.source_version_id id)
          (forget_contributions tenant user q).contributors
        ≡ false
  forget_contributions-alone user id q h = any-false_of _ _ (λ c m.
      let (i, mine) = In-delete (is_contribution_of tenant user) q.contributors c m in
      apart (str_eq c.tenant_id tenant) (str_eq c.source_version_id id) (str_eq c.user_id user) mine
        (any-false-In (contributes_too tenant user id) q.contributors c h i))
    where
      apart : (a b c : Bool) → (a && c) ≡ false → (a && (b && not c)) ≡ false → (a && b) ≡ false
      apart true true true m n = m
      apart true true false m n = n
      apart true false c m n = n
      apart false b c m n = m

  orphans-In :
      (user : String) (row : Contributed) (q : Database R)
      → In row (
          contributed
            (select_where (is_contribution_of tenant user) q.contributors)
            q.versions
            q.sources)
      → is_private row.source.source_type ≡ true
      → any (contributes_too tenant user row.version.id) q.contributors ≡ false
      → (o : Origin) × In o (orphans tenant user q) × (o.id ≡ row.version.id)
  orphans-In user row q m p h =
      let (o, n, s) =
        distinct_by-In same_origin same_origin_trans _ (origin row) (In-map origin _ row m) in
      let (i, t) = same_origin_lem o (origin row) s in
      let alone = forget_contributions-alone user row.version.id q h in
      (
        o,
        select-In (is_orphaned tenant (forget_contributions tenant user q)) _ o n (
            and_true (is_private o.source_type) _ (t ∙ p) (
              ap
                (λ k. not (
                  any
                    (λ (c : ContributorRow).
                      str_eq c.tenant_id tenant && str_eq c.source_version_id k)
                    (forget_contributions tenant user q).contributors))
                i
              ∙ ap not alone)),
        i,
      )

-- When `eraseAccount` goes through for a member, a private source version that the user contributes
-- and no other user of the tenant does is gone, with its claims.
pub erase_account-deletes_private :
    {R : Type 0} (stable_id : String → String → String) (like : String → String → Bool)
    (tenant user operation : String) (clock : Clock) (q q' : Database R) (r : AccountErasureResult)
    (row : Contributed)
    → any (is_member tenant user) q.members ≡ true
    → erase_account stable_id like tenant user operation clock q ≡ ok (r, q')
    → In row (
        contributed
          (select_where (is_contribution_of tenant user) q.contributors)
          q.versions
          q.sources)
    → is_private row.source.source_type ≡ true
    → any (contributes_too tenant user row.version.id) q.contributors ≡ false
    → (any (is_version tenant row.version.id) q'.versions ≡ false)
      × (any (is_version_claim tenant row.version.id) q'.claims ≡ false)
erase_account-deletes_private stable_id like tenant user operation clock q q' r row m e i p h =
    let same = erase_account-contents tenant stable_id like user operation clock q q' r m e in
    let (o, n, k) = orphans-In tenant user row q i p h in
    let (a, b) =
      delete_versions-IsDeleted tenant (orphans tenant user q) o
        (forget_contributions tenant user q) n in
    (
      ap (any (is_version tenant row.version.id)) (ap (λ x. x.0) same)
          ∙ subst
              (λ id. any (is_version tenant id) (without_orphans tenant user q).versions ≡ false) k
              a,
      ap (any (is_version_claim tenant row.version.id)) (ap (λ x. x.1) same)
          ∙ subst
              (λ id.
                any (is_version_claim tenant id) (without_orphans tenant user q).claims ≡ false)
              k b,
    )
