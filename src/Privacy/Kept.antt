-- ===== src/Privacy/Kept.antt =====
-- What `eraseAccount` of src/infrastructure/privacy/sqlite-privacy-repository.ts keeps of what
-- others contribute too.
use recruiting_os.Common.{
  ◌≡◌, ◌∙◌, ◌∷◌, ◌&&◌, [], sym, ap, subst, refl, inl, inr, true, false, str_eq, str_eq_refl,
  and_true, and_false, both_true, any, any-true_of, In, delete-In, In-select, Bool-cases, ok,
  String, List, Clock, Bool,
}
use recruiting_os.Auth.Tables.{UserRow, MemberRow}
use recruiting_os.Sources.Rows.{ContributorRow, VersionRow}
use recruiting_os.Sources.Stage.{is_version}
use recruiting_os.Catalog.Rows.{ClaimRow}
use recruiting_os.Privacy.Rows.{AccountErasureResult, Database, is_private}
use recruiting_os.Privacy.Export.{is_contribution_of, is_member}
use recruiting_os.Privacy.Erase.{
  Origin, delete_membership, delete_user, delete_version, delete_versions, is_orphaned,
  is_version_claim,
}
use recruiting_os.Privacy.Account.{
  forget, forget_contributions, leave, orphans, origins, without_orphans,
}
use recruiting_os.Privacy.Transaction.{erase_account}
use recruiting_os.Privacy.Erased.{erase_account-reconciles, left, reconcile-ok}

module _ {R : Type 0} (tenant : String) where
  delete_version-version :
      (id : String) (v : VersionRow) (q : Database R)
      → str_eq v.id id ≡ false
      → In v q.versions
      → In v (delete_version tenant id q).versions
  unfolding delete_version
  delete_version-version id v q n m = elim (Bool-cases (any (is_version tenant id) q.versions)) [
    | inl t ↦
        rw (t, delete_version)
          (delete-In (is_version tenant id) q.versions v m
            (ap (λ b. str_eq v.tenant_id tenant && b) n ∙ and_false (str_eq v.tenant_id tenant)))
    | inr t ↦ rw (t, delete_version) m
  ]

  delete_version-claim :
      (id : String) (c : ClaimRow R) (q : Database R)
      → str_eq c.source_version_id id ≡ false
      → In c q.claims
      → In c (delete_version tenant id q).claims
  unfolding delete_version
  delete_version-claim id c q n m =
      let k =
        delete-In (is_version_claim tenant id) q.claims c m
          (ap (λ b. str_eq c.tenant_id tenant && b) n ∙ and_false (str_eq c.tenant_id tenant)) in
      elim (Bool-cases (any (is_version tenant id) q.versions)) [
        | inl t ↦
            rw (t, delete_version)
              (delete-In (λ (x : ClaimRow R). str_eq x.source_version_id id) _ c k n)
        | inr t ↦ rw (t, delete_version) k
      ]

  delete_versions-version :
      (os : List Origin) (v : VersionRow) (q : Database R)
      → ((o : Origin) → In o os → str_eq v.id o.id ≡ false)
      → In v q.versions
      → In v (delete_versions tenant os q).1.versions
  unfolding delete_versions
  delete_versions-version [] v q n m = m
  delete_versions-version (o ∷ os) v q n m =
      delete_versions-version os v (delete_version tenant o.id q) (λ p k. n p (inr k))
        (delete_version-version o.id v q (n o (inl refl)) m)

  delete_versions-claim :
      (os : List Origin) (c : ClaimRow R) (q : Database R)
      → ((o : Origin) → In o os → str_eq c.source_version_id o.id ≡ false)
      → In c q.claims
      → In c (delete_versions tenant os q).1.claims
  unfolding delete_versions
  delete_versions-claim [] c q n m = m
  delete_versions-claim (o ∷ os) c q n m =
      delete_versions-claim os c (delete_version tenant o.id q) (λ p k. n p (inr k))
        (delete_version-claim o.id c q (n o (inl refl)) m)

  -- A version that another user contributes is not orphaned.
  orphans-other :
      (user : String) (c : ContributorRow) (q : Database R)
      → In c q.contributors
      → str_eq c.tenant_id tenant ≡ true
      → str_eq c.user_id user ≡ false
      → (o : Origin) → In o (orphans tenant user q)
      → str_eq c.source_version_id o.id ≡ false
  orphans-other user c q m t n o k = elim (Bool-cases (str_eq c.source_version_id o.id)) [
    | inr e ↦ e
    | inl e ↦
        let (a, b) =
          In-select (is_orphaned tenant (forget_contributions tenant user q))
            (origins tenant user q) o k in
        let (p, gone) = both_true (is_private o.source_type) _ b in
        let stays =
          delete-In (is_contribution_of tenant user) q.contributors c m
            (ap (λ x. str_eq c.tenant_id tenant && x) n ∙ and_false (str_eq c.tenant_id tenant)) in
        let there =
          any-true_of
            (λ (x : ContributorRow). str_eq x.tenant_id tenant && str_eq x.source_version_id o.id) _
            c stays (and_true (str_eq c.tenant_id tenant) (str_eq c.source_version_id o.id) t e) in
        absurd (cc (gone, there))
  ]

  abbrev contents : Database R → List VersionRow × List (ClaimRow R)
  contents q = (q.versions, q.claims)

  delete_membership-contents :
      (user : String) (q : Database R) → contents (delete_membership tenant user q) ≡ contents q
  unfolding delete_membership
  delete_membership-contents user q = elim (Bool-cases (any (is_member tenant user) q.members)) [
    | inl t ↦ rw (t, delete_membership) refl
    | inr t ↦ rw (t, delete_membership) refl
  ]

  delete_user-contents :
      (user : String) (q : Database R) → contents (delete_user user q) ≡ contents q
  unfolding delete_user
  delete_user-contents user q =
      elim (Bool-cases (any (λ (u : UserRow). str_eq u.id user) q.users)) [
        | inl t ↦ rw (t, delete_user) refl
        | inr t ↦ rw (t, delete_user) refl
      ]

  leave-contents : (user : String) (q : Database R) → contents (leave tenant user q) ≡ contents q
  unfolding leave
  leave-contents user q =
      let q' = delete_membership tenant user q in
      elim (Bool-cases (any (λ (m : MemberRow). str_eq m.user_id user) q'.members)) [
        | inl t ↦ rw (t, leave) (delete_membership-contents user q)
        | inr t ↦ rw (t, leave) (delete_user-contents user q' ∙ delete_membership-contents user q)
      ]

  forget-contents :
      (like : String → String → Bool) (user : String) (q : Database R)
      → contents (forget like tenant user q) ≡ contents q
  unfolding forget
  forget-contents like user q = refl

  -- After a call for a member the versions and claims are those that the loop over the orphans
  -- leaves.
  pub erase_account-contents :
      (stable_id : String → String → String) (like : String → String → Bool)
      (user operation : String) (clock : Clock) (q q' : Database R) (r : AccountErasureResult)
      → any (is_member tenant user) q.members ≡ true
      → erase_account stable_id like tenant user operation clock q ≡ ok (r, q')
      → contents q' ≡ contents (without_orphans tenant user q)
  erase_account-contents stable_id like user operation clock q q' r m e =
      let (result, k) =
        erase_account-reconciles stable_id like tenant user operation clock q q' r m e in
      sym (
        ap contents
          (reconcile-ok stable_id like _ _ result r (left stable_id like tenant user q) q' k))
      ∙ leave-contents user (forget like tenant user (without_orphans tenant user q))
      ∙ forget-contents like user (without_orphans tenant user q)

-- When `eraseAccount` goes through for a member, a source version that another user of the tenant
-- contributes too stays as it is, with all its claims.
pub erase_account-keeps_shared :
    {R : Type 0} (stable_id : String → String → String) (like : String → String → Bool)
    (tenant user operation : String) (clock : Clock) (q q' : Database R) (r : AccountErasureResult)
    (c : ContributorRow) (v : VersionRow)
    → any (is_member tenant user) q.members ≡ true
    → erase_account stable_id like tenant user operation clock q ≡ ok (r, q')
    → In c q.contributors
    → c.tenant_id ≡ tenant
    → str_eq c.user_id user ≡ false
    → In v q.versions
    → v.id ≡ c.source_version_id
    → In v q'.versions
      × ((claim : ClaimRow R)
          → In claim q.claims
          → claim.source_version_id ≡ v.id
          → In claim q'.claims)
erase_account-keeps_shared stable_id like tenant user operation clock q q' r c v m e i t n j s =
    let same = erase_account-contents tenant stable_id like user operation clock q q' r m e in
    let t' = ap (λ k. str_eq k tenant) t ∙ str_eq_refl tenant in
    let apart = orphans-other tenant user c q i t' n in
    (
      subst (In v) (sym (ap (λ k. k.0) same)) (
          delete_versions-version tenant (orphans tenant user q) v
            (forget_contributions tenant user q) (λ o k. ap (λ x. str_eq x o.id) s ∙ apart o k) j),
      λ claim k d. subst (In claim) (sym (ap (λ x. x.1) same)) (
          delete_versions-claim tenant (orphans tenant user q) claim
            (forget_contributions tenant user q)
            (λ o l. ap (λ x. str_eq x o.id) (d ∙ s) ∙ apart o l) k),
    )
