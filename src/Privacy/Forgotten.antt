-- ===== src/Privacy/Forgotten.antt =====
-- What the tables hold of a user after `eraseAccount` of
-- src/infrastructure/privacy/sqlite-privacy-repository.ts.
use recruiting_os.Common.{
  ◌≡◌, ◌∙◌, ◌∷◌, ◌&&◌, [], ap, subst, refl, inl, inr, true, false, str_eq, str_eq_refl, and_true,
  and_false, both_true, any, any-delete, any-delete_other, any-false_of, delete_where, select_where,
  update_where, In, In-delete, select-In, In-update, Bool-cases, none, String, List, Bool,
}
use recruiting_os.Auth.Tables.{UserRow, MemberRow}
use recruiting_os.Sources.Rows.{ContributorRow}
use recruiting_os.Sources.Stage.{is_version}
use recruiting_os.Queue.Rows.{JobRow}
use recruiting_os.Privacy.Rows.{AuditRow, Database}
use recruiting_os.Privacy.Export.{is_activity_of, is_contribution_of, is_credential_of, is_member}
use recruiting_os.Privacy.Erase.{
  Origin, delete_jobs, delete_membership, delete_user, delete_version, delete_versions, is_job,
  is_job_of, is_owned, is_session_of,
}
use recruiting_os.Privacy.Account.{
  forget, forget_contributions, is_scope_of, leave, orphans, without_orphans,
}

-- The jobs that the loop leaves.
delete_jobs-left :
    (tenant user : String) (rows jobs : List JobRow) (r : JobRow)
    → In r (delete_jobs tenant user rows jobs).1
    → In r jobs
      × ((s : JobRow) → In s rows → is_job_of user s ≡ true → is_job tenant s.id r ≡ false)
unfolding delete_jobs
delete_jobs-left tenant user [] jobs r m = (m, λ s n. elim n [ ])
delete_jobs-left tenant user (x ∷ rows) jobs r m = elim (Bool-cases (is_job_of user x)) [
  | inl t ↦
      let (a, b) =
        delete_jobs-left tenant user rows (delete_where (is_job tenant x.id) jobs) r
          (rw (t, delete_jobs) at m) in
      let (c, d) = In-delete (is_job tenant x.id) jobs r a in
      (
        c,
        λ s n u. elim n [
          | inl e ↦ subst (λ (k : JobRow). is_job tenant k.id r ≡ false) e d
          | inr n ↦ b s n u
        ],
      )
  | inr t ↦
      let (a, b) = delete_jobs-left tenant user rows jobs r (rw (t, delete_jobs) at m) in
      (a, λ s n u. elim n [ inl e ↦ absurd (cc (t, u, ap (is_job_of user) e)) | inr n ↦ b s n u ])
]

abbrev pub is_tenant_job_of : String → String → JobRow → Bool
is_tenant_job_of tenant user r = str_eq r.tenant_id tenant && is_job_of user r

delete_jobs-none :
    (tenant user : String) (jobs : List JobRow)
    → any
        (is_tenant_job_of tenant user)
        (delete_jobs tenant user (select_where (λ r. str_eq r.tenant_id tenant) jobs) jobs).1
      ≡ false
delete_jobs-none tenant user jobs = any-false_of (is_tenant_job_of tenant user) _ (λ r m.
    elim (Bool-cases (is_tenant_job_of tenant user r)) [
      | inr n ↦ n
      | inl t ↦
          let (a, b) = both_true (str_eq r.tenant_id tenant) (is_job_of user r) t in
          let (c, d) = delete_jobs-left tenant user _ jobs r m in
          let left = d r (select-In (λ (k : JobRow). str_eq k.tenant_id tenant) jobs r c a) b in
          absurd (
            cc (left, and_true (str_eq r.tenant_id tenant) (str_eq r.id r.id) a (str_eq_refl r.id)))
    ])

-- A cleared event has no actor.
cleared :
    (tenant user : String) (audits : List AuditRow)
    → any (is_activity_of tenant user) (
        update_where
          (is_activity_of tenant user)
          (λ (r : AuditRow). record r { actor_id = none })
          audits)
      ≡ false
cleared tenant user audits = any-false_of (is_activity_of tenant user) _ (λ r m.
    let (x, n, h) = In-update (is_activity_of tenant user) _ audits r m in
    elim h [
      | inl (t, e) ↦ ap (is_activity_of tenant user) e ∙ and_false (str_eq x.tenant_id tenant)
      | inr (t, e) ↦ ap (is_activity_of tenant user) e ∙ t
    ])

-- Of the user nothing is left in the tenant.
pub record IsForgotten {R : Type 0} (like : String → String → Bool) (tenant user : String)
    (q : Database R) : Type 0 where
  pub membership : any (is_member tenant user) q.members ≡ false
  pub contributions : any (is_contribution_of tenant user) q.contributors ≡ false
  pub credentials : any (is_credential_of tenant user) q.credentials ≡ false
  pub sessions : any (is_session_of tenant user) q.sessions ≡ false
  pub jobs : any (is_tenant_job_of tenant user) q.jobs ≡ false
  pub scopes : any (is_scope_of like tenant user) q.connectors ≡ false
  pub owned : any (is_owned tenant user) q.connectors ≡ false
  pub activity : any (is_activity_of tenant user) q.audits ≡ false

module _ {R : Type 0} (tenant : String) where
  delete_version-members :
      (id : String) (q : Database R) → (delete_version tenant id q).members ≡ q.members
  unfolding delete_version
  delete_version-members id q = elim (Bool-cases (any (is_version tenant id) q.versions)) [
    | inl t ↦ rw (t, delete_version) refl
    | inr t ↦ rw (t, delete_version) refl
  ]

  delete_version-contributors :
      (p : ContributorRow → Bool) (id : String) (q : Database R)
      → any p q.contributors ≡ false
      → any p (delete_version tenant id q).contributors ≡ false
  unfolding delete_version
  delete_version-contributors p id q h = elim (Bool-cases (any (is_version tenant id) q.versions)) [
    | inl t ↦ rw (t, delete_version) (any-delete_other p _ q.contributors h)
    | inr t ↦ rw (t, delete_version) h
  ]

  delete_versions-members :
      (os : List Origin) (q : Database R) → (delete_versions tenant os q).1.members ≡ q.members
  unfolding delete_versions
  delete_versions-members [] q = refl
  delete_versions-members (o ∷ os) q =
      delete_versions-members os (delete_version tenant o.id q) ∙ delete_version-members o.id q

  delete_versions-contributors :
      (p : ContributorRow → Bool) (os : List Origin) (q : Database R)
      → any p q.contributors ≡ false
      → any p (delete_versions tenant os q).1.contributors ≡ false
  unfolding delete_versions
  delete_versions-contributors p [] q h = h
  delete_versions-contributors p (o ∷ os) q h =
      delete_versions-contributors p os (delete_version tenant o.id q)
        (delete_version-contributors p o.id q h)

module _ {R : Type 0} (like : String → String → Bool) (tenant user : String) where
  -- Once the membership is gone the user is forgotten, and stays so when the identity goes.
  delete_membership-IsForgotten :
      (q : Database R)
      → any (is_member tenant user) q.members ≡ true
      → any (is_contribution_of tenant user) q.contributors ≡ false
      → IsForgotten like tenant user (delete_membership tenant user (forget like tenant user q))
  unfolding forget delete_membership
  delete_membership-IsForgotten q m c =
      rw (m, delete_membership)
        (record {
          membership = any-delete (is_member tenant user) q.members;
          contributions = any-delete (is_contribution_of tenant user) q.contributors;
          credentials = any-delete (is_credential_of tenant user) q.credentials;
          sessions = any-delete (is_session_of tenant user) q.sessions;
          jobs = delete_jobs-none tenant user q.jobs;
          scopes =
              any-delete_other (is_scope_of like tenant user) (is_owned tenant user) _
                (any-delete (is_scope_of like tenant user) q.connectors);
          owned = any-delete (is_owned tenant user) _;
          activity = cleared tenant user q.audits;
        })

  delete_user-IsForgotten :
      (q : Database R)
      → IsForgotten like tenant user q
      → IsForgotten like tenant user (delete_user user q)
  unfolding delete_user
  delete_user-IsForgotten q f =
      elim (Bool-cases (any (λ (u : UserRow). str_eq u.id user) q.users)) [
        | inl t ↦
            rw (t, delete_user)
              (record {
                membership = any-delete_other (is_member tenant user) _ q.members f.membership;
                contributions = f.contributions;
                credentials =
                    any-delete_other (is_credential_of tenant user) _ q.credentials f.credentials;
                sessions = any-delete_other (is_session_of tenant user) _ q.sessions f.sessions;
                jobs = f.jobs;
                scopes = f.scopes;
                owned = f.owned;
                activity = f.activity;
              })
        | inr t ↦ rw (t, delete_user) f
      ]

  pub leave-IsForgotten :
      (q : Database R)
      → any (is_member tenant user) q.members ≡ true
      → any (is_contribution_of tenant user) q.contributors ≡ false
      → IsForgotten like tenant user (leave tenant user (forget like tenant user q))
  unfolding leave
  leave-IsForgotten q m c =
      let q' = delete_membership tenant user (forget like tenant user q) in
      let f = delete_membership-IsForgotten q m c in
      elim (Bool-cases (any (λ (r : MemberRow). str_eq r.user_id user) q'.members)) [
        | inl t ↦ rw (t, leave) f
        | inr t ↦ rw (t, leave) (delete_user-IsForgotten q' f)
      ]

  pub without_orphans-members :
      (q : Database R) → (without_orphans tenant user q).members ≡ q.members
  without_orphans-members q = delete_versions-members tenant (orphans tenant user q) _

  pub without_orphans-contributors :
      (q : Database R)
      → any (is_contribution_of tenant user) (without_orphans tenant user q).contributors ≡ false
  without_orphans-contributors q =
      delete_versions-contributors tenant (is_contribution_of tenant user) (orphans tenant user q)
        (forget_contributions tenant user q)
        (any-delete (is_contribution_of tenant user) q.contributors)
