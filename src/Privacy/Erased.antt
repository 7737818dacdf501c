-- ===== src/Privacy/Erased.antt =====
-- What a call of `eraseAccount` of src/infrastructure/privacy/sqlite-privacy-repository.ts leaves.
use recruiting_os.Common.{
  ◌≡◌, ◌∙◌, ◌∷◌, ◌++◌, ◌||◌, [], sym, ap, subst, arith, refl, inl, inr, true, false, str_eq,
  and_false, any, any-append, Bool-cases, none, map, concat_nil, concat_snoc, Result-cases, ok,
  ok_value, String, Option-cases, List, Clock, Bool, ℕ, find_where, find_where-missing,
}
use recruiting_os.Domain.{property}
use recruiting_os.Auth.Tables.{UserRow, MemberRow}
use recruiting_os.Queue.Rows.{JobRow}
use recruiting_os.Privacy.Rows.{AccountErasureResult, AuditRow, Database}
use recruiting_os.Privacy.Export.{export_account, find_account, is_activity_of, is_member}
use recruiting_os.Privacy.Erase.{is_override_by}
use recruiting_os.Privacy.Account.{forget, leave, orphans, without_orphans}
use recruiting_os.Privacy.Transaction.{
  affected, erase_account, erasure_event, insert_audit, insert_job, insert_jobs, reconcile,
  reconcile_job,
}
use recruiting_os.Privacy.Forgotten.{
  IsForgotten, is_tenant_job_of, leave-IsForgotten, without_orphans-contributors,
  without_orphans-members,
}

module _ (stable_id : String → String → String) where
  insert_job-ok :
      (r : JobRow) (jobs jobs' : List JobRow)
      → insert_job stable_id r jobs ≡ ok jobs'
      → jobs' ≡ jobs ++ r ∷ []
  unfolding insert_job
  insert_job-ok r jobs jobs' e = ground arith

  insert_jobs-ok :
      (rows jobs jobs' : List JobRow)
      → insert_jobs stable_id rows jobs ≡ ok jobs'
      → jobs' ≡ jobs ++ rows
  unfolding insert_jobs
  insert_jobs-ok [] jobs jobs' e = sym (ok_value jobs jobs' e) ∙ sym (concat_nil jobs)
  insert_jobs-ok (r ∷ rows) jobs jobs' e = elim (Result-cases (insert_job stable_id r jobs)) [
    | inl (m, u) ↦ absurd (cc (rw (u, insert_jobs) at e))
    | inr (jobs1, u) ↦
        insert_jobs-ok rows jobs1 jobs' (rw (u, insert_jobs) at e)
        ∙ ap (λ k. k ++ rows) (insert_job-ok r jobs jobs1 u)
        ∙ concat_snoc jobs rows r
  ]

  insert_audit-ok :
      (r : AuditRow) (audits audits' : List AuditRow)
      → insert_audit stable_id r audits ≡ ok audits'
      → audits' ≡ audits ++ r ∷ []
  unfolding insert_audit
  insert_audit-ok r audits audits' e = ground arith

  reconcile_job-none :
      (tenant user operation : String) (now : ℕ) (organizations : List String)
      → any
          (is_tenant_job_of tenant user)
          (map (reconcile_job stable_id tenant user operation now) organizations)
        ≡ false
  unfolding property
  reconcile_job-none tenant user operation now [] = refl
  reconcile_job-none tenant user operation now (o ∷ os) =
      ap
        (λ b.
          b
          || any (is_tenant_job_of tenant user)
              (map (reconcile_job stable_id tenant user operation now) os))
        (and_false (str_eq tenant tenant))
      ∙ reconcile_job-none tenant user operation now os

  module _ {R : Type 0} (like : String → String → Bool) where
    pub reconcile-ok :
        (rows : List JobRow) (event : AuditRow) (result r : AccountErasureResult)
        (q q' : Database R)
        → reconcile stable_id like rows event result q ≡ ok (r, q')
        → record q { jobs = q.jobs ++ rows; audits = q.audits ++ event ∷ [] } ≡ q'
    unfolding reconcile
    reconcile-ok rows event result r q q' e =
        elim (Result-cases (insert_jobs stable_id rows q.jobs)) [
          | inl (m, u) ↦ absurd (cc (rw (u, reconcile) at e))
          | inr (jobs, u) ↦ elim (Result-cases (insert_audit stable_id event q.audits)) [
            | inl (m, v) ↦ absurd (cc (rw (u, v, reconcile) at e))
            | inr (audits, v) ↦
                ap (λ (k : List JobRow). record q { jobs = k; audits = q.audits ++ event ∷ [] })
                  (sym (insert_jobs-ok rows q.jobs jobs u))
                ∙ ap (λ (k : List AuditRow). record q { jobs = jobs; audits = k })
                    (sym (insert_audit-ok event q.audits audits v))
                ∙ ap (λ (k : AccountErasureResult × Database R). k.1)
                    (ok_value (result, record q { jobs = jobs; audits = audits }) (r, q')
                      (rw (u, v, reconcile) at e))
          ]
        ]

    reconcile-IsForgotten :
        (tenant user operation : String) (now : ℕ) (organizations : List String)
        (result r : AccountErasureResult) (q q' : Database R)
        → reconcile stable_id like
            (map (reconcile_job stable_id tenant user operation now) organizations)
            (erasure_event stable_id tenant user operation now result)
            result
            q
          ≡ ok (r, q')
        → IsForgotten like tenant user q
        → IsForgotten like tenant user q'
    reconcile-IsForgotten tenant user operation now organizations result r q q' e f =
        subst (IsForgotten like tenant user) (reconcile-ok _ _ result r q q' e) (record {
          membership = f.membership;
          contributions = f.contributions;
          credentials = f.credentials;
          sessions = f.sessions;
          jobs =
              any-append (is_tenant_job_of tenant user) q.jobs _ f.jobs
                (reconcile_job-none tenant user operation now organizations);
          scopes = f.scopes;
          owned = f.owned;
          activity =
              any-append (is_activity_of tenant user) q.audits _ f.activity
                (ap (λ b. b || false) (and_false (str_eq tenant tenant)));
        })

    -- The tables before the jobs and the audit event are written.
    abbrev pub left : String → String → Database R → Database R
    left tenant user q = leave tenant user (forget like tenant user (without_orphans tenant user q))

    -- A call that goes through for a member has come to the end of the transaction.
    pub erase_account-reconciles :
        (tenant user operation : String) (clock : Clock) (q q' : Database R)
        (r : AccountErasureResult)
        → any (is_member tenant user) q.members ≡ true
        → erase_account stable_id like tenant user operation clock q ≡ ok (r, q')
        → (result : AccountErasureResult) × (reconcile stable_id like
              (map
                (reconcile_job stable_id tenant user operation (clock 0))
                (affected (orphans tenant user q)))
              (erasure_event stable_id tenant user operation (clock 0) result)
              result
              (left tenant user q)
            ≡ ok (r, q'))
    unfolding erase_account
    erase_account-reconciles tenant user operation clock q q' r m e =
        elim (Bool-cases (any (is_override_by tenant user) q.overrides)) [
          | inl o ↦ absurd (cc (rw (m, o, erase_account) at e))
          | inr o ↦ (_, rw (m, o, erase_account) at e)
        ]

    erase_account-IsForgotten :
        (tenant user operation : String) (clock : Clock) (q q' : Database R)
        (r : AccountErasureResult)
        → any (is_member tenant user) q.members ≡ true
        → erase_account stable_id like tenant user operation clock q ≡ ok (r, q')
        → IsForgotten like tenant user q'
    erase_account-IsForgotten tenant user operation clock q q' r m e =
        let (result, k) = erase_account-reconciles tenant user operation clock q q' r m e in
        reconcile-IsForgotten tenant user operation (clock 0) (affected (orphans tenant user q))
          result r (left tenant user q) q' k
          (leave-IsForgotten like tenant user (without_orphans tenant user q)
            (ap (any (is_member tenant user)) (without_orphans-members like tenant user q) ∙ m)
            (without_orphans-contributors like tenant user q))

find_account-none :
    (tenant user : String) (users : List UserRow) (members : List MemberRow)
    → any (is_member tenant user) members ≡ false
    → find_account tenant user users members ≡ none
unfolding find_account
find_account-none tenant user users members m =
    elim (Option-cases (find_where (λ (u : UserRow). str_eq u.id user) users)) [
      | inl e ↦ rw (e, find_account) refl
      | inr (u, e) ↦ rw (e, find_where-missing (is_member tenant user) members m, find_account) refl
    ]

export_account-none :
    {R : Type 0} (tenant user : String) (clock : Clock) (q : Database R)
    → any (is_member tenant user) q.members ≡ false
    → export_account tenant user clock q ≡ none
unfolding export_account
export_account-none tenant user clock q m =
    rw (find_account-none tenant user q.users q.members m, export_account) refl

-- When `eraseAccount` goes through for a member of a tenant, the tenant holds no membership,
-- contribution, credential, session, job or audit event of the user and no connector state that
-- the user owns or that stands under the user's scopes, and `exportAccount` finds no account.
pub erase_account-forgets :
    {R : Type 0} (stable_id : String → String → String) (like : String → String → Bool)
    (tenant user operation : String) (clock later : Clock) (q q' : Database R)
    (r : AccountErasureResult)
    → any (is_member tenant user) q.members ≡ true
    → erase_account stable_id like tenant user operation clock q ≡ ok (r, q')
    → IsForgotten like tenant user q' × (export_account tenant user later q' ≡ none)
erase_account-forgets stable_id like tenant user operation clock later q q' r m e =
    let f = erase_account-IsForgotten stable_id like tenant user operation clock q q' r m e in
    (f, export_account-none tenant user later q' f.membership)
