-- ===== src/Auth/Revocation.antt =====
-- A session that has been revoked over later calls.
use recruiting_os.Common.{
  ◌⊎◌, row_of_key, In-update, In-All, ◌≢◌, some, map, err, eq_iff, ap, any-witness, any-true_of,
  Result-cases, Result, In-append_left, In, Distinct, All-In, ◌≡◌, ◌∷◌, ◌∙◌, update_where, true,
  sym, subst, str_eq, refl, ok, inr, inl, false, arith, any, [], String, Option-cases, List, Clock,
  Bool-cases, Bool, All-update, All-append, All, ◌++◌,
}
use recruiting_os.Auth.Tables.{SessionAuthentication, SessionRow, OidcIdentity, NewSession, Auth}
use recruiting_os.Domain.{Role}
use recruiting_os.Auth.Repository.{
  user_id_of, upsert_user, revoke_session, revoke_row, promote_member, is_session, insert_member,
  upsert_identity, touch, session_row, joined, is_null, create_session, authenticate_session,
}
use recruiting_os.Auth.Machine.{auth_step, auth_run, after_identify, after_create, AuthCall}
use recruiting_os.Auth.Revoked.{authenticate_session-Proof}

-- A session of this id is there, and every one is revoked.
abbrev pub IsDead : String → List SessionRow → Type 0
IsDead id sessions =
    (any (λ (s : SessionRow). str_eq s.id id) sessions ≡ true)
    × All (λ (s : SessionRow). str_eq s.id id ≡ true → is_null s.revoked_at ≡ false) sessions

any-ids :
    (p : SessionRow → Bool) (f : SessionRow → SessionRow) (id : String) (sessions : List SessionRow)
    → ((s : SessionRow) → (f s).id ≡ s.id)
    → any (λ (s : SessionRow). str_eq s.id id) (update_where p f sessions)
      ≡ any (λ (s : SessionRow). str_eq s.id id) sessions
any-ids p f id [] keep = refl
any-ids p f id (x ∷ xs) keep = elim (Bool-cases (p x)) [
  | inl t ↦ ground (arith, keep x, any-ids p f id xs keep)
  | inr t ↦ ground (arith, any-ids p f id xs keep)
]

update-IsDead :
    (p : SessionRow → Bool) (f : SessionRow → SessionRow) (id : String) (sessions : List SessionRow)
    → ((s : SessionRow) → (f s).id ≡ s.id)
    → ((s : SessionRow) → is_null s.revoked_at ≡ false → is_null (f s).revoked_at ≡ false)
    → IsDead id sessions
    → IsDead id (update_where p f sessions)
update-IsDead p f id sessions keep stays d = (
  any-ids p f id sessions keep ∙ d.0,
  All-update (λ (s : SessionRow). str_eq s.id id ≡ true → is_null s.revoked_at ≡ false) p f sessions
      (λ s m t h e. stays s (h (subst (λ k. str_eq k id ≡ true) (keep s) e))) d.1,
)

touch-IsDead :
    (token_hash : String) (clock : Clock) (id : String) (q : Auth)
    → IsDead id q.sessions
    → IsDead id (authenticate_session token_hash clock q).1.sessions
unfolding authenticate_session
touch-IsDead token_hash clock id q d =
    elim (Option-cases (joined token_hash (clock 0) q.members q.sessions)) [
      | inl j ↦ rw (j, authenticate_session) d
      | inr ((s, m), j) ↦
          rw (j, authenticate_session)
            (update-IsDead (λ r. str_eq r.id s.id) (touch (clock 1)) id q.sessions (λ r. refl)
              (λ r h. h) d)
    ]

created :
    (input : NewSession) (clock : Clock) (q q' : Auth)
    → create_session input clock q ≡ ok q'
    → (any (λ (s : SessionRow). str_eq s.id input.id) q.sessions ≡ false)
      × (q'.sessions ≡ q.sessions ++ session_row input (clock 0) ∷ [])
unfolding create_session
created input clock q q' e = ground arith

create-IsDead :
    (input : NewSession) (clock : Clock) (id : String) (q q' : Auth)
    → create_session input clock q ≡ ok q'
    → IsDead id q.sessions
    → IsDead id q'.sessions
create-IsDead input clock id q q' e d =
    let (free, same) = created input clock q q' e in
    let (s, m, t) = any-witness (λ (s : SessionRow). str_eq s.id id) q.sessions d.0 in
    subst (IsDead id) (sym same) (
      any-true_of (λ (s : SessionRow). str_eq s.id id) _ s
          (In-append_left q.sessions (session_row input (clock 0) ∷ []) s m) t,
      All-append (λ (s : SessionRow). str_eq s.id id ≡ true → is_null s.revoked_at ≡ false)
          q.sessions _ d.1
          (
            (λ u. absurd (
                cc (
                  subst (λ k. any (λ (s : SessionRow). str_eq s.id k) q.sessions ≡ false)
                      ((eq_iff input.id id).0 u) free,
                  d.0,
                ))),
            tt,
          ),
    )

own_session : (x : SessionRow) → is_session x.id x.tenant_id x ≡ true
own_session x = ground (arith, (eq_iff x.id x.id).1 refl, (eq_iff x.tenant_id x.tenant_id).1 refl)

module _ (stable_id : String → String → String) where
  upsert_identity-sessions :
      (identity : OidcIdentity) (tenant : String) (roles : List Role) (clock : Clock) (q q' : Auth)
      (user : String)
      → upsert_identity stable_id identity tenant roles clock q ≡ ok (user, q')
      → q'.sessions ≡ q.sessions
  unfolding upsert_identity
  upsert_identity-sessions identity tenant roles clock q q' user e =
      let id = user_id_of stable_id identity in
      elim (Result-cases (upsert_user id identity (clock 0) q.users)) [
        | inl (x, u) ↦ absurd (cc (rw (u, upsert_identity) at e))
        | inr (users, u) ↦
            elim (Result-cases (insert_member tenant id roles (clock 0) users q.members)) [
              | inl (x, i) ↦ absurd (cc (rw (u, i, upsert_identity) at e))
              | inr (members, i) ↦
                  elim (Result-cases (promote_member tenant id roles (clock 0) members)) [
                    | inl (x, p) ↦ absurd (cc (rw (u, i, p, upsert_identity) at e))
                    | inr (promoted, p) ↦ let done = rw (u, i, p, upsert_identity) at e in cc done
                  ]
            ]
      ]

  auth_step-IsDead :
      (clock : Clock) (call : AuthCall) (id : String) (q : Auth)
      → IsDead id q.sessions
      → IsDead id (auth_step stable_id clock call q).sessions
  unfolding auth_step revoke_session
  auth_step-IsDead clock (AuthCall.identifies identity tenant roles) id q d =
      identified (upsert_identity stable_id identity tenant roles clock q) refl
    where
      identified :
          (r : Result String (String × Auth))
          → upsert_identity stable_id identity tenant roles clock q ≡ r
          → IsDead id (after_identify q r).sessions
      identified (ok (user, q')) e =
          subst (IsDead id) (sym (upsert_identity-sessions identity tenant roles clock q q' user e))
            d
      identified (err m) e = d
  auth_step-IsDead clock (AuthCall.creates input) id q d = made (create_session input clock q) refl
    where
      made :
          (r : Result String Auth)
          → create_session input clock q ≡ r
          → IsDead id (after_create q r).sessions
      made (ok q') e = create-IsDead input clock id q q' e d
      made (err m) e = d
  auth_step-IsDead clock (AuthCall.authenticates token_hash) id q d =
      touch-IsDead token_hash clock id q d
  auth_step-IsDead clock (AuthCall.revokes other tenant) id q d =
      update-IsDead (is_session other tenant) (revoke_row (clock 0)) id q.sessions (λ s. refl)
        (λ s h. refl) d

  auth_run-IsDead :
      (h : List (Clock × AuthCall)) (id : String) (q : Auth)
      → IsDead id q.sessions
      → IsDead id (auth_run stable_id h q).sessions
  unfolding auth_run
  auth_run-IsDead [] id q d = d
  auth_run-IsDead ((clock, call) ∷ h) id q d =
      auth_run-IsDead h id (auth_step stable_id clock call q) (auth_step-IsDead clock call id q d)

  revoked-IsDead :
      (clock : Clock) (q : Auth) (x : SessionRow)
      → Distinct (map (λ (s : SessionRow). s.id) q.sessions)
      → In x q.sessions
      → IsDead x.id (revoke_session x.id x.tenant_id clock q).sessions
  unfolding revoke_session
  revoked-IsDead clock q x d m = (
    any-ids (is_session x.id x.tenant_id) (revoke_row (clock 0)) x.id q.sessions (λ s. refl)
        ∙ any-true_of (λ (s : SessionRow). str_eq s.id x.id) q.sessions x m
            ((eq_iff x.id x.id).1 refl),
    In-All (λ (s : SessionRow). str_eq s.id x.id ≡ true → is_null s.revoked_at ≡ false) _
        (λ a n t. dead a (In-update _ _ q.sessions a n) t),
  )
    where
      dead :
          (a : SessionRow)
          → (y : SessionRow) × In y q.sessions
            × (((is_session x.id x.tenant_id y ≡ true) × (a ≡ revoke_row (clock 0) y))
                ⊎ ((is_session x.id x.tenant_id y ≡ false) × (a ≡ y)))
          → str_eq a.id x.id ≡ true
          → is_null a.revoked_at ≡ false
      dead a (y, n, inl (t, e)) u =
          subst (λ (b : SessionRow). is_null b.revoked_at ≡ false) (sym e) refl
      dead a (y, n, inr (t, e)) u =
          let known =
            row_of_key (λ (s : SessionRow). s.id) q.sessions y x d n m
              ((eq_iff y.id x.id).0 (subst (λ (b : SessionRow). str_eq b.id x.id ≡ true) e u)) in
          absurd (
            cc (
              subst (λ (b : SessionRow). is_session x.id x.tenant_id b ≡ false) known t,
              own_session x,
            ))

  -- Once `revokeSession` has been called with the id and the tenant of a session, nobody
  -- authenticates as that session again: not with any token, at any time, after any history of
  -- calls, new sessions included.
  pub revoke_session-lasts :
      (clock later : Clock) (q : Auth) (x : SessionRow) (h : List (Clock × AuthCall))
      (token_hash : String) (a : SessionAuthentication)
      → Distinct (map (λ (s : SessionRow). s.id) q.sessions)
      → In x q.sessions
      → (authenticate_session token_hash later
          (auth_run stable_id h (revoke_session x.id x.tenant_id clock q))).0
        ≡ some a
      → a.principal.session_id ≢ x.id
  revoke_session-lasts clock later q x h token_hash a d m e same =
      let proof = authenticate_session-Proof token_hash later _ a e in
      let dead =
        auth_run-IsDead h x.id (revoke_session x.id x.tenant_id clock q)
          (revoked-IsDead clock q x d m) in
      absurd (
        cc (
          All-In (λ (s : SessionRow). str_eq s.id x.id ≡ true → is_null s.revoked_at ≡ false) _
              proof.session dead.1 proof.session_in
              ((eq_iff proof.session.id x.id).1 (
                sym (ap (λ (b : SessionAuthentication). b.principal.session_id) proof.answer)
                ∙ same)),
          ap is_null proof.not_revoked,
        ))
