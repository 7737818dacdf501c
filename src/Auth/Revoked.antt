-- ===== src/Auth/Revoked.antt =====
-- What `authenticateSession` accepts, and that a revoked session stays revoked.
use recruiting_os.Common.{
  refl, ltb→lt, find_where-some, eq_iff, arith, Option, ◌≡◌, ◌∷◌, true, some, none, inr, inl,
  find_where, [], String, Option-cases, List, In, Clock, Bool-cases, ℕ, ◌<◌,
}
use recruiting_os.Auth.Tables.{SessionRow, SessionAuthentication, MemberRow, Auth}
use recruiting_os.Auth.Repository.{
  is_null, joined, is_member, is_live, authentication_of, authenticate_session,
}

joined-some :
    (token_hash : String) (now : ℕ) (members : List MemberRow) (sessions : List SessionRow)
    (s : SessionRow) (m : MemberRow)
    → joined token_hash now members sessions ≡ some (s, m)
    → In s sessions
      × (is_live token_hash now s ≡ true)
      × (find_where (is_member s.tenant_id s.user_id) members ≡ some m)
unfolding joined
joined-some token_hash now members [] s m e = cc
joined-some token_hash now members (x ∷ xs) s m e = elim (Bool-cases (is_live token_hash now x)) [
  | inl l ↦ elim (Option-cases (find_where (is_member x.tenant_id x.user_id) members)) [
    | inl f ↦
        let (n, v, g) = joined-some token_hash now members xs s m (rw (l, f, joined) at e) in
        (inr n, v, g)
    | inr (k, f) ↦ let same = rw (l, f, joined) at e in (inl (cc same), cc (same, l), cc (same, f))
  ]
  | inr l ↦
      let (n, v, g) = joined-some token_hash now members xs s m (rw (l, joined) at e) in
      (inr n, v, g)
]

is_null-none : (o : Option ℕ) → is_null o ≡ true → o ≡ none
is_null-none none h = refl
is_null-none (some t) h = cc

-- The session and the membership behind an authentication.
pub record Proof (token_hash : String) (now : ℕ) (q : Auth) (a : SessionAuthentication)
    : Type 0 where
  pub session : SessionRow
  pub member : MemberRow
  pub session_in : In session q.sessions
  pub member_in : In member q.members
  pub same_token : session.token_hash ≡ token_hash
  pub not_revoked : session.revoked_at ≡ none
  pub not_expired : now < session.expires_at
  pub same_user : (member.tenant_id ≡ session.tenant_id) × (member.user_id ≡ session.user_id)
  pub answer : a ≡ authentication_of session member

-- Whoever authenticates holds the token of a session in the tables that is neither revoked nor
-- expired, and is a member of its tenant; the principal has the user, tenant and id of that session
-- and the roles and organizations of that membership.
pub authenticate_session-Proof :
    (token_hash : String) (clock : Clock) (q : Auth) (a : SessionAuthentication)
    → (authenticate_session token_hash clock q).0 ≡ some a
    → Proof token_hash (clock 0) q a
unfolding authenticate_session
authenticate_session-Proof token_hash clock q a e =
    elim (Option-cases (joined token_hash (clock 0) q.members q.sessions)) [
      | inl j ↦ absurd (cc (rw (j, authenticate_session) at e))
      | inr ((s, m), j) ↦
          let (n, l, f) = joined-some token_hash (clock 0) q.members q.sessions s m j in
          let (k, t) = find_where-some (is_member s.tenant_id s.user_id) q.members m f in
          record {
            session = s;
            member = m;
            session_in = n;
            member_in = k;
            same_token = (eq_iff s.token_hash token_hash).0 (ground arith);
            not_revoked = is_null-none s.revoked_at (ground arith);
            not_expired = ltb→lt (clock 0) s.expires_at (ground arith);
            same_user = (
              (eq_iff m.tenant_id s.tenant_id).0 (ground arith),
              (eq_iff m.user_id s.user_id).0 (ground arith),
            );
            answer = cc (rw (j, authenticate_session) at e);
          }
    ]
