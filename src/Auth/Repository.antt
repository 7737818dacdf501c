-- ===== src/Auth/Repository.antt =====
-- src/infrastructure/auth/sqlite-auth-repository.ts. `stable_id` is the digest behind `stableId`.
use Prim.Native.String.{◌++◌ as ◌+++◌}
use recruiting_os.Common.{
  ◌∷◌, ◌&&◌, update_where, true, str_eq, some, ok, none, ltb, if◌then◌else◌, find_where, false, err,
  any, [], String, Result, Option, List, Clock, Bool, ℕ, ◌++◌,
}
use recruiting_os.Domain.{Role}
use recruiting_os.Auth.Tables.{
  UserRow, SessionRow, SessionAuthentication, OidcIdentity, NewSession, MemberRow, Auth,
}
use recruiting_os.Queue.Enqueue.{ensure_tenant}
use recruiting_os.Auth.Roles.{has_role}

-- `on conflict(issuer,subject)`
abbrev pub is_identity : OidcIdentity → UserRow → Bool
is_identity identity r = str_eq r.issuer identity.issuer && str_eq r.subject identity.subject

abbrev pub new_user : String → OidcIdentity → ℕ → UserRow
new_user id identity now = record {
  id = id;
  issuer = identity.issuer;
  subject = identity.subject;
  email = identity.email;
  display_name = identity.display_name;
  created_at = now;
  updated_at = now;
}

abbrev pub see_user : OidcIdentity → ℕ → UserRow → UserRow
see_user identity now r = record r {
  email = identity.email;
  display_name = identity.display_name;
  updated_at = now;
}

unfoldable pub upsert_user : String → OidcIdentity → ℕ → List UserRow → Result String (List UserRow)
upsert_user id identity now users =
    if any (is_identity identity) users
    then ok (update_where (is_identity identity) (see_user identity now) users)
    else if any (λ r. str_eq r.id id) users
    then err "UNIQUE constraint failed: users.id"
    else ok (users ++ new_user id identity now ∷ [])

-- `where tenant_id=? and user_id=?`
abbrev pub is_member : String → String → MemberRow → Bool
is_member tenant user r = str_eq r.tenant_id tenant && str_eq r.user_id user

abbrev pub new_member : String → String → List Role → ℕ → MemberRow
new_member tenant user roles now = record {
  tenant_id = tenant;
  user_id = user;
  roles = roles;
  organization_ids = [];
  created_at = now;
  updated_at = now;
}

-- `on conflict(tenant_id,user_id) do nothing`; a row that is inserted needs its user.
unfoldable pub insert_member :
    String → String → List Role → ℕ → List UserRow → List MemberRow → Result String (List MemberRow)
insert_member tenant user roles now users members =
    if any (is_member tenant user) members
    then ok members
    else if any (λ r. str_eq r.id user) users
    then ok (members ++ new_member tenant user roles now ∷ [])
    else err "FOREIGN KEY constraint failed"

-- `set.add(role)`, and `[...new Set(roles)]`
abbrev pub set_add : Role → List Role → List Role
set_add role roles = if has_role role roles then roles else roles ++ role ∷ []

unfoldable pub add_all : List Role → List Role → List Role
add_all [] set = set
add_all (role ∷ roles) set = add_all roles (set_add role set)

-- The roles that an administrator's row is given.
abbrev pub promoted_roles : List Role → List Role
promoted_roles roles = set_add Role.platform_admin (add_all roles [])

abbrev pub promote : List Role → ℕ → MemberRow → MemberRow
promote roles now r = record r { roles = promoted_roles roles; updated_at = now }

-- The branch on `defaultRoles.includes('platform_admin')`.
unfoldable pub promote_member :
    String → String → List Role → ℕ → List MemberRow → Result String (List MemberRow)
promote_member tenant user roles now members =
    if has_role Role.platform_admin roles
    then elim (find_where (is_member tenant user) members) [
      | none ↦ err "Cannot read properties of undefined (reading 'roles')"
      | some m ↦ ok (update_where (is_member tenant user) (promote m.roles now) members)
    ]
    else ok members

module _ (stable_id : String → String → String) where
  abbrev pub user_id_of : OidcIdentity → String
  user_id_of identity = stable_id "usr" (identity.issuer +++ ":" +++ identity.subject)

  -- A statement that throws rolls the transaction back, so an error leaves the tables alone.
  unfoldable pub upsert_identity :
      OidcIdentity → String → List Role → Clock → Auth → Result String (String × Auth)
  upsert_identity identity tenant roles clock q =
      let id = user_id_of identity in
      let now = clock 0 in
      elim (upsert_user id identity now q.users) [
        | err e ↦ err e
        | ok users ↦ elim (insert_member tenant id roles now users q.members) [
          | err e ↦ err e
          | ok members ↦ elim (promote_member tenant id roles now members) [
            | err e ↦ err e
            | ok promoted ↦ ok (
              id,
              record q {
                tenants = ensure_tenant tenant q.tenants;
                users = users;
                members = promoted;
              },
            )
          ]
        ]
      ]

abbrev pub session_row : NewSession → ℕ → SessionRow
session_row input now = record {
  id = input.id;
  tenant_id = input.tenant_id;
  user_id = input.user_id;
  token_hash = input.token_hash;
  csrf_hash = input.csrf_hash;
  expires_at = input.expires_at;
  revoked_at = none;
  created_at = now;
  last_seen_at = now;
}

unfoldable pub create_session : NewSession → Clock → Auth → Result String Auth
create_session input clock q =
    if any (λ s. str_eq s.id input.id) q.sessions
    then err "UNIQUE constraint failed: sessions.id"
    else if any (λ s. str_eq s.token_hash input.token_hash) q.sessions
    then err "UNIQUE constraint failed: sessions.token_hash"
    else if any (λ t. str_eq t input.tenant_id) q.tenants
        && any (λ u. str_eq u.id input.user_id) q.users
    then ok (record q { sessions = q.sessions ++ session_row input (clock 0) ∷ [] })
    else err "FOREIGN KEY constraint failed"

abbrev pub is_null : Option ℕ → Bool
is_null none = true
is_null (some t) = false

-- `s.token_hash=? and s.revoked_at is null and s.expires_at>?`
abbrev pub is_live : String → ℕ → SessionRow → Bool
is_live token_hash now s =
    str_eq s.token_hash token_hash && (is_null s.revoked_at && ltb now s.expires_at)

abbrev pub authentication_of : SessionRow → MemberRow → SessionAuthentication
authentication_of s m = record {
  principal = record {
    user_id = s.user_id;
    tenant_id = s.tenant_id;
    roles = m.roles;
    organization_ids = m.organization_ids;
    session_id = s.id;
  };
  csrf_hash = s.csrf_hash;
  expires_at = s.expires_at;
}

-- The row of the join: a live session with the membership of its user in its tenant.
unfoldable pub joined :
    String → ℕ → List MemberRow → List SessionRow → Option (SessionRow × MemberRow)
joined token_hash now members [] = none
joined token_hash now members (s ∷ rest) =
    let later = joined token_hash now members rest in
    if is_live token_hash now s
    then elim (find_where (is_member s.tenant_id s.user_id) members) [
      | none ↦ later
      | some m ↦ some (s, m)
    ]
    else later

abbrev pub touch : ℕ → SessionRow → SessionRow
touch now s = record s { last_seen_at = now }

unfoldable pub authenticate_session : String → Clock → Auth → Option SessionAuthentication × Auth
authenticate_session token_hash clock q = elim (joined token_hash (clock 0) q.members q.sessions) [
  | none ↦ (none, q)
  | some (s, m) ↦ (
    some (authentication_of s m),
    record q { sessions = update_where (λ r. str_eq r.id s.id) (touch (clock 1)) q.sessions },
  )
]

abbrev pub is_session : String → String → SessionRow → Bool
is_session id tenant s = str_eq s.id id && str_eq s.tenant_id tenant

abbrev pub revoke_row : ℕ → SessionRow → SessionRow
revoke_row now s = record s { revoked_at = some now }

unfoldable pub revoke_session : String → String → Clock → Auth → Auth
revoke_session id tenant clock q = record q {
  sessions = update_where (is_session id tenant) (revoke_row (clock 0)) q.sessions;
}
