-- ===== src/Auth/Session.antt =====
-- `SessionService` of src/application/auth/session-service.ts. `hash` is SHA-256 in hexadecimal
-- (`hashSecret`), and the random tokens and the id are arguments.
use recruiting_os.Common.{
  ◌*◌, ◌&&◌, str_eq, some, ok, not, none, if◌then◌else◌, false, err, String, Result, Option, List,
  Clock, Bool, ℕ, ◌+◌,
}
use recruiting_os.Auth.Tables.{SessionAuthentication, OidcIdentity, Auth}
use recruiting_os.Domain.{Role, AuthPrincipal}
use recruiting_os.Auth.Repository.{
  upsert_identity, revoke_session, create_session, authenticate_session,
}

pub record IssuedSession : Type 0 where
  pub token : String
  pub csrf_token : String
  pub expires_at : ℕ
  pub principal : AuthPrincipal

-- The random values that one call of `issue` draws.
pub record Drawn : Type 0 where
  pub token : String
  pub csrf_token : String
  pub id : String

-- The readings of the clock from the n-th one on.
abbrev pub from : ℕ → Clock → Clock
from n clock k = clock (k + n)

module _ (hash : String → String) where
  unfoldable pub authenticate : Option String → Clock → Auth → Option SessionAuthentication × Auth
  authenticate none clock q = (none, q)
  authenticate (some token) clock q =
      if str_eq token "" then (none, q) else authenticate_session (hash token) clock q

  unfoldable pub verify_csrf : SessionAuthentication → Option String → Bool
  verify_csrf authentication none = false
  verify_csrf authentication (some provided) =
      not (str_eq provided "") && str_eq (hash provided) authentication.csrf_hash

  unfoldable pub revoke : AuthPrincipal → Clock → Auth → Auth
  revoke principal clock q = revoke_session principal.session_id principal.tenant_id clock q

  module _ (stable_id : String → String → String) (ttl_seconds : ℕ) where
    -- What is answered once the new session has been loaded.
    abbrev pub issued :
        Drawn → ℕ → Option SessionAuthentication × Auth → Result String IssuedSession × Auth
    issued drawn expires (none, q) = (err "Created session could not be loaded", q)
    issued drawn expires (some a, q) = (
      ok (record {
        token = drawn.token;
        csrf_token = drawn.csrf_token;
        expires_at = expires;
        principal = a.principal;
      }),
      q,
    )

    -- Each step is a transaction of its own, so an error keeps what the earlier ones wrote.
    unfoldable pub issue :
        OidcIdentity
        → String
        → List Role
        → Drawn
        → Clock
        → Auth
        → Result String IssuedSession × Auth
    issue identity tenant roles drawn clock q =
        elim (upsert_identity stable_id identity tenant roles clock q) [
          | err e ↦ (err e, q)
          | ok (user, known) ↦
              let expires = clock 1 + ttl_seconds * 1000 in
              elim (create_session
                (record {
                  id = drawn.id;
                  tenant_id = tenant;
                  user_id = user;
                  token_hash = hash drawn.token;
                  csrf_hash = hash drawn.csrf_token;
                  expires_at = expires;
                })
                (from 2 clock) known) [
                  | err e ↦ (err e, known)
                  | ok created ↦
                      issued drawn expires
                        (authenticate_session (hash drawn.token) (from 3 clock) created)
                ]
        ]
