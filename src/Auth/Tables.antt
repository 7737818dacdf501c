-- ===== src/Auth/Tables.antt =====
-- The tables that identities and sessions stand in (src/store.ts), and the values of
-- src/application/ports/auth-repository.ts.
use recruiting_os.Common.{String, Option, List, ℕ}
use recruiting_os.Domain.{AuthPrincipal, Role}

pub record OidcIdentity : Type 0 where
  pub issuer : String
  pub subject : String
  pub email : Option String
  pub display_name : Option String

pub record UserRow : Type 0 where
  pub id : String
  pub issuer : String
  pub subject : String
  pub email : Option String
  pub display_name : Option String
  pub created_at : ℕ
  pub updated_at : ℕ

pub record MemberRow : Type 0 where
  pub tenant_id : String
  pub user_id : String
  pub roles : List Role
  pub organization_ids : List String
  pub created_at : ℕ
  pub updated_at : ℕ

pub record SessionRow : Type 0 where
  pub id : String
  pub tenant_id : String
  pub user_id : String
  pub token_hash : String
  pub csrf_hash : String
  pub expires_at : ℕ
  pub revoked_at : Option ℕ
  pub created_at : ℕ
  pub last_seen_at : ℕ

pub record Auth : Type 0 where
  pub tenants : List String
  pub users : List UserRow
  pub members : List MemberRow
  pub sessions : List SessionRow

-- The argument of `createSession`.
pub record NewSession : Type 0 where
  pub id : String
  pub tenant_id : String
  pub user_id : String
  pub token_hash : String
  pub csrf_hash : String
  pub expires_at : ℕ

pub record SessionAuthentication : Type 0 where
  pub principal : AuthPrincipal
  pub csrf_hash : String
  pub expires_at : ℕ
