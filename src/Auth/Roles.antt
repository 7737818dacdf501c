-- ===== src/Auth/Roles.antt =====
-- src/application/auth/authorization.ts and src/application/auth/initial-roles.ts. An
-- `AuthorizationError` is the model's `authorization_error`.
use recruiting_os.Common.{
  ◌∷◌, ◌||◌, ◌==◌, ◌&&◌, str_eq, some, ok, not, none, if◌then◌else◌, err, any, [], String, Result,
  Option, List, Bool, ℕ,
}
use recruiting_os.Domain.{authorization_error, Role, AppError, AuthPrincipal}

abbrev pub role_index : Role → ℕ
role_index Role.student = 0
role_index Role.organization_editor = 1
role_index Role.platform_admin = 2

abbrev pub role_eq : Role → Role → Bool
role_eq a b = role_index a == role_index b

-- `roles.includes(role)`
abbrev pub has_role : Role → List Role → Bool
has_role role roles = any (role_eq role) roles

abbrev pub includes : String → List String → Bool
includes s ss = any (str_eq s) ss

-- `requireRole`
unfoldable pub require_role : AuthPrincipal → List Role → Result AppError (Unit {0})
require_role principal roles =
    if not (any (λ role. has_role role principal.roles) roles)
    then err authorization_error
    else ok tt

-- `requireOrganizationAccess`
unfoldable pub require_organization_access : AuthPrincipal → String → Result AppError (Unit {0})
require_organization_access principal organization =
    if has_role Role.platform_admin principal.roles
    then ok tt
    else if not (has_role Role.organization_editor principal.roles)
        || not (includes organization principal.organization_ids)
    then err authorization_error
    else ok tt

-- `initialRolesForIdentity`; `normalize` is `trim().toLowerCase()`.
module _ (normalize : String → String) where
  unfoldable pub initial_roles_for_identity : Option String → List String → List Role
  initial_roles_for_identity none admins = Role.student ∷ []
  initial_roles_for_identity (some email) admins =
      if not (str_eq email "") && includes (normalize email) admins
      then Role.platform_admin ∷ []
      else Role.student ∷ []
