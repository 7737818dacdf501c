-- ===== src/Auth/Access.antt =====
-- What the guards of src/application/auth/authorization.ts admit, and what a session proves.
use recruiting_os.Common.{
  inr, inl, Result, Bool-cases, ◌⊎◌, ◌≡◌, ◌↔◌, true, sym, subst, str_eq, refl, ok, err, eq_iff,
  arith, any-witness, any-true_of, String, List, In,
}
use recruiting_os.Domain.{AppError, authorization_error, AuthPrincipal, Role}
use recruiting_os.Auth.Roles.{
  role_index, role_eq, require_role, require_organization_access, includes, has_role,
}

role_index-injective : (a b : Role) → role_index a ≡ role_index b → a ≡ b
role_index-injective Role.student Role.student e = refl
role_index-injective Role.student Role.organization_editor e = absurd (omega arith)
role_index-injective Role.student Role.platform_admin e = absurd (omega arith)
role_index-injective Role.organization_editor Role.student e = absurd (omega arith)
role_index-injective Role.organization_editor Role.organization_editor e = refl
role_index-injective Role.organization_editor Role.platform_admin e = absurd (omega arith)
role_index-injective Role.platform_admin Role.student e = absurd (omega arith)
role_index-injective Role.platform_admin Role.organization_editor e = absurd (omega arith)
role_index-injective Role.platform_admin Role.platform_admin e = refl

has_role-In : (r : Role) (roles : List Role) → has_role r roles ≡ true → In r roles
has_role-In r roles t =
    let (s, m, u) = any-witness (role_eq r) roles t in
    subst (λ x. In x roles) (sym (role_index-injective r s (ground arith))) m

In-has_role : (r : Role) (roles : List Role) → In r roles → has_role r roles ≡ true
In-has_role r roles m = any-true_of (role_eq r) roles r m (ground arith)

includes-In : (s : String) (ss : List String) → includes s ss ≡ true → In s ss
includes-In s ss t =
    let (x, m, u) = any-witness (str_eq s) ss t in subst (λ y. In y ss) (sym ((eq_iff s x).0 u)) m

In-includes : (s : String) (ss : List String) → In s ss → includes s ss ≡ true
In-includes s ss m = any-true_of (str_eq s) ss s m ((eq_iff s s).1 refl)

-- `requireRole` passes exactly the principals that have one of the roles.
pub require_role_iff :
    (principal : AuthPrincipal) (roles : List Role)
    → (require_role principal roles ≡ ok tt) ↔ ((r : Role) × In r roles × In r principal.roles)
unfolding require_role
require_role_iff principal roles = (
  (λ e.
      let (r, m, t) = any-witness (λ role. has_role role principal.roles) roles (ground arith) in
      (r, m, has_role-In r principal.roles t)),
  (λ (r, m, n). rw (
      any-true_of (λ role. has_role role principal.roles) roles r m
        (In-has_role r principal.roles n))),
)

-- `requireOrganizationAccess` passes exactly the platform administrators and those editors who are
-- assigned to the organization; everyone else gets the authorization error.
pub require_organization_access_iff :
    (principal : AuthPrincipal) (organization : String)
    → ((require_organization_access principal organization ≡ ok tt) ↔ (
        In Role.platform_admin principal.roles
        ⊎ (In Role.organization_editor principal.roles
            × In organization principal.organization_ids)))
      × ((require_organization_access principal organization ≡ ok tt)
          ⊎ (require_organization_access principal organization ≡ err authorization_error))
unfolding require_organization_access
require_organization_access_iff principal organization = (
  (
    (λ e. elim (Bool-cases (has_role Role.platform_admin principal.roles)) [
      | inl t ↦ inl (has_role-In Role.platform_admin principal.roles t)
      | inr t ↦ inr (
        has_role-In Role.organization_editor principal.roles (ground arith),
        includes-In organization principal.organization_ids (ground arith),
      )
    ]),
    (λ h. elim h [
      | inl m ↦ rw (In-has_role Role.platform_admin principal.roles m)
      | inr (m, n) ↦ ground (
        arith,
        In-has_role Role.organization_editor principal.roles m,
        In-includes organization principal.organization_ids n,
      )
    ]),
  ),
  either (require_organization_access principal organization) refl,
)
  where
    either :
        (r : Result AppError (Unit {0}))
        → require_organization_access principal organization ≡ r
        → (require_organization_access principal organization ≡ ok tt)
          ⊎ (require_organization_access principal organization ≡ err authorization_error)
    either r e = ground arith
