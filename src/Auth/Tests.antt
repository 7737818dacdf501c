-- ===== src/Auth/Tests.antt =====
-- Runs of the sessions, and the theorems at one member with one session.
use Prim.Native.String.{◌++◌ as ◌+++◌}
use recruiting_os.Common.{◌≢◌, ◌≡◌, ◌∷◌, some, refl, ok, none, inl, [], String, List, Clock}
use recruiting_os.Domain.{AuthPrincipal, Role}
use recruiting_os.Auth.Tables.{SessionRow, SessionAuthentication, Auth}
use recruiting_os.Auth.Machine.{auth_step, auth_run, AuthCall}
use recruiting_os.Auth.Session.{verify_csrf, revoke, issue, authenticate, Drawn}
use recruiting_os.Auth.Revoked.{authenticate_session-Proof, Proof}
use recruiting_os.Auth.Repository.{
  upsert_user, upsert_identity, revoke_session, promote_member, joined, insert_member,
  create_session, authenticate_session, add_all,
}
use recruiting_os.Queue.Enqueue.{ensure_tenant}
use recruiting_os.Auth.Roles.{require_role, require_organization_access, initial_roles_for_identity}
use recruiting_os.Auth.Revocation.{revoke_session-lasts}

abbrev digest_id : String → String → String
digest_id prefix value = prefix +++ "_" +++ value

abbrev hashed : String → String
hashed value = "sha:" +++ value

auth_runs : Unit {0}
unfolding upsert_identity upsert_user insert_member promote_member add_all create_session
    authenticate_session joined revoke_session authenticate verify_csrf revoke issue auth_step
    auth_run ensure_tenant require_role require_organization_access initial_roles_for_identity
auth_runs = tt

abbrev noon : Clock
noon n = 1000

abbrev session_of_ada : SessionRow
session_of_ada = record {
  id = "ses_1";
  tenant_id = "t1";
  user_id = "usr_i:ada";
  token_hash = "sha:token";
  csrf_hash = "sha:csrf";
  expires_at = 5000;
  revoked_at = none;
  created_at = 0;
  last_seen_at = 0;
}

abbrev auth_tables : Auth
auth_tables = record {
  tenants = "t1" ∷ [];
  users =
      record {
        id = "usr_i:ada";
        issuer = "i";
        subject = "ada";
        email = none;
        display_name = none;
        created_at = 0;
        updated_at = 0;
      }
      ∷ [];
  members =
      record {
        tenant_id = "t1";
        user_id = "usr_i:ada";
        roles = Role.organization_editor ∷ [];
        organization_ids = "o1" ∷ [];
        created_at = 0;
        updated_at = 0;
      }
      ∷ [];
  sessions = session_of_ada ∷ [];
}

abbrev ada : AuthPrincipal
ada = record {
  user_id = "usr_i:ada";
  tenant_id = "t1";
  roles = Role.organization_editor ∷ [];
  organization_ids = "o1" ∷ [];
  session_id = "ses_1";
}

ada_authenticates :
    (authenticate_session "sha:token" noon auth_tables).0
    ≡ some (record { principal = ada; csrf_hash = "sha:csrf"; expires_at = 5000 })
unfolding auth_runs
ada_authenticates = refl

authenticate_session-Proof_example :
    Proof "sha:token" 1000 auth_tables
      (record { principal = ada; csrf_hash = "sha:csrf"; expires_at = 5000 })
authenticate_session-Proof_example =
    authenticate_session-Proof "sha:token" noon auth_tables _ ada_authenticates

-- Another session of the same member, after the first has been revoked.
abbrev later_calls : List (Clock × AuthCall)
later_calls =
    (
      noon,
      AuthCall.creates (record {
        id = "ses_2";
        tenant_id = "t1";
        user_id = "usr_i:ada";
        token_hash = "sha:other";
        csrf_hash = "sha:csrf2";
        expires_at = 9000;
      }),
    )
    ∷ []

abbrev ada_again : SessionAuthentication
ada_again = record {
  principal = record ada { session_id = "ses_2" };
  csrf_hash = "sha:csrf2";
  expires_at = 9000;
}

second_authenticates :
    (authenticate_session "sha:other" noon
      (auth_run digest_id later_calls (revoke_session "ses_1" "t1" noon auth_tables))).0
    ≡ some ada_again
unfolding auth_runs
second_authenticates = refl

revoke_session-lasts_example : ada_again.principal.session_id ≢ "ses_1"
revoke_session-lasts_example =
    revoke_session-lasts digest_id noon noon auth_tables session_of_ada later_calls "sha:other"
      ada_again (tt, tt) (inl refl) second_authenticates

revoked_is_refused :
    (authenticate_session "sha:token" noon (revoke_session "ses_1" "t1" noon auth_tables)).0 ≡ none
unfolding auth_runs
revoked_is_refused = refl

abbrev drawn_values : Drawn
drawn_values = record { token = "tok"; csrf_token = "c"; id = "ses_3" }

issue_admin :
    (issue hashed digest_id 60
      (record { issuer = "i"; subject = "eve"; email = none; display_name = none })
      "t1"
      (Role.platform_admin ∷ [])
      drawn_values
      noon
      auth_tables).0
    ≡ ok (record {
      token = "tok";
      csrf_token = "c";
      expires_at = 61000;
      principal = record {
        user_id = "usr_i:eve";
        tenant_id = "t1";
        roles = Role.platform_admin ∷ [];
        organization_ids = [];
        session_id = "ses_3";
      };
    })
unfolding auth_runs
issue_admin = refl
