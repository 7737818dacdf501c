-- ===== src/Gate/Tests.antt =====
-- A request through the hook, over the limiter in memory and the tables of one member.
use Prim.Native.String.{◌++◌ as ◌+++◌}
use recruiting_os.Common.{◌≡◌, ◌∷◌, true, some, refl, ok, none, err, [], String, Clock}
use recruiting_os.Domain.{authentication_error, Role}
use recruiting_os.Auth.Tables.{SessionAuthentication, Auth}
use recruiting_os.RateLimit.Memory.{
  in_memory, set_bucket, prune_expired, prune, get_bucket, consume,
}
use recruiting_os.Gate.Hook.{
  is_metrics, secure_token_matches, require_session, on_request, is_authentication, csrf_error,
  Request, GateConfig,
}
use recruiting_os.Gate.Protected.{on_request-IsAdmitted, is_protected, IsAdmitted}
use recruiting_os.Auth.Session.{verify_csrf, authenticate}
use recruiting_os.Auth.Repository.{joined, authenticate_session}
use recruiting_os.Gate.Paths.{strip_prefix, split_at_char, is_connector_callback}

gate_runs : Unit {0}
unfolding on_request require_session secure_token_matches strip_prefix split_at_char
    is_connector_callback authenticate verify_csrf authenticate_session joined consume get_bucket
    set_bucket prune prune_expired
gate_runs = tt

abbrev sha : String → String
sha value = "sha:" +++ value

abbrev gate_clock : Clock
gate_clock n = 1000

abbrev gate_tables : Auth
gate_tables = record {
  tenants = "t1" ∷ [];
  users = [];
  members =
      record {
        tenant_id = "t1";
        user_id = "u1";
        roles = Role.student ∷ [];
        organization_ids = [];
        created_at = 0;
        updated_at = 0;
      }
      ∷ [];
  sessions =
      record {
        id = "s1";
        tenant_id = "t1";
        user_id = "u1";
        token_hash = "sha:token";
        csrf_hash = "sha:csrf";
        expires_at = 5000;
        revoked_at = none;
        created_at = 0;
        last_seen_at = 0;
      }
      ∷ [];
}

abbrev gate_config : GateConfig
gate_config = record {
  metrics_bearer_token = some "m";
  requests_per_minute = 10;
  auth_ip_requests_per_minute = 2;
  authenticated_ip_requests_per_minute = 20;
}

abbrev post : Request
post = record {
  method = "POST";
  url = "/api/sources?x=1";
  ip = "10.0.0.1";
  authorization = none;
  csrf_header = some "csrf";
  session_cookie = some "token";
}

abbrev known : SessionAuthentication
known = record {
  principal = record {
    user_id = "u1";
    tenant_id = "t1";
    roles = Role.student ∷ [];
    organization_ids = [];
    session_id = "s1";
  };
  csrf_hash = "sha:csrf";
  expires_at = 5000;
}

guarded_post : is_protected post ≡ true
unfolding gate_runs
guarded_post = refl

post_passes :
    (on_request sha (in_memory 5) gate_config post gate_clock [] gate_tables).0 ≡ ok (some known)
unfolding gate_runs
post_passes = refl

on_request-IsAdmitted_example :
    IsAdmitted sha (in_memory 5) gate_config post gate_clock gate_tables (some known)
on_request-IsAdmitted_example =
    on_request-IsAdmitted sha (in_memory 5) gate_config post gate_clock [] gate_tables (some known)
      guarded_post post_passes

-- Without the CSRF header, without the cookie, and at the metrics with a wrong token.
post_without_csrf :
    (on_request sha
      (in_memory 5)
      gate_config
      (record post { csrf_header = none })
      gate_clock
      []
      gate_tables).0
    ≡ err csrf_error
unfolding gate_runs
post_without_csrf = refl

post_without_cookie :
    (on_request sha
      (in_memory 5)
      gate_config
      (record post { session_cookie = none })
      gate_clock
      []
      gate_tables).0
    ≡ err authentication_error
unfolding gate_runs
post_without_cookie = refl

abbrev metrics_request : Request
metrics_request = record {
  method = "GET";
  url = "/metrics";
  ip = "10.0.0.1";
  authorization = some "Bearer m";
  csrf_header = none;
  session_cookie = none;
}

metrics_with_token :
    (on_request sha (in_memory 5) gate_config metrics_request gate_clock [] gate_tables).0 ≡ ok none
unfolding gate_runs
metrics_with_token = refl

callback_is_authentication :
    is_authentication (record metrics_request { url = "/api/connectors/gmail/callback?code=1" })
    ≡ true
unfolding gate_runs
callback_is_authentication = refl

metrics_is_metrics : is_metrics metrics_request ≡ true
unfolding gate_runs
metrics_is_metrics = refl
