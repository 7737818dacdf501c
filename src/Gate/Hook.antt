-- ===== src/Gate/Hook.antt =====
-- The `onRequest` hook of src/http/app.ts, over a rate limiter and the session service. `hash` is
-- SHA-256. The rate-limit headers that it sets on the reply are left out.
use Prim.Native.String.{◌++◌ as ◌+++◌}
use recruiting_os.Common.{
  ◌||◌, ◌&&◌, truthy, true, str_eq, some, ok, not, none, if◌then◌else◌, false, err, String, Result,
  Option, Clock, Bool, ℕ,
}
use recruiting_os.Auth.Tables.{SessionAuthentication, Auth}
use recruiting_os.Auth.Session.{verify_csrf, authenticate, from}
use recruiting_os.Domain.{rate_limit_error, authentication_error, AppError}
use recruiting_os.RateLimit.Port.{RateLimiter, RateLimitResult}
use recruiting_os.Gate.Paths.{
  unsafe_methods, strip_prefix, public_paths, probe_paths, path_of, is_one_of,
  is_connector_callback, authentication_paths,
}

-- What the hook reads of a request; of a header that is sent more than once the first value.
pub record Request : Type 0 where
  pub method : String
  pub url : String
  pub ip : String
  pub authorization : Option String
  pub csrf_header : Option String
  pub session_cookie : Option String

-- What it reads of the configuration.
pub record GateConfig : Type 0 where
  pub metrics_bearer_token : Option String
  pub requests_per_minute : ℕ
  pub auth_ip_requests_per_minute : ℕ
  pub authenticated_ip_requests_per_minute : ℕ

abbrev pub csrf_error : AppError
csrf_error = record {
  message = "CSRF validation failed";
  status_code = 403;
  code = "CSRF_FAILED";
  expose = true;
}

abbrev pub is_get : Request → Bool
is_get request = str_eq request.method "GET"

abbrev pub is_probe : Request → Bool
is_probe request = is_get request && is_one_of probe_paths (path_of request.url)

abbrev pub is_metrics : Request → Bool
is_metrics request = is_get request && str_eq (path_of request.url) "/metrics"

abbrev pub is_authentication : Request → Bool
is_authentication request =
    is_one_of authentication_paths (path_of request.url)
    || (is_get request && is_connector_callback (path_of request.url))

abbrev pub is_public : Request → Bool
is_public request = is_one_of public_paths (path_of request.url) || str_eq request.method "OPTIONS"

abbrev pub is_unsafe : Request → Bool
is_unsafe request = is_one_of unsafe_methods request.method

-- `authorization?.startsWith('Bearer ') ? authorization.slice(7) : undefined`
abbrev pub bearer_token : Option String → Option String
bearer_token none = none
bearer_token (some header) = strip_prefix "Bearer " header

module _ (hash : String → String) where
  abbrev pub hashes_match : Option String → Option String → Bool
  hashes_match none expected = false
  hashes_match (some c) none = false
  hashes_match (some c) (some e) = str_eq (hash c) (hash e)

  -- `secureTokenMatches`: an empty text counts as no token.
  unfoldable pub secure_token_matches : Option String → Option String → Bool
  secure_token_matches candidate expected = hashes_match (truthy candidate) (truthy expected)

  module _ {S : Type 0} (limiter : RateLimiter S) (config : GateConfig) where
    -- What the hook comes to: the session that it attaches, or what it throws.
    abbrev pub Outcome : Type 0
    Outcome = Result AppError (Option SessionAuthentication) × S × Auth

    -- A `consume` that throws `RateLimitError` unless it allows, and what follows.
    abbrev pub limited : RateLimitResult × S → Auth → (S → Outcome) → Outcome
    limited r q next = if r.0.allowed then next r.1 else (err rate_limit_error, r.1, q)

    abbrev pub anonymous_rate : Request → Clock → S → RateLimitResult × S
    anonymous_rate request clock s =
        limiter.consume ("anonymous-ip:" +++ request.ip) config.requests_per_minute 60000 clock s

    abbrev pub authentication_rate : Request → Clock → S → RateLimitResult × S
    authentication_rate request clock s =
        limiter.consume ("authentication-ip:" +++ request.ip) config.auth_ip_requests_per_minute
          60000 clock s

    abbrev pub authenticated_ip_rate : Request → Clock → S → RateLimitResult × S
    authenticated_ip_rate request clock s =
        limiter.consume ("authenticated-ip:" +++ request.ip)
          config.authenticated_ip_requests_per_minute 60000 clock s

    abbrev pub user_rate : SessionAuthentication → Clock → S → RateLimitResult × S
    user_rate a clock s =
        limiter.consume ("user:" +++ a.principal.tenant_id +++ ":" +++ a.principal.user_id)
          config.requests_per_minute 60000 clock s

    -- The refusal of a request without a valid session.
    abbrev pub refuse_anonymous : Request → Clock → S → Auth → Outcome
    refuse_anonymous request clock s q =
        limited (anonymous_rate request clock s) q (λ s'. (err authentication_error, s', q))

    -- The end of the hook.
    abbrev pub check_csrf : Request → SessionAuthentication → Auth → S → Outcome
    check_csrf request a q s =
        if is_unsafe request && not (verify_csrf hash a request.csrf_header)
        then (err csrf_error, s, q)
        else (ok (some a), s, q)

    -- What is asked of a request whose session is known.
    abbrev pub admit_user : Request → Clock → S → SessionAuthentication → Auth → Outcome
    admit_user request clock s a q = limited (user_rate a clock s) q (check_csrf request a q)

    abbrev pub after_authentication :
        Request → Clock → S → Option SessionAuthentication × Auth → Outcome
    after_authentication request clock s (none, q) = refuse_anonymous request clock s q
    after_authentication request clock s (some a, q) = admit_user request clock s a q

    -- The hook from `presentedSession` on.
    unfoldable pub require_session : Request → Option String → Clock → S → Auth → Outcome
    require_session request none clock s q = refuse_anonymous request clock s q
    require_session request (some token) clock s q =
        limited (authenticated_ip_rate request clock s) q (λ s'.
          after_authentication request (from 3 clock) s'
            (authenticate hash (some token) (from 1 clock) q))

    unfoldable pub on_request : Request → Clock → S → Auth → Outcome
    on_request request clock s q =
        if is_probe request
        then (ok none, s, q)
        else if is_metrics request
        then (if secure_token_matches (bearer_token request.authorization)
              config.metrics_bearer_token
            then (ok none, s, q)
            else (err authentication_error, s, q))
        else if is_authentication request
        then limited (authentication_rate request clock s) q (λ s'. (ok none, s', q))
        else if is_public request
        then limited (anonymous_rate request clock s) q (λ s'. (ok none, s', q))
        else require_session request (truthy request.session_cookie) clock s q
