-- ===== src/Gate/Protected.antt =====
-- Who reaches the handler of a protected path.
use recruiting_os.Common.{
  if◌then◌else◌, false, err, ◌≢◌, ◌∙◌, truthy, sym, refl, none, inr, inl, eq_iff, arith, ap,
  Bool-cases, ◌≡◌, ◌&&◌, true, some, ok, not, String, Option, Clock, Bool,
}
use recruiting_os.Domain.{authentication_error}
use recruiting_os.Auth.Tables.{SessionAuthentication, Auth}
use recruiting_os.Auth.Session.{verify_csrf, authenticate, from}
use recruiting_os.Gate.Hook.{
  user_rate, check_csrf, authenticated_ip_rate, anonymous_rate, require_session, refuse_anonymous,
  limited, after_authentication, admit_user, Outcome, on_request, is_unsafe, is_public, is_probe,
  is_metrics, is_authentication, Request, GateConfig,
}
use recruiting_os.Auth.Revoked.{authenticate_session-Proof, Proof}
use recruiting_os.RateLimit.Port.{RateLimitResult, RateLimiter}
use recruiting_os.Auth.Repository.{authenticate_session}

-- Neither a probe nor the metrics, nor a path of the sign-in, nor public.
abbrev pub is_protected : Request → Bool
is_protected request =
    not (is_probe request)
    && (not (is_metrics request) && (not (is_authentication request) && not (is_public request)))

-- Where four tests fail the last branch is taken.
last_branch :
    {X : Type 0} (a b c d : Bool) (u v w x y : X)
    → not a && (not b && (not c && not d)) ≡ true
    → (if a then u else if b then v else if c then w else if d then x else y) ≡ y
last_branch true b c d u v w x y h = cc
last_branch false true c d u v w x y h = cc
last_branch false false true d u v w x y h = cc
last_branch false false false true u v w x y h = cc
last_branch false false false false u v w x y h = refl

truthy-some : (o : Option String) (s : String) → truthy o ≡ some s → o ≡ some s
truthy-some none s e = cc
truthy-some (some r) s e = ground arith

module _ (hash : String → String) {S : Type 0} (limiter : RateLimiter S) (config : GateConfig) where
  -- The token of the request, and what it proves of the tables at the time at which it is looked up.
  pub record IsAdmitted (request : Request) (clock : Clock) (q : Auth)
      (o : Option SessionAuthentication) : Type 0 where
    pub token : String
    pub session : SessionAuthentication
    pub presented : request.session_cookie ≡ some token
    pub attached : o ≡ some session
    pub proof : Proof (hash token) (clock 1) q session
    pub csrf :
        is_unsafe request ≡ true
        → (sent : String) × (request.csrf_header ≡ some sent) × (hash sent ≡ session.csrf_hash)

  limited-ok :
      (r : RateLimitResult × S) (q : Auth) (next : S → Outcome hash limiter config)
      (o : Option SessionAuthentication)
      → (limited hash limiter config r q next).0 ≡ ok o
      → (next r.1).0 ≡ ok o
  limited-ok r q next o e = elim (Bool-cases r.0.allowed) [
    | inl t ↦ ground (arith, t)
    | inr t ↦ absurd (ground (arith, t))
  ]

  refuse-not_ok :
      (request : Request) (clock : Clock) (s : S) (q : Auth) (o : Option SessionAuthentication)
      → (refuse_anonymous hash limiter config request clock s q).0 ≢ ok o
  refuse-not_ok request clock s q o e = cc (
      limited-ok (anonymous_rate hash limiter config request clock s) q
        (λ s'. (err authentication_error, s', q)) o e)

  admit-ok :
      (request : Request) (clock : Clock) (s : S) (a : SessionAuthentication) (q : Auth)
      (o : Option SessionAuthentication)
      → (admit_user hash limiter config request clock s a q).0 ≡ ok o
      → (o ≡ some a) × (is_unsafe request ≡ true → verify_csrf hash a request.csrf_header ≡ true)
  admit-ok request clock s a q o e =
      let passed =
        limited-ok (user_rate hash limiter config a clock s) q
          (check_csrf hash limiter config request a q) o e in
      elim (Bool-cases (is_unsafe request)) [ inl u ↦ ground arith | inr u ↦ ground arith ]

  verify_csrf-sent :
      (a : SessionAuthentication) (header : Option String)
      → verify_csrf hash a header ≡ true
      → (sent : String) × (header ≡ some sent) × (hash sent ≡ a.csrf_hash)
  unfolding verify_csrf
  verify_csrf-sent a none v = cc
  verify_csrf-sent a (some sent) v = (sent, refl, (eq_iff (hash sent) a.csrf_hash).0 (ground arith))

  authenticate-token :
      (token : String) (clock : Clock) (q : Auth) (a : SessionAuthentication)
      → (authenticate hash (some token) clock q).0 ≡ some a
      → (authenticate_session (hash token) clock q).0 ≡ some a
  unfolding authenticate
  authenticate-token token clock q a e = ground arith

  authenticated-ok :
      (request : Request) (clock : Clock) (s : S) (found : Option SessionAuthentication × Auth)
      (o : Option SessionAuthentication)
      → (after_authentication hash limiter config request clock s found).0 ≡ ok o
      → (a : SessionAuthentication) × (found.0 ≡ some a)
        × (o ≡ some a)
        × (is_unsafe request ≡ true → verify_csrf hash a request.csrf_header ≡ true)
  authenticated-ok request clock s (none, q) o e = absurd (refuse-not_ok request clock s q o e)
  authenticated-ok request clock s (some a, q) o e =
      let (same, csrf) = admit-ok request clock s a q o e in (a, refl, same, csrf)

  session-IsAdmitted :
      (request : Request) (presented : Option String) (clock : Clock) (s : S) (q : Auth)
      (o : Option SessionAuthentication)
      → truthy request.session_cookie ≡ presented
      → (require_session hash limiter config request presented clock s q).0 ≡ ok o
      → IsAdmitted request clock q o
  unfolding require_session
  session-IsAdmitted request none clock s q o t e = absurd (refuse-not_ok request clock s q o e)
  session-IsAdmitted request (some token) clock s q o t e =
      let (a, found, same, csrf) =
        authenticated-ok request (from 3 clock) _ (authenticate hash (some token) (from 1 clock) q)
          o
          (limited-ok (authenticated_ip_rate hash limiter config request clock s) q
            (λ s'.
              after_authentication hash limiter config request (from 3 clock) s'
                (authenticate hash (some token) (from 1 clock) q))
            o e) in
      record {
        token = token;
        session = a;
        presented = truthy-some request.session_cookie token t;
        attached = same;
        proof =
            authenticate_session-Proof (hash token) (from 1 clock) q a
              (authenticate-token token (from 1 clock) q a found);
        csrf = λ u. verify_csrf-sent a request.csrf_header (csrf u);
      }

  protected-session :
      (request : Request) (clock : Clock) (s : S) (q : Auth)
      → is_protected request ≡ true
      → on_request hash limiter config request clock s q
        ≡ require_session hash limiter config request (truthy request.session_cookie) clock s q
  unfolding on_request
  protected-session request clock s q p =
      last_branch (is_probe request) (is_metrics request) (is_authentication request)
        (is_public request) _ _ _ _ _ p

  -- A request to a protected path reaches its handler only with a session cookie whose hash is that
  -- of an unrevoked and unexpired session of a member, which is the session that the handler gets;
  -- and if its method is unsafe, only with a header whose hash is the session's CSRF hash. This
  -- holds for any rate limiter.
  pub on_request-IsAdmitted :
      (request : Request) (clock : Clock) (s : S) (q : Auth) (o : Option SessionAuthentication)
      → is_protected request ≡ true
      → (on_request hash limiter config request clock s q).0 ≡ ok o
      → IsAdmitted request clock q o
  on_request-IsAdmitted request clock s q o p e =
      session-IsAdmitted request (truthy request.session_cookie) clock s q o refl (
        ap (λ (r : Outcome hash limiter config). r.0) (sym (protected-session request clock s q p))
        ∙ e)
