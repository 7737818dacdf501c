-- ===== src/Gate/Metrics.antt =====
-- Who reads `/metrics`.
use recruiting_os.Common.{
  if◌then◌else◌, Bool, ◌∙◌, ap, Option, ◌⊎◌, ◌≡◌, ◌↔◌, truthy, true, sym, subst, some, refl, ok,
  none, inr, inl, false, err, eq_iff, arith, String, Clock, Bool-cases,
}
use recruiting_os.Auth.Tables.{Auth}
use recruiting_os.Gate.Hook.{
  hashes_match, Outcome, secure_token_matches, on_request, is_probe, is_metrics, bearer_token,
  Request, GateConfig,
}
use recruiting_os.RateLimit.Port.{RateLimiter}
use recruiting_os.Domain.{authentication_error}
use recruiting_os.Gate.Paths.{probe_paths, path_of, is_one_of}

-- Where the first test fails and the second one holds, the third one decides.
second_branch :
    {X : Type 0} (a b c : Bool) (u v w x : X)
    → a ≡ false
    → b ≡ true
    → (if a then u else if b then (if c then v else w) else x) ≡ (if c then v else w)
second_branch true b c u v w x h k = cc
second_branch false true c u v w x h k = refl
second_branch false false c u v w x h k = cc

not_probe : (request : Request) → is_metrics request ≡ true → is_probe request ≡ false
not_probe request m =
    let e = (eq_iff (path_of request.url) "/metrics").0 (ground arith) in
    let no = subst (λ p. is_one_of probe_paths p ≡ false) (sym e) refl in ground (arith, no)

module _ (hash : String → String) {S : Type 0} (limiter : RateLimiter S) (config : GateConfig) where
  -- What the metrics demand: a bearer token and a configured one, neither empty, of one hash.
  abbrev pub BearsToken : Request → Type 0
  BearsToken request =
      (sent : String) × (expected : String) × (truthy (bearer_token request.authorization)
        ≡ some sent)
      × (truthy config.metrics_bearer_token ≡ some expected)
      × (hash sent ≡ hash expected)

  matched :
      (c e : Option String)
      → hashes_match hash c e ≡ true
      → (sent : String) × (expected : String) × (c ≡ some sent)
        × (e ≡ some expected)
        × (hash sent ≡ hash expected)
  matched none e t = cc
  matched (some c) none t = cc
  matched (some c) (some e) t = (c, e, refl, refl, (eq_iff (hash c) (hash e)).0 t)

  passes :
      (request : Request) (clock : Clock) (s : S) (q : Auth)
      → is_metrics request ≡ true
      → secure_token_matches hash (bearer_token request.authorization) config.metrics_bearer_token
        ≡ true
      → on_request hash limiter config request clock s q ≡ (ok none, s, q)
  unfolding on_request
  passes request clock s q m t =
      second_branch (is_probe request) (is_metrics request)
        (secure_token_matches hash (bearer_token request.authorization) config.metrics_bearer_token)
        _ _ _ _ (not_probe request m) m
      ∙ ap (λ b. if b then (ok none, s, q) else (err authentication_error, s, q)) t

  refused :
      (request : Request) (clock : Clock) (s : S) (q : Auth)
      → is_metrics request ≡ true
      → secure_token_matches hash (bearer_token request.authorization) config.metrics_bearer_token
        ≡ false
      → on_request hash limiter config request clock s q ≡ (err authentication_error, s, q)
  unfolding on_request
  refused request clock s q m t =
      second_branch (is_probe request) (is_metrics request)
        (secure_token_matches hash (bearer_token request.authorization) config.metrics_bearer_token)
        _ _ _ _ (not_probe request m) m
      ∙ ap (λ b. if b then (ok none, s, q) else (err authentication_error, s, q)) t

  matches_iff :
      (request : Request)
      → (secure_token_matches hash (bearer_token request.authorization) config.metrics_bearer_token
          ≡ true)
        ↔ BearsToken request
  unfolding secure_token_matches
  matches_iff request = (there, back)
    where
      there :
          secure_token_matches hash (bearer_token request.authorization) config.metrics_bearer_token
            ≡ true
          → BearsToken request
      there t =
          matched (truthy (bearer_token request.authorization)) (truthy config.metrics_bearer_token)
            t

      back :
          BearsToken request
          → secure_token_matches hash
              (bearer_token request.authorization)
              config.metrics_bearer_token
            ≡ true
      back (s, e, p, r, h) = rw (p, r) ((eq_iff (hash s) (hash e)).1 h)

  -- `GET /metrics` passes, without any rate limit and session, exactly with a bearer token whose
  -- hash is that of the configured one; without a configured token it is refused to everyone.
  pub on_request-metrics :
      (request : Request) (clock : Clock) (s : S) (q : Auth)
      → is_metrics request ≡ true
      → ((on_request hash limiter config request clock s q ≡ (ok none, s, q)) ↔ BearsToken request)
        × ((on_request hash limiter config request clock s q ≡ (ok none, s, q))
            ⊎ (on_request hash limiter config request clock s q ≡ (err authentication_error, s, q)))
  on_request-metrics request clock s q m =
      elim (Bool-cases (
        secure_token_matches hash (bearer_token request.authorization)
          config.metrics_bearer_token)) [
            | inl t ↦
                let e = passes request clock s q m t in
                (((λ k. (matches_iff request).0 t), (λ b. e)), inl e)
            | inr t ↦
                let e = refused request clock s q m t in
                (
                  (
                    (λ k. absurd (cc (ap (λ (r : Outcome hash limiter config). r.0) (sym e ∙ k)))),
                    (λ b. absurd (cc ((matches_iff request).1 b, t))),
                  ),
                  inr e,
                )
          ]
