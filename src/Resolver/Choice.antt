-- ===== src/Resolver/Choice.antt =====
-- Which claims the application of `resolveOrganization` of src/resolver.ts rests on.
use recruiting_os.Common.{
  ◌≡◌, ◌∙◌, ◌&&◌, ◌||◌, [], ap, subst, refl, inl, inr, true, false, not, some, none, if◌then◌else◌,
  All, In, IsOrderOn, least, least-In, least-least_on, least-none, Option-cases, truthy, String,
  Option, List, Bool,
}
use recruiting_os.Domain.{ClaimField, Json}
use recruiting_os.Catalog.Rows.{Claim, Opportunity, Reals}
use recruiting_os.Resolver.Score.{claim_instant, score}
use recruiting_os.Resolver.Application.{
  Evidence, application_of, applications, evidence, instant_or_zero, is_bool, is_past, is_value,
  judge, of_field, value_text,
}

module _ {R : Type 0} (reals : Reals R) where
  -- Each of them has a finite number, so none is NaN.
  abbrev pub AllFinite : {A : Type 0} → (A → R) → List A → Type 0
  AllFinite value xs = All (λ x. reals.is_finite (value x) ≡ true) xs

  -- The choice is one of them that no other one has a greater value than, or there is none.
  abbrev pub IsGreatest : {A : Type 0} → (A → R) → List A → Option A → Type 0
  IsGreatest value xs none = xs ≡ []
  IsGreatest value xs (some a) = In a xs × All (λ b. reals.lt (value a) (value b) ≡ false) xs

  module _ (order : IsOrderOn reals.is_finite reals.lt) where
    -- An order of values orders what has them, the greater one first.
    by_value-IsOrderOn :
        {A : Type 0} (value : A → R)
        → IsOrderOn
            (λ (a : A). reals.is_finite (value a))
            (λ (a : A) (b : A). reals.lt (value b) (value a))
    by_value-IsOrderOn value = record {
      asym = λ a b p q t. order.asym (value b) (value a) q p t;
      chain = λ a b c p q r t u. order.chain (value c) (value b) (value a) r q p u t;
    }

    least-IsGreatest :
        {A : Type 0} (value : A → R) (xs : List A) (o : Option A)
        → AllFinite value xs
        → least (λ (a : A) (b : A). reals.lt (value b) (value a)) xs ≡ o
        → IsGreatest value xs o
    least-IsGreatest value xs none ps e = least-none _ xs e
    least-IsGreatest value xs (some a) ps e =
        (least-In _ xs a e, least-least_on _ _ (by_value-IsOrderOn value) xs a ps e)

value_apart :
    {R : Type 0} (o : Option (Claim R)) → is_value true o ≡ true → is_value false o ≡ false
value_apart none t = refl
value_apart (some c) t = bool_apart c.value t
  where
    bool_apart : (j : Json) → is_bool true j ≡ true → is_bool false j ≡ false
    bool_apart (Json.bool true) t = refl
    bool_apart (Json.bool false) t = cc
    bool_apart Json.null t = refl
    bool_apart (Json.num n) t = refl
    bool_apart (Json.str s) t = refl
    bool_apart (Json.arr xs) t = refl
    bool_apart (Json.obj xs) t = refl

-- A verdict over its tests.
judged :
    (yes closing younger past says_no : Bool)
    → (yes ≡ true → says_no ≡ false)
    → (yes && younger) ≡ true
    → ((says_no && closing) || (not (yes && younger) && past)) ≡ false
judged true closing younger past says_no h t =
    ap (λ b. (b && closing) || (not younger && past)) (h refl) ∙ ap (λ b. not b && past) t
judged false closing younger past says_no h t = cc

module _ {R : Type 0} (reals : Reals R) (time : String → R) (string : Json → String) where
  -- The newest claim says that applications are open, and is younger than the deadline's.
  abbrev pub is_reopened : Evidence R → Bool
  is_reopened e =
      is_value true e.latest_open
      && reals.lt (instant_or_zero reals time string e.best_deadline)
          (instant_or_zero reals time string e.latest_open)

  -- It says that they are closed, and is as young.
  abbrev pub is_closed : Evidence R → Bool
  is_closed e =
      is_value false e.latest_open
      && reals.le (instant_or_zero reals time string e.best_deadline)
          (instant_or_zero reals time string e.latest_open)

  abbrev pub IsJudged : Evidence R → R → Opportunity R → Type 0
  IsJudged e now o =
      (is_reopened e ≡ true → (o.deadline_at ≡ none) × (o.stale ≡ false))
      × (is_reopened e ≡ false
          → (o.deadline_at ≡ value_text reals time string e.best_deadline)
            × (o.stale ≡ (
                is_closed e
                || is_past reals time string (truthy (value_text reals time string e.best_deadline))
                    now)))

  module _ (stable_id : String → String → String) where
    application_of-IsJudged :
        (organization : String) (scores : List (String × R)) (e : Evidence R) (now : R)
        (at : String)
        → IsJudged e now (application_of reals time string stable_id organization scores e now at)
    unfolding judge
    application_of-IsJudged organization scores e now at =
        let deadline = value_text reals time string e.best_deadline in
        (
          λ t. (
            ap (λ (b : Bool). if b then none else deadline) t,
            judged (is_value true e.latest_open) _ _ _ (is_value false e.latest_open)
                (value_apart e.latest_open) t,
          ),
          λ t. (
            ap (λ (b : Bool). if b then none else deadline) t,
            ap (λ b. is_closed e || (not b && is_past reals time string (truthy deadline) now)) t,
          ),
        )

    applications-IsJudged :
        (organization : String) (scores : List (String × R)) (claims : List (Claim R)) (now : R)
        (at : String) (o : Opportunity R)
        → In o (applications reals time string stable_id organization scores claims now at)
        → IsJudged (evidence reals time string scores claims) now o
    unfolding applications
    applications-IsJudged organization scores claims now at o m =
        let e = evidence reals time string scores claims in
        let one = application_of-IsJudged organization scores e now at in
        elim (Option-cases e.best_deadline) [
          | inr (c, u) ↦ elim (rw (u, applications) at m) [
            | inl k ↦ subst (IsJudged e now) k one
            | inr k ↦ elim k [ ]
          ]
          | inl u ↦ elim (Option-cases e.latest_open) [
            | inr (c, v) ↦ elim (rw (u, v, applications) at m) [
              | inl k ↦ subst (IsJudged e now) k one
              | inr k ↦ elim k [ ]
            ]
            | inl v ↦ absurd (rw (u, v, applications) at m)
          ]
        ]

    -- The application that the resolver makes out of the claims rests on a deadline that no other
    -- claim of a deadline outscores, and on the claim on openness that no other one is later than.
    -- While that claim says open and is younger than the deadline's, the deadline is suppressed and
    -- the application is not stale; otherwise it has that deadline, and is stale exactly when the
    -- claim says closed and is as young, or the deadline is a date in the past. The conditions are
    -- that `<` orders the finite numbers, and that the scores of the claims of a deadline and the
    -- times of the claims on openness are finite: none is NaN, as the time of a bad date is.
    pub applications_lem :
        IsOrderOn reals.is_finite reals.lt
        → (organization : String) (scores : List (String × R)) (claims : List (Claim R)) (now : R)
          (at : String) (o : Opportunity R)
        → AllFinite reals
            (λ (c : Claim R). score reals scores (some c))
            (of_field ClaimField.application_deadline claims)
        → AllFinite reals (claim_instant reals time) (of_field ClaimField.application_open claims)
        → In o (applications reals time string stable_id organization scores claims now at)
        → IsGreatest reals
            (λ (c : Claim R). score reals scores (some c))
            (of_field ClaimField.application_deadline claims)
            (evidence reals time string scores claims).best_deadline
          × IsGreatest reals
              (claim_instant reals time)
              (of_field ClaimField.application_open claims)
              (evidence reals time string scores claims).latest_open
          × IsJudged (evidence reals time string scores claims) now o
    applications_lem order organization scores claims now at o finite_scores finite_times m = (
      least-IsGreatest reals order _ _ _ finite_scores refl,
      least-IsGreatest reals order _ _ _ finite_times refl,
      applications-IsJudged organization scores claims now at o m,
    )
