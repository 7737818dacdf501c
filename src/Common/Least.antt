-- ===== src/Common/Least.antt =====
-- `order by … limit 1`: the first of the least elements.
use mathlib.Core.Path.{◌≡◌, refl, sym, subst}
use mathlib.Core.Logic.{inl, inr}
use mathlib.Core.Bool.{Bool, true, false}
use mathlib.Core.Option.{Option, none, some, some-injective}
use mathlib.Core.List.{List, [], ◌∷◌}
use recruiting_os.Common.Basics.{Bool-cases}
use recruiting_os.Common.Lists.{In, All}

-- `lt` says which of two comes first.
unfoldable pub least_from {ℓ} : {A : Type ℓ} → (A → A → Bool) → A → List A → A
least_from lt best [] = best
least_from lt best (x ∷ xs) = least_from lt (elim (lt x best) [ true ↦ x | false ↦ best ]) xs

unfoldable pub least {ℓ} : {A : Type ℓ} → (A → A → Bool) → List A → Option A
unfolding least_from
least lt [] = none
least lt (x ∷ xs) = some (least_from lt x xs)

-- An order by keys: of two at most one comes first, and not coming first is transitive.
pub record IsOrder {A : Type 0} (lt : A → A → Bool) : Type 0 where
  pub asym : (a b : A) → lt a b ≡ true → lt b a ≡ false
  pub chain : (a b c : A) → lt a b ≡ false → lt b c ≡ false → lt a c ≡ false

-- The same for the elements that `P` is true of.
pub record IsOrderOn {A : Type 0} (P : A → Bool) (lt : A → A → Bool) : Type 0 where
  pub asym : (a b : A) → P a ≡ true → P b ≡ true → lt a b ≡ true → lt b a ≡ false
  pub chain :
      (a b c : A)
      → P a ≡ true
      → P b ≡ true
      → P c ≡ true
      → lt a b ≡ false
      → lt b c ≡ false
      → lt a c ≡ false

module _ {A : Type 0} (lt : A → A → Bool) where
  least_from-new :
      (best x : A) (xs : List A)
      → lt x best ≡ true
      → least_from lt best (x ∷ xs) ≡ least_from lt x xs
  unfolding least_from
  least_from-new best x xs t = rw t

  least_from-old :
      (best x : A) (xs : List A)
      → lt x best ≡ false
      → least_from lt best (x ∷ xs) ≡ least_from lt best xs
  unfolding least_from
  least_from-old best x xs t = rw t

  least_from-In : (best : A) (xs : List A) → In (least_from lt best xs) (best ∷ xs)
  least_from-In best [] = inl (least_from_nil best)
    where
      least_from_nil : (b : A) → b ≡ least_from lt b []
      least_from_nil b = unfold least_from in refl
  least_from-In best (x ∷ xs) = elim (Bool-cases (lt x best)) [
    | inl t ↦
        subst (λ m. In m (best ∷ x ∷ xs)) (sym (least_from-new best x xs t))
          (inr (least_from-In x xs))
    | inr t ↦
        subst (λ m. In m (best ∷ x ∷ xs)) (sym (least_from-old best x xs t))
          (elim (least_from-In best xs) [ inl e ↦ inl e | inr m ↦ inr (inr m) ])
  ]

  pub least-In : (xs : List A) (a : A) → least lt xs ≡ some a → In a xs
  unfolding least
  least-In [] a e = cc
  least-In (x ∷ xs) a e = subst (λ m. In m (x ∷ xs)) (some-injective _ a e) (least_from-In x xs)

  pub least-none : (xs : List A) → least lt xs ≡ none → xs ≡ []
  unfolding least
  least-none [] e = refl
  least-none (x ∷ xs) e = cc

  module _ (P : A → Bool) (order : IsOrderOn P lt) where
    irreflexive : (a : A) → P a ≡ true → lt a a ≡ false
    irreflexive a p = elim (Bool-cases (lt a a)) [ inl t ↦ order.asym a a p p t | inr t ↦ t ]

    abbrev AllAfter : A → A → List A → Type 0
    AllAfter m best xs = (P m ≡ true) × (lt best m ≡ false) × All (λ y. lt y m ≡ false) xs

    least_from-least :
        (best : A) (xs : List A)
        → P best ≡ true
        → All (λ x. P x ≡ true) xs
        → AllAfter (least_from lt best xs) best xs
    least_from-least best [] p ps = unfold least_from in (p, irreflexive best p, tt)
    least_from-least best (x ∷ xs) p ps = elim (Bool-cases (lt x best)) [
      | inl t ↦
          subst (λ m. AllAfter m best (x ∷ xs)) (sym (least_from-new best x xs t))
            (let (here, first, rest) = least_from-least x xs ps.0 ps.1 in
              (
                here,
                order.chain best x _ p ps.0 here (order.asym x best ps.0 p t) first,
                (first, rest),
              ))
      | inr t ↦
          subst (λ m. AllAfter m best (x ∷ xs)) (sym (least_from-old best x xs t))
            (let (here, first, rest) = least_from-least best xs p ps.1 in
              (here, first, (order.chain x best _ ps.0 p here t first, rest)))
    ]

    -- Nothing in the list comes before the one that is chosen.
    pub least-least_on :
        (xs : List A) (a : A)
        → All (λ x. P x ≡ true) xs
        → least lt xs ≡ some a
        → All (λ y. lt y a ≡ false) xs
    unfolding least
    least-least_on [] a ps e = tt
    least-least_on (x ∷ xs) a ps e =
        let (here, first, rest) =
          subst (λ m. AllAfter m x xs) (some-injective _ a e) (least_from-least x xs ps.0 ps.1) in
        (first, rest)

  All-true : (xs : List A) → All (λ x. true ≡ true) xs
  All-true [] = tt
  All-true (x ∷ xs) = (refl, All-true xs)

  pub least-least :
      (order : IsOrder lt) (xs : List A) (a : A)
      → least lt xs ≡ some a
      → All (λ y. lt y a ≡ false) xs
  least-least order xs a e =
      least-least_on (λ x. true)
        (record { asym = λ a b p q. order.asym a b; chain = λ a b c p q r. order.chain a b c }) xs a
        (All-true xs) e
