-- ===== src/Common/Every.antt =====
-- A predicate of all rows of a table, over the statements that change it.
use mathlib.Core.Path.{◌≡◌, refl, subst}
use mathlib.Core.Logic.{inl, inr}
use mathlib.Core.Bool.{Bool, true}
use mathlib.Core.List.{List, [], ◌∷◌, ◌++◌}
use native.Mathlib.Omega.{arith}
use recruiting_os.Common.Basics.{Bool-cases}
use recruiting_os.Common.Lists.{update_where, delete_where, All, In}

module _ {A : Type 0} (P : A → Type 0) where
  pub All-In : (xs : List A) (a : A) → All P xs → In a xs → P a
  All-In [] a h m = elim m [ ]
  All-In (x ∷ xs) a h (inl e) = subst P e h.0
  All-In (x ∷ xs) a h (inr m) = All-In xs a h.1 m

  pub In-All : (xs : List A) → ((a : A) → In a xs → P a) → All P xs
  In-All [] h = tt
  In-All (x ∷ xs) h = (h x (inl refl), In-All xs (λ a m. h a (inr m)))

  pub All-update :
      (p : A → Bool) (f : A → A) (xs : List A)
      → ((x : A) → In x xs → p x ≡ true → P x → P (f x))
      → All P xs
      → All P (update_where p f xs)
  All-update p f [] keep h = tt
  All-update p f (x ∷ xs) keep (h, hs) =
      let rest = All-update p f xs (λ y m. keep y (inr m)) hs in
      elim (Bool-cases (p x)) [
        | inl e ↦ (rw e (keep x (inl refl) e h), rest)
        | inr e ↦ (rw e h, rest)
      ]

  pub All-append : (xs ys : List A) → All P xs → All P ys → All P (xs ++ ys)
  All-append [] ys h k = k
  All-append (x ∷ xs) ys h k = (h.0, All-append xs ys h.1 k)

  pub All-delete : (p : A → Bool) (xs : List A) → All P xs → All P (delete_where p xs)
  All-delete p [] h = tt
  All-delete p (x ∷ xs) h = ground (arith, All-delete p xs h.1)
