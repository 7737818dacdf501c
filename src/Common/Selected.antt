-- ===== src/Common/Selected.antt =====
-- What a query selects after rows have been added or deleted.
use mathlib.Core.Path.{◌≡◌, refl, ap}
use mathlib.Core.Logic.{inl, inr}
use mathlib.Core.Bool.{Bool, true, false}
use mathlib.Core.List.{List, [], ◌∷◌, ◌++◌}
use native.Mathlib.Omega.{arith}
use recruiting_os.Common.Basics.{Bool-cases}
use recruiting_os.Common.Lists.{any, select_where, delete_where, All, In}

module _ {A : Type 0} (p : A → Bool) where
  pub select-append :
      (xs ys : List A) → select_where p (xs ++ ys) ≡ select_where p xs ++ select_where p ys
  select-append [] ys = refl
  select-append (x ∷ xs) ys = ground (arith, select-append xs ys)

  pub select-All : (xs : List A) → All (λ x. p x ≡ true) xs → select_where p xs ≡ xs
  select-All [] h = refl
  select-All (x ∷ xs) h = ground (arith, select-All xs h.1, h.0)

  pub select-nothing : (xs : List A) → All (λ x. p x ≡ false) xs → select_where p xs ≡ []
  select-nothing [] h = refl
  select-nothing (x ∷ xs) h = ground (arith, select-nothing xs h.1, h.0)

  pub select-delete : (xs : List A) → select_where p (delete_where p xs) ≡ []
  select-delete [] = refl
  select-delete (x ∷ xs) = elim (Bool-cases (p x)) [
    | inl t ↦ ground (arith, select-delete xs)
    | inr t ↦ ground (arith, select-delete xs)
  ]

  -- Rows that are not wanted are deleted.
  pub select-delete_other :
      (q : A → Bool) (xs : List A)
      → ((x : A) → q x ≡ true → p x ≡ false)
      → select_where p (delete_where q xs) ≡ select_where p xs
  select-delete_other q [] h = refl
  select-delete_other q (x ∷ xs) h = elim (Bool-cases (q x)) [
    | inl t ↦ ground (arith, h x t, select-delete_other q xs h)
    | inr t ↦ ground (arith, select-delete_other q xs h)
  ]

  pub In-delete : (xs : List A) (a : A) → In a (delete_where p xs) → In a xs × (p a ≡ false)
  In-delete [] a m = elim m [ ]
  In-delete (x ∷ xs) a m = elim (Bool-cases (p x)) [
    | inl t ↦ ground (arith, In-delete xs a)
    | inr t ↦ ground (arith, In-delete xs a)
  ]

  pub delete-In : (xs : List A) (a : A) → In a xs → p a ≡ false → In a (delete_where p xs)
  delete-In [] a m e = elim m [ ]
  delete-In (x ∷ xs) a m e = ground (arith, delete-In xs a)

module _ {A : Type 0} where
  pub concat_snoc : (xs ys : List A) (x : A) → (xs ++ x ∷ []) ++ ys ≡ xs ++ x ∷ ys
  concat_snoc [] ys x = refl
  concat_snoc (y ∷ xs) ys x = ap (λ k. y ∷ k) (concat_snoc xs ys x)

  pub concat_nil : (xs : List A) → xs ++ [] ≡ xs
  concat_nil [] = refl
  concat_nil (y ∷ xs) = ap (λ k. y ∷ k) (concat_nil xs)

module _ {A : Type 0} (p : A → Bool) where
  pub any-delete : (xs : List A) → any p (delete_where p xs) ≡ false
  any-delete [] = refl
  any-delete (x ∷ xs) = elim (Bool-cases (p x)) [
    | inl t ↦ ground (arith, any-delete xs)
    | inr t ↦ ground (arith, any-delete xs)
  ]

  pub any-delete_other :
      (q : A → Bool) (xs : List A) → any p xs ≡ false → any p (delete_where q xs) ≡ false
  any-delete_other q [] h = refl
  any-delete_other q (x ∷ xs) h = elim (Bool-cases (q x)) [
    | inl t ↦ ground (arith, any-delete_other q xs)
    | inr t ↦ ground (arith, any-delete_other q xs)
  ]

  pub any-append : (xs ys : List A) → any p xs ≡ false → any p ys ≡ false → any p (xs ++ ys) ≡ false
  any-append [] ys h k = k
  any-append (x ∷ xs) ys h k = ground (arith, any-append xs ys)
