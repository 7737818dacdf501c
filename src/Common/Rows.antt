-- ===== src/Common/Rows.antt =====
-- Which rows stand in a table after a statement, and which a query yields.
use mathlib.Core.Path.{◌≡◌, refl, sym}
use mathlib.Core.Logic.{◌⊎◌, ◌≢◌, inl, inr}
use mathlib.Core.Bool.{Bool, true, false}
use mathlib.Core.Option.{none, some}
use mathlib.Core.List.{List, [], ◌∷◌, ◌++◌}
use native.Mathlib.Omega.{arith}
use recruiting_os.Common.Basics.{Bool-cases}
use recruiting_os.Common.Lists.{any, find_where, select_where, update_where, count_where, All, In}

module _ {A : Type 0} where
  pub find_where-some :
      (p : A → Bool) (xs : List A) (a : A) → find_where p xs ≡ some a → In a xs × (p a ≡ true)
  find_where-some p [] a e = cc
  find_where-some p (x ∷ xs) a e = ground (arith, find_where-some p xs a)

  pub find_where-none :
      (p : A → Bool) (xs : List A) (a : A) → find_where p xs ≡ none → In a xs → p a ≡ false
  find_where-none p [] a e m = elim m [ ]
  find_where-none p (x ∷ xs) a e m = ground (arith, find_where-none p xs a)

  -- What an update leaves: each row is an old one, changed where the condition holds.
  pub In-update :
      (p : A → Bool) (f : A → A) (xs : List A) (a : A)
      → In a (update_where p f xs)
      → (x : A) × In x xs × (((p x ≡ true) × (a ≡ f x)) ⊎ ((p x ≡ false) × (a ≡ x)))
  In-update p f [] a m = elim m [ ]
  In-update p f (x ∷ xs) a (inr m) = let (y, i, h) = In-update p f xs a m in (y, inr i, h)
  In-update p f (x ∷ xs) a (inl e) = elim (Bool-cases (p x)) [
    | inl t ↦ (x, inl refl, inl (t, sym (rw t at e)))
    | inr t ↦ (x, inl refl, inr (t, sym (rw t at e)))
  ]

  pub In-append : (xs ys : List A) (a : A) → In a (xs ++ ys) → In a xs ⊎ In a ys
  In-append [] ys a m = inr m
  In-append (x ∷ xs) ys a (inl e) = inl (inl e)
  In-append (x ∷ xs) ys a (inr m) = elim (In-append xs ys a m) [
    | inl k ↦ inl (inr k)
    | inr k ↦ inr k
  ]

  pub In-append_left : (xs ys : List A) (a : A) → In a xs → In a (xs ++ ys)
  In-append_left [] ys a m = elim m [ ]
  In-append_left (x ∷ xs) ys a (inl e) = inl e
  In-append_left (x ∷ xs) ys a (inr m) = inr (In-append_left xs ys a m)

  pub In-append_right : (xs ys : List A) (a : A) → In a ys → In a (xs ++ ys)
  In-append_right [] ys a m = m
  In-append_right (x ∷ xs) ys a m = inr (In-append_right xs ys a m)

  -- A statement whose condition holds of no row changes nothing.
  pub update_where-none :
      (p : A → Bool) (f : A → A) (xs : List A) → count_where p xs ≡ 0 → update_where p f xs ≡ xs
  update_where-none p f [] h = refl
  update_where-none p f (x ∷ xs) h = ground (arith, update_where-none p f xs)

  pub count_where-zero :
      (p : A → Bool) (xs : List A) → All (λ x. p x ≡ false) xs → count_where p xs ≡ 0
  count_where-zero p [] h = refl
  count_where-zero p (x ∷ xs) h = ground (arith, count_where-zero p xs h.1)

  pub In-select :
      (p : A → Bool) (xs : List A) (a : A) → In a (select_where p xs) → In a xs × (p a ≡ true)
  In-select p [] a m = elim m [ ]
  In-select p (x ∷ xs) a m = elim (Bool-cases (p x)) [
    | inl t ↦ ground (arith, In-select p xs a)
    | inr t ↦ ground (arith, In-select p xs a)
  ]

  pub select-In :
      (p : A → Bool) (xs : List A) (a : A) → In a xs → p a ≡ true → In a (select_where p xs)
  select-In p [] a m e = elim m [ ]
  select-In p (x ∷ xs) a m e = ground (arith, select-In p xs a)

  pub update-In_old :
      (p : A → Bool) (f : A → A) (xs : List A) (a : A)
      → In a xs
      → p a ≡ false
      → In a (update_where p f xs)
  update-In_old p f [] a m h = m
  update-In_old p f (x ∷ xs) a (inr m) h = inr (update-In_old p f xs a m h)
  update-In_old p f (x ∷ xs) a (inl e) h = ground arith

  pub update-In_new :
      (p : A → Bool) (f : A → A) (xs : List A) (a : A)
      → In a xs
      → p a ≡ true
      → In (f a) (update_where p f xs)
  update-In_new p f [] a m h = m
  update-In_new p f (x ∷ xs) a (inr m) h = inr (update-In_new p f xs a m h)
  update-In_new p f (x ∷ xs) a (inl e) h = ground arith

  pub any-false_of :
      (p : A → Bool) (xs : List A) → ((x : A) → In x xs → p x ≡ false) → any p xs ≡ false
  any-false_of p [] h = refl
  any-false_of p (x ∷ xs) h = ground (arith, h x (inl refl), any-false_of p xs (λ y m. h y (inr m)))

  pub any-false-In : (p : A → Bool) (xs : List A) (a : A) → any p xs ≡ false → In a xs → p a ≡ false
  any-false-In p [] a e m = elim m [ ]
  any-false-In p (x ∷ xs) a e (inl q) = ground arith
  any-false-In p (x ∷ xs) a e (inr m) = any-false-In p xs a (ground arith) m

  pub count_where-pos :
      (p : A → Bool) (xs : List A) (a : A) → In a xs → p a ≡ true → count_where p xs ≢ 0
  count_where-pos p [] a m h = elim m [ ]
  count_where-pos p (x ∷ xs) a (inl e) h = ground arith
  count_where-pos p (x ∷ xs) a (inr m) h = ground (arith, count_where-pos p xs a m h)

  -- A statement that changes no row that it meets leaves the table.
  pub update_where-same :
      (p : A → Bool) (f : A → A) (xs : List A)
      → ((x : A) → In x xs → p x ≡ true → f x ≡ x)
      → update_where p f xs ≡ xs
  update_where-same p f [] h = refl
  update_where-same p f (x ∷ xs) h = elim (Bool-cases (p x)) [
    | inl t ↦ ground (arith, h x (inl refl) t, update_where-same p f xs (λ y m. h y (inr m)))
    | inr t ↦ ground (arith, update_where-same p f xs (λ y m. h y (inr m)))
  ]

  pub any-true_of : (p : A → Bool) (xs : List A) (a : A) → In a xs → p a ≡ true → any p xs ≡ true
  any-true_of p [] a m t = elim m [ ]
  any-true_of p (x ∷ xs) a (inl e) t = ground arith
  any-true_of p (x ∷ xs) a (inr m) t = ground (arith, any-true_of p xs a m t)

  pub select_where-kept :
      (p : A → Bool) (x : A) (xs : List A)
      → p x ≡ true
      → select_where p (x ∷ xs) ≡ x ∷ select_where p xs
  select_where-kept p x xs t = rw (t, select_where)

  pub select_where-left :
      (p : A → Bool) (x : A) (xs : List A)
      → p x ≡ false
      → select_where p (x ∷ xs) ≡ select_where p xs
  select_where-left p x xs t = rw (t, select_where)

  pub any-witness :
      (p : A → Bool) (xs : List A) → any p xs ≡ true → (a : A) × In a xs × (p a ≡ true)
  any-witness p [] t = cc
  any-witness p (x ∷ xs) t = elim (Bool-cases (p x)) [
    | inl u ↦ (x, inl refl, u)
    | inr u ↦ let (a, m, v) = any-witness p xs (ground arith) in (a, inr m, v)
  ]

  pub update-append_last :
      (p : A → Bool) (f : A → A) (xs : List A) (x : A)
      → ((y : A) → In y xs → p y ≡ false)
      → p x ≡ true
      → update_where p f (xs ++ x ∷ []) ≡ xs ++ f x ∷ []
  update-append_last p f [] x h t = ground arith
  update-append_last p f (y ∷ xs) x h t =
      ground (arith, h y (inl refl), update-append_last p f xs x (λ z m. h z (inr m)) t)

  pub find-append_last :
      (p : A → Bool) (xs : List A) (x : A)
      → find_where p xs ≡ none
      → p x ≡ true
      → find_where p (xs ++ x ∷ []) ≡ some x
  find-append_last p [] x h t = ground arith
  find-append_last p (y ∷ xs) x h t = ground (arith, find-append_last p xs x)
