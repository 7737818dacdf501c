-- ===== src/Common/Sorting.antt =====
-- `order by`: a stable insertion sort, and the order of texts by their characters.
use Prim.Native.Nat.{Ordering}
use Prim.Native.String.{String, compare}
use mathlib.Core.Path.{◌≡◌, refl, sym, subst}
use mathlib.Core.Logic.{inl, inr}
use mathlib.Core.Bool.{Bool, true, false}
use mathlib.Core.Option.{Option, none, some}
use mathlib.Core.List.{List, [], ◌∷◌}
use recruiting_os.Common.Basics.{Bool-cases}
use recruiting_os.Common.Lists.{In}

abbrev pub text_lt : String → String → Bool
text_lt a b = elim (compare a b) [ Ordering.lt ↦ true | _ ↦ false ]

-- NULL comes first.
abbrev pub null_first : Option String → Option String → Bool
null_first none none = false
null_first none (some b) = true
null_first (some a) none = false
null_first (some a) (some b) = text_lt a b

unfoldable pub insert_by {ℓ} : {A : Type ℓ} → (A → A → Bool) → A → List A → List A
insert_by lt x [] = x ∷ []
insert_by lt x (y ∷ ys) =
    let rest = insert_by lt x ys in elim (lt y x) [ true ↦ y ∷ rest | false ↦ x ∷ y ∷ ys ]

-- `lt` says which of two comes first; rows that neither comes before keep their order.
unfoldable pub sort_by {ℓ} : {A : Type ℓ} → (A → A → Bool) → List A → List A
sort_by lt [] = []
sort_by lt (x ∷ xs) = insert_by lt x (sort_by lt xs)

module _ {A : Type 0} (lt : A → A → Bool) where
  insert_by-past :
      (x y : A) (ys : List A) → lt y x ≡ true → insert_by lt x (y ∷ ys) ≡ y ∷ insert_by lt x ys
  unfolding insert_by
  insert_by-past x y ys t = rw (t, insert_by)

  insert_by-here : (x y : A) (ys : List A) → lt y x ≡ false → insert_by lt x (y ∷ ys) ≡ x ∷ y ∷ ys
  unfolding insert_by
  insert_by-here x y ys t = rw (t, insert_by)

  insert_by-nil : (x : A) → insert_by lt x [] ≡ x ∷ []
  unfolding insert_by
  insert_by-nil x = refl

  In-insert : (x a : A) (ys : List A) → In a (insert_by lt x ys) → In a (x ∷ ys)
  In-insert x a [] m = subst (In a) (insert_by-nil x) m
  In-insert x a (y ∷ ys) m = elim (Bool-cases (lt y x)) [
    | inl t ↦ elim (subst (In a) (insert_by-past x y ys t) m) [
      | inl e ↦ inr (inl e)
      | inr k ↦ elim (In-insert x a ys k) [ inl e ↦ inl e | inr k ↦ inr (inr k) ]
    ]
    | inr t ↦ subst (In a) (insert_by-here x y ys t) m
  ]

  insert-In : (x a : A) (ys : List A) → In a (x ∷ ys) → In a (insert_by lt x ys)
  insert-In x a [] m = subst (In a) (sym (insert_by-nil x)) m
  insert-In x a (y ∷ ys) m = elim (Bool-cases (lt y x)) [
    | inl t ↦ subst (In a) (sym (insert_by-past x y ys t)) (elim m [
      | inl e ↦ inr (insert-In x a ys (inl e))
      | inr (inl e) ↦ inl e
      | inr (inr k) ↦ inr (insert-In x a ys (inr k))
    ])
    | inr t ↦ subst (In a) (sym (insert_by-here x y ys t)) m
  ]

  pub In-sort : (a : A) (xs : List A) → In a (sort_by lt xs) → In a xs
  unfolding sort_by
  In-sort a [] m = m
  In-sort a (x ∷ xs) m = elim (In-insert x a (sort_by lt xs) m) [
    | inl e ↦ inl e
    | inr k ↦ inr (In-sort a xs k)
  ]

  pub sort-In : (a : A) (xs : List A) → In a xs → In a (sort_by lt xs)
  unfolding sort_by
  sort-In a [] m = m
  sort-In a (x ∷ xs) (inl e) = insert-In x a (sort_by lt xs) (inl e)
  sort-In a (x ∷ xs) (inr m) = insert-In x a (sort_by lt xs) (inr (sort-In a xs m))
