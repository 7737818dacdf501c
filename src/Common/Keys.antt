-- ===== src/Common/Keys.antt =====
-- A column whose values are distinct: the primary key of a table.
use mathlib.Core.Path.{◌≡◌, refl, sym, ◌∙◌, ap, subst}
use mathlib.Core.Logic.{◌≢◌, inl, inr}
use mathlib.Core.Bool.{Bool, true, false}
use mathlib.Core.List.{List, [], ◌∷◌, ◌++◌, map}
use native.Mathlib.Omega.{arith}
use Prim.Native.String.{String}
use recruiting_os.Common.Basics.{Bool-cases}
use recruiting_os.Common.Lists.{update_where, count_where, All, In}
use recruiting_os.Common.Every.{In-All}
use recruiting_os.Common.Rows.{count_where-zero}

-- No element stands twice.
abbrev pub Distinct : {A : Type 0} → List A → Type 0
Distinct [] = Unit
Distinct (x ∷ xs) = All (λ y. x ≢ y) xs × Distinct xs

pub Distinct-concat :
    {A : Type 0} (xs : List A) (x : A) → Distinct xs → All (λ y. y ≢ x) xs → Distinct (xs ++ x ∷ [])
Distinct-concat [] x d h = (tt, tt)
Distinct-concat (y ∷ xs) x d h = (All-last xs y x d.0 h.0, Distinct-concat xs x d.1 h.1)
  where
    All-last :
        {A : Type 0} (xs : List A) (y x : A)
        → All (λ z. y ≢ z) xs
        → y ≢ x
        → All (λ z. y ≢ z) (xs ++ x ∷ [])
    All-last [] y x a n = (n, tt)
    All-last (z ∷ zs) y x a n = (a.0, All-last zs y x a.1 n)

All-In_key : (xs : List String) (x y : String) → All (λ z. x ≢ z) xs → In y xs → x ≢ y
All-In_key [] x y h m = elim m [ ]
All-In_key (z ∷ zs) x y h (inl e) = subst (λ (w : String). x ≢ w) e h.0
All-In_key (z ∷ zs) x y h (inr m) = All-In_key zs x y h.1 m

module _ {A : Type 0} (key : A → String) where
  pub In-map_key : (rows : List A) (r : A) → In r rows → In (key r) (map key rows)
  In-map_key [] r m = elim m [ ]
  In-map_key (x ∷ rows) r (inl e) = inl (ap key e)
  In-map_key (x ∷ rows) r (inr m) = inr (In-map_key rows r m)

  -- With distinct keys a row is known by its key.
  pub row_of_key :
      (rows : List A) (r s : A)
      → Distinct (map key rows)
      → In r rows
      → In s rows
      → key r ≡ key s
      → r ≡ s
  row_of_key [] r s d m n e = elim m [ ]
  row_of_key (x ∷ rows) r s d (inl a) (inl b) e = sym a ∙ b
  row_of_key (x ∷ rows) r s d (inl a) (inr n) e =
      absurd (All-In_key (map key rows) (key x) (key s) d.0 (In-map_key rows s n) (ap key a ∙ e))
  row_of_key (x ∷ rows) r s d (inr m) (inl b) e =
      absurd
        (All-In_key (map key rows) (key x) (key r) d.0 (In-map_key rows r m) (ap key b ∙ sym e))
  row_of_key (x ∷ rows) r s d (inr m) (inr n) e = row_of_key rows r s d.1 m n e

  -- An update that keeps the keys of the rows that it changes keeps the column.
  pub keys-update :
      (p : A → Bool) (f : A → A) (rows : List A)
      → ((r : A) → key (f r) ≡ key r)
      → map key (update_where p f rows) ≡ map key rows
  keys-update p f [] keep = refl
  keys-update p f (r ∷ rows) keep = elim (Bool-cases (p r)) [
    | inl t ↦ ground (arith, keep r, keys-update p f rows keep)
    | inr t ↦ ground (arith, keys-update p f rows keep)
  ]

  -- A condition that fixes the key holds of one row at most.
  none_of_key :
      (p : A → Bool) (k : String) (x : A) (rows : List A)
      → ((y : A) → p y ≡ true → key y ≡ k)
      → Distinct (map key (x ∷ rows))
      → key x ≡ k
      → (y : A) → In y rows
      → p y ≡ false
  none_of_key p k x rows fixes d e y m = elim (Bool-cases (p y)) [
    | inl t ↦
        absurd (
          All-In_key (map key rows) (key x) (key y) d.0 (In-map_key rows y m) (e ∙ sym (fixes y t)))
    | inr t ↦ t
  ]

  pub count_where-one :
      (p : A → Bool) (k : String) (rows : List A) (r : A)
      → ((y : A) → p y ≡ true → key y ≡ k)
      → Distinct (map key rows)
      → In r rows
      → p r ≡ true
      → count_where p rows ≡ 1
  count_where-one p k [] r fixes d m t = elim m [ ]
  count_where-one p k (x ∷ rows) r fixes d (inl e) t =
      let u = subst (λ y. p y ≡ true) (sym e) t in
      let none_left = none_of_key p k x rows fixes d (fixes x u) in
      ground (arith, u, count_where-zero p rows (In-All (λ y. p y ≡ false) rows none_left))
  count_where-one p k (x ∷ rows) r fixes d (inr m) t = elim (Bool-cases (p x)) [
    | inl u ↦ absurd (cc (none_of_key p k x rows fixes d (fixes x u) r m, t))
    | inr u ↦ ground (arith, u, count_where-one p k rows r fixes d.1 m t)
  ]
