-- ===== src/Common/Upsert.antt =====
-- What a query finds after an insert or an update of a table.
use mathlib.Core.Path.{◌≡◌, refl, sym, ap, ◌∙◌}
use mathlib.Core.Logic.{inl, inr}
use mathlib.Core.Bool.{Bool, true, false}
use mathlib.Core.Option.{Option, none, some}
use mathlib.Core.List.{List, [], ◌∷◌, ◌++◌}
use native.Mathlib.Omega.{arith}
use recruiting_os.Common.Basics.{Bool-cases, if◌then◌else◌}
use recruiting_os.Common.Lists.{any, find_where, update_where}

-- `insert … on conflict do update`: a row that matches is changed, else one is added.
unfoldable pub upsert_where {ℓ} : {A : Type ℓ} → (A → Bool) → (A → A) → A → List A → List A
upsert_where p f new rows = if any p rows then update_where p f rows else rows ++ new ∷ []

-- What stands under a key after an upsert.
abbrev pub upserted {ℓ} : {A : Type ℓ} → (A → A) → A → Option A → A
upserted f new none = new
upserted f new (some r) = f r

module _ {A : Type 0} (p : A → Bool) where
  pub find_where-update :
      (f : A → A) (rows : List A)
      → ((x : A) → p x ≡ true → p (f x) ≡ true)
      → any p rows ≡ true
      → (new : A) → find_where p (update_where p f rows) ≡ some (upserted f new (find_where p rows))
  find_where-update f [] keep t new = cc
  find_where-update f (x ∷ rows) keep t new = elim (Bool-cases (p x)) [
    | inl u ↦ ground (arith, u, keep x u)
    | inr u ↦ ground (arith, u, find_where-update f rows keep (rw u at t) new)
  ]

  pub find_where-missing : (rows : List A) → any p rows ≡ false → find_where p rows ≡ none
  find_where-missing [] t = refl
  find_where-missing (x ∷ rows) t = elim (Bool-cases (p x)) [
    | inl u ↦ ground arith
    | inr u ↦ ground (arith, u, find_where-missing rows (rw u at t))
  ]

  pub find_where-last :
      (rows : List A) (new : A)
      → any p rows ≡ false
      → p new ≡ true
      → find_where p (rows ++ new ∷ []) ≡ some new
  find_where-last [] new t n = rw n refl
  find_where-last (x ∷ rows) new t n = elim (Bool-cases (p x)) [
    | inl u ↦ ground arith
    | inr u ↦ rw u (find_where-last rows new (rw u at t) n)
  ]

  pub find_where-skip :
      (rows : List A) (new : A)
      → p new ≡ false
      → find_where p (rows ++ new ∷ []) ≡ find_where p rows
  find_where-skip [] new n = rw n refl
  find_where-skip (x ∷ rows) new n = elim (Bool-cases (p x)) [
    | inl u ↦ ground (arith, u)
    | inr u ↦ ground (arith, u, find_where-skip rows new n)
  ]

  -- An update of rows that are not wanted, and are not wanted after it.
  pub find_where-other :
      (q : A → Bool) (f : A → A) (rows : List A)
      → ((x : A) → q x ≡ true → (p x ≡ false) × (p (f x) ≡ false))
      → find_where p (update_where q f rows) ≡ find_where p rows
  find_where-other q f [] apart = refl
  find_where-other q f (x ∷ rows) apart =
      let rest = find_where-other q f rows apart in
      elim (Bool-cases (q x)) [
        | inl u ↦ ground (arith, rest, (apart x u).0, (apart x u).1)
        | inr u ↦ ground (arith, rest)
      ]

  -- Under its own key an upsert leaves the row changed, or the new one.
  pub find-upsert :
      (f : A → A) (new : A) (rows : List A)
      → ((x : A) → p x ≡ true → p (f x) ≡ true)
      → p new ≡ true
      → find_where p (upsert_where p f new rows) ≡ some (upserted f new (find_where p rows))
  unfolding upsert_where
  find-upsert f new rows keep n = elim (Bool-cases (any p rows)) [
    | inl u ↦ rw (u, upsert_where) (find_where-update f rows keep u new)
    | inr u ↦
        rw (u, upsert_where)
          (find_where-last rows new u n
            ∙ sym (ap (λ o. some (upserted f new o)) (find_where-missing rows u)))
  ]

  -- Under another key it leaves what stood there.
  pub find-upsert_other :
      (q : A → Bool) (f : A → A) (new : A) (rows : List A)
      → ((x : A) → q x ≡ true → (p x ≡ false) × (p (f x) ≡ false))
      → p new ≡ false
      → find_where p (upsert_where q f new rows) ≡ find_where p rows
  unfolding upsert_where
  find-upsert_other q f new rows apart n = elim (Bool-cases (any q rows)) [
    | inl u ↦ rw (u, upsert_where) (find_where-other q f rows apart)
    | inr u ↦ rw (u, upsert_where) (find_where-skip rows new n)
  ]
