-- ===== src/Queue/Changes.antt =====
-- How many rows `cancelPending` reports as changed.
use recruiting_os.Common.{
  Distinct, ◌⊎◌, ◌≢◌, ◌≡◌, ◌∷◌, ◌∙◌, update_where, update-In_old, true, sym, suc, subst, str_eq,
  refl, length, inr, inl, false, eq_iff, count_where, arith, ap, [], String, List, In, Clock,
  Bool-cases, All-In, All, ℕ,
}
use recruiting_os.Queue.Unique.{ids-update, ids, In-ids}
use recruiting_os.Queue.Rows.{is_pending, JobRow}
use recruiting_os.Queue.Cancel.{is_target, cancel_row, cancel_each}

no_target :
    (rows : List JobRow) (id : String)
    → All (λ k. id ≢ k) (ids rows)
    → count_where (is_target id) rows ≡ 0
no_target [] id h = refl
no_target (x ∷ rows) id h = elim (Bool-cases (str_eq x.id id)) [
  | inl t ↦ absurd (h.0 (sym ((eq_iff x.id id).0 t)))
  | inr t ↦ ground (arith, no_target rows id h.1)
]

-- One row has an id, so one statement changes one row.
count-target :
    (rows : List JobRow) (a : JobRow)
    → Distinct (ids rows)
    → In a rows
    → is_pending a.status ≡ true
    → count_where (is_target a.id) rows ≡ 1
count-target [] a d m p = elim m [ ]
count-target (x ∷ rows) a d (inl e) p =
    subst (λ (b : JobRow). count_where (is_target b.id) (x ∷ rows) ≡ 1) e
      (ground (
        arith,
        no_target rows x.id d.0,
        (eq_iff x.id x.id).1 refl,
        ap (λ (b : JobRow). is_pending b.status) e,
      ))
count-target (x ∷ rows) a d (inr m) p = elim (Bool-cases (str_eq x.id a.id)) [
  | inl t ↦
      absurd (All-In (λ k. x.id ≢ k) (ids rows) a.id d.0 (In-ids rows a m) ((eq_iff x.id a.id).0 t))
  | inr t ↦ ground (arith, count-target rows a d.1 m p)
]

-- Each key stands for a waiting row.
abbrev pub Waits : List JobRow → String → Type 0
Waits rows k = (a : JobRow) × In a rows × (a.id ≡ k) × (is_pending a.status ≡ true)

Waits-later :
    (id : String) (s t : ℕ) (rows : List JobRow) (keys : List String)
    → All (λ y. id ≢ y) keys
    → All (Waits rows) keys
    → All (Waits (update_where (is_target id) (cancel_row s t) rows)) keys
Waits-later id s t rows [] d w = tt
Waits-later id s t rows (k ∷ keys) d ((a, m, e, p), w) = (
  (
    a,
    update-In_old (is_target id) (cancel_row s t) rows a m (other (Bool-cases (str_eq a.id id))),
    e,
    p,
  ),
  Waits-later id s t rows keys d.1 w,
)
  where
    other : (str_eq a.id id ≡ true) ⊎ (str_eq a.id id ≡ false) → is_target id a ≡ false
    other (inl u) = absurd (d.0 (sym ((eq_iff a.id id).0 u) ∙ e))
    other (inr u) = ground arith

-- The changes add up to the number of keys.
pub cancel_each-count :
    (clock : Clock) (n : ℕ) (keys : List String) (rows : List JobRow)
    → Distinct (ids rows)
    → Distinct keys
    → All (Waits rows) keys
    → (cancel_each clock n keys rows).0 ≡ length keys
unfolding cancel_each
cancel_each-count clock n [] rows d e w = refl
cancel_each-count clock n (id ∷ keys) rows d e ((a, m, same, p), w) =
    let later = update_where (is_target id) (cancel_row (clock n) (clock (suc n))) rows in
    let one = subst (λ k. count_where (is_target k) rows ≡ 1) same (count-target rows a d m p) in
    let d' : Distinct (ids later) =
      subst Distinct (sym (ids-update (is_target id) _ rows (λ r. refl))) d in
    omega (
      arith,
      one,
      cancel_each-count clock (suc (suc n)) keys later d' e.1
          (Waits-later id (clock n) (clock (suc n)) rows keys e.0 w),
    )
