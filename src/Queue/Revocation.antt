-- ===== src/Queue/Revocation.antt =====
-- What `cancelPending` does, though it reads, filters and then updates id by id.
use recruiting_os.Common.{
  ◌⊎◌, ◌≢◌, ◌≡◌, ◌∷◌, update-In_old, update-In_new, true, sym, suc, str_eq, refl, inr, inl, false,
  eq_iff, arith, [], String, List, In, Clock, Bool-cases, All, ℕ,
}
use recruiting_os.Queue.Rows.{is_pending, JobRow}
use recruiting_os.Queue.Cancel.{is_target, cancel_row, cancel_each}

-- A row that is not waiting is met by no statement of the loop.
pub cancel_each-rests :
    (clock : Clock) (n : ℕ) (keys : List String) (rows : List JobRow) (a : JobRow)
    → is_pending a.status ≡ false
    → In a rows
    → In a (cancel_each clock n keys rows).1
unfolding cancel_each
cancel_each-rests clock n [] rows a f m = m
cancel_each-rests clock n (id ∷ keys) rows a f m =
    cancel_each-rests clock (suc (suc n)) keys _ a f
      (update-In_old (is_target id) (cancel_row (clock n) (clock (suc n))) rows a m (ground arith))

-- Nor is one whose id is not among the keys.
pub cancel_each-others :
    (clock : Clock) (n : ℕ) (keys : List String) (rows : List JobRow) (a : JobRow)
    → All (λ k. k ≢ a.id) keys
    → In a rows
    → In a (cancel_each clock n keys rows).1
unfolding cancel_each
cancel_each-others clock n [] rows a f m = m
cancel_each-others clock n (id ∷ keys) rows a f m =
    cancel_each-others clock (suc (suc n)) keys _ a f.1 (
      update-In_old (is_target id) (cancel_row (clock n) (clock (suc n))) rows a m
        (target-other id a f.0))
  where
    target-other : (id : String) (a : JobRow) → id ≢ a.id → is_target id a ≡ false
    target-other id a n = elim (Bool-cases (str_eq a.id id)) [
      | inl t ↦ absurd (n (sym ((eq_iff a.id id).0 t)))
      | inr t ↦ ground arith
    ]

-- A waiting row whose id is among the keys is cancelled.
pub cancel_each-hits :
    (clock : Clock) (n : ℕ) (keys : List String) (rows : List JobRow) (a : JobRow)
    → In a.id keys
    → is_pending a.status ≡ true
    → In a rows
    → (s : ℕ) × (t : ℕ) × In (cancel_row s t a) (cancel_each clock n keys rows).1
unfolding cancel_each
cancel_each-hits clock n [] rows a k p m = elim k [ ]
cancel_each-hits clock n (id ∷ keys) rows a k p m = elim (Bool-cases (str_eq a.id id)) [
  | inl t ↦ (
    clock n,
    clock (suc n),
    cancel_each-rests clock (suc (suc n)) keys _ (cancel_row (clock n) (clock (suc n)) a) refl (
        update-In_new (is_target id) (cancel_row (clock n) (clock (suc n))) rows a m
          (ground arith)),
  )
  | inr t ↦
      cancel_each-hits clock (suc (suc n)) keys _ a (later t k) p (
        update-In_old (is_target id) (cancel_row (clock n) (clock (suc n))) rows a m (ground arith))
]
  where
    later : str_eq a.id id ≡ false → (id ≡ a.id) ⊎ In a.id keys → In a.id keys
    later t (inl e) = absurd (cc (t, (eq_iff a.id id).1 (sym e)))
    later t (inr m) = m
