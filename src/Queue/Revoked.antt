-- ===== src/Queue/Revoked.antt =====
-- The whole of `cancelPending`: src/infrastructure/queue/sqlite-job-queue.ts.
use recruiting_os.Common.{
  Distinct, select_where-left, select_where-kept, ◌≢◌, ◌≡◌, ◌∷◌, ◌∙◌, true, sym, subst,
  select_where, select-In, refl, length, inr, inl, false, count_where, arith, ap, [], String, List,
  In, Clock, Bool-cases, Bool, All, ℕ,
}
use recruiting_os.Queue.Cancel.{
  is_candidate, cancel_row, cancel_pending, cancel_ids, CancelPendingJobs,
}
use recruiting_os.Queue.Unique.{row_of_id, ids, In-ids}
use recruiting_os.Queue.Rows.{Queue, JobRow}
use recruiting_os.Queue.Changes.{cancel_each-count, Waits}
use recruiting_os.Queue.Revocation.{cancel_each-others, cancel_each-hits}
use recruiting_os.Queue.Keys.{cancel_each-ids}

module _ (p : JobRow → Bool) where
  ids-select_ne :
      (rows : List JobRow) (id : String)
      → All (λ k. id ≢ k) (ids rows)
      → All (λ k. id ≢ k) (ids (select_where p rows))
  ids-select_ne [] id h = tt
  ids-select_ne (x ∷ rows) id h = elim (Bool-cases (p x)) [
    | inl t ↦
        subst (λ l. All (λ k. id ≢ k) (ids l)) (sym (select_where-kept p x rows t))
          (h.0, ids-select_ne rows id h.1)
    | inr t ↦
        subst (λ l. All (λ k. id ≢ k) (ids l)) (sym (select_where-left p x rows t))
          (ids-select_ne rows id h.1)
  ]

  Distinct-select :
      (rows : List JobRow) → Distinct (ids rows) → Distinct (ids (select_where p rows))
  Distinct-select [] d = tt
  Distinct-select (x ∷ rows) d = elim (Bool-cases (p x)) [
    | inl t ↦
        subst (λ l. Distinct (ids l)) (sym (select_where-kept p x rows t))
          (ids-select_ne rows x.id d.0, Distinct-select rows d.1)
    | inr t ↦
        subst (λ l. Distinct (ids l)) (sym (select_where-left p x rows t))
          (Distinct-select rows d.1)
  ]

  length-ids_select : (rows : List JobRow) → length (ids (select_where p rows)) ≡ count_where p rows
  length-ids_select [] = refl
  length-ids_select (x ∷ rows) = ground (arith, length-ids_select rows)

  ids-select_of :
      (P : String → Type 0) (rows : List JobRow)
      → ((x : JobRow) → In x rows → p x ≡ true → P x.id)
      → All P (ids (select_where p rows))
  ids-select_of P [] h = tt
  ids-select_of P (x ∷ rows) h = elim (Bool-cases (p x)) [
    | inl t ↦
        subst (λ l. All P (ids l)) (sym (select_where-kept p x rows t))
          (h x (inl refl) t, ids-select_of P rows (λ y m. h y (inr m)))
    | inr t ↦
        subst (λ l. All P (ids l)) (sym (select_where-left p x rows t))
          (ids-select_of P rows (λ y m. h y (inr m)))
  ]

module _ (input : CancelPendingJobs) (clock : Clock) (q : Queue) (d : Distinct (ids q.jobs)) where
  abbrev pub revoked : List JobRow
  revoked = (cancel_pending input clock q).1.jobs

  revoked-hit :
      (r : JobRow)
      → In r q.jobs
      → is_candidate input r ≡ true
      → (s : ℕ) × (t : ℕ) × In (cancel_row s t r) revoked
  unfolding cancel_pending
  revoked-hit r m c =
      cancel_each-hits clock 0 (cancel_ids input q) q.jobs r
        (In-ids (select_where (is_candidate input) q.jobs) r
          (select-In (is_candidate input) q.jobs r m c))
        (ground arith) m

  revoked-other : (r : JobRow) → In r q.jobs → is_candidate input r ≡ false → In r revoked
  unfolding cancel_pending
  revoked-other r m c =
      cancel_each-others clock 0 (cancel_ids input q) q.jobs r
        (ids-select_of (is_candidate input) (λ k. k ≢ r.id) q.jobs
          λ x n t e.
            cc (ap (λ (y : JobRow). is_candidate input y) (row_of_id q.jobs x r d n m e), t, c))
        m

  revoked-count : (cancel_pending input clock q).0 ≡ count_where (is_candidate input) q.jobs
  unfolding cancel_pending
  revoked-count =
      cancel_each-count clock 0 (cancel_ids input q) q.jobs d
        (Distinct-select (is_candidate input) q.jobs d)
        (ids-select_of (is_candidate input) (Waits q.jobs) q.jobs
          λ x m t. (x, m, refl, ground arith))
      ∙ length-ids_select (is_candidate input) q.jobs

  revoked-ids : ids revoked ≡ ids q.jobs
  unfolding cancel_pending
  revoked-ids = cancel_each-ids clock 0 (cancel_ids input q) q.jobs

  -- A row of the new table stands for an old one with its id.
  revoked-clear : (a : JobRow) → In a revoked → is_candidate input a ≡ false
  revoked-clear a m =
      origin (old_row q.jobs a.id (subst (In a.id) revoked-ids (In-ids revoked a m)))
    where
      old_row :
          (rows : List JobRow) (id : String)
          → In id (ids rows)
          → (x : JobRow) × In x rows × (x.id ≡ id)
      old_row [] id k = elim k [ ]
      old_row (x ∷ rows) id (inl e) = (x, inl refl, e)
      old_row (x ∷ rows) id (inr k) = let (y, n, e) = old_row rows id k in (y, inr n, e)

      same : (b : JobRow) → In b revoked → b.id ≡ a.id → b ≡ a
      same b n e = row_of_id revoked b a (subst Distinct (sym revoked-ids) d) n m e

      origin : (x : JobRow) × In x q.jobs × (x.id ≡ a.id) → is_candidate input a ≡ false
      origin (x, n, e) = elim (Bool-cases (is_candidate input x)) [
        | inr f ↦
            subst (λ (b : JobRow). is_candidate input b ≡ false) (same x (revoked-other x n f) e) f
        | inl t ↦
            let (s, u, k) = revoked-hit x n t in
            subst (λ (b : JobRow). is_candidate input b ≡ false) (same (cancel_row s u x) k e)
              (ground arith)
      ]

-- `cancelPending` cancels exactly the waiting jobs of the tenant and type whose payload has the
-- given entries, leaves every other row as it is, reports how many it cancelled, and leaves no
-- such job behind; where the ids are distinct.
pub cancel_pending_lem :
    (input : CancelPendingJobs) (clock : Clock) (q : Queue)
    → Distinct (ids q.jobs)
    → ((cancel_pending input clock q).0 ≡ count_where (is_candidate input) q.jobs)
      × ((r : JobRow)
          → In r q.jobs
          → is_candidate input r ≡ true
          → (s : ℕ) × (t : ℕ) × In (cancel_row s t r) (cancel_pending input clock q).1.jobs)
      × ((r : JobRow)
          → In r q.jobs
          → is_candidate input r ≡ false
          → In r (cancel_pending input clock q).1.jobs)
      × ((a : JobRow) → In a (cancel_pending input clock q).1.jobs → is_candidate input a ≡ false)
cancel_pending_lem input clock q d = (
  revoked-count input clock q d,
  revoked-hit input clock q d,
  revoked-other input clock q d,
  revoked-clear input clock q d,
)
