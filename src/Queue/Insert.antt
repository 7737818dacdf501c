-- ===== src/Queue/Insert.antt =====
-- The rows that `enqueue` leaves, and the keys that it keeps distinct.
use recruiting_os.Common.{
  Result-cases, ℕ, String, true, false, ◌≡◌, ◌⊎◌, inl, inr, sym, subst, ap, ◌∙◌, List, [], ◌∷◌,
  ◌++◌, arith, Clock, ok, str_eq, All, In, In-All, All-In, update_where, any, In-append,
}
use recruiting_os.Queue.Rows.{JobRow, Queue, Job}
use recruiting_os.Queue.Enqueue.{
  EnqueueJob, new_row, requeue, enqueue, upsert, conflicts, job_key, read_back,
}
use recruiting_os.Queue.Steps.{RowStep, RowSteps, From, From-update}

pub upsert-cases :
    (input : EnqueueJob) (id : String) (now : ℕ) (rows later : List JobRow)
    → upsert input id now rows ≡ ok later
    → ((any (conflicts input) rows ≡ true)
        × (later ≡ update_where (conflicts input) (requeue input now) rows))
      ⊎ ((any (conflicts input) rows ≡ false)
          × (any (λ r. str_eq r.id id) rows ≡ false)
          × (later ≡ rows ++ new_row input id now ∷ []))
unfolding upsert
upsert-cases input id now rows later e = ground arith

-- A row of the table that `enqueue` leaves is one that it inserted, or comes from an old one.
pub data Origin (input : EnqueueJob) (id : String) (rows : List JobRow) (a : JobRow) : Type 0 where
  old : From rows a → Origin input id rows a
  inserted : (now : ℕ) → a ≡ new_row input id now → Origin input id rows a

upsert-Origin :
    (input : EnqueueJob) (id : String) (now : ℕ) (rows later : List JobRow)
    → upsert input id now rows ≡ ok later
    → (a : JobRow) → In a later
    → Origin input id rows a
upsert-Origin input id now rows later e a m = elim (upsert-cases input id now rows later e) [
  | inl (t, p) ↦ Origin.old (
      All-In (From rows) _ a (From-update _ _ rows (λ x n u. RowStep.revive input now x))
        (subst (In a) p m))
  | inr (t, u, p) ↦ elim (In-append rows _ a (subst (In a) p m)) [
    | inl n ↦ Origin.old (a, n, RowSteps.same)
    | inr n ↦ elim n [ inl q ↦ Origin.inserted now (sym q) | inr k ↦ absurd k ]
  ]
]

pub read_back-ok :
    (id : String) (q : Queue) (j : Job) (q' : Queue) → read_back id q ≡ ok (j, q') → q' ≡ q
unfolding read_back
read_back-ok id q j q' e = ground arith

module _ (stable_id : String → String → String) where
  -- The table that a successful `enqueue` leaves is the one that its insert yields.
  pub enqueue-ok :
      (input : EnqueueJob) (clock : Clock) (q : Queue) (j : Job) (q' : Queue)
      → enqueue stable_id input clock q ≡ ok (j, q')
      → upsert input (stable_id "job" (job_key input)) (clock 0) q.jobs ≡ ok q'.jobs
  unfolding enqueue
  enqueue-ok input clock q j q' e =
      let id = stable_id "job" (job_key input) in
      elim (Result-cases (upsert input id (clock 0) q.jobs)) [
        | inl (m, n) ↦ absurd (cc (rw (n, enqueue) at e))
        | inr (rows, n) ↦
            n
            ∙ ap ok
                (sym (ap (λ (p : Queue). p.jobs) (read_back-ok id _ j q' (rw (n, enqueue) at e))))
      ]

  pub enqueue-Origin :
      (input : EnqueueJob) (clock : Clock) (q : Queue) (j : Job) (q' : Queue)
      → enqueue stable_id input clock q ≡ ok (j, q')
      → All (Origin input (stable_id "job" (job_key input)) q.jobs) q'.jobs
  enqueue-Origin input clock q j q' e =
      In-All _ _ (upsert-Origin input _ _ q.jobs q'.jobs (enqueue-ok input clock q j q' e))
