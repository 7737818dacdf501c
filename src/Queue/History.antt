-- ===== src/Queue/History.antt =====
-- The primary key of `jobs` over any history of calls.
use recruiting_os.Common.{
  Distinct-concat, Distinct, ◌⊎◌, ◌≢◌, ◌≡◌, ◌∷◌, ◌++◌, sym, subst, refl, ok, inr, inl, err, [],
  String, Result, List, In-append_left, In-All, In, Clock, All-In, All, ℕ,
}
use recruiting_os.Queue.Machine.{step-Came, step, run, after_enqueue, Came, Call}
use recruiting_os.Queue.Unique.{ids}
use recruiting_os.Queue.Enqueue.{new_row, job_key, enqueue, EnqueueJob}
use recruiting_os.Queue.Rows.{Queue, JobRow, Job}
use recruiting_os.Queue.Steps.{RowSteps, RowStep}
use recruiting_os.Queue.Keys.{
  upsert-ids, renew_lease-ids, lease_next-ids, fail-ids, complete-ids, cancel_each-ids,
}
use recruiting_os.Queue.Cancel.{cancel_pending, cancel_ids}
use recruiting_os.Queue.Insert.{enqueue-ok}

module _ (stable_id : String → String → String) where
  -- What a call does to the column of ids.
  abbrev pub Grows : List String → List String → Type 0
  Grows old new = (new ≡ old) ⊎ ((id : String) × (new ≡ old ++ id ∷ []) × All (λ y. y ≢ id) old)

  step-Grows :
      (clock : Clock) (call : Call) (q : Queue)
      → Grows (ids q.jobs) (ids (step stable_id clock call q).jobs)
  unfolding step
  step-Grows clock (Call.enqueues input) q = inserted (enqueue stable_id input clock q) refl
    where
      inserted :
          (r : Result String (Job × Queue))
          → enqueue stable_id input clock q ≡ r
          → Grows (ids q.jobs) (ids (after_enqueue q r).jobs)
      inserted (err e) p = inl refl
      inserted (ok (j, q')) p =
          elim (upsert-ids input _ _ q.jobs q'.jobs (enqueue-ok stable_id input clock q j q' p)) [
            | inl e ↦ inl e
            | inr (e, h) ↦ inr (stable_id "job" (job_key input), e, h)
          ]
  step-Grows clock (Call.cancels input) q =
      inl (unfold cancel_pending in cancel_each-ids clock 0 (cancel_ids input q) q.jobs)
  step-Grows clock (Call.leases worker seconds) q = inl (lease_next-ids worker seconds clock q)
  step-Grows clock (Call.renews job seconds) q = inl (renew_lease-ids job seconds clock q)
  step-Grows clock (Call.completes job) q = inl (complete-ids job clock q)
  step-Grows clock (Call.fails job message) q = inl (fail-ids job message clock q)

  pub step-Distinct :
      (clock : Clock) (call : Call) (q : Queue)
      → Distinct (ids q.jobs)
      → Distinct (ids (step stable_id clock call q).jobs)
  step-Distinct clock call q d = elim (step-Grows clock call q) [
    | inl e ↦ subst Distinct (sym e) d
    | inr (id, e, h) ↦ subst Distinct (sym e) (Distinct-concat (ids q.jobs) id d h)
  ]

  run-Distinct :
      (h : List (Clock × Call)) (q : Queue)
      → Distinct (ids q.jobs)
      → Distinct (ids (run stable_id h q).jobs)
  unfolding run
  run-Distinct [] q d = d
  run-Distinct ((clock, call) ∷ h) q d = run-Distinct h _ (step-Distinct clock call q d)

  run-keeps_ids :
      (h : List (Clock × Call)) (q : Queue) (id : String)
      → In id (ids q.jobs)
      → In id (ids (run stable_id h q).jobs)
  unfolding run
  run-keeps_ids [] q id m = m
  run-keeps_ids ((clock, call) ∷ h) q id m = run-keeps_ids h _ id (elim (step-Grows clock call q) [
    | inl e ↦ subst (In id) (sym e) m
    | inr (new, e, f) ↦ subst (In id) (sym e) (In-append_left (ids q.jobs) (new ∷ []) id m)
  ])

  -- An invariant of rows holds over every history: it is enough that a new row has it and that
  -- each row step keeps it.
  module _ (P : JobRow → Type 0)
      (fresh : (input : EnqueueJob) (now : ℕ)
        → P (new_row input (stable_id "job" (job_key input)) now))
      (keep : (r s : JobRow) → RowStep r s → P r → P s) where
    keep_steps : (r s : JobRow) → RowSteps r s → P r → P s
    keep_steps r s RowSteps.same p = p
    keep_steps r s (RowSteps.then_step {s = t} a b) p = keep t s b (keep_steps r t a p)

    came : (q : Queue) (a : JobRow) → All P q.jobs → Came stable_id q a → P a
    came q a h (Came.old (x, m, steps)) = keep_steps x a steps (All-In P q.jobs x h m)
    came q a h (Came.inserted input now e) = subst P (sym e) (fresh input now)

    pub step-All :
        (clock : Clock) (call : Call) (q : Queue)
        → Distinct (ids q.jobs)
        → All P q.jobs
        → All P (step stable_id clock call q).jobs
    step-All clock call q d h =
        In-All P _ λ a m. came q a h (All-In _ _ a (step-Came stable_id clock call q d) m)

    pub run-All :
        (h : List (Clock × Call)) (q : Queue)
        → Distinct (ids q.jobs)
        → All P q.jobs
        → All P (run stable_id h q).jobs
    unfolding run
    run-All [] q d a = a
    run-All ((clock, call) ∷ h) q d a =
        run-All h _ (step-Distinct clock call q d) (step-All clock call q d a)

  -- Whatever is called, no two jobs share an id, and no id of a job is lost.
  pub run-ids :
      (h : List (Clock × Call)) (q : Queue)
      → Distinct (ids q.jobs)
      → Distinct (ids (run stable_id h q).jobs)
        × ((id : String) → In id (ids q.jobs) → In id (ids (run stable_id h q).jobs))
  run-ids h q d = (run-Distinct h q d, run-keeps_ids h q)
