-- ===== src/Queue/Redaction.antt =====
-- What a finished screenshot job keeps of its payload.
use recruiting_os.Common.{
  Distinct, inr, inl, all, String, List, Clock, Bool-cases, All, ◌≡◌, true, str_eq, false, Bool, ℕ,
}
use recruiting_os.Queue.Rows.{is_cancelled, Queue, redacted_payload, redact, JobRow}
use recruiting_os.Domain.{JobStatus}
use recruiting_os.Queue.Steps.{RowStep}
use recruiting_os.Queue.Machine.{run, Call}
use recruiting_os.Queue.Unique.{ids}
use recruiting_os.Queue.Enqueue.{requeue, EnqueueJob}
use recruiting_os.Queue.Settle.{fail_row}
use recruiting_os.Queue.History.{run-All}

abbrev pub is_terminal : JobStatus → Bool
is_terminal JobStatus.succeeded = true
is_terminal JobStatus.dead_letter = true
is_terminal JobStatus.cancelled = true
is_terminal _ = false

-- A screenshot job that has ended holds the redaction notice alone.
pub record IsRedacted (r : JobRow) : Type 0 where
  pub redacted :
      is_terminal r.status ≡ true
      → str_eq r.type "ingest.screenshot" ≡ true
      → (t : ℕ) × (r.payload ≡ redacted_payload t)

redact-screenshot :
    (r : JobRow) (now : ℕ)
    → str_eq r.type "ingest.screenshot" ≡ true
    → redact r now ≡ redacted_payload now
redact-screenshot r now e = rw e

requeue-IsRedacted :
    (input : EnqueueJob) (now : ℕ) (r : JobRow) → IsRedacted r → IsRedacted (requeue input now r)
unfolding requeue
requeue-IsRedacted input now r h = elim (Bool-cases (is_cancelled r.status)) [
  | inl t ↦ rw (t, requeue) (record { redacted = λ e s. cc })
  | inr t ↦ rw (t, requeue) h
]

fail_row-IsRedacted :
    (terminal : Bool) (message : String) (at a b : ℕ) (r : JobRow)
    → IsRedacted (fail_row terminal message at a b r)
fail_row-IsRedacted true message at a b r = record {
  redacted = λ e s. (a, redact-screenshot r a s);
}
fail_row-IsRedacted false message at a b r = record { redacted = λ e s. cc }

RowStep-IsRedacted : (r s : JobRow) → RowStep r s → IsRedacted r → IsRedacted s
RowStep-IsRedacted _ _ (RowStep.revive input now r) h = requeue-IsRedacted input now r h
RowStep-IsRedacted _ _ (RowStep.cancel a b r t) h = record {
  redacted = λ e s. (a, redact-screenshot r a s);
}
RowStep-IsRedacted _ _ (RowStep.expire t a b r u) h = record {
  redacted = λ e s. (a, redact-screenshot r a s);
}
RowStep-IsRedacted _ _ (RowStep.lease worker until now clock r t) h = record {
  redacted = λ e s. cc;
}
RowStep-IsRedacted _ _ (RowStep.renew until now r t) h = record { redacted = h.redacted }
RowStep-IsRedacted _ _ (RowStep.succeed a b r t) h = record {
  redacted = λ e s. (a, redact-screenshot r a s);
}
RowStep-IsRedacted _ _ (RowStep.give_back job message at a b r t) h =
    fail_row-IsRedacted _ message at a b r

-- Over every history of calls, a screenshot job that has succeeded, died or been cancelled holds
-- nothing of its payload but the redaction notice, if that held of the jobs at the start and
-- their ids were distinct.
pub run-IsRedacted :
    (stable_id : String → String → String) (h : List (Clock × Call)) (q : Queue)
    → Distinct (ids q.jobs)
    → All IsRedacted q.jobs
    → All IsRedacted (run stable_id h q).jobs
run-IsRedacted stable_id h q d all =
    run-All stable_id IsRedacted (λ input now. record { redacted = λ e s. cc }) RowStep-IsRedacted h
      q d all
