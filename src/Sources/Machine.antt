-- ===== src/Sources/Machine.antt =====
-- Histories of the calls that stage and settle sources.
use recruiting_os.Common.{
  true, false, Bool, All, ◌≡◌, ◌∷◌, refl, or_else, ok, err, [], String, Result, Option, List, Clock,
  ℕ,
}
use recruiting_os.Domain.{Json}
use recruiting_os.Sources.Rows.{StageSourceResult, Sources, SourceItem, ProcessingFailure}
use recruiting_os.Sources.Writes.{
  stage_source-Writes, mark_source_processing-Writes, Writes-trans, Writes, Write,
}
use recruiting_os.Sources.Settle.{mark_source_succeeded, mark_source_processing, mark_source_failed}
use recruiting_os.Sources.Stage.{stage_source}

pub data SourceCall : Type 0 where
  stages : SourceItem → Option String → SourceCall
  begins : String → Option String → SourceCall
  succeeds : String → Option String → SourceCall
  fails : String → ProcessingFailure → Option String → SourceCall

-- The tables after a call; one that throws leaves them as they were.
abbrev pub after_call : {A : Type 0} → Sources → Result String (A × Sources) → Sources
after_call q (ok (a, q')) = q'
after_call q (err e) = q

-- A call that settles an attempt.
abbrev pub is_settling : SourceCall → Bool
is_settling (SourceCall.succeeds id tenant) = true
is_settling (SourceCall.fails id failure tenant) = true
is_settling _ = false

module _ (stable_id : String → String → String) (digest : Json → String)
    (default_tenant : String) where
  unfoldable pub source_step : Clock → SourceCall → Sources → Sources
  source_step clock (SourceCall.stages source tenant) q =
      after_call q (stage_source stable_id digest default_tenant source tenant clock q)
  source_step clock (SourceCall.begins id tenant) q =
      after_call q (mark_source_processing default_tenant id tenant clock q)
  source_step clock (SourceCall.succeeds id tenant) q =
      mark_source_succeeded default_tenant id tenant clock q
  source_step clock (SourceCall.fails id failure tenant) q =
      mark_source_failed default_tenant id failure tenant clock q

  unfoldable pub source_run : List (Clock × SourceCall) → Sources → Sources
  source_run [] q = q
  source_run ((clock, call) ∷ rest) q = source_run rest (source_step clock call q)

  pub source_step-Writes :
      (settles : Bool) (clock : Clock) (call : SourceCall) (q : Sources)
      → (is_settling call ≡ true → settles ≡ true)
      → Writes settles q.versions (source_step clock call q).versions
  unfolding source_step mark_source_succeeded mark_source_failed
  source_step-Writes settles clock (SourceCall.stages source tenant) q s =
      staged (stage_source stable_id digest default_tenant source tenant clock q) refl
    where
      staged :
          (r : Result String (StageSourceResult × Sources))
          → stage_source stable_id digest default_tenant source tenant clock q ≡ r
          → Writes settles q.versions (after_call q r).versions
      staged (ok (r, q')) e =
          stage_source-Writes stable_id digest default_tenant settles source tenant clock q q' r e
      staged (err m) e = Writes.same
  source_step-Writes settles clock (SourceCall.begins id tenant) q s =
      begun (mark_source_processing default_tenant id tenant clock q) refl
    where
      begun :
          (r : Result String (ℕ × Sources))
          → mark_source_processing default_tenant id tenant clock q ≡ r
          → Writes settles q.versions (after_call q r).versions
      begun (ok (n, q')) e =
          mark_source_processing-Writes settles default_tenant id tenant clock n q q' e
      begun (err m) e = Writes.same
  source_step-Writes settles clock (SourceCall.succeeds id tenant) q s =
      Writes.then_write Writes.same
        (Write.succeeds (or_else tenant default_tenant) id (clock 0) (s refl))
  source_step-Writes settles clock (SourceCall.fails id failure tenant) q s =
      Writes.then_write Writes.same
        (Write.fails (or_else tenant default_tenant) id failure (clock 0) (s refl))

  pub source_run-Writes :
      (settles : Bool) (h : List (Clock × SourceCall)) (q : Sources)
      → All (λ c. is_settling c.1 ≡ true → settles ≡ true) h
      → Writes settles q.versions (source_run h q).versions
  unfolding source_run
  source_run-Writes settles [] q s = Writes.same
  source_run-Writes settles ((clock, call) ∷ h) q s =
      Writes-trans (source_step-Writes settles clock call q s.0)
        (source_run-Writes settles h (source_step clock call q) s.1)
