-- ===== src/Ingestion/Outcome.antt =====
-- What one source leaves in the tables: `IngestionService.ingest` of src/ingest.ts without its links.
use recruiting_os.Common.{
  subst, ◌≡◌, [], inl, inr, true, false, Bool-cases, Result, Result-cases, ok, err, String, List, ℕ,
}
use recruiting_os.Sources.Rows.{SourceItem, Sources, StageSourceResult}
use recruiting_os.Sources.Stage.{stage_source}
use recruiting_os.Sources.Settle.{mark_source_processing}
use recruiting_os.Resolver.Host.{Host}
use recruiting_os.Ingestion.Source.{
  Clocks, ExtractionResult, IngestResult, Store, attempt_source, ingest_source, process,
}
use recruiting_os.Ingestion.Attempt.{
  Attempted, IsFailed, IsProcessed, settle_failure-IsFailed, process-Attempted,
}

module _ {R : Type 0} (host : Host R)
    (extract : SourceItem → Result String (ExtractionResult R)) where
  -- What a call that goes through or throws leaves in the tables.
  pub data Outcome (source : SourceItem) (clocks : Clocks) (s : Store R)
      : Result String (IngestResult × List String) × Store R → Type 0 where
    refused :
        (e : String)
        → stage_source host.stable_id host.digest host.default_tenant source source.tenant_id
            (clocks 1)
            s.sources
          ≡ err e
        → Outcome source clocks s (err e, s)
    busy :
        (r : StageSourceResult) (q : Sources) (e : String)
        → stage_source host.stable_id host.digest host.default_tenant source source.tenant_id
            (clocks 1)
            s.sources
          ≡ ok (r, q)
        → mark_source_processing host.default_tenant r.version_id source.tenant_id (clocks 2) q
          ≡ err e
        → Outcome source clocks s (err e, record s { sources = q })
    known :
        (r : StageSourceResult) (q : Sources)
        → stage_source host.stable_id host.digest host.default_tenant source source.tenant_id
            (clocks 1)
            s.sources
          ≡ ok (r, q)
        → r.should_process ≡ false
        → Outcome source clocks s (
          ok (record { version_id = r.version_id; processed = false; unchanged = true }, []),
          record s { sources = q },
        )
    failed :
        (r : StageSourceResult) (q q' : Sources) (attempt : ℕ) (e : String) (s' : Store R)
        → stage_source host.stable_id host.digest host.default_tenant source source.tenant_id
            (clocks 1)
            s.sources
          ≡ ok (r, q)
        → mark_source_processing host.default_tenant r.version_id source.tenant_id (clocks 2) q
          ≡ ok (attempt, q')
        → IsFailed host extract source r.version_id attempt clocks (record s { sources = q' }) e s'
        → Outcome source clocks s (err e, s')
    processed :
        (r : StageSourceResult) (q q' : Sources) (attempt : ℕ) (urls : List String) (s' : Store R)
        → stage_source host.stable_id host.digest host.default_tenant source source.tenant_id
            (clocks 1)
            s.sources
          ≡ ok (r, q)
        → mark_source_processing host.default_tenant r.version_id source.tenant_id (clocks 2) q
          ≡ ok (attempt, q')
        → IsProcessed host extract source r.version_id clocks (record s { sources = q' }) urls s'
        → Outcome source clocks s (
          ok (record { version_id = r.version_id; processed = true; unchanged = false }, urls),
          s',
        )

  attempt_source-Outcome :
      (source : SourceItem) (clocks : Clocks) (s : Store R) (r : StageSourceResult) (q q' : Sources)
      (attempt : ℕ)
      → stage_source host.stable_id host.digest host.default_tenant source source.tenant_id
          (clocks 1)
          s.sources
        ≡ ok (r, q)
      → mark_source_processing host.default_tenant r.version_id source.tenant_id (clocks 2) q
        ≡ ok (attempt, q')
      → Outcome source clocks s (
          attempt_source host extract source r.version_id attempt clocks
            (record s { sources = q' }))
  unfolding attempt_source
  attempt_source-Outcome source clocks s r q q' attempt u m =
      let s1 = record s { sources = q' } in
      let made = process-Attempted host extract source r.version_id clocks s1 in
      elim (Result-cases (process host extract source r.version_id clocks s1)) [
        | inl (e, v) ↦
            rw (v, attempt_source)
              (failed r q q' attempt e _ u m (
                settle_failure-IsFailed host extract source r.version_id attempt e clocks s1
                  (subst (Attempted host extract source r.version_id clocks s1) v made)))
        | inr (p, v) ↦
            rw (v, attempt_source)
              (processed r q q' attempt p.0 p.1 u m
                (subst (Attempted host extract source r.version_id clocks s1) v made))
      ]

  -- Whatever happens, an ingestion ends in one of five ways: staging throws and nothing has changed;
  -- another worker holds the version; the version is not to be processed; the attempt throws what
  -- the extractor, the storing of its claims or their resolving threw, the claims and opportunities
  -- are as before, and the version is to be tried again if this was one of its first four attempts
  -- and given up otherwise; or the extractor has given claims, each of them and no other has been
  -- put, with the organization, tenant and time of the source, the organization has been resolved
  -- over them, the version has succeeded, and the urls found are the extractor's.
  pub ingest_source-Outcome :
      (source : SourceItem) (clocks : Clocks) (s : Store R)
      → Outcome source clocks s (ingest_source host extract source clocks s)
  unfolding ingest_source
  ingest_source-Outcome source clocks s =
      elim (Result-cases (
        stage_source host.stable_id host.digest host.default_tenant source source.tenant_id
          (clocks 1) s.sources)) [
            | inl (e, u) ↦ rw (u, ingest_source) (refused e u)
            | inr (p, u) ↦ elim (Bool-cases p.0.should_process) [
              | inr n ↦ rw (u, n, ingest_source) (known p.0 p.1 u n)
              | inl n ↦
                  elim (Result-cases (
                    mark_source_processing host.default_tenant p.0.version_id source.tenant_id
                      (clocks 2) p.1)) [
                        | inl (e, v) ↦ rw (u, n, v, ingest_source) (busy p.0 p.1 e u v)
                        | inr (a, v) ↦
                            rw (u, n, v, ingest_source)
                              (attempt_source-Outcome source clocks s p.0 p.1 a.1 a.0 u v)
                      ]
            ]
          ]
