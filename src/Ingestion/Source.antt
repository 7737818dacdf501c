-- ===== src/Ingestion/Source.antt =====
-- `IngestionService.ingest` of src/ingest.ts without its links: one source is staged, extracted and
-- settled. `extract` is the extractor.
use Prim.Native.String.{◌++◌ as ◌+++◌}
use recruiting_os.Common.{
  ◌∷◌, ◌+◌, ◌*◌, ltb, true, some, ok, none, if◌then◌else◌, false, err, [], String, Result, Option,
  List, Clock, Bool, ℕ,
}
use recruiting_os.Domain.{ClaimField, Json, TemporalPrecision}
use recruiting_os.Queue.Settle.{retry_delay}
use recruiting_os.Sources.Rows.{SourceItem, Sources}
use recruiting_os.Sources.Stage.{stage_source}
use recruiting_os.Sources.Settle.{mark_source_failed, mark_source_processing, mark_source_succeeded}
use recruiting_os.Catalog.Rows.{Catalog, Claim, field_name}
use recruiting_os.Catalog.Claims.{put_claims}
use recruiting_os.Resolver.Host.{Host}
use recruiting_os.Resolver.Resolve.{resolve_organization}

-- `ExtractionResult`
pub record ExtractedClaim (R : Type 0) : Type 0 where
  pub field : ClaimField
  pub value : Json
  pub confidence : R
  pub evidence : Option String
  pub temporal_precision : Option TemporalPrecision

pub record ExtractionResult (R : Type 0) : Type 0 where
  pub claims : List (ExtractedClaim R)
  pub discovered_urls : List String

-- The tables; those that `sources` has are the ones that the catalog's calls see.
pub record Store (R : Type 0) : Type 0 where
  pub sources : Sources
  pub catalog : Catalog R

pub record IngestResult : Type 0 where
  pub version_id : String
  pub processed : Bool
  pub unchanged : Bool

-- The clock of each of the calls that an ingestion makes.
abbrev pub Clocks : Type 0
Clocks = ℕ → Clock

abbrev pub view : {R : Type 0} → Store R → Catalog R
view s = record s.catalog { sources = s.sources.sources; versions = s.sources.versions }

module _ {R : Type 0} (host : Host R)
    (extract : SourceItem → Result String (ExtractionResult R)) where
  -- The claims that are stored; `index` counts them.
  unfoldable pub claims_of :
      SourceItem → String → Clock → ℕ → List (ExtractedClaim R) → List (Claim R)
  claims_of source version clock index [] = []
  claims_of source version clock index (c ∷ cs) =
      record {
        id = host.stable_id "clm" (
            version
            +++ ":"
            +++ host.number index
            +++ ":"
            +++ field_name c.field
            +++ ":"
            +++ host.json c.value);
        tenant_id = source.tenant_id;
        organization_id = source.organization_id;
        source_item_id = version;
        field = c.field;
        value = c.value;
        confidence = c.confidence;
        published_at = source.published_at;
        extracted_at = host.iso (clock index);
        evidence = c.evidence;
        supersedes = none;
        temporal_precision = c.temporal_precision;
      }
      ∷ claims_of source version clock (index + 1) cs

  -- `this.store.transaction(…)`: an error rolls it back.
  unfoldable pub store_claims :
      SourceItem → String → Clocks → List (Claim R) → Store R → Result String (Store R)
  store_claims source version clocks claims s =
      elim (put_claims host.reals host.json host.default_tenant claims source.tenant_id (view s)) [
        | err (e, q) ↦ err e
        | ok q ↦
            elim (resolve_organization host source.organization_id source.tenant_id (clocks 4 0)
              (clocks 5) q) [
                | err (e, q') ↦ err e
                | ok (out, q') ↦ ok (record {
                  sources =
                      mark_source_succeeded host.default_tenant version source.tenant_id (clocks 6)
                        s.sources;
                  catalog = q';
                })
              ]
      ]

  -- The body of the `try`.
  unfoldable pub process :
      SourceItem → String → Clocks → Store R → Result String (List String × Store R)
  process source version clocks s = elim (extract source) [
    | err e ↦ err e
    | ok x ↦
        elim (store_claims source version clocks (claims_of source version (clocks 3) 0 x.claims)
          s) [ err e ↦ err e | ok s' ↦ ok (x.discovered_urls, s') ]
  ]

  -- The body of the `catch`, which throws the error again.
  unfoldable pub settle_failure : SourceItem → String → ℕ → String → Clocks → Store R → Store R
  settle_failure source version attempt message clocks s = record s {
    sources =
        mark_source_failed host.default_tenant version
          (record {
            retryable = ltb attempt 5;
            message = message;
            next_attempt_at =
                if ltb attempt 5 then some (clocks 7 0 + retry_delay attempt * 1000) else none;
          })
          source.tenant_id (clocks 8) s.sources;
  }

  -- The urls that a processed source has led to stand beside the result.
  unfoldable pub attempt_source :
      SourceItem
      → String
      → ℕ
      → Clocks
      → Store R
      → Result String (IngestResult × List String) × Store R
  attempt_source source version attempt clocks s = elim (process source version clocks s) [
    | err e ↦ (err e, settle_failure source version attempt e clocks s)
    | ok (urls, s') ↦
        (ok (record { version_id = version; processed = true; unchanged = false }, urls), s')
  ]

  unfoldable pub ingest_source :
      SourceItem → Clocks → Store R → Result String (IngestResult × List String) × Store R
  ingest_source source clocks s =
      elim (stage_source host.stable_id host.digest host.default_tenant source source.tenant_id
        (clocks 1) s.sources) [
          | err e ↦ (err e, s)
          | ok (staged, q) ↦
              let s1 = record s { sources = q } in
              if staged.should_process
              then elim (mark_source_processing host.default_tenant staged.version_id
                  source.tenant_id (clocks 2) q) [
                    | err e ↦ (err e, s1)
                    | ok (attempt, q') ↦
                        attempt_source source staged.version_id attempt clocks
                          (record s { sources = q' })
                  ]
              else (
                ok (
                  record { version_id = staged.version_id; processed = false; unchanged = true },
                  [],
                ),
                s1,
              )
        ]
