-- ===== src/Ingestion/Attempt.antt =====
-- What one attempt at a version leaves in the tables: the `try` and the `catch` of
-- `IngestionService.ingest` of src/ingest.ts.
use Prim.Native.String.{◌++◌ as ◌+++◌}
use recruiting_os.Common.{
  ◌+◌, ◌∷◌, [], none, err, Clock, ◌≡◌, ◌∙◌, ap, refl, inl, inr, true, ltb, if◌then◌else◌, In,
  In-update, update_where, Result, Result-cases, ok, or_else, String, List, ℕ,
}
use recruiting_os.Domain.{SourceVersionStatus}
use recruiting_os.Sources.Rows.{SourceItem, VersionRow}
use recruiting_os.Sources.Stage.{is_version}
use recruiting_os.Sources.Settle.{mark_source_failed, mark_source_succeeded}
use recruiting_os.Catalog.Rows.{Catalog, Claim, Opportunity, field_name}
use recruiting_os.Catalog.Claims.{put_claims}
use recruiting_os.Resolver.Resolve.{resolve_organization}
use recruiting_os.Resolver.Host.{Host}
use recruiting_os.Ingestion.Source.{
  Clocks, ExtractedClaim, ExtractionResult, Store, process, claims_of, settle_failure, store_claims,
  view,
}

-- Every row of the version has the status.
abbrev pub HasStatus : String → String → SourceVersionStatus → List VersionRow → Type 0
HasStatus tenant id status versions =
    (v : VersionRow) → In v versions → is_version tenant id v ≡ true → v.status ≡ status

update-HasStatus :
    (tenant id : String) (status : SourceVersionStatus) (f : VersionRow → VersionRow)
    (versions : List VersionRow)
    → ((v : VersionRow) → (f v).status ≡ status)
    → HasStatus tenant id status (update_where (is_version tenant id) f versions)
update-HasStatus tenant id status f versions h v m t =
    let (x, n, k) = In-update (is_version tenant id) f versions v m in
    elim k [
      | inl (u, e) ↦ ap (λ (r : VersionRow). r.status) e ∙ h x
      | inr (u, e) ↦ absurd (cc (t, u, ap (is_version tenant id) e))
    ]

-- `retryable: attempt < 5`
abbrev pub status_after : ℕ → SourceVersionStatus
status_after attempt =
    if ltb attempt 5
    then SourceVersionStatus.retryable_failed
    else SourceVersionStatus.terminal_failed

module _ {R : Type 0} (host : Host R)
    (extract : SourceItem → Result String (ExtractionResult R)) where
  abbrev tenant_for : SourceItem → String
  tenant_for source = or_else source.tenant_id host.default_tenant

  -- A claim as it is stored: what was extracted, with the organization, tenant and time of its source.
  pub record IsClaimOf (source : SourceItem) (version : String) (clock : Clock) (index : ℕ)
      (c : ExtractedClaim R) (k : Claim R) : Type 0 where
    pub id :
        k.id
        ≡ host.stable_id "clm" (
            version
            +++ ":"
            +++ host.number index
            +++ ":"
            +++ field_name c.field
            +++ ":"
            +++ host.json c.value)
    pub tenant_id : k.tenant_id ≡ source.tenant_id
    pub organization_id : k.organization_id ≡ source.organization_id
    pub source_item_id : k.source_item_id ≡ version
    pub field : k.field ≡ c.field
    pub value : k.value ≡ c.value
    pub confidence : k.confidence ≡ c.confidence
    pub evidence : k.evidence ≡ c.evidence
    pub temporal_precision : k.temporal_precision ≡ c.temporal_precision
    pub published_at : k.published_at ≡ source.published_at
    pub extracted_at : k.extracted_at ≡ host.iso (clock index)
    pub supersedes : k.supersedes ≡ none

  -- The stored claims are those that were extracted, one by one, and no others.
  pub data AreClaimsOf (source : SourceItem) (version : String) (clock : Clock)
      : ℕ → List (ExtractedClaim R) → List (Claim R) → Type 0 where
    none_left : (index : ℕ) → AreClaimsOf source version clock index [] []
    one_more :
        (index : ℕ) (c : ExtractedClaim R) (cs : List (ExtractedClaim R)) (k : Claim R)
        (ks : List (Claim R))
        → IsClaimOf source version clock index c k
        → AreClaimsOf source version clock (index + 1) cs ks
        → AreClaimsOf source version clock index (c ∷ cs) (k ∷ ks)

  claims_of-AreClaimsOf :
      (source : SourceItem) (version : String) (clock : Clock) (index : ℕ)
      (cs : List (ExtractedClaim R))
      → AreClaimsOf source version clock index cs
          (claims_of host extract source version clock index cs)
  unfolding claims_of
  claims_of-AreClaimsOf source version clock index [] = AreClaimsOf.none_left index
  claims_of-AreClaimsOf source version clock index (c ∷ cs) =
      AreClaimsOf.one_more index c cs _ _
        (record {
          id = refl;
          tenant_id = refl;
          organization_id = refl;
          source_item_id = refl;
          field = refl;
          value = refl;
          confidence = refl;
          evidence = refl;
          temporal_precision = refl;
          published_at = refl;
          extracted_at = refl;
          supersedes = refl;
        })
        (claims_of-AreClaimsOf source version clock (index + 1) cs)

  abbrev puts : SourceItem → List (Claim R) → Store R → Result (String × Catalog R) (Catalog R)
  puts source claims s =
      put_claims host.reals host.json host.default_tenant claims source.tenant_id (view s)

  abbrev resolves :
      SourceItem
      → Clocks
      → Catalog R
      → Result (String × Catalog R) (List (Opportunity R) × Catalog R)
  resolves source clocks q =
      resolve_organization host source.organization_id source.tenant_id (clocks 4 0) (clocks 5) q

  -- Why an attempt throws: the extractor does, or storing its claims, or resolving them.
  pub data Cause (source : SourceItem) (version : String) (clocks : Clocks) (s : Store R)
      (e : String) : Type 0 where
    unread : extract source ≡ err e → Cause source version clocks s e
    unstored :
        (x : ExtractionResult R) (claims : List (Claim R)) (q : Catalog R)
        → extract source ≡ ok x
        → AreClaimsOf source version (clocks 3) 0 x.claims claims
        → puts source claims s ≡ err (e, q)
        → Cause source version clocks s e
    unresolved :
        (x : ExtractionResult R) (claims : List (Claim R)) (q q' : Catalog R)
        → extract source ≡ ok x
        → AreClaimsOf source version (clocks 3) 0 x.claims claims
        → puts source claims s ≡ ok q
        → resolves source clocks q ≡ err (e, q')
        → Cause source version clocks s e

  -- What an attempt that throws leaves: the claims and opportunities as they were, and the version
  -- to be tried again or given up.
  pub record IsFailed (source : SourceItem) (version : String) (attempt : ℕ) (clocks : Clocks)
      (s : Store R) (e : String) (s' : Store R) : Type 0 where
    pub cause : Cause source version clocks s e
    pub catalog : s'.catalog ≡ s.catalog
    pub status : HasStatus (tenant_for source) version (status_after attempt) s'.sources.versions

  -- What an attempt that goes through leaves: the claims of the extractor are put, the organization
  -- is resolved over them, the version has succeeded, and the urls are the extractor's.
  pub record IsProcessed (source : SourceItem) (version : String) (clocks : Clocks) (s : Store R)
      (urls : List String) (s' : Store R) : Type 0 where
    pub extracted : ExtractionResult R
    pub claims : List (Claim R)
    pub merged : Catalog R
    pub opportunities : List (Opportunity R)
    pub extracts : extract source ≡ ok extracted
    pub mirrors : AreClaimsOf source version (clocks 3) 0 extracted.claims claims
    pub stores : puts source claims s ≡ ok merged
    pub settles : resolves source clocks merged ≡ ok (opportunities, s'.catalog)
    pub finds : urls ≡ extracted.discovered_urls
    pub status :
        HasStatus (tenant_for source) version SourceVersionStatus.succeeded s'.sources.versions

  pub settle_failure-IsFailed :
      (source : SourceItem) (version : String) (attempt : ℕ) (message : String) (clocks : Clocks)
      (s : Store R)
      → Cause source version clocks s message
      → IsFailed source version attempt clocks s message
          (settle_failure host extract source version attempt message clocks s)
  unfolding settle_failure mark_source_failed
  settle_failure-IsFailed source version attempt message clocks s cause = record {
    cause = cause;
    catalog = refl;
    status =
        update-HasStatus (tenant_for source) version (status_after attempt) _ s.sources.versions
          (λ v. refl);
  }

  -- An attempt, by its result.
  abbrev pub Attempted :
      SourceItem → String → Clocks → Store R → Result String (List String × Store R) → Type 0
  Attempted source version clocks s (err e) = Cause source version clocks s e
  Attempted source version clocks s (ok (urls, s')) = IsProcessed source version clocks s urls s'

  pub process-Attempted :
      (source : SourceItem) (version : String) (clocks : Clocks) (s : Store R)
      → Attempted source version clocks s (process host extract source version clocks s)
  unfolding process store_claims mark_source_succeeded
  process-Attempted source version clocks s = elim (Result-cases (extract source)) [
    | inl (m, u) ↦ rw (u, process) (Cause.unread u)
    | inr (x, u) ↦
        let claims = claims_of host extract source version (clocks 3) 0 x.claims in
        let mirrors = claims_of-AreClaimsOf source version (clocks 3) 0 x.claims in
        elim (Result-cases (puts source claims s)) [
          | inl (m, v) ↦ rw (u, v, process) (Cause.unstored x claims m.1 u mirrors v)
          | inr (q, v) ↦ elim (Result-cases (resolves source clocks q)) [
            | inl (m, w) ↦ rw (u, v, w, process) (Cause.unresolved x claims q m.1 u mirrors v w)
            | inr (p, w) ↦
                rw (u, v, w, process)
                  (record {
                    extracted = x;
                    claims = claims;
                    merged = q;
                    opportunities = p.0;
                    extracts = u;
                    mirrors = mirrors;
                    stores = v;
                    settles = w;
                    finds = refl;
                    status =
                        update-HasStatus (tenant_for source) version SourceVersionStatus.succeeded _
                          s.sources.versions (λ y. refl);
                  })
          ]
        ]
  ]
