-- ===== src/Ingestion/Links.antt =====
-- The links of `IngestionService.ingest` of src/ingest.ts. `fetch_source` is `WebConnector`'s
-- `fetchSource`, `classify` is `classifyUrl`.
use recruiting_os.Common.{
  ◌∷◌, ◌&&◌, ltb, take, true, str_eq, select_where, ok, length, if◌then◌else◌, false, err, [],
  String, Result, List, Bool, ℕ, suc,
}
use recruiting_os.Sources.Rows.{SourceItem}
use recruiting_os.Privacy.Erase.{distinct_by}
use recruiting_os.Resolver.Host.{Host}
use recruiting_os.Ingestion.Source.{Clocks, ExtractionResult, IngestResult, Store, ingest_source}

pub data UrlKind : Type 0 where
  application bio_link groupme instagram linkedin heel_life website unknown : UrlKind

-- `['application', 'bio_link', 'website'].includes(kind)`
abbrev pub is_candidate : UrlKind → Bool
is_candidate UrlKind.application = true
is_candidate UrlKind.bio_link = true
is_candidate UrlKind.website = true
is_candidate k = false

abbrev pub is_bio_link : UrlKind → Bool
is_bio_link UrlKind.bio_link = true
is_bio_link k = false

-- `['application', 'website'].includes(kind)`
abbrev pub is_page : UrlKind → Bool
is_page UrlKind.application = true
is_page UrlKind.website = true
is_page k = false

module _ {R : Type 0} (host : Host R) (extract : SourceItem → Result String (ExtractionResult R))
    (classify : String → UrlKind)
    (fetch_source : String → String → Result String (SourceItem × List String)) where
  -- A source that has been fetched is ingested for the contributor of its parent, without its own
  -- links.
  abbrev pub ingest_child :
      SourceItem
      → SourceItem
      → Clocks
      → Store R
      → Result String (IngestResult × List String) × Store R
  ingest_child parent child clocks s =
      ingest_source host extract
        (record child {
          tenant_id = parent.tenant_id;
          contributor_user_id = parent.contributor_user_id;
        })
        clocks s

  -- The inner loop: the urls fetched so far and the tables. Each fetch has clocks of its own.
  unfoldable pub follow_pages :
      SourceItem → (ℕ → Clocks) → List String → List String × Store R → List String × Store R
  follow_pages parent clocks [] (fetched, s) = (fetched, s)
  follow_pages parent clocks (url ∷ urls) (fetched, s) =
      elim (fetch_source parent.organization_id url) [
        | err e ↦ follow_pages parent clocks urls (url ∷ fetched, s)
        | ok (child, links) ↦
            let (r, s') = ingest_child parent child (clocks (suc (length fetched))) s in
            follow_pages parent clocks urls (url ∷ fetched, s')
      ]

  -- What follows once a candidate has been fetched: an ingestion that throws ends it.
  unfoldable pub follow_candidate :
      SourceItem
      → (ℕ → Clocks)
      → ℕ
      → String
      → SourceItem × List String
      → List String × Store R
      → List String × Store R
  follow_candidate parent clocks max_depth url (child, links) (fetched, s) =
      let (r, s') = ingest_child parent child (clocks (length fetched)) s in
      elim r [
        | err e ↦ (fetched, s')
        | ok x ↦
            if ltb 1 max_depth && is_bio_link (classify url)
            then follow_pages parent clocks
                (take 10 (select_where (λ u. is_page (classify u)) links)) (fetched, s')
            else (fetched, s')
      ]

  unfoldable pub follow_candidates :
      SourceItem → (ℕ → Clocks) → ℕ → List String → List String × Store R → List String × Store R
  follow_candidates parent clocks max_depth [] (fetched, s) = (fetched, s)
  follow_candidates parent clocks max_depth (url ∷ urls) (fetched, s) =
      elim (fetch_source parent.organization_id url) [
        | err e ↦ follow_candidates parent clocks max_depth urls (url ∷ fetched, s)
        | ok page ↦
            follow_candidates parent clocks max_depth urls
              (follow_candidate parent clocks max_depth url page (url ∷ fetched, s))
      ]

  -- The whole, for a service with a web connector: the result, the urls fetched, the last one first,
  -- and the tables.
  unfoldable pub ingest :
      SourceItem
      → Bool
      → ℕ
      → (ℕ → Clocks)
      → Store R
      → Result String IngestResult × (List String × Store R)
  ingest source follow_links max_depth clocks s =
      let (r, s') = ingest_source host extract source (clocks 0) s in
      elim r [
        | err e ↦ (err e, ([], s'))
        | ok (result, urls) ↦
            if follow_links && (ltb 0 max_depth && result.processed)
            then (
              ok result,
              follow_candidates source clocks max_depth
                  (take 12
                    (select_where (λ u. is_candidate (classify u)) (distinct_by str_eq urls)))
                  ([], s'),
            )
            else (ok result, ([], s'))
      ]
