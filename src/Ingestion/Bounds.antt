-- ===== src/Ingestion/Bounds.antt =====
-- How many pages one call of `IngestionService.ingest` of src/ingest.ts fetches.
use recruiting_os.Common.{
  ◌≡◌, ◌∙◌, ◌∷◌, ◌+◌, ◌*◌, ◌≤◌, ◌&&◌, [], refl, inl, inr, false, ltb, take, length, arith, str_eq,
  select_where, zero, suc, Bool-cases, Result, Result-cases, String, List, Bool, ℕ,
}
use recruiting_os.Sources.Rows.{SourceItem}
use recruiting_os.Privacy.Erase.{distinct_by}
use recruiting_os.Resolver.Host.{Host}
use recruiting_os.Ingestion.Source.{Clocks, ExtractionResult, Store, ingest_source}
use recruiting_os.Ingestion.Links.{
  UrlKind, follow_candidate, follow_candidates, follow_pages, ingest, ingest_child, is_bio_link,
  is_candidate, is_page,
}

length-take : {A : Type 0} (n : ℕ) (xs : List A) → length (take n xs) ≤ n
length-take zero xs = ground arith
length-take (suc n) [] = ground arith
length-take (suc n) (x ∷ xs) = ground (arith, length-take n xs)

stays_false : (a b c : Bool) → (a && b) ≡ false → (a && (b && c)) ≡ false
stays_false a b c n = ground arith

module _ {R : Type 0} (host : Host R) (extract : SourceItem → Result String (ExtractionResult R))
    (classify : String → UrlKind)
    (fetch_source : String → String → Result String (SourceItem × List String)) where
  abbrev pages :
      SourceItem → (ℕ → Clocks) → List String → List String × Store R → List String × Store R
  pages = follow_pages host extract classify fetch_source

  length-pages :
      (parent : SourceItem) (clocks : ℕ → Clocks) (urls fetched : List String) (s : Store R)
      → length (pages parent clocks urls (fetched, s)).0 ≡ length urls + length fetched
  unfolding follow_pages
  length-pages parent clocks [] fetched s = ground arith
  length-pages parent clocks (url ∷ urls) fetched s =
      elim (Result-cases (fetch_source parent.organization_id url)) [
        | inl (e, u) ↦
            rw (u, follow_pages) (length-pages parent clocks urls (url ∷ fetched) s ∙ ground arith)
        | inr (page, u) ↦
            rw (u, follow_pages) (length-pages parent clocks urls (url ∷ fetched) _ ∙ ground arith)
      ]

  length-candidate :
      (parent : SourceItem) (clocks : ℕ → Clocks) (max_depth : ℕ) (url : String)
      (page : SourceItem × List String) (fetched : List String) (s : Store R)
      → length
          (follow_candidate host extract classify fetch_source parent clocks max_depth url page
            (fetched, s)).0
        ≤ 10 + length fetched
  unfolding follow_candidate
  length-candidate parent clocks max_depth url (child, links) fetched s =
      let r =
        ingest_child host extract classify fetch_source parent child (clocks (length fetched)) s in
      let next = take 10 (select_where (λ u. is_page (classify u)) links) in
      elim (Result-cases r.0) [
        | inl (e, u) ↦ rw (u, follow_candidate) (ground arith)
        | inr (x, u) ↦ elim (Bool-cases (ltb 1 max_depth && is_bio_link (classify url))) [
          | inl v ↦
              rw (u, v, follow_candidate)
                (ground (
                  arith,
                  length-pages parent clocks next fetched r.1,
                  length-take 10 (select_where (λ u. is_page (classify u)) links),
                ))
          | inr v ↦ rw (u, v, follow_candidate) (ground arith)
        ]
      ]

  length-candidates :
      (parent : SourceItem) (clocks : ℕ → Clocks) (max_depth : ℕ) (urls : List String)
      (p : List String × Store R)
      → length
          (follow_candidates host extract classify fetch_source parent clocks max_depth urls p).0
        ≤ 11 * length urls + length p.0
  unfolding follow_candidates
  length-candidates parent clocks max_depth [] p = ground arith
  length-candidates parent clocks max_depth (url ∷ urls) p =
      elim (Result-cases (fetch_source parent.organization_id url)) [
        | inl (e, u) ↦
            rw (u, follow_candidates)
              (ground (arith, length-candidates parent clocks max_depth urls (url ∷ p.0, p.1)))
        | inr (page, u) ↦
            let after =
              follow_candidate host extract classify fetch_source parent clocks max_depth url page
                (url ∷ p.0, p.1) in
            rw (u, follow_candidates)
              (at_most _ (length after.0) (length p.0) (length urls)
                (length-candidates parent clocks max_depth urls after)
                (length-candidate parent clocks max_depth url page (url ∷ p.0) p.1))
      ]
    where
      at_most : (n a l m : ℕ) → n ≤ 11 * m + a → a ≤ 10 + suc l → n ≤ 11 * suc m + l
      at_most n a l m h i = ground (arith, h, i)

  -- One call fetches at most 132 pages, twelve candidates and ten pages of each, and none at all
  -- without links or at depth zero.
  pub length-ingest :
      (source : SourceItem) (follow_links : Bool) (max_depth : ℕ) (clocks : ℕ → Clocks)
      (s : Store R)
      → (length
            (ingest host extract classify fetch_source source follow_links max_depth clocks s).1.0
          ≤ 132)
        × ((follow_links && ltb 0 max_depth) ≡ false
            → (ingest host extract classify fetch_source source follow_links max_depth clocks s).1.0
              ≡ [])
  unfolding ingest
  length-ingest source follow_links max_depth clocks s =
      let r = ingest_source host extract source (clocks 0) s in
      elim (Result-cases r.0) [
        | inl (e, u) ↦ rw (u, ingest) (ground arith, λ n. refl)
        | inr (x, u) ↦ elim (Bool-cases (follow_links && (ltb 0 max_depth && x.0.processed))) [
          | inr v ↦ rw (u, v, ingest) (ground arith, λ n. refl)
          | inl v ↦
              let urls =
                take 12 (select_where (λ u. is_candidate (classify u)) (distinct_by str_eq x.1)) in
              rw (u, v, ingest)
                (
                  ground (
                    arith,
                    length-candidates source clocks max_depth urls ([], r.1),
                    length-take 12
                        (select_where (λ u. is_candidate (classify u)) (distinct_by str_eq x.1)),
                  ),
                  λ n. absurd (cc (stays_false follow_links (ltb 0 max_depth) x.0.processed n, v)),
                )
        ]
      ]
