-- ===== src/Catalog/Claims.antt =====
-- `putClaims` and `listClaims` of src/store.ts. `json` is the text that `JSON.stringify` gives.
use recruiting_os.Common.{
  ◌∷◌, ◌++◌, ◌&&◌, update_where, truthy, text_lt, str_eq, sort_by, some, select_where, or_else, ok,
  not, map, if◌then◌else◌, err, any, [], String, Result, Option, List, Bool,
}
use recruiting_os.Domain.{Json}
use recruiting_os.Sources.Rows.{VersionRow}
use recruiting_os.Catalog.Rows.{Catalog, Claim, ClaimRow, Reals, field_name, is_confidence}

-- `coalesce(published_at,extracted_at)`
abbrev pub claim_time : {R : Type 0} → ClaimRow R → String
claim_time r = or_else r.published_at r.extracted_at

module _ {R : Type 0} (reals : Reals R) (json : Json → String) where
  abbrev pub new_claim : String → Claim R → ClaimRow R
  new_claim tenant c = record {
    id = c.id;
    tenant_id = or_else c.tenant_id tenant;
    organization_id = c.organization_id;
    source_version_id = c.source_item_id;
    field = c.field;
    value = c.value;
    confidence = c.confidence;
    published_at = c.published_at;
    extracted_at = c.extracted_at;
    supersedes = or_else c.supersedes [];
    evidence = c.evidence;
    temporal_precision = c.temporal_precision;
  }

  -- `on conflict(source_version_id,field,value)`
  abbrev pub is_same_claim : Claim R → ClaimRow R → Bool
  is_same_claim c r =
      str_eq r.source_version_id c.source_item_id
      && (str_eq (field_name r.field) (field_name c.field) && str_eq (json r.value) (json c.value))

  -- `do update set confidence=…,evidence=…,extracted_at=…`
  abbrev pub renew_claim : Claim R → ClaimRow R → ClaimRow R
  renew_claim c r = record r {
    confidence = c.confidence;
    evidence = c.evidence;
    extracted_at = c.extracted_at;
  }

  -- One run of the statement.
  unfoldable pub put_claim :
      String → List VersionRow → Claim R → List (ClaimRow R) → Result String (List (ClaimRow R))
  put_claim tenant versions c rows =
      if not (is_confidence reals c.confidence)
      then err "CHECK constraint failed: confidence >= 0 and confidence <= 1"
      else if any (is_same_claim c) rows
      then ok (update_where (is_same_claim c) (renew_claim c) rows)
      else if any (λ r. str_eq r.id c.id) rows
      then err "UNIQUE constraint failed: claims.id"
      else if any (λ v. str_eq v.id c.source_item_id) versions
      then ok (rows ++ new_claim tenant c ∷ [])
      else err "FOREIGN KEY constraint failed"

  -- The loop. Outside a transaction the claims before the one that fails stay.
  unfoldable pub write_claims :
      String
      → List VersionRow
      → List (Claim R)
      → List (ClaimRow R)
      → Result (String × List (ClaimRow R)) (List (ClaimRow R))
  write_claims tenant versions [] rows = ok rows
  write_claims tenant versions (c ∷ cs) rows = elim (put_claim tenant versions c rows) [
    | err e ↦ err (e, rows)
    | ok rows' ↦ write_claims tenant versions cs rows'
  ]

  module _ (default_tenant : String) where
    unfoldable pub put_claims :
        List (Claim R) → Option String → Catalog R → Result (String × Catalog R) (Catalog R)
    put_claims claims tenant q =
        elim (write_claims (or_else tenant default_tenant) q.versions claims q.claims) [
          | err (e, rows) ↦ err (e, record q { claims = rows })
          | ok rows ↦ ok (record q { claims = rows })
        ]

module _ {R : Type 0} where
  abbrev pub read_claim : ClaimRow R → Claim R
  read_claim r = record {
    id = r.id;
    tenant_id = some r.tenant_id;
    organization_id = r.organization_id;
    source_item_id = r.source_version_id;
    field = r.field;
    value = r.value;
    confidence = r.confidence;
    published_at = truthy r.published_at;
    extracted_at = r.extracted_at;
    evidence = truthy r.evidence;
    supersedes = some r.supersedes;
    temporal_precision = r.temporal_precision;
  }

  abbrev pub is_claim_of : String → String → ClaimRow R → Bool
  is_claim_of tenant organization r =
      str_eq r.tenant_id tenant && str_eq r.organization_id organization

  unfoldable pub list_claims : String → String → Option String → Catalog R → List (Claim R)
  list_claims default_tenant organization tenant q = map read_claim (
      sort_by (λ (a : ClaimRow R) (b : ClaimRow R). text_lt (claim_time a) (claim_time b))
        (select_where (is_claim_of (or_else tenant default_tenant) organization) q.claims))
