-- ===== src/Catalog/Merged.antt =====
-- `putClaims` of src/store.ts against a map from the source version, the field and the value of a
-- claim to what is recorded of it.
use recruiting_os.Common.{
  ◌≡◌, ◌&&◌, ◌∷◌, [], str_eq, find_where, some, upserted, upsert_where, String, Option, List, Bool,
  if◌then◌else◌,
}
use recruiting_os.Domain.{Json}
use recruiting_os.Catalog.Rows.{Catalog, Claim, ClaimRow, Reals, field_name}
use recruiting_os.Catalog.Claims.{new_claim, is_same_claim, renew_claim}

module _ {R : Type 0} (reals : Reals R) (json : Json → String) where
  -- The claim that a table holds under a source version, a field's name and the text of a value.
  abbrev pub claim_at : String → String → String → List (ClaimRow R) → Option (ClaimRow R)
  claim_at version field value rows =
      find_where
        (λ r.
          str_eq r.source_version_id version
          && (str_eq (field_name r.field) field && str_eq (json r.value) value))
        rows

  abbrev pub Recorded : Type 0
  Recorded = String → String → String → Option (ClaimRow R)

  abbrev is_key : Claim R → String → String → String → Bool
  is_key c version field value =
      str_eq c.source_item_id version
      && (str_eq (field_name c.field) field && str_eq (json c.value) value)

  -- One claim: under its key the confidence, the evidence and the time of extraction are its own.
  abbrev pub record_claim : String → Claim R → Recorded → Recorded
  record_claim tenant c m version field value =
      if is_key c version field value
      then some (
          upserted (renew_claim reals json c) (new_claim reals json tenant c)
            (m version field value))
      else m version field value

  unfoldable pub record_claims : String → List (Claim R) → Recorded → Recorded
  record_claims tenant [] m = m
  record_claims tenant (c ∷ cs) m = record_claims tenant cs (record_claim tenant c m)

  abbrev upsert_claim : String → Claim R → List (ClaimRow R) → List (ClaimRow R)
  upsert_claim tenant c rows =
      upsert_where (is_same_claim reals json c) (renew_claim reals json c)
        (new_claim reals json tenant c) rows

  abbrev IsMerged : String → Claim R → List (ClaimRow R) → String → String → String → Type 0
  IsMerged tenant c rows v f x =
      claim_at v f x (upsert_claim tenant c rows)
      ≡ some (
          upserted (renew_claim reals json c) (new_claim reals json tenant c) (claim_at v f x rows))
