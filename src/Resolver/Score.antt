-- ===== src/Resolver/Score.antt =====
-- `scoreClaim` and `newest` of src/resolver.ts. `time` is the number of milliseconds that
-- `new Date(text).getTime()` gives, which is NaN for a text that is no date.
use recruiting_os.Common.{
  ◌∷◌, ◌+◌, str_eq, some, or_else, none, least, if◌then◌else◌, [], String, Option, List, Clock, ℕ,
}
use recruiting_os.Domain.{SourceType}
use recruiting_os.Sources.Rows.{SourceItem}
use recruiting_os.Catalog.Rows.{Catalog, Claim, Reals}
use recruiting_os.Catalog.Organizations.{get_source}

module _ {R : Type 0} (reals : Reals R) where
  abbrev pub authority : SourceType → R
  authority SourceType.application = reals.lit 1 1
  authority SourceType.groupme = reals.lit 96 100
  authority SourceType.instagram = reals.lit 94 100
  authority SourceType.gmail = reals.lit 92 100
  authority SourceType.linkedin = reals.lit 88 100
  authority SourceType.website = reals.lit 78 100
  authority SourceType.bio_link = reals.lit 75 100
  authority SourceType.screenshot = reals.lit 72 100
  authority SourceType.heel_life = reals.lit 55 100

  -- `src ? authority[src.sourceType] : 0.5`
  abbrev pub authority_of : Option SourceItem → R
  authority_of none = reals.lit 5 10
  authority_of (some source) = authority source.source_type

  module _ (time : String → R) where
    -- `new Date(claim.publishedAt ?? claim.extractedAt).getTime()`
    abbrev pub claim_instant : Claim R → R
    claim_instant c = time (or_else c.published_at c.extracted_at)

    abbrev pub recency : R → R → R
    recency now t =
        let age_days =
          reals.larger (reals.lit 0 1) (reals.over (reals.minus now t) (reals.lit 86400000 1)) in
        reals.larger (reals.lit 55 100) (
          reals.minus (reals.lit 1 1)
            (reals.over (reals.smaller age_days (reals.lit 365 1)) (reals.lit 800 1)))

    abbrev pub score_claim : String → Option String → ℕ → Catalog R → Claim R → R
    score_claim default_tenant tenant now q c =
        reals.times
          (reals.times c.confidence
            (authority_of (get_source default_tenant c.source_item_id tenant q)))
          (recency (reals.lit now 1) (claim_instant c))

    -- The entries that the map `scores` gets, each with a reading of the clock.
    unfoldable pub scores_of :
        String → Option String → Clock → Catalog R → ℕ → List (Claim R) → List (String × R)
    scores_of default_tenant tenant clock q n [] = []
    scores_of default_tenant tenant clock q n (c ∷ cs) =
        (c.id, score_claim default_tenant tenant (clock n) q c)
        ∷ scores_of default_tenant tenant clock q (n + 1) cs

    -- The first of the claims that no other one is later than, as the sort puts it in front.
    abbrev pub newest : List (Claim R) → Option (Claim R)
    newest xs =
        least (λ (a : Claim R) (b : Claim R). reals.lt (claim_instant b) (claim_instant a)) xs

  -- `scores.get(id)`, where a key that is set again has its last value.
  unfoldable pub last_value : String → List (String × R) → Option R
  last_value id [] = none
  last_value id ((key, value) ∷ rest) =
      let later = last_value id rest in
      elim later [ some v ↦ some v | none ↦ if str_eq key id then some value else none ]

  -- `claim ? (scores.get(claim.id) ?? 0) : 0`
  abbrev pub score : List (String × R) → Option (Claim R) → R
  score scores none = reals.lit 0 1
  score scores (some c) = or_else (last_value c.id scores) (reals.lit 0 1)

  -- `xs.sort((a, b) => score(b) - score(a))[0]`: the first of those with the highest score.
  abbrev pub best : List (String × R) → List (Claim R) → Option (Claim R)
  best scores xs =
      least
        (λ (a : Claim R) (b : Claim R). reals.lt (score scores (some b)) (score scores (some a))) xs
