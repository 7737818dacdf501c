-- ===== src/Resolver/Host.antt =====
-- What src/resolver.ts and src/ingest.ts take from the language, the digests and the configuration.
use recruiting_os.Common.{String, Option, ℕ}
use recruiting_os.Domain.{Json}
use recruiting_os.Catalog.Rows.{Reals}

-- `time` is what `new Date(text).getTime()` gives, `string` JavaScript's `String`, `number` the text of an index, `digest` the hash of a source's content.
pub record Host (R : Type 0) : Type 0 where
  pub reals : Reals R
  pub time : String → R
  pub string : Option Json → String
  pub stable_id : String → String → String
  pub iso : ℕ → String
  pub json : Json → String
  pub digest : Json → String
  pub number : ℕ → String
  pub default_tenant : String
