-- ===== src/Sources/Rows.antt =====
-- `SourceItem`, `StageSourceResult` and `ProcessingFailure` of src/domain/models.ts, the columns of
-- the tables that hold sources (src/store.ts), and the digests that name them.
use Prim.Native.String.{◌++◌ as ◌+++◌}
use recruiting_os.Common.{◌∷◌, some, or_else, none, [], String, Option, List, Bool, ℕ}
use recruiting_os.Domain.{SourceVersionStatus, SourceType, Items, Fields, Json, Record}

pub data MediaType : Type 0 where
  image video document : MediaType

pub record MediaRef : Type 0 where
  pub type : MediaType
  pub url : Option String
  pub base64 : Option String
  pub mime_type : Option String
  pub alt : Option String

pub record SourceItem : Type 0 where
  pub id : String
  pub tenant_id : Option String
  pub contributor_user_id : Option String
  pub organization_id : String
  pub source_type : SourceType
  pub external_id : Option String
  pub url : Option String
  pub title : Option String
  pub raw_text : String
  pub media : List MediaRef
  pub published_at : Option String
  pub fetched_at : String
  pub metadata : Option Record

pub record SourceRow : Type 0 where
  pub id : String
  pub tenant_id : String
  pub organization_id : String
  pub source_type : SourceType
  pub identity_key : String
  pub external_id : Option String
  pub url : Option String
  pub title : Option String
  pub created_at : ℕ
  pub last_seen_at : ℕ

pub record VersionRow : Type 0 where
  pub id : String
  pub source_id : String
  pub tenant_id : String
  pub organization_id : String
  pub content_hash : String
  pub raw_text : String
  pub media : List MediaRef
  pub published_at : Option String
  pub fetched_at : String
  pub metadata : Record
  pub status : SourceVersionStatus
  pub attempt_count : ℕ
  pub next_attempt_at : Option ℕ
  pub last_error : Option String
  pub started_at : Option ℕ
  pub completed_at : Option ℕ
  pub created_at : ℕ

pub record ContributorRow : Type 0 where
  pub tenant_id : String
  pub source_version_id : String
  pub user_id : String
  pub created_at : ℕ

-- The tables that staging reads and writes; of organizations and memberships their keys.
pub record Sources : Type 0 where
  pub organizations : List (String × String)
  pub memberships : List (String × String)
  pub sources : List SourceRow
  pub versions : List VersionRow
  pub contributors : List ContributorRow

pub record StageSourceResult : Type 0 where
  pub source_id : String
  pub version_id : String
  pub status : SourceVersionStatus
  pub should_process : Bool
  pub unchanged : Bool
  pub attempt_count : ℕ

pub record ProcessingFailure : Type 0 where
  pub retryable : Bool
  pub message : String
  pub next_attempt_at : Option ℕ

-- The name that a source type has in the database.
abbrev pub source_type_name : SourceType → String
source_type_name SourceType.gmail = "gmail"
source_type_name SourceType.groupme = "groupme"
source_type_name SourceType.instagram = "instagram"
source_type_name SourceType.linkedin = "linkedin"
source_type_name SourceType.website = "website"
source_type_name SourceType.bio_link = "bio_link"
source_type_name SourceType.application = "application"
source_type_name SourceType.screenshot = "screenshot"
source_type_name SourceType.heel_life = "heel_life"

abbrev media_type_name : MediaType → String
media_type_name MediaType.image = "image"
media_type_name MediaType.video = "video"
media_type_name MediaType.document = "document"

-- `JSON.stringify` leaves out what is `undefined`.
abbrev optional_field : String → Option String → Fields → Fields
optional_field key none rest = rest
optional_field key (some s) rest = Fields.field key (Json.str s) rest

abbrev media_json : MediaRef → Json
media_json m = Json.obj (
    Fields.field "type" (Json.str (media_type_name m.type)) (
      optional_field "url" m.url (
        optional_field "base64" m.base64
          (optional_field "mimeType" m.mime_type (optional_field "alt" m.alt Fields.end)))))

unfoldable pub media_items : List MediaRef → Items
media_items [] = Items.nil
media_items (m ∷ ms) = Items.item (media_json m) (media_items ms)

unfoldable pub fields_of : Record → Fields
fields_of [] = Fields.end
fields_of ((k, v) ∷ rest) = Fields.field k v (fields_of rest)

abbrev text_or_null : Option String → Json
text_or_null none = Json.null
text_or_null (some s) = Json.str s

-- What `contentHash` puts through `JSON.stringify` and SHA-256.
abbrev pub content : SourceItem → Json
content source = Json.obj (
    Fields.field "rawText" (Json.str source.raw_text) (
      Fields.field "media" (Json.arr (media_items source.media)) (
        Fields.field "publishedAt" (text_or_null source.published_at) (
          Fields.field "metadata" (Json.obj (fields_of (or_else source.metadata []))) Fields.end))))

-- `sourceIdentity`
abbrev pub source_identity : SourceItem → String
source_identity source = or_else source.external_id (or_else source.url source.id)

abbrev pub source_key : String → SourceItem → String
source_key tenant source =
    tenant
    +++ ":"
    +++ source.organization_id
    +++ ":"
    +++ source_type_name source.source_type
    +++ ":"
    +++ source_identity source
