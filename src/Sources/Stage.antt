-- ===== src/Sources/Stage.antt =====
-- `stageSource` and `putSource` of src/store.ts. `digest` is the SHA-256 of a value's JSON text,
-- `stable_id` the digest behind `stableId`.
use Prim.Native.String.{◌++◌ as ◌+++◌}
use recruiting_os.Common.{
  ◌∷◌, ◌||◌, ◌&&◌, update_where, truthy, true, str_eq, some, or_else, ok, not, none, if◌then◌else◌,
  find_where, false, err, any, [], String, Result, Option, List, Clock, Bool, ℕ, ◌++◌,
}
use recruiting_os.Domain.{Json, SourceVersionStatus}
use recruiting_os.Sources.Rows.{
  source_type_name, source_key, source_identity, content, StageSourceResult, Sources, SourceRow,
  SourceItem, ContributorRow, VersionRow,
}

-- `on conflict(tenant_id,organization_id,source_type,identity_key)`
abbrev pub is_same_source : String → SourceItem → SourceRow → Bool
is_same_source tenant source r =
    str_eq r.tenant_id tenant
    && (str_eq r.organization_id source.organization_id
        && (str_eq (source_type_name r.source_type) (source_type_name source.source_type)
            && str_eq r.identity_key (source_identity source)))

abbrev pub new_source : String → String → SourceItem → ℕ → SourceRow
new_source id tenant source now = record {
  id = id;
  tenant_id = tenant;
  organization_id = source.organization_id;
  source_type = source.source_type;
  identity_key = source_identity source;
  external_id = source.external_id;
  url = source.url;
  title = source.title;
  created_at = now;
  last_seen_at = now;
}

abbrev pub see_source : SourceItem → ℕ → SourceRow → SourceRow
see_source source now r = record r {
  external_id = source.external_id;
  url = source.url;
  title = source.title;
  last_seen_at = now;
}

abbrev pub is_pair : String → String → String × String → Bool
is_pair a b (c, d) = str_eq c a && str_eq d b

-- The first statement: an insert that may clash on the primary key or miss its organization.
unfoldable pub upsert_source :
    String → String → SourceItem → ℕ → Sources → Result String (List SourceRow)
upsert_source id tenant source now q =
    if any (is_same_source tenant source) q.sources
    then ok (update_where (is_same_source tenant source) (see_source source now) q.sources)
    else if any (λ r. str_eq r.id id) q.sources
    then err "UNIQUE constraint failed: sources.id"
    else if any (is_pair tenant source.organization_id) q.organizations
    then ok (q.sources ++ new_source id tenant source now ∷ [])
    else err "FOREIGN KEY constraint failed"

abbrev pub new_version : String → String → String → String → SourceItem → ℕ → VersionRow
new_version id source_id tenant hash source now = record {
  id = id;
  source_id = source_id;
  tenant_id = tenant;
  organization_id = source.organization_id;
  content_hash = hash;
  raw_text = source.raw_text;
  media = source.media;
  published_at = source.published_at;
  fetched_at = source.fetched_at;
  metadata = or_else source.metadata [];
  status = SourceVersionStatus.received;
  attempt_count = 0;
  next_attempt_at = none;
  last_error = none;
  started_at = none;
  completed_at = none;
  created_at = now;
}

-- A row that makes `insert or ignore` ignore the new one: its id or its `unique` pair.
abbrev pub is_same_version : String → String → String → VersionRow → Bool
is_same_version id source_id hash r =
    str_eq r.id id || (str_eq r.source_id source_id && str_eq r.content_hash hash)

-- The second statement. A row that is inserted needs its source.
unfoldable pub insert_version :
    VersionRow → List SourceRow → List VersionRow → Result String (List VersionRow)
insert_version v sources versions =
    if any (is_same_version v.id v.source_id v.content_hash) versions
    then ok versions
    else if any (λ r. str_eq r.id v.source_id) sources
    then ok (versions ++ v ∷ [])
    else err "FOREIGN KEY constraint failed"

abbrev pub is_contributor : String → String → String → ContributorRow → Bool
is_contributor tenant version user r =
    str_eq r.tenant_id tenant && (str_eq r.source_version_id version && str_eq r.user_id user)

-- The branch on `source.contributorUserId`, after the versions have been written.
unfoldable pub add_contributor :
    Option String → String → String → ℕ → Sources → Result String (List ContributorRow)
add_contributor none tenant version now q = ok q.contributors
add_contributor (some user) tenant version now q =
    if not (any (is_pair tenant user) q.memberships)
    then err "Source contributor is not a tenant member"
    else if any (is_contributor tenant version user) q.contributors
    then ok q.contributors
    else if any (λ v. str_eq v.id version) q.versions
    then ok (
        q.contributors
        ++ record {
          tenant_id = tenant;
          source_version_id = version;
          user_id = user;
          created_at = now;
        }
          ∷ [])
    else err "FOREIGN KEY constraint failed"

-- `where tenant_id=? and id=?`
abbrev pub is_version : String → String → VersionRow → Bool
is_version tenant id v = str_eq v.tenant_id tenant && str_eq v.id id

-- `row.status === 'received' || row.status === 'retryable_failed'`
abbrev pub is_processable : SourceVersionStatus → Bool
is_processable SourceVersionStatus.received = true
is_processable SourceVersionStatus.retryable_failed = true
is_processable _ = false

abbrev pub is_received : SourceVersionStatus → Bool
is_received SourceVersionStatus.received = true
is_received _ = false

abbrev pub queue_version : VersionRow → VersionRow
queue_version v = record v { status = SourceVersionStatus.queued; next_attempt_at = none }

-- The end of the transaction: the row is read, and queued if it is to be processed.
unfoldable pub claim_version :
    String → String → String → Sources → Result String (StageSourceResult × Sources)
claim_version source_id tenant version q =
    elim (find_where (is_version tenant version) q.versions) [
      | none ↦ err "Cannot read properties of undefined (reading 'status')"
      | some row ↦
          let should = is_processable row.status in
          ok (
            record {
              source_id = source_id;
              version_id = version;
              status = if should then SourceVersionStatus.queued else row.status;
              should_process = should;
              unchanged = not (is_received row.status);
              attempt_count = row.attempt_count;
            },
            record q {
              versions =
                  if should
                  then update_where (is_version tenant version) queue_version q.versions
                  else q.versions;
            },
          )
    ]

-- The transaction. A statement that throws rolls it back, so an error leaves the tables alone.
unfoldable pub write_source :
    String
    → String
    → String
    → String
    → SourceItem
    → ℕ
    → Sources
    → Result String (StageSourceResult × Sources)
write_source id t version hash source now q = elim (upsert_source id t source now q) [
  | err e ↦ err e
  | ok sources ↦
      elim (insert_version (new_version version id t hash source now) sources q.versions) [
        | err e ↦ err e
        | ok versions ↦
            let written = record q { sources = sources; versions = versions } in
            elim (add_contributor (truthy source.contributor_user_id) t version now written) [
              | err e ↦ err e
              | ok contributors ↦
                  claim_version id t version (record written { contributors = contributors })
            ]
      ]
]

module _ (stable_id : String → String → String) (digest : Json → String)
    (default_tenant : String) where
  abbrev pub tenant_of : SourceItem → Option String → String
  tenant_of source tenant = or_else tenant (or_else source.tenant_id default_tenant)

  abbrev pub source_id_of : SourceItem → Option String → String
  source_id_of source tenant = stable_id "src" (source_key (tenant_of source tenant) source)

  abbrev pub version_id_of : SourceItem → Option String → String
  version_id_of source tenant =
      stable_id "srcv" (source_id_of source tenant +++ ":" +++ digest (content source))

  unfoldable pub stage_source :
      SourceItem → Option String → Clock → Sources → Result String (StageSourceResult × Sources)
  stage_source source tenant clock q =
      write_source (source_id_of source tenant) (tenant_of source tenant)
        (version_id_of source tenant) (digest (content source)) source (clock 0) q

  -- `putSource`
  abbrev pub put_source : SourceItem → Clock → Sources → Result String (Bool × Sources)
  put_source source clock q = elim (stage_source source source.tenant_id clock q) [
    | err e ↦ err e
    | ok (r, q') ↦ ok (r.should_process, q')
  ]
