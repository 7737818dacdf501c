-- ===== src/Sources/Staging.antt =====
-- When `stageSource` of src/store.ts goes through, and what it does with content that is known.
use recruiting_os.Common.{
  ◌∙◌, ℕ, ap, update-append_last, refl, find_where-some, find_where-none, find-append_last, arith,
  any-true_of, ok, find_where, ◌≡◌, ◌∷◌, update_where, truthy, true, str_eq, some, not, none,
  if◌then◌else◌, false, any, [], String, Option, List, In, Clock, ◌++◌,
}
use recruiting_os.Domain.{SourceVersionStatus, Json}
use recruiting_os.Sources.Rows.{
  ContributorRow, content, VersionRow, StageSourceResult, Sources, SourceRow, SourceItem,
}
use recruiting_os.Sources.Stage.{
  write_source, stage_source, claim_version, upsert_source, insert_version, add_contributor,
  version_id_of, tenant_of, source_id_of, queue_version, new_version, is_version, is_same_version,
  is_same_source, is_received, is_processable, is_pair,
}
use recruiting_os.Sources.Written.{
  str_eq_refl, upsert_source-ok, insert_version-new, insert_version-known, add_contributor-ok,
}

-- What the last statements of the transaction yield of the row that they read.
abbrev claimed_result : String → String → VersionRow → StageSourceResult
claimed_result source_id version row = record {
  source_id = source_id;
  version_id = version;
  status = if is_processable row.status then SourceVersionStatus.queued else row.status;
  should_process = is_processable row.status;
  unchanged = not (is_received row.status);
  attempt_count = row.attempt_count;
}

abbrev pub claimed_versions : String → String → VersionRow → List VersionRow → List VersionRow
claimed_versions t version row versions =
    if is_processable row.status
    then update_where (is_version t version) queue_version versions
    else versions

pub claim_version-found :
    (source_id t version : String) (w : Sources) (row : VersionRow)
    → find_where (is_version t version) w.versions ≡ some row
    → claim_version source_id t version w
      ≡ ok (
        claimed_result source_id version row,
        record w { versions = claimed_versions t version row w.versions },
      )
unfolding claim_version
claim_version-found source_id t version w row e = rw (e, claim_version)

transaction-ok :
    (id t version hash : String) (source : SourceItem) (now : ℕ) (q : Sources)
    (rows : List SourceRow) (versions : List VersionRow) (people : List ContributorRow)
    → upsert_source id t source now q ≡ ok rows
    → insert_version (new_version version id t hash source now) rows q.versions ≡ ok versions
    → add_contributor
        (truthy source.contributor_user_id)
        t
        version
        now
        (record q { sources = rows; versions = versions })
      ≡ ok people
    → write_source id t version hash source now q
      ≡ claim_version id t version
          (record q { sources = rows; versions = versions; contributors = people })
unfolding write_source
transaction-ok id t version hash source now q rows versions people u i p =
    rw (u, i, p, write_source)

module _ (source_id t version hash : String) (source : SourceItem) (now : ℕ) (q : Sources) where
  abbrev fresh : VersionRow
  fresh = new_version version source_id t hash source now

  -- The ids of the tables are the digests of the columns that name a row.
  pub record IsNamed : Type 0 where
    pub by_key :
        (r : SourceRow) → In r q.sources → is_same_source t source r ≡ str_eq r.id source_id
    pub by_content :
        (v : VersionRow)
        → In v q.versions
        → is_same_version version source_id hash v ≡ is_version t version v

  -- What the database and the code demand of a source.
  pub record IsAccepted : Type 0 where
    pub organization : any (is_pair t source.organization_id) q.organizations ≡ true
    pub member :
        (user : String)
        → truthy source.contributor_user_id ≡ some user
        → any (is_pair t user) q.memberships ≡ true

  -- The versions that staging leaves, from the one of this content that it finds.
  abbrev pub staged_versions : Option VersionRow → List VersionRow
  staged_versions none = q.versions ++ queue_version fresh ∷ []
  staged_versions (some v) =
      if is_processable v.status
      then update_where (is_version t version) queue_version q.versions
      else q.versions

  abbrev pub staged_result : Option VersionRow → StageSourceResult
  staged_result none = record {
    source_id = source_id;
    version_id = version;
    status = SourceVersionStatus.queued;
    should_process = true;
    unchanged = false;
    attempt_count = 0;
  }
  staged_result (some v) = record {
    source_id = source_id;
    version_id = version;
    status = if is_processable v.status then SourceVersionStatus.queued else v.status;
    should_process = is_processable v.status;
    unchanged = not (is_received v.status);
    attempt_count = v.attempt_count;
  }

  -- What staging comes to, by the version of this content that it finds.
  abbrev pub Staged : Option VersionRow → Type 0
  Staged o =
      (q' : Sources) × (write_source source_id t version hash source now q
        ≡ ok (staged_result o, q'))
      × (q'.versions ≡ staged_versions o)

  written-Staged :
      (o : Option VersionRow) (row : VersionRow) (rows : List SourceRow)
      (versions : List VersionRow)
      → IsAccepted
      → upsert_source source_id t source now q ≡ ok rows
      → insert_version fresh rows q.versions ≡ ok versions
      → find_where (is_version t version) versions ≡ some row
      → claimed_result source_id version row ≡ staged_result o
      → claimed_versions t version row versions ≡ staged_versions o
      → Staged o
  written-Staged o row rows versions accepted u i f r v =
      let w = record q { sources = rows; versions = versions } in
      let (m, s) = find_where-some (is_version t version) versions row f in
      let (people, p) =
        add_contributor-ok (truthy source.contributor_user_id) t version now w accepted.member
          (any-true_of (λ x. str_eq x.id version) versions row m (ground arith)) in
      let done = record w { contributors = people } in
      (
        record done { versions = claimed_versions t version row versions },
        transaction-ok source_id t version hash source now q rows versions people u i p
            ∙ claim_version-found source_id t version done row f
            ∙ ap (λ x. ok (x, record done { versions = claimed_versions t version row versions }))
                r,
        v,
      )

  own : is_version t version fresh ≡ true
  own = ground (arith, str_eq_refl t, str_eq_refl version)

  pub found-Staged :
      IsNamed
      → IsAccepted
      → (o : Option VersionRow) → find_where (is_version t version) q.versions ≡ o
      → Staged o
  found-Staged named accepted none e =
      let (rows, u, k) =
        upsert_source-ok source_id t source now q named.by_key accepted.organization in
      written-Staged none fresh rows (q.versions ++ fresh ∷ []) accepted u
        (insert_version-new fresh rows q.versions named.by_content k e)
        (find-append_last (is_version t version) q.versions fresh e own) refl
        (update-append_last (is_version t version) queue_version q.versions fresh
          (λ x m. find_where-none (is_version t version) q.versions x e m) own)
  found-Staged named accepted (some v) e =
      let (rows, u, k) =
        upsert_source-ok source_id t source now q named.by_key accepted.organization in
      written-Staged (some v) v rows q.versions accepted u
        (insert_version-known fresh v rows q.versions named.by_content e) e refl refl

module _ (stable_id : String → String → String) (digest : Json → String)
    (default_tenant : String) where
  -- Where the ids of the tables are the digests of what they name, the organization is there and
  -- the contributor, if there is one, is a member, `stageSource` goes through. Content that is
  -- new gets one queued version without attempts, to be processed. Content that is known gets no
  -- second version: the one that is there is queued and to be processed exactly when it has been
  -- received only or failed retryably, and stays as it is otherwise.
  pub stage_source-stages :
      (source : SourceItem) (tenant : Option String) (clock : Clock) (q : Sources)
      → (let t = tenant_of stable_id digest default_tenant source tenant in
          let id = source_id_of stable_id digest default_tenant source tenant in
          let version = version_id_of stable_id digest default_tenant source tenant in
          let hash = digest (content source) in
          let found = find_where (is_version t version) q.versions in
          IsNamed id t version hash source (clock 0) q
          → IsAccepted id t version hash source (clock 0) q
          → (q' : Sources) × (stage_source stable_id digest default_tenant source tenant clock q
              ≡ ok (staged_result id t version hash source (clock 0) q found, q'))
            × (q'.versions ≡ staged_versions id t version hash source (clock 0) q found))
  unfolding stage_source
  stage_source-stages source tenant clock q named accepted =
      found-Staged _ _ _ _ source (clock 0) q named accepted _ refl
