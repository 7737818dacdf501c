-- ===== src/Sources/Tests.antt =====
-- Runs of staging, and its theorems at one organization with one member.
use Prim.Native.String.{◌++◌ as ◌+++◌}
use mathlib.Core.Option.{some-injective}
use recruiting_os.Common.{
  ◌≡◌, ◌∷◌, truthy, true, subst, str_eq, some, refl, ok, none, inr, inl, err, any, [], String, List,
  In, Clock, ℕ,
}
use recruiting_os.Domain.{SourceType, Json, Fields, SourceVersionStatus}
use recruiting_os.Sources.Begin.{after_begin}
use recruiting_os.Sources.Content.{source_run-keeps_content, IsHeir}
use recruiting_os.Sources.Machine.{source_step, source_run, SourceCall}
use recruiting_os.Sources.Rows.{media_items, fields_of, VersionRow, Sources, SourceRow, SourceItem}
use recruiting_os.Sources.Stage.{
  write_source, upsert_source, stage_source, is_version, is_same_version, is_same_source, is_pair,
  insert_version, claim_version, add_contributor,
}
use recruiting_os.Sources.Settle.{
  mark_source_succeeded, mark_source_processing, mark_source_failed, get_source_version_status,
}
use recruiting_os.Queue.Settle.{slice_start}
use recruiting_os.Sources.Stuck.{source_run-keeps_processing}
use recruiting_os.Sources.Staging.{stage_source-stages}

abbrev digest_name : String → String → String
digest_name prefix value = prefix +++ "_" +++ value

abbrev digest_json : Json → String
digest_json (Json.obj (Fields.field key (Json.str s) rest)) = s
digest_json _ = ""

source_runs : Unit {0}
unfolding stage_source write_source upsert_source insert_version add_contributor claim_version
    mark_source_processing mark_source_succeeded mark_source_failed source_step source_run
    slice_start fields_of media_items get_source_version_status
source_runs = tt

abbrev at_5 : Clock
at_5 n = 5

abbrev mail : SourceItem
mail = record {
  id = "m1";
  tenant_id = none;
  contributor_user_id = some "u1";
  organization_id = "o1";
  source_type = SourceType.gmail;
  external_id = some "x1";
  url = none;
  title = some "Applications open";
  raw_text = "Apply by Friday";
  media = [];
  published_at = none;
  fetched_at = "2026-01-01T00:00:00.000Z";
  metadata = none;
}

abbrev mail_source : String
mail_source = "src_t1:o1:gmail:x1"

abbrev mail_version : String
mail_version = "srcv_src_t1:o1:gmail:x1:Apply by Friday"

abbrev version_in : SourceVersionStatus → ℕ → VersionRow
version_in status attempts = record {
  id = mail_version;
  source_id = mail_source;
  tenant_id = "t1";
  organization_id = "o1";
  content_hash = "Apply by Friday";
  raw_text = "Apply by Friday";
  media = [];
  published_at = none;
  fetched_at = "2026-01-01T00:00:00.000Z";
  metadata = [];
  status = status;
  attempt_count = attempts;
  next_attempt_at = none;
  last_error = none;
  started_at = none;
  completed_at = none;
  created_at = 1;
}

abbrev tables : List VersionRow → Sources
tables versions = record {
  organizations = ("t1", "o1") ∷ [];
  memberships = ("t1", "u1") ∷ [];
  sources =
      record {
        id = mail_source;
        tenant_id = "t1";
        organization_id = "o1";
        source_type = SourceType.gmail;
        identity_key = "x1";
        external_id = some "x1";
        url = none;
        title = none;
        created_at = 1;
        last_seen_at = 1;
      }
      ∷ [];
  versions = versions;
  contributors = [];
}

abbrev failed_once : Sources
failed_once = tables (version_in SourceVersionStatus.retryable_failed 1 ∷ [])

abbrev in_work : Sources
in_work = tables (version_in SourceVersionStatus.processing 1 ∷ [])

stage_source-stages_example :
    (q' : Sources) × (stage_source digest_name digest_json "t1" mail none at_5 failed_once
      ≡ ok (
        record {
          source_id = mail_source;
          version_id = mail_version;
          status = SourceVersionStatus.queued;
          should_process = true;
          unchanged = true;
          attempt_count = 1;
        },
        q',
      ))
    × (q'.versions ≡ version_in SourceVersionStatus.queued 1 ∷ [])
stage_source-stages_example =
    stage_source-stages digest_name digest_json "t1" mail none at_5 failed_once
      (record {
        by_key = λ r m. elim m [
          | inl e ↦
              subst (λ (s : SourceRow). is_same_source "t1" mail s ≡ str_eq s.id mail_source) e refl
          | inr k ↦ elim k [ ]
        ];
        by_content = λ v m. elim m [
          | inl e ↦
              subst
                (λ (s : VersionRow).
                  is_same_version mail_version mail_source "Apply by Friday" s
                  ≡ is_version "t1" mail_version s)
                e refl
          | inr k ↦ elim k [ ]
        ];
      })
      (record { organization = refl; member = member })
  where
    member :
        (user : String)
        → truthy mail.contributor_user_id ≡ some user
        → any (is_pair "t1" user) failed_once.memberships ≡ true
    member user e =
        subst (λ u. any (is_pair "t1" u) failed_once.memberships ≡ true)
          (some-injective "u1" user e) refl

first_attempt :
    mark_source_processing "t1" mail_version none at_5 failed_once
    ≡ ok (2, after_begin "t1" mail_version none at_5 failed_once)
unfolding source_runs
first_attempt = refl

abbrev starts : List (Clock × SourceCall)
starts = (at_5, SourceCall.stages mail none) ∷ (at_5, SourceCall.begins mail_version none) ∷ []

source_run-keeps_processing_example :
    In
      (version_in SourceVersionStatus.processing 1)
      (source_run digest_name digest_json "t1" starts in_work).versions
source_run-keeps_processing_example =
    source_run-keeps_processing digest_name digest_json "t1" starts in_work
      (version_in SourceVersionStatus.processing 1) (tt, tt) (refl, (refl, tt)) (inl refl) refl

source_run-keeps_content_example :
    (a : VersionRow) × In a (source_run digest_name digest_json "t1" starts failed_once).versions
    × IsHeir (version_in SourceVersionStatus.retryable_failed 1) a
source_run-keeps_content_example =
    source_run-keeps_content digest_name digest_json "t1" starts failed_once
      (version_in SourceVersionStatus.retryable_failed 1) (inl refl)

-- A contributor who is no member is refused; a version in work is not taken up.
stranger_is_refused :
    stage_source digest_name digest_json "t1"
      (record mail { contributor_user_id = some "u2" })
      none
      at_5
      failed_once
    ≡ err "Source contributor is not a tenant member"
unfolding source_runs
stranger_is_refused = refl

begin_in_work :
    mark_source_processing "t1" mail_version none at_5 in_work
    ≡ err "Source version is not ready for processing"
unfolding source_runs
begin_in_work = refl
