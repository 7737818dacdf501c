-- ===== src/Sources/Settle.antt =====
-- `markSourceProcessing`, `markSourceSucceeded`, `markSourceFailed` and `getSourceVersionStatus` of
-- src/store.ts.
use recruiting_os.Common.{
  ◌==◌, ◌+◌, ◌&&◌, update_where, truthy, true, some, or_else, ok, none, if◌then◌else◌, find_where,
  false, err, count_where, String, Result, Option, Clock, Bool, ℕ,
}
use recruiting_os.Domain.{SourceVersionStatus}
use recruiting_os.Sources.Rows.{Sources, ProcessingFailure, VersionRow}
use recruiting_os.Sources.Stage.{is_version}
use recruiting_os.Queue.Settle.{slice_start}

-- `status in ('queued','retryable_failed','received')`
abbrev pub is_startable : SourceVersionStatus → Bool
is_startable SourceVersionStatus.queued = true
is_startable SourceVersionStatus.retryable_failed = true
is_startable SourceVersionStatus.received = true
is_startable _ = false

abbrev pub is_startable_version : String → String → VersionRow → Bool
is_startable_version tenant id v = is_version tenant id v && is_startable v.status

abbrev pub begin_version : ℕ → VersionRow → VersionRow
begin_version now v = record v {
  status = SourceVersionStatus.processing;
  attempt_count = v.attempt_count + 1;
  started_at = some now;
  last_error = none;
}

abbrev pub succeed_version : ℕ → VersionRow → VersionRow
succeed_version now v = record v {
  status = SourceVersionStatus.succeeded;
  completed_at = some now;
  next_attempt_at = none;
  last_error = none;
}

abbrev pub fail_version : ProcessingFailure → ℕ → VersionRow → VersionRow
fail_version failure now v = record v {
  status =
      if failure.retryable
      then SourceVersionStatus.retryable_failed
      else SourceVersionStatus.terminal_failed;
  last_error = some (slice_start 500 failure.message);
  next_attempt_at = failure.next_attempt_at;
  completed_at = some now;
}

-- The attempt count as it is read after the update.
abbrev read_attempt : Option VersionRow → Sources → Result String (ℕ × Sources)
read_attempt none q = err "Cannot read properties of undefined (reading 'attempt_count')"
read_attempt (some v) q = ok (v.attempt_count, q)

pub record VersionStatus : Type 0 where
  pub status : SourceVersionStatus
  pub attempt_count : ℕ
  pub last_error : Option String

module _ (default_tenant : String) where
  -- `id` is the primary key, so the update changes one row or none.
  unfoldable pub mark_source_processing :
      String → Option String → Clock → Sources → Result String (ℕ × Sources)
  mark_source_processing id tenant clock q =
      let t = or_else tenant default_tenant in
      let mine = is_startable_version t id in
      let later = update_where mine (begin_version (clock 0)) q.versions in
      if count_where mine q.versions == 1
      then read_attempt (find_where (is_version t id) later) (record q { versions = later })
      else err "Source version is not ready for processing"

  unfoldable pub mark_source_succeeded : String → Option String → Clock → Sources → Sources
  mark_source_succeeded id tenant clock q = record q {
    versions =
        update_where (is_version (or_else tenant default_tenant) id) (succeed_version (clock 0))
          q.versions;
  }

  unfoldable pub mark_source_failed :
      String → ProcessingFailure → Option String → Clock → Sources → Sources
  mark_source_failed id failure tenant clock q = record q {
    versions =
        update_where (is_version (or_else tenant default_tenant) id)
          (fail_version failure (clock 0)) q.versions;
  }

  unfoldable pub get_source_version_status : String → Option String → Sources → Option VersionStatus
  get_source_version_status id tenant q =
      elim (find_where (is_version (or_else tenant default_tenant) id) q.versions) [
        | none ↦ none
        | some v ↦ some (record {
          status = v.status;
          attempt_count = v.attempt_count;
          last_error = truthy v.last_error;
        })
      ]
