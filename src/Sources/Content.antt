-- ===== src/Sources/Content.antt =====
-- What stays of a version of a source, whatever is called.
use recruiting_os.Common.{
  true, In-All, ◌≤◌, ◌≡◌, ◌∷◌, ◌∙◌, update_where, update-In_old, update-In_new, refl, inr, inl,
  arith, ap, [], String, List, In-append_left, In, Clock, Bool-cases, Bool, ℕ,
}
use recruiting_os.Domain.{Json}
use recruiting_os.Sources.Machine.{source_run-Writes, source_run, SourceCall}
use recruiting_os.Sources.Rows.{VersionRow, Sources}
use recruiting_os.Sources.Writes.{Writes, Write}
use recruiting_os.Sources.Settle.{
  succeed_version, is_startable_version, fail_version, begin_version,
}
use recruiting_os.Sources.Stage.{queue_version, is_version}

-- The columns that say what the content is and whose; the attempts are counted up.
pub record IsHeir (x a : VersionRow) : Type 0 where
  pub id : a.id ≡ x.id
  pub source_id : a.source_id ≡ x.source_id
  pub tenant_id : a.tenant_id ≡ x.tenant_id
  pub organization_id : a.organization_id ≡ x.organization_id
  pub content_hash : a.content_hash ≡ x.content_hash
  pub raw_text : a.raw_text ≡ x.raw_text
  pub media : a.media ≡ x.media
  pub published_at : a.published_at ≡ x.published_at
  pub fetched_at : a.fetched_at ≡ x.fetched_at
  pub metadata : a.metadata ≡ x.metadata
  pub created_at : a.created_at ≡ x.created_at
  pub attempt_count : x.attempt_count ≤ a.attempt_count

heir :
    (x a : VersionRow)
    → x.attempt_count ≤ a.attempt_count
    → a ≡ record x {
      status = a.status;
      attempt_count = a.attempt_count;
      next_attempt_at = a.next_attempt_at;
      last_error = a.last_error;
      started_at = a.started_at;
      completed_at = a.completed_at;
    }
    → IsHeir x a
heir x a n e = record {
  id = ap (λ (r : VersionRow). r.id) e;
  source_id = ap (λ (r : VersionRow). r.source_id) e;
  tenant_id = ap (λ (r : VersionRow). r.tenant_id) e;
  organization_id = ap (λ (r : VersionRow). r.organization_id) e;
  content_hash = ap (λ (r : VersionRow). r.content_hash) e;
  raw_text = ap (λ (r : VersionRow). r.raw_text) e;
  media = ap (λ (r : VersionRow). r.media) e;
  published_at = ap (λ (r : VersionRow). r.published_at) e;
  fetched_at = ap (λ (r : VersionRow). r.fetched_at) e;
  metadata = ap (λ (r : VersionRow). r.metadata) e;
  created_at = ap (λ (r : VersionRow). r.created_at) e;
  attempt_count = n;
}

IsHeir-trans : {x y a : VersionRow} → IsHeir x y → IsHeir y a → IsHeir x a
IsHeir-trans h k = record {
  id = k.id ∙ h.id;
  source_id = k.source_id ∙ h.source_id;
  tenant_id = k.tenant_id ∙ h.tenant_id;
  organization_id = k.organization_id ∙ h.organization_id;
  content_hash = k.content_hash ∙ h.content_hash;
  raw_text = k.raw_text ∙ h.raw_text;
  media = k.media ∙ h.media;
  published_at = k.published_at ∙ h.published_at;
  fetched_at = k.fetched_at ∙ h.fetched_at;
  metadata = k.metadata ∙ h.metadata;
  created_at = k.created_at ∙ h.created_at;
  attempt_count = le-trans h.attempt_count k.attempt_count;
}
  where
    le-trans : {a b c : ℕ} → a ≤ b → b ≤ c → a ≤ c
    le-trans p q = omega arith

abbrev HasHeir : List VersionRow → VersionRow → Type 0
HasHeir vs x = (a : VersionRow) × In a vs × IsHeir x a

update-HasHeir :
    (p : VersionRow → Bool) (f : VersionRow → VersionRow) (vs : List VersionRow) (x : VersionRow)
    → ((y : VersionRow) → IsHeir y (f y))
    → In x vs
    → HasHeir (update_where p f vs) x
update-HasHeir p f vs x h m = elim (Bool-cases (p x)) [
  | inl t ↦ (f x, update-In_new p f vs x m t, h x)
  | inr t ↦ (x, update-In_old p f vs x m t, heir x x (omega arith) refl)
]

Write-HasHeir :
    {vs ws : List VersionRow} → Write true vs ws → (x : VersionRow) → In x vs → HasHeir ws x
Write-HasHeir {vs = vs} (Write.adds v h) x m =
    (x, In-append_left vs (v ∷ []) x m, heir x x (omega arith) refl)
Write-HasHeir {vs = vs} (Write.queues t id row f u) x m =
    update-HasHeir (is_version t id) queue_version vs x
      (λ y. heir y (queue_version y) (omega arith) refl) m
Write-HasHeir {vs = vs} (Write.begins t id now) x m =
    update-HasHeir (is_startable_version t id) (begin_version now) vs x
      (λ y. heir y (begin_version now y) (omega arith) refl) m
Write-HasHeir {vs = vs} (Write.succeeds t id now s) x m =
    update-HasHeir (is_version t id) (succeed_version now) vs x
      (λ y. heir y (succeed_version now y) (omega arith) refl) m
Write-HasHeir {vs = vs} (Write.fails t id failure now s) x m =
    update-HasHeir (is_version t id) (fail_version failure now) vs x
      (λ y. heir y (fail_version failure now y) (omega arith) refl) m

Writes-HasHeir :
    {vs ws : List VersionRow} → Writes true vs ws → (x : VersionRow) → In x vs → HasHeir ws x
Writes-HasHeir Writes.same x m = (x, m, heir x x (omega arith) refl)
Writes-HasHeir (Writes.then_write w k) x m =
    let (y, n, h) = Writes-HasHeir w x m in
    let (a, o, g) = Write-HasHeir k y n in (a, o, IsHeir-trans h g)

module _ (stable_id : String → String → String) (digest : Json → String)
    (default_tenant : String) where
  -- Over any history of calls no version of a source is lost: it keeps its id, its source, tenant
  -- and organization, its content and the time of its creation, and its attempts are only counted
  -- up.
  pub source_run-keeps_content :
      (h : List (Clock × SourceCall)) (q : Sources) (x : VersionRow)
      → In x q.versions
      → (a : VersionRow) × In a (source_run stable_id digest default_tenant h q).versions
        × IsHeir x a
  source_run-keeps_content h q x m =
      Writes-HasHeir
        (source_run-Writes stable_id digest default_tenant true h q (In-All _ h (λ c n u. refl))) x
        m
