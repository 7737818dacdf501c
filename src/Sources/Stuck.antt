-- ===== src/Sources/Stuck.antt =====
-- A version whose worker has gone while processing it: nothing but `markSourceSucceeded` and
-- `markSourceFailed`, which that worker would have called, moves it on.
use recruiting_os.Common.{
  ◌≢◌, true, str_eq, inr, inl, find_where-some, eq_iff, arith, ap, any, Distinct-concat, Bool-cases,
  ◌≡◌, ◌∷◌, update-In_old, sym, subst, refl, map, keys-update, false, [], String, List,
  In-append_left, In-All, In, Distinct, Clock, Bool, All-In, All, ◌++◌,
}
use recruiting_os.Domain.{SourceVersionStatus, Json}
use recruiting_os.Sources.Machine.{source_run-Writes, source_run, is_settling, SourceCall}
use recruiting_os.Sources.Rows.{VersionRow, Sources}
use recruiting_os.Sources.Writes.{Writes, Write}
use recruiting_os.Sources.Settle.{
  is_startable, succeed_version, is_startable_version, fail_version, begin_version,
}
use recruiting_os.Sources.Stage.{is_version, is_processable, queue_version}
use recruiting_os.Sources.Begin.{version_unique}

abbrev pub version_ids : List VersionRow → List String
version_ids vs = map (λ (v : VersionRow). v.id) vs

version_ids-append :
    (vs : List VersionRow) (v : VersionRow)
    → version_ids (vs ++ v ∷ []) ≡ version_ids vs ++ v.id ∷ []
version_ids-append [] v = refl
version_ids-append (x ∷ vs) v = ap (λ r. x.id ∷ r) (version_ids-append vs v)

other_ids :
    (vs : List VersionRow) (v : VersionRow)
    → any (λ (x : VersionRow). str_eq x.id v.id) vs ≡ false
    → All (λ y. y ≢ v.id) (version_ids vs)
other_ids [] v h = tt
other_ids (x ∷ vs) v h =
    ((λ e. absurd (cc ((eq_iff x.id v.id).1 e, not_first))), other_ids vs v (ground arith))
  where
    not_first : str_eq x.id v.id ≡ false
    not_first = ground arith

starts_not :
    (t id : String) (x : VersionRow)
    → x.status ≡ SourceVersionStatus.processing
    → is_startable_version t id x ≡ false
starts_not t id x p = ground (arith, ap is_startable p)

queues_not :
    (x : VersionRow) → x.status ≡ SourceVersionStatus.processing → is_processable x.status ≡ false
queues_not x p = ap is_processable p

Write-Distinct :
    {settles : Bool} {vs ws : List VersionRow}
    → Write settles vs ws
    → Distinct (version_ids vs)
    → Distinct (version_ids ws)
Write-Distinct {vs = vs} (Write.adds v h) d =
    subst Distinct (sym (version_ids-append vs v))
      (Distinct-concat (version_ids vs) v.id d (other_ids vs v h))
Write-Distinct {vs = vs} (Write.queues t id row f u) d =
    subst Distinct (sym (keys-update (λ (v : VersionRow). v.id) _ queue_version vs (λ r. refl))) d
Write-Distinct {vs = vs} (Write.begins t id now) d =
    subst Distinct
      (sym (keys-update (λ (v : VersionRow). v.id) _ (begin_version now) vs (λ r. refl))) d
Write-Distinct {vs = vs} (Write.succeeds t id now s) d =
    subst Distinct
      (sym (keys-update (λ (v : VersionRow). v.id) _ (succeed_version now) vs (λ r. refl))) d
Write-Distinct {vs = vs} (Write.fails t id failure now s) d =
    subst Distinct
      (sym (keys-update (λ (v : VersionRow). v.id) _ (fail_version failure now) vs (λ r. refl))) d

Write-keeps :
    {vs ws : List VersionRow}
    → Write false vs ws
    → (x : VersionRow) → Distinct (version_ids vs)
    → In x vs
    → x.status ≡ SourceVersionStatus.processing
    → In x ws
Write-keeps {vs = vs} (Write.adds v h) x d m p = In-append_left vs (v ∷ []) x m
Write-keeps {vs = vs} (Write.queues t id row f u) x d m p = elim (Bool-cases (is_version t id x)) [
  | inl y ↦
      let (n, r) = find_where-some (is_version t id) vs row f in
      absurd (
        cc (
          subst (λ (z : VersionRow). is_processable z.status ≡ true)
              (version_unique t id vs x d m y row n r) u,
          queues_not x p,
        ))
  | inr y ↦ update-In_old (is_version t id) queue_version vs x m y
]
Write-keeps {vs = vs} (Write.begins t id now) x d m p =
    update-In_old (is_startable_version t id) (begin_version now) vs x m (starts_not t id x p)
Write-keeps (Write.succeeds t id now s) x d m p = absurd (cc s)
Write-keeps (Write.fails t id failure now s) x d m p = absurd (cc s)

Writes-keeps :
    {vs ws : List VersionRow}
    → Writes false vs ws
    → (x : VersionRow) → Distinct (version_ids vs)
    → In x vs
    → x.status ≡ SourceVersionStatus.processing
    → In x ws × Distinct (version_ids ws)
Writes-keeps Writes.same x d m p = (m, d)
Writes-keeps (Writes.then_write w k) x d m p =
    let (n, e) = Writes-keeps w x d m p in (Write-keeps k x e n p, Write-Distinct k e)

module _ (stable_id : String → String → String) (digest : Json → String)
    (default_tenant : String) where
  -- A version that is being processed stays exactly as it is over any history of `stageSource` and
  -- `markSourceProcessing`, of whatever sources and at whatever times: until its own attempt is
  -- settled, no call takes it up again.
  pub source_run-keeps_processing :
      (h : List (Clock × SourceCall)) (q : Sources) (x : VersionRow)
      → Distinct (version_ids q.versions)
      → All (λ c. is_settling c.1 ≡ false) h
      → In x q.versions
      → x.status ≡ SourceVersionStatus.processing
      → In x (source_run stable_id digest default_tenant h q).versions
  source_run-keeps_processing h q x d s m p =
      (Writes-keeps
        (source_run-Writes stable_id digest default_tenant false h q
          (In-All _ h (λ c n u. absurd (cc (All-In (λ c. is_settling c.1 ≡ false) h c s n, u)))))
        x d m p).0
