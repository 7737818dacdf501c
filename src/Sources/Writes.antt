-- ===== src/Sources/Writes.antt =====
-- What staging and settling may do to the table of versions.
use recruiting_os.Common.{
  Bool, truthy, or_else, none, err, Result-cases, Option, Clock, ◌⊎◌, ◌≡◌, ◌∷◌, update_where, true,
  sym, subst, str_eq, some, ok, inr, inl, find_where, false, arith, any-false_of, any-false-In, any,
  [], String, Option-cases, List, Bool-cases, ℕ, ◌++◌,
}
use recruiting_os.Sources.Rows.{
  SourceItem, ContributorRow, VersionRow, StageSourceResult, Sources, SourceRow, ProcessingFailure,
}
use recruiting_os.Sources.Settle.{
  mark_source_processing, succeed_version, is_startable_version, fail_version, begin_version,
}
use recruiting_os.Sources.Stage.{
  write_source, upsert_source, stage_source, new_version, add_contributor, queue_version,
  is_version, is_same_version, is_processable, insert_version, claim_version,
}
use recruiting_os.Sources.Staging.{claim_version-found, claimed_versions}
use recruiting_os.Domain.{Json}
use recruiting_os.Sources.Begin.{begin-ok}

-- The writes of settling stand apart: they are there only if `settles` is true.
pub data Write (settles : Bool) (vs : List VersionRow) : List VersionRow → Type 0 where
  adds :
      (v : VersionRow)
      → any (λ (x : VersionRow). str_eq x.id v.id) vs ≡ false
      → Write settles vs (vs ++ v ∷ [])
  queues :
      (t id : String) (row : VersionRow)
      → find_where (is_version t id) vs ≡ some row
      → is_processable row.status ≡ true
      → Write settles vs (update_where (is_version t id) queue_version vs)
  begins :
      (t id : String) (now : ℕ)
      → Write settles vs (update_where (is_startable_version t id) (begin_version now) vs)
  succeeds :
      (t id : String) (now : ℕ)
      → settles ≡ true
      → Write settles vs (update_where (is_version t id) (succeed_version now) vs)
  fails :
      (t id : String) (failure : ProcessingFailure) (now : ℕ)
      → settles ≡ true
      → Write settles vs (update_where (is_version t id) (fail_version failure now) vs)

pub data Writes (settles : Bool) (vs : List VersionRow) : List VersionRow → Type 0 where
  same : Writes settles vs vs
  then_write :
      {ws us : List VersionRow} → Writes settles vs ws → Write settles ws us → Writes settles vs us

insert_version-cases :
    (v : VersionRow) (rows : List SourceRow) (vs ws : List VersionRow)
    → insert_version v rows vs ≡ ok ws
    → (ws ≡ vs)
      ⊎ ((any (is_same_version v.id v.source_id v.content_hash) vs ≡ false) × (ws ≡ vs ++ v ∷ []))
unfolding insert_version
insert_version-cases v rows vs ws e = ground arith

insert_version-Writes :
    (settles : Bool) (v : VersionRow) (rows : List SourceRow) (vs ws : List VersionRow)
    → insert_version v rows vs ≡ ok ws
    → Writes settles vs ws
insert_version-Writes settles v rows vs ws e = elim (insert_version-cases v rows vs ws e) [
  | inl k ↦ subst (Writes settles vs) (sym k) Writes.same
  | inr (n, k) ↦ subst (Writes settles vs) (sym k) (
      Writes.then_write Writes.same (
        Write.adds v (
          any-false_of (λ (x : VersionRow). str_eq x.id v.id) vs
            (λ x m. ground (arith, any-false-In _ vs x n m)))))
]

claim_version-missing :
    (source_id t version : String) (q : Sources)
    → find_where (is_version t version) q.versions ≡ none
    → claim_version source_id t version q
      ≡ err "Cannot read properties of undefined (reading 'status')"
unfolding claim_version
claim_version-missing source_id t version q k = rw (k, claim_version)

claim_version-cases :
    (source_id t version : String) (q q' : Sources) (r : StageSourceResult)
    → claim_version source_id t version q ≡ ok (r, q')
    → (row : VersionRow) × (find_where (is_version t version) q.versions ≡ some row)
      × (q'.versions ≡ claimed_versions t version row q.versions)
claim_version-cases source_id t version q q' r e =
    elim (Option-cases (find_where (is_version t version) q.versions)) [
      | inl k ↦ absurd (cc (claim_version-missing source_id t version q k, e))
      | inr (row, k) ↦ (row, k, cc (claim_version-found source_id t version q row k, e))
    ]

claim_version-Writes :
    (settles : Bool) (source_id t version : String) (q q' : Sources) (r : StageSourceResult)
    → claim_version source_id t version q ≡ ok (r, q')
    → Writes settles q.versions q'.versions
claim_version-Writes settles source_id t version q q' r e =
    let (row, f, k) = claim_version-cases source_id t version q q' r e in
    subst (Writes settles q.versions) (sym k) (elim (Bool-cases (is_processable row.status)) [
      | inl u ↦ rw u (Writes.then_write Writes.same (Write.queues t version row f u))
      | inr u ↦ rw u Writes.same
    ])

transaction-cases :
    (id t version hash : String) (source : SourceItem) (now : ℕ) (q q' : Sources)
    (r : StageSourceResult)
    → write_source id t version hash source now q ≡ ok (r, q')
    → (rows : List SourceRow) × (versions : List VersionRow) × (people : List ContributorRow)
      × (insert_version (new_version version id t hash source now) rows q.versions ≡ ok versions)
      × (claim_version id t version
            (record q { sources = rows; versions = versions; contributors = people })
          ≡ ok (r, q'))
unfolding write_source
transaction-cases id t version hash source now q q' r e =
    elim (Result-cases (upsert_source id t source now q)) [
      | inl (m, u) ↦ absurd (cc (rw (u, write_source) at e))
      | inr (rows, u) ↦
          elim (Result-cases
            (insert_version (new_version version id t hash source now) rows q.versions)) [
              | inl (m, i) ↦ absurd (cc (rw (u, i, write_source) at e))
              | inr (versions, i) ↦
                  elim (Result-cases (
                    add_contributor (truthy source.contributor_user_id) t version now
                      (record q { sources = rows; versions = versions }))) [
                        | inl (m, p) ↦ absurd (cc (rw (u, i, p, write_source) at e))
                        | inr (people, p) ↦
                            (rows, versions, people, i, rw (u, i, p, write_source) at e)
                      ]
            ]
    ]

pub Writes-trans :
    {settles : Bool} {us vs ws : List VersionRow}
    → Writes settles us vs
    → Writes settles vs ws
    → Writes settles us ws
Writes-trans a same = a
Writes-trans a (then_write b c) = then_write (Writes-trans a b) c

module _ (stable_id : String → String → String) (digest : Json → String)
    (default_tenant : String) where
  pub stage_source-Writes :
      (settles : Bool) (source : SourceItem) (tenant : Option String) (clock : Clock)
      (q q' : Sources) (r : StageSourceResult)
      → stage_source stable_id digest default_tenant source tenant clock q ≡ ok (r, q')
      → Writes settles q.versions q'.versions
  unfolding stage_source
  stage_source-Writes settles source tenant clock q q' r e =
      let (rows, versions, people, i, c) = transaction-cases _ _ _ _ source (clock 0) q q' r e in
      Writes-trans (insert_version-Writes settles _ rows q.versions versions i)
        (claim_version-Writes settles _ _ _ _ q' r c)

pub mark_source_processing-Writes :
    (settles : Bool) (default_tenant id : String) (tenant : Option String) (clock : Clock) (n : ℕ)
    (q q' : Sources)
    → mark_source_processing default_tenant id tenant clock q ≡ ok (n, q')
    → Writes settles q.versions q'.versions
mark_source_processing-Writes settles default_tenant id tenant clock n q q' e =
    subst (λ (r : Sources). Writes settles q.versions r.versions)
      (sym (begin-ok default_tenant id tenant clock n q q' e))
      (then_write same (Write.begins (or_else tenant default_tenant) id (clock 0)))
