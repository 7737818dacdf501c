-- ===== src/Sources/Written.antt =====
-- What each statement of `stageSource` writes, for any ids.
use recruiting_os.Common.{
  any, ◌≡◌, ◌∷◌, ◌∙◌, update_where, true, sym, str_eq, some, refl, ok, none, inr, inl,
  find_where-some, find_where-none, find_where, eq_iff, arith, any-witness, any-true_of,
  any-false_of, any-false-In, [], String, Option, List, In-append_right, In, Bool-cases, Bool, ℕ,
  ◌++◌,
}
use recruiting_os.Sources.Rows.{VersionRow, Sources, SourceRow, SourceItem, ContributorRow}
use recruiting_os.Sources.Stage.{
  upsert_source, see_source, new_source, is_version, is_same_version, is_same_source, is_pair,
  is_contributor, insert_version, add_contributor,
}

any-seen :
    (p : SourceRow → Bool) (source : SourceItem) (now : ℕ) (id : String) (rows : List SourceRow)
    → any (λ r. str_eq r.id id) (update_where p (see_source source now) rows)
      ≡ any (λ r. str_eq r.id id) rows
any-seen p source now id [] = refl
any-seen p source now id (x ∷ rows) = elim (Bool-cases (p x)) [
  | inl t ↦ ground (arith, any-seen p source now id rows)
  | inr t ↦ ground (arith, any-seen p source now id rows)
]

any-last :
    {A : Type 0} (p : A → Bool) (xs : List A) (x : A) → p x ≡ true → any p (xs ++ x ∷ []) ≡ true
any-last p xs x t = any-true_of p (xs ++ x ∷ []) x (In-append_right xs (x ∷ []) x (inl refl)) t

pub str_eq_refl : (s : String) → str_eq s s ≡ true
str_eq_refl s = (eq_iff s s).1 refl

-- The source is there after the first statement.
pub upsert_source-ok :
    (id t : String) (source : SourceItem) (now : ℕ) (q : Sources)
    → ((r : SourceRow) → In r q.sources → is_same_source t source r ≡ str_eq r.id id)
    → any (is_pair t source.organization_id) q.organizations ≡ true
    → (rows : List SourceRow) × (upsert_source id t source now q ≡ ok rows)
      × (any (λ r. str_eq r.id id) rows ≡ true)
unfolding upsert_source
upsert_source-ok id t source now q named org =
    elim (Bool-cases (any (is_same_source t source) q.sources)) [
      | inl k ↦
          let (r, m, u) = any-witness (is_same_source t source) q.sources k in
          (
            update_where (is_same_source t source) (see_source source now) q.sources,
            rw k,
            any-seen (is_same_source t source) source now id q.sources
                ∙ any-true_of (λ s. str_eq s.id id) q.sources r m (sym (named r m) ∙ u),
          )
      | inr k ↦
          let missing =
            any-false_of (λ s. str_eq s.id id) q.sources
              (λ r m. sym (named r m) ∙ any-false-In (is_same_source t source) q.sources r k m) in
          (
            q.sources ++ new_source id t source now ∷ [],
            rw (k, missing, org),
            any-last (λ s. str_eq s.id id) q.sources (new_source id t source now) (str_eq_refl id),
          )
    ]

-- The version is there after the second statement, and is queued as it was found.
pub insert_version-known :
    (v w : VersionRow) (rows : List SourceRow) (versions : List VersionRow)
    → ((x : VersionRow)
        → In x versions
        → is_same_version v.id v.source_id v.content_hash x ≡ is_version v.tenant_id v.id x)
    → find_where (is_version v.tenant_id v.id) versions ≡ some w
    → insert_version v rows versions ≡ ok versions
unfolding insert_version
insert_version-known v w rows versions named e =
    let (m, t) = find_where-some (is_version v.tenant_id v.id) versions w e in
    rw (any-true_of (is_same_version v.id v.source_id v.content_hash) versions w m (named w m ∙ t))

pub insert_version-new :
    (v : VersionRow) (rows : List SourceRow) (versions : List VersionRow)
    → ((x : VersionRow)
        → In x versions
        → is_same_version v.id v.source_id v.content_hash x ≡ is_version v.tenant_id v.id x)
    → any (λ r. str_eq r.id v.source_id) rows ≡ true
    → find_where (is_version v.tenant_id v.id) versions ≡ none
    → insert_version v rows versions ≡ ok (versions ++ v ∷ [])
unfolding insert_version
insert_version-new v rows versions named k e = rw (
  any-false_of (is_same_version v.id v.source_id v.content_hash) versions
      (λ x m. named x m ∙ find_where-none (is_version v.tenant_id v.id) versions x e m),
  k,
)

-- A contributor who is a member is recorded, and no contributor needs no record.
pub add_contributor-ok :
    (contributor : Option String) (t version : String) (now : ℕ) (written : Sources)
    → ((user : String) → contributor ≡ some user → any (is_pair t user) written.memberships ≡ true)
    → any (λ v. str_eq v.id version) written.versions ≡ true
    → (rows : List ContributorRow) × (add_contributor contributor t version now written ≡ ok rows)
unfolding add_contributor
add_contributor-ok none t version now written member k = (written.contributors, refl)
add_contributor-ok (some user) t version now written member k =
    elim (Bool-cases (any (is_contributor t version user) written.contributors)) [
      | inl c ↦ (written.contributors, rw (member user refl, c))
      | inr c ↦ (
        written.contributors
            ++ record {
              tenant_id = t;
              source_version_id = version;
              user_id = user;
              created_at = now;
            }
              ∷ [],
        rw (member user refl, c, k),
      )
    ]
