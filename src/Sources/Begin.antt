-- ===== src/Sources/Begin.antt =====
-- The start of processing: `markSourceProcessing` of src/store.ts lets one attempt in.
use recruiting_os.Common.{
  subst, ◌+◌, ℕ, or_else, ok, if◌then◌else◌, err, Option, Clock, ◌≡◌, ◌∷◌, ◌∙◌, update_where, true,
  sym, some, row_of_key, refl, map, inr, inl, find_where-some, find_where-none, find_where, false,
  eq_iff, count_where, arith, ap, [], String, Option-cases, List, In, Distinct, Bool-cases, Bool,
}
use recruiting_os.Sources.Rows.{Sources, VersionRow}
use recruiting_os.Sources.Stage.{is_version}
use recruiting_os.Sources.Settle.{
  mark_source_processing, is_startable_version, is_startable, begin_version,
}

-- An update after which its condition fails of each row that it changed leaves no row to change.
pub count_where-update :
    {A : Type 0} (p : A → Bool) (f : A → A) (xs : List A)
    → ((x : A) → p (f x) ≡ false)
    → count_where p (update_where p f xs) ≡ 0
count_where-update p f [] h = refl
count_where-update p f (x ∷ xs) h = elim (Bool-cases (p x)) [
  | inl t ↦ ground (arith, h x, count_where-update p f xs h)
  | inr t ↦ ground (arith, count_where-update p f xs h)
]

-- With distinct ids an update by id finds the changed row again.
module _ (tenant id : String) (versions : List VersionRow) (v : VersionRow) where
  pub version_unique :
      Distinct (map (λ (r : VersionRow). r.id) versions)
      → In v versions
      → is_version tenant id v ≡ true
      → (x : VersionRow) → In x versions
      → is_version tenant id x ≡ true
      → x ≡ v
  version_unique d m t x n u =
      row_of_key (λ (r : VersionRow). r.id) versions x v d n m
        ((eq_iff x.id id).0 (ground arith) ∙ sym ((eq_iff v.id id).0 (ground arith)))

pub find_where_unique :
    {A : Type 0} (p : A → Bool) (xs : List A) (a : A)
    → In a xs
    → p a ≡ true
    → ((x : A) → In x xs → p x ≡ true → x ≡ a)
    → find_where p xs ≡ some a
find_where_unique p xs a m t u = elim (Option-cases (find_where p xs)) [
  | inl e ↦ absurd (cc (find_where-none p xs a e m, t))
  | inr (b, e) ↦ let (n, s) = find_where-some p xs b e in e ∙ ap some (u b n s)
]

module _ (default_tenant : String) (id : String) (tenant : Option String) (clock : Clock) where
  -- The tables after an attempt has begun.
  abbrev pub after_begin : Sources → Sources
  after_begin q = record q {
    versions =
        update_where (is_startable_version (or_else tenant default_tenant) id)
          (begin_version (clock 0)) q.versions;
  }

  -- What the call yields of a version that is there.
  abbrev pub Begun : Sources → VersionRow → Type 0
  Begun q v = mark_source_processing default_tenant id tenant clock q ≡ (
      if is_startable v.status
      then ok (v.attempt_count + 1, after_begin q)
      else err "Source version is not ready for processing")

  refuse-begin :
      (q : Sources)
      → count_where (is_startable_version (or_else tenant default_tenant) id) q.versions ≡ 0
      → mark_source_processing default_tenant id tenant clock q
        ≡ err "Source version is not ready for processing"
  unfolding mark_source_processing
  refuse-begin q c = rw c

  pub begin-ok :
      (n : ℕ) (q q' : Sources)
      → mark_source_processing default_tenant id tenant clock q ≡ ok (n, q')
      → q' ≡ after_begin q
  unfolding mark_source_processing
  begin-ok n q q' e = ground arith

-- After one attempt at a version has begun, no other one begins in the tables that it leaves, at
-- whatever time.
pub mark_source_processing-exclusive :
    (default_tenant id : String) (tenant : Option String) (clock later : Clock) (n : ℕ)
    (q q' : Sources)
    → mark_source_processing default_tenant id tenant clock q ≡ ok (n, q')
    → mark_source_processing default_tenant id tenant later q'
      ≡ err "Source version is not ready for processing"
mark_source_processing-exclusive default_tenant id tenant clock later n q q' e =
    refuse-begin default_tenant id tenant later q' (
      subst
        (λ (r : Sources).
          count_where (is_startable_version (or_else tenant default_tenant) id) r.versions ≡ 0)
        (sym (begin-ok default_tenant id tenant clock n q q' e))
        (count_where-update _ (begin_version (clock 0)) q.versions (λ x. ground arith)))
