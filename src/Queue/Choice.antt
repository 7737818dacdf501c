-- ===== src/Queue/Choice.antt =====
-- Which job `leaseNext` takes: src/infrastructure/queue/sqlite-job-queue.ts.
use recruiting_os.Common.{
  any-false-In, ◌⊎◌, ◌≤◌, ◌∙◌, ◌&&◌, update-In_old, sym, least-least, inr, inl, false, In-update,
  Clock, Bool-cases, Bool, All-In, ◌≡◌, true, subst, str_eq, some, select_where, select-In, refl,
  not, none, least-none, least-In, least, eq_iff, arith, ap, any-false_of, String, Option, List,
  IsOrder, In-select, In, ℕ,
}
use recruiting_os.Queue.Rows.{JobRow}
use recruiting_os.Queue.Lease.{
  sweep, next_row, last_leased_at, is_ready, is_exhausted, bury, ranks_before, is_served_before,
  is_first_of_tenant,
}

ranks_before-IsOrder : IsOrder ranks_before
ranks_before-IsOrder = record { asym = λ a b h. ground arith; chain = λ a b c h k. ground arith }

is_served_before-IsOrder : (last : List (String × ℕ)) → IsOrder (is_served_before last)
is_served_before-IsOrder last = record {
  asym = λ a b h. ground arith;
  chain = λ a b c h k. ground arith;
}

and-false : (a b : Bool) → (a ≡ true → b ≡ false) → (a && b) ≡ false
and-false true b h = h refl
and-false false b h = refl

-- Every tenant with a ready row has a first one.
first_of_tenant :
    (ready : List JobRow) (a : JobRow)
    → In a ready
    → (b : JobRow) × In b ready × (b.tenant_id ≡ a.tenant_id) × (is_first_of_tenant ready b ≡ true)
first_of_tenant ready a m = found (least ranks_before mine) refl
  where
    mine : List JobRow
    mine = select_where (λ s. str_eq s.tenant_id a.tenant_id) ready

    found :
        (o : Option JobRow)
        → least ranks_before mine ≡ o
        → (b : JobRow) × In b ready
          × (b.tenant_id ≡ a.tenant_id)
          × (is_first_of_tenant ready b ≡ true)
    found none e = absurd (
        subst (In a) (least-none ranks_before mine e)
          (select-In _ ready a m ((eq_iff a.tenant_id a.tenant_id).1 refl)))
    found (some b) e =
        let (n, t) = In-select _ ready b (least-In ranks_before mine b e) in
        let same = (eq_iff b.tenant_id a.tenant_id).0 t in
        let after = least-least ranks_before ranks_before-IsOrder mine b e in
        (
          b,
          n,
          same,
          ap not (
              any-false_of _ ready (λ s k. and-false (str_eq s.tenant_id b.tenant_id) _ λ u.
                All-In (λ y. ranks_before y b ≡ false) mine s after
                  (select-In _ ready s k (
                    (eq_iff s.tenant_id a.tenant_id).1
                      ((eq_iff s.tenant_id b.tenant_id).0 u ∙ same))))),
        )

-- A ready row is none that the sweep buries, and the sweep makes no row ready.
pub sweep-ready :
    (clock : Clock) (rows : List JobRow) (r : JobRow)
    → In r (sweep clock rows)
    → is_ready clock r ≡ true
    → In r rows
unfolding sweep
sweep-ready clock rows r m ready =
    kept (In-update (is_exhausted (clock 2)) (bury (clock 0) (clock 1)) rows r m)
  where
    kept :
        (x : JobRow) × In x rows
          × (((is_exhausted (clock 2) x ≡ true) × (r ≡ bury (clock 0) (clock 1) x))
              ⊎ ((is_exhausted (clock 2) x ≡ false) × (r ≡ x)))
        → In r rows
    kept (x, n, inr (t, e)) = subst (λ (y : JobRow). In y rows) (sym e) n
    kept (x, n, inl (t, e)) = absurd (cc (ap (λ (y : JobRow). is_ready clock y) e, ready))

pub ready-sweep :
    (clock : Clock) (rows : List JobRow) (r : JobRow)
    → In r rows
    → is_ready clock r ≡ true
    → In r (sweep clock rows)
unfolding sweep
ready-sweep clock rows r m ready =
    update-In_old (is_exhausted (clock 2)) (bury (clock 0) (clock 1)) rows r m (ground arith)

-- No row is chosen exactly when none is ready.
pub next_row-none :
    (clock : Clock) (last : List (String × ℕ)) (rows : List JobRow) (a : JobRow)
    → next_row clock last rows ≡ none
    → In a rows
    → is_ready clock a ≡ false
unfolding next_row
next_row-none clock last rows a e m = elim (Bool-cases (is_ready clock a)) [
  | inr f ↦ f
  | inl t ↦
      let ready = select_where (is_ready clock) rows in
      let (b, n, same, first) = first_of_tenant ready a (select-In _ rows a m t) in
      absurd (subst (In b) (least-none (is_served_before last) _ e) (select-In _ ready b n first))
]

true_of_not : (b : Bool) → not b ≡ true → b ≡ false
true_of_not b h = ground arith

first-ranks :
    (ready : List JobRow) (a r : JobRow)
    → is_first_of_tenant ready r ≡ true
    → In a ready
    → a.tenant_id ≡ r.tenant_id
    → ranks_before a r ≡ false
first-ranks ready a r first m p = rw ((eq_iff a.tenant_id r.tenant_id).1 p) at (
    any-false-In (λ s. str_eq s.tenant_id r.tenant_id && ranks_before s r) ready a
      (true_of_not _ first) m)

-- The chosen row: its tenant has waited longest, and it ranks first in its tenant.
pub next_row-least :
    (clock : Clock) (last : List (String × ℕ)) (rows : List JobRow) (r a : JobRow)
    → next_row clock last rows ≡ some r
    → In a rows
    → is_ready clock a ≡ true
    → (last_leased_at last r.tenant_id ≤ last_leased_at last a.tenant_id)
      × (a.tenant_id ≡ r.tenant_id → ranks_before a r ≡ false)
unfolding next_row
next_row-least clock last rows r a e m t =
    let ready = select_where (is_ready clock) rows in
    let firsts = select_where (is_first_of_tenant ready) ready in
    let k = select-In (is_ready clock) rows a m t in
    let (b, n, same, first) = first_of_tenant ready a k in
    let waited =
      All-In (λ y. is_served_before last y r ≡ false) firsts b
        (least-least (is_served_before last) (is_served_before-IsOrder last) firsts r e)
        (select-In _ ready b n first) in
    let (i, mine) = In-select _ ready r (least-In (is_served_before last) firsts r e) in
    (rw (← same) (ground arith), first-ranks ready a r mine k)
