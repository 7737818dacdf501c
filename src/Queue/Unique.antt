-- ===== src/Queue/Unique.antt =====
-- The primary key of `jobs`: no two rows have one id.
use recruiting_os.Common.{
  row_of_key, keys-update, In-map_key, Distinct, String, Bool, ◌≡◌, List, map, In, update_where,
}
use recruiting_os.Queue.Rows.{JobRow}

abbrev pub ids : List JobRow → List String
ids rows = map (λ r. r.id) rows

pub In-ids : (rows : List JobRow) (r : JobRow) → In r rows → In r.id (ids rows)
In-ids rows r m = In-map_key (λ (s : JobRow). s.id) rows r m

-- With distinct ids a row is known by its id.
pub row_of_id :
    (rows : List JobRow) (r s : JobRow)
    → Distinct (ids rows)
    → In r rows
    → In s rows
    → r.id ≡ s.id
    → r ≡ s
row_of_id rows r s d m n e = row_of_key (λ (t : JobRow). t.id) rows r s d m n e

-- An update that keeps the ids of the rows that it changes keeps the column.
pub ids-update :
    (p : JobRow → Bool) (f : JobRow → JobRow) (rows : List JobRow)
    → ((r : JobRow) → (f r).id ≡ r.id)
    → ids (update_where p f rows) ≡ ids rows
ids-update p f rows keep = keys-update (λ (r : JobRow). r.id) p f rows keep
