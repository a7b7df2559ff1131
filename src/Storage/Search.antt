-- ===== src/Storage/Search.antt =====
-- syncstorage/db.go: getBSOs, the search for BSOs with its order and its pages. Among rows that the
-- order does not tell apart the model keeps the order of the table.
pub mod Order
pub mod Pages
use go_syncstorage.Prelude.{
  ℕ, ◌-◌, Bool, true, false, ◌&&◌, List, [], ◌∷◌, map, ◌==◌, leb, length, take, drop, if◌then◌else◌,
  not,
}
use go_syncstorage.Prelude.Int.{ℤ, pos, negsuc, pos_part, add_int, lt_int, le_int}
use go_syncstorage.Prelude.Text.{Text}
use go_syncstorage.Storage.Checks.{offset_ok, limit_ok, newer_ok}
use go_syncstorage.Storage.Data.{
  BsoRow, GetResults, SortType, ok, invalid_offset, invalid_limit, invalid_newer,
}
use go_syncstorage.Storage.Driver.{M, pure, throw, ◌>>=◌, query_closing, now}
use go_syncstorage.Storage.Bso.{keep_rows, bso_of}
use go_syncstorage.Storage.Erase.{contains}

abbrev pub none_or_in : List Text → Text → Bool
none_or_in [] id = true
none_or_in (i ∷ ids) id = contains (i ∷ ids) id

-- The WHERE clause; of the ids only the first hundred count.
abbrev pub wanted : ℕ → List Text → ℤ → ℤ → ℕ → BsoRow → Bool
wanted collection ids older newer cutoff r =
    r.collection_id == collection
    && lt_int (pos r.modified) older
    && lt_int newer (pos r.modified)
    && lt_int (pos cutoff) r.ttl
    && none_or_in (take 100 ids) r.id

-- The ORDER BY clause: may `a` stand before `b`?
unfoldable pub in_order : SortType → BsoRow → BsoRow → Bool
in_order SortType.sort_none a b = true
in_order SortType.sort_newest a b = leb b.modified a.modified
in_order SortType.sort_oldest a b = leb a.modified b.modified
in_order SortType.sort_index a b = le_int b.sort_index a.sort_index

unfoldable pub insert_sorted : SortType → BsoRow → List BsoRow → List BsoRow
insert_sorted sort r [] = r ∷ []
insert_sorted sort r (s ∷ rows) =
    if in_order sort r s then r ∷ s ∷ rows else s ∷ insert_sorted sort r rows

unfoldable pub order_by : SortType → List BsoRow → List BsoRow
order_by sort [] = []
order_by sort (r ∷ rows) = insert_sorted sort r (order_by sort rows)

-- LIMIT: a negative number is no limit.
unfoldable pub limit_rows : ℤ → List BsoRow → List BsoRow
limit_rows (pos n) rows = take n rows
limit_rows (negsuc n) rows = rows

-- The rows behind the WHERE and ORDER BY clauses
unfoldable pub selected : ℕ → List Text → ℤ → ℤ → SortType → ℕ → List BsoRow → List BsoRow
selected collection ids older newer sort cutoff rows =
    order_by sort (keep_rows (wanted collection ids older newer cutoff) rows)

-- With a limit, one row more is asked for, to see whether there are more.
unfoldable pub limit_asked : ℤ → ℤ
limit_asked limit = if le_int (pos 0) limit then add_int limit (pos 1) else limit

-- More, and BSOs and Offset from the rows that came
unfoldable pub page_of : ℤ → ℤ → List BsoRow → GetResults
page_of limit offset rows =
    if le_int (pos 0) limit && lt_int limit (pos (length rows))
    then record {
      bsos = map bso_of (take (length rows - 1) rows);
      more = true;
      offset = add_int limit offset;
    }
    else record { bsos = map bso_of rows; more = false; offset = pos 0 }

-- getBSOs, GetBSOs; errors that come while the rows are read are not looked at.
unfoldable pub get_bsos : ℕ → List Text → ℤ → ℤ → SortType → ℤ → ℤ → M GetResults
get_bsos collection ids older newer sort limit offset =
    if not (offset_ok offset)
    then throw invalid_offset
    else if not (limit_ok limit)
    then throw invalid_limit
    else if not (newer_ok newer)
    then throw invalid_newer
    else do
      cutoff ← now
      rows ← query_closing (λ t. ok (
          limit_rows (limit_asked limit)
            (drop (pos_part offset) (selected collection ids older newer sort cutoff t.bso))))
      pure (page_of limit offset rows)
