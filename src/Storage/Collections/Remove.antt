-- ===== src/Storage/Collections/Remove.antt =====
-- DeleteCollection, and what DeleteEverything leaves alone.
use go_syncstorage.Prelude.{
  ℕ, ◌+◌, ◌<◌, ◌^◌, ◌≡◌, refl, false, not, Option, none, some, List, [], ◌∷◌, arith, ◌==◌, ap, ◌∙◌,
  if◌then◌else◌,
}
use go_syncstorage.Prelude.Int.{pos}
use go_syncstorage.Prelude.Text.{Text, codes, text_eq, text_eq_refl}
use go_syncstorage.Strconv.{itoa}
use go_syncstorage.Storage.Data.{BsoRow, CollectionRow, Tables, ok}
use go_syncstorage.Storage.Driver.{World, exec, query, now}
use go_syncstorage.Storage.Driver.Reliable.{IsReliable, time_of, transaction-ok}
use go_syncstorage.Storage.Keys.{
  lookup, storage_last_modified, replace_key, set_key, touch_rows, touch_collection, touch_storage,
  last_modified, lookup-replace_key,
}
use go_syncstorage.Storage.Keys.Touch.{last_modified-ok, last_modified_same}
use go_syncstorage.Storage.Bso.{matches, find_row, keep_rows}
use go_syncstorage.Storage.Collections.{
  find_collection, has_id, modified_or_zero, get_collection_modified, delete_collection,
  delete_everything,
}

abbrev emptied : ℕ → List BsoRow → List BsoRow
emptied c rows = keep_rows (λ r. not (r.collection_id == c)) rows

find_row-emptied :
    (c d : ℕ) (j : Text) (rows : List BsoRow)
    → find_row (matches d j) (emptied c rows)
      ≡ (if d == c then none else find_row (matches d j) rows)
unfolding find_row keep_rows
find_row-emptied c d j [] = ground arith
find_row-emptied c d j (r ∷ rows) = ground (arith, find_row-emptied c d j rows)

find_id-touch_rows_self :
    (c m : ℕ) (rows : List CollectionRow)
    → modified_or_zero (find_collection (has_id c) (touch_rows c m rows))
      ≡ elim (find_collection (has_id c) rows) [ none ↦ 0 | some _ ↦ m ]
unfolding find_collection touch_rows
find_id-touch_rows_self c m [] = refl
find_id-touch_rows_self c m (r ∷ rows) = ground (arith, find_id-touch_rows_self c m rows)

zero_either_way : (o : Option CollectionRow) → elim o as (λ _. ℕ) [ none ↦ 0 | some _ ↦ 0 ] ≡ 0
zero_either_way none = refl
zero_either_way (some c) = refl

abbrev removed_tables : ℕ → ℕ → Tables → Tables
removed_tables c m t =
    replace_key storage_last_modified (itoa (pos m))
      (record t { bso = emptied c t.bso; collections = touch_rows c 0 t.collections })

delete_collection-ok :
    (c : ℕ) (w : World)
    → IsReliable w
    → delete_collection c w ≡ (
      ok (time_of w),
      record w {
        tables = removed_tables c (time_of w) w.tables;
        calls = w.calls + 1 + 1 + 1 + 1 + 1;
        readings = w.readings + 1;
      },
    )
unfolding delete_collection touch_collection touch_storage set_key now exec
delete_collection-ok c w h =
    transaction-ok _ w
      (record w {
        tables = removed_tables c (time_of w) w.tables;
        calls = w.calls + 1 + 1 + 1 + 1;
        readings = w.readings + 1;
      })
      (time_of w) h h
      (rw (h (w.calls + 1), h (w.calls + 1 + 1), h (w.calls + 1 + 1 + 1), if◌then◌else◌) refl)

lookup-removed_tables :
    (c m : ℕ) (t : Tables)
    → lookup storage_last_modified (removed_tables c m t).key_values ≡ some (itoa (pos m))
lookup-removed_tables c m t =
    rw (lookup-replace_key storage_last_modified storage_last_modified (itoa (pos m)) _)
      (rw (text_eq_refl storage_last_modified) refl)

bso-removed_tables : (c m : ℕ) (t : Tables) → (removed_tables c m t).bso ≡ emptied c t.bso
unfolding replace_key
bso-removed_tables c m t = refl

collections-removed_tables :
    (c m : ℕ) (t : Tables) → (removed_tables c m t).collections ≡ touch_rows c 0 t.collections
unfolding replace_key
collections-removed_tables c m t = refl

-- DeleteCollection, while the driver works, removes the BSOs of the collection and no other, sets
-- the time of the collection to 0, and returns the time at which the storage was last modified.
pub delete_collection_lem :
    (c : ℕ) (w : World)
    → IsReliable w
    → time_of w < 2 ^ 63
    → let (r, w') = delete_collection c w in
      (r ≡ ok (time_of w))
      × ((d : ℕ) (j : Text)
          → find_row (matches d j) w'.tables.bso
            ≡ (if d == c then none else find_row (matches d j) w.tables.bso))
      × ((get_collection_modified c w').0 ≡ ok 0)
      × ((last_modified w').0 ≡ ok (pos (time_of w)))
unfolding get_collection_modified query
delete_collection_lem c w h fits = rw (delete_collection-ok c w h) (
  refl,
  λ d j. rw (bso-removed_tables c (time_of w) w.tables) (find_row-emptied c d j w.tables.bso),
  rw (h (w.calls + 1 + 1 + 1 + 1 + 1), if◌then◌else◌)
      (ap (λ (n : ℕ). ok n)
        (ap (λ cs. modified_or_zero (find_collection (has_id c) cs))
            (collections-removed_tables c (time_of w) w.tables)
          ∙ find_id-touch_rows_self c 0 w.tables.collections
          ∙ zero_either_way (find_collection (has_id c) w.tables.collections))),
  last_modified-ok (time_of w) _ h fits (lookup-removed_tables c (time_of w) w.tables),
)

-- The key under which the time of DeleteEverything is kept is another than that of LastModified.
other_key : text_eq (codes "DELETE_EVERYTHING_DATE") storage_last_modified ≡ false
unfolding text_eq
other_key = refl

abbrev cleared_tables : Text → Tables → Tables
cleared_tables date t = replace_key (codes "DELETE_EVERYTHING_DATE") date (record t { bso = [] })

delete_everything-ok :
    (date : Text) (w : World)
    → IsReliable w
    → delete_everything date w
      ≡ (ok tt, record w { tables = cleared_tables date w.tables; calls = w.calls + 1 + 1 + 1 })
unfolding delete_everything exec
delete_everything-ok date w h =
    rw (h w.calls, h (w.calls + 1), h (w.calls + 1 + 1), if◌then◌else◌) refl

lookup-cleared_tables :
    (date : Text) (t : Tables)
    → lookup storage_last_modified (cleared_tables date t).key_values
      ≡ lookup storage_last_modified t.key_values
lookup-cleared_tables date t =
    rw (lookup-replace_key (codes "DELETE_EVERYTHING_DATE") storage_last_modified date _)
      (rw (other_key, if◌then◌else◌) refl)

-- DeleteEverything, while the driver works, removes every BSO. It leaves the collections with their
-- times, and the time at which the storage was last modified, as they were.
pub delete_everything_lem :
    (date : Text) (w : World)
    → IsReliable w
    → let (r, w') = delete_everything date w in
      (r ≡ ok tt)
      × (w'.tables.bso ≡ [])
      × (w'.tables.collections ≡ w.tables.collections)
      × ((last_modified w').0 ≡ (last_modified w).0)
unfolding replace_key
delete_everything_lem date w h = rw (delete_everything-ok date w h) (
  refl,
  refl,
  refl,
  last_modified_same w
      (record w { tables = cleared_tables date w.tables; calls = w.calls + 1 + 1 + 1 }) h h
      (lookup-cleared_tables date w.tables),
)
