-- ===== src/Tests/Collections.antt =====
-- Collections, searches and sums on concrete databases.
use mathlib.Core.List.{Perm}
use go_syncstorage.Prelude.{◌∷◌, ℕ, ◌+◌, ◌≡◌, refl, none, [], arith, ◌==◌, if◌then◌else◌}
use go_syncstorage.Prelude.Int.{pos}
use go_syncstorage.Prelude.Text.{Text, codes, text_eq}
use go_syncstorage.Storage.Checks.{now_of, collection_name_ok}
use go_syncstorage.Storage.Data.{default_collections, ok, new_tables, SortType}
use go_syncstorage.Storage.Driver.Reliable.{time_of}
use go_syncstorage.Storage.Keys.{last_modified}
use go_syncstorage.Storage.Bso.{matches, find_row, keep_rows}
use go_syncstorage.Storage.Collections.{
  has_id, find_collection, common_ids, lookup_id, get_collection_id, get_collection_modified,
  create_collection, delete_collection,
}
use go_syncstorage.Storage.Collections.Invariant.{CollectionsValid}
use go_syncstorage.Storage.Collections.Create.{id_or, create_collection_lem}
use go_syncstorage.Storage.Collections.Remove.{delete_collection_lem}
use go_syncstorage.Storage.Search.{get_bsos, selected, wanted}
use go_syncstorage.Storage.Search.Order.{IsSorted}
use go_syncstorage.Storage.Search.Pages.{page, get_bsos_lem}
use go_syncstorage.Tests.Data.{start, one_bso}

get_bsos_lem_example :
    let rows =
      selected 7 []
        (pos 1600000000000)
        (pos 0)
        SortType.sort_index
        (time_of one_bso)
        one_bso.tables.bso in
    ((get_bsos 7 [] (pos 1600000000000) (pos 0) SortType.sort_index (pos 10) (pos 0) one_bso).0
      ≡ ok (page 10 0 rows))
    × IsSorted SortType.sort_index rows
    × Perm rows
        (keep_rows (wanted 7 [] (pos 1600000000000) (pos 0) (time_of one_bso)) one_bso.tables.bso)
get_bsos_lem_example =
    get_bsos_lem 7 [] (pos 1600000000000) 0 SortType.sort_index 10 0 one_bso (λ k. refl)
      (omega arith)

start-CollectionsValid : CollectionsValid start.tables.last_collection_id start.tables.collections
unfolding new_tables default_collections find_collection collection_name_ok text_eq
start-CollectionsValid = ground arith

create_collection_lem_example :
    let id = start.tables.last_collection_id + 1 in
    let (r, w') = create_collection (codes "col-1") start in
    (r ≡ ok id)
    × (find_collection (has_id id) start.tables.collections ≡ none)
    × (w'.tables.collections
        ≡ (record { id = id; name = codes "col-1"; modified = time_of start })
          ∷ start.tables.collections)
    × ((get_collection_id (codes "col-1") w').0
        ≡ ok (id_or (lookup_id (codes "col-1") common_ids) id))
    × ((get_collection_modified id w').0 ≡ ok (time_of start))
unfolding collection_name_ok new_tables find_collection text_eq
create_collection_lem_example =
    create_collection_lem (codes "col-1") start (λ k. refl) start-CollectionsValid refl refl

delete_collection_lem_example :
    let (r, w') = delete_collection 7 one_bso in
    (r ≡ ok (time_of one_bso))
    × ((d : ℕ) (j : Text)
        → find_row (matches d j) w'.tables.bso
          ≡ (if d == 7 then none else find_row (matches d j) one_bso.tables.bso))
    × ((get_collection_modified 7 w').0 ≡ ok 0)
    × ((last_modified w').0 ≡ ok (pos (time_of one_bso)))
unfolding now_of
delete_collection_lem_example = delete_collection_lem 7 one_bso (λ k. refl) (omega arith)
