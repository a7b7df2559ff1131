-- ===== src/Tests/Bso.antt =====
-- The BSOs of concrete databases.
use go_syncstorage.Prelude.{
  ℕ, ◌≡◌, refl, ◌&&◌, none, some, List, [], ◌∷◌, arith, ◌==◌, if◌then◌else◌,
}
use go_syncstorage.Prelude.Int.{pos, negsuc}
use go_syncstorage.Prelude.Text.{Text, codes, text_eq}
use go_syncstorage.Storage.Checks.{now_of, bso_id_ok, sort_index_ok, ttl_ok}
use go_syncstorage.Storage.Data.{PutBsoInput, ok, nothing_to_do}
use go_syncstorage.Storage.Driver.Reliable.{time_of}
use go_syncstorage.Storage.Keys.{last_modified}
use go_syncstorage.Storage.Bso.{matches, find_row, refusal, put_bso, post_bsos, get_bso}
use go_syncstorage.Storage.Erase.{delete_bsos, purge_expired}
use go_syncstorage.Storage.Bso.Rows.{is_deleted}
use go_syncstorage.Storage.Bso.Put.{merged}
use go_syncstorage.Storage.Bso.PutGet.{while_live, put_bso_lem, get_bso-put_bso}
use go_syncstorage.Storage.Bso.Post.{accepted_ids, add_refused, row_after, post_bsos_lem}
use go_syncstorage.Storage.Bso.Live.{passing}
use go_syncstorage.Storage.Erase.Kept.{is_live, delete_bsos_lem, purge_expired_lem}
use go_syncstorage.Storage.Operation.Invariant.{new_tables-IsValid}
use go_syncstorage.Tests.Data.{start, id, one_bso, one_bso-RowsValid}

put_bso_lem_example :
    let (r, w') = put_bso 7 id (some (codes "hello")) (some (negsuc 4)) none start in
    (r ≡ ok (time_of start))
    × ((d : ℕ) (j : Text)
        → find_row (matches d j) w'.tables.bso ≡ (
            if 7 == d && text_eq id j
            then some (
                merged 7 id
                  (time_of start)
                  (some (codes "hello"))
                  (some (negsuc 4))
                  none
                  (find_row (matches 7 id) start.tables.bso))
            else find_row (matches d j) start.tables.bso))
    × ((last_modified w').0 ≡ ok (pos (time_of start)))
unfolding refusal bso_id_ok sort_index_ok now_of
put_bso_lem_example =
    put_bso_lem 7 id (some (codes "hello")) (some (negsuc 4)) none start (λ k. refl) refl
      (omega arith)

get_bso-put_bso_example :
    let w' = (put_bso 7 id (some (codes "hello")) none (some (pos 1000)) start).1 in
    (get_bso 7 id w').0
    ≡ while_live (time_of w') (
        some (
          merged 7 id
            (time_of start)
            (some (codes "hello"))
            none
            (some (pos 1000))
            (find_row (matches 7 id) start.tables.bso)))
unfolding refusal bso_id_ok sort_index_ok ttl_ok
get_bso-put_bso_example =
    get_bso-put_bso 7 id (some (codes "hello")) none (some (pos 1000)) start (λ k. refl)
      new_tables-IsValid refl

-- The second item is refused: it gives nothing.
abbrev items : List PutBsoInput
items =
    (record { id = id; payload = some (codes "1"); ttl = none; sort_index = none })
    ∷ (record { id = codes "x"; payload = none; ttl = none; sort_index = none })
    ∷ (record { id = id; payload = some (codes "22"); ttl = none; sort_index = some (pos 9) })
    ∷ []

post_bsos_lem_example :
    let (r, w') = post_bsos 7 items start in
    (r
      ≡ ok (record {
        modified = time_of start;
        success = accepted_ids items;
        failed = add_refused items [];
      }))
    × ((j : Text)
        → find_row (matches 7 j) w'.tables.bso
          ≡ row_after 7 j (time_of start) items (find_row (matches 7 j) start.tables.bso))
    × ((last_modified w').0 ≡ ok (pos (time_of start)))
unfolding now_of
post_bsos_lem_example = post_bsos_lem 7 items start (λ k. refl) (omega arith)

items_outcome :
    (accepted_ids items ≡ id ∷ id ∷ []) × (add_refused items [] ≡ (codes "x", nothing_to_do) ∷ [])
unfolding accepted_ids add_refused refusal bso_id_ok sort_index_ok
items_outcome = (refl, refl)

delete_bsos_lem_example :
    let (r, w') = delete_bsos 7 id (codes "x" ∷ []) start in
    (r ≡ ok (time_of start))
    × ((d : ℕ) (j : Text)
        → find_row (matches d j) w'.tables.bso ≡ (
            if is_deleted 7 (id ∷ codes "x" ∷ []) d j
            then none
            else find_row (matches d j) start.tables.bso))
    × ((last_modified w').0 ≡ ok (pos (time_of start)))
unfolding now_of
delete_bsos_lem_example = delete_bsos_lem 7 id (codes "x" ∷ []) start (λ k. refl) (omega arith)

purge_expired_lem_example :
    find_row (matches 7 id) (purge_expired one_bso).1.tables.bso
    ≡ passing (is_live (time_of one_bso)) (find_row (matches 7 id) one_bso.tables.bso)
purge_expired_lem_example = purge_expired_lem one_bso (λ k. refl) one_bso-RowsValid 7 id
