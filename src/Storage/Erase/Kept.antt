-- ===== src/Storage/Erase/Kept.antt =====
-- DeleteBSOs and PurgeExpired.
use go_syncstorage.Prelude.{ℕ, ◌+◌, ◌<◌, ◌^◌, ◌≡◌, refl, Bool, not, none, List, ◌∷◌, if◌then◌else◌}
use go_syncstorage.Prelude.Int.{pos, le_int}
use go_syncstorage.Prelude.Text.{Text}
use go_syncstorage.Storage.Data.{BsoRow, Tables, ok}
use go_syncstorage.Storage.Driver.{World, exec, now, step}
use go_syncstorage.Storage.Driver.Reliable.{IsReliable, time_of, transaction-ok, exec_reliable}
use go_syncstorage.Storage.Keys.{last_modified}
use go_syncstorage.Storage.Keys.Touch.{touched_tables, touch-ok, last_modified-ok}
use go_syncstorage.Storage.Bso.{matches, find_row}
use go_syncstorage.Storage.Erase.{delete_rows, delete_bsos, purge_expired}
use go_syncstorage.Storage.Bso.Rows.{is_deleted, find_row-delete_rows}
use go_syncstorage.Storage.Bso.Invariant.{RowsValid}
use go_syncstorage.Storage.Bso.Live.{passing, find_row-keep_rows}
use go_syncstorage.Storage.Keys.Touch.{bso-touched_tables, lookup-touched_tables}

abbrev deleted_tables : ℕ → List Text → Tables → Tables
deleted_tables c ids t = record t { bso = delete_rows c ids t.bso }

abbrev after_delete : ℕ → List Text → World → World
after_delete c ids w = record w {
  tables = touched_tables c (time_of w) (deleted_tables c ids w.tables);
  calls = w.calls + 1 + 1 + 1 + 1;
  readings = w.readings + 1;
}

delete_bsos-ok :
    (c : ℕ) (i : Text) (ids : List Text) (w : World)
    → IsReliable w
    → delete_bsos c i ids w ≡ (ok (time_of w), step (after_delete c (i ∷ ids) w))
unfolding delete_bsos now
delete_bsos-ok c i ids w h = transaction-ok _ w (after_delete c (i ∷ ids) w) (time_of w) h h (
    rw (exec_reliable (λ t. ok (tt, deleted_tables c (i ∷ ids) t)) (step w) h) (
      rw
        (touch-ok c (time_of w)
          (record w {
            tables = deleted_tables c (i ∷ ids) w.tables;
            calls = w.calls + 1 + 1;
            readings = w.readings + 1;
          })
          h)
        refl))

-- DeleteBSOs, while the driver works, removes the BSOs of the collection whose ids are listed and no
-- other, and returns the time at which the storage was last modified.
pub delete_bsos_lem :
    (c : ℕ) (i : Text) (ids : List Text) (w : World)
    → IsReliable w
    → time_of w < 2 ^ 63
    → let (r, w') = delete_bsos c i ids w in
      (r ≡ ok (time_of w))
      × ((d : ℕ) (j : Text)
          → find_row (matches d j) w'.tables.bso
            ≡ (if is_deleted c (i ∷ ids) d j then none else find_row (matches d j) w.tables.bso))
      × ((last_modified w').0 ≡ ok (pos (time_of w)))
delete_bsos_lem c i ids w h fits = rw (delete_bsos-ok c i ids w h) (
  refl,
  λ d j.
      rw (bso-touched_tables c (time_of w) _) (find_row-delete_rows c (i ∷ ids) d j w.tables.bso),
  last_modified-ok (time_of w) _ h fits (lookup-touched_tables c (time_of w) _),
)

-- A row that has not expired at the time
abbrev pub is_live : ℕ → BsoRow → Bool
is_live time r = not (le_int r.ttl (pos time))

-- PurgeExpired, of a table with one row for a key and while the driver works, leaves of each key
-- the row that has not expired by the time of the clock, and only that.
pub purge_expired_lem :
    (w : World)
    → IsReliable w
    → RowsValid w.tables.bso
    → (c : ℕ) (i : Text)
    → find_row (matches c i) (purge_expired w).1.tables.bso
      ≡ passing (is_live (time_of w)) (find_row (matches c i) w.tables.bso)
unfolding purge_expired now exec
purge_expired_lem w h v c i =
    rw (h w.calls, if◌then◌else◌) (find_row-keep_rows c i (is_live (time_of w)) w.tables.bso v)
