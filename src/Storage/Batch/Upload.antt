-- ===== src/Storage/Batch/Upload.antt =====
-- A batch is created, appended to, loaded and purged.
use go_syncstorage.Prelude.{
  ℕ, ◌+◌, ◌≡◌, ◌≢◌, refl, Bool, true, false, ◌&&◌, Option, none, some, List, [], ◌∷◌, arith, ◌==◌,
  if◌then◌else◌,
}
use go_syncstorage.Prelude.Text.{Text}
use go_syncstorage.Storage.Data.{BatchRow, Tables, ok, err, batch_not_found}
use go_syncstorage.Storage.Driver.{World, exec, query, now, transaction, finish}
use go_syncstorage.Storage.Driver.Reliable.{IsReliable, time_of, transaction-ok}
use go_syncstorage.Storage.Batch.{
  is_batch, find_batch, count_batches, update_batches, insert_batch, batch_create, appended,
  batch_append, batch_load,
}
use go_syncstorage.Storage.Batch.Invariant.{with_batch}

count_found :
    (p : BatchRow → Bool) (rows : List BatchRow) (b : BatchRow)
    → find_batch p rows ≡ some b
    → (count_batches p rows == 0) ≡ false
unfolding find_batch count_batches
count_found p [] b h = ground arith
count_found p (r ∷ rows) b h = ground (arith, count_found p rows b)

count_absent :
    (p : BatchRow → Bool) (rows : List BatchRow)
    → find_batch p rows ≡ none
    → (count_batches p rows == 0) ≡ true
unfolding find_batch count_batches
count_absent p [] h = refl
count_absent p (r ∷ rows) h = ground (arith, count_absent p rows)

abbrev pub appended_if : Bool → ℕ → Text → Option BatchRow → Option BatchRow
appended_if true m text (some b) = some (appended m text b)
appended_if _ m text o = o

pub find_batch-append :
    (i c j d m : ℕ) (text : Text) (rows : List BatchRow)
    → find_batch (is_batch j d) (update_batches (is_batch i c) (appended m text) rows)
      ≡ appended_if (i == j && c == d) m text (find_batch (is_batch j d) rows)
unfolding find_batch update_batches
find_batch-append i c j d m text [] = ground arith
find_batch-append i c j d m text (b ∷ rows) = ground (arith, find_batch-append i c j d m text rows)

abbrev pub with_appended : ℕ → ℕ → ℕ → Text → Tables → Tables
with_appended i c m text t = record t {
  batches = update_batches (is_batch i c) (appended m text) t.batches;
}

pub batch_append-ok :
    (i c : ℕ) (text : Text) (w : World) (b : BatchRow)
    → IsReliable w
    → find_batch (is_batch i c) w.tables.batches ≡ some b
    → batch_append i c text w ≡ (
      ok tt,
      record w {
        tables = with_appended i c (time_of w) text w.tables;
        calls = w.calls + 1 + 1 + 1;
        readings = w.readings + 1;
      },
    )
unfolding batch_append now exec
batch_append-ok i c text w b h found =
    transaction-ok _ w
      (record w {
        tables = with_appended i c (time_of w) text w.tables;
        calls = w.calls + 1 + 1;
        readings = w.readings + 1;
      })
      tt h h
      (rw (h (w.calls + 1), if◌then◌else◌, count_found (is_batch i c) w.tables.batches b found)
        refl)

-- BatchAppend to a batch of the collection, while the driver works, puts the text behind what the
-- batch holds and sets its time; every other batch loads as before.
pub batch_append_lem :
    (i c : ℕ) (text : Text) (w : World) (b : BatchRow)
    → IsReliable w
    → find_batch (is_batch i c) w.tables.batches ≡ some b
    → let (r, w') = batch_append i c text w in
      (r ≡ ok tt)
      × ((batch_load i c w').0 ≡ ok (appended (time_of w) text b))
      × ((j d : ℕ) → (i == j && c == d) ≡ false → (batch_load j d w').0 ≡ (batch_load j d w).0)
unfolding batch_load query
batch_append_lem i c text w b h found = rw (batch_append-ok i c text w b h found) (
  refl,
  ground
      (arith, h (w.calls + 1 + 1 + 1), find_batch-append i c i c (time_of w) text w.tables.batches),
  λ j d other. ground (
    arith,
    h w.calls,
    h (w.calls + 1 + 1 + 1),
    find_batch-append i c j d (time_of w) text w.tables.batches,
  ),
)

-- BatchAppend to a batch that the collection does not have, while the driver works, is an error and
-- leaves the database as it was.
pub batch_append-absent :
    (i c : ℕ) (text : Text) (w : World)
    → IsReliable w
    → find_batch (is_batch i c) w.tables.batches ≡ none
    → let (r, w') = batch_append i c text w in (r ≡ err batch_not_found) × (w'.tables ≡ w.tables)
unfolding batch_append now exec transaction finish
batch_append-absent i c text w h absent =
    rw
      (
        h w.calls,
        h (w.calls + 1),
        if◌then◌else◌,
        count_absent (is_batch i c) w.tables.batches absent,
      )
      (refl, refl)

pub batch_create-ok :
    (c : ℕ) (text : Text) (w : World)
    → IsReliable w
    → batch_create c text w ≡ (
      ok (w.tables.last_batch_id + 1),
      record w {
        tables = with_batch c (time_of w) text w.tables;
        calls = w.calls + 1 + 1 + 1;
        readings = w.readings + 1;
      },
    )
unfolding batch_create insert_batch now exec
batch_create-ok c text w h =
    transaction-ok _ w
      (record w {
        tables = with_batch c (time_of w) text w.tables;
        calls = w.calls + 1 + 1;
        readings = w.readings + 1;
      })
      (w.tables.last_batch_id + 1) h h (rw (h (w.calls + 1), if◌then◌else◌) refl)

-- BatchCreate, while the driver works, returns a new id, under which its text is loaded; every batch
-- with another id loads as before.
pub batch_create_lem :
    (c : ℕ) (text : Text) (w : World)
    → IsReliable w
    → let id = w.tables.last_batch_id + 1 in
      let (r, w') = batch_create c text w in
      (r ≡ ok id)
      × ((batch_load id c w').0
          ≡ ok (record { id = id; collection_id = c; modified = time_of w; bsos = text }))
      × ((j d : ℕ) → j ≢ id → (batch_load j d w').0 ≡ (batch_load j d w).0)
unfolding batch_load query find_batch
batch_create_lem c text w h = rw (batch_create-ok c text w h) (
  refl,
  ground (arith, h (w.calls + 1 + 1 + 1)),
  λ j d other. ground (arith, h w.calls, h (w.calls + 1 + 1 + 1)),
)
