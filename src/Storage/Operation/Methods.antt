-- ===== src/Storage/Operation/Methods.antt =====
-- The methods of *DB keep the database well formed.
use go_syncstorage.Prelude.{
  ℕ, ◌≡◌, Bool, true, Option, List, inl, inr, if◌then◌else◌, Bool-cases, ◌==◌,
}
use go_syncstorage.Prelude.Int.{ℤ}
use go_syncstorage.Prelude.Text.{Text}
use go_syncstorage.Storage.Checks.{collection_name_ok}
use go_syncstorage.Storage.Data.{Tables, BsoRow, PutBsoInput}
use go_syncstorage.Storage.Driver.{exec}
use go_syncstorage.Storage.Driver.Keeps.{
  Keeps, Keeps-pure, Keeps-throw, Keeps-exec, Keeps-if, Keeps-transaction, Keeps-now, Keeps-bind,
  keeps_rules,
}
use go_syncstorage.Storage.Keys.{replace_key, touch_storage}
use go_syncstorage.Storage.Bso.{keep_rows, put_bso, post_bsos}
use go_syncstorage.Storage.Erase.{delete_rows, delete_bsos, purge_expired}
use go_syncstorage.Storage.Bso.Invariant.{keep_rows-RowsValid}
use go_syncstorage.Storage.Collections.{
  create_collection, delete_collection, delete_everything, insert_collection,
}
use go_syncstorage.Storage.Collections.Invariant.{
  insert_collection-ok, with_collection-CollectionsValid,
}
use go_syncstorage.Storage.Batch.{
  insert_batch, batch_create, batch_append, batch_remove, batch_purge,
}
use go_syncstorage.Storage.Batch.Invariant.{
  with_batch-BatchesValid, append_rows-BatchesValid, keep_batches-BatchesValid,
}
use go_syncstorage.Storage.Operation.Writes.{
  IsValid, Keeps-write, set_key-IsValid, touch_collection-IsValid, touch-IsValid,
  put_bso_tx-IsValid, post_each-IsValid,
}

pub put_bso-IsValid :
    (c : ℕ) (i : Text) (payload : Option Text) (sort_index ttl : Option ℤ)
    → Keeps IsValid (put_bso c i payload sort_index ttl)
unfolding put_bso
put_bso-IsValid c i payload sort_index ttl =
    search (keeps_rules, put_bso_tx-IsValid, touch-IsValid) depth 8

pub post_bsos-IsValid : (c : ℕ) (input : List PutBsoInput) → Keeps IsValid (post_bsos c input)
unfolding post_bsos
post_bsos-IsValid c input = search (keeps_rules, post_each-IsValid, touch-IsValid) depth 8

-- The tables with fewer rows of BSO
pub keep_rows-IsValid :
    (p : BsoRow → Bool) (t : Tables) → IsValid t → IsValid (record t { bso = keep_rows p t.bso })
keep_rows-IsValid p t h = record {
  rows = keep_rows-RowsValid p t.bso h.rows;
  collections = h.collections;
  batches = h.batches;
}

pub delete_bsos-IsValid : (c : ℕ) (i : Text) (ids : List Text) → Keeps IsValid (delete_bsos c i ids)
unfolding delete_bsos delete_rows
delete_bsos-IsValid c i ids = Keeps-transaction _ (
    Keeps-bind _ _ (Keeps-write _ _ (keep_rows-IsValid _))
      (λ _. search (keeps_rules, touch-IsValid) depth 8))

pub purge_expired-IsValid : Keeps IsValid purge_expired
unfolding purge_expired
purge_expired-IsValid = Keeps-bind _ _ Keeps-now (λ time. Keeps-write _ _ (keep_rows-IsValid _))

pub insert_collection-IsValid :
    (name : Text) (m : ℕ)
    → collection_name_ok name ≡ true
    → Keeps IsValid (exec (insert_collection name m))
insert_collection-IsValid name m n = Keeps-exec _ (λ t v id t' e.
    let (fresh, _, result) = insert_collection-ok name m t id t' e in
    rw result (record {
      rows = v.rows;
      collections = with_collection-CollectionsValid name m t n fresh v.collections;
      batches = v.batches;
    }))

pub create_collection-IsValid : (name : Text) → Keeps IsValid (create_collection name)
unfolding create_collection
create_collection-IsValid name = elim (Bool-cases (collection_name_ok name)) [
  | inl n ↦
      rw (n, if◌then◌else◌)
        (Keeps-transaction _ (Keeps-bind _ _ Keeps-now (λ m. insert_collection-IsValid name m n)))
  | inr n ↦ rw (n, if◌then◌else◌) (Keeps-throw _)
]

pub delete_collection-IsValid : (c : ℕ) → Keeps IsValid (delete_collection c)
unfolding delete_collection touch_storage
delete_collection-IsValid c = Keeps-transaction _ (
    Keeps-bind _ _ (Keeps-write _ _ (keep_rows-IsValid _))
      (λ _. search (keeps_rules, touch_collection-IsValid, set_key-IsValid) depth 10))

pub delete_everything-IsValid : (date : Text) → Keeps IsValid (delete_everything date)
unfolding delete_everything replace_key
delete_everything-IsValid date =
    Keeps-bind _ _
      (Keeps-write _ _
        (λ t h. record { rows = tt; collections = h.collections; batches = h.batches }))
      (λ _.
        Keeps-bind _ _
          (Keeps-write _ _
            (λ t h. record { rows = h.rows; collections = h.collections; batches = h.batches }))
          (λ _. Keeps-write _ _ (λ t h. h)))

pub batch_create-IsValid : (c : ℕ) (text : Text) → Keeps IsValid (batch_create c text)
unfolding batch_create insert_batch
batch_create-IsValid c text = Keeps-transaction _ (
    Keeps-bind _ _ Keeps-now (λ m. Keeps-write _ _ (λ t h. record {
      rows = h.rows;
      collections = h.collections;
      batches = with_batch-BatchesValid c m text t h.batches;
    })))

pub batch_append-IsValid : (id c : ℕ) (text : Text) → Keeps IsValid (batch_append id c text)
unfolding batch_append
batch_append-IsValid id c text = Keeps-transaction _ (
    Keeps-bind _ _ Keeps-now (λ m.
      Keeps-bind _ _
        (Keeps-write _ _ (λ t h. record {
          rows = h.rows;
          collections = h.collections;
          batches = append_rows-BatchesValid t.last_batch_id id c m text t.batches h.batches;
        }))
        (λ affected. Keeps-if (affected == 0) _ _ (Keeps-throw _) (Keeps-pure tt))))

pub batch_remove-IsValid : (id : ℕ) → Keeps IsValid (batch_remove id)
unfolding batch_remove
batch_remove-IsValid id = Keeps-transaction _ (
    Keeps-write _ _ (λ t h. record {
      rows = h.rows;
      collections = h.collections;
      batches = keep_batches-BatchesValid _ t.last_batch_id t.batches h.batches;
    }))

pub batch_purge-IsValid : (ttl : ℤ) → Keeps IsValid (batch_purge ttl)
unfolding batch_purge
batch_purge-IsValid ttl = Keeps-bind _ _ Keeps-now (λ time. Keeps-write _ _ (λ t h. record {
  rows = h.rows;
  collections = h.collections;
  batches = keep_batches-BatchesValid _ t.last_batch_id t.batches h.batches;
}))
