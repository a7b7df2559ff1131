-- ===== src/Storage/Batch.antt =====
-- syncstorage/db_batch.go: uploads that are collected before they are committed.
pub mod Invariant
pub mod Upload
use go_syncstorage.Prelude.{
  ℕ, suc, ◌+◌, Bool, ◌&&◌, not, Option, none, some, List, [], ◌∷◌, ◌++◌, ◌==◌, if◌then◌else◌,
}
use go_syncstorage.Prelude.Int.{ℤ, sub_ℕ, le_int}
use go_syncstorage.Prelude.Text.{Text}
use go_syncstorage.Storage.Data.{BatchRow, Tables, Result, ok, err, batch_not_found}
use go_syncstorage.Storage.Driver.{M, pure, throw, ◌>>=◌, exec, query, now, transaction}
use go_syncstorage.Storage.Bso.{is_some}

-- WHERE Id=? AND CollectionId=?
abbrev pub is_batch : ℕ → ℕ → BatchRow → Bool
is_batch id collection b = b.id == id && b.collection_id == collection

unfoldable pub find_batch : (BatchRow → Bool) → List BatchRow → Option BatchRow
find_batch p [] = none
find_batch p (b ∷ rows) = if p b then some b else find_batch p rows

unfoldable pub keep_batches : (BatchRow → Bool) → List BatchRow → List BatchRow
keep_batches p [] = []
keep_batches p (b ∷ rows) = let rest = keep_batches p rows in if p b then b ∷ rest else rest

unfoldable pub count_batches : (BatchRow → Bool) → List BatchRow → ℕ
count_batches p [] = 0
count_batches p (b ∷ rows) = let n = count_batches p rows in if p b then suc n else n

unfoldable pub update_batches :
    (BatchRow → Bool) → (BatchRow → BatchRow) → List BatchRow → List BatchRow
update_batches p f [] = []
update_batches p f (b ∷ rows) = (if p b then f b else b) ∷ update_batches p f rows

unfoldable pub insert_batch : ℕ → ℕ → Text → Tables → Result (ℕ × Tables)
insert_batch collection modified text t =
    let id = t.last_batch_id + 1 in
    ok (
      id,
      record t {
        batches =
            (record { id = id; collection_id = collection; modified = modified; bsos = text })
            ∷ t.batches;
        last_batch_id = id;
      },
    )

-- BatchCreate
unfoldable pub batch_create : ℕ → Text → M ℕ
batch_create collection text = transaction do time ← now; exec (insert_batch collection time text)

abbrev pub appended : ℕ → Text → BatchRow → BatchRow
appended time text b = record b { modified = time; bsos = b.bsos ++ text }

-- BatchAppend; no affected row is an error.
unfoldable pub batch_append : ℕ → ℕ → Text → M (Unit {0})
batch_append id collection text = transaction do
  time ← now
  affected ← exec (λ t. ok (
    count_batches (is_batch id collection) t.batches,
    record t { batches = update_batches (is_batch id collection) (appended time text) t.batches },
  ))
  if affected == 0 then throw batch_not_found else pure tt

-- BatchExists
unfoldable pub batch_exists : ℕ → ℕ → M Bool
batch_exists id collection =
    query (λ t. ok (is_some (find_batch (is_batch id collection) t.batches)))

abbrev pub batch_or_not_found : Option BatchRow → Result BatchRow
batch_or_not_found none = err batch_not_found
batch_or_not_found (some b) = ok b

-- BatchLoad
unfoldable pub batch_load : ℕ → ℕ → M BatchRow
batch_load id collection =
    query (λ t. batch_or_not_found (find_batch (is_batch id collection) t.batches))

-- BatchRemove
unfoldable pub batch_remove : ℕ → M (Unit {0})
batch_remove id =
    transaction
      (exec (λ t. ok (tt, record t { batches = keep_batches (λ b. not (b.id == id)) t.batches })))

-- (? - Modified) >= ?
abbrev pub is_stale : ℕ → ℤ → BatchRow → Bool
is_stale time ttl b = le_int ttl (sub_ℕ time b.modified)

-- BatchPurge
unfoldable pub batch_purge : ℤ → M ℕ
batch_purge ttl = do
  time ← now
  exec (λ t. ok (
    count_batches (is_stale time ttl) t.batches,
    record t { batches = keep_batches (λ b. not (is_stale time ttl b)) t.batches },
  ))
