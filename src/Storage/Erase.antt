-- ===== src/Storage/Erase.antt =====
-- syncstorage/db.go: DeleteBSO, DeleteBSOs and PurgeExpired.
pub mod Kept
use go_syncstorage.Prelude.{
  ℕ, suc, Bool, true, false, ◌&&◌, ◌||◌, not, Option, none, some, List, [], ◌∷◌, ◌++◌, ◌==◌, length,
  if◌then◌else◌,
}
use go_syncstorage.Prelude.Int.{ℤ, pos, add_int, lt_int, le_int}
use go_syncstorage.Prelude.Text.{Text, text_eq}
use go_syncstorage.Storage.Checks.{default_bso_ttl, bso_id_ok, sort_index_ok, ttl_ok}
use go_syncstorage.Storage.Data.{
  BsoRow, Tables, Bso, PutBsoInput, PostResults, Error, Result, ok, err, not_found, nothing_to_do,
  invalid_bso_id, invalid_sort_index, invalid_ttl, constraint_violated,
}
use go_syncstorage.Storage.Driver.{
  M, pure, throw, ◌>>=◌, ◌>>◌, exec, query, now, attempt, transaction,
}
use go_syncstorage.Storage.Keys.{touch_collection_and_storage}
use go_syncstorage.Storage.Bso.{keep_rows}

unfoldable pub contains : List Text → Text → Bool
contains [] id = false
contains (i ∷ ids) id = text_eq i id || contains ids id

-- DELETE FROM BSO WHERE CollectionId=? AND Id IN (…)
unfoldable pub delete_rows : ℕ → List Text → List BsoRow → List BsoRow
delete_rows collection ids rows =
    keep_rows (λ r. not (r.collection_id == collection && contains ids r.id)) rows

-- DeleteBSOs, of at least one id: the code panics without any.
unfoldable pub delete_bsos : ℕ → Text → List Text → M ℕ
delete_bsos collection id ids = transaction do
  exec (λ t. ok (tt, record t { bso = delete_rows collection (id ∷ ids) t.bso }))
  modified ← now
  touch_collection_and_storage collection modified
  pure modified

-- DeleteBSO
unfoldable pub delete_bso : ℕ → Text → M ℕ
delete_bso collection id = delete_bsos collection id []

-- RowsAffected of a DELETE
unfoldable pub count_rows : (BsoRow → Bool) → List BsoRow → ℕ
count_rows p [] = 0
count_rows p (r ∷ rows) = let n = count_rows p rows in if p r then suc n else n

-- PurgeExpired
unfoldable pub purge_expired : M ℕ
purge_expired = do
  time ← now
  exec (λ t. ok (
    count_rows (λ r. le_int r.ttl (pos time)) t.bso,
    record t { bso = keep_rows (λ r. not (le_int r.ttl (pos time))) t.bso },
  ))
