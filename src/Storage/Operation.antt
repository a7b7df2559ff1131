-- ===== src/Storage/Operation.antt =====
-- The operations of *DB that write, as data, and a history of them.
pub mod Writes
pub mod Methods
pub mod Invariant
pub mod Atomic
use go_syncstorage.Prelude.{ℕ, Option, List, [], ◌∷◌}
use go_syncstorage.Prelude.Int.{ℤ}
use go_syncstorage.Prelude.Text.{Text}
use go_syncstorage.Storage.Data.{PutBsoInput}
use go_syncstorage.Storage.Driver.{World, M, pure, ◌>>=◌, ◌>>◌}
use go_syncstorage.Storage.Keys
use go_syncstorage.Storage.Bso
use go_syncstorage.Storage.Erase
use go_syncstorage.Storage.Collections
use go_syncstorage.Storage.Batch

pub data Operation : Type 0 where
  put_bso : ℕ → Text → Option Text → Option ℤ → Option ℤ → Operation
  post_bsos : ℕ → List PutBsoInput → Operation
  delete_bsos : ℕ → Text → List Text → Operation
  purge_expired : Operation
  create_collection : Text → Operation
  delete_collection : ℕ → Operation
  delete_everything : Text → Operation
  touch_collection : ℕ → ℕ → Operation
  set_key : Text → Text → Operation
  batch_create : ℕ → Text → Operation
  batch_append : ℕ → ℕ → Text → Operation
  batch_remove : ℕ → Operation
  batch_purge : ℤ → Operation

abbrev pub ignore : {A : Type 0} → M A → M (Unit {0})
ignore m = m >>= λ _. pure tt

unfoldable pub perform : Operation → M (Unit {0})
perform (put_bso c i payload sort_index ttl) = ignore (Bso.put_bso c i payload sort_index ttl)
perform (post_bsos c input) = ignore (Bso.post_bsos c input)
perform (delete_bsos c i ids) = ignore (Erase.delete_bsos c i ids)
perform purge_expired = ignore Erase.purge_expired
perform (create_collection name) = ignore (Collections.create_collection name)
perform (delete_collection c) = ignore (Collections.delete_collection c)
perform (delete_everything date) = Collections.delete_everything date
perform (touch_collection c m) = Keys.touch_collection_and_storage c m
perform (set_key k v) = Keys.set_key k v
perform (batch_create c text) = ignore (Batch.batch_create c text)
perform (batch_append i c text) = Batch.batch_append i c text
perform (batch_remove i) = Batch.batch_remove i
perform (batch_purge ttl) = ignore (Batch.batch_purge ttl)

-- Each operation starts from what the one before has left, whether that one failed or not.
unfoldable pub perform_all : List Operation → World → World
perform_all [] w = w
perform_all (o ∷ os) w = perform_all os (perform o w).1
