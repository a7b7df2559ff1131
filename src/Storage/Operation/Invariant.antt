-- ===== src/Storage/Operation/Invariant.antt =====
-- syncstorage/db.go: histories of operations, and the well-formed database.
use go_syncstorage.Prelude.{◌≡◌, List, [], ◌∷◌, arith}
use go_syncstorage.Storage.Checks.{collection_name_ok}
use go_syncstorage.Storage.Data.{new_tables}
use go_syncstorage.Storage.Driver.{World, M}
use go_syncstorage.Storage.Driver.Keeps.{Keeps, Keeps-pure, Keeps-bind}
use go_syncstorage.Storage.Operation.{Operation, perform, perform_all, ignore}
use go_syncstorage.Storage.Collections.{find_collection}
use go_syncstorage.Prelude.Text.{text_eq}
use go_syncstorage.Storage.Operation.Writes.{IsValid, touch-IsValid, set_key-IsValid}
use go_syncstorage.Storage.Operation.Methods.{
  put_bso-IsValid, post_bsos-IsValid, delete_bsos-IsValid, purge_expired-IsValid,
  create_collection-IsValid, delete_collection-IsValid, delete_everything-IsValid,
  batch_create-IsValid, batch_append-IsValid, batch_remove-IsValid, batch_purge-IsValid,
}

ignore-IsValid : {A : Type 0} (m : M A) → Keeps IsValid m → Keeps IsValid (ignore m)
ignore-IsValid m k = Keeps-bind m _ k (λ _. Keeps-pure tt)

-- Every operation keeps the database well formed, whether it succeeds, is refused or fails half-way
-- because the driver did.
pub perform-IsValid : (o : Operation) → Keeps IsValid (perform o)
unfolding perform
perform-IsValid (Operation.put_bso c i payload sort_index ttl) =
    ignore-IsValid _ (put_bso-IsValid c i payload sort_index ttl)
perform-IsValid (Operation.post_bsos c input) = ignore-IsValid _ (post_bsos-IsValid c input)
perform-IsValid (Operation.delete_bsos c i ids) = ignore-IsValid _ (delete_bsos-IsValid c i ids)
perform-IsValid Operation.purge_expired = ignore-IsValid _ purge_expired-IsValid
perform-IsValid (Operation.create_collection name) =
    ignore-IsValid _ (create_collection-IsValid name)
perform-IsValid (Operation.delete_collection c) = ignore-IsValid _ (delete_collection-IsValid c)
perform-IsValid (Operation.delete_everything date) = delete_everything-IsValid date
perform-IsValid (Operation.touch_collection c m) = touch-IsValid c m
perform-IsValid (Operation.set_key k v) = set_key-IsValid k v
perform-IsValid (Operation.batch_create c text) = ignore-IsValid _ (batch_create-IsValid c text)
perform-IsValid (Operation.batch_append id c text) = batch_append-IsValid id c text
perform-IsValid (Operation.batch_remove id) = batch_remove-IsValid id
perform-IsValid (Operation.batch_purge ttl) = ignore-IsValid _ (batch_purge-IsValid ttl)

perform_all_from :
    (os : List Operation) (w : World) → IsValid w.tables → IsValid (perform_all os w).tables
unfolding perform_all
perform_all_from [] w h = h
perform_all_from (o ∷ os) w h = perform_all_from os (perform o w).1 ((perform-IsValid o).at w h)

pub new_tables-IsValid : IsValid new_tables
unfolding new_tables collection_name_ok find_collection text_eq
new_tables-IsValid = record { rows = tt; collections = ground arith; batches = tt }

-- From a new database, whatever operations are made and whichever calls of the driver fail, the
-- database stays well formed: a BSO has one row, with a proper id and sort index and the size of its
-- payload; names and ids of collections and ids of batches are unique.
pub perform_all-IsValid :
    (os : List Operation) (w : World) → w.tables ≡ new_tables → IsValid (perform_all os w).tables
perform_all-IsValid os w e = perform_all_from os w (rw e new_tables-IsValid)
