-- ===== src/Tests/Batch.antt =====
-- Batches, histories and the formats of numbers, at concrete inputs.
use go_syncstorage.Prelude.{
  ◌+◌, ◌/◌, ◌%◌, ◌<◌, ◌≤◌, ◌≡◌, refl, true, none, some, List, [], ◌∷◌, ◌==◌,
}
use go_syncstorage.Prelude.Text.{codes}
use go_syncstorage.Storage.Checks.{now_of, now_of_bounds}
use go_syncstorage.Storage.Bso.{put_bso}
use go_syncstorage.Storage.Data.{driver_failure}
use go_syncstorage.Storage.Driver.{World, transaction}
use go_syncstorage.Storage.Operation.{Operation, perform, perform_all}
use go_syncstorage.Storage.Operation.Writes.{IsValid}
use go_syncstorage.Storage.Operation.Invariant.{perform_all-IsValid}
use go_syncstorage.Storage.Operation.Atomic.{perform_lem}
use go_syncstorage.Tests.Data.{start, id}

-- The third call of the driver fails.
abbrev failing : World
failing = record start { fails = λ k. k == 2 }

abbrev history : List Operation
history =
    Operation.put_bso 7 id (some (codes "a")) none none
    ∷ Operation.create_collection (codes "col-1")
    ∷ Operation.batch_create 7 (codes "{}")
    ∷ []

perform_all-IsValid_example : IsValid (perform_all history failing).tables
perform_all-IsValid_example = perform_all-IsValid history failing refl

-- The database cannot be reached.
abbrev down : World
down = record start { fails = λ k. true }

perform_lem_example :
    (perform (Operation.put_bso 7 id (some (codes "a")) none none) down).1.tables ≡ down.tables
unfolding perform put_bso transaction
perform_lem_example =
    perform_lem (Operation.put_bso 7 id (some (codes "a")) none none) down driver_failure tt refl

now_of_bounds_example :
    (now_of 1500000000001000000 % 10 ≡ 0)
    × (1500000000001000000 / 1000000 < now_of 1500000000001000000)
    × (now_of 1500000000001000000 ≤ 1500000000001000000 / 1000000 + 10)
now_of_bounds_example = now_of_bounds 1500000000001000000
