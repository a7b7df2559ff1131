-- ===== src/Tests/Open.antt =====
-- Opening files of each version.
use go_syncstorage.Prelude.{◌≡◌, refl, false, [], ◌∷◌, arith}
use go_syncstorage.Prelude.Text.{text_eq}
use go_syncstorage.Storage.Checks.{collection_name_ok}
use go_syncstorage.Storage.Data.{CollectionRow, named, ok, err, constraint_violated}
use go_syncstorage.Storage.Driver.{World}
use go_syncstorage.Storage.Collections.{find_collection}
use go_syncstorage.Storage.Collections.Invariant.{CollectionsValid}
use go_syncstorage.Storage.Open.{schema_0_tables, open_with_config}
use go_syncstorage.Storage.Open.Schemas.{HasRoom, migrated}
use go_syncstorage.Storage.Open.Migration.{open_with_config-migrates, open_with_config-taken}
use go_syncstorage.Tests.Data.{start}

abbrev old : World
old = record start { tables = schema_0_tables }

old-HasRoom : HasRoom old.tables
unfolding schema_0_tables find_collection text_eq
old-HasRoom = record { name_12 = refl; id_12 = refl; name_13 = refl; id_13 = refl }

old-CollectionsValid : CollectionsValid old.tables.last_collection_id old.tables.collections
unfolding schema_0_tables collection_name_ok find_collection text_eq
old-CollectionsValid = ground arith

open_with_config-migrates_example :
    let (r, w') = open_with_config false 0 (record { schema = 5; user = 0 }) old in
    (r ≡ ok (record { schema = 5; user = 2 }))
    × (w'.tables ≡ migrated old.tables)
    × CollectionsValid w'.tables.last_collection_id w'.tables.collections
open_with_config-migrates_example =
    open_with_config-migrates false 0 4 old (λ k. refl) old-HasRoom old-CollectionsValid

abbrev own : CollectionRow
own = named 100 "addresses"

abbrev taken : World
taken = record old { tables = record old.tables { collections = own ∷ [] } }

open_with_config-taken_example :
    let (r, w') = open_with_config false 0 (record { schema = 5; user = 0 }) taken in
    (r ≡ err constraint_violated) × (w'.tables ≡ taken.tables)
unfolding find_collection text_eq
open_with_config-taken_example = open_with_config-taken false 0 4 own taken (λ k. refl) refl
