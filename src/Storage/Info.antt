-- ===== src/Storage/Info.antt =====
-- syncstorage/db.go: what the info endpoints report. A map by collection name is an association
-- list, with one entry for each row of the result.
pub mod Quota
use go_syncstorage.Prelude.{ℕ, suc, ◌+◌, List, [], ◌∷◌, ◌==◌, if◌then◌else◌}
use go_syncstorage.Prelude.Text.{Text}
use go_syncstorage.Storage.Data.{BsoRow, CollectionRow, ok}
use go_syncstorage.Storage.Driver.{M, query}

unfoldable pub modified_times : List CollectionRow → List (Text × ℕ)
modified_times [] = []
modified_times (c ∷ rows) =
    let rest = modified_times rows in if c.modified == 0 then rest else (c.name, c.modified) ∷ rest

-- InfoCollections
unfoldable pub info_collections : M (List (Text × ℕ))
info_collections = query (λ t. ok (modified_times t.collections))

-- sum(PayloadSize)
unfoldable pub total_size : List BsoRow → ℕ
total_size [] = 0
total_size (r ∷ rows) = r.payload_size + total_size rows

-- InfoQuota, its first result; the sum of no row is NULL, and reads as 0.
unfoldable pub info_quota : M ℕ
info_quota = query (λ t. ok (total_size t.bso))

-- The rows of one group
unfoldable pub rows_of : ℕ → List BsoRow → List BsoRow
rows_of id [] = []
rows_of id (r ∷ rows) =
    let rest = rows_of id rows in if r.collection_id == id then r ∷ rest else rest

abbrev pub add_group : (List BsoRow → ℕ) → Text → List BsoRow → List (Text × ℕ) → List (Text × ℕ)
add_group f name [] rest = rest
add_group f name (r ∷ rows) rest = (name, f (r ∷ rows)) ∷ rest

-- The join with Collections, grouped by collection: a group has at least one row.
unfoldable pub per_collection :
    (List BsoRow → ℕ) → List BsoRow → List CollectionRow → List (Text × ℕ)
per_collection f rows [] = []
per_collection f rows (c ∷ cs) = add_group f c.name (rows_of c.id rows) (per_collection f rows cs)

-- InfoCollectionUsage
unfoldable pub info_collection_usage : M (List (Text × ℕ))
info_collection_usage = query (λ t. ok (per_collection total_size t.bso t.collections))

unfoldable pub row_count : List BsoRow → ℕ
row_count [] = 0
row_count (r ∷ rows) = suc (row_count rows)

-- InfoCollectionCounts
unfoldable pub info_collection_counts : M (List (Text × ℕ))
info_collection_counts = query (λ t. ok (per_collection row_count t.bso t.collections))
