-- ===== src/Storage/Info/Quota.antt =====
-- The sums and counts of the info endpoints.
use go_syncstorage.Prelude.{
  ℕ, ◌+◌, ◌≡◌, refl, Bool, false, ◌||◌, none, List, [], ◌∷◌, arith, ◌==◌, if◌then◌else◌, length,
  inl, inr, Bool-cases,
}
use go_syncstorage.Prelude.Text.{Text}
use go_syncstorage.Storage.Data.{BsoRow, CollectionRow, ok}
use go_syncstorage.Storage.Driver.{World, query}
use go_syncstorage.Storage.Driver.Reliable.{IsReliable}
use go_syncstorage.Storage.Bso.Invariant.{RowsValid}
use go_syncstorage.Storage.Collections.{find_collection, has_id}
use go_syncstorage.Storage.Collections.Invariant.{CollectionsValid}
use go_syncstorage.Storage.Info.{
  total_size, info_quota, rows_of, per_collection, info_collection_usage, add_group,
}

-- The bytes of all payloads
unfoldable pub payload_bytes : List BsoRow → ℕ
payload_bytes [] = 0
payload_bytes (r ∷ rows) = length r.payload + payload_bytes rows

total_size-payload_bytes :
    (rows : List BsoRow) → RowsValid rows → total_size rows ≡ payload_bytes rows
unfolding total_size payload_bytes
total_size-payload_bytes [] v = refl
total_size-payload_bytes (r ∷ rows) v = omega (arith, total_size-payload_bytes rows v.2, v.0.size)

-- The sum of the numbers of a report
abbrev pub sum_of : List (Text × ℕ) → ℕ
sum_of [] = 0
sum_of ((name, n) ∷ report) = n + sum_of report

-- The BSOs of collections that exist
abbrev pub is_known : List CollectionRow → ℕ → Bool
is_known [] id = false
is_known (c ∷ cs) id = id == c.id || is_known cs id

unfoldable pub known_bytes : List CollectionRow → List BsoRow → ℕ
known_bytes cs [] = 0
known_bytes cs (r ∷ rows) =
    (if is_known cs r.collection_id then r.payload_size else 0) + known_bytes cs rows

not_known :
    (id : ℕ) (cs : List CollectionRow)
    → find_collection (has_id id) cs ≡ none
    → is_known cs id ≡ false
unfolding find_collection
not_known id [] h = refl
not_known id (c ∷ cs) h = ground (arith, not_known id cs)

one_more_collection :
    (c : CollectionRow) (cs : List CollectionRow) (rows : List BsoRow)
    → find_collection (has_id c.id) cs ≡ none
    → known_bytes (c ∷ cs) rows ≡ total_size (rows_of c.id rows) + known_bytes cs rows
unfolding known_bytes total_size rows_of
one_more_collection c cs [] h = omega arith
one_more_collection c cs (r ∷ rows) h = elim (Bool-cases (r.collection_id == c.id)) [
  | inl e ↦
      let same : r.collection_id ≡ c.id = ground arith in
      let unknown : is_known cs r.collection_id ≡ false = rw same (not_known c.id cs h) in
      ground (arith, one_more_collection c cs rows h, unknown)
  | inr e ↦ ground (arith, one_more_collection c cs rows h)
]

sum_of-add_group :
    (name : Text) (rows : List BsoRow) (report : List (Text × ℕ))
    → sum_of (add_group total_size name rows report) ≡ total_size rows + sum_of report
unfolding total_size
sum_of-add_group name [] report = omega arith
sum_of-add_group name (r ∷ rows) report = refl

known_none : (rows : List BsoRow) → known_bytes [] rows ≡ 0
unfolding known_bytes
known_none [] = refl
known_none (r ∷ rows) = omega (arith, known_none rows)

sum_of-usage :
    (last : ℕ) (cs : List CollectionRow) (rows : List BsoRow)
    → CollectionsValid last cs
    → sum_of (per_collection total_size rows cs) ≡ known_bytes cs rows
unfolding per_collection
sum_of-usage last [] rows v = rw (known_none rows) refl
sum_of-usage last (c ∷ cs) rows v = omega (
  arith,
  sum_of-add_group c.name (rows_of c.id rows) (per_collection total_size rows cs),
  sum_of-usage last cs rows v.4,
  one_more_collection c cs rows v.3,
)

-- InfoQuota, of a table whose rows are well formed and while the driver works, is the number of bytes
-- of all payloads.
pub info_quota_lem :
    (w : World)
    → IsReliable w
    → RowsValid w.tables.bso
    → (info_quota w).0 ≡ ok (payload_bytes w.tables.bso)
unfolding info_quota query
info_quota_lem w h v = rw (h w.calls, if◌then◌else◌, total_size-payload_bytes w.tables.bso v) refl

-- The sum over the collections that InfoCollectionUsage reports, while the driver works and the
-- collections are well formed, is the sum of the sizes of the BSOs whose collection exists: none is
-- counted twice.
pub info_collection_usage_lem :
    (w : World)
    → IsReliable w
    → CollectionsValid w.tables.last_collection_id w.tables.collections
    → (report : List (Text × ℕ)) × ((info_collection_usage w).0 ≡ ok report)
      × (sum_of report ≡ known_bytes w.tables.collections w.tables.bso)
unfolding info_collection_usage query
info_collection_usage_lem w h v = (
  per_collection total_size w.tables.bso w.tables.collections,
  rw (h w.calls, if◌then◌else◌) refl,
  sum_of-usage w.tables.last_collection_id w.tables.collections w.tables.bso v,
)
