-- ===== src/Storage/Keys.antt =====
-- syncstorage/db.go: the table KeyValues, and the last-modified times of the storage and of a
-- collection.
pub mod Touch
use go_syncstorage.Prelude.{ℕ, ◌≡◌, Option, none, some, List, [], ◌∷◌, arith, ◌==◌, if◌then◌else◌}
use go_syncstorage.Prelude.Int.{ℤ, pos}
use go_syncstorage.Prelude.Text.{Text, codes, text_eq, text_eq_iff}
use go_syncstorage.Strconv.{itoa, parse_int}
use go_syncstorage.Storage.Data.{CollectionRow, Tables, ok, not_a_number}
use go_syncstorage.Storage.Driver.{M, pure, throw, ◌>>=◌, ◌>>◌, exec, query}

unfoldable pub lookup : Text → List (Text × Text) → Option Text
lookup k [] = none
lookup k ((j, v) ∷ l) = if text_eq j k then some v else lookup k l

unfoldable pub without : Text → List (Text × Text) → List (Text × Text)
without k [] = []
without k ((j, v) ∷ l) = let rest = without k l in if text_eq j k then rest else (j, v) ∷ rest

-- STORAGE_LAST_MODIFIED
abbrev pub storage_last_modified : Text
storage_last_modified = codes "Storage Last Modified"

-- INSERT OR REPLACE INTO KeyValues
unfoldable pub replace_key : Text → Text → Tables → Tables
replace_key k v t = record t { key_values = (k, v) ∷ without k t.key_values }

-- setKey, SetKey
unfoldable pub set_key : Text → Text → M (Unit {0})
set_key k v = exec (λ t. ok (tt, replace_key k v t))

-- A missing key reads as the empty string.
abbrev pub value_or_empty : Option Text → Text
value_or_empty none = []
value_or_empty (some v) = v

-- getKey, GetKey
unfoldable pub get_key : Text → M Text
get_key k = query (λ t. ok (value_or_empty (lookup k t.key_values)))

abbrev pub or_not_a_number : Option ℤ → M ℤ
or_not_a_number none = throw not_a_number
or_not_a_number (some n) = pure n

abbrev pub timestamp_of : Text → M ℤ
timestamp_of [] = pure (pos 0)
timestamp_of (c ∷ s) = or_not_a_number (parse_int (c ∷ s))

-- LastModified
unfoldable pub last_modified : M ℤ
last_modified = do value ← get_key storage_last_modified; timestamp_of value

-- UPDATE Collections SET modified=? WHERE Id=?
unfoldable pub touch_rows : ℕ → ℕ → List CollectionRow → List CollectionRow
touch_rows collection modified [] = []
touch_rows collection modified (c ∷ rows) =
    (if c.id == collection then record c { modified = modified } else c)
    ∷ touch_rows collection modified rows

-- touchCollection
unfoldable pub touch_collection : ℕ → ℕ → M (Unit {0})
touch_collection collection modified =
    exec (λ t. ok (tt, record t { collections = touch_rows collection modified t.collections }))

-- touchStorage
unfoldable pub touch_storage : ℕ → M (Unit {0})
touch_storage modified = set_key storage_last_modified (itoa (pos modified))

-- touchCollectionAndStorage, TouchCollection
unfoldable pub touch_collection_and_storage : ℕ → ℕ → M (Unit {0})
touch_collection_and_storage collection modified = do
  touch_collection collection modified
  touch_storage modified

pub lookup-without :
    (k j : Text) (l : List (Text × Text))
    → lookup j (without k l) ≡ (if text_eq k j then none else lookup j l)
unfolding lookup without
lookup-without k j [] = ground arith
lookup-without k j ((i, v) ∷ l) =
    ground (arith, lookup-without k j l, text_eq_iff i k, text_eq_iff i j, text_eq_iff k j)

pub lookup-replace_key :
    (k j v : Text) (t : Tables)
    → lookup j (replace_key k v t).key_values
      ≡ (if text_eq k j then some v else lookup j t.key_values)
unfolding lookup replace_key
lookup-replace_key k j v t = ground (arith, lookup-without k j t.key_values)
