-- ===== src/Storage/Data.antt =====
-- The tables of syncstorage/schemas.go, and the structs and errors of syncstorage/*.go.
use Prim.Native.String.{String}
use go_syncstorage.Prelude.{ℕ, Bool, Option, List, [], ◌∷◌}
use go_syncstorage.Prelude.Int.{ℤ}
use go_syncstorage.Prelude.Text.{Text, codes}

-- A row of BSO; times are in milliseconds, and `ttl` is the time at which the row expires.
pub record BsoRow : Type 0 where
  pub collection_id : ℕ
  pub id : Text
  pub sort_index : ℤ
  pub payload : Text
  pub payload_size : ℕ
  pub modified : ℕ
  pub ttl : ℤ

-- A row of Collections
pub record CollectionRow : Type 0 where
  pub id : ℕ
  pub name : Text
  pub modified : ℕ

-- A row of Batches
pub record BatchRow : Type 0 where
  pub id : ℕ
  pub collection_id : ℕ
  pub modified : ℕ
  pub bsos : Text

-- The database of one user. The last two fields are the counters of AUTOINCREMENT.
pub record Tables : Type 0 where
  pub bso : List BsoRow
  pub collections : List CollectionRow
  pub batches : List BatchRow
  pub key_values : List (Text × Text)
  pub last_collection_id : ℕ
  pub last_batch_id : ℕ

-- Errors of this package, and those of the database driver
pub data Error : Type 0 where
  not_found nothing_to_do : Error
  invalid_bso_id invalid_collection_name invalid_sort_index invalid_ttl : Error
  invalid_limit invalid_offset invalid_newer : Error
  batch_not_found : Error
  not_a_number : Error
  -- an error of the driver; a violated UNIQUE or PRIMARY KEY
  driver_failure constraint_violated : Error
  -- a panic: the rows of a query that failed are nil, and are closed
  nil_rows : Error

pub data Result {ℓ} (A : Type ℓ) : Type ℓ where
  ok : A → Result A
  err : Error → Result A

-- BSO
pub record Bso : Type 0 where
  pub id : Text
  pub modified : ℕ
  pub payload : Text
  pub sort_index : ℤ
  pub ttl : ℤ

-- PutBSOInput
pub record PutBsoInput : Type 0 where
  pub id : Text
  pub payload : Option Text
  pub ttl : Option ℤ
  pub sort_index : Option ℤ

-- PostResults; the map of failures is a list with the newest entry in front
pub record PostResults : Type 0 where
  pub modified : ℕ
  pub success : List Text
  pub failed : List (Text × Error)

-- GetResults
pub record GetResults : Type 0 where
  pub bsos : List Bso
  pub more : Bool
  pub offset : ℤ

-- SortType
pub data SortType : Type 0 where
  sort_none sort_newest sort_oldest sort_index : SortType

abbrev pub named : ℕ → String → CollectionRow
named id name = record { id = id; name = codes name; modified = 0 }

-- The rows that SCHEMA_0 and SCHEMA_1 insert into Collections
unfoldable pub default_collections : List CollectionRow
default_collections =
    named 1 "clients"
    ∷ named 2 "crypto"
    ∷ named 3 "forms"
    ∷ named 4 "history"
    ∷ named 5 "keys"
    ∷ named 6 "meta"
    ∷ named 7 "bookmarks"
    ∷ named 8 "prefs"
    ∷ named 9 "tabs"
    ∷ named 10 "passwords"
    ∷ named 11 "addons"
    ∷ named 99 "-push-"
    ∷ named 12 "addresses"
    ∷ named 13 "creditcards"
    ∷ []

-- A new database: SCHEMA_0 followed by SCHEMA_1. The highest id inserted is 99.
unfoldable pub new_tables : Tables
unfolding default_collections
new_tables = record {
  bso = [];
  collections = default_collections;
  batches = [];
  key_values = (codes "SCHEMA_VERSION", codes "0") ∷ [];
  last_collection_id = 99;
  last_batch_id = 0;
}
