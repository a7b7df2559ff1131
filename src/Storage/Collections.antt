-- ===== src/Storage/Collections.antt =====
-- syncstorage/db.go: collections, and the operations on a whole collection or the whole storage.
pub mod Invariant
pub mod Create
pub mod Remove
use go_syncstorage.Prelude.{ℕ, Bool, ◌+◌, Option, none, some, List, [], ◌∷◌, ◌==◌, if◌then◌else◌}
use go_syncstorage.Prelude.Text.{Text, codes, text_eq}
use go_syncstorage.Storage.Checks.{collection_name_ok}
use go_syncstorage.Storage.Data.{
  CollectionRow, Tables, Result, ok, err, not_found, invalid_collection_name, constraint_violated,
}
use go_syncstorage.Storage.Driver.{M, pure, throw, ◌>>=◌, ◌>>◌, exec, query, now, transaction}
use go_syncstorage.Storage.Keys.{replace_key, touch_collection, touch_storage}
use go_syncstorage.Storage.Bso.{keep_rows, is_some}
use go_syncstorage.Prelude.{not}

unfoldable pub find_collection : (CollectionRow → Bool) → List CollectionRow → Option CollectionRow
find_collection p [] = none
find_collection p (c ∷ rows) = if p c then some c else find_collection p rows

abbrev pub is_named : Text → CollectionRow → Bool
is_named name c = text_eq c.name name

abbrev pub has_id : ℕ → CollectionRow → Bool
has_id id c = c.id == id

-- The names that GetCollectionId knows without the database
unfoldable pub common_ids : List (Text × ℕ)
common_ids =
    (codes "clients", 1)
    ∷ (codes "crypto", 2)
    ∷ (codes "forms", 3)
    ∷ (codes "history", 4)
    ∷ (codes "keys", 5)
    ∷ (codes "meta", 6)
    ∷ (codes "bookmarks", 7)
    ∷ (codes "prefs", 8)
    ∷ (codes "tabs", 9)
    ∷ (codes "passwords", 10)
    ∷ (codes "addons", 11)
    ∷ (codes "addresses", 12)
    ∷ (codes "creditcards", 13)
    ∷ []

unfoldable pub lookup_id : Text → List (Text × ℕ) → Option ℕ
lookup_id name [] = none
lookup_id name ((n, id) ∷ l) = if text_eq n name then some id else lookup_id name l

abbrev pub id_or_not_found : Option CollectionRow → Result ℕ
id_or_not_found none = err not_found
id_or_not_found (some c) = ok c.id

-- GetCollectionId behind its switch
unfoldable pub select_collection_id : Text → M ℕ
select_collection_id name =
    if collection_name_ok name
    then query (λ t. id_or_not_found (find_collection (is_named name) t.collections))
    else throw invalid_collection_name

abbrev pub or_else : Option ℕ → M ℕ → M ℕ
or_else none m = m
or_else (some id) m = pure id

-- GetCollectionId
unfoldable pub get_collection_id : Text → M ℕ
get_collection_id name = or_else (lookup_id name common_ids) (select_collection_id name)

abbrev pub modified_or_zero : Option CollectionRow → ℕ
modified_or_zero none = 0
modified_or_zero (some c) = c.modified

-- GetCollectionModified
unfoldable pub get_collection_modified : ℕ → M ℕ
get_collection_modified id =
    query (λ t. ok (modified_or_zero (find_collection (has_id id) t.collections)))

-- INSERT INTO Collections, whose Name is UNIQUE; the new id is behind every id so far.
unfoldable pub insert_collection : Text → ℕ → Tables → Result (ℕ × Tables)
insert_collection name modified t =
    let id = t.last_collection_id + 1 in
    if is_some (find_collection (is_named name) t.collections)
    then err constraint_violated
    else ok (
      id,
      record t {
        collections = (record { id = id; name = name; modified = modified }) ∷ t.collections;
        last_collection_id = id;
      },
    )

-- CreateCollection
unfoldable pub create_collection : Text → M ℕ
create_collection name =
    if collection_name_ok name
    then transaction (do modified ← now; exec (insert_collection name modified))
    else throw invalid_collection_name

-- DeleteCollection
unfoldable pub delete_collection : ℕ → M ℕ
delete_collection id = transaction do
  exec (λ t. ok (tt, record t { bso = keep_rows (λ r. not (r.collection_id == id)) t.bso }))
  touch_collection id 0
  modified ← now
  touch_storage modified
  pure modified

-- DeleteEverything, at the time `date` in the format RFC 3339: three statements, no transaction.
unfoldable pub delete_everything : Text → M (Unit {0})
delete_everything date = do
  exec (λ t. ok (tt, record t { bso = [] }))
  exec (λ t. ok (tt, replace_key (codes "DELETE_EVERYTHING_DATE") date t))
  exec (λ t. ok (tt, t))
