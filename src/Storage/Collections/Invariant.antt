-- ===== src/Storage/Collections/Invariant.antt =====
-- What holds of every table Collections that this package has written.
use go_syncstorage.Prelude.{ℕ, ◌+◌, ◌≤◌, ◌≡◌, refl, true, none, List, [], ◌∷◌, arith}
use go_syncstorage.Prelude.Text.{Text}
use go_syncstorage.Storage.Checks.{collection_name_ok}
use go_syncstorage.Storage.Data.{CollectionRow, Tables, ok}
use go_syncstorage.Storage.Keys.{touch_rows}
use go_syncstorage.Storage.Collections.{find_collection, is_named, has_id, insert_collection}

-- Names are proper, ids are at most the last one given out, and no two rows share either.
abbrev pub CollectionsValid : ℕ → List CollectionRow → Type 0
CollectionsValid last [] = Unit
CollectionsValid last (c ∷ rows) =
    (c.id ≤ last)
    × (collection_name_ok c.name ≡ true)
    × (find_collection (is_named c.name) rows ≡ none)
    × (find_collection (has_id c.id) rows ≡ none)
    × CollectionsValid last rows

find_named-touch_rows :
    (c m : ℕ) (name : Text) (rows : List CollectionRow)
    → find_collection (is_named name) rows ≡ none
    → find_collection (is_named name) (touch_rows c m rows) ≡ none
unfolding find_collection touch_rows
find_named-touch_rows c m name [] h = refl
find_named-touch_rows c m name (r ∷ rows) h = ground (arith, find_named-touch_rows c m name rows)

find_id-touch_rows :
    (c m id : ℕ) (rows : List CollectionRow)
    → find_collection (has_id id) rows ≡ none
    → find_collection (has_id id) (touch_rows c m rows) ≡ none
unfolding find_collection touch_rows
find_id-touch_rows c m id [] h = refl
find_id-touch_rows c m id (r ∷ rows) h = ground (arith, find_id-touch_rows c m id rows)

pub touch_rows-CollectionsValid :
    (last c m : ℕ) (rows : List CollectionRow)
    → CollectionsValid last rows
    → CollectionsValid last (touch_rows c m rows)
unfolding touch_rows
touch_rows-CollectionsValid last c m [] v = tt
touch_rows-CollectionsValid last c m (r ∷ rows) v = ground (
  arith,
  find_named-touch_rows c m r.name rows,
  find_id-touch_rows c m r.id rows,
  touch_rows-CollectionsValid last c m rows,
)

later-CollectionsValid :
    (last : ℕ) (rows : List CollectionRow)
    → CollectionsValid last rows
    → CollectionsValid (last + 1) rows
later-CollectionsValid last [] v = tt
later-CollectionsValid last (r ∷ rows) v = ground (arith, later-CollectionsValid last rows)

pub find_later_id :
    (last : ℕ) (rows : List CollectionRow)
    → CollectionsValid last rows
    → find_collection (has_id (last + 1)) rows ≡ none
unfolding find_collection
find_later_id last [] v = refl
find_later_id last (r ∷ rows) v = ground (arith, find_later_id last rows)

abbrev pub with_collection : Text → ℕ → Tables → Tables
with_collection name m t = record t {
  collections =
      (record { id = t.last_collection_id + 1; name = name; modified = m }) ∷ t.collections;
  last_collection_id = t.last_collection_id + 1;
}

-- An INSERT that is accepted has added a collection under a new name and a new id.
pub insert_collection-ok :
    (name : Text) (m : ℕ) (t : Tables) (id : ℕ) (t' : Tables)
    → insert_collection name m t ≡ ok (id, t')
    → (find_collection (is_named name) t.collections ≡ none)
      × (id ≡ t.last_collection_id + 1)
      × (t' ≡ with_collection name m t)
unfolding insert_collection
insert_collection-ok name m t id t' h = (ground arith, ground arith, ground arith)

pub with_collection-CollectionsValid :
    (name : Text) (m : ℕ) (t : Tables)
    → collection_name_ok name ≡ true
    → find_collection (is_named name) t.collections ≡ none
    → CollectionsValid t.last_collection_id t.collections
    → CollectionsValid (t.last_collection_id + 1) (with_collection name m t).collections
with_collection-CollectionsValid name m t n fresh v = (
  omega arith,
  n,
  fresh,
  find_later_id t.last_collection_id t.collections v,
  later-CollectionsValid t.last_collection_id t.collections v,
)
