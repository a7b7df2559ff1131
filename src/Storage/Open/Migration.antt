-- ===== src/Storage/Open/Migration.antt =====
-- What opening does to a database of an earlier version, and to one that is up to date.
use go_syncstorage.Prelude.{
  ℕ, suc, ◌+◌, ◌≤◌, ◌≡◌, refl, Bool, true, false, none, some, List, [], ◌∷◌, ◌++◌, arith, ◌==◌, max,
  Bool-cases, inl, inr,
}
use go_syncstorage.Prelude.Text.{text_eq, text_eq-swap}
use go_syncstorage.Storage.Checks.{collection_name_ok}
use go_syncstorage.Storage.Data.{CollectionRow, Tables, ok, err, constraint_violated}
use go_syncstorage.Storage.Driver.{World, query}
use go_syncstorage.Storage.Driver.Reliable.{IsReliable}
use go_syncstorage.Storage.Collections.{find_collection, is_named, has_id}
use go_syncstorage.Storage.Collections.Invariant.{CollectionsValid}
use go_syncstorage.Storage.Open.{Versions, schema_1, open_schema, open_with_config}
use go_syncstorage.Storage.Open.Schemas.{
  addresses, creditcards, HasRoom, migrated, find_collection-append, statement-ok, statement-err,
  schema_1-migrated, schema_1-taken, opened,
}

-- A row with a new name and a new id, behind valid rows
CollectionsValid-append :
    (last last' : ℕ) (rows : List CollectionRow) (x : CollectionRow)
    → CollectionsValid last rows
    → last ≤ last'
    → x.id ≤ last'
    → collection_name_ok x.name ≡ true
    → find_collection (is_named x.name) rows ≡ none
    → find_collection (has_id x.id) rows ≡ none
    → CollectionsValid last' (rows ++ x ∷ [])
unfolding find_collection
CollectionsValid-append last last' [] x v l b n f g = (b, n, refl, refl, tt)
CollectionsValid-append last last' (r ∷ rows) x (b', n', f', g', v) l b n f g =
    elim (Bool-cases (is_named x.name r)) [
      | inl same ↦ absurd (ground arith)
      | inr other ↦ elim (Bool-cases (has_id x.id r)) [
        | inl same ↦ absurd (ground arith)
        | inr apart ↦ (
          omega arith,
          n',
          find_collection-append (is_named r.name) rows x f' (text_eq-swap _ _ other),
          find_collection-append (has_id r.id) rows x g' (ground arith),
          CollectionsValid-append last last' rows x v l b n (ground arith) (ground arith),
        )
      ]
    ]

-- The migration keeps the collections well formed.
migrated-CollectionsValid :
    (t : Tables)
    → HasRoom t
    → CollectionsValid t.last_collection_id t.collections
    → CollectionsValid (migrated t).last_collection_id (migrated t).collections
unfolding collection_name_ok
migrated-CollectionsValid t r v =
    CollectionsValid-append (max t.last_collection_id 12) _ (t.collections ++ addresses ∷ [])
      creditcards
      (CollectionsValid-append t.last_collection_id _ t.collections addresses v (omega arith)
        (omega arith) refl r.name_12 r.id_12)
      (omega arith) (omega arith) refl
      (find_collection-append (is_named creditcards.name) t.collections addresses r.name_13
        (unfold text_eq in refl))
      (find_collection-append (has_id 13) t.collections addresses r.id_13 refl)

nonzero : (n : ℕ) → (suc n == 0) ≡ false
nonzero n = ground arith

-- The versions of a database that has the second schema
abbrev pub current : ℕ → ℕ → Versions
current n u = record { schema = suc n; user = suc u }

-- Opening a database that has only the first schema, while the driver works, adds the collections
-- `addresses` and `creditcards` and changes nothing else, if no row has their names or ids; well
-- formed collections stay so, and the file has the latest version from then on.
pub open_with_config-migrates :
    (configured : Bool) (made n : ℕ) (w : World)
    → IsReliable w
    → HasRoom w.tables
    → CollectionsValid w.tables.last_collection_id w.tables.collections
    → let (r, w') = open_with_config configured made (record { schema = suc n; user = 0 }) w in
      (r ≡ ok (record { schema = suc n; user = 2 }))
      × (w'.tables ≡ migrated w.tables)
      × CollectionsValid w'.tables.last_collection_id w'.tables.collections
unfolding open_schema query
open_with_config-migrates configured made n w h r v =
    let (k, e) = opened configured made (record { schema = suc n; user = 0 }) w h in
    let s =
      statement-ok schema_1 (record w { calls = k + 1 }) (migrated w.tables) h
        (schema_1-migrated w.tables r) in
    rw (e, nonzero n, h k, s) (refl, refl, migrated-CollectionsValid w.tables r v)

-- A database that has only the first schema and a collection named `addresses`, which a user could
-- make, does not open, while the driver works: the migration is refused, and changes nothing.
pub open_with_config-taken :
    (configured : Bool) (made n : ℕ) (c : CollectionRow) (w : World)
    → IsReliable w
    → find_collection (is_named addresses.name) w.tables.collections ≡ some c
    → let (r, w') = open_with_config configured made (record { schema = suc n; user = 0 }) w in
      (r ≡ err constraint_violated) × (w'.tables ≡ w.tables)
unfolding open_schema query
open_with_config-taken configured made n c w h f =
    let (k, e) = opened configured made (record { schema = suc n; user = 0 }) w h in
    let s = statement-err schema_1 (record w { calls = k + 1 }) h (schema_1-taken w.tables c f) in
    rw (e, nonzero n, h k, s) (refl, refl)

-- Opening a database that is up to date, while the driver works, changes nothing.
pub open_with_config-again :
    (configured : Bool) (made n u : ℕ) (w : World)
    → IsReliable w
    → let (r, w') = open_with_config configured made (current n u) w in
      (r ≡ ok (current n u)) × (w'.tables ≡ w.tables)
unfolding open_schema query
open_with_config-again configured made n u w h =
    let (k, e) = opened configured made (current n u) w h in
    rw (e, nonzero n, h k, nonzero u) (refl, refl)
