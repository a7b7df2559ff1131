-- ===== src/Storage/Collections/Create.antt =====
-- syncstorage/db.go: GetCollectionId and CreateCollection, the ids of collections.
use go_syncstorage.Storage.Collections.Invariant.{with_collection, CollectionsValid, find_later_id}
use go_syncstorage.Prelude.{
  ap, ◌∷◌, ℕ, ◌+◌, ◌≡◌, refl, true, false, Option, none, some, arith, if◌then◌else◌,
}
use go_syncstorage.Prelude.Text.{Text, codes, text_eq, text_eq_iff, text_eq_refl}
use go_syncstorage.Storage.Checks.{collection_name_ok}
use go_syncstorage.Storage.Data.{CollectionRow, ok, default_collections}
use go_syncstorage.Storage.Driver.{World, exec, query, now}
use go_syncstorage.Storage.Driver.Reliable.{IsReliable, time_of, transaction-ok}
use go_syncstorage.Storage.Collections.{
  find_collection, is_named, has_id, common_ids, lookup_id, select_collection_id, get_collection_id,
  or_else, get_collection_modified, insert_collection, create_collection,
}

abbrev pub id_of : Option CollectionRow → Option ℕ
id_of none = none
id_of (some c) = some c.id

push_name_alone :
    (name : Text)
    → text_eq (codes "-push-") name ≡ true
    → (text_eq (codes "addresses") name ≡ false) × (text_eq (codes "creditcards") name ≡ false)
push_name_alone name h =
    rw (← ((text_eq_iff (codes "-push-") name).0 h)) (unfold text_eq in (refl, refl))

-- The ids that GetCollectionId returns without reading the database are those that a new database
-- has for these names.
pub common_ids_lem :
    (name : Text) (id : ℕ)
    → lookup_id name common_ids ≡ some id
    → id_of (find_collection (is_named name) default_collections) ≡ some id
unfolding lookup_id common_ids find_collection default_collections
common_ids_lem name id h = ground (arith, push_name_alone name)

create_collection-ok :
    (name : Text) (w : World)
    → IsReliable w
    → collection_name_ok name ≡ true
    → find_collection (is_named name) w.tables.collections ≡ none
    → create_collection name w ≡ (
      ok (w.tables.last_collection_id + 1),
      record w {
        tables = with_collection name (time_of w) w.tables;
        calls = w.calls + 1 + 1 + 1;
        readings = w.readings + 1;
      },
    )
unfolding create_collection insert_collection now exec
create_collection-ok name w h proper fresh =
    rw (proper, if◌then◌else◌)
      (transaction-ok _ w
        (record w {
          tables = with_collection name (time_of w) w.tables;
          calls = w.calls + 1 + 1;
          readings = w.readings + 1;
        })
        (w.tables.last_collection_id + 1) h h (rw (h (w.calls + 1), if◌then◌else◌, fresh) refl))

-- The id that GetCollectionId returns for a name without reading the database, or the given one
abbrev pub id_or : Option ℕ → ℕ → ℕ
id_or none id = id
id_or (some common) id = common

get_collection_id-created :
    (o : Option ℕ) (name : Text) (w : World)
    → lookup_id name common_ids ≡ o
    → IsReliable w
    → collection_name_ok name ≡ true
    → find_collection (is_named name) w.tables.collections ≡ none
    → (get_collection_id name (create_collection name w).1).0
      ≡ ok (id_or o (w.tables.last_collection_id + 1))
unfolding get_collection_id select_collection_id query find_collection
get_collection_id-created none name w e h proper fresh =
    rw (create_collection-ok name w h proper fresh)
      (rw (e, or_else, proper, if◌then◌else◌, h (w.calls + 1 + 1 + 1), text_eq_refl name) refl)
get_collection_id-created (some common) name w e h proper fresh =
    rw (create_collection-ok name w h proper fresh) (rw (e, or_else) refl)

-- CreateCollection of a proper name that no collection has, in a well-formed database and while the
-- driver works, returns an id that no collection had, and under which the database then has the
-- collection with its name and the time of the clock. Right after it GetCollectionId returns that id
-- for the name, or the one that it knows without the database if the name is a common one, and the
-- collection of the new id was last modified at the time of its creation.
pub create_collection_lem :
    (name : Text) (w : World)
    → IsReliable w
    → CollectionsValid w.tables.last_collection_id w.tables.collections
    → collection_name_ok name ≡ true
    → find_collection (is_named name) w.tables.collections ≡ none
    → let id = w.tables.last_collection_id + 1 in
      let (r, w') = create_collection name w in
      (r ≡ ok id)
      × (find_collection (has_id id) w.tables.collections ≡ none)
      × (w'.tables.collections
          ≡ (record { id = id; name = name; modified = time_of w }) ∷ w.tables.collections)
      × ((get_collection_id name w').0 ≡ ok (id_or (lookup_id name common_ids) id))
      × ((get_collection_modified id w').0 ≡ ok (time_of w))
unfolding get_collection_modified query find_collection
create_collection_lem name w h valid proper fresh = (
  ap (λ x. x.0) (create_collection-ok name w h proper fresh),
  find_later_id w.tables.last_collection_id w.tables.collections valid,
  ap (λ x. x.1.tables.collections) (create_collection-ok name w h proper fresh),
  get_collection_id-created (lookup_id name common_ids) name w refl h proper fresh,
  rw (create_collection-ok name w h proper fresh) (ground (arith, h (w.calls + 1 + 1 + 1))),
)
