-- ===== src/Storage/Open/Schemas.antt =====
-- syncstorage/db.go: OpenWithConfig of a new file, and the schemas.
use go_syncstorage.Prelude.{
  ℕ, ◌+◌, ◌≡◌, refl, Bool, true, false, none, some, List, [], ◌∷◌, ◌++◌, arith, max, Bool-cases,
  inl, inr,
}
use go_syncstorage.Prelude.Text.{text_eq}
use go_syncstorage.Storage.Data.{
  CollectionRow, Tables, Result, ok, err, constraint_violated, named, default_collections,
  new_tables,
}
use go_syncstorage.Storage.Driver.{World, exec, query}
use go_syncstorage.Storage.Driver.Reliable.{IsReliable}
use go_syncstorage.Storage.Collections.{find_collection, is_named, has_id}
use go_syncstorage.Storage.Open.{
  Versions, checked_transaction, finish_checked, schema_0_tables, insert_with_id, as_statement,
  schema_1, set_pragmas, open_schema, open_with_config,
}

-- The PRAGMAs count as calls and change nothing.
set_pragmas-reliable :
    (configured : Bool) (w : World)
    → IsReliable w
    → (n : ℕ) × (set_pragmas configured w ≡ (ok tt, record w { calls = n }))
unfolding set_pragmas exec
set_pragmas-reliable true w h =
    (w.calls + 1 + 1 + 1, rw (h w.calls, h (w.calls + 1), h (w.calls + 1 + 1)) refl)
set_pragmas-reliable false w h = (w.calls + 1 + 1, rw (h w.calls, h (w.calls + 1)) refl)

-- A schema change that the database accepts, and one that it refuses
pub statement-ok :
    (f : Tables → Result Tables) (w : World) (t : Tables)
    → IsReliable w
    → f w.tables ≡ ok t
    → checked_transaction (exec (λ s. as_statement (f s))) w
      ≡ (ok tt, record w { tables = t; calls = w.calls + 1 + 1 + 1 })
unfolding checked_transaction finish_checked exec
statement-ok f w t h e = rw (h w.calls, h (w.calls + 1), e, h (w.calls + 1 + 1)) refl

pub statement-err :
    (f : Tables → Result Tables) (w : World)
    → IsReliable w
    → f w.tables ≡ err constraint_violated
    → checked_transaction (exec (λ s. as_statement (f s))) w
      ≡ (err constraint_violated, record w { calls = w.calls + 1 + 1 + 1 })
unfolding checked_transaction finish_checked exec
statement-err f w h e = rw (h w.calls, h (w.calls + 1), e, h (w.calls + 1 + 1)) refl

schemas-new_tables : schema_1 schema_0_tables ≡ ok new_tables
unfolding schema_1 schema_0_tables insert_with_id find_collection text_eq new_tables
    default_collections
schemas-new_tables = refl

pub find_collection-append :
    (p : CollectionRow → Bool) (rows : List CollectionRow) (x : CollectionRow)
    → find_collection p rows ≡ none
    → p x ≡ false
    → find_collection p (rows ++ x ∷ []) ≡ none
unfolding find_collection
find_collection-append p [] x h n = rw n refl
find_collection-append p (r ∷ rows) x h n = elim (Bool-cases (p r)) [
  | inl passes ↦ absurd (ground arith)
  | inr other ↦ rw other (find_collection-append p rows x (ground arith) n)
]

-- The two rows of SCHEMA_1, and a table that has neither their names nor their ids
abbrev pub addresses : CollectionRow
addresses = named 12 "addresses"

abbrev pub creditcards : CollectionRow
creditcards = named 13 "creditcards"

pub record HasRoom (t : Tables) : Type 0 where
  pub name_12 : find_collection (is_named addresses.name) t.collections ≡ none
  pub id_12 : find_collection (has_id 12) t.collections ≡ none
  pub name_13 : find_collection (is_named creditcards.name) t.collections ≡ none
  pub id_13 : find_collection (has_id 13) t.collections ≡ none

inserted :
    (c : CollectionRow) (t : Tables)
    → find_collection (is_named c.name) t.collections ≡ none
    → find_collection (has_id c.id) t.collections ≡ none
    → insert_with_id c t
      ≡ ok (record t {
        collections = t.collections ++ c ∷ [];
        last_collection_id = max t.last_collection_id c.id;
      })
unfolding insert_with_id
inserted c t n i = rw (n, i) refl

-- The tables after SCHEMA_1
abbrev pub migrated : Tables → Tables
migrated t = record t {
  collections = (t.collections ++ addresses ∷ []) ++ creditcards ∷ [];
  last_collection_id = max (max t.last_collection_id 12) 13;
}

pub schema_1-migrated : (t : Tables) → HasRoom t → schema_1 t ≡ ok (migrated t)
unfolding schema_1
schema_1-migrated t r = rw (inserted addresses t r.name_12 r.id_12) (
    inserted creditcards _
      (find_collection-append (is_named creditcards.name) t.collections addresses r.name_13
        (unfold text_eq in refl))
      (find_collection-append (has_id 13) t.collections addresses r.id_13 refl))

pub schema_1-taken :
    (t : Tables) (c : CollectionRow)
    → find_collection (is_named addresses.name) t.collections ≡ some c
    → schema_1 t ≡ err constraint_violated
unfolding schema_1 insert_with_id
schema_1-taken t c h = rw h refl

-- What is left of OpenWithConfig behind the PRAGMAs
pub opened :
    (configured : Bool) (made : ℕ) (v : Versions) (w : World)
    → IsReliable w
    → (n : ℕ) × (open_with_config configured made v w ≡ open_schema made v (record w { calls = n }))
unfolding open_with_config query
opened configured made v w h =
    let (n, e) = set_pragmas-reliable configured w h in (n + 1, rw (e, h n) refl)

-- Opening a new file, while the driver works, makes in it the tables of a new database, and the
-- file has the latest version from then on.
pub open_with_config-new :
    (configured : Bool) (made user : ℕ) (w : World)
    → IsReliable w
    → let (r, w') = open_with_config configured made (record { schema = 0; user = user }) w in
      (r ≡ ok (record { schema = made; user = 2 })) × (w'.tables ≡ new_tables)
unfolding open_schema
open_with_config-new configured made user w h =
    let (n, e) = opened configured made (record { schema = 0; user = user }) w h in
    let s =
      statement-ok (λ t. schema_1 schema_0_tables) (record w { calls = n }) new_tables h
        schemas-new_tables in
    rw (e, s) (refl, refl)
