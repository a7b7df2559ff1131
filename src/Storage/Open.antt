-- ===== src/Storage/Open.antt =====
-- syncstorage/db.go: OpenWithConfig. A file without a schema gets the two schemas, one that only
-- has the first gets the second. Here an error of Commit is returned.
pub mod Schemas
pub mod Migration
use go_syncstorage.Prelude.{
  ℕ, ◌+◌, Bool, true, false, ◌||◌, Option, none, some, List, [], ◌∷◌, ◌++◌, ◌==◌, if◌then◌else◌,
  max,
}
use go_syncstorage.Prelude.Int.{ℤ}
use go_syncstorage.Prelude.Text.{Text, codes}
use go_syncstorage.Storage.Data.{
  CollectionRow, Tables, Result, ok, err, driver_failure, constraint_violated, named,
}
use go_syncstorage.Storage.Driver.{World, M, pure, ◌>>=◌, ◌>>◌, exec, query, step}
use go_syncstorage.Storage.Bso.{is_some}
use go_syncstorage.Storage.Collections.{find_collection, is_named, has_id}

-- PRAGMA schema_version, which is 0 in a new file and grows with the schema, and PRAGMA user_version
pub record Versions : Type 0 where
  pub schema : ℕ
  pub user : ℕ

-- The end of a transaction whose Commit and Rollback are looked at
unfoldable pub finish_checked : {A : Type 0} → Tables → Result A → World → Result A × World
finish_checked t (ok a) w =
    if w.fails w.calls then (err driver_failure, record (step w) { tables = t }) else (ok a, step w)
finish_checked t (err e) w =
    if w.fails w.calls
    then (err driver_failure, record (step w) { tables = t })
    else (err e, record (step w) { tables = t })

unfoldable pub checked_transaction : {A : Type 0} → M A → M A
unfolding finish_checked
checked_transaction m w =
    if w.fails w.calls
    then (err driver_failure, step w)
    else finish_checked w.tables (m (step w)).0 (m (step w)).1

-- The tables that SCHEMA_0 makes in a new file
unfoldable pub schema_0_tables : Tables
schema_0_tables = record {
  bso = [];
  collections =
      named 1 "clients"
      ∷ named 2 "crypto"
      ∷ named 3 "forms"
      ∷ named 4 "history"
      ∷ named 5 "keys"
      ∷ named 6 "meta"
      ∷ named 7 "bookmarks"
      ∷ named 8 "prefs"
      ∷ named 9 "tabs"
      ∷ named 10 "passwords"
      ∷ named 11 "addons"
      ∷ named 99 "-push-"
      ∷ [];
  batches = [];
  key_values = (codes "SCHEMA_VERSION", codes "0") ∷ [];
  last_collection_id = 99;
  last_batch_id = 0;
}

-- INSERT INTO Collections (Id, Name), with its two keys, and AUTOINCREMENT
unfoldable pub insert_with_id : CollectionRow → Tables → Result Tables
insert_with_id c t =
    if is_some (find_collection (is_named c.name) t.collections)
      || is_some (find_collection (has_id c.id) t.collections)
    then err constraint_violated
    else ok (record t {
      collections = t.collections ++ c ∷ [];
      last_collection_id = max t.last_collection_id c.id;
    })

abbrev pub then_insert : CollectionRow → Result Tables → Result Tables
then_insert c (ok t) = insert_with_id c t
then_insert c (err e) = err e

abbrev pub as_statement : Result Tables → Result (Unit {0} × Tables)
as_statement (ok t) = ok (tt, t)
as_statement (err e) = err e

-- SCHEMA_1
unfoldable pub schema_1 : Tables → Result Tables
unfolding insert_with_id
schema_1 t = then_insert (named 13 "creditcards") (then_insert (named 12 "addresses") (ok t))

-- The PRAGMAs for the page size, the journal and, with a configuration, the cache
unfoldable pub set_pragmas : Bool → M (Unit {0})
set_pragmas configured = do
  exec (λ t. ok (tt, t))
  exec (λ t. ok (tt, t))
  if configured then exec (λ t. ok (tt, t)) else pure tt

-- The part of OpenWithConfig after the schema version was read; `made` is the version that SQLite
-- gives the new schema
unfoldable pub open_schema : ℕ → Versions → M Versions
unfolding checked_transaction schema_1 schema_0_tables
open_schema made v =
    if v.schema == 0
    then (do
      checked_transaction (exec (λ t. as_statement (schema_1 schema_0_tables)))
      pure (record { schema = made; user = 2 }))
    else (do
      user ← query (λ t. ok v.user)
      if user == 0
          then (do
            checked_transaction (exec (λ t. as_statement (schema_1 t)))
            pure (record v { user = 2 }))
          else pure v)

-- OpenWithConfig: the versions of the file if it succeeds; if not, they stay
unfoldable pub open_with_config : Bool → ℕ → Versions → M Versions
unfolding set_pragmas open_schema
open_with_config configured made v = do
  set_pragmas configured
  schema ← query (λ t. ok v.schema)
  open_schema made (record v { schema = schema })
