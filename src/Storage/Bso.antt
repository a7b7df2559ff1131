-- ===== src/Storage/Bso.antt =====
-- syncstorage/db.go: reading, writing and deleting BSOs.
pub mod Rows
pub mod Invariant
pub mod Put
pub mod Live
pub mod PutGet
pub mod Post
use go_syncstorage.Prelude.{
  ℕ, suc, Bool, true, false, ◌&&◌, ◌||◌, not, Option, none, some, List, [], ◌∷◌, ◌++◌, ◌==◌, length,
  if◌then◌else◌,
}
use go_syncstorage.Prelude.Int.{ℤ, pos, add_int, lt_int, le_int}
use go_syncstorage.Prelude.Text.{Text, text_eq}
use go_syncstorage.Storage.Checks.{default_bso_ttl, bso_id_ok, sort_index_ok, ttl_ok}
use go_syncstorage.Storage.Data.{
  BsoRow, Tables, Bso, PutBsoInput, PostResults, Error, Result, ok, err, not_found, nothing_to_do,
  invalid_bso_id, invalid_sort_index, invalid_ttl, constraint_violated,
}
use go_syncstorage.Storage.Driver.{
  M, pure, throw, ◌>>=◌, ◌>>◌, exec, query, now, attempt, transaction,
}
use go_syncstorage.Storage.Keys.{touch_collection_and_storage}

-- WHERE CollectionId=? AND Id=?
abbrev pub matches : ℕ → Text → BsoRow → Bool
matches collection id r = r.collection_id == collection && text_eq r.id id

unfoldable pub find_row : (BsoRow → Bool) → List BsoRow → Option BsoRow
find_row p [] = none
find_row p (r ∷ rows) = if p r then some r else find_row p rows

-- DELETE: the rows that are left
unfoldable pub keep_rows : (BsoRow → Bool) → List BsoRow → List BsoRow
keep_rows p [] = []
keep_rows p (r ∷ rows) = let rest = keep_rows p rows in if p r then r ∷ rest else rest

abbrev pub is_some {ℓ} : {A : Type ℓ} → Option A → Bool
is_some none = false
is_some (some a) = true

abbrev pub or_default {ℓ} : {A : Type ℓ} → Option A → A → A
or_default none d = d
or_default (some a) d = a

-- Is a value that was given refused by its check?
abbrev pub given_and_not {ℓ} : {A : Type ℓ} → (A → Bool) → Option A → Bool
given_and_not check none = false
given_and_not check (some a) = not (check a)

-- bsoExists
unfoldable pub bso_exists : ℕ → Text → M Bool
bso_exists collection id = query (λ t. ok (is_some (find_row (matches collection id) t.bso)))

-- The row of insertBSO
abbrev pub new_row : ℕ → Text → ℕ → Text → ℤ → ℤ → BsoRow
new_row collection id modified payload sort_index ttl = record {
  collection_id = collection;
  id = id;
  sort_index = sort_index;
  payload = payload;
  payload_size = length payload;
  modified = modified;
  ttl = add_int (pos modified) ttl;
}

-- INSERT INTO BSO, with its primary key
unfoldable pub insert_row : BsoRow → Tables → Result (Unit {0} × Tables)
insert_row r t =
    if is_some (find_row (matches r.collection_id r.id) t.bso)
    then err constraint_violated
    else ok (tt, record t { bso = r ∷ t.bso })

-- insertBSO
unfoldable pub insert_bso : ℕ → Text → ℕ → Text → ℤ → ℤ → M (Unit {0})
unfolding insert_row
insert_bso collection id modified payload sort_index ttl =
    exec (insert_row (new_row collection id modified payload sort_index ttl))

-- One assignment of the SET clause that updateBSO builds
pub data Assignment : Type 0 where
  set_modified : ℕ → Assignment
  set_payload : Text → ℕ → Assignment
  set_sort_index : ℤ → Assignment
  set_ttl : ℤ → Assignment

abbrev pub assign : BsoRow → Assignment → BsoRow
assign r (set_modified m) = record r { modified = m }
assign r (set_payload p size) = record r { payload = p; payload_size = size }
assign r (set_sort_index i) = record r { sort_index = i }
assign r (set_ttl ttl) = record r { ttl = ttl }

abbrev pub when_given {ℓ} : {A : Type ℓ} → (A → Assignment) → Option A → List Assignment
when_given f none = []
when_given f (some a) = f a ∷ []

-- The SET clause: `modified` only if the payload or the sort index is given
unfoldable pub assignments : ℕ → Option Text → Option ℤ → Option ℤ → List Assignment
assignments modified payload sort_index ttl =
    (if is_some payload || is_some sort_index then set_modified modified ∷ [] else [])
    ++ when_given (λ p. set_payload p (length p)) payload
    ++ when_given set_sort_index sort_index
    ++ when_given (λ t. set_ttl (add_int t (pos modified))) ttl

unfoldable pub assign_all : BsoRow → List Assignment → BsoRow
assign_all r [] = r
assign_all r (a ∷ set) = assign_all (assign r a) set

-- UPDATE BSO SET … WHERE CollectionId=? and Id=?
unfoldable pub update_rows : ℕ → Text → List Assignment → List BsoRow → List BsoRow
update_rows collection id set [] = []
update_rows collection id set (r ∷ rows) =
    (if matches collection id r then assign_all r set else r) ∷ update_rows collection id set rows

abbrev pub all_none : Option Text → Option ℤ → Option ℤ → Bool
all_none payload sort_index ttl = not (is_some payload || is_some sort_index || is_some ttl)

-- updateBSO
unfoldable pub update_bso : ℕ → Text → ℕ → Option Text → Option ℤ → Option ℤ → M (Unit {0})
update_bso collection id modified payload sort_index ttl =
    if all_none payload sort_index ttl
    then throw nothing_to_do
    else exec (λ t. ok (
      tt,
      record t {
        bso = update_rows collection id (assignments modified payload sort_index ttl) t.bso;
      },
    ))

-- The INSERT or the UPDATE of putBSO
unfoldable pub store_bso : Bool → ℕ → Text → ℕ → Option Text → Option ℤ → Option ℤ → M (Unit {0})
store_bso true collection id modified payload sort_index ttl =
    update_bso collection id modified payload sort_index ttl
store_bso false collection id modified payload sort_index ttl =
    insert_bso collection id modified (or_default payload []) (or_default sort_index (pos 0))
      (or_default ttl (pos default_bso_ttl))

-- The checks of putBSO: the error that it returns before it reads the database
unfoldable pub refusal : Text → Option Text → Option ℤ → Option ℤ → Option Error
refusal id payload sort_index ttl =
    if all_none payload sort_index ttl
    then some nothing_to_do
    else if not (bso_id_ok id)
    then some invalid_bso_id
    else if given_and_not sort_index_ok sort_index
    then some invalid_sort_index
    else if given_and_not ttl_ok ttl
    then some invalid_ttl
    else none

abbrev pub unless_refused : Option Error → M (Unit {0}) → M (Unit {0})
unless_refused none m = m
unless_refused (some e) m = throw e

-- putBSO
unfoldable pub put_bso_tx : ℕ → Text → ℕ → Option Text → Option ℤ → Option ℤ → M (Unit {0})
put_bso_tx collection id modified payload sort_index ttl =
    unless_refused (refusal id payload sort_index ttl) do
      exists ← bso_exists collection id
      store_bso exists collection id modified payload sort_index ttl

-- PutBSO
unfoldable pub put_bso : ℕ → Text → Option Text → Option ℤ → Option ℤ → M ℕ
put_bso collection id payload sort_index ttl = transaction do
  modified ← now
  put_bso_tx collection id modified payload sort_index ttl
  touch_collection_and_storage collection modified
  pure modified

-- AddSuccess, AddFailure
abbrev pub add_outcome : PostResults → Text → Result (Unit {0}) → PostResults
add_outcome results id (ok _) = record results { success = results.success ++ id ∷ [] }
add_outcome results id (err e) = record results { failed = (id, e) ∷ results.failed }

-- The loop of PostBSOs: an item that fails is noted, and the loop goes on.
unfoldable pub post_each : ℕ → ℕ → List PutBsoInput → PostResults → M PostResults
post_each collection modified [] results = pure results
post_each collection modified (d ∷ input) results = do
  outcome ← attempt (put_bso_tx collection d.id modified d.payload d.sort_index d.ttl)
  post_each collection modified input (add_outcome results d.id outcome)

-- PostBSOs
unfoldable pub post_bsos : ℕ → List PutBsoInput → M PostResults
post_bsos collection input = transaction do
  modified ← now
  results ←
      post_each collection modified input
        (record { modified = modified; success = []; failed = [] })
  touch_collection_and_storage collection modified
  pure results

-- The columns that a SELECT reads
abbrev pub bso_of : BsoRow → Bso
bso_of r = record {
  id = r.id;
  modified = r.modified;
  payload = r.payload;
  sort_index = r.sort_index;
  ttl = r.ttl;
}

abbrev pub or_not_found : {A B : Type 0} → (A → B) → Option A → Result B
or_not_found f none = err not_found
or_not_found f (some a) = ok (f a)

-- getBSO, GetBSO: here a BSO is still there at the very time at which it expires.
unfoldable pub get_bso : ℕ → Text → M Bso
get_bso collection id =
    if bso_id_ok id
    then (do
      time ← now
      query (λ t.
          or_not_found bso_of
            (find_row (λ r. matches collection id r && le_int (pos time) r.ttl) t.bso)))
    else throw invalid_bso_id

-- GetBSOModified: here it is not.
unfoldable pub get_bso_modified : ℕ → Text → M ℕ
get_bso_modified collection id = do
  time ← now
  query (λ t.
      or_not_found (λ r. r.modified)
        (find_row (λ r. matches collection id r && lt_int (pos time) r.ttl) t.bso))
