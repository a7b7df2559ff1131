-- ===== src/Storage/Bso/Rows.antt =====
-- Rows of BSO found by their key, under each change of the table.
use go_syncstorage.Prelude.{
  ℕ, ◌≡◌, refl, Bool, true, ◌&&◌, Option, none, some, List, [], ◌∷◌, arith, ◌==◌, if◌then◌else◌,
  inl, inr, Bool-cases,
}
use go_syncstorage.Prelude.Text.{Text, text_eq, text_eq_iff, text_eq_refl}
use go_syncstorage.Storage.Data.{BsoRow}
use go_syncstorage.Storage.Bso.{
  matches, find_row, keep_rows, Assignment, set_modified, set_payload, set_sort_index, set_ttl,
  assign, assign_all, update_rows,
}
use go_syncstorage.Storage.Erase.{contains, delete_rows}

pub matches-eq :
    (c : ℕ) (i : Text) (r : BsoRow) → matches c i r ≡ true → (r.collection_id ≡ c) × (r.id ≡ i)
matches-eq c i r h = ground (arith, text_eq_iff r.id i)

pub matches_self : (r : BsoRow) → matches r.collection_id r.id r ≡ true
matches_self r = ground (arith, text_eq_refl r.id)

-- No SET clause touches the key.
pub assign_all_key :
    (r : BsoRow) (set : List Assignment)
    → ((assign_all r set).collection_id ≡ r.collection_id) × ((assign_all r set).id ≡ r.id)
unfolding assign_all
assign_all_key r [] = (refl, refl)
assign_all_key r (set_modified m ∷ set) = assign_all_key (assign r (set_modified m)) set
assign_all_key r (set_payload p n ∷ set) = assign_all_key (assign r (set_payload p n)) set
assign_all_key r (set_sort_index i ∷ set) = assign_all_key (assign r (set_sort_index i)) set
assign_all_key r (set_ttl t ∷ set) = assign_all_key (assign r (set_ttl t)) set

pub matches-assign_all :
    (c : ℕ) (i : Text) (r : BsoRow) (set : List Assignment)
    → matches c i (assign_all r set) ≡ matches c i r
matches-assign_all c i r set = rw ((assign_all_key r set).0, (assign_all_key r set).1)

abbrev pub updated : List Assignment → Option BsoRow → Option BsoRow
updated set none = none
updated set (some r) = some (assign_all r set)

-- An UPDATE changes the row that it names, and no other.
pub find_row-update_rows :
    (c d : ℕ) (i j : Text) (set : List Assignment) (rows : List BsoRow)
    → find_row (matches d j) (update_rows c i set rows) ≡ (
        if c == d && text_eq i j
        then updated set (find_row (matches d j) rows)
        else find_row (matches d j) rows)
unfolding find_row update_rows
find_row-update_rows c d i j set [] = ground arith
find_row-update_rows c d i j set (r ∷ rows) = ground (
  arith,
  find_row-update_rows c d i j set rows,
  matches-assign_all d j r set,
  text_eq_iff r.id i,
  text_eq_iff r.id j,
  text_eq_iff i j,
)

-- What is found is a row with the key that was asked for.
pub find_row-matches :
    (p : BsoRow → Bool) (rows : List BsoRow) (r : BsoRow) → find_row p rows ≡ some r → p r ≡ true
unfolding find_row
find_row-matches p [] r h = ground arith
find_row-matches p (s ∷ rows) r h = elim (Bool-cases (p s)) [
  | inl e ↦ ground arith
  | inr e ↦ find_row-matches p rows r (rw e at h)
]

pub find_row-keep_rows-none :
    (p q : BsoRow → Bool) (rows : List BsoRow)
    → find_row p rows ≡ none
    → find_row p (keep_rows q rows) ≡ none
unfolding find_row keep_rows
find_row-keep_rows-none p q [] h = refl
find_row-keep_rows-none p q (r ∷ rows) h = ground (arith, find_row-keep_rows-none p q rows)

-- The BSO is named by a DELETE.
abbrev pub is_deleted : ℕ → List Text → ℕ → Text → Bool
is_deleted c ids d j = d == c && contains ids j

-- A DELETE removes the rows that it names, and no other.
pub find_row-delete_rows :
    (c : ℕ) (ids : List Text) (d : ℕ) (j : Text) (rows : List BsoRow)
    → find_row (matches d j) (delete_rows c ids rows)
      ≡ (if is_deleted c ids d j then none else find_row (matches d j) rows)
unfolding find_row delete_rows keep_rows
find_row-delete_rows c ids d j [] = ground arith
find_row-delete_rows c ids d j (r ∷ rows) = elim (Bool-cases (matches d j r)) [
  | inl e ↦
      let (same_collection, same_id) = matches-eq d j r e in
      ground (arith, find_row-delete_rows c ids d j rows, same_collection, same_id)
  | inr e ↦ ground (arith, find_row-delete_rows c ids d j rows)
]
