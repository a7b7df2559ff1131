-- ===== src/Storage/Bso/Invariant.antt =====
-- What holds of every table BSO that this package has written.
use go_syncstorage.Prelude.{
  ℕ, ◌≡◌, refl, Bool, true, false, Option, none, some, List, [], ◌∷◌, arith, if◌then◌else◌, inl,
  inr, Bool-cases, length,
}
use go_syncstorage.Prelude.Int.{pos, ℤ}
use go_syncstorage.Prelude.Text.{Text}
use go_syncstorage.Storage.Checks.{bso_id_ok, sort_index_ok}
use go_syncstorage.Storage.Data.{Tables, ok, BsoRow}
use go_syncstorage.Storage.Bso.{
  matches, find_row, keep_rows, given_and_not, refusal, insert_row, new_row, or_default, Assignment,
  set_modified, set_payload, set_sort_index, set_ttl, assign, assign_all, assignments, update_rows,
}
use go_syncstorage.Storage.Bso.Rows.{find_row-update_rows, find_row-keep_rows-none, assign_all_key}

-- A row has a proper id and sort index, and the size of its payload.
pub record IsValidRow (r : BsoRow) : Type 0 where
  pub id : bso_id_ok r.id ≡ true
  pub sort_index : sort_index_ok r.sort_index ≡ true
  pub size : r.payload_size ≡ length r.payload

-- No two rows have one key.
abbrev pub RowsValid : List BsoRow → Type 0
RowsValid [] = Unit
RowsValid (r ∷ rows) =
    IsValidRow r × (find_row (matches r.collection_id r.id) rows ≡ none) × RowsValid rows

-- An assignment that keeps rows valid
abbrev pub IsValidSet : List Assignment → Type 0
IsValidSet [] = Unit
IsValidSet (set_modified m ∷ set) = IsValidSet set
IsValidSet (set_payload p n ∷ set) = (n ≡ length p) × IsValidSet set
IsValidSet (set_sort_index i ∷ set) = (sort_index_ok i ≡ true) × IsValidSet set
IsValidSet (set_ttl t ∷ set) = IsValidSet set

assign_all-IsValidRow :
    (r : BsoRow) (set : List Assignment)
    → IsValidSet set
    → IsValidRow r
    → IsValidRow (assign_all r set)
unfolding assign_all
assign_all-IsValidRow r [] s v = v
assign_all-IsValidRow r (set_modified m ∷ set) s v =
    assign_all-IsValidRow (assign r (set_modified m)) set s
      (record { id = v.id; sort_index = v.sort_index; size = v.size })
assign_all-IsValidRow r (set_payload p n ∷ set) s v =
    assign_all-IsValidRow (assign r (set_payload p n)) set s.1
      (record { id = v.id; sort_index = v.sort_index; size = s.0 })
assign_all-IsValidRow r (set_sort_index i ∷ set) s v =
    assign_all-IsValidRow (assign r (set_sort_index i)) set s.1
      (record { id = v.id; sort_index = s.0; size = v.size })
assign_all-IsValidRow r (set_ttl t ∷ set) s v =
    assign_all-IsValidRow (assign r (set_ttl t)) set s
      (record { id = v.id; sort_index = v.sort_index; size = v.size })

update_one-IsValidRow :
    (b : Bool) (r : BsoRow) (set : List Assignment)
    → IsValidSet set
    → IsValidRow r
    → IsValidRow (if b then assign_all r set else r)
update_one-IsValidRow true r set s v = assign_all-IsValidRow r set s v
update_one-IsValidRow false r set s v = v

update_one_key :
    (b : Bool) (r : BsoRow) (set : List Assignment)
    → ((if b then assign_all r set else r).collection_id ≡ r.collection_id)
      × ((if b then assign_all r set else r).id ≡ r.id)
update_one_key true r set = assign_all_key r set
update_one_key false r set = (refl, refl)

find_row-update_rows-none :
    (c d : ℕ) (i j : Text) (set : List Assignment) (rows : List BsoRow)
    → find_row (matches d j) rows ≡ none
    → find_row (matches d j) (update_rows c i set rows) ≡ none
find_row-update_rows-none c d i j set rows h = ground (arith, find_row-update_rows c d i j set rows)

pub update_rows-RowsValid :
    (c : ℕ) (i : Text) (set : List Assignment) (rows : List BsoRow)
    → IsValidSet set
    → RowsValid rows
    → RowsValid (update_rows c i set rows)
unfolding update_rows
update_rows-RowsValid c i set [] s v = tt
update_rows-RowsValid c i set (r ∷ rows) s v =
    let (same_collection, same_id) = update_one_key (matches c i r) r set in
    (
      update_one-IsValidRow (matches c i r) r set s v.0,
      rw (same_collection, same_id)
          (find_row-update_rows-none c r.collection_id i r.id set rows v.1),
      update_rows-RowsValid c i set rows s v.2,
    )

pub keep_rows-RowsValid :
    (p : BsoRow → Bool) (rows : List BsoRow) → RowsValid rows → RowsValid (keep_rows p rows)
unfolding keep_rows
keep_rows-RowsValid p [] v = tt
keep_rows-RowsValid p (r ∷ rows) v = elim (Bool-cases (p r)) [
  | inl e ↦
      rw (e, if◌then◌else◌)
        (
          v.0,
          find_row-keep_rows-none (matches r.collection_id r.id) p rows v.1,
          keep_rows-RowsValid p rows v.2,
        )
  | inr e ↦ rw (e, if◌then◌else◌) (keep_rows-RowsValid p rows v.2)
]

-- The SET clause of updateBSO
pub assignments-IsValidSet :
    (m : ℕ) (payload : Option Text) (sort_index ttl : Option ℤ)
    → given_and_not sort_index_ok sort_index ≡ false
    → IsValidSet (assignments m payload sort_index ttl)
unfolding assignments
assignments-IsValidSet m none none none h = tt
assignments-IsValidSet m none none (some t) h = tt
assignments-IsValidSet m (some p) none none h = (refl, tt)
assignments-IsValidSet m (some p) none (some t) h = (refl, tt)
assignments-IsValidSet m none (some i) none h = (ground arith, tt)
assignments-IsValidSet m none (some i) (some t) h = (ground arith, tt)
assignments-IsValidSet m (some p) (some i) none h = (refl, (ground arith, tt))
assignments-IsValidSet m (some p) (some i) (some t) h = (refl, (ground arith, tt))

-- The row that putBSO inserts, once its checks have passed
pub new_row-IsValidRow :
    (c : ℕ) (i : Text) (m : ℕ) (payload : Option Text) (sort_index ttl : Option ℤ) (t : ℤ)
    → refusal i payload sort_index ttl ≡ none
    → IsValidRow (new_row c i m (or_default payload []) (or_default sort_index (pos 0)) t)
unfolding refusal sort_index_ok
new_row-IsValidRow c i m payload none ttl t h = record {
  id = ground arith;
  sort_index = refl;
  size = refl;
}
new_row-IsValidRow c i m payload (some s) ttl t h = record {
  id = ground arith;
  sort_index = ground arith;
  size = refl;
}

-- An INSERT that is accepted has put its row before the others, none of which has its key.
pub insert_row-ok :
    (r : BsoRow) (t : Tables) (u : Unit {0}) (t' : Tables)
    → insert_row r t ≡ ok (u, t')
    → (find_row (matches r.collection_id r.id) t.bso ≡ none) × (t' ≡ record t { bso = r ∷ t.bso })
unfolding insert_row
insert_row-ok r t u t' h = (ground arith, ground arith)
