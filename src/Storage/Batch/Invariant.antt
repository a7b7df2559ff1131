-- ===== src/Storage/Batch/Invariant.antt =====
-- What holds of every table Batches that this package has written.
use go_syncstorage.Prelude.{
  ℕ, ◌+◌, ◌≤◌, ◌≡◌, refl, Bool, none, List, [], ◌∷◌, arith, ◌==◌, if◌then◌else◌, Bool-cases, inl,
  inr,
}
use go_syncstorage.Prelude.Text.{Text}
use go_syncstorage.Storage.Data.{BatchRow, Tables}
use go_syncstorage.Storage.Batch.{find_batch, keep_batches, update_batches, is_batch, appended}

abbrev pub has_batch_id : ℕ → BatchRow → Bool
has_batch_id id b = b.id == id

-- Ids are at most the last one given out, and no two batches share one.
abbrev pub BatchesValid : ℕ → List BatchRow → Type 0
BatchesValid last [] = Unit
BatchesValid last (b ∷ rows) =
    (b.id ≤ last) × (find_batch (has_batch_id b.id) rows ≡ none) × BatchesValid last rows

later-BatchesValid :
    (last : ℕ) (rows : List BatchRow) → BatchesValid last rows → BatchesValid (last + 1) rows
later-BatchesValid last [] v = tt
later-BatchesValid last (b ∷ rows) v = ground (arith, later-BatchesValid last rows)

pub find_later_batch :
    (last : ℕ) (rows : List BatchRow)
    → BatchesValid last rows
    → find_batch (has_batch_id (last + 1)) rows ≡ none
unfolding find_batch
find_later_batch last [] v = refl
find_later_batch last (b ∷ rows) v = ground (arith, find_later_batch last rows)

abbrev pub with_batch : ℕ → ℕ → Text → Tables → Tables
with_batch collection m text t = record t {
  batches =
      (record { id = t.last_batch_id + 1; collection_id = collection; modified = m; bsos = text })
      ∷ t.batches;
  last_batch_id = t.last_batch_id + 1;
}

pub with_batch-BatchesValid :
    (c m : ℕ) (text : Text) (t : Tables)
    → BatchesValid t.last_batch_id t.batches
    → BatchesValid (t.last_batch_id + 1) (with_batch c m text t).batches
with_batch-BatchesValid c m text t v = (
  omega arith,
  find_later_batch t.last_batch_id t.batches v,
  later-BatchesValid t.last_batch_id t.batches v,
)

find_id-append_rows :
    (id collection m j : ℕ) (text : Text) (rows : List BatchRow)
    → find_batch (has_batch_id j) rows ≡ none
    → find_batch (has_batch_id j) (update_batches (is_batch id collection) (appended m text) rows)
      ≡ none
unfolding find_batch update_batches
find_id-append_rows id collection m j text [] h = refl
find_id-append_rows id collection m j text (b ∷ rows) h =
    ground (arith, find_id-append_rows id collection m j text rows)

pub append_rows-BatchesValid :
    (last id collection m : ℕ) (text : Text) (rows : List BatchRow)
    → BatchesValid last rows
    → BatchesValid last (update_batches (is_batch id collection) (appended m text) rows)
unfolding update_batches
append_rows-BatchesValid last id collection m text [] v = tt
append_rows-BatchesValid last id collection m text (b ∷ rows) v = ground (
  arith,
  find_id-append_rows id collection m b.id text rows,
  append_rows-BatchesValid last id collection m text rows,
)

find_batch-keep_none :
    (p q : BatchRow → Bool) (rows : List BatchRow)
    → find_batch p rows ≡ none
    → find_batch p (keep_batches q rows) ≡ none
unfolding find_batch keep_batches
find_batch-keep_none p q [] h = refl
find_batch-keep_none p q (b ∷ rows) h = ground (arith, find_batch-keep_none p q rows)

pub keep_batches-BatchesValid :
    (p : BatchRow → Bool) (last : ℕ) (rows : List BatchRow)
    → BatchesValid last rows
    → BatchesValid last (keep_batches p rows)
unfolding keep_batches
keep_batches-BatchesValid p last [] v = tt
keep_batches-BatchesValid p last (b ∷ rows) v = elim (Bool-cases (p b)) [
  | inl e ↦
      rw (e, if◌then◌else◌)
        (
          v.0,
          find_batch-keep_none (has_batch_id b.id) p rows v.1,
          keep_batches-BatchesValid p last rows v.2,
        )
  | inr e ↦ rw (e, if◌then◌else◌) (keep_batches-BatchesValid p last rows v.2)
]
