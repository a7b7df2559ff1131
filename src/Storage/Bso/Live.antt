-- ===== src/Storage/Bso/Live.antt =====
-- Rows found under a condition on their time to live.
use go_syncstorage.Prelude.{
  ℕ, ◌≡◌, refl, Bool, true, ◌&&◌, Option, none, some, List, [], ◌∷◌, arith, inl, inr, Bool-cases,
  if◌then◌else◌,
}
use go_syncstorage.Prelude.Text.{Text}
use go_syncstorage.Storage.Data.{BsoRow}
use go_syncstorage.Storage.Bso.{matches, find_row, keep_rows}
use go_syncstorage.Storage.Bso.Rows.{matches-eq}
use go_syncstorage.Storage.Bso.Invariant.{RowsValid}

-- The row, if it passes the test
abbrev pub passing : (BsoRow → Bool) → Option BsoRow → Option BsoRow
passing q none = none
passing q (some r) = if q r then some r else none

find_row-and_none :
    (p q : BsoRow → Bool) (rows : List BsoRow)
    → find_row p rows ≡ none
    → find_row (λ r. p r && q r) rows ≡ none
unfolding find_row
find_row-and_none p q [] h = refl
find_row-and_none p q (r ∷ rows) h = ground (arith, find_row-and_none p q rows)

same_row_none :
    (c : ℕ) (i : Text) (r : BsoRow) (rows : List BsoRow)
    → matches c i r ≡ true
    → find_row (matches r.collection_id r.id) rows ≡ none
    → find_row (matches c i) rows ≡ none
same_row_none c i r rows e h =
    let (same_collection, same_id) = matches-eq c i r e in rw (← same_collection, ← same_id) h

-- Keys are unique: a search with a further condition finds the row of the key or nothing.
pub find_row-passing :
    (c : ℕ) (i : Text) (q : BsoRow → Bool) (rows : List BsoRow)
    → RowsValid rows
    → find_row (λ r. matches c i r && q r) rows ≡ passing q (find_row (matches c i) rows)
unfolding find_row
find_row-passing c i q [] v = refl
find_row-passing c i q (r ∷ rows) v = elim (Bool-cases (matches c i r)) [
  | inl e ↦
      let absent = find_row-and_none (matches c i) q rows (same_row_none c i r rows e v.1) in
      ground (arith, e, absent)
  | inr e ↦ ground (arith, e, find_row-passing c i q rows v.2)
]

-- A DELETE by a condition on rows leaves of each key the row that passes.
pub find_row-keep_rows :
    (c : ℕ) (i : Text) (q : BsoRow → Bool) (rows : List BsoRow)
    → RowsValid rows
    → find_row (matches c i) (keep_rows q rows) ≡ passing q (find_row (matches c i) rows)
unfolding find_row keep_rows
find_row-keep_rows c i q [] v = refl
find_row-keep_rows c i q (r ∷ rows) v = elim (Bool-cases (matches c i r)) [
  | inl e ↦
      let absent = same_row_none c i r rows e v.1 in
      ground (arith, e, absent, find_row-keep_rows c i q rows v.2)
  | inr e ↦ ground (arith, e, find_row-keep_rows c i q rows v.2)
]
