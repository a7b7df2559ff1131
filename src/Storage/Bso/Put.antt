-- ===== src/Storage/Bso/Put.antt =====
-- PutBSO while the driver works: the row of the BSO is made from what is given and what was there.
use go_syncstorage.Prelude.{
  ℕ, ◌+◌, ◌≡◌, refl, true, false, ◌&&◌, ◌||◌, Option, none, some, List, [], ◌∷◌, arith, ◌==◌,
  length, if◌then◌else◌, inl, inr, Option-cases,
}
use go_syncstorage.Prelude.Int.{ℤ, pos, add_int}
use go_syncstorage.Prelude.Text.{Text, text_eq, text_eq_iff}
use go_syncstorage.Storage.Checks.{default_bso_ttl}
use go_syncstorage.Storage.Data.{BsoRow, Tables, ok}
use go_syncstorage.Storage.Driver.{World, exec, query, now, step}
use go_syncstorage.Storage.Driver.Reliable.{IsReliable, time_of, transaction-ok}
use go_syncstorage.Storage.Keys.Touch.{touched_tables, touch-ok}
use go_syncstorage.Storage.Bso.{
  matches, find_row, or_default, new_row, insert_bso, bso_exists, assign_all, assignments,
  update_rows, update_bso, store_bso, refusal, unless_refused, put_bso_tx, put_bso, all_none,
  is_some,
}
use go_syncstorage.Storage.Bso.Rows.{find_row-update_rows}

-- The rows after an accepted put
abbrev pub stored_rows :
    ℕ → Text → ℕ → Option Text → Option ℤ → Option ℤ → List BsoRow → Option BsoRow → List BsoRow
stored_rows c i m payload sort_index ttl rows none =
    new_row c i m (or_default payload []) (or_default sort_index (pos 0))
      (or_default ttl (pos default_bso_ttl))
    ∷ rows
stored_rows c i m payload sort_index ttl rows (some _) =
    update_rows c i (assignments m payload sort_index ttl) rows

unfoldable pub store_rows :
    ℕ → Text → ℕ → Option Text → Option ℤ → Option ℤ → List BsoRow → List BsoRow
store_rows c i m payload sort_index ttl rows =
    stored_rows c i m payload sort_index ttl rows (find_row (matches c i) rows)

something_given :
    (i : Text) (payload : Option Text) (sort_index ttl : Option ℤ)
    → refusal i payload sort_index ttl ≡ none
    → all_none payload sort_index ttl ≡ false
unfolding refusal
something_given i payload sort_index ttl h = ground arith

pub put_bso_tx-ok :
    (c : ℕ) (i : Text) (m : ℕ) (payload : Option Text) (sort_index ttl : Option ℤ) (w : World)
    → IsReliable w
    → refusal i payload sort_index ttl ≡ none
    → put_bso_tx c i m payload sort_index ttl w ≡ (
      ok tt,
      record w {
        tables = record w.tables { bso = store_rows c i m payload sort_index ttl w.tables.bso };
        calls = w.calls + 1 + 1;
      },
    )
unfolding put_bso_tx bso_exists store_bso insert_bso update_bso exec query store_rows
put_bso_tx-ok c i m payload sort_index ttl w h accepted =
    elim (Option-cases (find_row (matches c i) w.tables.bso)) [
      | inl absent ↦ rw (accepted, unless_refused) (ground (arith, h w.calls, h (w.calls + 1)))
      | inr (r, found) ↦
          rw (accepted, unless_refused)
            (ground (
              arith,
              h w.calls,
              h (w.calls + 1),
              something_given i payload sort_index ttl accepted,
            ))
    ]

-- The tables after an accepted PutBSO
abbrev pub put_tables : ℕ → Text → ℕ → Option Text → Option ℤ → Option ℤ → Tables → Tables
put_tables c i m payload sort_index ttl t =
    touched_tables c m (record t { bso = store_rows c i m payload sort_index ttl t.bso })

abbrev pub after_put : ℕ → Text → Option Text → Option ℤ → Option ℤ → World → World
after_put c i payload sort_index ttl w = record w {
  tables = put_tables c i (time_of w) payload sort_index ttl w.tables;
  calls = w.calls + 1 + 1 + 1 + 1 + 1;
  readings = w.readings + 1;
}

pub put_bso-ok :
    (c : ℕ) (i : Text) (payload : Option Text) (sort_index ttl : Option ℤ) (w : World)
    → IsReliable w
    → refusal i payload sort_index ttl ≡ none
    → put_bso c i payload sort_index ttl w
      ≡ (ok (time_of w), step (after_put c i payload sort_index ttl w))
unfolding put_bso now
put_bso-ok c i payload sort_index ttl w h accepted =
    transaction-ok _ w (after_put c i payload sort_index ttl w) (time_of w) h h (
      rw
        (put_bso_tx-ok c i (time_of w) payload sort_index ttl
          (record w { calls = w.calls + 1; readings = w.readings + 1 }) h accepted)
        (rw
          (touch-ok c (time_of w)
            (record w {
              tables = record w.tables {
                bso = store_rows c i (time_of w) payload sort_index ttl w.tables.bso;
              };
              calls = w.calls + 1 + 1 + 1;
              readings = w.readings + 1;
            })
            h)
          refl))

-- What is given, and the rest from the row that was there or from the defaults
unfoldable pub merged : ℕ → Text → ℕ → Option Text → Option ℤ → Option ℤ → Option BsoRow → BsoRow
merged c i m payload sort_index ttl none =
    new_row c i m (or_default payload []) (or_default sort_index (pos 0))
      (or_default ttl (pos default_bso_ttl))
merged c i m payload sort_index ttl (some r) =
    let p = or_default payload r.payload in
    record {
      collection_id = r.collection_id;
      id = r.id;
      sort_index = or_default sort_index r.sort_index;
      payload = p;
      payload_size = elim payload [ none ↦ r.payload_size | some q ↦ length q ];
      modified = if is_some payload || is_some sort_index then m else r.modified;
      ttl = elim ttl [ none ↦ r.ttl | some t ↦ add_int t (pos m) ];
    }

assign_all-merged :
    (c : ℕ) (i : Text) (m : ℕ) (payload : Option Text) (sort_index ttl : Option ℤ) (r : BsoRow)
    → assign_all r (assignments m payload sort_index ttl)
      ≡ merged c i m payload sort_index ttl (some r)
unfolding assign_all assignments merged
assign_all-merged c i m none none none r = refl
assign_all-merged c i m none none (some t) r = refl
assign_all-merged c i m none (some s) none r = refl
assign_all-merged c i m none (some s) (some t) r = refl
assign_all-merged c i m (some p) none none r = refl
assign_all-merged c i m (some p) none (some t) r = refl
assign_all-merged c i m (some p) (some s) none r = refl
assign_all-merged c i m (some p) (some s) (some t) r = refl

same_key :
    (c d : ℕ) (i j : Text) (rows : List BsoRow)
    → (c == d && text_eq i j) ≡ true
    → find_row (matches d j) rows ≡ find_row (matches c i) rows
same_key c d i j rows h =
    let same_collection : d ≡ c = ground arith in
    let same_id : j ≡ i = ground (arith, text_eq_iff i j) in rw (same_collection, same_id) refl

-- The row of one key after a put of another, or of itself
pub find_row-store_rows :
    (c d : ℕ) (i j : Text) (m : ℕ) (payload : Option Text) (sort_index ttl : Option ℤ)
    (rows : List BsoRow)
    → find_row (matches d j) (store_rows c i m payload sort_index ttl rows) ≡ (
        if c == d && text_eq i j
        then some (merged c i m payload sort_index ttl (find_row (matches c i) rows))
        else find_row (matches d j) rows)
unfolding store_rows
find_row-store_rows c d i j m payload sort_index ttl rows =
    elim (Option-cases (find_row (matches c i) rows)) [
      | inl absent ↦ rw (absent, stored_rows) (unfold find_row merged in ground arith)
      | inr (r, found) ↦
          rw (found, stored_rows)
            (ground (
              arith,
              find_row-update_rows c d i j (assignments m payload sort_index ttl) rows,
              assign_all-merged c i m payload sort_index ttl r,
              same_key c d i j rows,
              found,
            ))
    ]
