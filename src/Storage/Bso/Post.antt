-- ===== src/Storage/Bso/Post.antt =====
-- PostBSOs while the driver works: the items one by one, each accepted or refused by itself.
use go_syncstorage.Prelude.{
  ℕ, ◌+◌, ◌<◌, ◌^◌, ◌≡◌, refl, ap, Option, none, some, List, [], ◌∷◌, ◌++◌, arith, if◌then◌else◌,
  inl, inr, Option-cases, Bool-cases,
}
use mathlib.Core.List.{append_assoc, append-nil}
use go_syncstorage.Prelude.Int.{ℤ, pos}
use go_syncstorage.Prelude.Text.{Text, text_eq, text_eq_iff}
use go_syncstorage.Storage.Data.{BsoRow, PutBsoInput, PostResults, Error, Result, ok, err}
use go_syncstorage.Storage.Driver.{World, now, attempt, step}
use go_syncstorage.Storage.Driver.Reliable.{IsReliable, time_of, transaction-ok}
use go_syncstorage.Storage.Keys.{last_modified}
use go_syncstorage.Storage.Keys.Touch.{touched_tables, touch-ok, last_modified-ok}
use go_syncstorage.Storage.Bso.{
  matches, find_row, refusal, unless_refused, put_bso_tx, add_outcome, post_each, post_bsos,
}
use go_syncstorage.Storage.Bso.Put.{store_rows, merged, put_bso_tx-ok, find_row-store_rows}
use go_syncstorage.Storage.Keys.Touch.{bso-touched_tables, lookup-touched_tables}

abbrev pub refusal_of : PutBsoInput → Option Error
refusal_of d = refusal d.id d.payload d.sort_index d.ttl

-- The rows after one item that is refused or accepted
abbrev pub item_rows : Option Error → ℕ → ℕ → PutBsoInput → List BsoRow → List BsoRow
item_rows none c m d rows = store_rows c d.id m d.payload d.sort_index d.ttl rows
item_rows (some e) c m d rows = rows

abbrev pub item_result : Option Error → Result (Unit {0})
item_result none = ok tt
item_result (some e) = err e

-- The rows after all items
unfoldable pub post_rows : ℕ → ℕ → List PutBsoInput → List BsoRow → List BsoRow
post_rows c m [] rows = rows
post_rows c m (d ∷ input) rows = post_rows c m input (item_rows (refusal_of d) c m d rows)

unfoldable pub outcomes : List PutBsoInput → PostResults → PostResults
outcomes [] results = results
outcomes (d ∷ input) results =
    outcomes input (add_outcome results d.id (item_result (refusal_of d)))

-- The calls of the driver: two for an item that is accepted
abbrev pub item_calls : Option Error → ℕ → ℕ
item_calls none k = k + 1 + 1
item_calls (some e) k = k

unfoldable pub post_calls : List PutBsoInput → ℕ → ℕ
post_calls [] k = k
post_calls (d ∷ input) k = post_calls input (item_calls (refusal_of d) k)

abbrev with_rows : World → List BsoRow → ℕ → World
with_rows w rows k = record w { tables = record w.tables { bso = rows }; calls = k }

put_item :
    (c m : ℕ) (d : PutBsoInput) (w : World)
    → IsReliable w
    → attempt (put_bso_tx c d.id m d.payload d.sort_index d.ttl) w ≡ (
      ok (item_result (refusal_of d)),
      with_rows w (item_rows (refusal_of d) c m d w.tables.bso) (item_calls (refusal_of d) w.calls),
    )
unfolding attempt
put_item c m d w h = elim (Option-cases (refusal_of d)) [
  | inl accepted ↦
      rw (put_bso_tx-ok c d.id m d.payload d.sort_index d.ttl w h accepted, accepted) refl
  | inr (e, refused) ↦ unfold put_bso_tx in rw (refused, unless_refused) refl
]

post_each-ok :
    (c m : ℕ) (input : List PutBsoInput) (results : PostResults) (w : World)
    → IsReliable w
    → post_each c m input results w ≡ (
      ok (outcomes input results),
      with_rows w (post_rows c m input w.tables.bso) (post_calls input w.calls),
    )
unfolding post_each outcomes post_rows post_calls
post_each-ok c m [] results w h = refl
post_each-ok c m (d ∷ input) results w h = rw (put_item c m d w h) (
    post_each-ok c m input (add_outcome results d.id (item_result (refusal_of d)))
      (with_rows w (item_rows (refusal_of d) c m d w.tables.bso)
        (item_calls (refusal_of d) w.calls))
      h)

abbrev after_post : ℕ → List PutBsoInput → World → World
after_post c input w = record w {
  tables =
      touched_tables c (time_of w)
        (record w.tables { bso = post_rows c (time_of w) input w.tables.bso });
  calls = post_calls input (w.calls + 1) + 1 + 1;
  readings = w.readings + 1;
}

abbrev no_results : ℕ → PostResults
no_results m = record { modified = m; success = []; failed = [] }

post_bsos-ok :
    (c : ℕ) (input : List PutBsoInput) (w : World)
    → IsReliable w
    → post_bsos c input w
      ≡ (ok (outcomes input (no_results (time_of w))), step (after_post c input w))
unfolding post_bsos now
post_bsos-ok c input w h =
    transaction-ok _ w (after_post c input w) (outcomes input (no_results (time_of w))) h h (
      rw
        (post_each-ok c (time_of w) input (no_results (time_of w))
          (record w { calls = w.calls + 1; readings = w.readings + 1 }) h)
        (rw
          (touch-ok c (time_of w)
            (with_rows (record w { readings = w.readings + 1 })
              (post_rows c (time_of w) input w.tables.bso) (post_calls input (w.calls + 1)))
            h)
          refl))

abbrev if_accepted : Option Error → Text → List Text → List Text
if_accepted none id ids = id ∷ ids
if_accepted (some e) id ids = ids

abbrev if_refused : Option Error → Text → List (Text × Error) → List (Text × Error)
if_refused none id failed = failed
if_refused (some e) id failed = (id, e) ∷ failed

-- The ids of the items that are accepted, in their order
unfoldable pub accepted_ids : List PutBsoInput → List Text
accepted_ids [] = []
accepted_ids (d ∷ input) = if_accepted (refusal_of d) d.id (accepted_ids input)

-- The items that are refused and the reasons, the last one in front of `failed`
unfoldable pub add_refused : List PutBsoInput → List (Text × Error) → List (Text × Error)
add_refused [] failed = failed
add_refused (d ∷ input) failed = add_refused input (if_refused (refusal_of d) d.id failed)

outcomes-eq :
    (input : List PutBsoInput) (results : PostResults)
    → outcomes input results ≡ record results {
      success = results.success ++ accepted_ids input;
      failed = add_refused input results.failed;
    }
unfolding outcomes accepted_ids add_refused
outcomes-eq [] results = rw append-nil refl
outcomes-eq (d ∷ input) results = elim (Option-cases (refusal_of d)) [
  | inl accepted ↦ rw (outcomes-eq input _, accepted_ids, accepted) (rw append_assoc refl)
  | inr (e, refused) ↦ rw (outcomes-eq input _, accepted_ids, refused) refl
]

-- The row of a key after the items that are accepted and have it
unfoldable pub row_after : ℕ → Text → ℕ → List PutBsoInput → Option BsoRow → Option BsoRow
row_after c j m [] o = o
row_after c j m (d ∷ input) o = row_after c j m input (elim (refusal_of d) [
  | none ↦ if text_eq d.id j then some (merged c d.id m d.payload d.sort_index d.ttl o) else o
  | some e ↦ o
])

same_id_row :
    (c : ℕ) (i j : Text) (m : ℕ) (payload : Option Text) (sort_index ttl : Option ℤ)
    (rows : List BsoRow)
    → find_row (matches c j) (store_rows c i m payload sort_index ttl rows) ≡ (
        if text_eq i j
        then some (merged c i m payload sort_index ttl (find_row (matches c j) rows))
        else find_row (matches c j) rows)
same_id_row c i j m payload sort_index ttl rows = elim (Bool-cases (text_eq i j)) [
  | inl same ↦
      let e : i ≡ j = (text_eq_iff i j).0 same in
      ground (
        arith,
        find_row-store_rows c c i j m payload sort_index ttl rows,
        ap (λ (k : Text). find_row (matches c k) rows) e,
      )
  | inr other ↦ ground (arith, find_row-store_rows c c i j m payload sort_index ttl rows)
]

find_row-post_rows :
    (c m : ℕ) (j : Text) (input : List PutBsoInput) (rows : List BsoRow)
    → find_row (matches c j) (post_rows c m input rows)
      ≡ row_after c j m input (find_row (matches c j) rows)
unfolding post_rows row_after
find_row-post_rows c m j [] rows = refl
find_row-post_rows c m j (d ∷ input) rows = elim (Option-cases (refusal_of d)) [
  | inl accepted ↦
      rw (find_row-post_rows c m j input (item_rows (refusal_of d) c m d rows), accepted)
        (rw (same_id_row c d.id j m d.payload d.sort_index d.ttl rows) refl)
  | inr (e, refused) ↦
      rw (find_row-post_rows c m j input (item_rows (refusal_of d) c m d rows), refused) refl
]

-- PostBSOs, while the driver works, returns the ids of the items that its checks accept, in order,
-- and each refused item with its reason. The row of a key holds the accepted items of that key, one
-- after the other, over what was there; refused items change nothing. The storage was last modified
-- at the time returned.
pub post_bsos_lem :
    (c : ℕ) (input : List PutBsoInput) (w : World)
    → IsReliable w
    → time_of w < 2 ^ 63
    → let (r, w') = post_bsos c input w in
      (r
        ≡ ok (record {
          modified = time_of w;
          success = accepted_ids input;
          failed = add_refused input [];
        }))
      × ((j : Text)
          → find_row (matches c j) w'.tables.bso
            ≡ row_after c j (time_of w) input (find_row (matches c j) w.tables.bso))
      × ((last_modified w').0 ≡ ok (pos (time_of w)))
post_bsos_lem c input w h fits = rw (post_bsos-ok c input w h) (
  ap ok (outcomes-eq input _),
  λ j.
      rw (bso-touched_tables c (time_of w) _)
        (find_row-post_rows c (time_of w) j input w.tables.bso),
  last_modified-ok (time_of w) _ h fits (lookup-touched_tables c (time_of w) _),
)
