-- ===== src/Storage/Bso/PutGet.antt =====
-- What a client reads after it has written.
use go_syncstorage.Prelude.{
  ℕ, ◌<◌, ◌^◌, ◌≡◌, refl, ap, true, ◌&&◌, Option, none, some, arith, ◌==◌, if◌then◌else◌, ◌∙◌,
}
use go_syncstorage.Prelude.Int.{ℤ, pos, le_int}
use go_syncstorage.Prelude.Text.{Text, text_eq, text_eq_refl}
use go_syncstorage.Storage.Checks.{bso_id_ok}
use go_syncstorage.Storage.Data.{BsoRow, Bso, Tables, Result, ok, err, not_found}
use go_syncstorage.Storage.Driver.{World, query, now, step}
use go_syncstorage.Storage.Driver.Reliable.{IsReliable, time_of}
use go_syncstorage.Storage.Keys.{last_modified}
use go_syncstorage.Storage.Keys.Touch.{last_modified-ok, bso-touched_tables, lookup-touched_tables}
use go_syncstorage.Storage.Bso.{matches, find_row, refusal, put_bso, get_bso, bso_of, or_not_found}
use go_syncstorage.Storage.Bso.Invariant.{RowsValid}
use go_syncstorage.Storage.Bso.Put.{
  after_put, store_rows, merged, put_tables, put_bso-ok, find_row-store_rows,
}
use go_syncstorage.Storage.Operation.Writes.{IsValid}
use go_syncstorage.Storage.Operation.Methods.{put_bso-IsValid}
use go_syncstorage.Storage.Bso.Live.{passing, find_row-passing}

-- A PutBSO that its checks accept, while the driver works, returns the time of the clock. The row of
-- its key holds what was given, and for the rest what was there or the defaults; the row of any
-- other key is as it was. The storage was last modified at the time returned.
pub put_bso_lem :
    (c : ℕ) (i : Text) (payload : Option Text) (sort_index ttl : Option ℤ) (w : World)
    → IsReliable w
    → refusal i payload sort_index ttl ≡ none
    → time_of w < 2 ^ 63
    → let (r, w') = put_bso c i payload sort_index ttl w in
      (r ≡ ok (time_of w))
      × ((d : ℕ) (j : Text)
          → find_row (matches d j) w'.tables.bso ≡ (
              if c == d && text_eq i j
              then some (
                  merged c i
                    (time_of w)
                    payload
                    sort_index
                    ttl
                    (find_row (matches c i) w.tables.bso))
              else find_row (matches d j) w.tables.bso))
      × ((last_modified w').0 ≡ ok (pos (time_of w)))
put_bso_lem c i payload sort_index ttl w h accepted fits =
    rw (put_bso-ok c i payload sort_index ttl w h accepted) (
      refl,
      λ d j.
          rw (bso-touched_tables c (time_of w) _)
            (find_row-store_rows c d i j (time_of w) payload sort_index ttl w.tables.bso),
      last_modified-ok (time_of w) _ h fits (lookup-touched_tables c (time_of w) _),
    )

abbrev pub while_live : ℕ → Option BsoRow → Result Bso
while_live time none = err not_found
while_live time (some r) = if le_int (pos time) r.ttl then ok (bso_of r) else err not_found

found_live :
    (time : ℕ) (o : Option BsoRow)
    → or_not_found bso_of (passing (λ r. le_int (pos time) r.ttl) o) ≡ while_live time o
found_live time none = refl
found_live time (some r) = ground arith

-- GetBSO of an accepted id reads the row of its key until the time at which it expires.
pub get_bso-eq :
    (c : ℕ) (i : Text) (w : World)
    → IsReliable w
    → bso_id_ok i ≡ true
    → RowsValid w.tables.bso
    → (get_bso c i w).0 ≡ while_live (time_of w) (find_row (matches c i) w.tables.bso)
unfolding get_bso query now
get_bso-eq c i w h valid_id v =
    rw (valid_id, if◌then◌else◌, h w.calls)
      (ap (or_not_found bso_of)
          (find_row-passing c i (λ r. le_int (pos (time_of w)) r.ttl) w.tables.bso v)
        ∙ found_live (time_of w) (find_row (matches c i) w.tables.bso))

refusal-none-id :
    (i : Text) (payload : Option Text) (sort_index ttl : Option ℤ)
    → refusal i payload sort_index ttl ≡ none
    → bso_id_ok i ≡ true
unfolding refusal
refusal-none-id i payload sort_index ttl h = ground arith

own_key : (c : ℕ) (i : Text) (a b : Option BsoRow) → (if c == c && text_eq i i then a else b) ≡ a
own_key c i a b = ground (arith, text_eq_refl i)

row_put :
    (c : ℕ) (i : Text) (payload : Option Text) (sort_index ttl : Option ℤ) (m : ℕ) (t : Tables)
    → find_row (matches c i) (put_tables c i m payload sort_index ttl t).bso
      ≡ some (merged c i m payload sort_index ttl (find_row (matches c i) t.bso))
row_put c i payload sort_index ttl m t =
    rw (bso-touched_tables c m (record t { bso = store_rows c i m payload sort_index ttl t.bso }))
      (find_row-store_rows c c i i m payload sort_index ttl t.bso ∙ own_key c i _ _)

-- In a well-formed database, GetBSO after an accepted PutBSO of the same key returns what was put over
-- what was there, up to the time at which the row expires, and from then on that it is not found.
pub get_bso-put_bso :
    (c : ℕ) (i : Text) (payload : Option Text) (sort_index ttl : Option ℤ) (w : World)
    → IsReliable w
    → IsValid w.tables
    → refusal i payload sort_index ttl ≡ none
    → let w' = (put_bso c i payload sort_index ttl w).1 in
      (get_bso c i w').0
      ≡ while_live (time_of w') (
          some
            (merged c i (time_of w) payload sort_index ttl (find_row (matches c i) w.tables.bso)))
get_bso-put_bso c i payload sort_index ttl w h v accepted =
    let put = put_bso-ok c i payload sort_index ttl w h accepted in
    let valid = ((put_bso-IsValid c i payload sort_index ttl).at w v).rows in
    rw put (
      get_bso-eq c i (step (after_put c i payload sort_index ttl w)) h
        (refusal-none-id i payload sort_index ttl accepted) (rw put at valid)
      ∙ ap (while_live _) (row_put c i payload sort_index ttl (time_of w) w.tables))
