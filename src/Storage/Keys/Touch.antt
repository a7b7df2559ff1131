-- ===== src/Storage/Keys/Touch.antt =====
-- The last-modified times after a write.
use go_syncstorage.Prelude.{
  Option, ℕ, ◌+◌, ◌≡◌, ◌^◌, ◌<◌, refl, none, some, [], ◌∷◌, arith, if◌then◌else◌, ap,
}
use go_syncstorage.Prelude.Int.{ℤ, pos}
use go_syncstorage.Prelude.Text.{Text}
use go_syncstorage.Strconv.{itoa, parse_int, parse_int-itoa}
use go_syncstorage.Storage.Data.{Tables, ok}
use go_syncstorage.Storage.Driver.{World, exec, query}
use go_syncstorage.Storage.Driver.Reliable.{IsReliable}
use go_syncstorage.Prelude.Text.{text_eq_refl}
use go_syncstorage.Storage.Keys.{
  lookup-replace_key, lookup, storage_last_modified, replace_key, set_key, get_key, touch_rows,
  touch_collection, touch_storage, touch_collection_and_storage, last_modified, timestamp_of,
  or_not_a_number,
}

-- The tables with a collection and the storage touched
unfoldable pub touched_tables : ℕ → ℕ → Tables → Tables
touched_tables c m t =
    replace_key storage_last_modified (itoa (pos m))
      (record t { collections = touch_rows c m t.collections })

pub touch-ok :
    (c m : ℕ) (w : World)
    → IsReliable w
    → touch_collection_and_storage c m w
      ≡ (ok tt, record w { tables = touched_tables c m w.tables; calls = w.calls + 1 + 1 })
unfolding touch_collection_and_storage touch_collection touch_storage set_key exec touched_tables
touch-ok c m w h = ground (arith, h w.calls, h (w.calls + 1))

parse_int-nil : parse_int [] ≡ none
unfolding parse_int
parse_int-nil = refl

timestamp_of-itoa :
    (m : ℕ) → m < 2 ^ 63 → (w : World) → timestamp_of (itoa (pos m)) w ≡ (ok (pos m), w)
timestamp_of-itoa m h w = go (itoa (pos m)) (parse_int-itoa (pos m) h)
  where
    go : (s : Text) → parse_int s ≡ some (pos m) → timestamp_of s w ≡ (ok (pos m), w)
    go [] e = cc (parse_int-nil)
    go (x ∷ s) e = rw (e, or_not_a_number) refl

-- LastModified of tables whose key holds the print of `m`
pub last_modified-ok :
    (m : ℕ) (w : World)
    → IsReliable w
    → m < 2 ^ 63
    → lookup storage_last_modified w.tables.key_values ≡ some (itoa (pos m))
    → (last_modified w).0 ≡ ok (pos m)
unfolding last_modified get_key query
last_modified-ok m w h fits found =
    rw (h w.calls, if◌then◌else◌, found) (ap (λ p. p.0) (timestamp_of-itoa m fits _))

pub lookup-touched_tables :
    (c m : ℕ) (t : Tables)
    → lookup storage_last_modified (touched_tables c m t).key_values ≡ some (itoa (pos m))
unfolding touched_tables
lookup-touched_tables c m t =
    rw (lookup-replace_key storage_last_modified storage_last_modified (itoa (pos m)) _)
      (rw (text_eq_refl storage_last_modified) refl)

pub bso-touched_tables : (c m : ℕ) (t : Tables) → (touched_tables c m t).bso ≡ t.bso
unfolding touched_tables replace_key
bso-touched_tables c m t = refl

number_result : (o : Option ℤ) (w w' : World) → (or_not_a_number o w).0 ≡ (or_not_a_number o w').0
number_result none w w' = refl
number_result (some n) w w' = refl

timestamp_result : (s : Text) (w w' : World) → (timestamp_of s w).0 ≡ (timestamp_of s w').0
timestamp_result [] w w' = refl
timestamp_result (c ∷ s) w w' = number_result (parse_int (c ∷ s)) w w'

-- LastModified reads nothing but its key.
pub last_modified_same :
    (w w' : World)
    → IsReliable w
    → IsReliable w'
    → lookup storage_last_modified w'.tables.key_values
      ≡ lookup storage_last_modified w.tables.key_values
    → (last_modified w').0 ≡ (last_modified w).0
unfolding last_modified get_key query
last_modified_same w w' h h' same =
    rw (h w.calls, h' w'.calls, if◌then◌else◌, same) (timestamp_result _ _ _)
