-- ===== src/Tests/Data.antt =====
-- Databases that the tests share.
use go_syncstorage.Prelude.{ℕ, ◌+◌, ◌*◌, refl, false, [], ◌∷◌}
use go_syncstorage.Prelude.Int.{pos}
use go_syncstorage.Prelude.Text.{Text, codes}
use go_syncstorage.Storage.Checks.{bso_id_ok, sort_index_ok}
use go_syncstorage.Storage.Data.{BsoRow, new_tables}
use go_syncstorage.Storage.Driver.{World}
use go_syncstorage.Storage.Bso.{find_row}
use go_syncstorage.Storage.Bso.Invariant.{RowsValid}

-- The clock shows 1500000000.001 s and then 20 ms more at each reading.
abbrev pub clock : ℕ → ℕ
clock k = 1500000000001000000 + k * 20000000

abbrev pub start : World
start = record { tables = new_tables; fails = λ _. false; calls = 0; nanos = clock; readings = 0 }

abbrev pub id : Text
id = codes "aBcD"

-- A database with one BSO, which expires at 1500000000.500 s
abbrev pub row : BsoRow
row = record {
  collection_id = 7;
  id = id;
  sort_index = pos 0;
  payload = codes "hello";
  payload_size = 5;
  modified = 1500000000000;
  ttl = pos 1500000000500;
}

abbrev pub one_bso : World
one_bso = record start { tables = record new_tables { bso = row ∷ [] } }

pub one_bso-RowsValid : RowsValid (row ∷ [])
unfolding bso_id_ok sort_index_ok find_row
one_bso-RowsValid = (record { id = refl; sort_index = refl; size = refl }, refl, tt)
