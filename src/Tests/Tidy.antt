-- ===== src/Tests/Tidy.antt =====
-- TidyUp of a database with one BSO that has expired.
use go_syncstorage.Prelude.{refl, [], ◌∷◌}
use go_syncstorage.Prelude.Int.{pos}
use go_syncstorage.Prelude.Text.{codes, text_eq}
use go_syncstorage.Strconv.{itoa, parse_int}
use go_syncstorage.Storage.Checks.{now_of}
use go_syncstorage.Storage.Data.{new_tables}
use go_syncstorage.Storage.Driver.{World}
use go_syncstorage.Storage.Bso.{keep_rows}
use go_syncstorage.Storage.Erase.Kept.{is_live}
use go_syncstorage.Storage.Keys.{lookup}
use go_syncstorage.Storage.Usage.{Pages}
use go_syncstorage.Web.TidyUp.{Times, tidy_up, next_purge}
use go_syncstorage.Web.TidyUp.Due.{IsRandom, IsTidied, fresh_batches, tidy_up-IsTidied}
use go_syncstorage.Web.TidyUp.Spared.{IsSpared, tidy_up-IsSpared}
use go_syncstorage.Tests.Data.{start, row}

-- A generator that draws 0
abbrev times : Times
times = record { parse_time = parse_int; format_time = itoa; random = λ k n. pos 0 }

times-IsRandom : IsRandom times
times-IsRandom = record { to = λ k n h. h }

abbrev pages : Pages
pages = record { page_count = λ k. 100; freelist_count = λ k. 50; page_size = λ k. 4096 }

-- Its next purge was due at 5 ns.
abbrev due : World
due = record start {
  tables = record new_tables { bso = row ∷ []; key_values = (next_purge, codes "5") ∷ [] };
}

tidy_up-IsTidied_example :
    IsTidied times
      (pos 10)
      (pos 1000)
      (keep_rows (is_live (now_of (due.nanos 3))) due.tables.bso)
      (fresh_batches 7200000 (now_of (due.nanos 4)) due.tables.batches)
      due
      (tidy_up times pages 7200000 (pos 10) (pos 1000) (pos 100) due)
unfolding lookup text_eq parse_int
tidy_up-IsTidied_example =
    tidy_up-IsTidied times times-IsRandom pages 7200000 (pos 10) (pos 1000) (pos 100) due b'5' []
      (pos 5) (λ k. refl) refl refl refl

tidy_up-IsSpared_example :
    IsSpared
      (now_of (due.nanos 3))
      due.tables
      (tidy_up times pages 7200000 (pos 10) (pos 1000) (pos 100) due).1.tables
tidy_up-IsSpared_example = tidy_up-IsSpared times pages 7200000 (pos 10) (pos 1000) (pos 100) due
