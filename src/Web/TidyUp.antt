-- ===== src/Web/TidyUp.antt =====
-- web/syncUserHandler.go: TidyUp. The formats of times, the random numbers and the page counts of
-- SQLite are parameters; what goes to the log is left off, though the clock is read for it.
pub mod Leaves
pub mod Spared
pub mod Due
use go_syncstorage.Prelude.{
  ℕ, ◌+◌, ◌/◌, suc, Bool, true, false, ◌&&◌, Option, none, some, [], ◌∷◌, if◌then◌else◌,
}
use go_syncstorage.Prelude.Int.{ℤ, pos, negsuc, ◌+ℤ◌, lt_int, le_int, mul_int, sub_ℕ}
use go_syncstorage.Prelude.Text.{Text, codes}
use go_syncstorage.Storage.Data.{Error, Result, ok, err}
use go_syncstorage.Storage.Driver.{World, M}
use go_syncstorage.Storage.Keys.{get_key, set_key}
use go_syncstorage.Storage.Erase.{purge_expired}
use go_syncstorage.Storage.Batch.{batch_purge}
use go_syncstorage.Storage.Usage.{Pages, PageStats, usage, vacuum, error_of}

-- What TidyUp returns
pub record Tidied : Type 0 where
  pub skipped : Bool
  pub took : ℤ
  pub error : Option Error

abbrev pub Tidier : Type 0
Tidier = World → Tidied × World

-- time.Now(), in nanoseconds
abbrev pub with_time : (ℕ → Tidier) → Tidier
with_time k w = k (w.nanos w.readings) (record w { readings = w.readings + 1 })

-- A reading for the log
abbrev pub tick : Tidier → Tidier
tick k = with_time λ t. k

abbrev pub ask : {A : Type 0} → M A → (Result A → Tidier) → Tidier
ask m k w = k (m w).0 (m w).1

abbrev pub answer : Tidied → Tidier
answer r w = (r, w)

-- The end, with time.Since(start)
abbrev pub ended : ℕ → Bool → Option Error → Tidier
ended start skipped e =
    with_time λ t. answer (record { skipped = skipped; took = sub_ℕ t start; error = e })

-- NEXT_PURGE
abbrev pub next_purge : Text
next_purge = codes "NEXT_PURGE"

-- Division by 1024 of Go's int, towards zero
abbrev pub over_1024 : ℤ → ℤ
over_1024 (pos n) = pos (n / 1024)
over_1024 (negsuc n) = sub_ℕ 0 (suc n / 1024)

abbrev pub free_kb : PageStats → ℤ
free_kb s = over_1024 (mul_int (pos s.free) (pos s.size))

-- time.Parse and Format with RFC3339Nano, in nanoseconds; and rand.Int63n, the number of readings of
-- the clock standing for the state of the generator
pub record Times : Type 0 where
  pub parse_time : Text → Option ℤ
  pub format_time : ℤ → Text
  pub random : ℕ → ℤ → ℤ

abbrev pub at_least : ℤ → ℤ → ℤ
at_least min d = if lt_int d min then min else d

module _ (times : Times) (p : Pages) (max_batch_ttl : ℕ) (min max : ℤ) (vacuum_kb : ℤ) where
  -- The time to the next purge, with the number of readings so far
  unfoldable pub delta_time : ℕ → ℤ
  delta_time k = at_least min (if lt_int (pos 0) max then times.random k max else min)

  abbrev pub scheduled : ℕ → Result (Unit {0}) → Tidier
  scheduled start (err e) = ended start true (some e)
  scheduled start (ok _) = ended start false none

  -- The last part; the number is drawn before the clock is read.
  unfoldable pub schedule : ℕ → Tidier
  unfolding delta_time
  schedule start w =
      with_time
        (λ t.
          ask (set_key next_purge (times.format_time (pos t +ℤ delta_time w.readings)))
            (scheduled start))
        w

  abbrev pub usage_again : ℕ → Result PageStats → Tidier
  usage_again start (err e) = ended start true (some e)
  usage_again start (ok after) = tick (schedule start)

  abbrev pub vacuumed : ℕ → Result (Unit {0}) → Tidier
  vacuumed start (err e) = ended start true (some e)
  vacuumed start (ok _) = ask (usage p) (usage_again start)

  -- The vacuum, if there are too many free blocks
  unfoldable pub vacuum_if : ℕ → PageStats → Tidier
  unfolding schedule
  vacuum_if start s = tick (
      if lt_int (pos 0) vacuum_kb && le_int vacuum_kb (free_kb s)
      then ask vacuum (vacuumed start)
      else schedule start)

  abbrev pub usage_known : ℕ → Result PageStats → Tidier
  usage_known start (err e) = ended start true (some e)
  usage_known start (ok s) = tick (vacuum_if start s)

  abbrev pub batches_purged : ℕ → Result ℕ → Tidier
  batches_purged start (err e) = ended start true (some e)
  batches_purged start (ok n) = ask (usage p) (usage_known start)

  abbrev pub bsos_purged : ℕ → Result ℕ → Tidier
  bsos_purged start (err e) = ended start true (some e)
  bsos_purged start (ok n) = ask (batch_purge (pos max_batch_ttl)) (batches_purged start)

  unfoldable pub purge : ℕ → Tidier
  unfolding vacuum_if
  purge start = tick (ask purge_expired (bsos_purged start))

  -- By the time of the next purge, if its text is one
  abbrev pub by_next : ℕ → Option ℤ → Tidier
  by_next start none =
      with_time λ t. ask (set_key next_purge (times.format_time (pos t))) λ r. ended start true none
  by_next start (some next) = with_time λ t.
      if lt_int (pos t) next
      then answer (record { skipped = true; took = pos 0; error = none })
      else purge start

  -- A database that has never been purged is left for another time.
  abbrev pub by_text : ℕ → Result Text → Tidier
  by_text start (err e) = ended start true (some e)
  by_text start (ok []) = with_time λ t.
      ask (set_key next_purge (times.format_time (pos t +ℤ max))) λ r. ended start true (error_of r)
  by_text start (ok (c ∷ s)) = by_next start (times.parse_time (c ∷ s))

  -- TidyUp
  unfoldable pub tidy_up : Tidier
  unfolding purge
  tidy_up = with_time λ start. ask (get_key next_purge) (by_text start)
