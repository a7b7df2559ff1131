-- ===== src/Storage/Usage.antt =====
-- syncstorage/db.go: Usage, FreePercent, Optimize and Vacuum. What SQLite answers to a PRAGMA is a
-- parameter, a value for each call of the driver.
use go_syncstorage.Prelude.{ℕ, Bool, true, false, Option, none, some, ◌==◌, if◌then◌else◌}
use go_syncstorage.Prelude.Int.{ℤ, pos, le_int}
use go_syncstorage.Storage.Data.{Error, Result, ok, err, driver_failure}
use go_syncstorage.Storage.Driver.{World, M, pure, ◌>>=◌, step, exec}

-- The values of the PRAGMAs at the k-th call
pub record Pages : Type 0 where
  pub page_count : ℕ → ℕ
  pub freelist_count : ℕ → ℕ
  pub page_size : ℕ → ℕ

-- DBPageStats
pub record PageStats : Type 0 where
  pub size : ℕ
  pub total : ℕ
  pub free : ℕ

-- float32, as far as FreePercent needs it: conversions from and to int, / and *
pub record Single : Type 1 where
  pub Float : Type 0
  pub of_int : ℤ → Float
  pub to_int : Float → ℤ
  pub over : Float → Float → Float
  pub times : Float → Float → Float

-- QueryRow of a PRAGMA
unfoldable pub pragma : (ℕ → ℕ) → M ℕ
pragma value w =
    if w.fails w.calls then (err driver_failure, step w) else (ok (value w.calls), step w)

-- Vacuum: the rows stay as they are.
unfoldable pub vacuum : M (Unit {0})
vacuum = exec (λ t. ok (tt, t))

-- FreePercent
unfoldable pub free_percent : Single → PageStats → ℤ
free_percent f s =
    if s.total == 0
    then pos 0
    else f.to_int
        (f.times (f.over (f.of_int (pos s.free)) (f.of_int (pos s.total))) (f.of_int (pos 100)))

-- What Optimize returns: whether it vacuumed, and the error
pub record Optimized : Type 0 where
  pub it_happened : Bool
  pub error : Option Error

abbrev pub error_of : {A : Type 0} → Result A → Option Error
error_of (ok a) = none
error_of (err e) = some e

module _ (p : Pages) where
  -- Usage
  unfoldable pub usage : M PageStats
  unfolding pragma
  usage = do
    total ← pragma p.page_count
    free ← pragma p.freelist_count
    size ← pragma p.page_size
    pure (record { size = size; total = total; free = free })

  abbrev pub optimized : Result (Unit {0}) × World → Optimized × World
  optimized (r, w) = (record { it_happened = true; error = error_of r }, w)

  abbrev pub optimize_by : Single → ℤ → Result PageStats → World → Optimized × World
  optimize_by f threshold (err e) w = (record { it_happened = false; error = some e }, w)
  optimize_by f threshold (ok s) w =
      if le_int threshold (free_percent f s)
      then optimized (vacuum w)
      else (record { it_happened = false; error = none }, w)

  -- Optimize
  unfoldable pub optimize : Single → ℤ → World → Optimized × World
  unfolding usage free_percent vacuum
  optimize f threshold w = optimize_by f threshold (usage w).0 (usage w).1
