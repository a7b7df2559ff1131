-- ===== src/Storage/Driver.antt =====
-- What the program asks of its surroundings: the database driver (database/sql over SQLite) and the
-- clock. A statement runs whole or, when the driver fails, not at all.
pub mod Keeps
pub mod Reliable
pub mod Steady
pub mod ReadOnly
use go_syncstorage.Prelude.{ℕ, ◌+◌, Bool, if◌then◌else◌}
use go_syncstorage.Storage.Checks.{now_of}
use go_syncstorage.Storage.Data.{Tables, Error, Result, ok, err, driver_failure, nil_rows}

-- The k-th call of the driver fails if `fails k`; the k-th reading of the clock is `nanos k`.
pub record World : Type 0 where
  pub tables : Tables
  pub fails : ℕ → Bool
  pub calls : ℕ
  pub nanos : ℕ → ℕ
  pub readings : ℕ

-- An operation: what it returns, and the world after it. What was done before an error stays done.
abbrev pub M : Type 0 → Type 0
M A = World → Result A × World

module _ {A : Type 0} where
  abbrev pub pure : A → M A
  pure a w = (ok a, w)

  abbrev pub throw : Error → M A
  throw e w = (err e, w)

-- After a step: the rest of the block, or the error.
abbrev pub continue : {A B : Type 0} → Result A → (A → M B) → M B
continue (ok a) f w = f a w
continue (err e) f w = (err e, w)

infixl 5 ◌>>=◌ ◌>>◌
abbrev pub ◌>>=◌ : {A B : Type 0} → M A → (A → M B) → M B
◌>>=◌ m f w = continue (m w).0 f (m w).1

abbrev pub ◌>>◌ : {A B : Type 0} → M A → M B → M B
m >> k = m >>= λ _. k

-- The next call of the driver: does it fail?
abbrev pub step : World → World
step w = record w { calls = w.calls + 1 }

-- A statement that succeeded writes the tables; one that failed leaves them.
abbrev pub written : {A : Type 0} → World → Result (A × Tables) → Result A × World
written w (ok (a, t)) = (ok a, record w { tables = t })
written w (err e) = (err e, w)

module _ {A : Type 0} where
  -- tx.Exec, db.Exec
  unfoldable pub exec : (Tables → Result (A × Tables)) → M A
  exec f w = if w.fails w.calls then (err driver_failure, step w) else written (step w) (f w.tables)

  -- tx.QueryRow, db.Query
  unfoldable pub query : (Tables → Result A) → M A
  query f w = if w.fails w.calls then (err driver_failure, step w) else (f w.tables, step w)

  -- db.Query whose rows are closed, by defer, whether it failed or not
  unfoldable pub query_closing : (Tables → Result A) → M A
  query_closing f w = if w.fails w.calls then (err nil_rows, step w) else (f w.tables, step w)

-- Now()
unfoldable pub now : M ℕ
now w = (ok (now_of (w.nanos w.readings)), record w { readings = w.readings + 1 })

-- A step whose error is a value, for code that goes on after it.
unfoldable pub attempt : {A : Type 0} → M A → M (Result A)
attempt m w = (ok (m w).0, (m w).1)

-- The end of a transaction that began with the tables `t`: Commit, whose error the program ignores,
-- or Rollback.
unfoldable pub finish : {A : Type 0} → Tables → Result A → World → Result A × World
finish t (ok a) w =
    if w.fails w.calls then (ok a, record (step w) { tables = t }) else (ok a, step w)
finish t (err e) w = (err e, record w { tables = t })

-- Begin, the body, and Commit or Rollback
unfoldable pub transaction : {A : Type 0} → M A → M A
unfolding finish
transaction m w =
    if w.fails w.calls
    then (err driver_failure, step w)
    else finish w.tables (m (step w)).0 (m (step w)).1
