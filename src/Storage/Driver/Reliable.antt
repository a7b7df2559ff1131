-- ===== src/Storage/Driver/Reliable.antt =====
-- Operations while no call of the driver fails.
use go_syncstorage.Prelude.{ℕ, ◌≡◌, refl, false, if◌then◌else◌}
use go_syncstorage.Storage.Checks.{now_of}
use go_syncstorage.Storage.Data.{Tables, Result, ok}
use go_syncstorage.Storage.Driver.{World, M, written, step, exec, query, transaction}

-- No call of the driver fails.
abbrev pub IsReliable : World → Type 0
IsReliable w = (k : ℕ) → w.fails k ≡ false

-- The time that the next Now() returns
abbrev pub time_of : World → ℕ
time_of w = now_of (w.nanos w.readings)

module _ {A : Type 0} where
  pub exec_reliable :
      (f : Tables → Result (A × Tables)) (w : World)
      → IsReliable w
      → exec f w ≡ written (step w) (f w.tables)
  unfolding exec
  exec_reliable f w h = rw (h w.calls, if◌then◌else◌) refl

  pub query_reliable :
      (f : Tables → Result A) (w : World) → IsReliable w → query f w ≡ (f w.tables, step w)
  unfolding query
  query_reliable f w h = rw (h w.calls, if◌then◌else◌) refl

-- A transaction whose body succeeds from the world behind Begin
pub transaction-ok :
    {A : Type 0} (m : M A) (w w' : World) (a : A)
    → IsReliable w
    → IsReliable w'
    → m (step w) ≡ (ok a, w')
    → transaction m w ≡ (ok a, step w')
unfolding transaction
transaction-ok m w w' a h h' e = rw (h w.calls, if◌then◌else◌, e, h' w'.calls) refl
