-- ===== src/Storage/Driver/Steady.antt =====
-- Operations do not choose which calls of the driver fail.
use go_syncstorage.Prelude.{◌≡◌, refl, ◌∙◌, Bool, true, false, if◌then◌else◌, arith}
use go_syncstorage.Storage.Data.{Tables, Error, Result, ok, err}
use go_syncstorage.Storage.Driver.{
  World, M, pure, throw, ◌>>=◌, continue, written, step, exec, query, now, attempt, finish,
  transaction,
}
use go_syncstorage.Storage.Driver.Reliable.{IsReliable}

pub record IsSteady {A : Type 0} (m : M A) : Type 0 where
  pub at : (w : World) → (m w).1.fails ≡ w.fails

-- A driver that works goes on working.
pub IsSteady-IsReliable :
    {A : Type 0} (m : M A) (w : World) → IsSteady m → IsReliable w → IsReliable (m w).1
IsSteady-IsReliable m w s h k = rw (s.at w) (h k)

module _ {A : Type 0} where
  pub IsSteady-pure : (a : A) → IsSteady (pure a)
  IsSteady-pure a = record { at = λ w. refl }

  pub IsSteady-throw : (e : Error) → IsSteady (throw {A = A} e)
  IsSteady-throw e = record { at = λ w. refl }

  pub IsSteady-query : (f : Tables → Result A) → IsSteady (query f)
  unfolding query
  IsSteady-query f = record { at = λ w. ground arith }

  written_fails : (w : World) (r : Result (A × Tables)) → (written w r).1.fails ≡ w.fails
  written_fails w (ok (a, t)) = refl
  written_fails w (err e) = refl

  pub IsSteady-exec : (f : Tables → Result (A × Tables)) → IsSteady (exec f)
  unfolding exec
  IsSteady-exec f = record { at = λ w. ground (arith, written_fails (step w) (f w.tables)) }

  pub IsSteady-if : (b : Bool) (m n : M A) → IsSteady m → IsSteady n → IsSteady (if b then m else n)
  IsSteady-if true m n a c = a
  IsSteady-if false m n a c = c

  pub IsSteady-attempt : (m : M A) → IsSteady m → IsSteady (attempt m)
  unfolding attempt
  IsSteady-attempt m a = record { at = a.at }

  finish_fails : (t : Tables) (r : Result A) (w : World) → (finish t r w).1.fails ≡ w.fails
  unfolding finish
  finish_fails t (ok a) w = ground arith
  finish_fails t (err e) w = refl

  pub IsSteady-transaction : (m : M A) → IsSteady m → IsSteady (transaction m)
  unfolding transaction
  IsSteady-transaction m s = record {
    at = λ w. ground (arith, finish_fails w.tables (m (step w)).0 (m (step w)).1, s.at (step w));
  }

pub IsSteady-now : IsSteady now
unfolding now
IsSteady-now = record { at = λ w. refl }

module _ {A B : Type 0} where
  continue_fails :
      (r : Result A) (f : A → M B) (w : World)
      → ((a : A) → IsSteady (f a))
      → (continue r f w).1.fails ≡ w.fails
  continue_fails (ok a) f w k = (k a).at w
  continue_fails (err e) f w k = refl

  pub IsSteady-bind :
      (m : M A) (f : A → M B) → IsSteady m → ((a : A) → IsSteady (f a)) → IsSteady (m >>= f)
  IsSteady-bind m f a k = record { at = λ w. continue_fails (m w).0 f (m w).1 k ∙ a.at w }

pub ruleset steady_rules = (
  IsSteady-pure, IsSteady-throw, IsSteady-query, IsSteady-exec, IsSteady-if, IsSteady-attempt,
  IsSteady-transaction, IsSteady-now, IsSteady-bind,
)
