-- ===== src/Storage/Driver/ReadOnly.antt =====
-- Operations that read the tables and the clock and write nothing.
use go_syncstorage.Prelude.{◌≡◌, refl, ◌∙◌, Bool, true, false, if◌then◌else◌, arith}
use go_syncstorage.Storage.Data.{Tables, Error, Result, ok, err}
use go_syncstorage.Storage.Driver.{
  World, M, pure, throw, ◌>>=◌, continue, query, query_closing, now, attempt,
}

-- However it ends, the tables are as they were.
pub record IsReadOnly {A : Type 0} (m : M A) : Type 0 where
  pub at : (w : World) → (m w).1.tables ≡ w.tables

module _ {A : Type 0} where
  pub IsReadOnly-pure : (a : A) → IsReadOnly (pure a)
  IsReadOnly-pure a = record { at = λ w. refl }

  pub IsReadOnly-throw : (e : Error) → IsReadOnly (throw {A = A} e)
  IsReadOnly-throw e = record { at = λ w. refl }

  pub IsReadOnly-query : (f : Tables → Result A) → IsReadOnly (query f)
  unfolding query
  IsReadOnly-query f = record { at = λ w. ground arith }

  pub IsReadOnly-query_closing : (f : Tables → Result A) → IsReadOnly (query_closing f)
  unfolding query_closing
  IsReadOnly-query_closing f = record { at = λ w. ground arith }

  pub IsReadOnly-if :
      (b : Bool) (m n : M A) → IsReadOnly m → IsReadOnly n → IsReadOnly (if b then m else n)
  IsReadOnly-if true m n a c = a
  IsReadOnly-if false m n a c = c

  pub IsReadOnly-attempt : (m : M A) → IsReadOnly m → IsReadOnly (attempt m)
  unfolding attempt
  IsReadOnly-attempt m a = record { at = a.at }

pub IsReadOnly-now : IsReadOnly now
unfolding now
IsReadOnly-now = record { at = λ w. refl }

module _ {A B : Type 0} where
  continue_reads :
      (r : Result A) (f : A → M B) (w : World)
      → ((a : A) → IsReadOnly (f a))
      → (continue r f w).1.tables ≡ w.tables
  continue_reads (ok a) f w k = (k a).at w
  continue_reads (err e) f w k = refl

  pub IsReadOnly-bind :
      (m : M A) (f : A → M B) → IsReadOnly m → ((a : A) → IsReadOnly (f a)) → IsReadOnly (m >>= f)
  IsReadOnly-bind m f a k = record { at = λ w. continue_reads (m w).0 f (m w).1 k ∙ a.at w }

pub ruleset read_rules = (
  IsReadOnly-pure, IsReadOnly-throw, IsReadOnly-query, IsReadOnly-query_closing, IsReadOnly-if,
  IsReadOnly-attempt, IsReadOnly-now, IsReadOnly-bind,
)
