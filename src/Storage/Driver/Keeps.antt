-- ===== src/Storage/Driver/Keeps.antt =====
-- What holds of the tables after an operation, however it ends: one rule for each way to build one.
use go_syncstorage.Prelude.{
  ◌≡◌, refl, Bool, true, false, inl, inr, Bool-cases, arith, if◌then◌else◌,
}
use go_syncstorage.Storage.Data.{Tables, Error, Result, ok, err}
use go_syncstorage.Storage.Driver.{
  World, M, pure, throw, ◌>>=◌, continue, written, step, exec, query, now, attempt, finish,
  transaction,
}

-- `m` keeps `P`, whether it returns or fails
pub record Keeps {ℓ} {A : Type 0} (P : Tables → Type ℓ) (m : M A) : Type ℓ where
  pub at : (w : World) → P w.tables → P (m w).1.tables

-- `m` that fails has changed no table
pub record IsAtomic {A : Type 0} (m : M A) : Type 0 where
  pub at : (w : World) (e : Error) → (m w).0 ≡ err e → (m w).1.tables ≡ w.tables

finish-keeps {ℓ} :
    {A : Type 0} (P : Tables → Type ℓ) (t : Tables) (r : Result A) (w : World)
    → P t
    → P w.tables
    → P (finish t r w).1.tables
unfolding finish
finish-keeps P t (ok a) w h k = elim (Bool-cases (w.fails w.calls)) [
  | inl e ↦ rw (e, if◌then◌else◌) h
  | inr e ↦ rw (e, if◌then◌else◌) k
]
finish-keeps P t (err e) w h k = h

module _ {ℓ} {A : Type 0} {P : Tables → Type ℓ} where
  pub Keeps-pure : (a : A) → Keeps P (pure a)
  Keeps-pure a = record { at = λ w h. h }

  pub Keeps-throw : (e : Error) → Keeps P (throw {A = A} e)
  Keeps-throw e = record { at = λ w h. h }

  pub Keeps-query : (f : Tables → Result A) → Keeps P (query f)
  unfolding query
  Keeps-query f = record {
    at = λ w h. elim (Bool-cases (w.fails w.calls)) [
      | inl e ↦ rw (e, if◌then◌else◌) h
      | inr e ↦ rw (e, if◌then◌else◌) h
    ];
  }

  written-keeps :
      (w : World) (r : Result (A × Tables))
      → P w.tables
      → ((a : A) (t : Tables) → r ≡ ok (a, t) → P t)
      → P (written w r).1.tables
  written-keeps w (ok (a, t)) h k = k a t refl
  written-keeps w (err e) h k = h

  pub Keeps-exec :
      (f : Tables → Result (A × Tables))
      → ((t : Tables) → P t → (a : A) (t' : Tables) → f t ≡ ok (a, t') → P t')
      → Keeps P (exec f)
  unfolding exec
  Keeps-exec f k = record {
    at = λ w h. elim (Bool-cases (w.fails w.calls)) [
      | inl e ↦ rw (e, if◌then◌else◌) h
      | inr e ↦ rw (e, if◌then◌else◌) (written-keeps (step w) (f w.tables) h (k w.tables h))
    ];
  }

  pub Keeps-if : (b : Bool) (m n : M A) → Keeps P m → Keeps P n → Keeps P (if b then m else n)
  Keeps-if true m n km kn = km
  Keeps-if false m n km kn = kn

  pub Keeps-attempt : (m : M A) → Keeps P m → Keeps P (attempt m)
  unfolding attempt
  Keeps-attempt m k = record { at = λ w h. k.at w h }

  pub Keeps-transaction : (m : M A) → Keeps P m → Keeps P (transaction m)
  unfolding transaction
  Keeps-transaction m k = record {
    at = λ w h. elim (Bool-cases (w.fails w.calls)) [
      | inl e ↦ rw (e, if◌then◌else◌) h
      | inr e ↦
          rw (e, if◌then◌else◌)
            (finish-keeps P w.tables (m (step w)).0 (m (step w)).1 h (k.at (step w) h))
    ];
  }

pub Keeps-now {ℓ} : {P : Tables → Type ℓ} → Keeps P now
unfolding now
Keeps-now = record { at = λ w h. h }

module _ {ℓ} {A B : Type 0} {P : Tables → Type ℓ} where
  continue-keeps :
      (r : Result A) (f : A → M B) (w : World)
      → ((a : A) → Keeps P (f a))
      → P w.tables
      → P (continue r f w).1.tables
  continue-keeps (ok a) f w k h = (k a).at w h
  continue-keeps (err e) f w k h = h

  pub Keeps-bind :
      (m : M A) (f : A → M B) → Keeps P m → ((a : A) → Keeps P (f a)) → Keeps P (m >>= f)
  Keeps-bind m f km kf = record { at = λ w h. continue-keeps (m w).0 f (m w).1 kf (km.at w h) }

module _ {A : Type 0} where
  pub IsAtomic-throw : (e : Error) → IsAtomic (throw {A = A} e)
  IsAtomic-throw e = record { at = λ w e' h. refl }

  pub IsAtomic-query : (f : Tables → Result A) → IsAtomic (query f)
  unfolding query
  IsAtomic-query f = record { at = λ w e h. ground arith }

  pub IsAtomic-if : (b : Bool) (m n : M A) → IsAtomic m → IsAtomic n → IsAtomic (if b then m else n)
  IsAtomic-if true m n am an = am
  IsAtomic-if false m n am an = an

  finish-atomic :
      (t : Tables) (r : Result A) (w : World) (e : Error)
      → (finish t r w).0 ≡ err e
      → (finish t r w).1.tables ≡ t
  unfolding finish
  finish-atomic t (ok a) w e h = ground arith
  finish-atomic t (err e') w e h = refl

  -- A transaction that returns an error has changed no table, whatever its body does.
  pub IsAtomic-transaction : (m : M A) → IsAtomic (transaction m)
  unfolding transaction
  IsAtomic-transaction m = record {
    at = λ w e h. ground (arith, finish-atomic w.tables (m (step w)).0 (m (step w)).1 e);
  }

pub ruleset keeps_rules = (
  Keeps-pure, Keeps-throw, Keeps-query, Keeps-if, Keeps-attempt, Keeps-transaction, Keeps-now,
  Keeps-bind,
)
