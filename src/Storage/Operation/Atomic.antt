-- ===== src/Storage/Operation/Atomic.antt =====
-- Which operations change nothing when they fail, and what a failed Commit does.
use go_syncstorage.Prelude.{ℕ, ◌+◌, ◌≡◌, refl, true, false, arith, if◌then◌else◌, ◌∙◌}
use go_syncstorage.Storage.Checks.{collection_name_ok}
use go_syncstorage.Storage.Data.{Tables, Error, Result, ok, err}
use go_syncstorage.Storage.Driver.{
  World, M, pure, ◌>>=◌, continue, written, step, exec, now, transaction,
}
use go_syncstorage.Storage.Driver.Keeps.{
  IsAtomic, IsAtomic-throw, IsAtomic-if, IsAtomic-transaction,
}
use go_syncstorage.Storage.Driver.Reliable.{time_of}
use go_syncstorage.Storage.Keys.{set_key}
use go_syncstorage.Storage.Bso.{put_bso, post_bsos}
use go_syncstorage.Storage.Erase.{delete_bsos, purge_expired}
use go_syncstorage.Storage.Collections.{create_collection, delete_collection}
use go_syncstorage.Storage.Batch.{batch_create, batch_append, batch_remove, batch_purge}
use go_syncstorage.Storage.Operation.{Operation, perform, ignore}

-- DeleteEverything and TouchCollection make several statements outside any transaction.
abbrev pub IsOneStep : Operation → Type 0
IsOneStep (Operation.delete_everything date) = ⊥
IsOneStep (Operation.touch_collection c m) = ⊥
IsOneStep _ = Unit

written-atomic :
    {A : Type 0} (w : World) (r : Result (A × Tables)) (e : Error)
    → (written w r).0 ≡ err e
    → (written w r).1.tables ≡ w.tables
written-atomic w (ok (a, t)) e h = cc
written-atomic w (err e') e h = refl

exec-IsAtomic : {A : Type 0} (f : Tables → Result (A × Tables)) → IsAtomic (exec f)
unfolding exec
exec-IsAtomic f = record { at = λ w e h. ground (arith, written-atomic (step w) (f w.tables) e) }

continue-ignore :
    {A : Type 0} (r : Result A) (w : World) (e : Error)
    → (continue r (λ _. pure tt) w).0 ≡ err e
    → (r ≡ err e) × ((continue r (λ _. pure tt) w).1.tables ≡ w.tables)
continue-ignore (ok a) w e h = absurd (cc)
continue-ignore (err e') w e h = (cc, refl)

ignore-IsAtomic : {A : Type 0} (m : M A) → IsAtomic m → IsAtomic (ignore m)
ignore-IsAtomic m a = record {
  at = λ w e h. let (failed, same) = continue-ignore (m w).0 (m w).1 e h in same ∙ a.at w e failed;
}

now-IsAtomic : {A : Type 0} (f : ℕ → M A) → ((m : ℕ) → IsAtomic (f m)) → IsAtomic (now >>= f)
unfolding now
now-IsAtomic f a = record {
  at = λ w e h. (a (time_of w)).at (record w { readings = w.readings + 1 }) e h;
}

perform-IsAtomic : (o : Operation) → IsOneStep o → IsAtomic (perform o)
unfolding perform put_bso post_bsos delete_bsos purge_expired create_collection delete_collection
    batch_create batch_append batch_remove batch_purge set_key
perform-IsAtomic (Operation.put_bso c i payload sort_index ttl) h =
    ignore-IsAtomic _ (IsAtomic-transaction _)
perform-IsAtomic (Operation.post_bsos c input) h = ignore-IsAtomic _ (IsAtomic-transaction _)
perform-IsAtomic (Operation.delete_bsos c i ids) h = ignore-IsAtomic _ (IsAtomic-transaction _)
perform-IsAtomic Operation.purge_expired h =
    ignore-IsAtomic _ (now-IsAtomic _ (λ time. exec-IsAtomic _))
perform-IsAtomic (Operation.create_collection name) h =
    ignore-IsAtomic _
      (IsAtomic-if (collection_name_ok name) _ _ (IsAtomic-transaction _) (IsAtomic-throw _))
perform-IsAtomic (Operation.delete_collection c) h = ignore-IsAtomic _ (IsAtomic-transaction _)
perform-IsAtomic (Operation.delete_everything date) h = absurd h
perform-IsAtomic (Operation.touch_collection c m) h = absurd h
perform-IsAtomic (Operation.set_key k v) h = exec-IsAtomic _
perform-IsAtomic (Operation.batch_create c text) h = ignore-IsAtomic _ (IsAtomic-transaction _)
perform-IsAtomic (Operation.batch_append i c text) h = IsAtomic-transaction _
perform-IsAtomic (Operation.batch_remove i) h = IsAtomic-transaction _
perform-IsAtomic (Operation.batch_purge ttl) h =
    ignore-IsAtomic _ (now-IsAtomic _ (λ time. exec-IsAtomic _))

-- Every operation but DeleteEverything and TouchCollection is all or nothing: when it returns an
-- error, wherever the driver failed, the tables are as they were.
pub perform_lem :
    (o : Operation) (w : World) (e : Error)
    → IsOneStep o
    → (perform o w).0 ≡ err e
    → (perform o w).1.tables ≡ w.tables
perform_lem o w e one failed = (perform-IsAtomic o one).at w e failed

-- The program ignores the error of Commit: a transaction whose body succeeds and whose Commit fails
-- returns success, and none of what it wrote is in the database.
pub transaction-lost_commit :
    {A : Type 0} (m : M A) (w : World) (a : A)
    → w.fails w.calls ≡ false
    → (m (step w)).0 ≡ ok a
    → (m (step w)).1.fails (m (step w)).1.calls ≡ true
    → ((transaction m w).0 ≡ ok a) × ((transaction m w).1.tables ≡ w.tables)
unfolding transaction
transaction-lost_commit m w a begun succeeded failed =
    rw (begun, if◌then◌else◌, succeeded, failed) (refl, refl)
