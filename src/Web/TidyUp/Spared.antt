-- ===== src/Web/TidyUp/Spared.antt =====
-- web/syncUserHandler.go: what TidyUp leaves of the tables, however it ends.
use mathlib.Core.Path.{subst}
use go_syncstorage.Prelude.{
  ℕ, ◌+◌, ◌≡◌, refl, ◌⊎◌, inl, inr, true, Option, none, some, List, [], ◌∷◌, if◌then◌else◌,
  Bool-cases,
}
use go_syncstorage.Prelude.Int.{ℤ, pos, ◌+ℤ◌, lt_int}
use go_syncstorage.Prelude.Text.{Text}
use go_syncstorage.Storage.Checks.{now_of}
use go_syncstorage.Storage.Data.{Tables, BsoRow, Result, ok, err}
use go_syncstorage.Storage.Driver.{World, step, exec, query, now}
use go_syncstorage.Storage.Driver.Reliable.{time_of}
use go_syncstorage.Storage.Keys.{lookup, storage_last_modified, get_key}
use go_syncstorage.Storage.Bso.{keep_rows}
use go_syncstorage.Storage.Erase.{purge_expired}
use go_syncstorage.Storage.Erase.Kept.{is_live}
use go_syncstorage.Storage.Usage.{Pages, error_of}
use go_syncstorage.Web.TidyUp.{Tidier, next_purge, Times, purge, by_next, by_text, tidy_up}
use go_syncstorage.Web.TidyUp.Leaves.{
  Holds, Leaves, Leaves-time, Leaves-ask, Leaves-ended, set_key-Keeps, purged-Leaves,
}

-- The BSOs are as they were, or those that had expired by the time `time` are gone.
abbrev pub Purged : ℕ → List BsoRow → List BsoRow → Type 0
Purged time b b' = (b' ≡ b) ⊎ (b' ≡ keep_rows (is_live time) b)

-- The tables after TidyUp, which purged at `time` if it did
pub record IsSpared (time : ℕ) (t t' : Tables) : Type 0 where
  pub bso : Purged time t.bso t'.bso
  pub collections : t'.collections ≡ t.collections
  pub modified :
      lookup storage_last_modified t'.key_values ≡ lookup storage_last_modified t.key_values

abbrev As : Tables → Tables → Type 0
As t = Holds t.bso t.collections (lookup storage_last_modified t.key_values)

As-self : (t : Tables) → As t t
As-self t = record { bso = refl; collections = refl; modified = refl }

As-IsSpared : (time : ℕ) (t t' : Tables) → As t t' → IsSpared time t t'
As-IsSpared time t t' h = record {
  bso = inl h.bso;
  collections = h.collections;
  modified = h.modified;
}

left-IsSpared :
    (m : Tidier) (time : ℕ) (w : World)
    → Leaves (As w.tables) m
    → IsSpared time w.tables (m w).1.tables
left-IsSpared m time w l = As-IsSpared time w.tables _ (l.at w (As-self w.tables))

purge_expired-tables :
    (w : World)
    → ((purge_expired w).1.tables ≡ w.tables)
      ⊎ ((purge_expired w).1.tables
          ≡ record w.tables { bso = keep_rows (is_live (time_of w)) w.tables.bso })
unfolding purge_expired now exec
purge_expired-tables w = elim (Bool-cases (w.fails w.calls)) [
  | inl e ↦ rw (e, if◌then◌else◌) (inl refl)
  | inr e ↦ rw (e, if◌then◌else◌) (inr refl)
]

get_key-world : (k : Text) (w : World) → (get_key k w).1 ≡ step w
unfolding get_key query
get_key-world k w = elim (Bool-cases (w.fails w.calls)) [
  | inl e ↦ rw (e, if◌then◌else◌) refl
  | inr e ↦ rw (e, if◌then◌else◌) refl
]

behind_purge :
    (time : ℕ) (t t1 t' : Tables)
    → (t1 ≡ t) ⊎ (t1 ≡ record t { bso = keep_rows (is_live time) t.bso })
    → As t1 t'
    → IsSpared time t t'
behind_purge time t t1 t' (inl e) h = As-IsSpared time t t' (subst (λ u. As u t') e h)
behind_purge time t t1 t' (inr e) h =
    let k : As (record t { bso = keep_rows (is_live time) t.bso }) t' = subst (λ u. As u t') e h in
    record { bso = inr k.bso; collections = k.collections; modified = k.modified }

module _ (times : Times) (p : Pages) (ttl : ℕ) (min max : ℤ) (kb : ℤ) where
  purge-IsSpared :
      (start : ℕ) (w : World)
      → IsSpared
          (now_of (w.nanos (w.readings + 1)))
          w.tables
          (purge times p ttl min max kb start w).1.tables
  unfolding purge
  purge-IsSpared start w =
      let u = record w { readings = w.readings + 1 } in
      let v = (purge_expired u).1 in
      behind_purge (time_of u) w.tables v.tables _ (purge_expired-tables u) (
        (purged-Leaves v.tables.bso v.tables.collections
            (lookup storage_last_modified v.tables.key_values) times p ttl min max kb start
            (purge_expired u).0).at
          v (As-self v.tables))

  by_next-IsSpared :
      (start : ℕ) (o : Option ℤ) (w : World)
      → IsSpared
          (now_of (w.nanos (w.readings + 1 + 1)))
          w.tables
          (by_next times p ttl min max kb start o w).1.tables
  by_next-IsSpared start none w = left-IsSpared _ _ w (
      Leaves-time _ (λ t.
        Leaves-ask _ _ (set_key-Keeps _ _ _ (times.format_time (pos t)))
          (λ r. Leaves-ended start true none)))
  by_next-IsSpared start (some next) w =
      elim (Bool-cases (lt_int (pos (w.nanos w.readings)) next)) [
        | inl early ↦ rw (early, if◌then◌else◌) (As-IsSpared _ w.tables _ (As-self w.tables))
        | inr due ↦
            rw (due, if◌then◌else◌) (purge-IsSpared start (record w { readings = w.readings + 1 }))
      ]

  by_text-IsSpared :
      (start : ℕ) (r : Result Text) (w : World)
      → IsSpared
          (now_of (w.nanos (w.readings + 1 + 1)))
          w.tables
          (by_text times p ttl min max kb start r w).1.tables
  by_text-IsSpared start (err e) w = left-IsSpared _ _ w (Leaves-ended start true (some e))
  by_text-IsSpared start (ok []) w = left-IsSpared _ _ w (
      Leaves-time _ (λ t.
        Leaves-ask _ _ (set_key-Keeps _ _ _ (times.format_time (pos t +ℤ max)))
          (λ r. Leaves-ended start true (error_of r))))
  by_text-IsSpared start (ok (c ∷ s)) w = by_next-IsSpared start (times.parse_time (c ∷ s)) w

  -- However TidyUp ends and wherever the driver fails, the BSOs are as they were or without those that
  -- had expired at the fourth reading of the clock, which PurgeExpired makes; the collections with
  -- their times, and the time of the storage, are as they were.
  pub tidy_up-IsSpared :
      (w : World)
      → IsSpared
          (now_of (w.nanos (w.readings + 1 + 1 + 1)))
          w.tables
          (tidy_up times p ttl min max kb w).1.tables
  unfolding tidy_up
  tidy_up-IsSpared w =
      let u = record w { readings = w.readings + 1 } in
      rw (get_key-world next_purge u)
        (by_text-IsSpared (w.nanos w.readings) (get_key next_purge u).0 (step u))
