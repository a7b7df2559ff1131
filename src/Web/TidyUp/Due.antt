-- ===== src/Web/TidyUp/Due.antt =====
-- web/syncUserHandler.go: TidyUp at the time of a purge, while the driver works.
use go_syncstorage.Prelude.{
  ℕ, ◌+◌, ◌≤◌, ◌<◌, ◌≡◌, refl, ◌⊎◌, inl, inr, true, false, none, some, List, ◌∷◌, ◌&&◌, not, arith,
  if◌then◌else◌, Bool-cases,
}
use go_syncstorage.Prelude.Int.{ℤ, pos, ◌+ℤ◌, lt_int, le_int}
use go_syncstorage.Prelude.Text.{Text, text_eq_refl}
use go_syncstorage.Storage.Checks.{now_of}
use go_syncstorage.Storage.Data.{BsoRow, BatchRow, ok}
use go_syncstorage.Storage.Driver.{World, step, exec, query, now}
use go_syncstorage.Storage.Driver.Reliable.{IsReliable, time_of}
use go_syncstorage.Storage.Keys.{
  lookup, value_or_empty, replace_key, set_key, get_key, lookup-replace_key,
}
use go_syncstorage.Storage.Bso.{keep_rows}
use go_syncstorage.Storage.Erase.{purge_expired, count_rows}
use go_syncstorage.Storage.Erase.Kept.{is_live}
use go_syncstorage.Storage.Batch.{batch_purge, count_batches, keep_batches, is_stale}
use go_syncstorage.Storage.Usage.{Pages, PageStats, pragma, usage, vacuum}
use go_syncstorage.Web.TidyUp.{
  Tidied, next_purge, free_kb, Times, schedule, delta_time, at_least, vacuumed, vacuum_if,
  batches_purged, purge, tidy_up,
}

-- What rand.Int63n promises: a number below its argument
pub record IsRandom (times : Times) : Type 0 where
  pub to : (k : ℕ) (n : ℤ) → lt_int (pos 0) n ≡ true → lt_int (times.random k n) n ≡ true

-- A duration of at least `min`, and below `max` unless it is `min`
abbrev pub Within : ℤ → ℤ → ℤ → Type 0
Within min max d = (le_int min d ≡ true) × ((d ≡ min) ⊎ (lt_int d max ≡ true))

at_least-Within :
    (min max d : ℤ) → (d ≡ min) ⊎ (lt_int d max ≡ true) → Within min max (at_least min d)
at_least-Within min max d h = elim (Bool-cases (lt_int d min)) [
  | inl less ↦ rw (less, if◌then◌else◌) (ground arith, inl refl)
  | inr more ↦ rw (more, if◌then◌else◌) (ground arith, h)
]

-- TidyUp, called in the world `before`, did its work: the BSOs and the batches that are left, and the
-- time of the next purge, which is `delta` behind the reading `when` of the clock
pub record IsTidied (times : Times) (min max : ℤ) (b : List BsoRow) (bs : List BatchRow)
    (before : World) (x : Tidied × World) : Type 0 where
  pub delta : ℤ
  pub when : ℕ
  pub not_skipped : x.0.skipped ≡ false
  pub no_error : x.0.error ≡ none
  pub bso : x.1.tables.bso ≡ b
  pub batches : x.1.tables.batches ≡ bs
  pub within : Within min max delta
  pub next :
      lookup next_purge x.1.tables.key_values
      ≡ some (times.format_time (pos (before.nanos when) +ℤ delta))
  pub during : (before.readings ≤ when) × (when < x.1.readings)

pub usage-ok :
    (p : Pages) (w : World)
    → IsReliable w
    → usage p w ≡ (
      ok (record {
        size = p.page_size (w.calls + 1 + 1);
        total = p.page_count w.calls;
        free = p.freelist_count (w.calls + 1);
      }),
      record w { calls = w.calls + 1 + 1 + 1 },
    )
unfolding usage pragma
usage-ok p w h = rw (h w.calls, h (w.calls + 1), h (w.calls + 1 + 1)) refl

vacuum-ok : (w : World) → IsReliable w → vacuum w ≡ (ok tt, step w)
unfolding vacuum exec
vacuum-ok w h = rw (h w.calls) refl

set_key-ok :
    (k v : Text) (w : World)
    → IsReliable w
    → set_key k v w ≡ (ok tt, record (step w) { tables = replace_key k v w.tables })
unfolding set_key exec
set_key-ok k v w h = rw (h w.calls) refl

module _ (times : Times) (law : IsRandom times) (p : Pages) (ttl : ℕ) (min max : ℤ) (kb : ℤ)
    (b : List BsoRow) (bs : List BatchRow) (before : World) where
  delta_time-Within : (k : ℕ) → Within min max (delta_time times p ttl min max kb k)
  unfolding delta_time
  delta_time-Within k = elim (Bool-cases (lt_int (pos 0) max)) [
    | inl given ↦
        rw (given, if◌then◌else◌)
          (at_least-Within min max (times.random k max) (inr (law.to k max given)))
    | inr not_given ↦ rw (not_given, if◌then◌else◌) (at_least-Within min max min (inl refl))
  ]

  record IsPurged (w : World) : Type 0 where
    reliable : IsReliable w
    bso : w.tables.bso ≡ b
    batches : w.tables.batches ≡ bs
    nanos : w.nanos ≡ before.nanos
    readings : before.readings ≤ w.readings

  schedule-IsTidied :
      (start : ℕ) (w : World)
      → IsPurged w
      → IsTidied times min max b bs before (schedule times p ttl min max kb start w)
  unfolding schedule
  schedule-IsTidied start w h =
      let d = delta_time times p ttl min max kb w.readings in
      let text = times.format_time (pos (w.nanos w.readings) +ℤ d) in
      rw (set_key-ok next_purge text (record w { readings = w.readings + 1 }) h.reliable) (record {
        delta = d;
        when = w.readings;
        not_skipped = refl;
        no_error = refl;
        bso = unfold replace_key in h.bso;
        batches = unfold replace_key in h.batches;
        within = delta_time-Within w.readings;
        next =
            rw
              (
                lookup-replace_key next_purge next_purge text w.tables,
                text_eq_refl next_purge,
                if◌then◌else◌,
                h.nanos,
              )
              refl;
        during = (h.readings, omega arith);
      })

  -- Behind steps that read the clock and call the driver
  later :
      (k n : ℕ) (w : World)
      → IsPurged w
      → w.readings ≤ n
      → IsPurged (record w { calls = k; readings = n })
  later k n w h after = record {
    reliable = h.reliable;
    bso = h.bso;
    batches = h.batches;
    nanos = h.nanos;
    readings = omega (arith, h.readings, after);
  }

  vacuumed-IsTidied :
      (start : ℕ) (w : World)
      → IsPurged w
      → IsTidied times min max b bs before (vacuumed times p ttl min max kb start (ok tt) w)
  vacuumed-IsTidied start w h =
      rw (usage-ok p w h.reliable)
        (schedule-IsTidied start _ (later (w.calls + 1 + 1 + 1) (w.readings + 1) w h (omega arith)))

  vacuum_if-IsTidied :
      (start : ℕ) (s : PageStats) (w : World)
      → IsPurged w
      → IsTidied times min max b bs before (vacuum_if times p ttl min max kb start s w)
  unfolding vacuum_if
  vacuum_if-IsTidied start s w h =
      let u = record w { readings = w.readings + 1 } in
      elim (Bool-cases (lt_int (pos 0) kb && le_int kb (free_kb s))) [
        | inl many ↦
            rw (many, if◌then◌else◌, vacuum-ok u h.reliable)
              (vacuumed-IsTidied start _ (later (w.calls + 1) (w.readings + 1) w h (omega arith)))
        | inr few ↦
            rw (few, if◌then◌else◌)
              (schedule-IsTidied start u (later w.calls (w.readings + 1) w h (omega arith)))
      ]

  batches_purged-IsTidied :
      (start n : ℕ) (w : World)
      → IsPurged w
      → IsTidied times min max b bs before (batches_purged times p ttl min max kb start (ok n) w)
  batches_purged-IsTidied start n w h = rw (usage-ok p w h.reliable) (
      vacuum_if-IsTidied start _ _ (later (w.calls + 1 + 1 + 1) (w.readings + 1) w h (omega arith)))

abbrev pub fresh_batches : ℕ → ℕ → List BatchRow → List BatchRow
fresh_batches ttl time = keep_batches (λ b. not (is_stale time (pos ttl) b))

purge_expired-ok :
    (w : World)
    → IsReliable w
    → purge_expired w ≡ (
      ok (count_rows (λ r. le_int r.ttl (pos (time_of w))) w.tables.bso),
      record w {
        tables = record w.tables { bso = keep_rows (is_live (time_of w)) w.tables.bso };
        calls = w.calls + 1;
        readings = w.readings + 1;
      },
    )
unfolding purge_expired now exec
purge_expired-ok w h = rw (h w.calls) refl

batch_purge-ok :
    (ttl : ℕ) (w : World)
    → IsReliable w
    → batch_purge (pos ttl) w ≡ (
      ok (count_batches (is_stale (time_of w) (pos ttl)) w.tables.batches),
      record w {
        tables = record w.tables { batches = fresh_batches ttl (time_of w) w.tables.batches };
        calls = w.calls + 1;
        readings = w.readings + 1;
      },
    )
unfolding batch_purge now exec
batch_purge-ok ttl w h = rw (h w.calls) refl

get_key-ok :
    (k : Text) (w : World)
    → IsReliable w
    → get_key k w ≡ (ok (value_or_empty (lookup k w.tables.key_values)), step w)
unfolding get_key query
get_key-ok k w h = rw (h w.calls) refl

module _ (times : Times) (law : IsRandom times) (p : Pages) (ttl : ℕ) (min max : ℤ) (kb : ℤ) where
  -- A TidyUp that finds the time of its purge reached, while the driver works, is not skipped and
  -- returns no error. It leaves the BSOs that have not expired and the batches that are not too old,
  -- each by a reading of the clock, and sets the next purge a time ahead that is at least the
  -- smallest, and below the largest unless it is the smallest.
  pub tidy_up-IsTidied :
      (w : World) (c : ℕ) (s : Text) (next : ℤ)
      → IsReliable w
      → lookup next_purge w.tables.key_values ≡ some (c ∷ s)
      → times.parse_time (c ∷ s) ≡ some next
      → lt_int (pos (w.nanos (w.readings + 1))) next ≡ false
      → IsTidied times min max
          (keep_rows (is_live (now_of (w.nanos (w.readings + 1 + 1 + 1)))) w.tables.bso)
          (fresh_batches ttl (now_of (w.nanos (w.readings + 1 + 1 + 1 + 1))) w.tables.batches)
          w
          (tidy_up times p ttl min max kb w)
  unfolding tidy_up purge
  tidy_up-IsTidied w c s next h set parse due =
      let w1 = record w { readings = w.readings + 1 } in
      let w3 = record w { calls = w.calls + 1; readings = w.readings + 1 + 1 + 1 } in
      let w4 = record w3 {
        tables = record w.tables { bso = keep_rows (is_live (time_of w3)) w.tables.bso };
        calls = w.calls + 1 + 1;
        readings = w.readings + 1 + 1 + 1 + 1;
      } in
      rw
        (
          get_key-ok next_purge w1 h,
          set,
          parse,
          due,
          if◌then◌else◌,
          purge_expired-ok w3 h,
          batch_purge-ok ttl w4 h,
        )
        (batches_purged-IsTidied times law p ttl min max kb _ _ w (w.nanos w.readings)
          (count_batches (is_stale (time_of w4) (pos ttl)) w.tables.batches) _
          (record {
            reliable = h;
            bso = refl;
            batches = refl;
            nanos = refl;
            readings = omega arith;
          }))
