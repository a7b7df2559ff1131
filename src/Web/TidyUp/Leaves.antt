-- ===== src/Web/TidyUp/Leaves.antt =====
-- web/syncUserHandler.go: the parts of TidyUp that purge no BSO.
use mathlib.Core.Path.{subst}
use go_syncstorage.Prelude.{
  ℕ, ◌≡◌, refl, inl, inr, Bool, true, false, Option, none, some, List, ◌&&◌, if◌then◌else◌,
  Bool-cases,
}
use go_syncstorage.Prelude.Int.{ℤ, pos, ◌+ℤ◌, lt_int, le_int, sub_ℕ}
use go_syncstorage.Prelude.Text.{Text, text_eq}
use go_syncstorage.Storage.Data.{Tables, BsoRow, CollectionRow, Error, Result, ok, err}
use go_syncstorage.Storage.Driver.{World, M, exec}
use go_syncstorage.Storage.Driver.Keeps.{Keeps, Keeps-exec, Keeps-bind, Keeps-pure, Keeps-now}
use go_syncstorage.Storage.Keys.{
  lookup, storage_last_modified, replace_key, set_key, lookup-replace_key,
}
use go_syncstorage.Storage.Batch.{batch_purge}
use go_syncstorage.Storage.Usage.{Pages, PageStats, pragma, usage, vacuum}
use go_syncstorage.Web.TidyUp.{
  Tidied, Tidier, with_time, ask, answer, ended, next_purge, free_kb, Times, scheduled, schedule,
  delta_time, usage_again, vacuumed, vacuum_if, usage_known, batches_purged, bsos_purged,
}

-- The BSOs, the collections and the time of the storage
pub record Holds (b : List BsoRow) (c : List CollectionRow) (v : Option Text) (t : Tables)
    : Type 0 where
  pub bso : t.bso ≡ b
  pub collections : t.collections ≡ c
  pub modified : lookup storage_last_modified t.key_values ≡ v

pub record Leaves {ℓ} (P : Tables → Type ℓ) (m : Tidier) : Type ℓ where
  pub at : (w : World) → P w.tables → P (m w).1.tables

module _ {ℓ} {P : Tables → Type ℓ} where
  Leaves-answer : (r : Tidied) → Leaves P (answer r)
  Leaves-answer r = record { at = λ w h. h }

  pub Leaves-time : (k : ℕ → Tidier) → ((t : ℕ) → Leaves P (k t)) → Leaves P (with_time k)
  Leaves-time k l = record { at = λ w h. (l (w.nanos w.readings)).at _ h }

  pub Leaves-ask :
      {A : Type 0} (m : M A) (k : Result A → Tidier)
      → Keeps P m
      → ((r : Result A) → Leaves P (k r))
      → Leaves P (ask m k)
  Leaves-ask m k keeps l = record { at = λ w h. (l (m w).0).at (m w).1 (keeps.at w h) }

  Leaves-if : (b : Bool) (m k : Tidier) → Leaves P m → Leaves P k → Leaves P (if b then m else k)
  Leaves-if true m k l n = l
  Leaves-if false m k l n = n

  pub Leaves-ended :
      (start : ℕ) (skipped : Bool) (e : Option Error) → Leaves P (ended start skipped e)
  Leaves-ended start skipped e =
      Leaves-time _
        (λ t. Leaves-answer (record { skipped = skipped; took = sub_ℕ t start; error = e }))

  pragma-Keeps : (value : ℕ → ℕ) → Keeps P (pragma value)
  unfolding pragma
  pragma-Keeps value = record {
    at = λ w h. elim (Bool-cases (w.fails w.calls)) [
      | inl e ↦ rw (e, if◌then◌else◌) h
      | inr e ↦ rw (e, if◌then◌else◌) h
    ];
  }

  usage-Keeps : (p : Pages) → Keeps P (usage p)
  unfolding usage
  usage-Keeps p = Keeps-bind _ _ (pragma-Keeps p.page_count) λ total.
      Keeps-bind _ _ (pragma-Keeps p.freelist_count)
        λ free. Keeps-bind _ _ (pragma-Keeps p.page_size) λ size. Keeps-pure _

  -- A statement that writes
  write-Keeps :
      {A : Type 0} (f : Tables → A) (g : Tables → Tables)
      → ((t : Tables) → P t → P (g t))
      → Keeps P (exec (λ t. ok (f t, g t)))
  write-Keeps f g k = Keeps-exec _ (λ t h a t' e. let same : g t ≡ t' = cc in subst P same (k t h))

  vacuum-Keeps : Keeps P vacuum
  unfolding vacuum
  vacuum-Keeps = write-Keeps (λ t. tt) (λ t. t) (λ t h. h)

module _ (b : List BsoRow) (c : List CollectionRow) (v : Option Text) where
  other_key : text_eq next_purge storage_last_modified ≡ false
  unfolding text_eq
  other_key = refl

  pub set_key-Keeps : (value : Text) → Keeps (Holds b c v) (set_key next_purge value)
  unfolding set_key
  set_key-Keeps value =
      write-Keeps (λ t. tt) (replace_key next_purge value)
        (λ t h.
          unfold replace_key in
          record {
            bso = h.bso;
            collections = h.collections;
            modified =
                rw
                  (
                    lookup-replace_key next_purge storage_last_modified value t,
                    other_key,
                    if◌then◌else◌,
                  )
                  h.modified;
          })

  batch_purge-Keeps : (ttl : ℤ) → Keeps (Holds b c v) (batch_purge ttl)
  unfolding batch_purge
  batch_purge-Keeps ttl = Keeps-bind _ _ Keeps-now (λ time.
      write-Keeps _ _
        (λ t h. record { bso = h.bso; collections = h.collections; modified = h.modified }))

  module _ (times : Times) (p : Pages) (ttl : ℕ) (min max : ℤ) (kb : ℤ) where
    schedule-Leaves : (start : ℕ) → Leaves (Holds b c v) (schedule times p ttl min max kb start)
    unfolding schedule
    schedule-Leaves start = record {
      at = λ w h.
          (Leaves-time _ (λ t.
              Leaves-ask _ _
                (set_key-Keeps
                  (times.format_time (pos t +ℤ delta_time times p ttl min max kb w.readings)))
                (scheduled-Leaves start))).at
            w h;
    }
      where
        scheduled-Leaves :
            (start : ℕ) (r : Result (Unit {0}))
            → Leaves (Holds b c v) (scheduled times p ttl min max kb start r)
        scheduled-Leaves start (err e) = Leaves-ended start true (some e)
        scheduled-Leaves start (ok x) = Leaves-ended start false none

    again-Leaves :
        (start : ℕ) (r : Result PageStats)
        → Leaves (Holds b c v) (usage_again times p ttl min max kb start r)
    again-Leaves start (err e) = Leaves-ended start true (some e)
    again-Leaves start (ok s) = Leaves-time _ (λ t. schedule-Leaves start)

    vacuumed-Leaves :
        (start : ℕ) (r : Result (Unit {0}))
        → Leaves (Holds b c v) (vacuumed times p ttl min max kb start r)
    vacuumed-Leaves start (err e) = Leaves-ended start true (some e)
    vacuumed-Leaves start (ok x) = Leaves-ask _ _ (usage-Keeps p) (again-Leaves start)

    known-Leaves :
        (start : ℕ) (r : Result PageStats)
        → Leaves (Holds b c v) (usage_known times p ttl min max kb start r)
    unfolding vacuum_if
    known-Leaves start (err e) = Leaves-ended start true (some e)
    known-Leaves start (ok s) = Leaves-time _ (λ t. Leaves-time _ (λ u.
        Leaves-if (lt_int (pos 0) kb && le_int kb (free_kb s)) _ _
          (Leaves-ask _ _ vacuum-Keeps (vacuumed-Leaves start)) (schedule-Leaves start)))

    pub purged-Leaves :
        (start : ℕ) (r : Result ℕ)
        → Leaves (Holds b c v) (bsos_purged times p ttl min max kb start r)
    purged-Leaves start (err e) = Leaves-ended start true (some e)
    purged-Leaves start (ok n) = Leaves-ask _ _ (batch_purge-Keeps (pos ttl)) (batches-Leaves start)
      where
        batches-Leaves :
            (start : ℕ) (r : Result ℕ)
            → Leaves (Holds b c v) (batches_purged times p ttl min max kb start r)
        batches-Leaves start (err e) = Leaves-ended start true (some e)
        batches-Leaves start (ok n) = Leaves-ask _ _ (usage-Keeps p) (known-Leaves start)
