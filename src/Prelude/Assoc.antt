-- ===== src/Prelude/Assoc.antt =====
-- Maps keyed by texts, as association lists in which a key stands once.
use mathlib.Core.Path.{◌≡◌, refl}
use mathlib.Core.Bool.{false}
use mathlib.Core.List.{List, [], ◌∷◌}
use mathlib.Core.Option.{Option, none, some}
use mathlib.Core.Logic.{inl, inr}
use go_syncstorage.Prelude.Tests.{if◌then◌else◌, Bool-cases}
use go_syncstorage.Prelude.Text.{Text, text_eq, text_eq_iff, text_eq-swap}

module _ {ℓ} {A : Type ℓ} where
  abbrev pub find_key : Text → List (Text × A) → Option A
  find_key k [] = none
  find_key k ((k', a) ∷ m) = if text_eq k k' then some a else find_key k m

  abbrev pub remove_key : Text → List (Text × A) → List (Text × A)
  remove_key k [] = []
  remove_key k ((k', a) ∷ m) =
      let rest = remove_key k m in if text_eq k k' then rest else (k', a) ∷ rest

  abbrev pub put_key : Text → A → List (Text × A) → List (Text × A)
  put_key k a m = (k, a) ∷ remove_key k m

  -- What is found after a key was removed
  pub find_key-remove_key :
      (k u : Text) (m : List (Text × A))
      → find_key u (remove_key k m) ≡ (if text_eq u k then none else find_key u m)
  find_key-remove_key k u [] = elim (Bool-cases (text_eq u k)) [
    | inl e ↦ rw e refl
    | inr e ↦ rw e refl
  ]
  find_key-remove_key k u ((k', a) ∷ m) =
      let rest = find_key-remove_key k u m in
      elim (Bool-cases (text_eq k k')) [
        | inl same ↦
            let e : k ≡ k' = (text_eq_iff k k').0 same in
            rw (same, rest, ← e)
              (elim (Bool-cases (text_eq u k)) [ inl h ↦ rw h refl | inr h ↦ rw h refl ])
        | inr other ↦ rw other (elim (Bool-cases (text_eq u k')) [
          | inl h ↦
              let apart : text_eq u k ≡ false =
                rw ((text_eq_iff u k').0 h) (text_eq-swap k k' other) in
              rw (h, apart) refl
          | inr h ↦ rw (h, rest) refl
        ])
      ]
