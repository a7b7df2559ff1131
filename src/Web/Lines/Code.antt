-- ===== src/Web/Lines/Code.antt =====
-- web/syncUserHandler_misc.go: taking one of some texts away from the start of another, for
-- strings.TrimSpace.
use mathlib.Core.List.Memᴰ
use mathlib.Core.List.{Memᴰ}
use go_syncstorage.Prelude.{
  both_true, ◌≤◌, ◌≡◌, refl, inl, inr, Bool, true, false, ◌&&◌, none, some, List, [], ◌∷◌, ◌++◌,
  ◌==◌, length, arith, if◌then◌else◌, Bool-cases,
}
use go_syncstorage.Prelude.Text.{Text}
use go_syncstorage.Web.Lines.{spaces, without_prefix, without_any, first_of}

-- Two texts that differ at a place that both_true have
clash : Text → Text → Bool
clash [] w = false
clash (a ∷ p) [] = false
clash (a ∷ p) (b ∷ w) = let rest = clash p w in if a == b then rest else true

clash_all : Text → List Text → Bool
clash_all p [] = true
clash_all p (w ∷ ws) = clash p w && clash_all p ws

pub is_code : List Text → Bool
is_code [] = true
is_code ([] ∷ ps) = false
is_code ((c ∷ p) ∷ ps) = clash_all (c ∷ p) ps && is_code ps

pub spaces_code : is_code spaces ≡ true
unfolding is_code clash_all clash
spaces_code = refl

without_prefix-append : (p s : Text) → without_prefix p (p ++ s) ≡ some s
unfolding without_prefix
without_prefix-append [] s = refl
without_prefix-append (a ∷ p) s = ground (arith, without_prefix-append p s)

without_prefix-clash : (p w s : Text) → clash p w ≡ true → without_prefix p (w ++ s) ≡ none
unfolding without_prefix clash
without_prefix-clash [] w s h = absurd (cc)
without_prefix-clash (a ∷ p) [] s h = absurd (cc)
without_prefix-clash (a ∷ p) (b ∷ w) s h = elim (Bool-cases (a == b)) [
  | inl same ↦
      let rest : clash p w ≡ true = rw (same, if◌then◌else◌) at h in
      rw (same, if◌then◌else◌) (without_prefix-clash p w s rest)
  | inr other ↦ rw (other, if◌then◌else◌) refl
]

clash-Mem : (p w : Text) (ps : List Text) → clash_all p ps ≡ true → Memᴰ w ps → clash p w ≡ true
unfolding clash_all
clash-Mem p w [] h m = elim m [ ]
clash-Mem p w (q ∷ ps) h m =
    let (first, others) = both_true (clash p q) (clash_all p ps) h in
    elim (Memᴰ.cases_cons m) [ inl e ↦ rw e first | inr later ↦ clash-Mem p w ps others later ]

pub without_prefix-split : (p s rest : Text) → without_prefix p s ≡ some rest → s ≡ p ++ rest
unfolding without_prefix
without_prefix-split [] s rest h = ground arith
without_prefix-split (a ∷ p) [] rest h = absurd (cc)
without_prefix-split (a ∷ p) (b ∷ s) rest h = elim (Bool-cases (a == b)) [
  | inl same ↦
      let found : without_prefix p s ≡ some rest = rw (same, if◌then◌else◌) at h in
      let e = without_prefix-split p s rest found in
      let head : b ≡ a = ground arith in rw (e, head) refl
  | inr other ↦ let no : none ≡ some rest = rw (other, if◌then◌else◌) at h in absurd (cc)
]

-- One of the texts is taken away whole: they are a code.
pub without_any-append :
    (ps : List Text) (w s : Text) → is_code ps ≡ true → Memᴰ w ps → without_any ps (w ++ s) ≡ some s
unfolding is_code without_any
without_any-append [] w s h m = elim m [ ]
without_any-append ([] ∷ ps) w s h m = absurd (cc)
without_any-append ((c ∷ p) ∷ ps) w s h m =
    let (first, others) = both_true (clash_all (c ∷ p) ps) (is_code ps) h in
    elim (Memᴰ.cases_cons m) [
      | inl e ↦ rw (e, without_prefix-append (c ∷ p) s) refl
      | inr later ↦
          let no = without_prefix-clash (c ∷ p) w s (clash-Mem (c ∷ p) w ps first later) in
          rw (no, first_of) (without_any-append ps w s others later)
    ]

-- None of the texts is empty.
pub code_long : (ps : List Text) (w : Text) → is_code ps ≡ true → Memᴰ w ps → 1 ≤ length w
unfolding is_code
code_long [] w h m = elim m [ ]
code_long ([] ∷ ps) w h m = absurd (cc)
code_long ((c ∷ p) ∷ ps) w h m = elim (Memᴰ.cases_cons m) [
  | inl e ↦ rw e (omega arith)
  | inr later ↦ code_long ps w (both_true (clash_all (c ∷ p) ps) (is_code ps) h).1 later
]

pub without_any-nil : (ps : List Text) → is_code ps ≡ true → without_any ps [] ≡ none
unfolding is_code without_any without_prefix
without_any-nil [] h = refl
without_any-nil ([] ∷ ps) h = absurd (cc)
without_any-nil ((c ∷ p) ∷ ps) h =
    without_any-nil ps (both_true (clash_all (c ∷ p) ps) (is_code ps) h).1
