-- ===== src/Web/Pool/Path.antt =====
-- web/syncPoolHandler_elements.go: TwoLevelPath, and the last digits of a user.
use go_syncstorage.Prelude.{
  ℕ, suc, ◌+◌, ◌-◌, ◌≡◌, refl, true, [], ◌∷◌, ◌++◌, arith, leb, if◌then◌else◌, length,
  length-append, drop,
}
use go_syncstorage.Prelude.Text.{Text}
use go_syncstorage.Web.Pool.{two_level_path}

zero_add : (k : ℕ) → 0 + k ≡ k
zero_add k = omega arith

suc_add : (n k : ℕ) → suc n + k ≡ suc (n + k)
suc_add n k = omega arith

drop_behind : (s t : Text) (k : ℕ) → drop (length s + k) (s ++ t) ≡ drop k t
drop_behind [] t k = rw (zero_add k) refl
drop_behind (x ∷ s) t k = rw (suc_add (length s) k) (drop_behind s t k)

-- A user of four digits or more, the last of which are `a`, `b`, `c` and `d`, has the directories
-- `dc` and `ba`.
pub two_level_path_lem :
    (s : Text) (a b c d : ℕ)
    → two_level_path (s ++ a ∷ b ∷ c ∷ d ∷ []) ≡ (d ∷ c ∷ []) ∷ (b ∷ a ∷ []) ∷ []
unfolding two_level_path
two_level_path_lem s a b c d =
    let t = a ∷ b ∷ c ∷ d ∷ [] in
    let whole : length (s ++ t) ≡ length s + 4 = length-append s t in
    let long : leb 4 (length s + 4) ≡ true = ground arith in
    let i3 : length s + 4 - 1 ≡ length s + 3 = omega arith in
    let i2 : length s + 4 - 2 ≡ length s + 2 = omega arith in
    let i1 : length s + 4 - 3 ≡ length s + 1 = omega arith in
    let i0 : length s + 4 - 4 ≡ length s + 0 = omega arith in
    let n3 : length s + 4 - (length s + 3) ≡ 1 = omega arith in
    let n2 : length s + 3 - (length s + 2) ≡ 1 = omega arith in
    let n1 : length s + 2 - (length s + 1) ≡ 1 = omega arith in
    let n0 : length s + 1 - (length s + 0) ≡ 1 = omega arith in
    rw
      (
        whole,
        long,
        if◌then◌else◌,
        i3,
        i2,
        i1,
        i0,
        n3,
        n2,
        n1,
        n0,
        drop_behind s t 3,
        drop_behind s t 2,
        drop_behind s t 1,
        drop_behind s t 0,
      )
      refl
