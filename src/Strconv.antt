-- ===== src/Strconv.antt =====
-- Go's `strconv.Itoa`, `strconv.ParseInt(s, 10, 64)` and `strconv.Atoi`, over bytes.
use native.Mathlib.Nat.{pow-suc}
use go_syncstorage.Prelude.{
  ℕ, zero, suc, ◌+◌, ◌-◌, ◌*◌, ◌/◌, ◌%◌, ◌^◌, ◌<◌, ◌≤◌, length, ◌≡◌, Bool, true, false, ◌&&◌,
  Option, none, some, [], ◌∷◌, ◌++◌, arith, ltb, leb, ◌==◌, if◌then◌else◌, inl, inr, Bool-cases,
  lt→ltb, ltb→lt, ap, ◌∙◌,
}
use go_syncstorage.Prelude.Int.{ℤ, pos, negsuc}
use go_syncstorage.Prelude.Text.{Text}

-- The decimal digits of a number, the first one first. Twenty rounds are enough for 64 bits.
digits : ℕ → ℕ → Text
digits zero n = []
digits (suc k) n = elim (ltb n 10) [
  | true ↦ (48 + n) ∷ []
  | false ↦ digits k (n / 10) ++ (48 + n % 10) ∷ []
]

abbrev pub max_digits : ℕ
max_digits = 20

unfoldable pub itoa : ℤ → Text
unfolding digits
itoa (pos n) = digits max_digits n
itoa (negsuc n) = b'-' ∷ digits max_digits (n + 1)

unfoldable pub is_digit : ℕ → Bool
is_digit c = leb 48 c && leb c 57

-- The number that digits spell behind `acc`.
scan : ℕ → Text → Option ℕ
unfolding is_digit
scan acc [] = some acc
scan acc (c ∷ s) = if is_digit c then scan (acc * 10 + (c - 48)) s else none

scan_digits : Text → Option ℕ
unfolding scan
scan_digits [] = none
scan_digits (c ∷ s) = scan 0 (c ∷ s)

-- The range of `int`: up to 2 ^ 63 - 1, and down to -2 ^ 63.
signed : Bool → ℕ → Option ℤ
signed false n = if ltb n (2 ^ 63) then some (pos n) else none
signed true zero = some (pos 0)
signed true (suc n) = if ltb n (2 ^ 63) then some (negsuc n) else none

with_sign : Bool → Option ℕ → Option ℤ
unfolding signed
with_sign negative none = none
with_sign negative (some n) = signed negative n

unfoldable pub parse_int : Text → Option ℤ
unfolding with_sign scan_digits
parse_int [] = none
parse_int (c ∷ s) =
    if c == b'-'
    then with_sign true (scan_digits s)
    else if c == b'+'
    then with_sign false (scan_digits s)
    else with_sign false (scan_digits (c ∷ s))

scan-append :
    (acc d : ℕ) (s : Text)
    → d < 10
    → (n : ℕ) → scan acc s ≡ some n
    → scan acc (s ++ (48 + d) ∷ []) ≡ some (n * 10 + d)
unfolding scan
scan-append acc d [] h n e = ground arith
scan-append acc d (c ∷ s) h n e = ground (arith, scan-append (acc * 10 + (c - 48)) d s h n)

digits_small : (k n : ℕ) → ltb n 10 ≡ true → digits (suc k) n ≡ (48 + n) ∷ []
unfolding digits
digits_small k n h = ground arith

digits_large :
    (k n : ℕ) → ltb n 10 ≡ false → digits (suc k) n ≡ digits k (n / 10) ++ (48 + n % 10) ∷ []
unfolding digits
digits_large k n h = ground arith

scan_one : (d : ℕ) → d < 10 → scan 0 ((48 + d) ∷ []) ≡ some d
unfolding scan
scan_one d h = ground arith

scan-digits : (k n : ℕ) → n < 10 ^ suc k → scan 0 (digits (suc k) n) ≡ some n
scan-digits zero n h = rw (digits_small 0 n (lt→ltb n 10 h)) (scan_one n h)
scan-digits (suc k) n h = elim (Bool-cases (ltb n 10)) [
  | inl small ↦ rw (digits_small (suc k) n small) (scan_one n (ltb→lt n 10 small))
  | inr large ↦
      let tenth : n / 10 < 10 ^ suc k = omega (arith, pow-suc 10 (suc k)) in
      let joined = scan-append 0 (n % 10) _ (omega arith) (n / 10) (scan-digits k (n / 10) tenth) in
      rw (digits_large (suc k) n large) (joined ∙ ap some (omega arith))
]

-- The first byte of a number is a digit.
digits_head : (k n : ℕ) → (c : ℕ) × (s : Text) × (digits (suc k) n ≡ c ∷ s) × (is_digit c ≡ true)
unfolding is_digit
digits_head zero n = elim (Bool-cases (ltb n 10)) [
  | inl small ↦ (48 + n, [], digits_small 0 n small, ground arith)
  | inr large ↦ (48 + n % 10, [], unfold digits in digits_large 0 n large, ground arith)
]
digits_head (suc k) n = elim (Bool-cases (ltb n 10)) [
  | inl small ↦ (48 + n, [], digits_small (suc k) n small, ground arith)
  | inr large ↦
      let (c, s, e, d) = digits_head k (n / 10) in
      (c, s ++ (48 + n % 10) ∷ [], rw (digits_large (suc k) n large, e), d)
]

parse_int-unsigned :
    (c : ℕ) (s : Text) {n : ℕ}
    → is_digit c ≡ true
    → scan 0 (c ∷ s) ≡ some n
    → n < 2 ^ 63
    → parse_int (c ∷ s) ≡ some (pos n)
unfolding parse_int is_digit
parse_int-unsigned c s d e h = ground arith

parse_int-negative :
    (c : ℕ) (s : Text) {n : ℕ}
    → scan 0 (c ∷ s) ≡ some (suc n)
    → n < 2 ^ 63
    → parse_int (b'-' ∷ c ∷ s) ≡ some (negsuc n)
unfolding parse_int is_digit
parse_int-negative c s e h = ground arith

-- The values of a signed 64-bit integer.
abbrev pub InRange : ℤ → Type 0
InRange (pos n) = n < 2 ^ 63
InRange (negsuc n) = n < 2 ^ 63

-- Every signed 64-bit integer, negative ones included, is read back from its decimal print.
pub parse_int-itoa : (a : ℤ) → InRange a → parse_int (itoa a) ≡ some a
unfolding itoa
parse_int-itoa (pos n) h =
    let (c, s, e, d) = digits_head 19 n in
    rw e (parse_int-unsigned c s d (rw (← e) (scan-digits 19 n (omega arith))) h)
parse_int-itoa (negsuc n) h =
    let (c, s, e, d) = digits_head 19 (n + 1) in
    rw e (
      parse_int-negative c s
        (rw (← e) (scan-digits 19 (n + 1) (omega arith) ∙ ap some (omega arith))) h)

-- A print has at least one byte.
pub itoa_long : (a : ℤ) → 1 ≤ length (itoa a)
unfolding itoa
itoa_long (pos n) = let (c, s, e, d) = digits_head 19 n in rw e (omega arith)
itoa_long (negsuc n) = omega arith
