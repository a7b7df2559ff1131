-- ===== src/Prelude/Utf8.antt =====
-- Go's utf8.ValidString, over bytes.
use Prim.Native.Nat.{ℕ, zero, suc}
use mathlib.Core.Bool.{Bool, true, false, ◌&&◌}
use mathlib.Core.List.{[], ◌∷◌}
use go_syncstorage.Prelude.Tests.{leb, if◌then◌else◌}
use go_syncstorage.Prelude.Text.{Text}

abbrev pub between : ℕ → ℕ → ℕ → Bool
between low high c = leb low c && leb c high

-- What may follow: a new character, a byte in a range with some more bytes of the same character
-- behind it, or nothing
pub data Expected : Type 0 where
  character : Expected
  byte : ℕ → ℕ → ℕ → Expected
  nothing : Expected

-- Behind the first byte of a character: neither overlong forms nor surrogates, up to U+10FFFF
abbrev pub behind_first : ℕ → Expected
behind_first c =
    if leb c 127
    then character
    else if between 194 223 c
    then byte 128 191 0
    else if between 224 224 c
    then byte 160 191 1
    else if between 237 237 c
    then byte 128 159 1
    else if between 225 239 c
    then byte 128 191 1
    else if between 240 240 c
    then byte 144 191 2
    else if between 241 243 c
    then byte 128 191 2
    else if between 244 244 c
    then byte 128 143 2
    else nothing

abbrev pub behind_next : ℕ → Expected
behind_next zero = character
behind_next (suc k) = byte 128 191 k

abbrev pub behind : Expected → ℕ → Expected
behind character c = behind_first c
behind (byte low high k) c = if between low high c then behind_next k else nothing
behind nothing c = nothing

unfoldable pub valid_from : Expected → Text → Bool
valid_from character [] = true
valid_from (byte low high k) [] = false
valid_from nothing [] = false
valid_from e (c ∷ s) = valid_from (behind e c) s

unfoldable pub valid_utf8 : Text → Bool
unfolding valid_from
valid_utf8 s = valid_from character s
