-- ===== src/Web/Lines.antt =====
-- web/syncUserHandler_misc.go: ReadNewlineJSON, with the white space of Go's unicode.IsSpace and the
-- lines of bufio.Scanner.
pub mod Code
pub mod Spaces
pub mod Blank
use go_syncstorage.Prelude.{
  ℕ, zero, suc, ◌*◌, Bool, true, false, Option, none, some, List, [], ◌∷◌, map, ◌==◌, ltb, length,
  if◌then◌else◌,
}
use go_syncstorage.Prelude.Text.{Text}
use mathlib.Core.List.{reverse}

-- The white space characters in UTF-8
abbrev pub spaces : List Text
spaces =
    (9 ∷ [])
    ∷ (10 ∷ [])
    ∷ (11 ∷ [])
    ∷ (12 ∷ [])
    ∷ (13 ∷ [])
    ∷ (32 ∷ [])
    ∷ (194 ∷ 133 ∷ [])
    ∷ (194 ∷ 160 ∷ [])
    ∷ (225 ∷ 154 ∷ 128 ∷ [])
    ∷ (226 ∷ 128 ∷ 128 ∷ [])
    ∷ (226 ∷ 128 ∷ 129 ∷ [])
    ∷ (226 ∷ 128 ∷ 130 ∷ [])
    ∷ (226 ∷ 128 ∷ 131 ∷ [])
    ∷ (226 ∷ 128 ∷ 132 ∷ [])
    ∷ (226 ∷ 128 ∷ 133 ∷ [])
    ∷ (226 ∷ 128 ∷ 134 ∷ [])
    ∷ (226 ∷ 128 ∷ 135 ∷ [])
    ∷ (226 ∷ 128 ∷ 136 ∷ [])
    ∷ (226 ∷ 128 ∷ 137 ∷ [])
    ∷ (226 ∷ 128 ∷ 138 ∷ [])
    ∷ (226 ∷ 128 ∷ 168 ∷ [])
    ∷ (226 ∷ 128 ∷ 169 ∷ [])
    ∷ (226 ∷ 128 ∷ 175 ∷ [])
    ∷ (226 ∷ 129 ∷ 159 ∷ [])
    ∷ (227 ∷ 128 ∷ 128 ∷ [])
    ∷ []

-- What is behind one of the given texts
pub without_prefix : Text → Text → Option Text
without_prefix [] s = some s
without_prefix (a ∷ p) [] = none
without_prefix (a ∷ p) (b ∷ s) = let rest = without_prefix p s in if a == b then rest else none

abbrev pub first_of : Option Text → Option Text → Option Text
first_of none o = o
first_of (some s) o = some s

pub without_any : List Text → Text → Option Text
unfolding without_prefix
without_any [] s = none
without_any (p ∷ ps) s = first_of (without_prefix p s) (without_any ps s)

-- One round for each byte is enough.
pub trim_rounds : List Text → ℕ → Text → Text
unfolding without_any
trim_rounds ps zero s = s
trim_rounds ps (suc k) s = elim (without_any ps s) [ none ↦ s | some rest ↦ trim_rounds ps k rest ]

pub trim_left : List Text → Text → Text
unfolding trim_rounds
trim_left ps s = trim_rounds ps (length s) s

-- strings.TrimSpace
unfoldable pub trim_space : Text → Text
unfolding trim_left
trim_space s = reverse (trim_left (map reverse spaces) (reverse (trim_left spaces s)))

abbrev pub is_blank : Text → Bool
is_blank s = elim (trim_space s) [ [] ↦ true | c ∷ t ↦ false ]

-- bufio.ScanLines: the line up to the next newline, and whether there was one
unfoldable pub split_lines : Text → Text × List Text
split_lines [] = ([], [])
split_lines (c ∷ s) =
    let (line, lines) = split_lines s in if c == 10 then ([], line ∷ lines) else (c ∷ line, lines)

-- A last line that is empty is none.
abbrev pub drop_last_empty : Text → List Text → List Text
drop_last_empty [] [] = []
drop_last_empty (c ∷ s) [] = (c ∷ s) ∷ []
drop_last_empty line (next ∷ lines) = line ∷ drop_last_empty next lines

abbrev pub lines_of : Text → List Text
lines_of s = let (line, lines) = split_lines s in drop_last_empty line lines

-- A trailing carriage return is not part of the line.
abbrev pub drop_cr : Text → Text
drop_cr [] = []
drop_cr (c ∷ []) = if c == 13 then [] else c ∷ []
drop_cr (c ∷ d ∷ s) = c ∷ drop_cr (d ∷ s)

-- scannerTokenSize
abbrev pub scanner_token_size : ℕ
scanner_token_size = 257 * 1024

-- The loop of ReadNewlineJSON: at a line that fills the buffer the scanner stops, and its error is
-- not looked at.
unfoldable pub scan_lines : ℕ → List Text → List Text
unfolding trim_space
scan_lines max [] = []
scan_lines max (line ∷ lines) =
    let rest = scan_lines max lines in
    if ltb (length line) max
    then (if is_blank (drop_cr line) then rest else drop_cr line ∷ rest)
    else []

-- ReadNewlineJSON
unfoldable pub read_newline_json : Text → List Text
unfolding split_lines scan_lines
read_newline_json s = scan_lines scanner_token_size (lines_of s)
