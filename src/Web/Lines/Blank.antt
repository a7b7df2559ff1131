-- ===== src/Web/Lines/Blank.antt =====
-- web/syncUserHandler_misc.go: the lines that ReadNewlineJSON takes.
use go_syncstorage.Prelude.{
  ℕ, ◌≤◌, inl, inr, List, [], ◌∷◌, ltb, length, arith, if◌then◌else◌, Bool-cases, ltb→lt, ◌<◌,
}
use go_syncstorage.Prelude.Text.{Text}
use go_syncstorage.Web.Lines.{
  is_blank, lines_of, drop_cr, scanner_token_size, scan_lines, read_newline_json,
}
use go_syncstorage.Web.Lines.Spaces.{IsSpaces, is_blank-empty, trim_space-IsSpaces, is_blank-spaces}

-- What is read of the lines of a text, up to the first one that fills a buffer of `max` bytes
pub data Reads (max : ℕ) : List Text → List Text → Type 0 where
  at_end : Reads max [] []
  stops : {line : Text} {lines : List Text} → max ≤ length line → Reads max (line ∷ lines) []
  skips :
      {line : Text} {lines found : List Text}
      → length line < max
      → IsSpaces (drop_cr line)
      → Reads max lines found
      → Reads max (line ∷ lines) found
  takes :
      {line : Text} {lines found : List Text}
      → length line < max
      → ¬ (IsSpaces (drop_cr line))
      → Reads max lines found
      → Reads max (line ∷ lines) (drop_cr line ∷ found)

scan_lines_lem : (max : ℕ) (lines : List Text) → Reads max lines (scan_lines max lines)
unfolding scan_lines
scan_lines_lem max [] = Reads.at_end
scan_lines_lem max (line ∷ lines) =
    let rest = scan_lines_lem max lines in
    elim (Bool-cases (ltb (length line) max)) [
      | inl fits ↦ elim (Bool-cases (is_blank (drop_cr line))) [
        | inl blank ↦
            rw (fits, if◌then◌else◌, blank, if◌then◌else◌)
              (Reads.skips (ltb→lt _ _ fits)
                (trim_space-IsSpaces (drop_cr line) (is_blank-empty (drop_cr line) blank)) rest)
        | inr text ↦
            rw (fits, if◌then◌else◌, text, if◌then◌else◌)
              (Reads.takes (ltb→lt _ _ fits)
                (λ blank. absurd (cc (text, is_blank-spaces (drop_cr line) blank))) rest)
      ]
      | inr long ↦ rw (long, if◌then◌else◌) (Reads.stops (ground arith))
    ]

-- ReadNewlineJSON takes the lines of a text in their order, each without its carriage return, except
-- those that are nothing but white space characters, and none from the first one on that is as long
-- as the scanner's buffer.
pub read_newline_json_lem : (s : Text) → Reads scanner_token_size (lines_of s) (read_newline_json s)
unfolding read_newline_json
read_newline_json_lem s = scan_lines_lem scanner_token_size (lines_of s)
