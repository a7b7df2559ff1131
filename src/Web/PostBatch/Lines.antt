-- ===== src/Web/PostBatch/Lines.antt =====
-- web/syncUserHandler.go: the text of a batch, which hCollectionPOSTBatch encodes and decodes.
use mathlib.Core.List.{reverse, reverse-append, reverse-reverse, append_assoc}
use go_syncstorage.Prelude.{
  ℕ, ◌≡◌, refl, ◌∙◌, ap, sym, Bool, true, false, none, some, List, [], ◌∷◌, ◌++◌, ◌==◌, arith, ltb,
  length, if◌then◌else◌, Bool-cases, inl, inr,
}
use go_syncstorage.Prelude.Text.{Text, codes}
use go_syncstorage.Prelude.Assoc.{find_key}
use go_syncstorage.Storage.Data.{PutBsoInput}
use go_syncstorage.Web.Body.{
  Json, parsed, parse_into_bso, unknown_key, is_null, id_of, payload_of, ttl_of, sort_index_of,
}
use go_syncstorage.Web.Lines.{
  trim_space, is_blank, split_lines, lines_of, drop_cr, scanner_token_size, scan_lines,
  read_newline_json,
}
use go_syncstorage.Web.BatchParts.{encode_all, decode_all}

abbrev pub has_newline : Text → Bool
has_newline [] = false
has_newline (c ∷ s) = let rest = has_newline s in if c == 10 then true else rest

-- encoding/json writes `b` as an object in braces in one line, and reads its values back.
pub record IsLine (j : Json) (b : PutBsoInput) (line : Text) : Type 0 where
  pub inner : Text
  pub keys : List (Text × Text)
  pub raw_id : Text
  pub braces : line ≡ b'{' ∷ inner ++ b'}' ∷ []
  pub one_line : has_newline line ≡ false
  pub written : j.encode b ≡ some (line ++ 10 ∷ [])
  pub object : j.object line ≡ some keys
  pub known : unknown_key keys ≡ none
  pub has_id : find_key (codes "id") keys ≡ some raw_id
  pub id : j.string raw_id ≡ some b.id
  pub id_given : is_null raw_id ≡ false
  pub payload : payload_of j b.id (find_key (codes "payload") keys) ≡ parsed b.payload
  pub ttl : ttl_of j b.id (find_key (codes "ttl") keys) ≡ parsed b.ttl
  pub sort_index : sort_index_of j b.id (find_key (codes "sortindex") keys) ≡ parsed b.sort_index

id_of-some :
    (j : Json) (raw id : Text)
    → j.string raw ≡ some id
    → is_null raw ≡ false
    → id_of j (some raw) ≡ parsed id
id_of-some j raw id e n = ground arith

parse-line :
    (j : Json) (b : PutBsoInput) (line : Text) → IsLine j b line → parse_into_bso j line ≡ parsed b
unfolding parse_into_bso
parse-line j b line l =
    rw
      (
        parse_into_bso,
        l.object,
        l.known,
        l.has_id,
        id_of-some j l.raw_id b.id l.id l.id_given,
        l.payload,
        l.ttl,
        l.sort_index,
      )
      refl

trim_left-brace : (s : Text) → trim_space (b'{' ∷ s ++ b'}' ∷ []) ≡ b'{' ∷ s ++ b'}' ∷ []
unfolding trim_space
trim_left-brace s =
    let e : reverse (b'{' ∷ s ++ b'}' ∷ []) ≡ b'}' ∷ reverse (b'{' ∷ s) =
      reverse-append (b'{' ∷ s) (b'}' ∷ []) in
    rw e (ap reverse (sym e) ∙ reverse-reverse (b'{' ∷ s ++ b'}' ∷ []))

split-line :
    (line rest : Text)
    → has_newline line ≡ false
    → split_lines (line ++ 10 ∷ rest) ≡ (line, (split_lines rest).0 ∷ (split_lines rest).1)
unfolding split_lines
split-line [] rest h = refl
split-line (c ∷ s) rest h = ground (arith, split-line s rest)

drop_cr-brace : (s : Text) → drop_cr (s ++ b'}' ∷ []) ≡ s ++ b'}' ∷ []
drop_cr-brace [] = refl
drop_cr-brace (c ∷ []) = refl
drop_cr-brace (c ∷ d ∷ s) = ap (λ t. c ∷ t) (drop_cr-brace (d ∷ s))

pub drop_cr-line :
    (j : Json) (b : PutBsoInput) (line : Text) → IsLine j b line → drop_cr line ≡ line
drop_cr-line j b line l = rw l.braces (drop_cr-brace (b'{' ∷ l.inner))

not_blank : (s t : Text) (c : ℕ) → trim_space s ≡ c ∷ t → is_blank s ≡ false
not_blank s t c e = rw (is_blank, e) refl

pub is_blank-line :
    (j : Json) (b : PutBsoInput) (line : Text) → IsLine j b line → is_blank line ≡ false
is_blank-line j b line l = rw l.braces (not_blank _ _ b'{' (trim_left-brace l.inner))

pub lines_of-line :
    (j : Json) (b : PutBsoInput) (line rest : Text)
    → IsLine j b line
    → lines_of (line ++ 10 ∷ rest) ≡ line ∷ lines_of rest
lines_of-line j b line rest l = rw (split-line line rest l.one_line) (rw l.braces refl)

-- The lines of some BSOs, one for each
abbrev pub AreLines : Json → List PutBsoInput → List Text → Type 0
AreLines j [] [] = Unit
AreLines j [] (line ∷ lines) = ⊥
AreLines j (b ∷ list) [] = ⊥
AreLines j (b ∷ list) (line ∷ lines) = IsLine j b line × AreLines j list lines

-- The BSOs before the first one whose line does not fit into the buffer of the scanner
abbrev pub before_long : ℕ → List PutBsoInput → List Text → List PutBsoInput
before_long max [] lines = []
before_long max (b ∷ list) [] = []
before_long max (b ∷ list) (line ∷ lines) =
    let rest = before_long max list lines in if ltb (length line) max then b ∷ rest else []

-- The text of the lines
abbrev pub text_of : List Text → Text
text_of [] = []
text_of (line ∷ lines) = line ++ 10 ∷ text_of lines

pub encode_all-lines :
    (j : Json) (list : List PutBsoInput) (lines : List Text)
    → AreLines j list lines
    → encode_all j list ≡ some (text_of lines)
unfolding encode_all
encode_all-lines j [] [] h = refl
encode_all-lines j [] (line ∷ lines) h = elim h [ ]
encode_all-lines j (b ∷ list) [] h = elim h [ ]
encode_all-lines j (b ∷ list) (line ∷ lines) (l, ls) =
    rw (l.written, encode_all-lines j list lines ls)
      (ap some (append_assoc line (10 ∷ []) (text_of lines)))

decode_one :
    (j : Json) (b : PutBsoInput) (line : Text) (raw : List Text) (list : List PutBsoInput)
    → parse_into_bso j line ≡ parsed b
    → decode_all j raw ≡ some list
    → decode_all j (line ∷ raw) ≡ some (b ∷ list)
unfolding decode_all
decode_one j b line raw list p d = rw (p, d) refl

pub scan_fit :
    (max : ℕ) (line : Text) (lines : List Text)
    → ltb (length line) max ≡ true
    → drop_cr line ≡ line
    → is_blank line ≡ false
    → scan_lines max (line ∷ lines) ≡ line ∷ scan_lines max lines
unfolding scan_lines
scan_fit max line lines fits same visible = rw (fits, if◌then◌else◌, same, visible) refl

scan_long :
    (max : ℕ) (line : Text) (lines : List Text)
    → ltb (length line) max ≡ false
    → scan_lines max (line ∷ lines) ≡ []
unfolding scan_lines
scan_long max line lines long = rw long refl

decode_none : (j : Json) (max : ℕ) → decode_all j (scan_lines max (lines_of [])) ≡ some []
unfolding scan_lines decode_all split_lines
decode_none j max = refl

pub decode_scanned :
    (j : Json) (max : ℕ) (list : List PutBsoInput) (lines : List Text)
    → AreLines j list lines
    → decode_all j (scan_lines max (lines_of (text_of lines))) ≡ some (before_long max list lines)
unfolding decode_all
decode_scanned j max [] [] h = decode_none j max
decode_scanned j max [] (line ∷ lines) h = elim h [ ]
decode_scanned j max (b ∷ list) [] h = elim h [ ]
decode_scanned j max (b ∷ list) (line ∷ lines) (l, ls) =
    rw (lines_of-line j b line (text_of lines) l) (elim (Bool-cases (ltb (length line) max)) [
      | inl fits ↦
          rw (fits, if◌then◌else◌)
            (rw
              (scan_fit max line (lines_of (text_of lines)) fits (drop_cr-line j b line l)
                (is_blank-line j b line l))
              (decode_one j b line _ _ (parse-line j b line l)
                (decode_scanned j max list lines ls)))
      | inr long ↦
          rw (long, if◌then◌else◌) (rw (scan_long max line (lines_of (text_of lines)) long) refl)
    ])

-- What was encoded into a batch, each BSO in its line, is decoded as it was, up to the first BSO whose
-- line has 257 KiB or more: that one and all behind it are lost without an error.
pub batch_text_lem :
    (j : Json) (list : List PutBsoInput) (lines : List Text)
    → AreLines j list lines
    → (text : Text) × (encode_all j list ≡ some text)
      × (decode_all j (read_newline_json text) ≡ some (before_long scanner_token_size list lines))
unfolding read_newline_json
batch_text_lem j list lines h = (
  text_of lines,
  encode_all-lines j list lines h,
  decode_scanned j scanner_token_size list lines h,
)
