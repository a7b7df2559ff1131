-- ===== src/Web/PostBatch/Parts.antt =====
-- web/syncUserHandler.go: the parts of a batch, as lists, lines and texts.
use mathlib.Core.List.{append-nil, append_assoc}
use go_syncstorage.Prelude.{
  ℕ, suc, ◌≡◌, refl, ◌∙◌, ap, sym, true, none, List, [], ◌∷◌, ◌++◌, ltb, length, if◌then◌else◌,
}
use go_syncstorage.Prelude.Text.{Text}
use go_syncstorage.Storage.Data.{PutBsoInput}
use go_syncstorage.Web.Body.{Json, Failures}
use go_syncstorage.Web.Lines.{split_lines, scanner_token_size, scan_lines, lines_of}
use go_syncstorage.Web.BatchParts.{batch_refusal, filter_bsos}
use go_syncstorage.Web.PostBatch.Lines.{
  AreLines, text_of, before_long, scan_fit, lines_of-line, drop_cr-line, is_blank-line,
}

pub AreLines-append :
    (j : Json) (list more : List PutBsoInput) (lines others : List Text)
    → AreLines j list lines
    → AreLines j more others
    → AreLines j (list ++ more) (lines ++ others)
AreLines-append j [] more [] others h k = k
AreLines-append j [] more (line ∷ lines) others h k = elim h [ ]
AreLines-append j (b ∷ list) more [] others h k = elim h [ ]
AreLines-append j (b ∷ list) more (line ∷ lines) others (l, ls) k =
    (l, AreLines-append j list more lines others ls k)

pub text_of-append :
    (lines others : List Text) → text_of (lines ++ others) ≡ text_of lines ++ text_of others
text_of-append [] others = refl
text_of-append (line ∷ lines) others =
    rw (text_of-append lines others) (sym (append_assoc line (10 ∷ text_of lines) (text_of others)))

-- Every line fits into the buffer.
abbrev pub AreShort : List Text → Type 0
AreShort [] = Unit
AreShort (line ∷ lines) = (ltb (length line) scanner_token_size ≡ true) × AreShort lines

pub before_long-short :
    (j : Json) (list : List PutBsoInput) (lines : List Text)
    → AreLines j list lines
    → AreShort lines
    → before_long scanner_token_size list lines ≡ list
before_long-short j [] [] h s = refl
before_long-short j [] (line ∷ lines) h s = elim h [ ]
before_long-short j (b ∷ list) [] h s = elim h [ ]
before_long-short j (b ∷ list) (line ∷ lines) (l, ls) (s, ss) =
    rw (s, if◌then◌else◌) (ap (λ t. b ∷ t) (before_long-short j list lines ls ss))

pub scan_none : (max : ℕ) → scan_lines max (lines_of []) ≡ []
unfolding scan_lines split_lines
scan_none max = refl

pub read_short :
    (j : Json) (list : List PutBsoInput) (lines : List Text)
    → AreLines j list lines
    → AreShort lines
    → scan_lines scanner_token_size (lines_of (text_of lines)) ≡ lines
read_short j [] [] h s = scan_none scanner_token_size
read_short j [] (line ∷ lines) h s = elim h [ ]
read_short j (b ∷ list) [] h s = elim h [ ]
read_short j (b ∷ list) (line ∷ lines) (l, ls) (s, ss) =
    rw (lines_of-line j b line (text_of lines) l) (
      scan_fit scanner_token_size line (lines_of (text_of lines)) s (drop_cr-line j b line l)
        (is_blank-line j b line l)
      ∙ ap (λ t. line ∷ t) (read_short j list lines ls ss))

pub length-lines :
    (j : Json) (list : List PutBsoInput) (lines : List Text)
    → AreLines j list lines
    → length lines ≡ length list
length-lines j [] [] h = refl
length-lines j [] (line ∷ lines) h = elim h [ ]
length-lines j (b ∷ list) [] h = elim h [ ]
length-lines j (b ∷ list) (line ∷ lines) (l, ls) = ap suc (length-lines j list lines ls)

-- None of them is refused by the loop over the BSOs.
abbrev pub AllAccepted : List PutBsoInput → Type 0
AllAccepted [] = Unit
AllAccepted (b ∷ list) = (batch_refusal b ≡ none) × AllAccepted list

pub filter_accepted :
    (list good : List PutBsoInput) (failures : Failures)
    → AllAccepted list
    → filter_bsos list (good, failures) ≡ (good ++ list, failures)
unfolding filter_bsos
filter_accepted [] good failures h = rw (append-nil good) refl
filter_accepted (b ∷ list) good failures (a, rest) = rw (a) (
    filter_accepted list (good ++ b ∷ []) failures rest
    ∙ ap (λ t. (t, failures)) (append_assoc good (b ∷ []) list))
