-- ===== src/Tests/Upload.antt =====
-- Uploads in batches, with the small format of the tests.
use go_syncstorage.Prelude.{◌≡◌, refl, none, true, some, List, [], ◌∷◌, ◌++◌, arith}
use go_syncstorage.Prelude.Int.{ℤ, pos}
use go_syncstorage.Prelude.Text.{Text, codes, text_eq}
use go_syncstorage.Storage.Checks.{bso_id_ok}
use go_syncstorage.Storage.Data.{PutBsoInput, new_tables}
use go_syncstorage.Storage.Driver.{World}
use go_syncstorage.Storage.Bso.{post_bsos}
use go_syncstorage.Web.BatchId.{batch_id_string}
use go_syncstorage.Web.Body.{unknown_key}
use go_syncstorage.Web.BsoRoutes.{default_config}
use go_syncstorage.Web.Lines.{read_newline_json, scanner_token_size, lines_of}
use go_syncstorage.Web.Lines.Blank.{Reads, read_newline_json_lem}
use go_syncstorage.Web.BatchParts.{sent_ids, batch_refusal, some_too_large, encode_all, decode_all}
use go_syncstorage.Web.PostBatch.{post_answer, committed, batch_query}
use go_syncstorage.Web.PostBatch.Committed.{asked_new, uploaded, batch_upload_lem}
use go_syncstorage.Web.PostBatch.Lines.{IsLine, before_long, batch_text_lem}
use go_syncstorage.Web.PostBatch.Upload.{asked}
use go_syncstorage.Web.Reply.{answered, call}
use go_syncstorage.Tests.Data.{start}
use go_syncstorage.Tests.Json.{braces, put_request, item, line_of, keys_of}
use go_syncstorage.Tests.Routes.{whole_type}

abbrev one : Text
one = codes "aBcD"

abbrev two : Text
two = codes "eFgH"

abbrev hi : Text
hi = codes "hi"

one-IsLine : IsLine braces (item one hi) (line_of one hi)
unfolding unknown_key text_eq
one-IsLine = record {
  inner = one ++ b':' ∷ hi;
  keys = keys_of (one ++ b':' ∷ hi);
  raw_id = one;
  braces = refl;
  one_line = refl;
  written = refl;
  object = refl;
  known = refl;
  has_id = refl;
  id = refl;
  id_given = refl;
  payload = refl;
  ttl = refl;
  sort_index = refl;
}

two-IsLine : IsLine braces (item two hi) (line_of two hi)
unfolding unknown_key text_eq
two-IsLine = record {
  inner = two ++ b':' ∷ hi;
  keys = keys_of (two ++ b':' ∷ hi);
  raw_id = two;
  braces = refl;
  one_line = refl;
  written = refl;
  object = refl;
  known = refl;
  has_id = refl;
  id = refl;
  id_given = refl;
  payload = refl;
  ttl = refl;
  sort_index = refl;
}

abbrev items : List PutBsoInput
items = item one hi ∷ item two hi ∷ []

batch_text_lem_example :
    (text : Text) × (encode_all braces items ≡ some text)
    × (decode_all braces (read_newline_json text)
        ≡ some (before_long scanner_token_size items (line_of one hi ∷ line_of two hi ∷ [])))
batch_text_lem_example =
    batch_text_lem braces items (line_of one hi ∷ line_of two hi ∷ [])
      (one-IsLine, (two-IsLine, tt))

one_accepted : batch_refusal (item one hi) ≡ none
unfolding batch_refusal bso_id_ok
one_accepted = refl

two_accepted : batch_refusal (item two hi) ≡ none
unfolding batch_refusal bso_id_ok
two_accepted = refl

-- A batch of one BSO, to which one is added, and one with the commit
abbrev parts : List (List PutBsoInput × List Text)
parts = (item two hi ∷ [], line_of two hi ∷ []) ∷ []

batch_upload_lem_example :
    let (answer, w1) =
      batch_query whole_type braces default_config put_request 7
        (item one hi ∷ [])
        asked_new
        start in
    let w2 = uploaded whole_type braces default_config put_request 7 1 parts w1 in
    ((m : ℤ) × (answer
        ≡ answered (
            post_answer whole_type braces default_config put_request 202
              (batch_id_string (pos 1))
              m
              (sent_ids (item one hi ∷ []))
              [])))
    × (w2.tables.bso ≡ start.tables.bso)
    × ((w' : World) × (w'.tables.bso ≡ start.tables.bso)
        × (batch_query whole_type braces default_config put_request 7
              (item one hi ∷ [])
              (asked whole_type braces default_config put_request [] 7 1 true)
              w2
            ≡ call
                (post_bsos 7 (item one hi ∷ item two hi ∷ item one hi ∷ []))
                (committed whole_type braces default_config put_request 1 (item one hi ∷ []) [])
                w'))
unfolding some_too_large new_tables
batch_upload_lem_example =
    batch_upload_lem whole_type braces default_config put_request 7 (item one hi ∷ [])
      (line_of one hi ∷ []) parts (item one hi ∷ []) (line_of one hi ∷ []) start (λ k. refl)
      (omega arith) ((one_accepted, tt), (one-IsLine, tt))
      ((two_accepted, tt), (two-IsLine, tt), tt) ((one_accepted, tt), (one-IsLine, tt))
      (refl, (refl, (refl, tt))) refl refl

-- A blank line, one with text, and one without its newline
abbrev some_lines : Text
some_lines = b' ' ∷ 13 ∷ 10 ∷ b'{' ∷ b'}' ∷ 10 ∷ hi

read_newline_json_lem_example :
    Reads scanner_token_size (lines_of some_lines) (read_newline_json some_lines)
read_newline_json_lem_example = read_newline_json_lem some_lines
