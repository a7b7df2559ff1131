-- ===== src/Web/PostBatch/Upload.antt =====
-- web/syncUserHandler.go: hCollectionPOSTBatch behind its checks of the request, over the requests
-- that make up one upload.
use mathlib.Core.List.{append-nil}
use go_syncstorage.Prelude.{
  ℕ, ◌^◌, ◌<◌, ◌≡◌, refl, ◌∙◌, ap, sym, Bool, true, false, ◌&&◌, some, List, [], ◌∷◌, ◌++◌, ◌==◌,
  arith, ltb, length, if◌then◌else◌,
}
use go_syncstorage.Prelude.Int.{ℤ, pos}
use go_syncstorage.Prelude.Text.{Text, text_eq}
use go_syncstorage.Storage.Data.{BsoRow, BatchRow, PutBsoInput, ok}
use go_syncstorage.Storage.Driver.{World, step, query}
use go_syncstorage.Storage.Driver.Reliable.{IsReliable, time_of}
use go_syncstorage.Storage.Bso.{post_bsos}
use go_syncstorage.Storage.Batch.{
  is_batch, find_batch, appended, batch_append, batch_exists, batch_load,
}
use go_syncstorage.Storage.Batch.Upload.{find_batch-append, batch_append-ok, appended_if}
use go_syncstorage.Storage.Collections.{
  get_collection_modified, find_collection, has_id, modified_or_zero,
}
use go_syncstorage.Web.Http.{Request}
use go_syncstorage.Web.BatchId.{BatchQuery, batch_id_string, batch_id_int-batch_id_string}
use go_syncstorage.Web.Body.{Json, Failures}
use go_syncstorage.Web.BsoRoutes.{Config}
use go_syncstorage.Web.Lines.{read_newline_json, scanner_token_size}
use go_syncstorage.Web.BatchParts.{decode_all, sent_ids, some_too_large}
use go_syncstorage.Web.PostBatch.{
  post_answer, committed, commit_raw, finish_batch, append_some, save_list, batch_query, is_new,
}
use go_syncstorage.Web.Post.{PostAnswer}
use go_syncstorage.Web.PostBatch.Lines.{AreLines, text_of, encode_all-lines, decode_scanned}
use go_syncstorage.Web.Reply.{Handler, answered, call}
use go_syncstorage.Web.PostBatch.Parts.{
  AreLines-append, text_of-append, AreShort, before_long-short, read_short, length-lines,
  AllAccepted, filter_accepted,
}

-- The batch `i` of the collection `c` holds the lines of the list; the driver works, and the BSOs are
-- those given.
pub record IsHolding (j : Json) (b : List BsoRow) (c i : ℕ) (list : List PutBsoInput)
    (lines : List Text) (w : World) : Type 0 where
  pub row : BatchRow
  pub reliable : IsReliable w
  pub found : find_batch (is_batch i c) w.tables.batches ≡ some row
  pub text : row.bsos ≡ text_of lines
  pub are_lines : AreLines j list lines
  pub bsos : w.tables.bso ≡ b

pub IsHolding-step :
    (j : Json) (b : List BsoRow) (c i : ℕ) (list : List PutBsoInput) (lines : List Text) (w : World)
    → IsHolding j b c i list lines w
    → IsHolding j b c i list lines (step w)
IsHolding-step j b c i list lines w h = record {
  row = h.row;
  reliable = h.reliable;
  found = h.found;
  text = h.text;
  are_lines = h.are_lines;
  bsos = h.bsos;
}

own_batch :
    (i c : ℕ) (m : ℕ) (t : Text) (row : BatchRow)
    → appended_if (i == i && c == c) m t (some row) ≡ some (appended m t row)
own_batch i c m t row = ground arith

module _ (media_type : Text → Text) (j : Json) (config : Config) (r : Request) (b : List BsoRow)
    (c i : ℕ) where
  -- An append of good BSOs leads to a world in which the batch holds them too.
  pub append_some_lem :
      (commit : Bool) (good list : List PutBsoInput) (others lines : List Text)
      (failures : Failures) (w : World)
      → IsHolding j b c i list lines w
      → AreLines j good others
      → (w' : World) × IsHolding j b c i (list ++ good) (lines ++ others) w'
        × (append_some media_type j config r commit c (pos i) good failures (text_of others) w
            ≡ finish_batch media_type j config r commit c (pos i) good failures w')
  append_some_lem commit [] list [] lines failures w h a =
      (w, rw (append-nil list, append-nil lines) h, refl)
  append_some_lem commit [] list (x ∷ others) lines failures w h a = elim a [ ]
  append_some_lem commit (x ∷ good) list others lines failures w h a =
      let text = text_of others in
      let done = batch_append-ok i c text w h.row h.reliable h.found in
      let w' = (batch_append i c text w).1 in
      (
        w',
        rw done (record {
          row = appended (time_of w) text h.row;
          reliable = h.reliable;
          found =
              find_batch-append i c i c (time_of w) text w.tables.batches
              ∙ rw h.found (own_batch i c (time_of w) text h.row);
          text = rw h.text (sym (text_of-append lines others));
          are_lines = AreLines-append j list (x ∷ good) lines others h.are_lines a;
          bsos = h.bsos;
        }),
        rw done refl,
      )

  abbrev pub accepted_answer : ℤ → List PutBsoInput → PostAnswer
  accepted_answer m good =
      post_answer media_type j config r 202 (batch_id_string (pos i)) m (sent_ids good) []

  pub finish_open :
      (good : List PutBsoInput) (w : World)
      → IsReliable w
      → finish_batch media_type j config r false c (pos i) good [] w ≡ (
        answered (
            accepted_answer
              (pos (modified_or_zero (find_collection (has_id c) w.tables.collections)))
              good),
        step w,
      )
  unfolding finish_batch get_collection_modified query
  finish_open good w h = rw (h w.calls, if◌then◌else◌) refl

  commit_raw_lem :
      (good list : List PutBsoInput) (raw : List Text)
      → ltb config.max_total_records (length raw) ≡ false
      → decode_all j raw ≡ some list
      → some_too_large config.max_total_bytes list ≡ false
      → commit_raw media_type j config r c i good [] raw
        ≡ call (post_bsos c list) (committed media_type j config r i good [])
  commit_raw_lem good list raw few decoded small = rw (few, if◌then◌else◌, decoded, small) refl

  batch_load-found :
      (w : World) (row : BatchRow)
      → IsReliable w
      → find_batch (is_batch i c) w.tables.batches ≡ some row
      → batch_load i c w ≡ (ok row, step w)
  unfolding batch_load query
  batch_load-found w row h found = rw (h w.calls, if◌then◌else◌, found) refl

  finish_commit :
      (good list : List PutBsoInput) (lines : List Text) (w : World)
      → IsHolding j b c i list lines w
      → AreShort lines
      → ltb config.max_total_records (length list) ≡ false
      → some_too_large config.max_total_bytes list ≡ false
      → finish_batch media_type j config r true c (pos i) good [] w
        ≡ call (post_bsos c list) (committed media_type j config r i good []) (step w)
  unfolding finish_batch
  finish_commit good list lines w h short few small =
      let raw = read_newline_json h.row.bsos in
      let read : raw ≡ lines =
        ap read_newline_json h.text
        ∙ unfold read_newline_json in read_short j list lines h.are_lines short in
      let decoded : decode_all j raw ≡ some list =
        rw (read ∙ sym (read_short j list lines h.are_lines short)) (
          decode_scanned j scanner_token_size list lines h.are_lines
          ∙ ap some (before_long-short j list lines h.are_lines short)) in
      let count : ltb config.max_total_records (length raw) ≡ false =
        rw (read, length-lines j list lines h.are_lines) few in
      rw (batch_load-found w h.row h.reliable h.found) (
        ap (λ (k : Handler PostAnswer). k (step w))
          (commit_raw_lem good list raw count decoded small))

  -- The BSOs of a request that are all accepted and encoded
  abbrev pub IsPart : List PutBsoInput → List Text → Type 0
  IsPart good others = AllAccepted good × AreLines j good others

  pub save_list-part :
      (commit : Bool) (good : List PutBsoInput) (others : List Text) (w : World)
      → IsPart good others
      → save_list media_type j config r commit c (some (pos i)) good w
        ≡ append_some media_type j config r commit c (pos i) good [] (text_of others) w
  save_list-part commit good others w (accepted, a) =
      rw (filter_accepted good [] [] accepted, encode_all-lines j good others a) refl

  -- The query of a request for the batch, with or without a commit
  abbrev pub asked : Bool → BatchQuery
  asked commit = record {
    batch_found = true;
    batch_id = batch_id_string (pos i);
    batch_commit = commit;
  }

  is_new-asked : is_new (batch_id_string (pos i)) ≡ false
  unfolding batch_id_string text_eq
  is_new-asked = refl

  batch_exists-found :
      (w : World) (row : BatchRow)
      → IsReliable w
      → find_batch (is_batch i c) w.tables.batches ≡ some row
      → batch_exists i c w ≡ (ok true, step w)
  unfolding batch_exists query
  batch_exists-found w row h found = rw (h w.calls, if◌then◌else◌, found) refl

  batch_query-asked :
      (commit : Bool) (good list : List PutBsoInput) (lines : List Text) (w : World)
      → i < 2 ^ 63
      → IsHolding j b c i list lines w
      → batch_query media_type j config r c good (asked commit) w
        ≡ save_list media_type j config r commit c (some (pos i)) good (step w)
  batch_query-asked commit good list lines w fits h =
      rw
        (
          is_new-asked,
          if◌then◌else◌,
          batch_id_int-batch_id_string (pos i) fits,
          batch_exists-found w h.row h.reliable h.found,
        )
        refl

  -- A request that adds a part
  pub batch_query-append :
      (good list : List PutBsoInput) (others lines : List Text) (w : World)
      → i < 2 ^ 63
      → IsHolding j b c i list lines w
      → IsPart good others
      → let (answer, w') = batch_query media_type j config r c good (asked false) w in
        ((m : ℤ) × (answer ≡ answered (accepted_answer m good)))
        × IsHolding j b c i (list ++ good) (lines ++ others) w'
  batch_query-append good list others lines w fits h part =
      let (w', holding, e) =
        append_some_lem false good list others lines [] (step w)
          (IsHolding-step j b c i list lines w h) part.1 in
      rw
        (
          batch_query-asked false good list lines w fits h,
          save_list-part false good others (step w) part,
          e,
          finish_open good w' holding.reliable,
        )
        ((_, refl), IsHolding-step j b c i (list ++ good) (lines ++ others) w' holding)

  -- A request that adds a part and commits
  pub batch_query-commit :
      (good list : List PutBsoInput) (others lines : List Text) (w : World)
      → i < 2 ^ 63
      → IsHolding j b c i list lines w
      → IsPart good others
      → AreShort (lines ++ others)
      → ltb config.max_total_records (length (list ++ good)) ≡ false
      → some_too_large config.max_total_bytes (list ++ good) ≡ false
      → (w' : World) × (w'.tables.bso ≡ b)
        × (batch_query media_type j config r c good (asked true) w
            ≡ call (post_bsos c (list ++ good)) (committed media_type j config r i good []) w')
  batch_query-commit good list others lines w fits h part short few small =
      let (w', holding, e) =
        append_some_lem true good list others lines [] (step w)
          (IsHolding-step j b c i list lines w h) part.1 in
      (
        step w',
        holding.bsos,
        batch_query-asked true good list lines w fits h
            ∙ save_list-part true good others (step w) part
            ∙ e
            ∙ finish_commit good (list ++ good) (lines ++ others) w' holding short few small,
      )
