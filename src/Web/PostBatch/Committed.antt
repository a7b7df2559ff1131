-- ===== src/Web/PostBatch/Committed.antt =====
-- web/syncUserHandler.go: an upload in several requests, from the one that makes a batch to the one
-- that commits it, each behind its checks of the request.
use mathlib.Core.List.{append-nil, append_assoc}
use go_syncstorage.Prelude.{
  ℕ, ◌+◌, ◌^◌, ◌<◌, ◌≡◌, refl, true, false, none, List, [], ◌∷◌, ◌++◌, arith, ltb, length,
  if◌then◌else◌,
}
use go_syncstorage.Prelude.Int.{ℤ, pos}
use go_syncstorage.Prelude.Text.{Text, codes, text_eq}
use go_syncstorage.Storage.Data.{BsoRow, PutBsoInput, ok}
use go_syncstorage.Storage.Driver.{World}
use go_syncstorage.Storage.Driver.Reliable.{IsReliable, time_of}
use go_syncstorage.Storage.Bso.{post_bsos}
use go_syncstorage.Storage.Batch.{find_batch, batch_create}
use go_syncstorage.Storage.Batch.Invariant.{with_batch}
use go_syncstorage.Storage.Batch.Upload.{batch_create-ok}
use go_syncstorage.Web.Http.{Request}
use go_syncstorage.Web.BatchId.{BatchQuery, batch_id_string}
use go_syncstorage.Web.Body.{Json}
use go_syncstorage.Web.BsoRoutes.{Config}
use go_syncstorage.Web.BatchParts.{sent_ids, some_too_large}
use go_syncstorage.Web.PostBatch.{post_answer, committed, created, save_list, batch_query, is_new}
use go_syncstorage.Web.PostBatch.Lines.{AreLines, text_of, encode_all-lines}
use go_syncstorage.Web.Reply.{answered, call}
use go_syncstorage.Web.PostBatch.Parts.{AreShort, AllAccepted, filter_accepted}
use go_syncstorage.Web.PostBatch.Upload.{
  IsHolding, IsHolding-step, asked, accepted_answer, finish_open, batch_query-append,
  batch_query-commit,
}

-- The query of the request that makes a batch
abbrev pub asked_new : BatchQuery
asked_new = record { batch_found = true; batch_id = codes "true"; batch_commit = false }

abbrev pub all_parts : List (List PutBsoInput × List Text) → List PutBsoInput
all_parts [] = []
all_parts ((good, others) ∷ parts) = good ++ all_parts parts

abbrev pub all_lines : List (List PutBsoInput × List Text) → List Text
all_lines [] = []
all_lines ((good, others) ∷ parts) = others ++ all_lines parts

module _ (media_type : Text → Text) (j : Json) (config : Config) (r : Request) (c : ℕ) where
  -- Each part with its lines
  abbrev pub AreParts : List (List PutBsoInput × List Text) → Type 0
  AreParts [] = Unit
  AreParts ((good, others) ∷ parts) = AllAccepted good × AreLines j good others × AreParts parts

  is_new-true : is_new (codes "true") ≡ true
  unfolding text_eq
  is_new-true = refl

  save_list-new :
      (good : List PutBsoInput) (others : List Text) (w : World)
      → AllAccepted good
      → AreLines j good others
      → save_list media_type j config r false c none good w
        ≡ call (batch_create c (text_of others)) (created media_type j config r false c good []) w
  save_list-new good others w accepted a =
      rw (filter_accepted good [] [] accepted, encode_all-lines j good others a) refl

  -- The world behind BatchCreate
  after_create : Text → World → World
  after_create text w = record w {
    tables = with_batch c (time_of w) text w.tables;
    calls = w.calls + 1 + 1 + 1;
    readings = w.readings + 1;
  }

  created-IsHolding :
      (good : List PutBsoInput) (others : List Text) (w : World)
      → IsReliable w
      → AreLines j good others
      → IsHolding j w.tables.bso c
          (w.tables.last_batch_id + 1)
          good
          others
          (after_create (text_of others) w)
  unfolding after_create find_batch
  created-IsHolding good others w h a = record {
    row = record {
      id = w.tables.last_batch_id + 1;
      collection_id = c;
      modified = time_of w;
      bsos = text_of others;
    };
    reliable = h;
    found = ground arith;
    text = refl;
    are_lines = a;
    bsos = refl;
  }

  -- The request that makes a batch
  batch_query-new :
      (good : List PutBsoInput) (others : List Text) (w : World)
      → IsReliable w
      → AllAccepted good
      → AreLines j good others
      → let i = w.tables.last_batch_id + 1 in
        let (answer, w') = batch_query media_type j config r c good asked_new w in
        ((m : ℤ) × (answer
            ≡ answered (accepted_answer media_type j config r w.tables.bso c i m good)))
        × IsHolding j w.tables.bso c i good others w'
  batch_query-new good others w h accepted a =
      let i = w.tables.last_batch_id + 1 in
      let made : batch_create c (text_of others) w ≡ (ok i, after_create (text_of others) w) =
        unfold after_create in batch_create-ok c (text_of others) w h in
      let w' = after_create (text_of others) w in
      let holding = created-IsHolding good others w h a in
      rw
        (
          is_new-true,
          if◌then◌else◌,
          save_list-new good others w accepted a,
          made,
          finish_open media_type j config r w.tables.bso c i good w' holding.reliable,
        )
        ((_, refl), IsHolding-step j w.tables.bso c i good others w' holding)

  -- The requests that add the parts, one after the other
  pub uploaded : ℕ → List (List PutBsoInput × List Text) → World → World
  uploaded i [] w = w
  uploaded i ((good, others) ∷ parts) w =
      uploaded i parts
        (batch_query media_type j config r c good (asked media_type j config r [] c i false) w).1

  uploaded-IsHolding :
      (b : List BsoRow) (i : ℕ) (parts : List (List PutBsoInput × List Text))
      (list : List PutBsoInput) (lines : List Text) (w : World)
      → i < 2 ^ 63
      → AreParts parts
      → IsHolding j b c i list lines w
      → IsHolding j b c i (list ++ all_parts parts) (lines ++ all_lines parts) (uploaded i parts w)
  unfolding uploaded
  uploaded-IsHolding b i [] list lines w fits h holding =
      rw (append-nil list, append-nil lines) holding
  uploaded-IsHolding b i ((good, others) ∷ parts) list lines w fits (accepted, a, more) holding =
      let next =
        (batch_query-append media_type j config r b c i good list others lines w fits holding
          (accepted, a)).1 in
      rw (← append_assoc list good (all_parts parts), ← append_assoc lines others (all_lines parts))
        (uploaded-IsHolding b i parts (list ++ good) (lines ++ others) _ fits more next)

  -- An upload in several requests, while the driver works: one that makes a batch, any number that add
  -- parts to it, and one that adds a part and commits, each behind its checks of the request, and with
  -- BSOs that are all accepted and that JSON writes and reads back in lines below 257 KiB. If they are
  -- together within the limits, the first one is answered with the batch's id and status 202, the BSOs
  -- stay as they were until the last one, and that one does what PostBSOs does with all of them, in
  -- their order, and then removes the batch.
  pub batch_upload_lem :
      (good : List PutBsoInput) (others : List Text) (parts : List (List PutBsoInput × List Text))
      (last : List PutBsoInput) (last_lines : List Text) (w : World)
      → IsReliable w
      → w.tables.last_batch_id + 1 < 2 ^ 63
      → AllAccepted good × AreLines j good others
      → AreParts parts
      → AllAccepted last × AreLines j last last_lines
      → AreShort ((others ++ all_lines parts) ++ last_lines)
      → ltb config.max_total_records (length ((good ++ all_parts parts) ++ last)) ≡ false
      → some_too_large config.max_total_bytes ((good ++ all_parts parts) ++ last) ≡ false
      → let i = w.tables.last_batch_id + 1 in
        let (answer, w1) = batch_query media_type j config r c good asked_new w in
        let w2 = uploaded i parts w1 in
        ((m : ℤ) × (answer
            ≡ answered (
                post_answer media_type j config r 202
                  (batch_id_string (pos i))
                  m
                  (sent_ids good)
                  [])))
        × (w2.tables.bso ≡ w.tables.bso)
        × ((w' : World) × (w'.tables.bso ≡ w.tables.bso)
            × (batch_query media_type j config r c last (asked media_type j config r [] c i true) w2
                ≡ call
                    (post_bsos c ((good ++ all_parts parts) ++ last))
                    (committed media_type j config r i last [])
                    w'))
  batch_upload_lem good others parts last last_lines w h fits (accepted, a) more part short few
        small =
      let i = w.tables.last_batch_id + 1 in
      let (told, holding) = batch_query-new good others w h accepted a in
      let all = uploaded-IsHolding w.tables.bso i parts good others _ fits more holding in
      (
        told,
        all.bsos,
        batch_query-commit media_type j config r w.tables.bso c i last (good ++ all_parts parts)
            last_lines (others ++ all_lines parts) _ fits all part short few small,
      )
