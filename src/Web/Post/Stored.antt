-- ===== src/Web/Post/Stored.antt =====
-- web/syncUserHandler.go: hCollectionPOST, in either of its two ways, and the BSOs of the user.
use go_syncstorage.Prelude.{ℕ, ◌≡◌, refl, true, false, ◌&&◌, not, List, ltb, length}
use go_syncstorage.Prelude.Int.{ℤ, pos}
use go_syncstorage.Prelude.Text.{Text, codes}
use go_syncstorage.Storage.Data.{BsoRow, Result, ok, err}
use go_syncstorage.Storage.Driver.{World, now}
use go_syncstorage.Storage.Driver.Keeps.{Keeps-now}
use go_syncstorage.Storage.Bso.{post_bsos}
use go_syncstorage.Storage.Collections.{get_collection_modified}
use go_syncstorage.Web.Http.{Request, Floats}
use go_syncstorage.Web.BatchId.{get_batch_id_and_commit}
use go_syncstorage.Web.Body.{
  Json, Body, Items, items, no_array, no_object, request_to_post_bso_input,
}
use go_syncstorage.Web.BsoRoutes.{Config, is_body_type}
use go_syncstorage.Web.Guarded.{
  IsSuccess, Guards, Guards-reply, Guards-call, Guards-atomic, Guards-unless_sent, Guards-if,
  HasBsos, Keeps-reads, getcid-HasBsos,
}
use go_syncstorage.Web.NotModified.{sent_not_modified}
use go_syncstorage.Web.Post.{
  PostAnswer, classic_done, classic_items, h_collection_post_classic, post_by_query,
  post_unless_sent, post_in, h_collection_post, is_empty_text, is_invalid_name,
}
use go_syncstorage.Web.PostBatch.{h_collection_post_batch}
use go_syncstorage.Web.ReadOnly.{get_collection_modified-IsReadOnly}
use go_syncstorage.Web.Reply.{failed, Handler}
use go_syncstorage.Web.PostBatch.Holds.{Holds-Guards, Holds-Spares, post_bsos-IsAtomic}
use go_syncstorage.Web.PostBatch.Stored.{post_batch-Holds}

module _ (f : Floats) (media_type : Text → Text) (j : Json) (config : Config) (r : Request)
    (b : List BsoRow) where
  classic_items-Guards :
      (c : ℕ) (found : Items) → Guards (HasBsos b) (classic_items f media_type j config r c found)
  classic_items-Guards c no_array = Guards-reply _ _
  classic_items-Guards c (no_object e) = Guards-reply _ _
  classic_items-Guards c (items list failures) =
      Guards-if _ (ltb config.max_post_records (length list)) _ _ (Guards-reply _ _) (
        Guards-atomic _ (post_bsos c list) (classic_done f media_type j config r failures)
          (post_bsos-IsAtomic c list) (λ e. Guards-reply _ (failed 500 e)) (λ a w. tt))

  classic-Guards :
      (c : ℕ) (body : Body)
      → Guards (HasBsos b) (h_collection_post_classic f media_type j config r c body)
  unfolding h_collection_post_classic
  classic-Guards c body = Guards-call _ now _ Keeps-now (λ time.
      classic_items-Guards c
        (request_to_post_bso_input media_type j config.max_record_payload_bytes r body))

  -- The handler of batches, for the content length `n`
  abbrev batched : ℤ → ℕ → Body → Handler PostAnswer
  batched n c body = h_collection_post_batch media_type j config r n c body

  by_query-Guards :
      (n : ℤ) (c : ℕ) (body : Body)
      → Guards
          (HasBsos b)
          (post_by_query f media_type j config r (batched n) c body (get_batch_id_and_commit r))
  by_query-Guards n c body =
      let q = get_batch_id_and_commit r in
      Guards-if _ (q.batch_commit && not q.batch_found) _ _ (Guards-reply _ _) (
        Guards-if _ (not (is_empty_text q.batch_id)) _ _
          (Holds-Guards b q.batch_commit _ (post_batch-Holds media_type j config r b n c body))
          (classic-Guards c body))

  unless_sent-Guards :
      (n : ℤ) (c : ℕ) (body : Body) (m : Result ℕ)
      → Guards (HasBsos b) (post_unless_sent f media_type j config r (batched n) c body m)
  unless_sent-Guards n c body (err e) = Guards-reply _ _
  unless_sent-Guards n c body (ok m) =
      Guards-unless_sent _ (sent_not_modified f r (pos m)) _ (by_query-Guards n c body)

  post_in-Guards :
      (n : ℤ) (body : Body) (c : Result ℕ)
      → Guards (HasBsos b) (post_in f media_type j config r (batched n) body c)
  post_in-Guards n body (err e) =
      Guards-if _ (is_invalid_name e) _ _ (Guards-reply _ _) (Guards-reply _ _)
  post_in-Guards n body (ok c) =
      Guards-call _ (get_collection_modified c) _
        (Keeps-reads _ _ (get_collection_modified-IsReadOnly c)) (unless_sent-Guards n c body)

  post-Guards :
      (n : ℤ) (collection : Text) (body : Body)
      → Guards (HasBsos b) (h_collection_post f media_type j config r (batched n) collection body)
  unfolding h_collection_post
  post-Guards n collection body =
      Guards-if _ (is_body_type (media_type (r.header (codes "Content-Type")))) _ _
        (Guards-call _ _ _ (getcid-HasBsos b collection true) (post_in-Guards n body))
        (Guards-reply _ _)

module _ (f : Floats) (media_type : Text → Text) (j : Json) (config : Config) (r : Request)
    (n : ℤ) where
  -- hCollectionPOST with its handler of batches
  abbrev pub posting : Text → Body → Handler PostAnswer
  posting =
      h_collection_post f media_type j config r (h_collection_post_batch media_type j config r n)

  -- A POST to a collection, with or without a batch, that writes no success, for whichever reason and
  -- wherever the driver failed, leaves the BSOs as they were.
  pub h_collection_post-refused :
      (collection : Text) (body : Body) (w : World)
      → ¬ (IsSuccess ((posting collection body w).0))
      → (posting collection body w).1.tables.bso ≡ w.tables.bso
  h_collection_post-refused collection body w done =
      (post-Guards f media_type j config r w.tables.bso n collection body).at w refl done

  -- A POST of a part of a batch, new or not, without a commit changes no BSO, whatever is answered.
  pub h_collection_post_batch-open :
      (c : ℕ) (body : Body) (w : World)
      → (get_batch_id_and_commit r).batch_commit ≡ false
      → (h_collection_post_batch media_type j config r n c body w).1.tables.bso ≡ w.tables.bso
  h_collection_post_batch-open c body w open_still =
      (Holds-Spares w.tables.bso _ _ open_still
          (post_batch-Holds media_type j config r w.tables.bso n c body)).at
        w refl
