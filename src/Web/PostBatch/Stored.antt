-- ===== src/Web/PostBatch/Stored.antt =====
-- web/syncUserHandler.go: hCollectionPOSTBatch and the BSOs of the user.
use go_syncstorage.Prelude.{
  ℕ, Bool, true, false, ◌&&◌, Option, none, some, List, [], ◌∷◌, ltb, length,
}
use go_syncstorage.Prelude.Int.{ℤ, pos, lt_int}
use go_syncstorage.Prelude.Text.{Text}
use go_syncstorage.Storage.Data.{BsoRow, BatchRow, PutBsoInput, Result, ok, err}
use go_syncstorage.Storage.Driver.{now}
use go_syncstorage.Storage.Driver.Keeps.{Keeps-now}
use go_syncstorage.Storage.Bso.{post_bsos}
use go_syncstorage.Storage.Keys.{last_modified}
use go_syncstorage.Storage.Batch.{
  batch_create, batch_append, batch_remove, batch_load, batch_exists,
}
use go_syncstorage.Web.Http.{Request}
use go_syncstorage.Web.BatchId.{BatchQuery, get_batch_id_and_commit, batch_id_int}
use go_syncstorage.Web.Body.{
  Json, Body, Items, items, no_array, no_object, Failures, request_to_post_bso_input,
}
use go_syncstorage.Web.BsoRoutes.{Config}
use go_syncstorage.Web.Guarded.{
  Spares, Guards, Spares-reply, Spares-call, Guards-reply, Guards-call, Guards-atomic, Guards-if,
  HasBsos, Keeps-reads,
}
use go_syncstorage.Web.Lines.{read_newline_json}
use go_syncstorage.Web.Post.{PostAnswer}
use go_syncstorage.Web.BatchParts.{
  check_sizes, size_limits, filter_bsos, some_too_large, encode_all, decode_all, size_limit,
}
use go_syncstorage.Web.PostBatch.{
  row_id, is_new, remove_and_refuse, committed, commit_decoded, commit_loaded, kept_open,
  finish_batch, created, batch_appended, append_some, save_batch, save_filtered, batch_looked_up,
  with_batch_id, batch_query, told_failures, unless_failures, batch_items, batch_unless,
  h_collection_post_batch,
}
use go_syncstorage.Web.ReadOnly.{
  get_collection_modified-IsReadOnly, batch_load-IsReadOnly, batch_exists-IsReadOnly,
  last_modified-IsReadOnly,
}
use go_syncstorage.Web.Reply.{Reply, failed, Handler}
use go_syncstorage.Web.PostBatch.Holds.{
  Holds, Holds-reply, Holds-call, Holds-if, Holds-going_on, batch_create-Keeps, batch_append-Keeps,
  batch_remove-Keeps, post_bsos-IsAtomic,
}

module _ (media_type : Text → Text) (j : Json) (config : Config) (r : Request)
    (b : List BsoRow) where
  remove-Guards : (i : ℕ) → Guards (HasBsos b) (remove_and_refuse media_type j config r i)
  remove-Guards i =
      Guards-call _ (batch_remove i) _ (batch_remove-Keeps b i) (λ _. Guards-reply _ size_limit)

  commit_decoded-Guards :
      (c i : ℕ) (good : List PutBsoInput) (failures : Failures) (o : Option (List PutBsoInput))
      → Guards (HasBsos b) (commit_decoded media_type j config r c i good failures o)
  commit_decoded-Guards c i good failures none = Guards-reply _ _
  commit_decoded-Guards c i good failures (some list) =
      Guards-if _ (some_too_large config.max_total_bytes list) _ _ (remove-Guards i) (
        Guards-atomic _ (post_bsos c list) (committed media_type j config r i good failures)
          (post_bsos-IsAtomic c list) (λ e. Guards-reply _ (failed 500 e)) (λ a w. tt))

  commit_loaded-Guards :
      (c i : ℕ) (good : List PutBsoInput) (failures : Failures) (o : Result BatchRow)
      → Guards (HasBsos b) (commit_loaded media_type j config r c i good failures o)
  commit_loaded-Guards c i good failures (err e) = Guards-reply _ _
  commit_loaded-Guards c i good failures (ok row) =
      Guards-if _ (ltb config.max_total_records (length (read_newline_json row.bsos))) _ _
        (remove-Guards i)
        (commit_decoded-Guards c i good failures (decode_all j (read_newline_json row.bsos)))

  kept_open-Spares :
      (i : ℤ) (good : List PutBsoInput) (failures : Failures) (o : Result ℕ)
      → Spares (HasBsos b) (kept_open media_type j config r i good failures o)
  kept_open-Spares i good failures (err e) = Spares-reply _ _
  kept_open-Spares i good failures (ok m) = Spares-reply _ _

  finish_batch-Holds :
      (commit : Bool) (c : ℕ) (i : ℤ) (good : List PutBsoInput) (failures : Failures)
      → Holds commit b (finish_batch media_type j config r commit c i good failures)
  unfolding finish_batch
  finish_batch-Holds true c i good failures =
      Guards-call _ (batch_load (row_id i) c) _
        (Keeps-reads _ _ (batch_load-IsReadOnly (row_id i) c))
        (commit_loaded-Guards c (row_id i) good failures)
  finish_batch-Holds false c i good failures =
      Spares-call _ _ _ (Keeps-reads _ _ (get_collection_modified-IsReadOnly c))
        (kept_open-Spares i good failures)

  created-Holds :
      (commit : Bool) (c : ℕ) (good : List PutBsoInput) (failures : Failures) (o : Result ℕ)
      → Holds commit b (created media_type j config r commit c good failures o)
  created-Holds commit c good failures (err e) = Holds-reply b commit _
  created-Holds commit c good failures (ok i) = finish_batch-Holds commit c (pos i) good failures

  appended-Holds :
      (commit : Bool) (c : ℕ) (i : ℤ) (good : List PutBsoInput) (failures : Failures)
      (o : Result (Unit {0}))
      → Holds commit b (batch_appended media_type j config r commit c i good failures o)
  appended-Holds commit c i good failures (err e) = Holds-reply b commit _
  appended-Holds commit c i good failures (ok _) = finish_batch-Holds commit c i good failures

  append_some-Holds :
      (commit : Bool) (c : ℕ) (i : ℤ) (good : List PutBsoInput) (failures : Failures) (text : Text)
      → Holds commit b (append_some media_type j config r commit c i good failures text)
  append_some-Holds commit c i [] failures text = finish_batch-Holds commit c i [] failures
  append_some-Holds commit c i (x ∷ list) failures text =
      Holds-call b commit (batch_append (row_id i) c text) _
        (batch_append-Keeps b (row_id i) c text) (appended-Holds commit c i (x ∷ list) failures)

  save_batch-Holds :
      (commit : Bool) (c : ℕ) (i : Option ℤ) (good : List PutBsoInput) (failures : Failures)
      (text : Option Text)
      → Holds commit b (save_batch media_type j config r commit c i good failures text)
  save_batch-Holds commit c i good failures none = Holds-reply b commit _
  save_batch-Holds commit c none good failures (some text) =
      Holds-call b commit (batch_create c text) _ (batch_create-Keeps b c text)
        (created-Holds commit c good failures)
  save_batch-Holds commit c (some i) good failures (some text) =
      append_some-Holds commit c i good failures text

  save_filtered-Holds :
      (commit : Bool) (c : ℕ) (i : Option ℤ) (found : List PutBsoInput × Failures)
      → Holds commit b (save_filtered media_type j config r commit c i found)
  save_filtered-Holds commit c i (good, failures) =
      save_batch-Holds commit c i good failures (encode_all j good)

  looked_up-Holds :
      (commit : Bool) (c : ℕ) (name : Text) (i : ℤ) (list : List PutBsoInput) (o : Result Bool)
      → Holds commit b (batch_looked_up media_type j config r commit c name i list o)
  looked_up-Holds commit c name i list (err e) =
      Holds-going_on b commit _ _
        (save_filtered-Holds commit c (some i) (filter_bsos list ([], [])))
  looked_up-Holds commit c name i list (ok true) =
      save_filtered-Holds commit c (some i) (filter_bsos list ([], []))
  looked_up-Holds commit c name i list (ok false) =
      Holds-going_on b commit _ _
        (save_filtered-Holds commit c (some i) (filter_bsos list ([], [])))

  with_id-Holds :
      (commit : Bool) (c : ℕ) (name : Text) (list : List PutBsoInput) (o : Option ℤ)
      → Holds commit b (with_batch_id media_type j config r commit c name list o)
  with_id-Holds commit c name list none = Holds-reply b commit _
  with_id-Holds commit c name list (some i) =
      Holds-call b commit (batch_exists (row_id i) c) _
        (Keeps-reads _ _ (batch_exists-IsReadOnly (row_id i) c))
        (looked_up-Holds commit c name i list)

  query-Holds :
      (c : ℕ) (list : List PutBsoInput) (q : BatchQuery)
      → Holds q.batch_commit b (batch_query media_type j config r c list q)
  query-Holds c list q =
      Holds-if b q.batch_commit (is_new q.batch_id) _ _
        (save_filtered-Holds q.batch_commit c none (filter_bsos list ([], [])))
        (with_id-Holds q.batch_commit c q.batch_id list (batch_id_int q.batch_id))

  told_failures-Holds :
      (commit : Bool) (failures : Failures) (m : Result ℤ)
      → Holds commit b (told_failures media_type j config r failures m)
  told_failures-Holds commit failures (err e) = Holds-reply b commit _
  told_failures-Holds commit failures (ok m) = Holds-reply b commit _

  unless_failures-Holds :
      (c : ℕ) (list : List PutBsoInput) (failures : Failures)
      → Holds
          (get_batch_id_and_commit r).batch_commit
          b
          (unless_failures media_type j config r c list failures)
  unless_failures-Holds c list [] = query-Holds c list (get_batch_id_and_commit r)
  unless_failures-Holds c list (x ∷ more) =
      let commit = (get_batch_id_and_commit r).batch_commit in
      Holds-call b commit last_modified _ (Keeps-reads _ _ last_modified-IsReadOnly)
        (told_failures-Holds commit (x ∷ more))

  batch_items-Holds :
      (c : ℕ) (found : Items)
      → Holds (get_batch_id_and_commit r).batch_commit b (batch_items media_type j config r c found)
  batch_items-Holds c no_array = Holds-reply b (get_batch_id_and_commit r).batch_commit _
  batch_items-Holds c (no_object e) = Holds-reply b (get_batch_id_and_commit r).batch_commit _
  batch_items-Holds c (items list failures) =
      Holds-if b (get_batch_id_and_commit r).batch_commit
        (ltb config.max_post_records (length list)) _ _
        (Holds-reply b (get_batch_id_and_commit r).batch_commit _)
        (unless_failures-Holds c list failures)

  unless-Holds :
      (commit : Bool) (o : Option (Reply PostAnswer)) (k : Handler PostAnswer)
      → Holds commit b k
      → Holds commit b (batch_unless media_type j config r o k)
  unless-Holds commit none k h = h
  unless-Holds commit (some p) k h = Holds-reply b commit p

  pub post_batch-Holds :
      (n : ℤ) (c : ℕ) (body : Body)
      → Holds
          (get_batch_id_and_commit r).batch_commit
          b
          (h_collection_post_batch media_type j config r n c body)
  unfolding h_collection_post_batch
  post_batch-Holds n c body =
      let commit = (get_batch_id_and_commit r).batch_commit in
      unless-Holds commit (check_sizes r (size_limits config)) _ (
        Holds-if b commit (lt_int (pos 0) n && lt_int (pos config.max_post_bytes) n) _ _
          (Holds-reply b commit _)
          (Holds-call b commit now _ Keeps-now (λ time.
            batch_items-Holds c
              (request_to_post_bso_input media_type j config.max_record_payload_bytes r body))))
