-- ===== src/Web/PostBatch.antt =====
-- web/syncUserHandler.go: hCollectionPOSTBatch.
pub mod Holds
pub mod Lines
pub mod Parts
pub mod Upload
pub mod Committed
pub mod Stored
use go_syncstorage.Prelude.{
  ℕ, Bool, true, false, ◌&&◌, ◌||◌, not, Option, none, some, List, [], ◌∷◌, ◌++◌, ltb, length,
  if◌then◌else◌,
}
use go_syncstorage.Prelude.Int.{ℤ, pos, negsuc, lt_int}
use go_syncstorage.Prelude.Text.{Text, codes, text_eq}
use go_syncstorage.Prelude.Assoc.{find_key, put_key}
use go_syncstorage.Strconv.{parse_int}
use go_syncstorage.Storage.Checks.{bso_id_ok, sort_index_ok, ttl_ok}
use go_syncstorage.Storage.Data.{BatchRow, PutBsoInput, PostResults, Error, Result, ok, err}
use go_syncstorage.Storage.Driver.{now}
use go_syncstorage.Storage.Erase.{contains}
use go_syncstorage.Storage.Keys.{last_modified}
use go_syncstorage.Storage.Bso.{given_and_not, post_bsos}
use go_syncstorage.Storage.Batch.{
  batch_create, batch_append, batch_exists, batch_load, batch_remove,
}
use go_syncstorage.Storage.Collections.{get_collection_modified}
use go_syncstorage.Web.Http.{Request, send_request_problem}
use go_syncstorage.Web.Accept.{format_of}
use go_syncstorage.Web.BatchId.{BatchQuery, get_batch_id_and_commit, batch_id_int, batch_id_string}
use go_syncstorage.Web.Body.{
  Json, Body, Items, items, no_array, no_object, Failures, Reason, said, stored, Parsed, parsed,
  parse_into_bso, too_large, request_to_post_bso_input,
}
use go_syncstorage.Web.BsoRoutes.{Config}
use go_syncstorage.Web.BatchParts.{
  size_limit, size_from, size_given, or_refusal, check_sizes, size_limits, batch_refusal,
  with_reasons, add_reasons, filtered, filter_bsos, append_encoded, append_failures, sent_ids,
  some_too_large, add_decoded, encode_all, decode_all,
}
use go_syncstorage.Web.Lines.{read_newline_json}
use go_syncstorage.Web.Post.{PostAnswer, too_many_bsos}
use go_syncstorage.Web.Reply.{
  Reply, refused, failed, weave_error, answered, Handler, reply, call, internal_error, going_on,
  weave_invalid_wbo, weave_size_limit_exceeded,
}

-- A batch number as a row's id: AUTOINCREMENT gives ids from 1 on, so 0 and negative numbers are
-- none.
abbrev pub row_id : ℤ → ℕ
row_id (pos n) = n
row_id (negsuc n) = 0

abbrev pub no_such_batch : Text → Reply PostAnswer
no_such_batch id =
    refused (send_request_problem [] 400 (codes "Batch id: " ++ id ++ codes " does not exist"))

-- The reason is without the text of the error of strconv.
abbrev pub invalid_batch_id : Reply PostAnswer
invalid_batch_id = refused (send_request_problem [] 400 (codes "Invalid Batch ID Format"))

abbrev pub is_new : Text → Bool
is_new id = text_eq id (codes "true")

module _ (media_type : Text → Text) (j : Json) (config : Config) (r : Request) where
  abbrev pub post_answer : ℕ → Text → ℤ → List Text → Failures → PostAnswer
  post_answer status batch modified success failures = record {
    status = status;
    batch = batch;
    modified = modified;
    success = success;
    failed = failures;
    format = format_of (r.header (codes "Accept"));
  }

  -- A batch that is too large is removed; whether that worked is not looked at.
  abbrev pub remove_and_refuse : ℕ → Handler PostAnswer
  remove_and_refuse id = call (batch_remove id) λ _. reply size_limit

  abbrev pub committed : ℕ → List PutBsoInput → Failures → Result PostResults → Handler PostAnswer
  committed id good failures (err e) = internal_error e
  committed id good failures (ok results) = call (batch_remove id) λ _. reply (
      answered (
        post_answer 200 [] (pos results.modified) (sent_ids good)
          (append_failures [] results.failed failures)))

  abbrev pub commit_decoded :
      ℕ → ℕ → List PutBsoInput → Failures → Option (List PutBsoInput) → Handler PostAnswer
  commit_decoded cid id good failures none =
      reply (refused (send_request_problem [] 500 (codes "Could not decode batch data")))
  commit_decoded cid id good failures (some list) =
      if some_too_large config.max_total_bytes list
      then remove_and_refuse id
      else call (post_bsos cid list) (committed id good failures)

  abbrev pub commit_raw : ℕ → ℕ → List PutBsoInput → Failures → List Text → Handler PostAnswer
  commit_raw cid id good failures raw =
      if ltb config.max_total_records (length raw)
      then remove_and_refuse id
      else commit_decoded cid id good failures (decode_all j raw)

  abbrev pub commit_loaded :
      ℕ → ℕ → List PutBsoInput → Failures → Result BatchRow → Handler PostAnswer
  commit_loaded cid id good failures (err e) = internal_error e
  commit_loaded cid id good failures (ok b) =
      commit_raw cid id good failures (read_newline_json b.bsos)

  abbrev pub kept_open : ℤ → List PutBsoInput → Failures → Result ℕ → Handler PostAnswer
  kept_open id good failures (err e) = internal_error e
  kept_open id good failures (ok modified) =
      reply
        (answered (post_answer 202 (batch_id_string id) (pos modified) (sent_ids good) failures))

  -- Behind the create or the append, with the number of the batch
  unfoldable pub finish_batch : Bool → ℕ → ℤ → List PutBsoInput → Failures → Handler PostAnswer
  unfolding append_failures sent_ids some_too_large decode_all
  finish_batch commit cid id good failures =
      if commit
      then call (batch_load (row_id id) cid) (commit_loaded cid (row_id id) good failures)
      else call (get_collection_modified cid) (kept_open id good failures)

  abbrev pub created : Bool → ℕ → List PutBsoInput → Failures → Result ℕ → Handler PostAnswer
  created commit cid good failures (err e) = internal_error e
  created commit cid good failures (ok id) = finish_batch commit cid (pos id) good failures

  abbrev pub batch_appended :
      Bool → ℕ → ℤ → List PutBsoInput → Failures → Result (Unit {0}) → Handler PostAnswer
  batch_appended commit cid id good failures (err e) = internal_error e
  batch_appended commit cid id good failures (ok _) = finish_batch commit cid id good failures

  -- An append of nothing is left out.
  abbrev pub append_some : Bool → ℕ → ℤ → List PutBsoInput → Failures → Text → Handler PostAnswer
  append_some commit cid id [] failures text = finish_batch commit cid id [] failures
  append_some commit cid id (b ∷ list) failures text =
      call (batch_append (row_id id) cid text) (batch_appended commit cid id (b ∷ list) failures)

  -- With the number that the client's id stands for, or none for a new batch
  abbrev pub save_batch :
      Bool → ℕ → Option ℤ → List PutBsoInput → Failures → Option Text → Handler PostAnswer
  save_batch commit cid id good failures none =
      reply (refused (send_request_problem [] 500 (codes "Failed encoding BSO for payload")))
  save_batch commit cid none good failures (some text) =
      call (batch_create cid text) (created commit cid good failures)
  save_batch commit cid (some id) good failures (some text) =
      append_some commit cid id good failures text

  abbrev pub save_filtered : Bool → ℕ → Option ℤ → List PutBsoInput × Failures → Handler PostAnswer
  save_filtered commit cid id (good, failures) =
      save_batch commit cid id good failures (encode_all j good)

  abbrev pub save_list : Bool → ℕ → Option ℤ → List PutBsoInput → Handler PostAnswer
  save_list commit cid id list = save_filtered commit cid id (filter_bsos list ([], []))

  -- A batch that is not there, or that could not be looked for, is told of, and the handler goes on.
  abbrev pub batch_looked_up :
      Bool → ℕ → Text → ℤ → List PutBsoInput → Result Bool → Handler PostAnswer
  batch_looked_up commit cid name id list (err e) =
      going_on (failed 500 e) (save_list commit cid (some id) list)
  batch_looked_up commit cid name id list (ok true) = save_list commit cid (some id) list
  batch_looked_up commit cid name id list (ok false) =
      going_on (no_such_batch name) (save_list commit cid (some id) list)

  abbrev pub with_batch_id : Bool → ℕ → Text → List PutBsoInput → Option ℤ → Handler PostAnswer
  with_batch_id commit cid name list none = reply invalid_batch_id
  with_batch_id commit cid name list (some id) =
      call (batch_exists (row_id id) cid) (batch_looked_up commit cid name id list)

  abbrev pub batch_query : ℕ → List PutBsoInput → BatchQuery → Handler PostAnswer
  batch_query cid list q =
      if is_new q.batch_id
      then save_list q.batch_commit cid none list
      else with_batch_id q.batch_commit cid q.batch_id list (batch_id_int q.batch_id)

  abbrev pub told_failures : Failures → Result ℤ → Handler PostAnswer
  told_failures failures (err e) = internal_error e
  told_failures failures (ok modified) = reply (answered (post_answer 200 [] modified [] failures))

  abbrev pub unless_failures : ℕ → List PutBsoInput → Failures → Handler PostAnswer
  unless_failures cid list [] = batch_query cid list (get_batch_id_and_commit r)
  unless_failures cid list (x ∷ more) = call last_modified (told_failures (x ∷ more))

  abbrev pub batch_items : ℕ → Items → Handler PostAnswer
  batch_items cid no_array = reply (weave_error weave_invalid_wbo)
  batch_items cid (no_object e) = reply (weave_error weave_invalid_wbo)
  batch_items cid (items list failures) =
      if ltb config.max_post_records (length list)
      then reply (refused (too_many_bsos (codes "Exceeded ") config.max_post_records))
      else unless_failures cid list failures

  abbrev pub batch_unless : Option (Reply PostAnswer) → Handler PostAnswer → Handler PostAnswer
  batch_unless none k = k
  batch_unless (some p) k = reply p

  -- hCollectionPOSTBatch, with the request's ContentLength
  unfoldable pub h_collection_post_batch : ℤ → ℕ → Body → Handler PostAnswer
  unfolding check_sizes filter_bsos encode_all finish_batch request_to_post_bso_input
      get_batch_id_and_commit batch_id_int
  h_collection_post_batch content_length cid body =
      batch_unless (check_sizes r (size_limits config)) (
        if lt_int (pos 0) content_length && lt_int (pos config.max_post_bytes) content_length
        then reply size_limit
        else (call now λ time.
            batch_items cid
              (request_to_post_bso_input media_type j config.max_record_payload_bytes r body)))
