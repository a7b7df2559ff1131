-- ===== src/Web/Post.antt =====
-- web/syncUserHandler.go: hCollectionPOST and hCollectionPOSTClassic.
pub mod Stored
use go_syncstorage.Prelude.{
  ℕ, Bool, true, false, ◌&&◌, not, List, [], ◌∷◌, ◌++◌, ltb, length, if◌then◌else◌,
}
use go_syncstorage.Prelude.Int.{ℤ, pos}
use go_syncstorage.Prelude.Text.{Text, codes}
use go_syncstorage.Prelude.Assoc.{put_key}
use go_syncstorage.Strconv.{itoa}
use go_syncstorage.Storage.Data.{PostResults, Error, Result, ok, err, invalid_collection_name}
use go_syncstorage.Storage.Driver.{now}
use go_syncstorage.Storage.Bso.{post_bsos}
use go_syncstorage.Storage.Collections.{get_collection_modified}
use go_syncstorage.Web.Http.{Request, Problem, send_request_problem, Floats}
use go_syncstorage.Web.Accept.{Format, format_of}
use go_syncstorage.Web.BatchId.{BatchQuery, get_batch_id_and_commit}
use go_syncstorage.Web.Body.{
  Json, Body, Items, items, no_array, no_object, Failures, stored, request_to_post_bso_input,
}
use go_syncstorage.Web.BsoRoutes.{Config, is_body_type, not_a_body_type}
use go_syncstorage.Web.NotModified.{sent_not_modified}
use go_syncstorage.Web.Reply.{
  refused, failed, weave_error, answered, Handler, reply, call, internal_error, unless_sent,
  weave_invalid_wbo,
}
use go_syncstorage.Web.UserHandler.{getcid}

-- PostResults of web/misc.go, with its status and its form; X-Last-Modified is the time in it.
pub record PostAnswer : Type 0 where
  pub status : ℕ
  pub batch : Text
  pub modified : ℤ
  pub success : List Text
  pub failed : Failures
  pub format : Format

-- The failures of the storage take the place of earlier ones with their ids.
unfoldable pub merge_failures : List (Text × Error) → Failures → Failures
merge_failures [] failures = failures
merge_failures ((id, e) ∷ more) failures = put_key id (stored e ∷ []) (merge_failures more failures)

abbrev pub too_many_bsos : Text → ℕ → Problem
too_many_bsos verb max =
    send_request_problem [] 413 (verb ++ itoa (pos max) ++ codes " BSO per request")

abbrev pub is_empty_text : Text → Bool
is_empty_text [] = true
is_empty_text (c ∷ s) = false

abbrev pub is_invalid_name : Error → Bool
is_invalid_name invalid_collection_name = true
is_invalid_name _ = false

module _ (f : Floats) (media_type : Text → Text) (j : Json) (config : Config) (r : Request) where
  abbrev pub classic_done : Failures → Result PostResults → Handler PostAnswer
  classic_done failures (err e) = internal_error e
  classic_done failures (ok results) = reply (
      answered (record {
        status = 200;
        batch = [];
        modified = pos results.modified;
        success = results.success;
        failed = merge_failures results.failed failures;
        format = format_of (r.header (codes "Accept"));
      }))

  abbrev pub classic_items : ℕ → Items → Handler PostAnswer
  classic_items cid no_array = reply (weave_error weave_invalid_wbo)
  classic_items cid (no_object e) = reply (weave_error weave_invalid_wbo)
  classic_items cid (items list failures) =
      if ltb config.max_post_records (length list)
      then reply (refused (too_many_bsos (codes "Exceed ") config.max_post_records))
      else call (post_bsos cid list) (classic_done failures)

  -- hCollectionPOSTClassic; NewPostResults reads the clock.
  unfoldable pub h_collection_post_classic : ℕ → Body → Handler PostAnswer
  unfolding request_to_post_bso_input merge_failures format_of
  h_collection_post_classic cid body = call now λ time.
      classic_items cid
        (request_to_post_bso_input media_type j config.max_record_payload_bytes r body)

  -- The choice between the two ways to post, the second of which is the argument
  abbrev pub post_by_query :
      (ℕ → Body → Handler PostAnswer) → ℕ → Body → BatchQuery → Handler PostAnswer
  post_by_query batched cid body q =
      if q.batch_commit && not q.batch_found
      then reply (refused (send_request_problem [] 400 (codes "Batch ID expected with commit")))
      else if not (is_empty_text q.batch_id)
      then batched cid body
      else h_collection_post_classic cid body

  abbrev pub post_unless_sent :
      (ℕ → Body → Handler PostAnswer) → ℕ → Body → Result ℕ → Handler PostAnswer
  post_unless_sent batched cid body (err e) = internal_error e
  post_unless_sent batched cid body (ok modified) =
      unless_sent (sent_not_modified f r (pos modified))
        (post_by_query batched cid body (get_batch_id_and_commit r))

  abbrev pub post_in : (ℕ → Body → Handler PostAnswer) → Body → Result ℕ → Handler PostAnswer
  post_in batched body (ok cid) =
      call (get_collection_modified cid) (post_unless_sent batched cid body)
  post_in batched body (err e) =
      if is_invalid_name e then reply (failed 400 e) else internal_error e

  -- hCollectionPOST, with the collection in the path; the handler of batches is an argument.
  unfoldable pub h_collection_post :
      (ℕ → Body → Handler PostAnswer) → Text → Body → Handler PostAnswer
  unfolding get_batch_id_and_commit
  h_collection_post batched collection body =
      if is_body_type (media_type (r.header (codes "Content-Type")))
      then call (getcid collection true) (post_in batched body)
      else reply (refused (not_a_body_type (media_type (r.header (codes "Content-Type")))))
