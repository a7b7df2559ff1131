-- ===== src/Web/BsoRoutes.antt =====
-- web/syncUserHandler.go: hBsoGET and hBsoPUT, and NewDefaultSyncUserHandlerConfig.
pub mod Stored
pub mod Steps
pub mod ReadBack
use go_syncstorage.Prelude.{
  ℕ, ◌*◌, Bool, true, false, ◌||◌, Option, none, some, [], ◌++◌, if◌then◌else◌,
}
use go_syncstorage.Prelude.Int.{pos}
use go_syncstorage.Prelude.Text.{Text, codes, text_eq}
use go_syncstorage.Storage.Data.{Bso, PutBsoInput, Result, ok, err}
use go_syncstorage.Storage.Bso.{get_bso, get_bso_modified, put_bso}
use go_syncstorage.Web.Http.{Request, Problem, send_request_problem, Floats}
use go_syncstorage.Web.Accept.{
  Accepted, accept, not_acceptable, accept_header_ok, Format, format_of,
}
use go_syncstorage.Web.Body.{
  Json, Body, Parsed, parsed, unparsed, parse_into_bso, too_large, in_milliseconds,
}
use go_syncstorage.Web.NotModified.{sent_not_modified}
use go_syncstorage.Web.Reply.{
  refused, failed, weave_error, answered, Handler, reply, call, internal_error, unless_sent,
  is_not_found, weave_invalid_wbo,
}
use go_syncstorage.Web.UserHandler.{getcid}
use go_syncstorage.Web.Deletes.{extract_bso_id, no_id_problem}

-- SyncUserHandlerConfig
pub record Config : Type 0 where
  pub max_request_bytes : ℕ
  pub max_post_records : ℕ
  pub max_post_bytes : ℕ
  pub max_total_records : ℕ
  pub max_total_bytes : ℕ
  pub max_batch_ttl : ℕ
  pub max_record_payload_bytes : ℕ

-- NewDefaultSyncUserHandlerConfig
abbrev pub default_config : Config
default_config = record {
  max_request_bytes = 2 * 1024 * 1024;
  max_post_records = 100;
  max_post_bytes = 2 * 1024 * 1024;
  max_total_records = 10000;
  max_total_bytes = 100 * 1024 * 1024;
  max_batch_ttl = 2 * 60 * 60 * 1000;
  max_record_payload_bytes = 1024 * 1024 * 2;
}

-- What hBsoGET answers: the BSO, with its time in X-Last-Modified, in the form that is accepted
pub record BsoAnswer : Type 0 where
  pub bso : Bso
  pub format : Format

-- extractBsoIdFail
abbrev pub with_bso_id : {A : Type 0} → Option Text → (Text → Handler A) → Handler A
with_bso_id none k = reply (refused no_id_problem)
with_bso_id (some id) k = k id

abbrev pub when_accepted : {A : Type 0} → Accepted → (Text → Handler A) → Handler A
when_accepted (accept header) k = k header
when_accepted (not_acceptable p) k = reply (refused p)

-- The media types of bodies
abbrev pub is_body_type : Text → Bool
is_body_type ct =
    text_eq ct (codes "application/json")
    || text_eq ct (codes "text/plain")
    || text_eq ct (codes "application/newlines")

abbrev pub not_a_body_type : Text → Problem
not_a_body_type ct = send_request_problem [] 415 (codes "Not acceptable Content-Type: " ++ ct)

abbrev pub payload_too_big : Problem
payload_too_big = send_request_problem [] 413 (codes "Payload too big")

abbrev pub put_done : Result ℕ → Handler ℕ
put_done (ok modified) = reply (answered modified)
put_done (err e) = reply (failed 400 e)

module _ (f : Floats) (media_type : Text → Text) (r : Request) where
  abbrev pub get_found : Text → Result Bso → Handler BsoAnswer
  get_found header (ok bso) =
      unless_sent (sent_not_modified f r (pos bso.modified))
        (reply (answered (record { bso = bso; format = format_of header })))
  get_found header (err e) = if is_not_found e then reply (failed 404 e) else internal_error e

  abbrev pub get_in : Text → Text → Result ℕ → Handler BsoAnswer
  get_in header id (ok cid) = call (get_bso cid id) (get_found header)
  get_in header id (err e) = if is_not_found e then reply (failed 404 e) else internal_error e

  -- hBsoGET, with the collection and the id in the path
  unfoldable pub h_bso_get : Text → Option Text → Handler BsoAnswer
  unfolding extract_bso_id accept_header_ok
  h_bso_get collection id = when_accepted (accept_header_ok media_type r) λ header.
      with_bso_id (extract_bso_id id) λ b_id. call (getcid collection false) (get_in header b_id)

module _ (f : Floats) (media_type : Text → Text) (j : Json) (config : Config) (r : Request) where
  -- hBsoPUT once the body was read
  abbrev pub put_parsed : ℕ → Text → Parsed PutBsoInput → Handler ℕ
  put_parsed cid id (unparsed e) = reply (weave_error weave_invalid_wbo)
  put_parsed cid id (parsed b) =
      if too_large config.max_record_payload_bytes b.payload
      then reply (refused payload_too_big)
      else call (put_bso cid id b.payload b.sort_index (in_milliseconds b.ttl)) put_done

  abbrev pub put_body : ℕ → Text → Body → Handler ℕ
  put_body cid id body =
      if body.broken
      then reply (refused (send_request_problem [] 500 (codes "PUT could not read JSON body")))
      else put_parsed cid id (parse_into_bso j body.received)

  -- A BSO that is not there was last modified at 0.
  abbrev pub put_unless_sent : ℕ → Text → Body → Result ℕ → Handler ℕ
  put_unless_sent cid id body (ok modified) =
      unless_sent (sent_not_modified f r (pos modified)) (put_body cid id body)
  put_unless_sent cid id body (err e) =
      if is_not_found e
      then unless_sent (sent_not_modified f r (pos 0)) (put_body cid id body)
      else internal_error e

  abbrev pub put_in : Text → Body → Result ℕ → Handler ℕ
  put_in id body (ok cid) = call (get_bso_modified cid id) (put_unless_sent cid id body)
  put_in id body (err e) = internal_error e

  abbrev pub put_accepted : Text → Option Text → Body → Handler ℕ
  put_accepted collection id body =
      if is_body_type (media_type (r.header (codes "Content-Type")))
      then (with_bso_id (extract_bso_id id)
          λ b_id. call (getcid collection true) (put_in b_id body))
      else reply (refused (not_a_body_type (media_type (r.header (codes "Content-Type")))))

  -- hBsoPUT, with the collection and the id in the path
  unfoldable pub h_bso_put : Text → Option Text → Body → Handler ℕ
  unfolding extract_bso_id accept_header_ok
  h_bso_put collection id body =
      when_accepted (accept_header_ok media_type r) λ header. put_accepted collection id body
