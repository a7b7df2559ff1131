-- ===== src/Tests/Routes.antt =====
-- The routes of one user with concrete requests.
use go_syncstorage.Prelude.{ℕ, ◌≡◌, refl, true, false, none, some, [], ◌∷◌}
use go_syncstorage.Prelude.Int.{pos, mul_int, wrap}
use go_syncstorage.Prelude.Text.{Text, codes, text_eq}
use go_syncstorage.Storage.Checks.{
  now_of, bso_id_ok, collection_name_ok, is_name_char, is_print, match_class,
}
use go_syncstorage.Storage.Driver.{attempt, now, query, exec, finish, transaction}
use go_syncstorage.Storage.Collections.{get_collection_id, lookup_id, common_ids}
use go_syncstorage.Storage.Bso.{
  get_bso_modified, find_row, bso_exists, insert_bso, put_bso, put_bso_tx, refusal, store_bso,
}
use go_syncstorage.Web.NotModified.{
  sent_not_modified, checked_against, extract_modified_timestamp, extract_from,
}
use go_syncstorage.Storage.Keys.{
  set_key, touch_collection, touch_collection_and_storage, touch_storage,
}
use go_syncstorage.Web.Accept.{accept_header_ok}
use go_syncstorage.Web.Http.{Request}
use go_syncstorage.Storage.Data.{PutBsoInput, ok, new_tables}
use go_syncstorage.Storage.Operation.Invariant.{new_tables-IsValid}
use go_syncstorage.Web.Deletes.{extract_bso_id}
use go_syncstorage.Web.Reply.{answered}
use go_syncstorage.Web.UserHandler.{getcid}
use go_syncstorage.Web.BsoRoutes.{default_config, h_bso_get, h_bso_put}
use go_syncstorage.Web.BsoRoutes.ReadBack.{h_bso_put_lem, ReadsBack}
use go_syncstorage.Web.BsoRoutes.Stored.{h_bso_put-refused}
use go_syncstorage.Web.Body.{Body, parsed, parse_into_bso, too_large, unknown_key}
use go_syncstorage.Web.InfoRoutes.{
  h_info_quota, h_info_collections, h_info_collection_counts, h_info_collection_usage,
}
use go_syncstorage.Web.InfoRoutes.Unchanged.{reading_routes_lem}
use go_syncstorage.Web.Listing.{h_collection_get}
use go_syncstorage.Web.Post.{h_collection_post}
use go_syncstorage.Web.Post.Stored.{posting, h_collection_post-refused}
use go_syncstorage.Tests.Data.{start, one_bso}
use go_syncstorage.Tests.Json.{braces, put_request, body_of}
use go_syncstorage.Tests.Web.{whole}

abbrev pub whole_type : Text → Text
whole_type s = s

-- The id has a character that none may have.
abbrev bad_id : Text
bad_id = 9 ∷ []

h_bso_put-refused_example :
    (h_bso_put whole whole_type braces default_config put_request
      (codes "bookmarks")
      (some bad_id)
      (body_of (codes "{aBcD:hello}"))
      one_bso).1.tables.bso
    ≡ one_bso.tables.bso
unfolding h_bso_put bso_id_ok text_eq
h_bso_put-refused_example =
    h_bso_put-refused whole whole_type braces default_config put_request (codes "bookmarks")
      (some bad_id) (body_of (codes "{aBcD:hello}")) one_bso (λ x. x)

reading_routes_lem_example :
    ((h_bso_get whole whole_type put_request
        (codes "bookmarks")
        (some (codes "aBcD"))
        one_bso).1.tables
      ≡ one_bso.tables)
    × ((h_collection_get whole whole_type put_request none (codes "bookmarks") one_bso).1.tables
        ≡ one_bso.tables)
    × ((h_info_quota whole whole_type put_request one_bso).1.tables ≡ one_bso.tables)
    × ((h_info_collections whole whole_type put_request one_bso).1.tables ≡ one_bso.tables)
    × ((h_info_collection_counts whole whole_type put_request one_bso).1.tables ≡ one_bso.tables)
    × ((h_info_collection_usage whole whole_type put_request one_bso).1.tables ≡ one_bso.tables)
reading_routes_lem_example =
    reading_routes_lem whole whole_type put_request (codes "bookmarks") (some (codes "aBcD")) none
      one_bso

-- A form that no list is sent in
abbrev form_request : Request
form_request = record { header = λ name. codes "application/x-form"; query = λ key. none }

h_collection_post-refused_example :
    (posting whole whole_type braces default_config form_request
      (pos 12)
      (codes "bookmarks")
      (body_of (codes "{aBcD:hello}"))
      one_bso).1.tables.bso
    ≡ one_bso.tables.bso
unfolding text_eq h_collection_post
h_collection_post-refused_example =
    h_collection_post-refused whole whole_type braces default_config form_request (pos 12)
      (codes "bookmarks") (body_of (codes "{aBcD:hello}")) one_bso (λ x. x)

abbrev hello : Body
hello = body_of (codes "{aBcD:hello}")

put_answered :
    (h_bso_put whole whole_type braces default_config put_request
      (codes "bookmarks")
      (some (codes "aBcD"))
      hello
      start).0
    ≡ answered 1500000000030
unfolding h_bso_put text_eq bso_id_ok getcid collection_name_ok attempt get_collection_id lookup_id
    common_ids get_bso_modified now query find_row new_tables sent_not_modified checked_against
    extract_modified_timestamp bso_exists insert_bso put_bso put_bso_tx refusal store_bso exec
    finish transaction touch_collection touch_collection_and_storage touch_storage accept_header_ok
    parse_into_bso unknown_key extract_bso_id is_name_char is_print match_class mul_int wrap
    extract_from set_key now_of
put_answered = refl

h_bso_put_lem_example :
    (i : Text) × (c : ℕ) × (d : PutBsoInput) × (extract_bso_id (some (codes "aBcD")) ≡ some i)
    × ((getcid (codes "bookmarks") true start).0 ≡ ok c)
    × (parse_into_bso braces hello.received ≡ parsed d)
    × (too_large default_config.max_record_payload_bytes d.payload ≡ false)
    × ReadsBack start.tables.bso c i d 1500000000030
        (h_bso_put whole whole_type braces default_config put_request
          (codes "bookmarks")
          (some (codes "aBcD"))
          hello
          start).1
h_bso_put_lem_example =
    h_bso_put_lem whole whole_type braces default_config put_request (codes "bookmarks")
      (some (codes "aBcD")) hello start 1500000000030 (λ k. refl) new_tables-IsValid put_answered
