-- ===== src/Tests/Access.antt =====
-- The handlers in front of the pools, with small libraries in place of the real ones.
use go_syncstorage.Prelude.{
  ◌≡◌, refl, Bool, true, false, ◌||◌, none, some, List, [], ◌∷◌, ◌++◌, arith,
}
use go_syncstorage.Prelude.Text.{Text, codes, text_eq, text_eq_refl}
use go_syncstorage.Strconv.{is_digit, itoa}
use go_syncstorage.Token.{
  parse_token, split_token, cut, calculate_signature_secret, calculate_payload_signature,
  decode_payload, generate_derived_secret, uid_string,
}
use go_syncstorage.Web.Nonce.{Bloom, IsFilter, new_nonces, hawk_nonce_not_found, rotate, is_seen}
use go_syncstorage.Web.Nonce.Replay.{calls, hawk_nonce_not_found_lem}
use go_syncstorage.Web.Hawk.{
  Hawk, found, admitted, hawk_serve_http, extract_uid, leading_digits, parse_with_secrets,
}
use go_syncstorage.Web.Hawk.Uid.{extract_uid_lem}
use go_syncstorage.Web.Hawk.Admitted.{NonceFits, Shows, hawk_serve_http_lem}
use go_syncstorage.Web.Weave.{Writer, sets, writes, writes_header, weave_serve_http}
use go_syncstorage.Web.Weave.Timestamp.{IsStamped, weave_serve_http_lem}
use go_syncstorage.Tests.Json.{put_request, body_of}
use go_syncstorage.Tests.Routes.{whole_type}
use go_syncstorage.Tests.Token.{plain, payload, token_text, first}

-- A filter that is a list
abbrev listed : Text → List Text → Bool
listed k [] = false
listed k (x ∷ f) = text_eq k x || listed k f

abbrev lists : Bloom
lists = record {
  Filter = List Text;
  empty = [];
  test = listed;
  add = λ k f. k ∷ f;
  clear = λ f. [];
}

lists-IsFilter : IsFilter lists
lists-IsFilter = record {
  added = λ k f. rw (text_eq_refl k) refl;
  kept = λ k other f e. ground arith;
}

-- The same key 20 seconds later
hawk_nonce_not_found_lem_example :
    (hawk_nonce_not_found lists (codes "n1") 20000000000 (
      calls lists lists-IsFilter
        ((codes "n2", 15000000000) ∷ [])
        (hawk_nonce_not_found lists (codes "n1") 0 (new_nonces lists 0)).1)).0
    ≡ false
unfolding new_nonces hawk_nonce_not_found rotate is_seen
hawk_nonce_not_found_lem_example =
    hawk_nonce_not_found_lem lists lists-IsFilter (codes "n1") 0 20000000000
      ((codes "n2", 15000000000) ∷ []) (new_nonces lists 0) refl (omega arith) (omega arith)
      (omega arith, omega arith, tt)

extract_uid_lem_example :
    extract_uid (codes "/1.5/" ++ b'4' ∷ codes "2" ++ codes "/info/quota") ≡ codes "42"
unfolding is_digit
extract_uid_lem_example =
    extract_uid_lem b'4' (codes "2") (codes "/info/quota") (refl, (refl, tt)) refl

-- A library that takes the text of a token for a header
abbrev lib : Hawk
lib = record {
  Auth = Text;
  auth_of_request = λ r. found token_text;
  is_bewit = λ auth. false;
  nonce = λ auth. codes "n1";
  time = λ auth. codes "t";
  credentials_id = λ auth. auth;
  valid = λ auth key. none;
  has_hash = λ auth. true;
  valid_hash = λ auth media s. text_eq s (codes "{}");
}

abbrev path : Text
path = codes "/1.5/42/storage/bookmarks"

admits :
    (hawk_serve_http plain lists lib some
      (codes "key" ∷ [])
      path
      0
      put_request
      (body_of (codes "{}"))
      (new_nonces lists 0)).0
    ≡ admitted payload
unfolding hawk_serve_http hawk_nonce_not_found is_seen rotate new_nonces parse_token split_token cut
    calculate_signature_secret text_eq calculate_payload_signature decode_payload
    generate_derived_secret uid_string itoa first parse_with_secrets extract_uid leading_digits
    is_digit
admits = refl

hawk_serve_http_lem_example :
    (auth : Text) × (lib.auth_of_request put_request ≡ found auth)
    × NonceFits plain lists lib some auth 0 (new_nonces lists 0)
    × Shows plain lists lib some
        (codes "key" ∷ [])
        path
        auth
        put_request
        (body_of (codes "{}"))
        payload
hawk_serve_http_lem_example =
    hawk_serve_http_lem plain lists lib some (codes "key" ∷ []) path 0 put_request
      (body_of (codes "{}")) (new_nonces lists 0) payload admits

-- A writer of net/http before anything is written
abbrev blank : Writer
blank = record { headers = []; sent = none; body = [] }

weave_serve_http_lem_example :
    IsStamped
      (codes "12.00")
      whole_type
      (weave_serve_http
        (codes "12.00")
        whole_type
        (writes_header 404
          ∷ sets (codes "X-Last-Modified") (codes "11.00")
          ∷ writes (codes "not found")
          ∷ [])
        blank).sent
weave_serve_http_lem_example =
    weave_serve_http_lem (codes "12.00") whole_type
      (writes_header 404
        ∷ sets (codes "X-Last-Modified") (codes "11.00")
        ∷ writes (codes "not found")
        ∷ [])
      blank refl
