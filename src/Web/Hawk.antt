-- ===== src/Web/Hawk.antt =====
-- web/hawkHandler.go: ServeHTTP; web/misc.go: extractUID. The library go.mozilla.org/hawk is a
-- parameter, and so is mime.ParseMediaType. The text of an error of a library is left off its reason.
pub mod Admitted
pub mod Uid
use go_syncstorage.Prelude.{
  ℕ, Bool, true, false, ◌&&◌, not, Option, none, some, List, [], ◌∷◌, ◌++◌, drop, length,
  if◌then◌else◌,
}
use go_syncstorage.Prelude.Text.{Text, codes, text_eq}
use go_syncstorage.Strconv.{is_digit}
use go_syncstorage.Token.{
  TokenPayload, Token, TokenError, Outcome, returned, failed, panicked, Crypto, parse_token,
  uid_string,
}
use go_syncstorage.Web.Http.{Request, Problem, send_request_problem}
use go_syncstorage.Web.Accept.{has_prefix}
use go_syncstorage.Web.Body.{Body}
use go_syncstorage.Web.Nonce.{Bloom, Nonces, nonce_key, hawk_nonce_not_found}

-- The digits at the start of a text
unfoldable pub leading_digits : Text → Text
leading_digits [] = []
leading_digits (c ∷ s) = let rest = leading_digits s in if is_digit c then c ∷ rest else []

abbrev pub is_nothing : Text → Bool
is_nothing [] = true
is_nothing (c ∷ s) = false

-- The group of uidregex, /1\.5/([0-9]+), if it matches at the start of a text
abbrev pub uid_here : Text → Text
uid_here s = if has_prefix (codes "/1.5/") s then leading_digits (drop 5 s) else []

-- extractUID: the leftmost match
unfoldable pub extract_uid : Text → Text
unfolding has_prefix leading_digits
extract_uid [] = []
extract_uid (c ∷ s) =
    let later = extract_uid s in if is_nothing (uid_here (c ∷ s)) then later else uid_here (c ∷ s)

-- Errors of hawk
pub data HawkError : Type 0 where
  no_auth replay timestamp_skew other_error : HawkError

-- What NewAuthFromRequest finds in a request before it asks for the nonce: an error, or what is in
-- its header Authorization, or, for GET and HEAD without that header, in the parameter bewit of its
-- query
pub data Found (Auth : Type 0) : Type 0 where
  bad_format : Text → Found Auth
  bad_auth : HawkError → Found Auth
  unknown_error : Found Auth
  found : Auth → Found Auth

-- What the program asks of hawk; the key and the hash of the credentials come from the token.
pub record Hawk : Type 1 where
  pub Auth : Type 0
  pub auth_of_request : Request → Found Auth
  pub is_bewit : Auth → Bool
  pub nonce : Auth → Text
  pub time : Auth → Text
  pub credentials_id : Auth → Text
  pub valid : Auth → Text → Option HawkError
  pub has_hash : Auth → Bool
  pub valid_hash : Auth → Text → Text → Bool

-- A refusal, a panic of ParseToken, or the call of the next handler with the token's payload, which
-- it finds in the session
pub data Admission (F : Type 0) : Type 0 where
  denied : Problem → Admission F
  crashed : Admission F
  admitted : TokenPayload F → Admission F

abbrev pub www_authenticate : List (Text × Text)
www_authenticate = (codes "WWW-Authenticate", codes "Hawk") ∷ []

abbrev pub deny : {F : Type 0} → ℕ → Text → Admission F
deny code reason = denied (send_request_problem [] code reason)

abbrev pub deny_hawk : {F : Type 0} → ℕ → Text → Admission F
deny_hawk code reason = denied (send_request_problem www_authenticate code reason)

abbrev pub not_authorised : {F : Type 0} → Text → HawkError → Admission F
not_authorised nonce replay = deny_hawk 403 (codes "Hawk: Replay nonce=" ++ nonce)
not_authorised nonce no_auth = deny_hawk 401 (codes "Hawk: AuthError")
not_authorised nonce _ = deny_hawk 403 (codes "Hawk: AuthError")

-- A token, none, or a panic
pub data Tried (F : Type 0) : Type 0 where
  parsed_token : Token F → Tried F
  no_token : Tried F
  parse_crashed : Tried F

-- One round of the loop: only an error leads to the next secret.
abbrev pub try_next : {F : Type 0} → Outcome (Token F) → Tried F → Tried F
try_next (returned t) rest = parsed_token t
try_next (failed e) rest = rest
try_next panicked rest = parse_crashed

-- The loop over the secrets
unfoldable pub parse_with_secrets : {F : Type 0} → Crypto F → Text → List Text → Tried F
parse_with_secrets c id [] = no_token
parse_with_secrets c id (secret ∷ secrets) =
    try_next (parse_token c secret id) (parse_with_secrets c id secrets)

module _ {F : Type 0} (c : Crypto F) (b : Bloom) (lib : Hawk)
    (media_type : Text → Option Text) where
  -- Step 5, of a request whose hash is in its header
  abbrev pub check_media : lib.Auth → Body → TokenPayload F → Option Text → Admission F
  check_media auth body payload none = deny 400 (codes "Hawk: Could not parse Content-Type")
  check_media auth body payload (some media) =
      if body.broken
      then deny 400 (codes "Hawk: Could not read request body")
      else if lib.valid_hash auth media body.received
      then admitted payload
      else deny_hawk 403 (codes "Hawk: payload hash invalid")

  abbrev pub check_content_type : lib.Auth → Body → TokenPayload F → Text → Admission F
  check_content_type auth body payload [] = deny 400 (codes "Hawk: Content-Type required")
  check_content_type auth body payload (x ∷ s) = check_media auth body payload (media_type (x ∷ s))

  -- Steps 5 and 6
  abbrev pub check_hash : lib.Auth → Request → Body → TokenPayload F → Admission F
  check_hash auth r body payload =
      if lib.has_hash auth
      then check_content_type auth body payload (r.header (codes "Content-Type"))
      else admitted payload

  abbrev pub wrong_uid : Text → Text → Text
  wrong_uid path_uid token_uid =
      codes "Hawk: UID in URL (" ++ path_uid ++ codes ") != Token UID (" ++ token_uid ++ codes ")"

  -- Step 4
  abbrev pub check_uid : Text → lib.Auth → Request → Body → TokenPayload F → Admission F
  check_uid path auth r body payload =
      if has_prefix (codes "/1.5/") path && not (text_eq (uid_string payload) (extract_uid path))
      then deny 401 (wrong_uid (extract_uid path) (uid_string payload))
      else check_hash auth r body payload

  -- Step 3; the reason of a skew is without its seconds.
  abbrev pub check_valid :
      Option HawkError → Text → lib.Auth → Request → Body → TokenPayload F → Admission F
  check_valid none path auth r body payload = check_uid path auth r body payload
  check_valid (some timestamp_skew) path auth r body payload =
      deny_hawk 403 (codes "Hawk: timestamp skew too large")
  check_valid (some e) path auth r body payload = deny_hawk 403 (codes "Hawk: auth invalid")

  -- Step 2
  abbrev pub check_token : Tried F → Text → lib.Auth → Request → Body → Admission F
  check_token no_token path auth r body = deny 401 (codes "Hawk: Invalid token")
  check_token parse_crashed path auth r body = crashed
  check_token (parsed_token t) path auth r body =
      check_valid (lib.valid auth t.derived_secret) path auth r body t.payload

  -- Step 1, behind the check of the nonce
  abbrev pub check_nonce : List Text → Text → lib.Auth → Request → Body → Bool → Admission F
  check_nonce secrets path auth r body true =
      check_token (parse_with_secrets c (lib.credentials_id auth) secrets) path auth r body
  check_nonce secrets path auth r body false = not_authorised (lib.nonce auth) replay

  abbrev pub key_of : lib.Auth → Text
  key_of auth = nonce_key (lib.nonce auth) (lib.time auth) (some (lib.credentials_id auth))

  abbrev pub check_found :
      List Text → Text → ℕ → Request → Body → Nonces b → Found lib.Auth → Admission F × Nonces b
  check_found secrets path now r body h (bad_format field) =
      (deny 403 (codes "Hawk: Malformed hawk header, field: " ++ field), h)
  check_found secrets path now r body h (bad_auth e) = (not_authorised [] e, h)
  check_found secrets path now r body h unknown_error = (deny 403 (codes "Hawk: Unknown Error"), h)
  check_found secrets path now r body h (found auth) =
      let (new, h') = hawk_nonce_not_found b (key_of auth) now h in
      if lib.is_bewit auth
      then (check_nonce secrets path auth r body true, h)
      else (check_nonce secrets path auth r body new, h')

  -- ServeHTTP of HawkHandler: the secrets, the path of the request and the time at which its nonce
  -- is looked for
  unfoldable pub hawk_serve_http :
      List Text → Text → ℕ → Request → Body → Nonces b → Admission F × Nonces b
  unfolding parse_with_secrets extract_uid
  hawk_serve_http secrets path now r body h =
      check_found secrets path now r body h (lib.auth_of_request r)
