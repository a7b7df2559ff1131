-- ===== src/Token.antt =====
-- token/token.go: tokens that carry a payload and its signature. Hashes, JSON, random numbers and
-- base64 are a parameter, and so is the type of floats.
pub mod RoundTrip
use go_syncstorage.Prelude.{
  ℕ, ◌-◌, ◌^◌, ◌<◌, ◌≡◌, Bool, true, Option, none, some, [], ◌∷◌, ◌++◌, length, take, drop, leb,
  if◌then◌else◌,
}
use go_syncstorage.Prelude.Int.{ℤ, pos}
use go_syncstorage.Prelude.Text.{Text, codes, text_eq}
use go_syncstorage.Prelude.Utf8.{valid_utf8}
use go_syncstorage.Strconv.{itoa}

-- TokenPayload; `Float` is the type of `expires`, and the uid is an unsigned 64-bit integer.
pub record TokenPayload (Float : Type 0) : Type 0 where
  pub salt : Text
  pub uid : ℕ
  pub node : Text
  pub expires : Float
  pub fxa_uid : Text
  pub device_id : Text

-- UidString
unfoldable pub uid_string : {F : Type 0} → TokenPayload F → Text
uid_string t = itoa (pos t.uid)

-- Token
pub record Token (Float : Type 0) : Type 0 where
  pub payload : TokenPayload Float
  pub token : Text
  pub derived_secret : Text

pub data TokenError : Type 0 where
  signature_mismatch payload_decoding : TokenError
  bad_base64 key_failure bad_payload no_random : TokenError

-- A call returns, or fails, or panics.
pub data Outcome (A : Type 0) : Type 0 where
  returned : A → Outcome A
  failed : TokenError → Outcome A
  panicked : Outcome A

infixl 5 ◌>>=◌
abbrev pub ◌>>=◌ : {A B : Type 0} → Outcome A → (A → Outcome B) → Outcome B
returned a >>= f = f a
failed e >>= f = failed e
panicked >>= f = panicked

abbrev pub or_fail : {A : Type 0} → TokenError → Option A → Outcome A
or_fail e none = failed e
or_fail e (some a) = returned a

-- sha256.Size
abbrev pub signature_size : ℕ
signature_size = 32

-- What the program calls: the first 32 bytes of an HKDF stream, HMAC-SHA256, base64 with the URL
-- alphabet, and JSON of the payload.
pub record Crypto (Float : Type 0) : Type 0 where
  pub hkdf : Text → Text → Text → Option Text
  pub hmac : Text → Text → Text
  pub encode64 : Text → Text
  pub decode64 : Text → Option Text
  pub marshal : TokenPayload Float → Option Text
  pub unmarshal : Text → Option (TokenPayload Float)

-- A payload as the struct has it, whose strings are valid UTF-8
pub record IsText {F : Type 0} (p : TokenPayload F) : Type 0 where
  pub uid : p.uid < 2 ^ 64
  pub salt : valid_utf8 p.salt ≡ true
  pub node : valid_utf8 p.node ≡ true
  pub fxa_uid : valid_utf8 p.fxa_uid ≡ true
  pub device_id : valid_utf8 p.device_id ≡ true

-- What their documents promise: a signature has 32 bytes, and decoding undoes encoding, that of JSON
-- for valid UTF-8; other bytes it replaces.
pub record IsSound {F : Type 0} (c : Crypto F) : Type 0 where
  pub size : (key message : Text) → length (c.hmac key message) ≡ signature_size
  pub base64 : (s : Text) → c.decode64 (c.encode64 s) ≡ some s
  pub json :
      (p : TokenPayload F) (s : Text) → IsText p → c.marshal p ≡ some s → c.unmarshal s ≡ some p

-- HKDF_INFO_SIGNING, HKDF_INFO_DERIVE
abbrev pub hkdf_info_signing : Text
hkdf_info_signing = codes "services.mozilla.com/tokenlib/v1/signing"

abbrev pub hkdf_info_derive : Text
hkdf_info_derive = codes "services.mozilla.com/tokenlib/v1/derive/"

-- The slices of splitToken: a negative bound panics.
unfoldable pub cut : Text → Outcome (Text × Text)
cut decoded =
    if leb signature_size (length decoded)
    then returned (
      take (length decoded - signature_size) decoded,
      drop (length decoded - signature_size) decoded,
    )
    else panicked

-- The salt of a new token: the one given, or random bytes in hexadecimal
unfoldable pub salted : {F : Type 0} → Option Text → TokenPayload F → Outcome (TokenPayload F)
salted random payload =
    if leb (length payload.salt) 0
    then (do salt ← or_fail no_random random; returned (record payload { salt = salt }))
    else returned payload

module _ {F : Type 0} (c : Crypto F) where
  -- calculateSignatureSecret
  unfoldable pub calculate_signature_secret : Text → Outcome Text
  calculate_signature_secret secret = or_fail key_failure (c.hkdf secret [] hkdf_info_signing)

  -- calculatePayloadSignature
  unfoldable pub calculate_payload_signature : Text → Text → Text
  calculate_payload_signature encoded_payload signature_secret =
      c.hmac signature_secret encoded_payload

  -- generateToken
  unfoldable pub generate_token : Text → TokenPayload F → Outcome Text
  generate_token secret payload = do
    signature_secret ← or_fail key_failure (c.hkdf secret [] hkdf_info_signing)
    encoded_payload ← or_fail bad_payload (c.marshal payload)
    returned (c.encode64 (encoded_payload ++ c.hmac signature_secret encoded_payload))

  -- generateDerivedSecret
  unfoldable pub generate_derived_secret : Text → Text → Text → Outcome Text
  generate_derived_secret secret salt token = do
    derived ← or_fail key_failure (c.hkdf secret salt (hkdf_info_derive ++ token))
    returned (c.encode64 derived)

  -- NewToken after its salt
  unfoldable pub new_salted : Text → TokenPayload F → Outcome (Token F)
  new_salted secret p = do
    token ← generate_token secret p
    derived ← generate_derived_secret secret p.salt token
    returned (record { payload = p; token = token; derived_secret = derived })

  -- NewToken, with what randomHexString(3) returns
  unfoldable pub new_token : Option Text → Text → TokenPayload F → Outcome (Token F)
  new_token random secret payload = salted random payload >>= new_salted secret

  -- splitToken
  unfoldable pub split_token : Text → Outcome (Text × Text)
  split_token token = do decoded ← or_fail bad_base64 (c.decode64 token); cut decoded

  -- ParseToken after the signature was compared
  unfoldable pub decode_payload : Text → Text → Text → Outcome (Token F)
  decode_payload secret token encoded_payload = do
    payload ← or_fail payload_decoding (c.unmarshal encoded_payload)
    derived ← generate_derived_secret secret payload.salt token
    returned (record { payload = payload; token = token; derived_secret = derived })

  -- ParseToken
  unfoldable pub parse_token : Text → Text → Outcome (Token F)
  parse_token secret token = do
    parts ← split_token token
    signature_secret ← calculate_signature_secret secret
    if text_eq parts.1 (calculate_payload_signature parts.0 signature_secret)
        then decode_payload secret token parts.0
        else failed signature_mismatch
