-- ===== src/Tests/Token.antt =====
-- Tokens with a concrete, and worthless, cryptography.
use go_syncstorage.Prelude.{
  ℕ, ◌≡◌, refl, true, false, arith, none, some, [], ◌∷◌, ◌++◌, length, take, drop, get_or,
  replicate, length-replicate,
}
use go_syncstorage.Prelude.Text.{Text, codes}
use go_syncstorage.Prelude.Utf8.{valid_utf8}
use go_syncstorage.Token.{
  TokenPayload, Token, returned, Crypto, IsText, IsSound, new_token, parse_token, salted,
  new_salted, generate_token, generate_derived_secret,
}
use go_syncstorage.Token.RoundTrip.{
  take-append, drop-append, WasSigned, parse_token-new_token, parse_token_sound,
}

-- A field with its length before it
abbrev pub field : Text → Text → Text
field s t = length s ∷ (s ++ t)

unfoldable pub first : Text → Text × Text
first [] = ([], [])
first (n ∷ t) = (take n t, drop n t)

first-field : (s t : Text) → first (field s t) ≡ (s, t)
unfolding first
first-field s t = rw (take-append s t, drop-append s t) refl

abbrev pub encode : TokenPayload ℕ → Text
encode p =
    field p.salt (field p.node (field p.fxa_uid (field p.device_id (p.uid ∷ p.expires ∷ []))))

abbrev pub decode : Text → TokenPayload ℕ
decode s =
    let (salt, s1) = first s in
    let (node, s2) = first s1 in
    let (fxa_uid, s3) = first s2 in
    let (device_id, s4) = first s3 in
    record {
      salt = salt;
      uid = get_or s4 0 0;
      node = node;
      expires = get_or s4 1 0;
      fxa_uid = fxa_uid;
      device_id = device_id;
    }

decode-encode : (p : TokenPayload ℕ) → decode (encode p) ≡ p
decode-encode p =
    let s4 = p.uid ∷ p.expires ∷ [] in
    let s3 = field p.device_id s4 in
    let s2 = field p.fxa_uid s3 in
    let s1 = field p.node s2 in
    rw
      (
        first-field p.salt s1,
        first-field p.node s2,
        first-field p.fxa_uid s3,
        first-field p.device_id s4,
      )
      refl

abbrev pub plain : Crypto ℕ
plain = record {
  hkdf = λ secret salt info. some secret;
  hmac = λ key message. replicate 32 (length message);
  encode64 = λ s. s;
  decode64 = some;
  marshal = λ p. some (encode p);
  unmarshal = λ s. some (decode s);
}

plain-IsSound : IsSound plain
plain-IsSound = record {
  size = λ key message. length-replicate 32 (length message);
  base64 = λ s. refl;
  json = λ p s text e. let same : encode p ≡ s = cc in rw (← same, decode-encode p) refl;
}

abbrev pub payload : TokenPayload ℕ
payload = record {
  salt = codes "a1b2c3";
  uid = 42;
  node = codes "n1";
  expires = 1500000000;
  fxa_uid = codes "f";
  device_id = codes "d";
}

abbrev pub token_text : Text
token_text = encode payload ++ replicate 32 (length (encode payload))

abbrev pub token : Token ℕ
token = record { payload = payload; token = token_text; derived_secret = codes "key" }

payload-IsText : IsText payload
unfolding valid_utf8
payload-IsText = record {
  uid = omega arith;
  salt = refl;
  node = refl;
  fxa_uid = refl;
  device_id = refl;
}

-- U+10FFFF is valid, a surrogate is not.
last_valid : valid_utf8 (244 ∷ 143 ∷ 191 ∷ 191 ∷ []) ≡ true
unfolding valid_utf8
last_valid = refl

surrogate_invalid : valid_utf8 (237 ∷ 160 ∷ 128 ∷ []) ≡ false
unfolding valid_utf8
surrogate_invalid = refl

made : new_token plain none (codes "key") payload ≡ returned token
unfolding new_token salted new_salted generate_token generate_derived_secret
made = refl

parse_token-new_token_example : parse_token plain (codes "key") token_text ≡ returned token
parse_token-new_token_example =
    parse_token-new_token plain none (codes "key") payload token plain-IsSound payload-IsText made

parse_token_sound_example : WasSigned plain (codes "key") token_text token
parse_token_sound_example =
    parse_token_sound plain (codes "key") token_text token (
      parse_token-new_token plain none (codes "key") payload token plain-IsSound payload-IsText
        made)
