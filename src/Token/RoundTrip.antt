-- ===== src/Token/RoundTrip.antt =====
-- token/token.go: NewToken and ParseToken, one after the other.
use go_syncstorage.Prelude.{
  ◌-◌, ◌<◌, ◌≤◌, ◌≡◌, refl, sym, ap, ◌∙◌, Bool, true, false, Option, none, some, [], ◌∷◌, ◌++◌,
  List, arith, length, length-append, take, drop, leb, if◌then◌else◌,
}
use go_syncstorage.Prelude.Text.{Text, text_eq, text_eq_refl, text_eq_iff}
use go_syncstorage.Token.{
  TokenPayload, Token, TokenError, Outcome, returned, failed, panicked, ◌>>=◌, or_fail,
  signature_size, Crypto, IsText, IsSound, calculate_signature_secret, calculate_payload_signature,
  generate_token, generate_derived_secret, salted, new_salted, decode_payload, new_token, cut,
  split_token, parse_token, hkdf_info_signing, signature_mismatch, payload_decoding, bad_base64,
}

pub take-append : {A : Type 0} (xs ys : List A) → take (length xs) (xs ++ ys) ≡ xs
take-append [] ys = refl
take-append (x ∷ xs) ys = ap (◌∷◌ x) (take-append xs ys)

pub drop-append : {A : Type 0} (xs ys : List A) → drop (length xs) (xs ++ ys) ≡ ys
drop-append [] ys = refl
drop-append (x ∷ xs) ys = drop-append xs ys

cut-append : (s t : Text) → length t ≡ signature_size → cut (s ++ t) ≡ returned (s, t)
unfolding cut
cut-append s t e =
    let whole : length (s ++ t) - signature_size ≡ length s = omega (arith, length-append s t) in
    let enough : leb signature_size (length (s ++ t)) ≡ true = ground (arith, length-append s t) in
    rw (enough, if◌then◌else◌, whole, take-append s t, drop-append s t) refl

returned_eq : {A : Type 0} {a b : A} → returned a ≡ returned b → a ≡ b
returned_eq h = cc

-- A test whose other branch does not return
passed :
    {A : Type 0} (b : Bool) (m n : Outcome A) {a : A}
    → ¬ (n ≡ returned a)
    → (if b then m else n) ≡ returned a
    → (b ≡ true) × (m ≡ returned a)
passed true m n other h = (refl, h)
passed false m n other h = absurd (other h)

cut-returned :
    (decoded : Text) (parts : Text × Text)
    → cut decoded ≡ returned parts
    → (signature_size ≤ length decoded)
      × (parts.0 ≡ take (length decoded - signature_size) decoded)
      × (parts.1 ≡ drop (length decoded - signature_size) decoded)
unfolding cut
cut-returned decoded parts h =
    let (long, same) = passed (leb signature_size (length decoded)) _ panicked (λ e. cc) h in
    (
      ground (arith, long),
      ap (λ p. p.0) (sym (returned_eq same)),
      ap (λ p. p.1) (sym (returned_eq same)),
    )

-- The steps of a chain that returned
bind-returned :
    {A B : Type 0} (m : Outcome A) (f : A → Outcome B) {b : B}
    → (m >>= f) ≡ returned b
    → (a : A) × (m ≡ returned a) × (f a ≡ returned b)
bind-returned (returned a) f h = (a, refl, h)
bind-returned (failed e) f h = absurd (cc)
bind-returned panicked f h = absurd (cc)

or_fail-returned :
    {A : Type 0} (e : TokenError) (o : Option A) {a : A} → or_fail e o ≡ returned a → o ≡ some a
or_fail-returned e none h = absurd (cc)
or_fail-returned e (some b) h = cc

module _ {F : Type 0} (c : Crypto F) where
  -- What a generated token is made of
  generated :
      (secret : Text) (p : TokenPayload F) (token : Text)
      → generate_token c secret p ≡ returned token
      → (key s : Text) × (c.hkdf secret [] hkdf_info_signing ≡ some key)
        × (c.marshal p ≡ some s)
        × (token ≡ c.encode64 (s ++ c.hmac key s))
  unfolding generate_token
  generated secret p token h =
      let (key, ek, g1) = bind-returned _ _ h in
      let (s, es, g2) = bind-returned _ _ g1 in
      (key, s, or_fail-returned _ _ ek, or_fail-returned _ _ es, sym (returned_eq g2))

  -- The two calls that made a new token
  of_salted :
      (secret : Text) (p : TokenPayload F) (t : Token F)
      → new_salted c secret p ≡ returned t
      → (generate_token c secret t.payload ≡ returned t.token)
        × (generate_derived_secret c secret t.payload.salt t.token ≡ returned t.derived_secret)
  unfolding new_salted
  of_salted secret p t h =
      let (tok, et, h2) = bind-returned (generate_token c secret p) _ h in
      let (d, ed, h3) = bind-returned (generate_derived_secret c secret p.salt tok) _ h2 in
      let same : record { payload = p; token = tok; derived_secret = d } ≡ t = returned_eq h3 in
      (rw (← same) et, rw (← same) ed)

  made_of :
      (random : Option Text) (secret : Text) (payload : TokenPayload F) (t : Token F)
      → new_token c random secret payload ≡ returned t
      → (generate_token c secret t.payload ≡ returned t.token)
        × (generate_derived_secret c secret t.payload.salt t.token ≡ returned t.derived_secret)
  unfolding new_token
  made_of random secret payload t h =
      let (p, ep, h1) = bind-returned (salted random payload) (new_salted c secret) h in
      of_salted secret p t h1

  -- A token that NewToken returned, if the strings of its payload are valid UTF-8 and its uid is an
  -- unsigned 64-bit integer, is parsed with the same secret to what NewToken returned: its payload,
  -- salt included, its text and its derived secret.
  pub parse_token-new_token :
      (random : Option Text) (secret : Text) (payload : TokenPayload F) (t : Token F)
      → IsSound c
      → IsText t.payload
      → new_token c random secret payload ≡ returned t
      → parse_token c secret t.token ≡ returned t
  unfolding parse_token split_token decode_payload calculate_signature_secret
      calculate_payload_signature
  parse_token-new_token random secret payload t sound text h =
      let (made, ed) = made_of random secret payload t h in
      let (key, s, ek, es, et) = generated secret t.payload t.token made in
      let decoded : c.decode64 t.token ≡ some (s ++ c.hmac key s) = rw et (sound.base64 _) in
      rw
        (
          decoded,
          or_fail,
          cut-append s (c.hmac key s) (sound.size key s),
          ek,
          text_eq_refl (c.hmac key s),
          if◌then◌else◌,
          sound.json t.payload s text es,
          ed,
        )
        refl

  -- The rest of ParseToken after the token was split, and after the key was derived
  abbrev checked : Text → Text → Text × Text → Text → Outcome (Token F)
  checked secret token parts key =
      if text_eq parts.1 (calculate_payload_signature c parts.0 key)
      then decode_payload c secret token parts.0
      else failed signature_mismatch

  abbrev after_split : Text → Text → Text × Text → Outcome (Token F)
  after_split secret token parts =
      calculate_signature_secret c secret >>= checked secret token parts

  -- What a check that returned found
  checked-returned :
      (secret token : Text) (parts : Text × Text) (key : Text) (t : Token F)
      → checked secret token parts key ≡ returned t
      → (parts.1 ≡ c.hmac key parts.0) × (c.unmarshal parts.0 ≡ some t.payload) × (t.token ≡ token)
  unfolding calculate_payload_signature decode_payload
  checked-returned secret token parts key t h =
      let (same, h0) =
        passed (text_eq parts.1 (c.hmac key parts.0)) (decode_payload c secret token parts.0)
          (failed signature_mismatch) (λ e. cc) h in
      let (p, ep, h1) = bind-returned (or_fail payload_decoding (c.unmarshal parts.0)) _ h0 in
      let (d, ed, h2) = bind-returned (generate_derived_secret c secret p.salt token) _ h1 in
      let made : record { payload = p; token = token; derived_secret = d } ≡ t = returned_eq h2 in
      ((text_eq_iff _ _).0 same, rw (← made) (or_fail-returned _ _ ep), rw (← made) refl)

  -- A text that holds a payload and, behind it, the signature that the secret gives it; what a
  -- token has of it
  abbrev pub WasSigned : Text → Text → Token F → Type 0
  WasSigned secret token t =
      (decoded key : Text) × (c.decode64 token ≡ some decoded)
      × (signature_size ≤ length decoded)
      × (c.hkdf secret [] hkdf_info_signing ≡ some key)
      × (drop (length decoded - signature_size) decoded
          ≡ c.hmac key (take (length decoded - signature_size) decoded))
      × (c.unmarshal (take (length decoded - signature_size) decoded) ≡ some t.payload)
      × (t.token ≡ token)

  -- A token that ParseToken accepts holds a payload behind which stands the signature that the
  -- secret gives it, and the payload returned is the decoding of that part.
  pub parse_token_sound :
      (secret token : Text) (t : Token F)
      → parse_token c secret token ≡ returned t
      → WasSigned secret token t
  unfolding parse_token split_token calculate_signature_secret calculate_payload_signature
  parse_token_sound secret token t h =
      let (parts, split, h1) = bind-returned (split_token c token) (after_split secret token) h in
      let (decoded, ed, halves) = bind-returned (or_fail bad_base64 (c.decode64 token)) cut split in
      let (key, ek, h2) =
        bind-returned (calculate_signature_secret c secret) (checked secret token parts) h1 in
      let (long, first, second) = cut-returned decoded parts halves in
      let (signed, payload, same) = checked-returned secret token parts key t h2 in
      (
        decoded,
        key,
        or_fail-returned _ _ ed,
        long,
        or_fail-returned _ _ ek,
        sym second ∙ signed ∙ ap (c.hmac key) first,
        ap c.unmarshal (sym first) ∙ payload,
        same,
      )

  -- A token that decodes to fewer bytes than a signature has makes ParseToken panic.
  pub parse_token-short :
      (secret token decoded : Text)
      → c.decode64 token ≡ some decoded
      → length decoded < signature_size
      → parse_token c secret token ≡ panicked
  unfolding parse_token split_token cut
  parse_token-short secret token decoded e h =
      let short : leb signature_size (length decoded) ≡ false = ground arith in
      rw (e, or_fail, short) refl
