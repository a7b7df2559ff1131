-- ===== src/Web/Hawk/Admitted.antt =====
-- web/hawkHandler.go: the requests that HawkHandler passes on.
use go_syncstorage.Prelude.{
  ℕ, ◌≡◌, refl, ◌⊎◌, inl, inr, Bool, true, false, ◌&&◌, not, Option, none, some, List, [], ◌∷◌,
  arith, if◌then◌else◌, Bool-cases,
}
use go_syncstorage.Prelude.Text.{Text, codes, text_eq, text_eq_iff}
use go_syncstorage.Token.{
  TokenPayload, Token, Outcome, returned, failed, panicked, Crypto, parse_token, uid_string,
}
use go_syncstorage.Web.Http.{Request}
use go_syncstorage.Web.Accept.{has_prefix}
use go_syncstorage.Web.Body.{Body}
use go_syncstorage.Web.Nonce.{Bloom, Nonces, hawk_nonce_not_found}
use go_syncstorage.Web.Hawk.{
  Hawk, HawkError, Found, found, bad_format, bad_auth, unknown_error, admitted, Tried, parsed_token,
  no_token, parse_crashed, try_next, parse_with_secrets, check_media, check_content_type,
  check_hash, check_uid, check_valid, check_token, check_nonce, key_of, check_found,
  hawk_serve_http, extract_uid, no_auth, replay, timestamp_skew, other_error,
}

-- One of the texts
abbrev pub IsAmong : Text → List Text → Type 0
IsAmong s [] = ⊥
IsAmong s (t ∷ list) = (s ≡ t) ⊎ IsAmong s list

module _ {F : Type 0} (c : Crypto F) where
  tried_parsed :
      (id secret : Text) (secrets : List Text) (o : Outcome (Token F)) (t : Token F)
      → parse_token c secret id ≡ o
      → try_next o (parse_with_secrets c id secrets) ≡ parsed_token t
      → (parse_with_secrets c id secrets ≡ parsed_token t
          → (s : Text) × IsAmong s secrets × (parse_token c s id ≡ returned t))
      → (s : Text) × IsAmong s (secret ∷ secrets) × (parse_token c s id ≡ returned t)
  tried_parsed id secret secrets (returned u) t e h rest = (secret, inl refl, cc)
  tried_parsed id secret secrets (failed x) t e h rest =
      let (s, among, parses) = rest h in (s, inr among, parses)
  tried_parsed id secret secrets panicked t e h rest = absurd (cc)

  -- A token that the loop finds is parsed with one of the secrets.
  parse_with_secrets_lem :
      (id : Text) (secrets : List Text) (t : Token F)
      → parse_with_secrets c id secrets ≡ parsed_token t
      → (s : Text) × IsAmong s secrets × (parse_token c s id ≡ returned t)
  unfolding parse_with_secrets
  parse_with_secrets_lem id [] t h = absurd (cc)
  parse_with_secrets_lem id (secret ∷ secrets) t h =
      tried_parsed id secret secrets (parse_token c secret id) t refl h
        (λ e. parse_with_secrets_lem id secrets t e)

module _ {F : Type 0} (c : Crypto F) (b : Bloom) (lib : Hawk)
    (media_type : Text → Option Text) where
  -- If a hash is given, it is that of the media type and the body.
  abbrev pub HashFits : lib.Auth → Request → Body → Type 0
  HashFits auth r body =
      lib.has_hash auth ≡ true
      → (media : Text) × (media_type (r.header (codes "Content-Type")) ≡ some media)
        × (lib.valid_hash auth media body.received ≡ true)

  media_admitted :
      (auth : lib.Auth) (body : Body) (p q : TokenPayload F) (o : Option Text)
      → check_media c b lib media_type auth body p o ≡ admitted q
      → (p ≡ q)
        × ((media : Text) × (o ≡ some media) × (lib.valid_hash auth media body.received ≡ true))
  media_admitted auth body p q none h = absurd (cc)
  media_admitted auth body p q (some media) h = elim (Bool-cases body.broken) [
    | inl e ↦ absurd (ground arith)
    | inr e ↦ elim (Bool-cases (lib.valid_hash auth media body.received)) [
      | inl v ↦ (ground arith, (media, refl, v))
      | inr v ↦ absurd (ground arith)
    ]
  ]

  content_admitted :
      (auth : lib.Auth) (body : Body) (p q : TokenPayload F) (content : Text)
      → check_content_type c b lib media_type auth body p content ≡ admitted q
      → (p ≡ q)
        × ((media : Text) × (media_type content ≡ some media)
            × (lib.valid_hash auth media body.received ≡ true))
  content_admitted auth body p q [] h = absurd (cc)
  content_admitted auth body p q (x ∷ s) h = media_admitted auth body p q (media_type (x ∷ s)) h

  hash_admitted :
      (auth : lib.Auth) (r : Request) (body : Body) (p q : TokenPayload F)
      → check_hash c b lib media_type auth r body p ≡ admitted q
      → (p ≡ q) × HashFits auth r body
  hash_admitted auth r body p q h = elim (Bool-cases (lib.has_hash auth)) [
    | inl e ↦
        let (same, fits) =
          content_admitted auth body p q (r.header (codes "Content-Type"))
            (rw (e, if◌then◌else◌) at h) in
        (same, λ given. fits)
    | inr e ↦ (ground arith, λ given. absurd (cc))
  ]

  -- The path of a user is that of the token's user.
  abbrev pub UidFits : Text → TokenPayload F → Type 0
  UidFits path p = has_prefix (codes "/1.5/") path ≡ true → uid_string p ≡ extract_uid path

  uid_admitted :
      (path : Text) (auth : lib.Auth) (r : Request) (body : Body) (p q : TokenPayload F)
      → check_uid c b lib media_type path auth r body p ≡ admitted q
      → (p ≡ q) × UidFits path p × HashFits auth r body
  uid_admitted path auth r body p q h =
      elim (Bool-cases
        (has_prefix (codes "/1.5/") path && not (text_eq (uid_string p) (extract_uid path)))) [
          | inl wrong ↦ absurd (ground arith)
          | inr right ↦
              let (same, fits) = hash_admitted auth r body p q (rw (right, if◌then◌else◌) at h) in
              (same, λ user. (text_eq_iff (uid_string p) (extract_uid path)).0 (ground arith), fits)
        ]

  valid_admitted :
      (o : Option HawkError) (path : Text) (auth : lib.Auth) (r : Request) (body : Body)
      (p q : TokenPayload F)
      → check_valid c b lib media_type o path auth r body p ≡ admitted q
      → (o ≡ none) × (p ≡ q) × UidFits path p × HashFits auth r body
  valid_admitted none path auth r body p q h =
      let (same, uid, hash) = uid_admitted path auth r body p q h in (refl, same, uid, hash)
  valid_admitted (some timestamp_skew) path auth r body p q h = absurd (cc)
  valid_admitted (some no_auth) path auth r body p q h = absurd (cc)
  valid_admitted (some replay) path auth r body p q h = absurd (cc)
  valid_admitted (some other_error) path auth r body p q h = absurd (cc)

  -- What a request that is passed on has shown behind its nonce
  abbrev pub Shows : List Text → Text → lib.Auth → Request → Body → TokenPayload F → Type 0
  Shows secrets path auth r body p =
      (secret : Text) × (t : Token F) × IsAmong secret secrets
      × (parse_token c secret (lib.credentials_id auth) ≡ returned t)
      × (t.payload ≡ p)
      × (lib.valid auth t.derived_secret ≡ none)
      × UidFits path p
      × HashFits auth r body

  token_admitted :
      (secrets : List Text) (tried : Tried F) (path : Text) (auth : lib.Auth) (r : Request)
      (body : Body) (p : TokenPayload F)
      → parse_with_secrets c (lib.credentials_id auth) secrets ≡ tried
      → check_token c b lib media_type tried path auth r body ≡ admitted p
      → Shows secrets path auth r body p
  token_admitted secrets no_token path auth r body p e h = absurd (cc)
  token_admitted secrets parse_crashed path auth r body p e h = absurd (cc)
  token_admitted secrets (parsed_token t) path auth r body p e h =
      let (secret, among, parses) =
        parse_with_secrets_lem c (lib.credentials_id auth) secrets t e in
      let (valid, same, uid, hash) =
        valid_admitted (lib.valid auth t.derived_secret) path auth r body t.payload p h in
      (secret, t, among, parses, same, valid, rw (← same) uid, hash)

  nonce_admitted :
      (secrets : List Text) (path : Text) (auth : lib.Auth) (r : Request) (body : Body) (new : Bool)
      (p : TokenPayload F)
      → check_nonce c b lib media_type secrets path auth r body new ≡ admitted p
      → (new ≡ true) × Shows secrets path auth r body p
  nonce_admitted secrets path auth r body true p h = (
    refl,
    token_admitted secrets (parse_with_secrets c (lib.credentials_id auth) secrets) path auth r body
        p refl h,
  )
  nonce_admitted secrets path auth r body false p h = absurd (cc)

  -- Only the nonce of a bewit may have been seen.
  abbrev pub NonceFits : lib.Auth → ℕ → Nonces b → Type 0
  NonceFits auth now h =
      (lib.is_bewit auth ≡ true)
      ⊎ ((hawk_nonce_not_found b (key_of c b lib media_type auth) now h).0 ≡ true)

  found_admitted :
      (secrets : List Text) (path : Text) (now : ℕ) (r : Request) (body : Body) (h : Nonces b)
      (o : Found lib.Auth) (p : TokenPayload F)
      → (check_found c b lib media_type secrets path now r body h o).0 ≡ admitted p
      → (auth : lib.Auth) × (o ≡ found auth)
        × NonceFits auth now h
        × Shows secrets path auth r body p
  found_admitted secrets path now r body h (bad_format field) p e = absurd (cc)
  found_admitted secrets path now r body h (bad_auth no_auth) p e = absurd (cc)
  found_admitted secrets path now r body h (bad_auth replay) p e = absurd (cc)
  found_admitted secrets path now r body h (bad_auth timestamp_skew) p e = absurd (cc)
  found_admitted secrets path now r body h (bad_auth other_error) p e = absurd (cc)
  found_admitted secrets path now r body h unknown_error p e = absurd (cc)
  found_admitted secrets path now r body h (found auth) p e =
      elim (Bool-cases (lib.is_bewit auth)) [
        | inl bewit ↦
            let (new, shows) =
              nonce_admitted secrets path auth r body true p (rw (bewit, if◌then◌else◌) at e) in
            (auth, refl, inl bewit, shows)
        | inr header ↦
            let (new, shows) =
              nonce_admitted secrets path auth r body
                ((hawk_nonce_not_found b (key_of c b lib media_type auth) now h).0) p
                (rw (header, if◌then◌else◌) at e) in
            (auth, refl, inr new, shows)
      ]

  -- A request that is passed on has a Hawk header with a nonce that was not seen, or a bewit, whose
  -- nonce is not asked for; its credentials have an id that is a token that is parsed with one of the
  -- secrets. The header or bewit is valid for the token's secret, the user of a path below /1.5/ is
  -- the token's, and a hash in the header is that of the body. The session gets the payload of the
  -- token.
  pub hawk_serve_http_lem :
      (secrets : List Text) (path : Text) (now : ℕ) (r : Request) (body : Body) (h : Nonces b)
      (p : TokenPayload F)
      → (hawk_serve_http c b lib media_type secrets path now r body h).0 ≡ admitted p
      → (auth : lib.Auth) × (lib.auth_of_request r ≡ found auth)
        × NonceFits auth now h
        × Shows secrets path auth r body p
  unfolding hawk_serve_http
  hawk_serve_http_lem secrets path now r body h p e =
      found_admitted secrets path now r body h (lib.auth_of_request r) p e
