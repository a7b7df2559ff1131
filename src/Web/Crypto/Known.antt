-- ===== src/Web/Crypto/Known.antt =====
-- web/misc.go: the bodies that catchBadCrypto refuses.
use go_syncstorage.Prelude.{
  both_true, ℕ, ◌≡◌, ◌≢◌, ◌⊎◌, if◌then◌else◌, refl, ap, ◌∙◌, ◌↔◌, inl, inr, Bool, true, false, ◌||◌,
  [], ◌∷◌, ◌++◌, drop, length, arith, Bool-cases,
}
use go_syncstorage.Prelude.Text.{Text, codes, text_eq, text_eq_iff}
use go_syncstorage.Web.Accept.{has_prefix}
use go_syncstorage.Web.Crypto.{
  iv_key, zero_iv, is_space, skip_spaces, bad_here, bad_crypto, catch_bad_crypto, known_bad_payload,
}
use go_syncstorage.Storage.Driver.{World}
use go_syncstorage.Web.Body.{Body}
use go_syncstorage.Web.Reply.{refused, Handler}

abbrev pub AllSpaces : Text → Type 0
AllSpaces [] = Unit
AllSpaces (c ∷ s) = (is_space c ≡ true) × AllSpaces s

has_prefix-append : (p s : Text) → has_prefix p (p ++ s) ≡ true
unfolding has_prefix
has_prefix-append [] s = refl
has_prefix-append (a ∷ p) s = ground (arith, has_prefix-append p s)

has_prefix-split : (p s : Text) → has_prefix p s ≡ true → s ≡ p ++ drop (length p) s
unfolding has_prefix
has_prefix-split [] s h = refl
has_prefix-split (a ∷ p) [] h = absurd (cc)
has_prefix-split (a ∷ p) (b ∷ s) h =
    let rest : has_prefix p s ≡ true = ground arith in
    let same : a ≡ b = ground arith in rw same (ap (λ t. b ∷ t) (has_prefix-split p s rest))

drop-append : (p s : Text) → drop (length p) (p ++ s) ≡ s
drop-append [] s = refl
drop-append (a ∷ p) s = drop-append p s

skip_spaces-split : (s : Text) → (ws : Text) × AllSpaces ws × (s ≡ ws ++ skip_spaces s)
unfolding skip_spaces
skip_spaces-split [] = ([], tt, refl)
skip_spaces-split (c ∷ s) = elim (Bool-cases (is_space c)) [
  | inl space ↦
      let (ws, all, e) = skip_spaces-split s in
      rw (space, if◌then◌else◌) (c ∷ ws, (space, all), ap (λ t. c ∷ t) e)
  | inr other ↦ rw (other, if◌then◌else◌) ([], tt, refl)
]

skip_spaces-append :
    (ws s : Text) (c : ℕ) → AllSpaces ws → is_space c ≡ false → skip_spaces (ws ++ c ∷ s) ≡ c ∷ s
unfolding skip_spaces
skip_spaces-append [] s c all other = rw other refl
skip_spaces-append (d ∷ ws) s c (space, all) other =
    rw (space, if◌then◌else◌) (skip_spaces-append ws s c all other)

-- What badCryptoRegex is for: the two parts, with only spaces between
abbrev pub IsKnownBad : Text → Type 0
IsKnownBad s =
    (before : Text) × (ws : Text) × (after : Text) × AllSpaces ws
    × (s ≡ before ++ (iv_key ++ (ws ++ (zero_iv ++ after))))

here_found :
    (s : Text)
    → bad_here s ≡ true
    → (ws : Text) × (after : Text) × AllSpaces ws × (s ≡ iv_key ++ (ws ++ (zero_iv ++ after)))
here_found s h =
    let rest = drop (length iv_key) s in
    let (key, zero) = both_true (has_prefix iv_key s) (has_prefix zero_iv (skip_spaces rest)) h in
    let (ws, all, e) = skip_spaces-split rest in
    (
      ws,
      drop (length zero_iv) (skip_spaces rest),
      all,
      has_prefix-split iv_key s key
          ∙ ap (λ t. iv_key ++ t)
              (e ∙ ap (λ t. ws ++ t) (has_prefix-split zero_iv (skip_spaces rest) zero)),
    )

backslash : is_space 92 ≡ false
backslash = refl

here_bad : (ws after : Text) → AllSpaces ws → bad_here (iv_key ++ (ws ++ (zero_iv ++ after))) ≡ true
here_bad ws after all =
    rw
      (
        has_prefix-append iv_key (ws ++ (zero_iv ++ after)),
        drop-append iv_key (ws ++ (zero_iv ++ after)),
        skip_spaces-append ws (drop 1 zero_iv ++ after) 92 all backslash,
        has_prefix-append zero_iv after,
      )
      refl

bad_found : (s : Text) → bad_crypto s ≡ true → IsKnownBad s
unfolding bad_crypto
bad_found [] h = absurd (cc)
bad_found (c ∷ s) h = elim (Bool-cases (bad_here (c ∷ s))) [
  | inl here ↦ let (ws, after, all, e) = here_found (c ∷ s) here in ([], ws, after, all, e)
  | inr later ↦
      let rest : bad_crypto s ≡ true = rw (later) at h in
      let (before, ws, after, all, e) = bad_found s rest in
      (c ∷ before, ws, after, all, ap (λ t. c ∷ t) e)
]

or_true : (b : Bool) → (b || true) ≡ true
or_true true = refl
or_true false = refl

found_bad :
    (before ws after : Text)
    → AllSpaces ws
    → bad_crypto (before ++ (iv_key ++ (ws ++ (zero_iv ++ after)))) ≡ true
unfolding bad_crypto
found_bad [] ws after all = rw (here_bad ws after all) refl
found_bad (c ∷ before) ws after all =
    rw (found_bad before ws after all)
      (or_true (bad_here (c ∷ before ++ (iv_key ++ (ws ++ (zero_iv ++ after))))))

bad_crypto_lem : (s : Text) → (bad_crypto s ≡ true) ↔ IsKnownBad s
bad_crypto_lem s =
    (bad_found s, λ (before, ws, after, all, e). rw e (found_bad before ws after all))

crypto_name : text_eq (codes "crypto") (codes "crypto") ≡ true
unfolding text_eq
crypto_name = refl

module _ {A : Type 0} (next : Body → Handler A) where
  -- A request with a body that can be read is refused, and nothing else is done, exactly if it is for
  -- the collection crypto and its body has the key of an initialisation vector and, behind nothing
  -- but white space, the vector of zeros; any other one goes on to the handler with its body as it
  -- came.
  pub catch_bad_crypto_lem :
      (collection : Text) (body : Body) (w : World)
      → body.broken ≡ false
      → ((collection ≡ codes "crypto")
          × IsKnownBad body.received
          × (catch_bad_crypto collection body next w ≡ (refused known_bad_payload, w)))
        ⊎ (((collection ≢ codes "crypto") ⊎ (¬ (IsKnownBad body.received)))
            × (catch_bad_crypto collection body next w ≡ next body w))
  unfolding catch_bad_crypto
  catch_bad_crypto_lem collection body w read =
      elim (Bool-cases (text_eq collection (codes "crypto"))) [
        | inl crypto ↦ elim (Bool-cases (bad_crypto body.received)) [
          | inl bad ↦ inl (
            (text_eq_iff collection (codes "crypto")).0 crypto,
            bad_found body.received bad,
            rw (crypto, if◌then◌else◌, read, bad) refl,
          )
          | inr good ↦ inr (
            inr (λ known. absurd (cc (good, (bad_crypto_lem body.received).1 known))),
            rw (crypto, if◌then◌else◌, read, good) refl,
          )
        ]
        | inr other ↦ inr (
          inl (λ same. absurd (cc (other, (text_eq_iff collection (codes "crypto")).1 same))),
          rw (other, if◌then◌else◌) refl,
        )
      ]
