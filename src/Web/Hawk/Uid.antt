-- ===== src/Web/Hawk/Uid.antt =====
-- web/misc.go: extractUID.
use go_syncstorage.Prelude.{ℕ, ◌≡◌, refl, ap, true, false, [], ◌∷◌, ◌++◌, if◌then◌else◌}
use go_syncstorage.Prelude.Text.{Text, codes}
use go_syncstorage.Strconv.{is_digit}
use go_syncstorage.Web.Accept.{has_prefix}
use go_syncstorage.Web.Hawk.{leading_digits, extract_uid}

abbrev pub AllDigits : Text → Type 0
AllDigits [] = Unit
AllDigits (c ∷ s) = (is_digit c ≡ true) × AllDigits s

abbrev pub NoDigitFirst : Text → Type 0
NoDigitFirst [] = Unit
NoDigitFirst (c ∷ s) = is_digit c ≡ false

leading_digits-append :
    (uid rest : Text) → AllDigits uid → NoDigitFirst rest → leading_digits (uid ++ rest) ≡ uid
unfolding leading_digits
leading_digits-append [] [] d n = refl
leading_digits-append [] (c ∷ s) d n = rw n refl
leading_digits-append (c ∷ s) rest (d, ds) n =
    rw (d, if◌then◌else◌) (ap (λ t. c ∷ t) (leading_digits-append s rest ds n))

-- The path of a user's request has the user's digits, up to the first character that is no digit.
pub extract_uid_lem :
    (c : ℕ) (uid rest : Text)
    → AllDigits (c ∷ uid)
    → NoDigitFirst rest
    → extract_uid (codes "/1.5/" ++ c ∷ uid ++ rest) ≡ c ∷ uid
unfolding extract_uid has_prefix
extract_uid_lem c uid rest d n = rw (leading_digits-append (c ∷ uid) rest d n) refl
