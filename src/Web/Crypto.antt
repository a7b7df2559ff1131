-- ===== src/Web/Crypto.antt =====
-- web/misc.go: catchBadCrypto, which stands before the routes that write a collection or a BSO. Every
-- request of net/http's server has a body.
pub mod Known
use go_syncstorage.Prelude.{
  ℕ, Bool, true, false, ◌&&◌, ◌||◌, not, List, [], ◌∷◌, ◌++◌, ◌==◌, drop, length, if◌then◌else◌,
}
use go_syncstorage.Prelude.Text.{Text, codes, text_eq}
use go_syncstorage.Web.Http.{Problem, send_request_problem}
use go_syncstorage.Web.Accept.{has_prefix}
use go_syncstorage.Web.Body.{Body}
use go_syncstorage.Web.Reply.{refused, Handler, reply}

-- \"IV\": with its backslashes
abbrev pub iv_key : Text
iv_key = 92 ∷ 34 ∷ codes "IV" ++ 92 ∷ 34 ∷ codes ":"

-- \"AAAAAAAAAAAAAAAAAAAAAA==\"
abbrev pub zero_iv : Text
zero_iv = 92 ∷ 34 ∷ codes "AAAAAAAAAAAAAAAAAAAAAA==" ++ 92 ∷ 34 ∷ []

-- \s of Go's regular expressions
abbrev pub is_space : ℕ → Bool
is_space c = c == 9 || c == 10 || c == 12 || c == 13 || c == 32

unfoldable pub skip_spaces : Text → Text
skip_spaces [] = []
skip_spaces (c ∷ s) = let rest = skip_spaces s in if is_space c then rest else c ∷ s

-- badCryptoRegex, at the start of a text
abbrev pub bad_here : Text → Bool
bad_here s = has_prefix iv_key s && has_prefix zero_iv (skip_spaces (drop (length iv_key) s))

-- badCryptoRegex.Match
unfoldable pub bad_crypto : Text → Bool
unfolding has_prefix skip_spaces
bad_crypto [] = false
bad_crypto (c ∷ s) = bad_here (c ∷ s) || bad_crypto s

abbrev pub known_bad_payload : Problem
known_bad_payload = send_request_problem [] 400 (codes "Known-bad BSO payload")

module _ {A : Type 0} where
  abbrev pub crypto_read : Body → (Body → Handler A) → Handler A
  crypto_read body next =
      if body.broken
      then reply (refused (send_request_problem [] 500 (codes "Could not download crypto body")))
      else if bad_crypto body.received
      then reply (refused known_bad_payload)
      else next body

  -- catchBadCrypto, with the collection in the path and the body
  unfoldable pub catch_bad_crypto : Text → Body → (Body → Handler A) → Handler A
  unfolding bad_crypto
  catch_bad_crypto collection body next =
      if not (text_eq collection (codes "crypto")) then next body else crypto_read body next
