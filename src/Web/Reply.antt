-- ===== src/Web/Reply.antt =====
-- web/misc.go, web/weaveHandler.go: what a handler of one user's requests answers, and how it calls
-- the storage. The text of an answer to an error of the storage is left off: such an answer is its
-- status and the error.
use go_syncstorage.Prelude.{ℕ, Bool, true, false, Option, none, some}
use go_syncstorage.Prelude.Text.{Text, codes}
use go_syncstorage.Storage.Data.{Error, Result, not_found, nil_rows}
use go_syncstorage.Storage.Driver.{World, M}
use go_syncstorage.Web.Http.{Problem}

-- A refusal with a reason of its own, a status with the error behind it, the number that stands for
-- a legacy error (status 400), a success, a refusal after which the handler went on, or a panic
pub data Reply (A : Type 0) : Type 0 where
  refused : Problem → Reply A
  failed : ℕ → Error → Reply A
  weave_error : Text → Reply A
  answered : A → Reply A
  after : Reply A → Reply A → Reply A
  crashed : Reply A

-- A handler of a route
abbrev pub Handler : Type 0 → Type 0
Handler A = World → Reply A × World

module _ {B : Type 0} where
  abbrev pub reply : Reply B → Handler B
  reply r w = (r, w)

  -- A call of the storage, and what follows its result
  abbrev pub call : {A : Type 0} → M A → (Result A → Handler B) → Handler B
  call m k w = k (m w).0 (m w).1

  -- InternalError
  abbrev pub internal_error : Error → Handler B
  internal_error e = reply (failed 500 e)

  -- Writing of a refusal if there is one
  abbrev pub unless_sent : Option Problem → Handler B → Handler B
  unless_sent none k = k
  unless_sent (some p) k = reply (refused p)

  -- A refusal that is written before the rest of the handler
  abbrev pub going_on : Reply B → Handler B → Handler B
  going_on p k w = (after p (k w).0, (k w).1)

-- err == syncstorage.ErrNotFound
abbrev pub is_not_found : Error → Bool
is_not_found not_found = true
is_not_found _ = false

-- A panic that an error of the storage stands for
abbrev pub is_panic : Error → Bool
is_panic nil_rows = true
is_panic _ = false

-- WEAVE_INVALID_WBO, WEAVE_SIZE_LIMIT_EXCEEDED
abbrev pub weave_invalid_wbo : Text
weave_invalid_wbo = codes "8"

abbrev pub weave_size_limit_exceeded : Text
weave_size_limit_exceeded = codes "17"
