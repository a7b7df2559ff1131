-- ===== src/Web/Accept.antt =====
-- web/misc.go: AcceptHeaderOk, and the two forms of an answer in JSON. mime.ParseMediaType is a
-- parameter, whose error is the empty text.
use go_syncstorage.Prelude.{Bool, true, false, ◌||◌, List, [], ◌∷◌, ◌++◌, ◌==◌, if◌then◌else◌}
use go_syncstorage.Prelude.Text.{Text, codes, text_eq}
use go_syncstorage.Web.Http.{Request, Problem, send_request_problem}

-- strings.HasPrefix(s, p)
unfoldable pub has_prefix : Text → Text → Bool
has_prefix [] s = true
has_prefix (a ∷ p) [] = false
has_prefix (a ∷ p) (b ∷ s) = let rest = has_prefix p s in if a == b then rest else false

-- strings.Contains(s, p)
unfoldable pub includes : Text → Text → Bool
unfolding has_prefix
includes p [] = has_prefix p []
includes p (c ∷ s) = has_prefix p (c ∷ s) || includes p s

abbrev pub any_included : List Text → Text → Bool
any_included [] s = false
any_included (p ∷ ps) s = includes p s || any_included ps s

-- rewriteAccept
abbrev pub rewrite_accept : List Text
rewrite_accept = codes "*/*" ∷ codes "application/*" ∷ codes "*/json" ∷ []

-- The header Accept that the rest of the handler sees, or the refusal
pub data Accepted : Type 0 where
  accept : Text → Accepted
  not_acceptable : Problem → Accepted

abbrev pub either_json : Text → Bool
either_json media =
    text_eq media (codes "application/json") || text_eq media (codes "application/newlines")

module _ (media_type : Text → Text) where
  abbrev pub accept_given : Text → Accepted
  accept_given [] = accept (codes "application/json")
  accept_given (c ∷ s) =
      if either_json (media_type (c ∷ s))
      then accept (c ∷ s)
      else if any_included rewrite_accept (c ∷ s)
      then accept (codes "application/json")
      else not_acceptable
          (send_request_problem [] 406 (codes "Unsupported Accept header: " ++ c ∷ s))

  -- AcceptHeaderOk
  unfoldable pub accept_header_ok : Request → Accepted
  unfolding includes
  accept_header_ok r = accept_given (r.header (codes "Accept"))

pub data Format : Type 0 where
  as_json as_newlines : Format

-- The choice of JsonNewlineStatus
unfoldable pub format_of : Text → Format
unfolding includes
format_of header = if includes (codes "application/newlines") header then as_newlines else as_json
