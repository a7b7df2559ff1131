-- ===== src/Web/NotModified.antt =====
-- web/sentNotModified.go: X-If-Modified-Since and X-If-Unmodified-Since.
use go_syncstorage.Prelude.{
  ◌≡◌, ◌≢◌, ◌↔◌, ◌⊎◌, inl, inr, refl, Bool, true, false, ◌&&◌, not, Option, none, some, [], ◌∷◌,
  ◌++◌, List, arith, if◌then◌else◌,
}
use go_syncstorage.Prelude.Int.{ℤ, pos, lt_int, le_int, ◌<ℤ◌, ◌≤ℤ◌, sub_int}
use go_syncstorage.Prelude.Text.{Text, codes}
use go_syncstorage.Web.Http.{
  Request, Problem, send_request_problem, Floats, convert_timestamp, modified_to_string,
}

-- XModHeader
pub data XModHeader : Type 0 where
  x_ts_header_none x_if_modified_since x_if_unmodified_since : XModHeader

pub data Extracted : Type 0 where
  timestamp : ℤ → XModHeader → Extracted
  invalid : Text → Extracted

abbrev pub is_empty : Text → Bool
is_empty [] = true
is_empty (c ∷ s) = false

-- A timestamp that cannot be read or is negative is an error.
unfoldable pub valid_timestamp : Option ℤ → XModHeader → Text → Extracted
valid_timestamp none kind reason = invalid reason
valid_timestamp (some ts) kind reason =
    if lt_int ts (pos 0) then invalid reason else timestamp ts kind

module _ (f : Floats) where
  -- The two headers' texts, by which of them are given
  unfoldable pub extract_from : Text → Text → Extracted
  extract_from mod_since unmod_since =
      if not (is_empty mod_since) && not (is_empty unmod_since)
      then invalid (codes "X-If-Modified-Since and X-If-Unmodified-Since both provided")
      else if not (is_empty mod_since)
      then valid_timestamp (convert_timestamp f mod_since) x_if_modified_since
          (codes "Invalid X-If-Modified-Since")
      else if not (is_empty unmod_since)
      then valid_timestamp (convert_timestamp f unmod_since) x_if_unmodified_since
          (codes "Invalid X-If-Unmodified-Since")
      else timestamp (pos 0) x_ts_header_none

  -- extractModifiedTimestamp
  unfoldable pub extract_modified_timestamp : Request → Extracted
  extract_modified_timestamp r =
      extract_from (r.header (codes "X-If-Modified-Since"))
        (r.header (codes "X-If-Unmodified-Since"))

  -- The header that both refusals set
  abbrev pub last_modified_header : ℤ → List (Text × Text)
  last_modified_header modified = (codes "X-Last-Modified", modified_to_string f modified) ∷ []

  abbrev pub condition_requires : ℤ → ℤ → Text
  condition_requires ts modified =
      codes "Condition requires "
      ++ modified_to_string f ts
      ++ codes ", but modified at "
      ++ modified_to_string f modified
      ++ codes " ("
      ++ 226 ∷ 150 ∷ 179 ∷ codes " "
      ++ modified_to_string f (sub_int ts modified)
      ++ codes "s)"

  unfoldable pub checked_against : ℤ → Extracted → Option Problem
  checked_against modified (invalid reason) = some (send_request_problem [] 400 reason)
  checked_against modified (timestamp ts x_ts_header_none) = none
  checked_against modified (timestamp ts x_if_modified_since) =
      if le_int modified ts
      then some (send_request_problem (last_modified_header modified) 304 (codes "Not Modified"))
      else none
  checked_against modified (timestamp ts x_if_unmodified_since) =
      if lt_int ts modified
      then some (
          send_request_problem (last_modified_header modified) 412 (condition_requires ts modified))
      else none

  -- sentNotModified: the response that it wrote, if it wrote one
  unfoldable pub sent_not_modified : Request → ℤ → Option Problem
  sent_not_modified r modified = checked_against modified (extract_modified_timestamp r)

  -- The conditions under which a request goes on: it has at most one of the two headers, and the
  -- one that it has is a timestamp from 0 on, and the resource changed after it, or did not
  abbrev pub Proceeds : Text → Text → ℤ → Type 0
  Proceeds mod_since unmod_since modified =
      ((mod_since ≡ []) × (unmod_since ≡ []))
      ⊎ ((ts : ℤ) × (mod_since ≢ [])
          × (unmod_since ≡ [])
          × (convert_timestamp f mod_since ≡ some ts)
          × (pos 0 ≤ℤ ts)
          × (ts <ℤ modified))
      ⊎ ((ts : ℤ) × (mod_since ≡ [])
          × (unmod_since ≢ [])
          × (convert_timestamp f unmod_since ≡ some ts)
          × (pos 0 ≤ℤ ts)
          × (modified ≤ℤ ts))

  since_lem :
      (o : Option ℤ) (reason : Text) (m : ℤ)
      → (checked_against m (valid_timestamp o x_if_modified_since reason) ≡ none)
        ↔ ((ts : ℤ) × (o ≡ some ts) × (pos 0 ≤ℤ ts) × (ts <ℤ m))
  unfolding checked_against valid_timestamp
  since_lem none reason m = (λ h. absurd (cc), λ (ts, e, l, k). absurd (cc))
  since_lem (some ts) reason m =
      (λ h. (ts, refl, ground arith, ground arith), λ (t, e, l, k). ground arith)

  unmodified_lem :
      (o : Option ℤ) (reason : Text) (m : ℤ)
      → (checked_against m (valid_timestamp o x_if_unmodified_since reason) ≡ none)
        ↔ ((ts : ℤ) × (o ≡ some ts) × (pos 0 ≤ℤ ts) × (m ≤ℤ ts))
  unfolding checked_against valid_timestamp
  unmodified_lem none reason m = (λ h. absurd (cc), λ (ts, e, l, k). absurd (cc))
  unmodified_lem (some ts) reason m =
      (λ h. (ts, refl, ground arith, ground arith), λ (t, e, l, k). ground arith)

  given_lem : (a b : Text) (m : ℤ) → (checked_against m (extract_from a b) ≡ none) ↔ Proceeds a b m
  unfolding checked_against extract_from
  given_lem [] [] m = (λ h. inl (refl, refl), λ h. refl)
  given_lem (c ∷ s) [] m = (
    λ h.
        let (ts, e, l, n) = (since_lem (convert_timestamp f (c ∷ s)) _ m).0 h in
        inr (inl (ts, λ e. cc, refl, e, l, n)),
    λ h. elim h [
      | inl (e, e') ↦ absurd (cc)
      | inr (inl (ts, n, e, g, l, k)) ↦
          (since_lem (convert_timestamp f (c ∷ s)) _ m).1 (ts, g, l, k)
      | inr (inr (ts, e, n, g, l, k)) ↦ absurd (cc)
    ],
  )
  given_lem [] (d ∷ t) m = (
    λ h.
        let (ts, e, l, n) = (unmodified_lem (convert_timestamp f (d ∷ t)) _ m).0 h in
        inr (inr (ts, refl, λ e. cc, e, l, n)),
    λ h. elim h [
      | inl (e, e') ↦ absurd (cc)
      | inr (inl (ts, n, e, g, l, k)) ↦ absurd (cc)
      | inr (inr (ts, e, n, g, l, k)) ↦
          (unmodified_lem (convert_timestamp f (d ∷ t)) _ m).1 (ts, g, l, k)
    ],
  )
  given_lem (c ∷ s) (d ∷ t) m = (
    λ h. absurd (cc),
    λ h. elim h [
      | inl (e, e') ↦ absurd (cc)
      | inr (inl (ts, n, e, g, l, k)) ↦ absurd (cc)
      | inr (inr (ts, e, n, g, l, k)) ↦ absurd (cc)
    ],
  )

  -- A conditional request goes on exactly if it has neither header, or only X-If-Modified-Since
  -- with a timestamp, not negative, before the last change, or only X-If-Unmodified-Since with one
  -- that is not before it.
  pub sent_not_modified_lem :
      (r : Request) (modified : ℤ)
      → (sent_not_modified r modified ≡ none)
        ↔ Proceeds
            (r.header (codes "X-If-Modified-Since"))
            (r.header (codes "X-If-Unmodified-Since"))
            modified
  unfolding sent_not_modified extract_modified_timestamp
  sent_not_modified_lem r modified = given_lem _ _ modified
