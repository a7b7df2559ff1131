-- ===== src/Web/Http.antt =====
-- What the web layer reads of a request and writes in answer; floating point is a parameter.
-- web/misc.go: sendRequestProblem, ConvertTimestamp; syncstorage/utils.go: ModifiedToString.
use go_syncstorage.Prelude.{ℕ, Option, none, some, List}
use go_syncstorage.Prelude.Int.{ℤ, pos}
use go_syncstorage.Prelude.Text.{Text}

-- A header that is not there is read as the empty text; a query key has a list of values.
pub record Request : Type 0 where
  pub header : Text → Text
  pub query : Text → Option (List Text)

-- An error response: its status, the headers set for it, and the reason that JSONError writes
pub record Problem : Type 0 where
  pub code : ℕ
  pub headers : List (Text × Text)
  pub reason : Text

unfoldable pub send_request_problem : List (Text × Text) → ℕ → Text → Problem
send_request_problem headers code reason = record {
  code = code;
  headers = headers;
  reason = reason;
}

-- Go's float64: strconv.ParseFloat, the conversions from and to int, * and /, and "%.02f"
pub record Floats : Type 1 where
  pub Float : Type 0
  pub parse_float : Text → Option Float
  pub of_int : ℤ → Float
  pub to_int : Float → ℤ
  pub times : Float → Float → Float
  pub over : Float → Float → Float
  pub print : Float → Text

module _ (f : Floats) where
  -- ConvertTimestamp
  unfoldable pub convert_timestamp : Text → Option ℤ
  convert_timestamp ts = elim (f.parse_float ts) [
    | none ↦ none
    | some x ↦ some (f.to_int (f.times x (f.of_int (pos 1000))))
  ]

  -- ModifiedToString
  unfoldable pub modified_to_string : ℤ → Text
  modified_to_string modified = f.print (f.over (f.of_int modified) (f.of_int (pos 1000)))
