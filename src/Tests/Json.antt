-- ===== src/Tests/Json.antt =====
-- A small format in place of JSON for the tests: an object is {id:payload}.
use go_syncstorage.Prelude.{
  Option, false, none, some, List, [], ◌∷◌, ◌++◌, ◌==◌, ◌-◌, ◌+◌, if◌then◌else◌, drop, take, length,
}
use go_syncstorage.Prelude.Text.{Text, codes, text_eq}
use go_syncstorage.Strconv.{parse_int}
use go_syncstorage.Storage.Data.{PutBsoInput}
use go_syncstorage.Web.Http.{Request}
use go_syncstorage.Web.Body.{Json, Body}

abbrev pub before_colon : Text → Text
before_colon [] = []
before_colon (c ∷ s) = let rest = before_colon s in if c == b':' then [] else c ∷ rest

abbrev pub or_empty : Option Text → Text
or_empty none = []
or_empty (some p) = p

abbrev pub without_braces : Text → Text
without_braces s = take (length s - 2) (drop 1 s)

abbrev pub line_of : Text → Text → Text
line_of id payload = b'{' ∷ (id ++ b':' ∷ payload) ++ b'}' ∷ []

abbrev pub keys_of : Text → List (Text × Text)
keys_of s =
    (codes "id", before_colon s) ∷ (codes "payload", drop (length (before_colon s) + 1) s) ∷ []

abbrev pub braces : Json
braces = record {
  object = λ s. some (keys_of (without_braces s));
  string = some;
  int = parse_int;
  array = λ s. some (s ∷ []);
  encode = λ b. some (line_of b.id (or_empty b.payload) ++ 10 ∷ []);
}

abbrev pub item : Text → Text → PutBsoInput
item id payload = record { id = id; payload = some payload; ttl = none; sort_index = none }

-- A request with a body of JSON
abbrev pub put_request : Request
put_request = record {
  header = λ name. if text_eq name (codes "Content-Type") then codes "application/json" else [];
  query = λ key. none;
}

abbrev pub body_of : Text → Body
body_of s = record { received = s; broken = false }
