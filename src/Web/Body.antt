-- ===== src/Web/Body.antt =====
-- web/misc.go: parseIntoBSO; web/syncUserHandler_misc.go: RequestToPostBSOInput. encoding/json is a
-- parameter.
use go_syncstorage.Prelude.{
  ℕ, ◌*◌, Bool, false, ◌||◌, Option, none, some, List, [], ◌∷◌, ◌++◌, ltb, length, if◌then◌else◌,
}
use go_syncstorage.Prelude.Int.{ℤ, pos, mul_int}
use go_syncstorage.Prelude.Text.{Text, codes, text_eq}
use go_syncstorage.Prelude.Assoc.{find_key, put_key}
use go_syncstorage.Storage.Data.{PutBsoInput, Error}
use go_syncstorage.Web.Http.{Request}
use go_syncstorage.Web.Lines.{read_newline_json}

-- What the program asks of encoding/json: Unmarshal into a map of raw values, a string or an int,
-- Decode of an array of raw values from the start of a text, and Encode of a PutBSOInput
pub record Json : Type 0 where
  pub object : Text → Option (List (Text × Text))
  pub string : Text → Option Text
  pub int : Text → Option ℤ
  pub array : Text → Option (List Text)
  pub encode : PutBsoInput → Option Text

-- A request's body: the bytes that came, and whether reading them ended in an error
pub record Body : Type 0 where
  pub received : Text
  pub broken : Bool

-- parseError
pub record ParseError : Type 0 where
  pub b_id : Text
  pub field : Text
  pub message : Text

pub data Parsed (A : Type 0) : Type 0 where
  parsed : A → Parsed A
  unparsed : ParseError → Parsed A

abbrev pub after_parse : {A B : Type 0} → Parsed A → (A → Parsed B) → Parsed B
after_parse (parsed a) f = f a
after_parse (unparsed e) f = unparsed e

abbrev pub invalid_format : {A : Type 0} → Text → Text → Parsed A
invalid_format id field =
    unparsed (record { b_id = id; field = field; message = codes "Invalid format" })

-- The keys that an object may have
abbrev pub is_known_key : Text → Bool
is_known_key k =
    text_eq k (codes "id")
    || text_eq k (codes "payload")
    || text_eq k (codes "ttl")
    || text_eq k (codes "sortindex")
    || text_eq k (codes "modified")

-- The first key that is not allowed, in the order in which the map is gone through
unfoldable pub unknown_key : List (Text × Text) → Option Text
unknown_key [] = none
unknown_key ((k, raw) ∷ rest) =
    let later = unknown_key rest in if is_known_key k then later else some k

abbrev pub is_null : Text → Bool
is_null raw = text_eq raw (codes "null")

abbrev pub read_value : {A : Type 0} → Text → Text → Option A → Parsed (Option A)
read_value id field none = invalid_format id field
read_value id field (some a) = parsed (some a)

-- The values of one object, without those that are not there
module _ (j : Json) where
  abbrev pub id_of : Option Text → Parsed Text
  id_of none = parsed []
  id_of (some raw) = elim (j.string raw) [
    | none ↦ invalid_format [] (codes "id")
    | some id ↦ if is_null raw then invalid_format [] (codes "id") else parsed id
  ]

  abbrev pub payload_of : Text → Option Text → Parsed (Option Text)
  payload_of id none = parsed none
  payload_of id (some raw) = read_value id (codes "payload") (j.string raw)

  -- Null is read as 100 years, in seconds.
  abbrev pub ttl_of : Text → Option Text → Parsed (Option ℤ)
  ttl_of id none = parsed none
  ttl_of id (some raw) =
      if is_null raw
      then parsed (some (pos (100 * 365 * 24 * 60 * 60)))
      else read_value id (codes "ttl") (j.int raw)

  abbrev pub sort_index_of : Text → Option Text → Parsed (Option ℤ)
  sort_index_of id none = parsed none
  sort_index_of id (some raw) = read_value id (codes "sortindex") (j.int raw)

  abbrev pub parse_fields : List (Text × Text) → Parsed PutBsoInput
  parse_fields keys = after_parse (id_of (find_key (codes "id") keys)) λ id.
      after_parse (payload_of id (find_key (codes "payload") keys)) λ payload.
        after_parse (ttl_of id (find_key (codes "ttl") keys)) λ ttl.
          after_parse (sort_index_of id (find_key (codes "sortindex") keys)) λ sort_index.
            parsed (record { id = id; payload = payload; ttl = ttl; sort_index = sort_index })

  abbrev pub parse_keys : Option Text → List (Text × Text) → Parsed PutBsoInput
  parse_keys none keys = parse_fields keys
  parse_keys (some k) keys =
      unparsed (record { b_id = []; field = k; message = codes "invalid field" })

  -- parseIntoBSO
  unfoldable pub parse_into_bso : Text → Parsed PutBsoInput
  unfolding unknown_key
  parse_into_bso raw = elim (j.object raw) [
    | none ↦
        unparsed
          (record { b_id = []; field = codes "-"; message = codes "Could not parse into object" })
    | some keys ↦ parse_keys (unknown_key keys) keys
  ]

-- Why a BSO was not stored: a text of the web layer, or an error of the storage
pub data Reason : Type 0 where
  said : Text → Reason
  stored : Error → Reason

-- The map of failures
abbrev pub Failures : Type 0
Failures = List (Text × List Reason)

-- AddFailure
abbrev pub add_failure : Text → Text → Failures → Failures
add_failure id reason failures = put_key id (said reason ∷ []) failures

-- What RequestToPostBSOInput returns: the BSOs to store and the failures, or an error
pub data Items : Type 0 where
  items : List PutBsoInput → Failures → Items
  no_array : Items
  no_object : ParseError → Items

abbrev pub too_large : ℕ → Option Text → Bool
too_large max none = false
too_large max (some payload) = ltb max (length payload)

abbrev pub add_parsed : ℕ → Parsed PutBsoInput → Items → Items
add_parsed max p no_array = no_array
add_parsed max p (no_object e) = no_object e
add_parsed max (parsed b) (items list failures) =
    if too_large max b.payload
    then items list (add_failure b.id (codes "Payload too large") failures)
    else items (list ++ b ∷ []) failures
add_parsed max (unparsed e) (items list failures) =
    if text_eq e.field (codes "-")
    then no_object e
    else items list (add_failure e.b_id (codes "invalid " ++ e.field) failures)

-- Seconds to milliseconds, in 64 bits
abbrev pub in_milliseconds : Option ℤ → Option ℤ
in_milliseconds none = none
in_milliseconds (some ttl) = some (mul_int ttl (pos 1000))

abbrev pub with_milliseconds : PutBsoInput → PutBsoInput
with_milliseconds b = record b { ttl = in_milliseconds b.ttl }

abbrev pub map_items : (List PutBsoInput → List PutBsoInput) → Items → Items
map_items f (items list failures) = items (f list) failures
map_items f no_array = no_array
map_items f (no_object e) = no_object e

unfoldable pub all_in_milliseconds : List PutBsoInput → List PutBsoInput
all_in_milliseconds [] = []
all_in_milliseconds (b ∷ list) = with_milliseconds b ∷ all_in_milliseconds list

module _ (media_type : Text → Text) (j : Json) where
  -- The loop over the raw objects; an object that is none ends it.
  unfoldable pub sort_out : ℕ → List Text → Items → Items
  unfolding parse_into_bso
  sort_out max [] found = found
  sort_out max (raw ∷ rest) found = sort_out max rest (add_parsed max (parse_into_bso j raw) found)

  abbrev pub sort_out_all : ℕ → Option (List Text) → Items
  sort_out_all max none = no_array
  sort_out_all max (some raw) = sort_out max raw (items [] [])

  abbrev pub is_one_json : Text → Bool
  is_one_json ct = text_eq ct (codes "application/json") || text_eq ct (codes "text/plain")

  -- RequestToPostBSOInput
  unfoldable pub request_to_post_bso_input : ℕ → Request → Body → Items
  unfolding sort_out all_in_milliseconds
  request_to_post_bso_input max r body = map_items all_in_milliseconds (
      sort_out_all max (
        if is_one_json (media_type (r.header (codes "Content-Type")))
        then j.array body.received
        else some (read_newline_json body.received)))
