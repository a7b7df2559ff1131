-- ===== src/Web/Weave.antt =====
-- web/weaveHandler.go: the writer that stands between a handler and the client. The writer behind it is
-- net/http's: the headers are sent with the first status, and a body without one has status 200.
pub mod Sent
pub mod Timestamp
use go_syncstorage.Prelude.{
  ℕ, Bool, true, false, ◌&&◌, not, Option, none, some, List, [], ◌∷◌, ◌++◌, ◌==◌, if◌then◌else◌,
}
use go_syncstorage.Prelude.Text.{Text, codes, text_eq}
use go_syncstorage.Prelude.Assoc.{find_key, put_key}

abbrev pub Headers : Type 0
Headers = List (Text × Text)

-- Header().Get
abbrev pub header_or_empty : Option Text → Text
header_or_empty none = []
header_or_empty (some v) = v

unfoldable pub header_get : Text → Headers → Text
header_get k h = header_or_empty (find_key k h)

-- http.ResponseWriter: the headers so far, what was sent with the status, and the body
pub record Writer : Type 0 where
  pub headers : Headers
  pub sent : Option (ℕ × Headers)
  pub body : Text

abbrev pub send_header : ℕ → Option (ℕ × Headers) → Headers → Option (ℕ × Headers)
send_header code none h = some (code, h)
send_header code (some s) h = some s

-- WriteHeader and Write of net/http
unfoldable pub http_write_header : ℕ → Writer → Writer
http_write_header code w = record w { sent = send_header code w.sent w.headers }

unfoldable pub http_write : Text → Writer → Writer
http_write b w = record w { sent = send_header 200 w.sent w.headers; body = w.body ++ b }

abbrev pub set_header : Text → Text → Writer → Writer
set_header k v w = record w { headers = put_key k v w.headers }

-- weaveWriter
pub record WeaveWriter : Type 0 where
  pub w : Writer
  pub wrote_ts : Bool
  pub wrote_header : Bool
  pub disable_writes : Bool

abbrev pub x_last_modified : Text
x_last_modified = codes "X-Last-Modified"

abbrev pub x_weave_timestamp : Text
x_weave_timestamp = codes "X-Weave-Timestamp"

-- X-Last-Modified, or the time `now`
abbrev pub timestamp_or : Text → Text → Text
timestamp_or now [] = now
timestamp_or now (c ∷ lm) = c ∷ lm

-- WEAVE_UNKNOWN_ERROR
abbrev pub weave_unknown_error : Text
weave_unknown_error = codes "0"

-- What a handler does with its writer
pub data WriterCall : Type 0 where
  sets : Text → Text → WriterCall
  writes : Text → WriterCall
  writes_header : ℕ → WriterCall

-- With ModifiedToString(Now()) of the request, and mime.ParseMediaType
module _ (now : Text) (media_type : Text → Text) where
  abbrev pub timestamped : WeaveWriter → WeaveWriter
  timestamped v = record v {
    w =
        set_header x_weave_timestamp (timestamp_or now (header_get x_last_modified v.w.headers))
          v.w;
    wrote_ts = true;
  }

  -- addXWeaveTimestamp
  unfoldable pub add_x_weave_timestamp : WeaveWriter → WeaveWriter
  unfolding header_get
  add_x_weave_timestamp v = if v.wrote_ts then v else timestamped v

  abbrev pub pass_write : Text → WeaveWriter → WeaveWriter
  pass_write b v = if v.disable_writes then v else record v { w = http_write b v.w }

  -- Write
  unfoldable pub weave_write : Text → WeaveWriter → WeaveWriter
  unfolding http_write
  weave_write b v = pass_write b (add_x_weave_timestamp v)

  abbrev pub is_bare_404 : ℕ → WeaveWriter → Bool
  is_bare_404 code v =
      code == 404
      && not (
          text_eq (media_type (header_get (codes "Content-Type") v.w.headers))
            (codes "application/json"))

  abbrev pub answer_unknown : ℕ → WeaveWriter → WeaveWriter
  answer_unknown code v = record v {
    w =
        http_write weave_unknown_error (
          http_write_header code
            (set_header (codes "Content-Type") (codes "application/json") v.w));
    disable_writes = true;
  }

  abbrev pub pass_header : ℕ → WeaveWriter → WeaveWriter
  pass_header code v =
      if is_bare_404 code v
      then answer_unknown code v
      else record v { w = http_write_header code v.w }

  -- WriteHeader
  unfoldable pub weave_write_header : ℕ → WeaveWriter → WeaveWriter
  unfolding http_write http_write_header header_get
  weave_write_header code v =
      if v.wrote_header
      then v
      else pass_header code (add_x_weave_timestamp (record v { wrote_header = true }))

  unfoldable pub weave_call : WriterCall → WeaveWriter → WeaveWriter
  weave_call (sets k x) v = record v { w = set_header k x v.w }
  weave_call (writes b) v = weave_write b v
  weave_call (writes_header code) v = weave_write_header code v

  unfoldable pub weave_calls : List WriterCall → WeaveWriter → WeaveWriter
  weave_calls [] v = v
  weave_calls (x ∷ more) v = weave_calls more (weave_call x v)

  -- ServeHTTP of WeaveWrapperHandler, with the calls that the handler makes; what was not sent is sent
  -- by net/http at the end.
  unfoldable pub weave_serve_http : List WriterCall → Writer → Writer
  weave_serve_http calls w =
      let v =
        weave_calls calls
          (record { w = w; wrote_ts = false; wrote_header = false; disable_writes = false }) in
      http_write_header 200 (add_x_weave_timestamp v).w
