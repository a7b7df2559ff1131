-- ===== src/Web/Log.antt =====
-- web/logHandler.go: the writer that remembers the status and the size of a response for the log, and
-- the error number that is logged. Connections that are taken over (Hijack) are not modelled.
pub mod Status
use go_syncstorage.Prelude.{ℕ, ◌+◌, Bool, false, ◌||◌, List, [], ◌∷◌, ◌==◌, length, if◌then◌else◌}
use go_syncstorage.Web.Weave.{
  Writer, http_write, http_write_header, set_header, WriterCall, sets, writes, writes_header,
}

-- responseLogger
pub record ResponseLogger : Type 0 where
  pub w : Writer
  pub status : ℕ
  pub size : ℕ

-- Write, when the connection takes all bytes
unfoldable pub log_write : List ℕ → ResponseLogger → ResponseLogger
unfolding http_write
log_write b l = record l {
  w = http_write b l.w;
  status = if l.status == 0 then 200 else l.status;
  size = l.size + length b;
}

-- WriteHeader
unfoldable pub log_write_header : ℕ → ResponseLogger → ResponseLogger
unfolding http_write_header
log_write_header code l = record l { w = http_write_header code l.w; status = code }

unfoldable pub log_call : WriterCall → ResponseLogger → ResponseLogger
log_call (sets k x) l = record l { w = set_header k x l.w }
log_call (writes b) l = log_write b l
log_call (writes_header code) l = log_write_header code l

unfoldable pub log_calls : List WriterCall → ResponseLogger → ResponseLogger
unfolding log_call
log_calls [] l = l
log_calls (x ∷ more) l = log_calls more (log_call x l)

-- makeLogger
unfoldable pub make_logger : Writer → ResponseLogger
make_logger w = record { w = w; status = 0; size = 0 }

abbrev pub is_among : ℕ → List ℕ → Bool
is_among n [] = false
is_among n (m ∷ list) = n == m || is_among n list

-- The status of a success has errno 0.
unfoldable pub errno_of : ℕ → ℕ
errno_of status =
    if is_among status (200 ∷ 201 ∷ 202 ∷ 203 ∷ 204 ∷ 205 ∷ 206 ∷ 207 ∷ 208 ∷ 226 ∷ [])
    then 0
    else status
