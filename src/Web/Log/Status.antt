-- ===== src/Web/Log/Status.antt =====
-- web/logHandler.go: what is logged of a response, and the response.
use go_syncstorage.Prelude.{
  ℕ, ◌+◌, ◌≡◌, ◌≢◌, refl, Bool, true, false, Option, none, some, List, [], ◌∷◌, ◌++◌, ◌==◌, arith,
  length, length-append,
}
use go_syncstorage.Web.Weave.{
  Headers, Writer, http_write, http_write_header, set_header, WriterCall, sets, writes,
  writes_header,
}
use go_syncstorage.Web.Log.{
  ResponseLogger, log_write, log_write_header, log_call, log_calls, make_logger,
}

-- The status that was sent, or 0
abbrev pub status_of : Option (ℕ × Headers) → ℕ
status_of none = 0
status_of (some (code, h)) = code

-- A handler that writes a status only before anything else is sent, and no status 0
abbrev pub WritesOnce : Bool → List WriterCall → Type 0
WritesOnce sent [] = Unit
WritesOnce sent (sets k x ∷ more) = WritesOnce sent more
WritesOnce sent (writes b ∷ more) = WritesOnce true more
WritesOnce true (writes_header code ∷ more) = ⊥
WritesOnce false (writes_header code ∷ more) = (code ≢ 0) × WritesOnce true more

-- The log agrees with the response, of which nothing was sent, or something.
data Agrees : Bool → ResponseLogger → Type 0 where
  nothing :
      (l : ResponseLogger)
      → l.status ≡ 0
      → l.w.sent ≡ none
      → l.size ≡ length l.w.body
      → Agrees false l
  something :
      (l : ResponseLogger) (code : ℕ) (h : Headers)
      → l.status ≡ code
      → code ≢ 0
      → l.w.sent ≡ some (code, h)
      → l.size ≡ length l.w.body
      → Agrees true l

longer :
    (l : ResponseLogger) (b : List ℕ)
    → l.size ≡ length l.w.body
    → l.size + length b ≡ length (l.w.body ++ b)
longer l b e = rw (length-append l.w.body b, e) refl

nonzero : (code : ℕ) → code ≢ 0 → (code == 0) ≡ false
nonzero code n = ground arith

written-Agrees :
    (sent : Bool) (b : List ℕ) (l : ResponseLogger) → Agrees sent l → Agrees true (log_write b l)
unfolding log_write http_write
written-Agrees _ b l (nothing _ s n z) =
    something _ 200 l.w.headers (rw s refl) (omega arith) (rw n refl) (longer l b z)
written-Agrees _ b l (something _ code h s c n z) =
    something _ code h (rw (s, nonzero code c) refl) c (rw n refl) (longer l b z)

header-Agrees :
    (code : ℕ) (l : ResponseLogger)
    → code ≢ 0
    → Agrees false l
    → Agrees true (log_write_header code l)
unfolding log_write_header http_write_header
header-Agrees code l c (nothing _ s n z) = something _ code l.w.headers refl c (rw n refl) z

set-Agrees :
    (sent : Bool) (k x : List ℕ) (l : ResponseLogger)
    → Agrees sent l
    → Agrees sent (record l { w = set_header k x l.w })
set-Agrees _ k x l (nothing _ s n z) = nothing _ s n z
set-Agrees _ k x l (something _ code h s c n z) = something _ code h s c n z

log_calls-Agrees :
    (sent : Bool) (calls : List WriterCall) (l : ResponseLogger)
    → WritesOnce sent calls
    → Agrees sent l
    → (after : Bool) × Agrees after (log_calls calls l)
unfolding log_calls log_call
log_calls-Agrees sent [] l once h = (sent, h)
log_calls-Agrees sent (sets k x ∷ more) l once h =
    log_calls-Agrees sent more _ once (set-Agrees sent k x l h)
log_calls-Agrees sent (writes b ∷ more) l once h =
    log_calls-Agrees true more _ once (written-Agrees sent b l h)
log_calls-Agrees true (writes_header code ∷ more) l once h = elim once [ ]
log_calls-Agrees false (writes_header code ∷ more) l (c, once) h =
    log_calls-Agrees true more _ once (header-Agrees code l c h)

agreeing :
    (sent : Bool) (l : ResponseLogger)
    → Agrees sent l
    → (l.status ≡ status_of l.w.sent) × (l.size ≡ length l.w.body)
agreeing _ l (nothing _ s n z) = (rw (s, n) refl, z)
agreeing _ l (something _ code h s c n z) = (rw (s, n) refl, z)

-- Of a handler that writes a status only once, and before it writes anything else, the log has the
-- status that was sent, or 0 if nothing was sent, and the length of the body that was written.
pub log_calls_lem :
    (calls : List WriterCall) (w : Writer)
    → WritesOnce false calls
    → w.sent ≡ none
    → w.body ≡ []
    → ((log_calls calls (make_logger w)).status
        ≡ status_of (log_calls calls (make_logger w)).w.sent)
      × ((log_calls calls (make_logger w)).size ≡ length (log_calls calls (make_logger w)).w.body)
log_calls_lem calls w once n empty =
    let (after, h) =
      log_calls-Agrees false calls (make_logger w) once
        (unfold make_logger in nothing (make_logger w) refl n (rw empty refl)) in
    agreeing after _ h
