-- ===== src/Web/Weave/Timestamp.antt =====
-- web/weaveHandler.go: X-Weave-Timestamp of a response.
use mathlib.Core.Path.{subst}
use go_syncstorage.Prelude.{
  ℕ, ◌≡◌, ◌≢◌, refl, sym, true, false, Option, none, some, List, [], ◌∷◌, if◌then◌else◌,
}
use go_syncstorage.Prelude.Text.{Text}
use go_syncstorage.Web.Weave.{
  Headers, Writer, http_write_header, WeaveWriter, WriterCall, sets, writes, writes_header,
  add_x_weave_timestamp, weave_write, pass_header, weave_write_header, weave_call, weave_calls,
  weave_serve_http,
}
use go_syncstorage.Web.Weave.Sent.{
  HasTimestamp, SentFits, IsTimed, add-IsMarked, is_sent, sent-IsMarked, pass_write-IsTimed,
  pass_header-IsTimed,
}

module _ (now : Text) (media_type : Text → Text) where
  headed-IsTimed :
      (v : WeaveWriter)
      → IsTimed now media_type v
      → IsTimed now media_type (record v { wrote_header = true })
  headed-IsTimed v t = record {
    fits = t.fits;
    unsent = t.unsent;
    closed = t.closed;
    muted = t.muted;
  }

  weave_write_header-IsTimed :
      (code : ℕ) (v : WeaveWriter)
      → IsTimed now media_type v
      → IsTimed now media_type (weave_write_header now media_type code v)
  unfolding weave_write_header
  weave_write_header-IsTimed code v t =
      let passed =
        pass_header-IsTimed now media_type code
          (add_x_weave_timestamp now media_type (record v { wrote_header = true }))
          (add-IsMarked now media_type (record v { wrote_header = true }) (headed-IsTimed v t)) in
      elim v.wrote_header
        as (λ c. IsTimed now media_type (
          if c
          then v
          else pass_header now media_type code
              (add_x_weave_timestamp now media_type (record v { wrote_header = true })))) [
                | true ↦ t
                | false ↦ passed
              ]

  weave_call-IsTimed :
      (x : WriterCall) (v : WeaveWriter)
      → IsTimed now media_type v
      → IsTimed now media_type (weave_call now media_type x v)
  unfolding weave_call weave_write
  weave_call-IsTimed (sets k x) v t = record {
    fits = t.fits;
    unsent = t.unsent;
    closed = t.closed;
    muted = t.muted;
  }
  weave_call-IsTimed (writes b) v t =
      pass_write-IsTimed now media_type b (add_x_weave_timestamp now media_type v)
        (add-IsMarked now media_type v t)
  weave_call-IsTimed (writes_header code) v t = weave_write_header-IsTimed code v t

  weave_calls-IsTimed :
      (calls : List WriterCall) (v : WeaveWriter)
      → IsTimed now media_type v
      → IsTimed now media_type (weave_calls now media_type calls v)
  unfolding weave_calls
  weave_calls-IsTimed [] v t = t
  weave_calls-IsTimed (x ∷ more) v t =
      weave_calls-IsTimed more (weave_call now media_type x v) (weave_call-IsTimed x v t)

  fresh-IsTimed :
      (w : Writer)
      → w.sent ≡ none
      → IsTimed now media_type
          (record { w = w; wrote_ts = false; wrote_header = false; disable_writes = false })
  fresh-IsTimed w n = record {
    fits = subst (SentFits now media_type) (sym n) tt;
    unsent = λ e. n;
    closed = λ e. absurd cc;
    muted = λ e. absurd cc;
  }

  -- Something was sent, and it has the timestamp.
  abbrev pub IsStamped : Option (ℕ × Headers) → Type 0
  IsStamped none = ⊥
  IsStamped (some (code, h)) = HasTimestamp now media_type h

  sent-IsStamped : (o : Option (ℕ × Headers)) → SentFits now media_type o → o ≢ none → IsStamped o
  sent-IsStamped none f n = n refl
  sent-IsStamped (some (code, h)) f n = f

  -- Whatever a handler does with its writer, and in whatever order (it sets headers, the timestamp's
  -- or X-Last-Modified too, before or after it writes, sends a status twice or none at all, or a 404
  -- whose body is replaced), a response that nothing was sent of before is sent, and the headers that
  -- go out have an X-Weave-Timestamp that is their X-Last-Modified where they have one, and the time
  -- of the request otherwise.
  pub weave_serve_http_lem :
      (calls : List WriterCall) (w : Writer)
      → w.sent ≡ none
      → IsStamped (weave_serve_http now media_type calls w).sent
  unfolding weave_serve_http http_write_header
  weave_serve_http_lem calls w n =
      let v : WeaveWriter = record {
        w = w;
        wrote_ts = false;
        wrote_header = false;
        disable_writes = false;
      } in
      let after = add_x_weave_timestamp now media_type (weave_calls now media_type calls v) in
      sent-IsStamped (weave_serve_http now media_type calls w).sent
        (sent-IsMarked now media_type 200 after (
          add-IsMarked now media_type (weave_calls now media_type calls v)
            (weave_calls-IsTimed calls v (fresh-IsTimed w n)))).fits
        (is_sent now media_type 200 after.w.sent after.w.headers)
