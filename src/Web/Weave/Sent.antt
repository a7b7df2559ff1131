-- ===== src/Web/Weave/Sent.antt =====
-- web/weaveHandler.go: the writer, up to what it sends.
use mathlib.Core.Path.{subst}
use go_syncstorage.Prelude.{
  ℕ, ◌≡◌, ◌≢◌, refl, sym, inl, inr, Bool, true, false, Option, none, some, if◌then◌else◌,
  Bool-cases,
}
use go_syncstorage.Prelude.Text.{Text, codes, text_eq}
use go_syncstorage.Prelude.Assoc.{find_key, put_key, find_key-remove_key}
use go_syncstorage.Web.Weave.{
  Headers, header_get, Writer, http_write_header, http_write, WeaveWriter, x_last_modified,
  x_weave_timestamp, timestamp_or, add_x_weave_timestamp, pass_write, is_bare_404, pass_header,
  send_header, set_header, answer_unknown, timestamped,
}

module _ (now : Text) (media_type : Text → Text) where
  -- The headers have the timestamp that goes with their X-Last-Modified.
  abbrev pub HasTimestamp : Headers → Type 0
  HasTimestamp h =
      find_key x_weave_timestamp h ≡ some (timestamp_or now (header_get x_last_modified h))

  abbrev pub SentFits : Option (ℕ × Headers) → Type 0
  SentFits none = Unit
  SentFits (some (code, h)) = HasTimestamp h

  -- The timestamp is written when something is sent, and not before; only then are writes disabled.
  pub record IsTimed (v : WeaveWriter) : Type 0 where
    pub fits : SentFits v.w.sent
    pub unsent : v.wrote_ts ≡ false → v.w.sent ≡ none
    pub closed : v.wrote_ts ≡ true → v.w.sent ≢ none
    pub muted : v.disable_writes ≡ true → v.w.sent ≢ none

  -- Behind addXWeaveTimestamp
  pub record IsMarked (v : WeaveWriter) : Type 0 where
    pub fits : SentFits v.w.sent
    pub marked : v.wrote_ts ≡ true
    pub ready : v.w.sent ≡ none → HasTimestamp v.w.headers
    pub muted : v.disable_writes ≡ true → v.w.sent ≢ none

  get_other :
      (k j x : Text) (h : Headers)
      → text_eq j k ≡ false
      → header_get j (put_key k x h) ≡ header_get j h
  unfolding header_get
  get_other k j x h e = rw (e, if◌then◌else◌, find_key-remove_key k j h, e) refl

  find_other :
      (k j x : Text) (h : Headers) → text_eq j k ≡ false → find_key j (put_key k x h) ≡ find_key j h
  find_other k j x h e = rw (e, if◌then◌else◌, find_key-remove_key k j h, e) refl

  apart : text_eq x_last_modified x_weave_timestamp ≡ false
  unfolding text_eq
  apart = refl

  own_key : text_eq x_weave_timestamp x_weave_timestamp ≡ true
  unfolding text_eq
  own_key = refl

  timestamp-set :
      (h : Headers)
      → HasTimestamp (put_key x_weave_timestamp (timestamp_or now (header_get x_last_modified h)) h)
  timestamp-set h =
      rw
        (
          own_key,
          if◌then◌else◌,
          get_other x_weave_timestamp x_last_modified
              (timestamp_or now (header_get x_last_modified h)) h apart,
        )
        refl

  timestamp-kept :
      (k x : Text) (h : Headers)
      → text_eq x_weave_timestamp k ≡ false
      → text_eq x_last_modified k ≡ false
      → HasTimestamp h
      → HasTimestamp (put_key k x h)
  timestamp-kept k x h e n t =
      rw (find_other k x_weave_timestamp x h e, get_other k x_last_modified x h n) t

  added_fits : (v : WeaveWriter) → IsTimed v → v.wrote_ts ≡ true → IsMarked v
  added_fits v t e = record {
    fits = t.fits;
    marked = e;
    ready = λ n. absurd (t.closed e n);
    muted = t.muted;
  }

  pub add-IsMarked :
      (v : WeaveWriter) → IsTimed v → IsMarked (add_x_weave_timestamp now media_type v)
  unfolding add_x_weave_timestamp
  add-IsMarked v t = elim (Bool-cases v.wrote_ts) [
    | inl y ↦
        subst (λ b. IsMarked (if b then v else timestamped now media_type v)) (sym y)
          (added_fits v t y)
    | inr y ↦
        subst (λ b. IsMarked (if b then v else timestamped now media_type v)) (sym y)
          (record {
            fits = t.fits;
            marked = refl;
            ready = λ n. timestamp-set v.w.headers;
            muted = t.muted;
          })
  ]

  sent_fits :
      (code : ℕ) (o : Option (ℕ × Headers)) (h : Headers)
      → SentFits o
      → (o ≡ none → HasTimestamp h)
      → SentFits (send_header code o h)
  sent_fits code none h f t = t refl
  sent_fits code (some s) h f t = f

  pub is_sent : (code : ℕ) (o : Option (ℕ × Headers)) (h : Headers) → send_header code o h ≢ none
  is_sent code none h e = cc
  is_sent code (some s) h e = cc

  pub sent-IsMarked :
      (code : ℕ) (v : WeaveWriter)
      → IsMarked v
      → IsMarked (record v { w = http_write_header code v.w })
  unfolding http_write_header
  sent-IsMarked code v m = record {
    fits = sent_fits code v.w.sent v.w.headers m.fits m.ready;
    marked = m.marked;
    ready = λ n. absurd (is_sent code v.w.sent v.w.headers n);
    muted = λ y. is_sent code v.w.sent v.w.headers;
  }

  -- Something is sent.
  sent-IsTimed :
      (code : ℕ) (v : WeaveWriter) (w : Writer) (d : Bool)
      → IsMarked v
      → (w.sent ≡ send_header code v.w.sent v.w.headers)
      → IsTimed (record v { w = w; disable_writes = d })
  sent-IsTimed code v w d m e = record {
    fits = rw e (sent_fits code v.w.sent v.w.headers m.fits m.ready);
    unsent = λ n. absurd (cc (m.marked));
    closed = λ y. rw e (is_sent code v.w.sent v.w.headers);
    muted = λ y. rw e (is_sent code v.w.sent v.w.headers);
  }

  passed-IsTimed : (v : WeaveWriter) → IsMarked v → v.disable_writes ≡ true → IsTimed v
  passed-IsTimed v m e = record {
    fits = m.fits;
    unsent = λ n. absurd (cc (m.marked));
    closed = λ y. m.muted e;
    muted = m.muted;
  }

  pub pass_write-IsTimed :
      (b : Text) (v : WeaveWriter) → IsMarked v → IsTimed (pass_write now media_type b v)
  unfolding http_write
  pass_write-IsTimed b v m = elim (Bool-cases v.disable_writes) [
    | inl y ↦
        subst (λ c. IsTimed (if c then v else record v { w = http_write b v.w })) (sym y)
          (passed-IsTimed v m y)
    | inr y ↦
        subst (λ c. IsTimed (if c then v else record v { w = http_write b v.w })) (sym y)
          (sent-IsTimed 200 v (http_write b v.w) v.disable_writes m refl)
  ]

  typed-IsMarked :
      (x : Text) (v : WeaveWriter)
      → IsMarked v
      → IsMarked (record v { w = set_header (codes "Content-Type") x v.w })
  unfolding text_eq
  typed-IsMarked x v m = record {
    fits = m.fits;
    marked = m.marked;
    ready = λ n. timestamp-kept (codes "Content-Type") x v.w.headers refl refl (m.ready n);
    muted = m.muted;
  }

  pub pass_header-IsTimed :
      (code : ℕ) (v : WeaveWriter) → IsMarked v → IsTimed (pass_header now media_type code v)
  unfolding http_write http_write_header
  pass_header-IsTimed code v m = elim (Bool-cases (is_bare_404 now media_type code v)) [
    | inl y ↦
        subst
          (λ c. IsTimed (
            if c
            then answer_unknown now media_type code v
            else record v { w = http_write_header code v.w }))
          (sym y)
          (sent-IsTimed 200
            (record v {
              w =
                  http_write_header code
                    (set_header (codes "Content-Type") (codes "application/json") v.w);
            })
            (answer_unknown now media_type code v).w true
            (sent-IsMarked code
              (record v { w = set_header (codes "Content-Type") (codes "application/json") v.w })
              (typed-IsMarked (codes "application/json") v m))
            refl)
    | inr y ↦
        subst
          (λ c. IsTimed (
            if c
            then answer_unknown now media_type code v
            else record v { w = http_write_header code v.w }))
          (sym y) (sent-IsTimed code v (http_write_header code v.w) v.disable_writes m refl)
  ]
