-- ===== src/Web/Nonce/Replay.antt =====
-- web/hawkHandler.go: sequences of calls of hawkNonceNotFound.
use go_syncstorage.Prelude.{
  ℕ, ◌+◌, ◌-◌, ◌≤◌, ◌≡◌, refl, ◌∙◌, inl, inr, Bool, true, false, List, [], ◌∷◌, arith, ltb,
  if◌then◌else◌, Bool-cases,
}
use go_syncstorage.Prelude.Text.{Text}
use go_syncstorage.Web.Nonce.{
  Bloom, IsFilter, Nonces, rotate, is_seen, note, unless_seen, hawk_nonce_not_found,
}

module _ (b : Bloom) (law : IsFilter b) where
  -- The key was accepted at `t`, and is still known.
  data Knows (key : Text) (t : ℕ) (h : Nonces b) : Type 0 where
    in_now : b.test key h.bloom_now ≡ true → Knows key t h
    in_prev : b.test key h.bloom_prev ≡ true → t ≤ h.last_rotate → Knows key t h

  rotate-Knows :
      (key : Text) (t now : ℕ) (h : Nonces b)
      → t ≤ now
      → now ≤ t + h.bloom_halflife
      → Knows key t h
      → Knows key t (rotate b now h)
  unfolding rotate
  rotate-Knows key t now h after soon (in_now k) =
      elim (Bool-cases (ltb h.bloom_halflife (now - h.last_rotate))) [
        | inl turn ↦ rw (turn, if◌then◌else◌) (in_prev k after)
        | inr stay ↦ rw (stay, if◌then◌else◌) (in_now k)
      ]
  rotate-Knows key t now h after soon (in_prev k since) =
      let stay : ltb h.bloom_halflife (now - h.last_rotate) ≡ false = ground arith in
      rw (stay, if◌then◌else◌) (in_prev k since)

  Knows-seen : (key : Text) (t : ℕ) (h : Nonces b) → Knows key t h → is_seen b key h ≡ true
  unfolding is_seen
  Knows-seen key t h (in_now k) = rw k refl
  Knows-seen key t h (in_prev k since) = ground arith

  note-Knows :
      (key other : Text) (t : ℕ) (h : Nonces b) → Knows key t h → Knows key t (note b other h)
  unfolding note
  note-Knows key other t h (in_now k) = in_now (law.kept key other h.bloom_now k)
  note-Knows key other t h (in_prev k since) = in_prev k since

  unless_seen-Knows :
      (seen : Bool) (key other : Text) (t : ℕ) (h : Nonces b)
      → Knows key t h
      → Knows key t (unless_seen b seen other h).1
  unless_seen-Knows true key other t h k = k
  unless_seen-Knows false key other t h k = note-Knows key other t h k

  accepted-Knows :
      (seen : Bool) (key : Text) (t : ℕ) (h : Nonces b)
      → (unless_seen b seen key h).0 ≡ true
      → Knows key t (unless_seen b seen key h).1
  unfolding note
  accepted-Knows true key t h e = absurd (cc)
  accepted-Knows false key t h e = in_now (law.added key h.bloom_now)

  call-Knows :
      (key other : Text) (t now : ℕ) (h : Nonces b)
      → t ≤ now
      → now ≤ t + h.bloom_halflife
      → Knows key t h
      → Knows key t (hawk_nonce_not_found b other now h).1
  unfolding hawk_nonce_not_found
  call-Knows key other t now h after soon k =
      unless_seen-Knows (is_seen b other (rotate b now h)) key other t (rotate b now h)
        (rotate-Knows key t now h after soon k)

  halflife_same :
      (key : Text) (now : ℕ) (h : Nonces b)
      → (hawk_nonce_not_found b key now h).1.bloom_halflife ≡ h.bloom_halflife
  unfolding hawk_nonce_not_found rotate is_seen note
  halflife_same key now h = ground arith

  -- Calls, each with its key and its time
  pub calls : List (Text × ℕ) → Nonces b → Nonces b
  calls [] h = h
  calls ((key, now) ∷ more) h = calls more (hawk_nonce_not_found b key now h).1

  -- All of them come between two times.
  abbrev pub AllBetween : ℕ → ℕ → List (Text × ℕ) → Type 0
  AllBetween from to [] = Unit
  AllBetween from to ((key, now) ∷ more) = (from ≤ now) × (now ≤ to) × AllBetween from to more

  calls-Knows :
      (key : Text) (t limit : ℕ) (more : List (Text × ℕ)) (h : Nonces b)
      → limit ≤ t + h.bloom_halflife
      → AllBetween t limit more
      → Knows key t h
      → Knows key t (calls more h) × ((calls more h).bloom_halflife ≡ h.bloom_halflife)
  unfolding calls
  calls-Knows key t limit [] h soon all k = (k, refl)
  calls-Knows key t limit ((other, now) ∷ more) h soon (from, to, rest) k =
      let h' = (hawk_nonce_not_found b other now h).1 in
      let same = halflife_same other now h in
      let (known, kept) =
        calls-Knows key t limit more h' (omega (arith, same)) rest
          (call-Knows key other t now h from (omega arith) k) in
      (known, kept ∙ same)

  first_call :
      (key : Text) (t : ℕ) (h : Nonces b)
      → (hawk_nonce_not_found b key t h).0 ≡ true
      → Knows key t (hawk_nonce_not_found b key t h).1
  unfolding hawk_nonce_not_found
  first_call key t h new = accepted-Knows (is_seen b key (rotate b t h)) key t (rotate b t h) new

  seen_call :
      (key : Text) (now : ℕ) (h : Nonces b)
      → is_seen b key (rotate b now h) ≡ true
      → (hawk_nonce_not_found b key now h).0 ≡ false
  unfolding hawk_nonce_not_found
  seen_call key now h seen = rw seen refl

  -- A key that was accepted at the time `t` is refused by every call that comes up to a half-life
  -- later, whatever other calls come between.
  pub hawk_nonce_not_found_lem :
      (key : Text) (t now : ℕ) (between : List (Text × ℕ)) (h : Nonces b)
      → (hawk_nonce_not_found b key t h).0 ≡ true
      → t ≤ now
      → now ≤ t + h.bloom_halflife
      → AllBetween t now between
      → (hawk_nonce_not_found b key now (calls between (hawk_nonce_not_found b key t h).1)).0
        ≡ false
  hawk_nonce_not_found_lem key t now between h new after soon all =
      let h1 = (hawk_nonce_not_found b key t h).1 in
      let same = halflife_same key t h in
      let (known, kept) =
        calls-Knows key t now between h1 (omega (arith, same)) all (first_call key t h new) in
      let h2 = calls between h1 in
      seen_call key now h2 (
        Knows-seen key t (rotate b now h2)
          (rotate-Knows key t now h2 after (omega (arith, same, kept)) known))
