-- ===== src/Web/Nonce.antt =====
-- web/hawkHandler.go: hawkNonceNotFound. The Bloom filters (willf/bloom) are a parameter. Times are
-- nanoseconds of a clock that does not go back.
pub mod Replay
use go_syncstorage.Prelude.{
  ℕ, ◌-◌, ◌*◌, ◌≡◌, Bool, true, false, ◌||◌, Option, none, some, ◌++◌, ltb, if◌then◌else◌,
}
use go_syncstorage.Prelude.Text.{Text}

pub record Bloom : Type 1 where
  pub Filter : Type 0
  pub empty : Filter
  pub test : Text → Filter → Bool
  pub add : Text → Filter → Filter
  pub clear : Filter → Filter

-- What a Bloom filter promises: it knows what was added to it.
pub record IsFilter (b : Bloom) : Type 0 where
  pub added : (k : Text) (f : b.Filter) → b.test k (b.add k f) ≡ true
  pub kept : (k other : Text) (f : b.Filter) → b.test k f ≡ true → b.test k (b.add other f) ≡ true

-- The key of a nonce, with the time as it is printed and the id of the credentials
unfoldable pub nonce_key : Text → Text → Option Text → Text
nonce_key nonce time none = nonce ++ time
nonce_key nonce time (some id) = (nonce ++ time) ++ id

module _ (b : Bloom) where
  -- The fields of HawkHandler for nonces
  pub record Nonces : Type 0 where
    pub bloom_prev : b.Filter
    pub bloom_now : b.Filter
    pub bloom_halflife : ℕ
    pub last_rotate : ℕ

  -- NewHawkHandler, at the time `now`: a half-life of 30 seconds
  unfoldable pub new_nonces : ℕ → Nonces
  new_nonces now = record {
    bloom_prev = b.empty;
    bloom_now = b.empty;
    bloom_halflife = 30 * 1000000000;
    last_rotate = now;
  }

  -- The part under the lock
  unfoldable pub rotate : ℕ → Nonces → Nonces
  rotate now h =
      if ltb h.bloom_halflife (now - h.last_rotate)
      then record h {
        bloom_prev = h.bloom_now;
        bloom_now = b.clear h.bloom_prev;
        last_rotate = now;
      }
      else h

  -- The two tests, and the note of a new key; both are outside of the lock.
  unfoldable pub is_seen : Text → Nonces → Bool
  is_seen key h = b.test key h.bloom_now || b.test key h.bloom_prev

  unfoldable pub note : Text → Nonces → Nonces
  note key h = record h { bloom_now = b.add key h.bloom_now }

  abbrev pub unless_seen : Bool → Text → Nonces → Bool × Nonces
  unless_seen seen key h = if seen then (false, h) else (true, note key h)

  -- hawkNonceNotFound, when no other call comes between
  unfoldable pub hawk_nonce_not_found : Text → ℕ → Nonces → Bool × Nonces
  hawk_nonce_not_found key now h = let h' = rotate now h in unless_seen (is_seen key h') key h'
