-- ===== src/Web/Cache/Header.antt =====
-- web/cacheHandler.go: the entry of a response, and the response that is made from it.
use go_syncstorage.Prelude.{
  ℕ, ◌-◌, ◌≡◌, ◌≢◌, refl, ap, false, [], ◌∷◌, ◌++◌, arith, ltb, length, take, drop, replicate,
  if◌then◌else◌, length-append, length-take, length-replicate, ◌≤◌,
}
use go_syncstorage.Prelude.Text.{Text}
use go_syncstorage.Web.Http.{Request, Floats, convert_timestamp}
use go_syncstorage.Web.NotModified.{sent_not_modified}
use go_syncstorage.Web.Cache.{
  CacheStore, written, Next, copied, entry_of, from_entry, or_zero, or_problem,
}

pub length-copied : (n : ℕ) (s : Text) → length (copied n s) ≡ n
unfolding copied
length-copied n s = omega (
  arith,
  length-append (take n s) (replicate (n - length s) 0),
  length-take n s,
  length-replicate {A = ℕ} (n - length s) 0,
)

take-length-append : (s t : Text) → take (length s) (s ++ t) ≡ s
take-length-append [] t = refl
take-length-append (c ∷ s) t = ap (λ x. c ∷ x) (take-length-append s t)

drop-length-append : (s t : Text) → drop (length s) (s ++ t) ≡ t
drop-length-append [] t = refl
drop-length-append (c ∷ s) t = drop-length-append s t

take_exact : (n : ℕ) (s t : Text) → length s ≡ n → take n (s ++ t) ≡ s
take_exact n s t h = rw (← h) (take-length-append s t)

drop_exact : (n : ℕ) (s t : Text) → length s ≡ n → drop n (s ++ t) ≡ t
drop_exact n s t h = rw (← h) (drop-length-append s t)

pub take-entry : (m body : Text) → take 13 (entry_of m body) ≡ copied 13 m
unfolding entry_of
take-entry m body = take_exact 13 (copied 13 m) body (length-copied 13 m)

pub drop-entry : (m body : Text) → drop 13 (entry_of m body) ≡ body
unfolding entry_of
drop-entry m body = drop_exact 13 (copied 13 m) body (length-copied 13 m)

long_entry : (m body : Text) → ltb (length (entry_of m body)) 13 ≡ false
unfolding entry_of
long_entry m body =
    let long : 13 ≤ length (copied 13 m ++ body) =
      omega (arith, length-append (copied 13 m) body, length-copied 13 m) in
    ground arith

-- An entry is not empty.
pub nonempty : (m body : Text) → entry_of m body ≢ []
nonempty m body e =
    let long : 13 ≤ length (entry_of m body) =
      unfold entry_of in omega (arith, length-append (copied 13 m) body, length-copied 13 m) in
    absurd (omega (arith, ap length e))

module _ (f : Floats) (store : CacheStore) (next : Next) where
  -- What is answered from the entry of a response: its own body, and its X-Last-Modified in the first
  -- 13 bytes, shorter ones with zero bytes behind them; unless the condition of the request, which is
  -- checked against that time or, if it cannot be read, against 0, leads to another answer.
  pub from_entry_lem :
      (r : Request) (m body : Text)
      → from_entry f store next r (entry_of m body)
        ≡ or_problem
            (sent_not_modified f r (or_zero (convert_timestamp f (copied 13 m))))
            (written 200 (copied 13 m) body)
  unfolding from_entry
  from_entry_lem r m body =
      rw (long_entry m body, if◌then◌else◌, take-entry m body, drop-entry m body) refl
