-- ===== src/Web/Cache/Hit.antt =====
-- web/cacheHandler.go: a hit of info/collections, and a read that overlaps a change.
use go_syncstorage.Prelude.{ℕ, ◌≡◌, ap, inl, inr, true, false, some, List, ◌∷◌, if◌then◌else◌}
use go_syncstorage.Prelude.Text.{Text, codes, text_eq}
use go_syncstorage.Web.Http.{Request, Floats, convert_timestamp}
use go_syncstorage.Web.NotModified.{sent_not_modified}
use go_syncstorage.Web.Cache.{
  CacheStore, Response, written, Next, copied, entry_of, Cached, from_entry, or_zero, or_problem,
  fill_info, info_collection, cache_serve_http, is_info_collections,
}
use go_syncstorage.Web.Cache.Header.{from_entry_lem}
use go_syncstorage.Web.Cache.Told.{Exchange, logged, last_told}
use go_syncstorage.Web.Cache.Coherent.{IsStore, IsCoherent, EntryFits}

module _ (f : Floats) (store : CacheStore) (next : Next) (law : IsStore store) where
  -- The answer made of a time and a list, or what the condition of the request leads to
  abbrev pub told_again : Request → Text → Text → Response
  told_again r m b =
      or_problem (sent_not_modified f r (or_zero (convert_timestamp f (copied 13 m))))
        (written 200 (copied 13 m) b)

  fitting_hit :
      (uid : Text) (r : Request) (log : List Exchange) (x : ℕ) (bytes : Text)
      → EntryFits f store next law uid log (some (x ∷ bytes))
      → (m : Text) × (b : Text) × (last_told uid log ≡ some (m, b))
        × (from_entry f store (logged next) r (x ∷ bytes) ≡ told_again r m b)
  fitting_hit uid r log x bytes (inl e) = absurd (cc)
  fitting_hit uid r log x bytes (inr (inl e)) = absurd (cc)
  fitting_hit uid r log x bytes (inr (inr (m, b, e, told))) =
      let same : x ∷ bytes ≡ entry_of m b = cc in
      (m, b, told, rw same (from_entry_lem f store (logged next) r m b))

  -- In a coherent cache a hit of info/collections is answered, without the handler behind the cache,
  -- with the list that this handler told the user last, no change of the user being served since, and
  -- with the first 13 bytes of the time told, a shorter one with zero bytes behind it; unless the
  -- condition of the request, checked against that time, leads to another answer.
  pub cache_serve_http-hit :
      (uid method path : Text) (r : Request) (c : store.Cache) (s : next.State)
      (log : List Exchange) (x : ℕ) (bytes : Text)
      → IsCoherent f store next law (c, (s, log))
      → text_eq (codes "config") uid ≡ false
      → is_info_collections method path ≡ true
      → store.get uid c ≡ some (x ∷ bytes)
      → (m : Text) × (b : Text) × (last_told uid log ≡ some (m, b))
        × (cache_serve_http f store (logged next) (some uid) method path r (c, (s, log))
            ≡ (told_again r m b, (c, (s, log))))
  unfolding cache_serve_http info_collection
  cache_serve_http-hit uid method path r c s log x bytes h proper route entry =
      let fits : EntryFits f store next law uid log (some (x ∷ bytes)) =
        rw entry at (h.fits uid proper) in
      let (m, b, told, answer) = fitting_hit uid r log x bytes fits in
      (m, b, told, rw (route, if◌then◌else◌, entry) (ap (λ a. (a, (c, (s, log)))) answer))

  -- A read with its answer fills the cache behind another request.
  abbrev pub fill_behind :
      Text → Response → Response × Cached f store (logged next) → Cached f store (logged next)
  fill_behind uid answer (other, (c, t)) = (fill_info f store (logged next) uid (answer, t) c).1

  -- A read of info/collections that missed has its answer; then a change is served, with the request
  -- `change`; then the read fills the cache.
  abbrev pub filled_late :
      Text
      → Text
      → Text
      → Request
      → Text
      → Text
      → Request
      → Cached f store (logged next)
      → Cached f store (logged next)
  filled_late uid method path r change_method change_path change (c, t) =
      let (answer, t1) = (logged next).serve uid method path r t in
      fill_behind uid answer
        (cache_serve_http f store (logged next) (some uid) change_method change_path change (c, t1))

  abbrev pub exchange : Text → Text → Text → Response → Exchange
  exchange uid method path answer = record {
    uid = uid;
    method = method;
    path = path;
    answer = answer;
  }
