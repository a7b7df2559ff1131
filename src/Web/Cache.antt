-- ===== src/Web/Cache.antt =====
-- web/cacheHandler.go: the cache of info/collections and info/configuration in front of the handler of
-- the pools. The library bigcache is a parameter; an entry may be lost whenever another is set.
pub mod Told
pub mod Coherent
pub mod Header
pub mod Hit
use go_syncstorage.Prelude.{
  ℕ, ◌-◌, Bool, true, false, ◌&&◌, ◌||◌, not, Option, none, some, List, [], ◌∷◌, ◌++◌, ◌==◌, ltb,
  length, take, drop, replicate, if◌then◌else◌,
}
use go_syncstorage.Prelude.Int.{ℤ, pos}
use go_syncstorage.Prelude.Text.{Text, codes, text_eq}
use go_syncstorage.Web.Http.{Request, Problem, send_request_problem, Floats, convert_timestamp}
use go_syncstorage.Web.Accept.{has_prefix}
use go_syncstorage.Web.Hawk.{leading_digits, is_nothing}
use go_syncstorage.Web.NotModified.{sent_not_modified}
use go_syncstorage.Web.UserHandler.{is_change}

-- What the program asks of bigcache
pub record CacheStore : Type 1 where
  pub Cache : Type 0
  pub get : Text → Cache → Option Text
  pub set : Text → Text → Cache → Cache

-- A status, the header X-Last-Modified, and a body; a problem that sentNotModified wrote; or a panic
pub data Response : Type 0 where
  written : ℕ → Text → Text → Response
  problem : Problem → Response
  crashed : Response

-- The handler behind the cache, with its state: the user, the method, the path and the request
pub record Next : Type 1 where
  pub State : Type 0
  pub serve : Text → Text → Text → Request → State → Response × State

abbrev pub digits_then : Text → Text → Bool
digits_then suffix s =
    not (is_nothing (leading_digits s)) && text_eq (drop (length (leading_digits s)) s) suffix

-- infoCollectionsRoute, infoConfigurationRoute: ^/1\.5/([0-9]+)…$
unfoldable pub matches_route : Text → Text → Bool
unfolding has_prefix leading_digits
matches_route suffix path = has_prefix (codes "/1.5/") path && digits_then suffix (drop 5 path)

abbrev pub is_info_collections : Text → Text → Bool
is_info_collections method path =
    text_eq method (codes "GET") && matches_route (codes "/info/collections") path

abbrev pub is_info_configuration : Text → Text → Bool
is_info_configuration method path =
    text_eq method (codes "GET") && matches_route (codes "/info/configuration") path

-- lastModifiedBytes
abbrev pub last_modified_bytes : ℕ
last_modified_bytes = 13

-- copy(data, s) into `n` bytes, which are zero
unfoldable pub copied : ℕ → Text → Text
copied n s = take n s ++ replicate (n - length s) 0

-- The entry for a response
unfoldable pub entry_of : Text → Text → Text
unfolding copied
entry_of last_modified body = copied last_modified_bytes last_modified ++ body

abbrev pub or_zero : Option ℤ → ℤ
or_zero none = pos 0
or_zero (some n) = n

abbrev pub or_problem : Option Problem → Response → Response
or_problem none r = r
or_problem (some p) r = problem p

module _ (f : Floats) (store : CacheStore) (next : Next) where
  abbrev pub Cached : Type 0
  Cached = store.Cache × next.State

  -- A hit; a shorter entry would make the slice panic.
  unfoldable pub from_entry : Request → Text → Response
  from_entry r bytes =
      if ltb (length bytes) last_modified_bytes
      then crashed
      else or_problem
          (sent_not_modified f r (or_zero (convert_timestamp f (take last_modified_bytes bytes))))
          (written 200 (take last_modified_bytes bytes) (drop last_modified_bytes bytes))

  -- Only a response with the status 200 is kept.
  abbrev pub fill_info : Text → Response × next.State → store.Cache → Response × Cached
  fill_info uid (written code last_modified body, s) c =
      if code == 200
      then (written code last_modified body, (store.set uid (entry_of last_modified body) c, s))
      else (written code last_modified body, (c, s))
  fill_info uid (problem p, s) c = (problem p, (c, s))
  fill_info uid (crashed, s) c = (crashed, (c, s))

  abbrev pub info_miss : Text → Text → Text → Request → Cached → Response × Cached
  info_miss uid method path r (c, s) = fill_info uid (next.serve uid method path r s) c

  -- An empty entry is a miss too.
  abbrev pub info_by_entry : Text → Text → Text → Request → Cached → Option Text → Response × Cached
  info_by_entry uid method path r (c, s) none = info_miss uid method path r (c, s)
  info_by_entry uid method path r (c, s) (some []) = info_miss uid method path r (c, s)
  info_by_entry uid method path r (c, s) (some (x ∷ bytes)) = (from_entry r (x ∷ bytes), (c, s))

  -- infoCollection
  unfoldable pub info_collection : Text → Text → Text → Request → Cached → Response × Cached
  unfolding from_entry entry_of
  info_collection uid method path r (c, s) =
      info_by_entry uid method path r (c, s) (store.get uid c)

  abbrev pub fill_config : Response × next.State → store.Cache → Response × Cached
  fill_config (written code last_modified body, s) c =
      if code == 200
      then (written code last_modified body, (store.set (codes "config") body c, s))
      else (written code last_modified body, (c, s))
  fill_config (problem p, s) c = (problem p, (c, s))
  fill_config (crashed, s) c = (crashed, (c, s))

  abbrev pub config_miss : Text → Text → Text → Request → Cached → Response × Cached
  config_miss uid method path r (c, s) = fill_config (next.serve uid method path r s) c

  abbrev pub config_by_entry :
      Text → Text → Text → Request → Cached → Option Text → Response × Cached
  config_by_entry uid method path r (c, s) none = config_miss uid method path r (c, s)
  config_by_entry uid method path r (c, s) (some []) = config_miss uid method path r (c, s)
  config_by_entry uid method path r (c, s) (some (x ∷ bytes)) = (written 200 [] (x ∷ bytes), (c, s))

  -- infoConfiguration: one entry for all users
  unfoldable pub info_configuration : Text → Text → Text → Request → Cached → Response × Cached
  info_configuration uid method path r (c, s) =
      config_by_entry uid method path r (c, s) (store.get (codes "config") c)

  -- Any other request, behind the clearing of the user's entry
  abbrev pub passed : Response × next.State → store.Cache → Response × Cached
  passed (answer, s) c = (answer, (c, s))

  abbrev pub clear_if : Bool → Text → store.Cache → store.Cache
  clear_if change uid c = if change then store.set uid [] c else c

  -- ServeHTTP of CacheHandler, with the user of the session if there is one
  unfoldable pub cache_serve_http : Option Text → Text → Text → Request → Cached → Response × Cached
  unfolding info_collection info_configuration matches_route is_change
  cache_serve_http none method path r (c, s) =
      (problem (send_request_problem [] 400 (codes "CacheHandler no UID")), (c, s))
  cache_serve_http (some uid) method path r (c, s) =
      if is_info_collections method path
      then info_collection uid method path r (c, s)
      else if is_info_configuration method path
      then info_configuration uid method path r (c, s)
      else passed (next.serve uid method path r s) (clear_if (is_change method) uid c)
