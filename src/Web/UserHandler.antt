-- ===== src/Web/UserHandler.antt =====
-- web/syncUserHandler.go: how a user's handler runs its requests, one after the other under its
-- lock, and how it finds a collection. Times are in nanoseconds since the epoch.
pub mod Unique
use go_syncstorage.Prelude.{
  ℕ, ◌+◌, Bool, true, false, ◌&&◌, ◌||◌, Option, none, some, List, [], ◌∷◌, if◌then◌else◌,
}
use go_syncstorage.Prelude.Int.{ℤ, pos, pos_part, sub_ℕ}
use go_syncstorage.Prelude.Text.{Text, codes, text_eq}
use go_syncstorage.Storage.Checks.{collection_name_ok}
use go_syncstorage.Storage.Data.{Error, Result, ok, err, not_found, invalid_collection_name}
use go_syncstorage.Storage.Driver.{M, pure, throw, ◌>>=◌, attempt}
use go_syncstorage.Storage.Collections.{get_collection_id, create_collection}
use go_syncstorage.Web.Http.{Problem}
use go_syncstorage.Web.PoolHandler.{serve_stopped}

-- SyncUserHandler, without its router and database
pub record UserHandler : Type 0 where
  pub stopped : Bool
  pub retry_after : Text
  pub last_change : Option ℕ

-- What a request gets: the refusal of a stopped handler, or what the router answers
pub data Served (A : Type 0) : Type 0 where
  unavailable : Problem → Served A
  routed : A → Served A

-- The methods after which a sleep is due
unfoldable pub is_change : Text → Bool
is_change m = text_eq m (codes "POST") || text_eq m (codes "PUT") || text_eq m (codes "DELETE")

-- 10 ms for the first change, and what is missing of 11 ms since the last one
unfoldable pub to_sleep : Option ℕ → ℕ → ℤ
to_sleep none now = pos 10000000
to_sleep (some last) now = sub_ℕ (11000000 + last) now

-- When the router starts with a change that came at `now`: a sleep is at least as long as asked
-- for, and takes `late` longer; one that is not positive is left out.
unfoldable pub change_start : UserHandler → ℕ → ℕ → ℕ
unfolding to_sleep
change_start h now late = now + pos_part (to_sleep h.last_change now) + late

-- ServeHTTP; the router is given the time and returns its answer and the time at its end
unfoldable pub serve_http :
    {A : Type 0} → Text → ℕ → ℕ → (ℕ → A × ℕ) → UserHandler → Served A × UserHandler
unfolding is_change change_start
serve_http method now late router h =
    if h.stopped
    then (unavailable (serve_stopped h.retry_after), h)
    else if is_change method
    then (let (answer, end) = router (change_start h now late) in
        (routed answer, record h { last_change = some end }))
    else (routed ((router now).0), h)

-- getcid after the lookup
abbrev pub or_make : Text → Bool → Result ℕ → M ℕ
or_make name automake (ok id) = pure id
or_make name true (err not_found) = create_collection name
or_make name automake (err e) = throw e

-- getcid, of the collection in the path
unfoldable pub getcid : Text → Bool → M ℕ
getcid name automake =
    if collection_name_ok name
    then (do found ← attempt (get_collection_id name); or_make name automake found)
    else throw invalid_collection_name
