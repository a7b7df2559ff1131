-- ===== src/Web/PoolHandler.antt =====
-- web/syncPoolHandler.go and web/stoppableHandler.go: a request is handed to the pool of its user,
-- with retries while that user's handler is being closed. SHA-1 is a parameter, and so is what
-- other requests do to a pool during a sleep.
pub mod Retry
use go_syncstorage.Prelude.{
  ℕ, zero, suc, ◌+◌, ◌*◌, ◌-◌, ◌%◌, ◌^◌, ◌++◌, ◌==◌, ◌<◌, ◌≡◌, Bool, true, false, Option, none,
  some, List, [], ◌∷◌, arith, map, length, get_elem?, set, if◌then◌else◌, get_or,
}
use go_syncstorage.Prelude.Text.{Text, codes}
use go_syncstorage.Web.Http.{Problem, send_request_problem}
use go_syncstorage.Web.Pool.{
  Element, Pool, PoolError, element_stopped, no_data_dir, no_db, Got, got, failed, panicked, Files,
  get_element, stop_handlers,
}
use go_syncstorage.Web.NotModified.{is_empty}

-- SyncPoolHandler, with its StoppableHandler
pub record PoolHandler : Type 0 where
  pub stopped : Bool
  pub retry_after : Text
  pub pools : List Pool

-- How a request ends: with an error response, or in the handler of an element, which is told first
-- to tidy up if it is new
pub data Ended : Type 0 where
  refused : Problem → Ended
  passed_on : Element → Bool → Ended
  crashed : Ended

-- StoppableHandler.ServeHTTP
unfoldable pub serve_stopped : Text → Problem
serve_stopped retry_after =
    send_request_problem
      ((codes "Retry-After", if is_empty retry_after then codes "60" else retry_after) ∷ []) 503
      (codes "HTTP handler stopped")

-- conflictAttempts
abbrev pub conflict_attempts : ℕ
conflict_attempts = 3

abbrev pub too_busy : Problem
too_busy =
    send_request_problem ((codes "Retry-After", codes "60") ∷ []) 409 (codes "DB pool too busy")

abbrev pub reason_of : PoolError → Text
reason_of element_stopped = codes "handler is Stopped"
reason_of no_data_dir = codes "Could not create datadir"
reason_of no_db = codes "Could not create DB"

-- InternalError of an error of getElement, whose own cause is left off
abbrev pub pool_error : PoolError → Problem
pool_error e = send_request_problem [] 500 (codes "Could not get Pool Element: " ++ reason_of e)

-- What an attempt leads to, with what is done when the handler is being closed
abbrev pub after_attempt : (Pool → Ended × Pool) → Got × Pool → Ended × Pool
after_attempt again (got e created, q) = (passed_on e created, q)
after_attempt again (panicked, q) = (crashed, q)
after_attempt again (failed element_stopped, q) = again q
after_attempt again (failed no_data_dir, q) = (refused (pool_error no_data_dir), q)
after_attempt again (failed no_db, q) = (refused (pool_error no_db), q)

abbrev pub uid_or_empty : Option Text → Text
uid_or_empty none = []
uid_or_empty (some uid) = uid

-- The last two bytes of a sum of 20, the first one the greater, in 16 bits by the number of pools
unfoldable pub index_of : ℕ → ℕ → ℕ → ℕ
index_of h18 h19 pools = (h18 * 256 + h19) % (pools % 2 ^ 16)

module _ (sha1 : Text → List ℕ) (files : Files) (asleep : ℕ → Pool → Pool) where
  -- poolIndex
  unfoldable pub pool_index : Text → ℕ → ℕ
  unfolding index_of
  pool_index uid pools = let h = sha1 uid in index_of (get_or h 18 0) (get_or h 19 0) pools

  -- The loop of ServeHTTP with `rest` attempts after this one
  unfoldable pub attempts : ℕ → Text → Pool → Ended × Pool
  attempts zero uid p = after_attempt (λ q. (refused too_busy, q)) (get_element files uid p)
  attempts (suc rest) uid p =
      after_attempt (λ q. attempts rest uid (asleep rest q)) (get_element files uid p)

  -- ServeHTTP of a user, whose pool has its index
  unfoldable pub serve_user : Text → PoolHandler → Ended × PoolHandler
  unfolding attempts pool_index
  serve_user uid h =
      let index = pool_index uid (length h.pools) in
      if length h.pools % 2 ^ 16 == 0 then (crashed, h) else elim (get_elem? h.pools index) [
        | none ↦ (crashed, h)
        | some p ↦
            let (ended, q) = attempts (conflict_attempts - 1) uid p in
            (ended, record h { pools = set h.pools index q })
      ]

  -- ServeHTTP, with the user of the session if there is one
  unfoldable pub serve_http : Option Text → PoolHandler → Ended × PoolHandler
  unfolding serve_user serve_stopped
  serve_http session h =
      let uid = uid_or_empty session in
      if h.stopped
      then (refused (serve_stopped h.retry_after), h)
      else if is_empty uid
      then (refused (send_request_problem [] 400 (codes "Pool: No UID")), h)
      else serve_user uid h

-- StopHTTP
unfoldable pub stop_http_pools : PoolHandler → PoolHandler
unfolding stop_handlers
stop_http_pools h =
    if h.stopped then h else record h { stopped = true; pools = map stop_handlers h.pools }
