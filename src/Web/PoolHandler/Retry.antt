-- ===== src/Web/PoolHandler/Retry.antt =====
-- What a request of the pool handler leads to, however often it tries.
use native.Mathlib.Nat.{mod-lt}
use go_syncstorage.Prelude.{
  ℕ, zero, suc, ◌+◌, ◌-◌, ◌*◌, ◌%◌, ◌^◌, ◌<◌, ◌≤◌, ◌≡◌, ◌≢◌, refl, sym, ◌∙◌, Bool, true, false,
  Option, none, some, List, [], ◌∷◌, arith, ◌==◌, if◌then◌else◌, length, get_elem?, set, map,
  Option-cases, inl, inr,
}
use go_syncstorage.Prelude.Text.{Text}
use go_syncstorage.Web.NotModified.{is_empty}
use go_syncstorage.Web.Pool.{
  Element, Pool, element_stopped, no_data_dir, no_db, Got, got, failed, panicked, Files, fresh,
  get_element, stop_http, forget, stop_handlers,
}
use go_syncstorage.Web.Pool.Recent.{find_uid, find_node-find_uid}
use go_syncstorage.Web.Pool.Invariant.{IsValid, forget-IsValid}
use go_syncstorage.Web.Pool.Get.{get_element-IsValid, get_element-absent, get_element-stopping}
use go_syncstorage.Web.Pool.Stop.{stop_handlers_lem}
use go_syncstorage.Web.PoolHandler.{
  PoolHandler, Ended, refused, passed_on, crashed, serve_stopped, after_attempt, too_busy, index_of,
  pool_index, attempts, serve_user, serve_http, uid_or_empty, stop_http_pools, conflict_attempts,
}

-- A pool between two steps
abbrev pub Fits : Pool → Type 0
Fits p = IsValid p × (length p.lru ≤ suc p.max_pool_size)

abbrev pub AllFit : List Pool → Type 0
AllFit [] = Unit
AllFit (p ∷ ps) = Fits p × AllFit ps

after_attempt-Fits :
    (again : Pool → Ended × Pool) (r : Got × Pool)
    → ((q : Pool) → Fits q → Fits ((again q).1) × ((again q).0 ≢ crashed))
    → Fits r.1
    → r.0 ≢ panicked
    → Fits ((after_attempt again r).1) × ((after_attempt again r).0 ≢ crashed)
after_attempt-Fits again (got e created, q) k f n = (f, λ e. cc)
after_attempt-Fits again (panicked, q) k f n = absurd (n refl)
after_attempt-Fits again (failed element_stopped, q) k f n = k q f
after_attempt-Fits again (failed no_data_dir, q) k f n = (f, λ e. cc)
after_attempt-Fits again (failed no_db, q) k f n = (f, λ e. cc)

get_elem?-AllFit :
    (ps : List Pool) (i : ℕ) {p : Pool} → AllFit ps → get_elem? ps i ≡ some p → Fits p
get_elem?-AllFit [] i f h = absurd (cc)
get_elem?-AllFit (x ∷ ps) zero {p = p} (f, fs) h = let same : x ≡ p = cc in rw (← same) f
get_elem?-AllFit (p ∷ ps) (suc i) (f, fs) h = get_elem?-AllFit ps i fs h

set-AllFit : (ps : List Pool) (i : ℕ) (p : Pool) → AllFit ps → Fits p → AllFit (set ps i p)
set-AllFit [] i p fs f = tt
set-AllFit (x ∷ ps) zero p (g, fs) f = (f, fs)
set-AllFit (x ∷ ps) (suc i) p (g, fs) f = (g, set-AllFit ps i p fs f)

index_of-bound : (h18 h19 n : ℕ) → ((n % 2 ^ 16) == 0) ≡ false → index_of h18 h19 n < n
unfolding index_of
index_of-bound h18 h19 n h =
    let some_pool : 0 < n % 2 ^ 16 = ground arith in
    omega (arith, mod-lt (h18 * 256 + h19) some_pool)

get_elem?-bound : {A : Type 0} (l : List A) (i : ℕ) → i < length l → get_elem? l i ≢ none
get_elem?-bound [] i h e = absurd (omega arith)
get_elem?-bound (x ∷ l) zero h e = cc
get_elem?-bound (x ∷ l) (suc i) h e = get_elem?-bound l i (omega arith) e

-- A good end
abbrev Good : Ended × PoolHandler → Type 0
Good r = AllFit r.1.pools × (r.0 ≢ crashed)

Good-if : (b : Bool) (x y : Ended × PoolHandler) → Good x → Good y → Good (if b then x else y)
Good-if true x y g k = g
Good-if false x y g k = k

abbrev pub AllEmpty : List Pool → Type 0
AllEmpty [] = Unit
AllEmpty (p ∷ ps) = (p.lru ≡ []) × AllEmpty ps

after_got :
    (again : Pool → Ended × Pool) (r : Got × Pool) {e : Element} {created : Bool}
    → r.0 ≡ got e created
    → (after_attempt again r).0 ≡ passed_on e created
after_got again (got e created, q) h = cc
after_got again (failed e, q) h = absurd (cc)
after_got again (panicked, q) h = absurd (cc)

module _ (sha1 : Text → List ℕ) (files : Files) (asleep : ℕ → Pool → Pool)
    (others : (r : ℕ) (q : Pool) → Fits q → Fits (asleep r q)) where
  attempts-Fits :
      (n : ℕ) (uid : Text) (p : Pool)
      → Fits p
      → Fits ((attempts sha1 files asleep n uid p).1)
        × ((attempts sha1 files asleep n uid p).0 ≢ crashed)
  unfolding attempts
  attempts-Fits zero uid p f =
      let (v, b, n) = get_element-IsValid files uid p f.0 f.1 in
      after_attempt-Fits (λ q. (refused too_busy, q)) (get_element files uid p)
        (λ q g. (g, λ e. cc)) (v, b) n
  attempts-Fits (suc rest) uid p f =
      let (v, b, n) = get_element-IsValid files uid p f.0 f.1 in
      after_attempt-Fits (λ q. attempts sha1 files asleep rest uid (asleep rest q))
        (get_element files uid p) (λ q g. attempts-Fits rest uid (asleep rest q) (others rest q g))
        (v, b) n

  serve_user-AllFit :
      (uid : Text) (h : PoolHandler)
      → AllFit h.pools
      → ((length h.pools % 2 ^ 16) == 0) ≡ false
      → AllFit ((serve_user sha1 files asleep uid h).1.pools)
        × ((serve_user sha1 files asleep uid h).0 ≢ crashed)
  unfolding serve_user pool_index
  serve_user-AllFit uid h fs n =
      let index = pool_index sha1 files asleep uid (length h.pools) in
      elim (Option-cases (get_elem? h.pools index)) [
        | inl out ↦ absurd (get_elem?-bound h.pools index (index_of-bound _ _ _ n) out)
        | inr (p, at) ↦
            let (f, c) =
              attempts-Fits (conflict_attempts - 1) uid p (get_elem?-AllFit h.pools index fs at) in
            rw (n, if◌then◌else◌, at) (set-AllFit h.pools index _ fs f, c)
      ]

  -- A request, of whichever session, leaves the pools of a handler that has between 1 and 65,535 of
  -- them valid and within their sizes, and does not crash, if what others do during a sleep leaves
  -- a pool so.
  pub serve_http-AllFit :
      (session : Option Text) (h : PoolHandler)
      → AllFit h.pools
      → 0 < length h.pools
      → length h.pools < 2 ^ 16
      → AllFit ((serve_http sha1 files asleep session h).1.pools)
        × ((serve_http sha1 files asleep session h).0 ≢ crashed)
  unfolding serve_http
  serve_http-AllFit session h fs some_pool few =
      let served = serve_user-AllFit (uid_or_empty session) h fs (ground arith) in
      Good-if h.stopped _ _ (fs, λ e. cc)
        (Good-if (is_empty (uid_or_empty session)) _ _ (fs, λ e. cc) served)

-- While the first attempt meets a user's handler between its stop and its removal, and the removal
-- happens in the sleep, the second attempt passes the request on to a new handler, if files can be
-- opened.
pub attempts-closing :
    (sha1 : Text → List ℕ) (files : Files) (asleep : ℕ → Pool → Pool) (e : Element) (p : Pool)
    → IsValid p
    → find_uid e.uid p.lru ≡ some e
    → asleep 1 (stop_http e p) ≡ forget e (stop_http e p)
    → ((dir : Text) → files.make_dir dir ≡ true)
    → ((file : Text) → files.open_db file ≡ true)
    → (attempts sha1 files asleep (conflict_attempts - 1) e.uid (stop_http e p)).0
      ≡ passed_on (fresh e.uid p) true
unfolding attempts forget
attempts-closing sha1 files asleep e p v h removed dirs dbs =
    let (first, gone) = get_element-stopping files e p v h in
    let v' = forget-IsValid e p v (find_node-find_uid p.lru e.uid v.distinct h) in
    let nobody : find_uid e.uid ((forget e (stop_http e p)).lru) ≡ none =
      sym (v'.elements_of e.uid) ∙ gone in
    let (second, list) =
      get_element-absent files e.uid (forget e (stop_http e p)) v' nobody dirs dbs in
    rw (first, removed) (after_got _ _ second)

stopped_empty : (ps : List Pool) → AllFit ps → AllEmpty (map stop_handlers ps)
stopped_empty [] f = tt
stopped_empty (p ∷ ps) ((v, n), f) = ((stop_handlers_lem p v).0, stopped_empty ps f)

-- After StopHTTP of a running handler with valid pools, no pool has an element, and every request,
-- of whichever session, is refused with status 503 and changes nothing.
pub stop_http_pools_lem :
    (sha1 : Text → List ℕ) (files : Files) (asleep : ℕ → Pool → Pool) (session : Option Text)
    (h : PoolHandler)
    → AllFit h.pools
    → h.stopped ≡ false
    → AllEmpty (stop_http_pools h).pools
      × (serve_http sha1 files asleep session (stop_http_pools h)
          ≡ (refused (serve_stopped h.retry_after), stop_http_pools h))
unfolding stop_http_pools serve_http
stop_http_pools_lem sha1 files asleep session h f runs = rw runs (stopped_empty h.pools f, refl)
