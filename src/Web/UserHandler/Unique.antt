-- ===== src/Web/UserHandler/Unique.antt =====
-- web/syncUserHandler.go: ServeHTTP, the sleep before a change and the timestamps.
use go_syncstorage.Prelude.{
  ℕ, ◌+◌, ◌≤◌, ◌<◌, ◌≡◌, refl, Bool, true, false, Option, none, some, arith, if◌then◌else◌,
}
use go_syncstorage.Prelude.Int.{pos_part}
use go_syncstorage.Prelude.Text.{Text}
use go_syncstorage.Storage.Checks.{now_of}
use go_syncstorage.Web.UserHandler.{
  UserHandler, routed, is_change, to_sleep, change_start, serve_http,
}

-- Ten milliseconds are enough for a later hundredth.
now_of-later : (a c : ℕ) → a + 10000000 ≤ c → now_of a < now_of c
unfolding now_of
now_of-later a c h = omega arith

-- A time at which a database of the user was read before the request that comes at `now`: within
-- the last change of this handler, or, before its first change, by an earlier one
abbrev pub Precedes : ℕ → Option ℕ → ℕ → Type 0
Precedes a none now = a ≤ now
Precedes a (some last) now = (a ≤ last) × (last ≤ now)

start_later :
    (a : ℕ) (last : Option ℕ) (now late : ℕ)
    → Precedes a last now
    → a + 10000000 ≤ now + pos_part (to_sleep last now) + late
unfolding to_sleep
start_later a none now late h = omega arith
start_later a (some last) now late (h, l) = ground arith

change_later :
    (a : ℕ) (h : UserHandler) (now late : ℕ)
    → Precedes a h.last_change now
    → a + 10000000 ≤ change_start h now late
unfolding change_start
change_later a h now late before = start_later a h.last_change now late before

-- A router that reads the clock of the database `wait` after its start and ends `rest` later
abbrev pub reading : ℕ → ℕ → ℕ → ℕ × ℕ
reading wait rest start = (now_of (start + wait), start + wait + rest)

second_branch :
    {B : Type 0} (s c : Bool) (x y z : B)
    → s ≡ false
    → c ≡ true
    → (if s then x else (if c then y else z)) ≡ y
second_branch s c x y z e f = rw (e, f) refl

-- What a change leads to in a handler that is not stopped
change_served :
    {A : Type 0} (method : Text) (now late : ℕ) (router : ℕ → A × ℕ) (h : UserHandler)
    → h.stopped ≡ false
    → is_change method ≡ true
    → serve_http method now late router h ≡ (
      routed ((router (change_start h now late)).0),
      record h { last_change = some ((router (change_start h now late)).1) },
    )
unfolding serve_http is_change change_start
change_served method now late router h runs change =
    second_branch h.stopped (is_change method) _ _ _ runs change

-- Two changes that a handler, not stopped, serves one after the other get increasing timestamps,
-- whenever the second one comes and whenever each reads the clock; and the first one gets a later
-- timestamp than a change that ended before this handler was there.
pub serve_http-later :
    (first second : Text) (now late wait rest now' late' wait' rest' old : ℕ) (h : UserHandler)
    → h.stopped ≡ false
    → is_change first ≡ true
    → is_change second ≡ true
    → Precedes old h.last_change now
    → change_start h now late + wait + rest ≤ now'
    → let (r, h') = serve_http first now late (reading wait rest) h in
      let (r', h'') = serve_http second now' late' (reading wait' rest') h' in
      (x : ℕ) × (y : ℕ) × (r ≡ routed x) × (r' ≡ routed y) × (now_of old < x) × (x < y)
serve_http-later first second now late wait rest now' late' wait' rest' old h runs c c' before
      after =
    let start = change_start h now late in
    let one = change_served first now late (reading wait rest) h runs c in
    let h' = record h { last_change = some (start + wait + rest) } in
    let start' = change_start h' now' late' in
    let two = change_served second now' late' (reading wait' rest') h' runs c' in
    let early = change_later old h now late before in
    let between = change_later (start + wait) h' now' late' (omega arith, after) in
    (
      now_of (start + wait),
      now_of (start' + wait'),
      rw one refl,
      rw one (rw two refl),
      now_of-later old (start + wait) (omega (arith, early)),
      now_of-later (start + wait) (start' + wait') (omega (arith, between)),
    )
