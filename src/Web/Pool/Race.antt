-- ===== src/Web/Pool/Race.antt =====
-- What the unlocked cleanup in getElement lets through: two calls for one new user.
use mathlib.Core.Path.{subst}
use go_syncstorage.Prelude.{
  sym, ℕ, ◌+◌, ◌/◌, ◌<◌, ◌≡◌, refl, ◌∙◌, true, none, some, List, ◌∷◌, arith, length, lt→ltb,
  if◌then◌else◌,
}
use go_syncstorage.Prelude.Text.{Text, text_eq_refl}
use go_syncstorage.Prelude.Assoc.{find_key, find_key-remove_key}
use go_syncstorage.Web.Pool.{
  Element, Pool, Files, got, remove_node, forget, fresh, insert_element, open_element, stop_http,
  cleanup_handlers, get_element,
}
use go_syncstorage.Web.Pool.Recent.{All}
use go_syncstorage.Web.Pool.Invariant.{IsValid, IsMade}
use go_syncstorage.Web.Pool.Eviction.{cleanup_handlers_lem}
use go_syncstorage.Web.Pool.Steps.{
  Call, starting, unlocked, finished, ended, db_file, started, step, step_on, alone,
}

-- The element of the second of two calls
abbrev pub second_fresh : Text → Pool → Element
second_fresh uid p = record { uid = uid; handler = p.made + 1 }

older_removed :
    (uid : Text) (n : ℕ) (l : List Element)
    → All (IsMade n) l
    → remove_node n (record { uid = uid; handler = n + 1 } ∷ record { uid = uid; handler = n } ∷ l)
      ≡ record { uid = uid; handler = n + 1 } ∷ remove_node n l
unfolding remove_node
older_removed uid n l m = ground arith

-- The cleanup of one call
abbrev pub clean : Pool → Pool
clean p = cleanup_handlers (1 + p.max_pool_size / 10) p

module _ (files : Files) (uid : Text) where
  -- A step of the first or of the second of two calls for the user
  abbrev pub first_steps : Call × Call × Pool → Call × Call × Pool
  first_steps (a, b, p) = let (a', p') = step files uid a p in (a', b, p')

  abbrev pub second_steps : Call × Call × Pool → Call × Call × Pool
  second_steps (a, b, p) = let (b', p') = step files uid b p in (a, b', p')

  abbrev pub both_step : Call × Call × Pool → Call × Call × Pool
  both_step w = second_steps (first_steps w)

  -- Both calls, step by step in turn
  abbrev pub in_turn : Pool → Call × Call × Pool
  in_turn p = both_step (both_step (both_step (starting, starting, p)))

  start_unlocked :
      (p : Pool) (file : Text)
      → find_key uid p.elements ≡ none
      → db_file files uid p ≡ some file
      → p.max_pool_size < length p.lru
      → step files uid starting p ≡ (unlocked file, p)
  unfolding step
  start_unlocked p file absent found full =
      rw (absent, started, found, lt→ltb p.max_pool_size (length p.lru) full, if◌then◌else◌) refl

  -- The pool after two calls whose cleanups both came before they opened the database
  abbrev pub opened_twice : Pool → Pool
  opened_twice p = (open_element true uid (open_element true uid (clean (clean p))).1).1

  in_turn-opened :
      (p : Pool) (file : Text)
      → find_key uid p.elements ≡ none
      → db_file files uid p ≡ some file
      → files.open_db file ≡ true
      → p.max_pool_size < length p.lru
      → in_turn p ≡ (
        finished (got (fresh uid (clean (clean p))) true),
        finished (got (second_fresh uid (clean (clean p))) true),
        opened_twice p,
      )
  in_turn-opened p file absent found opens full =
      let begun = start_unlocked p file absent found full in
      rw (begun, begun) (unfold step open_element insert_element in rw (opens) refl)

  -- Two ended calls that both got a new element of the user, before what was left in `q`, and what
  -- the cleanup of the older one makes of the pool
  abbrev pub BothListed : Pool → Call × Call × Pool → Type 0
  BothListed q (first, second, p) =
      let older = fresh uid q in
      let newer = second_fresh uid q in
      let p' = forget older (stop_http older p) in
      (first ≡ finished (got older true))
      × (second ≡ finished (got newer true))
      × (p.lru ≡ newer ∷ older ∷ q.lru)
      × (find_key uid p'.elements ≡ none)
      × (p'.lru ≡ newer ∷ remove_node q.made q.lru)

  opened_twice-BothListed :
      (p : Pool)
      → IsValid p
      → BothListed (clean (clean p)) (
        finished (got (fresh uid (clean (clean p))) true),
        finished (got (second_fresh uid (clean (clean p))) true),
        opened_twice p,
      )
  unfolding open_element insert_element forget
  opened_twice-BothListed p v =
      let q = clean (clean p) in
      let valid : IsValid q = (cleanup_handlers_lem _ (clean p) (cleanup_handlers_lem _ p v).0).0 in
      (
        refl,
        refl,
        refl,
        find_key-remove_key uid uid (opened_twice p).elements ∙ rw (text_eq_refl uid) refl,
        older_removed uid q.made q.lru valid.numbered,
      )

  -- A call of getElement whose steps run with nothing between them gives what getElement gives. If two
  -- calls run in turn for a user without an element, in a pool over its size, then both look the user
  -- up before either opens the database, which the cleanup without the lock allows, and both get a new
  -- element. The pool lists both, the newer one first, before what the cleanups left. When the older
  -- one is cleaned up, the user has no element any more, though the newer one, not stopped by it, is
  -- still listed first.
  pub get_element-race :
      (p : Pool) (file : Text)
      → IsValid p
      → find_key uid p.elements ≡ none
      → db_file files uid p ≡ some file
      → files.open_db file ≡ true
      → p.max_pool_size < length p.lru
      → ((q : Pool)
          → step_on files uid (step_on files uid (step files uid starting q))
            ≡ ended (get_element files uid q))
        × BothListed (clean (clean p)) (in_turn p)
  get_element-race p file v absent found opens full = (
    alone files uid,
    subst (BothListed (clean (clean p))) (sym (in_turn-opened p file absent found opens full))
        (opened_twice-BothListed p v),
  )
