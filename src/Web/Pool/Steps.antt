-- ===== src/Web/Pool/Steps.antt =====
-- web/syncPoolHandler_elements.go: getElement as the steps between which it gives up the lock of the
-- pool, for its cleanup, so that other calls may run.
use go_syncstorage.Prelude.{
  ◌+◌, ◌/◌, ◌≡◌, refl, ap, ◌∙◌, Option, none, some, ◌++◌, ltb, length, if◌then◌else◌, Bool-cases,
  inl, inr,
}
use go_syncstorage.Prelude.Text.{Text, codes}
use go_syncstorage.Prelude.Assoc.{find_key}
use go_syncstorage.Web.Pool.{
  Element, Pool, Got, failed, no_data_dir, Files, path_and_file, memory_only, cleanup_handlers,
  make_room, open_element, use_element, create_element, get_element,
}

-- Where a call of getElement stands: before its lock; without the lock, the cleanup before it; before
-- the second lock, with the name of its database in both; or at its end
pub data Call : Type 0 where
  starting : Call
  unlocked : Text → Call
  relocking : Text → Call
  finished : Got → Call

abbrev pub ended : Got × Pool → Call × Pool
ended (g, p) = (finished g, p)

module _ (files : Files) where
  abbrev pub in_directory : Text × Text → Option Text
  in_directory (storage_dir, filename) =
      if files.make_dir storage_dir then some (storage_dir ++ codes "/" ++ filename) else none

  -- The name of the user's database, once its directory is there
  unfoldable pub db_file : Text → Pool → Option Text
  db_file uid p =
      if memory_only p.base
      then some (codes ":memory:")
      else in_directory (path_and_file files uid p.base)

  -- Only a pool over its size is unlocked.
  abbrev pub room_wanted : Text → Text → Pool → Call × Pool
  room_wanted uid file p =
      if ltb p.max_pool_size (length p.lru)
      then (unlocked file, p)
      else ended (open_element (files.open_db file) uid p)

  abbrev pub created_in : Text → Pool → Option Text → Call × Pool
  created_in uid p none = (finished (failed no_data_dir), p)
  created_in uid p (some file) = room_wanted uid file p

  abbrev pub started : Text → Pool → Option Element → Call × Pool
  started uid p none = created_in uid p (db_file uid p)
  started uid p (some e) = ended (use_element e uid p)

  -- One step, which runs under the lock or, for the cleanup, as if it did
  unfoldable pub step : Text → Call → Pool → Call × Pool
  unfolding db_file
  step uid starting p = started uid p (find_key uid p.elements)
  step uid (unlocked file) p = (relocking file, cleanup_handlers (1 + p.max_pool_size / 10) p)
  step uid (relocking file) p = ended (open_element (files.open_db file) uid p)
  step uid (finished g) p = (finished g, p)

  abbrev pub step_on : Text → Call × Pool → Call × Pool
  step_on uid (call, p) = step uid call p

  alone_behind :
      (uid file : Text) (p : Pool)
      → step_on uid (step_on uid (room_wanted uid file p))
        ≡ ended (open_element (files.open_db file) uid (make_room p))
  unfolding step make_room
  alone_behind uid file p = elim (Bool-cases (ltb p.max_pool_size (length p.lru))) [
    | inl full ↦ rw (full, if◌then◌else◌) refl
    | inr room ↦ rw (room, if◌then◌else◌) refl
  ]

  alone_created :
      (uid : Text) (p : Pool)
      → step_on uid (step_on uid (created_in uid p (db_file uid p)))
        ≡ ended (create_element files uid p)
  unfolding create_element db_file
  alone_created uid p = elim (Bool-cases (memory_only p.base)) [
    | inl memory ↦ rw (memory, if◌then◌else◌) (alone_behind uid (codes ":memory:") p)
    | inr disk ↦
        let dir = (path_and_file files uid p.base).0 in
        elim (Bool-cases (files.make_dir dir)) [
          | inl made ↦ rw (disk, if◌then◌else◌, made, if◌then◌else◌) (alone_behind uid _ p)
          | inr none_made ↦ rw (disk, if◌then◌else◌, none_made, if◌then◌else◌) (unfold step in refl)
        ]
  ]

  abbrev got_in : Text → Pool → Option Element → Got × Pool
  got_in uid p none = create_element files uid p
  got_in uid p (some e) = use_element e uid p

  alone_started :
      (uid : Text) (p : Pool) (o : Option Element)
      → step_on uid (step_on uid (started uid p o)) ≡ ended (got_in uid p o)
  alone_started uid p none = alone_created uid p
  alone_started uid p (some e) = unfold step in refl

  got_in-get_element :
      (uid : Text) (p : Pool) (o : Option Element)
      → find_key uid p.elements ≡ o
      → got_in uid p o ≡ get_element files uid p
  unfolding get_element
  got_in-get_element uid p none e = rw (get_element, e) refl
  got_in-get_element uid p (some x) e = rw (get_element, e) refl

  -- The steps of one call, with nothing between them, are getElement.
  pub alone :
      (uid : Text) (p : Pool)
      → step_on uid (step_on uid (step uid starting p)) ≡ ended (get_element files uid p)
  alone uid p =
      unfold step in
      alone_started uid p (find_key uid p.elements)
      ∙ ap ended (got_in-get_element uid p (find_key uid p.elements) refl)
