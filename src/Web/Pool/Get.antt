-- ===== src/Web/Pool/Get.antt =====
-- What getElement returns and leaves: a user's element is used again, or made behind an eviction.
use go_syncstorage.Prelude.{
  suc, ◌≤◌, ◌≡◌, ◌≢◌, refl, ap, sym, ◌∙◌, true, false, none, some, ◌∷◌, arith, if◌then◌else◌,
  length, Bool-cases, Option-cases, inl, inr,
}
use go_syncstorage.Prelude.Text.{Text, codes, text_eq_refl}
use go_syncstorage.Prelude.Assoc.{find_key, find_key-remove_key}
use go_syncstorage.Web.Pool.{
  Element, Pool, element_stopped, Got, got, failed, panicked, Files, remove_node, move_to_front,
  is_stopped, stop_http, forget, make_room, fresh, insert_element, open_element, use_element,
  path_and_file, memory_only, create_element, get_element,
}
use go_syncstorage.Web.Pool.Recent.{find_uid, find_node-find_uid, find_uid-uid}
use go_syncstorage.Web.Pool.Removal.{length-remove_node}
use go_syncstorage.Web.Pool.Invariant.{IsValid, number_of, stop_http-IsValid, moved-IsValid}
use go_syncstorage.Web.Pool.Create.{
  insert_element-IsValid, inserted_size, inserted_first, stopped_now, Created, untouched, emptied,
  opened, create_element-Created,
}
use go_syncstorage.Web.Pool.Eviction.{kept, make_room_lem, length-kept}

module _ (files : Files) where
  -- A user whose element is in a valid pool and is not stopped gets that element, which becomes the
  -- most recently used one; the others keep their order.
  pub get_element-present :
      (uid : Text) (p : Pool) (e : Element)
      → IsValid p
      → find_uid uid p.lru ≡ some e
      → is_stopped e.handler p ≡ false
      → get_element files uid p ≡ (got e false, record p { lru = e ∷ remove_node e.handler p.lru })
  unfolding get_element use_element move_to_front
  get_element-present uid p e v h runs =
      let node = find_node-find_uid p.lru uid v.distinct h in
      let found : find_key uid p.elements ≡ some e = v.elements_of uid ∙ h in
      let number : find_key uid p.lrumap ≡ some e.handler = v.nodes_of uid ∙ ap number_of h in
      rw (get_element, found, use_element, runs, if◌then◌else◌, number, move_to_front, node) refl

  -- A stopped element is not handed out.
  pub get_element-closing :
      (uid : Text) (p : Pool) (e : Element)
      → IsValid p
      → find_uid uid p.lru ≡ some e
      → is_stopped e.handler p ≡ true
      → get_element files uid p ≡ (failed element_stopped, p)
  unfolding get_element use_element
  get_element-closing uid p e v h s =
      let found : find_key uid p.elements ≡ some e = v.elements_of uid ∙ h in
      rw (get_element, found, use_element, s) refl

  get_element-missing :
      (uid : Text) (p : Pool)
      → find_key uid p.elements ≡ none
      → get_element files uid p ≡ create_element files uid p
  unfolding get_element
  get_element-missing uid p h = rw (get_element, h) refl

  create_element-opens :
      (uid : Text) (p : Pool)
      → ((dir : Text) → files.make_dir dir ≡ true)
      → ((file : Text) → files.open_db file ≡ true)
      → create_element files uid p
        ≡ (got (fresh uid (make_room p)) true, insert_element uid (make_room p))
  unfolding create_element open_element
  create_element-opens uid p dirs dbs = elim (Bool-cases (memory_only p.base)) [
    | inl memory ↦ rw (memory, dbs (codes ":memory:")) refl
    | inr disk ↦ rw (disk, dirs (path_and_file files uid p.base).0, dbs _) refl
  ]

  after_Created :
      (uid : Text) (p : Pool) (r : Got × Pool)
      → Created uid p r
      → IsValid p
      → find_uid uid p.lru ≡ none
      → length p.lru ≤ suc p.max_pool_size
      → IsValid r.1 × (length (r.1.lru) ≤ suc (r.1.max_pool_size)) × (r.0 ≢ panicked)
  after_Created uid p _ (untouched e) v h n = (v, n, λ e. cc)
  after_Created uid p _ (emptied e) v h n =
      let (v', l, k) = make_room_lem p v in
      (v', rw (l, k.size) (omega (arith, length-kept p n)), λ e. cc)
  after_Created uid p _ opened v h n =
      let (v', l, k) = make_room_lem p v in
      (
        insert_element-IsValid uid (make_room p) v' (k.absent uid h),
        inserted_size uid (make_room p) (rw (l, k.size) (length-kept p n)),
        λ e. cc,
      )

  -- Whatever getElement returns for a valid pool of at most one element more than its size, it
  -- leaves such a pool, in which maps and list agree, and it does not panic.
  pub get_element-IsValid :
      (uid : Text) (p : Pool)
      → IsValid p
      → length p.lru ≤ suc p.max_pool_size
      → IsValid ((get_element files uid p).1)
        × (length ((get_element files uid p).1.lru)
            ≤ suc ((get_element files uid p).1.max_pool_size))
        × ((get_element files uid p).0 ≢ panicked)
  get_element-IsValid uid p v n = elim (Option-cases (find_uid uid p.lru)) [
    | inl none_yet ↦
        let missing : find_key uid p.elements ≡ none = v.elements_of uid ∙ none_yet in
        rw (get_element-missing uid p missing) (
          after_Created uid p (create_element files uid p) (create_element-Created files uid p) v
            none_yet n)
    | inr (e, h) ↦
        let node = find_node-find_uid p.lru uid v.distinct h in
        let user : find_uid e.uid p.lru ≡ some e =
          ap (λ u. find_uid u p.lru) (sym (find_uid-uid uid p.lru h)) ∙ h in
        elim (Bool-cases (is_stopped e.handler p)) [
          | inl stopped ↦ rw (get_element-closing uid p e v h stopped) (v, n, λ e. cc)
          | inr runs ↦ rw (get_element-present uid p e v h runs) (
            moved-IsValid e p v user,
            omega (arith, length-remove_node e p.lru v.distinct node),
            λ e. cc,
          )
        ]
  ]

  -- A user who has no element in a valid pool gets a new one if the directory and the database can
  -- be opened; it becomes the most recently used one, before the others, of which the least
  -- recently used tenth, rounded up, went if there were more than the size of the pool.
  pub get_element-absent :
      (uid : Text) (p : Pool)
      → IsValid p
      → find_uid uid p.lru ≡ none
      → ((dir : Text) → files.make_dir dir ≡ true)
      → ((file : Text) → files.open_db file ≡ true)
      → ((get_element files uid p).0 ≡ got (fresh uid p) true)
        × ((get_element files uid p).1.lru ≡ fresh uid p ∷ kept p)
  get_element-absent uid p v h dirs dbs =
      let (v', l, k) = make_room_lem p v in
      let missing : find_key uid p.elements ≡ none = v.elements_of uid ∙ h in
      let same : fresh uid (make_room p) ≡ fresh uid p = rw k.made refl in
      rw (get_element-missing uid p missing, create_element-opens uid p dirs dbs)
        (rw same refl, inserted_first uid (make_room p) ∙ rw (same, l) refl)

  -- While cleanupHandlers, which stops a handler without the lock and then takes it out, is between
  -- the two, a request of that handler's user fails with errElementStopped and changes nothing;
  -- afterwards the user has no element in the pool.
  pub get_element-stopping :
      (e : Element) (p : Pool)
      → IsValid p
      → find_uid e.uid p.lru ≡ some e
      → (get_element files e.uid (stop_http e p) ≡ (failed element_stopped, stop_http e p))
        × (find_key e.uid (forget e (stop_http e p)).elements ≡ none)
  unfolding forget
  get_element-stopping e p v h =
      let node = find_node-find_uid p.lru e.uid v.distinct h in
      (
        get_element-closing e.uid (stop_http e p) e (stop_http-IsValid e p v node) h
            (stopped_now e p),
        find_key-remove_key e.uid e.uid p.elements ∙ rw (text_eq_refl e.uid) refl,
      )
