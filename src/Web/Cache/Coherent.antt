-- ===== src/Web/Cache/Coherent.antt =====
-- web/cacheHandler.go: the entries of info/collections, and what the handler behind the cache answered.
use go_syncstorage.Prelude.{
  ◌≡◌, ◌∙◌, refl, ◌⊎◌, inl, inr, Bool, true, false, Option, none, some, List, [], ◌∷◌, ◌==◌, arith,
  if◌then◌else◌, Bool-cases,
}
use go_syncstorage.Prelude.Text.{Text, codes, text_eq, text_eq_iff}
use go_syncstorage.Web.Http.{Request, Floats}
use go_syncstorage.Web.UserHandler.{is_change}
use go_syncstorage.Web.Cache.{
  CacheStore, Response, written, problem, crashed, Next, entry_of, Cached, fill_info, info_by_entry,
  info_collection, fill_config, config_by_entry, info_configuration, passed, clear_if,
  cache_serve_http, is_info_collections, is_info_configuration,
}
use go_syncstorage.Web.Cache.Told.{
  Exchange, logged, last_told, get_no_change, config_is_config, others_told, nothing_told, own_told,
}

-- What bigcache promises: an entry that was set is found, or lost, and another one is as it was, or
-- lost.
pub record IsStore (store : CacheStore) : Type 0 where
  pub own :
      (k v : Text) (c : store.Cache)
      → (store.get k (store.set k v c) ≡ none) ⊎ (store.get k (store.set k v c) ≡ some v)
  pub other :
      (k j v : Text) (c : store.Cache)
      → text_eq k j ≡ false
      → (store.get j (store.set k v c) ≡ none) ⊎ (store.get j (store.set k v c) ≡ store.get j c)

module _ (f : Floats) (store : CacheStore) (next : Next) (law : IsStore store) where
  -- There is no entry, or one that was cleared, or that of what the user was told last.
  abbrev pub EntryFits : Text → List Exchange → Option Text → Type 0
  EntryFits user log o =
      (o ≡ none)
      ⊎ (o ≡ some [])
      ⊎ ((m : Text) × (b : Text) × (o ≡ some (entry_of m b)) × (last_told user log ≡ some (m, b)))

  -- So it is for every user; "config" is no user.
  pub record IsCoherent (w : Cached f store (logged next)) : Type 0 where
    pub fits :
        (user : Text)
        → text_eq (codes "config") user ≡ false
        → EntryFits user w.1.1 (store.get user w.0)

  moved :
      (user : Text) (log log' : List Exchange) (o : Option Text)
      → last_told user log' ≡ last_told user log
      → EntryFits user log o
      → EntryFits user log' o
  moved user log log' o same (inl e) = inl e
  moved user log log' o same (inr (inl e)) = inr (inl e)
  moved user log log' o same (inr (inr (m, b, e, told))) = inr (inr (m, b, e, rw same told))

  lost :
      (user : Text) (log : List Exchange) (o o' : Option Text)
      → (o' ≡ none) ⊎ (o' ≡ o)
      → EntryFits user log o
      → EntryFits user log o'
  lost user log o o' (inl e) h = inl e
  lost user log o o' (inr e) h = rw e h

  set_own :
      (user v : Text) (log : List Exchange) (c : store.Cache)
      → EntryFits user log (some v)
      → EntryFits user log (store.get user (store.set user v c))
  set_own user v log c fits = elim (law.own user v c) [ inl e ↦ inl e | inr e ↦ rw e fits ]

  -- An entry for one user, behind an exchange that told the others nothing
  set_entry :
      (uid v : Text) (c : store.Cache) (s s' : next.State) (log log' : List Exchange)
      → ((user : Text) → text_eq uid user ≡ false → last_told user log' ≡ last_told user log)
      → (text_eq (codes "config") uid ≡ false → EntryFits uid log' (some v))
      → IsCoherent (c, (s, log))
      → IsCoherent (store.set uid v c, (s', log'))
  set_entry uid v c s s' log log' same own_fits h = record {
    fits = λ user proper. elim (Bool-cases (text_eq uid user)) [
      | inl own ↦
          let e : uid ≡ user = (text_eq_iff uid user).0 own in
          rw (← e) (set_own uid v log' c (own_fits (rw (← e) at proper)))
      | inr apart ↦
          moved user log log' _ (same user apart)
            (lost user log _ _ (law.other uid user v c apart) (h.fits user proper))
    ];
  }

  -- No entry is set.
  all_moved :
      (c : store.Cache) (s s' : next.State) (log log' : List Exchange)
      → ((user : Text) → last_told user log' ≡ last_told user log)
      → IsCoherent (c, (s, log))
      → IsCoherent (c, (s', log'))
  all_moved c s s' log log' same h = record {
    fits = λ user proper. moved user log log' _ (same user) (h.fits user proper);
  }

  module _ (uid method path : Text) where
    abbrev exchange : Response → Exchange
    exchange answer = record { uid = uid; method = method; path = path; answer = answer }

    fill_info-IsCoherent :
        (c : store.Cache) (s s' : next.State) (log : List Exchange) (answer : Response)
        → is_info_collections method path ≡ true
        → IsCoherent (c, (s, log))
        → IsCoherent (fill_info f store (logged next) uid (answer, (s', exchange answer ∷ log)) c).1
    fill_info-IsCoherent c s s' log (problem p) route h =
        all_moved c s s' log _
          (λ user. nothing_told _ log user (λ o. rw (route, if◌then◌else◌) refl)) h
    fill_info-IsCoherent c s s' log crashed route h =
        all_moved c s s' log _
          (λ user. nothing_told _ log user (λ o. rw (route, if◌then◌else◌) refl)) h
    fill_info-IsCoherent c s s' log (written code m b) route h = elim (Bool-cases (code == 200)) [
      | inl good ↦
          rw (good, if◌then◌else◌)
            (set_entry uid (entry_of m b) c s s' log _
              (λ user apart. others_told (exchange (written code m b)) log user apart)
              (λ proper. inr (
                inr (
                  m,
                  b,
                  refl,
                  own_told (exchange (written code m b)) log
                      ∙ rw (route, if◌then◌else◌, good, if◌then◌else◌) refl,
                )))
              h)
      | inr bad ↦
          rw (bad, if◌then◌else◌)
            (all_moved c s s' log _
              (λ user.
                nothing_told _ log user (λ o. rw (route, if◌then◌else◌, bad, if◌then◌else◌) refl))
              h)
    ]

    -- Neither info/collections nor a change
    idle :
        (answer : Response) (log : List Exchange)
        → is_info_collections method path ≡ false
        → is_change method ≡ false
        → (user : Text) → last_told user (exchange answer ∷ log) ≡ last_told user log
    idle answer log other read user =
        nothing_told _ log user (λ o. rw (other, if◌then◌else◌, read, if◌then◌else◌) refl)

    fill_config-IsCoherent :
        (c : store.Cache) (s s' : next.State) (log : List Exchange) (answer : Response)
        → is_info_collections method path ≡ false
        → is_change method ≡ false
        → IsCoherent (c, (s, log))
        → IsCoherent (fill_config f store (logged next) (answer, (s', exchange answer ∷ log)) c).1
    fill_config-IsCoherent c s s' log (problem p) other read h =
        all_moved c s s' log _ (idle (problem p) log other read) h
    fill_config-IsCoherent c s s' log crashed other read h =
        all_moved c s s' log _ (idle crashed log other read) h
    fill_config-IsCoherent c s s' log (written code m b) other read h =
        let same = idle (written code m b) log other read in
        elim (Bool-cases (code == 200)) [
          | inl good ↦
              rw (good, if◌then◌else◌)
                (set_entry (codes "config") b c s s' log _ (λ user apart. same user)
                  (λ proper. absurd (cc (config_is_config))) h)
          | inr bad ↦ rw (bad, if◌then◌else◌) (all_moved c s s' log _ same h)
        ]

    module _ (r : Request) where
      info_entry-IsCoherent :
          (c : store.Cache) (s : next.State) (log : List Exchange) (o : Option Text)
          → is_info_collections method path ≡ true
          → IsCoherent (c, (s, log))
          → IsCoherent (info_by_entry f store (logged next) uid method path r (c, (s, log)) o).1
      info_entry-IsCoherent c s log none route h =
          fill_info-IsCoherent c s ((next.serve uid method path r s).1) log
            ((next.serve uid method path r s).0) route h
      info_entry-IsCoherent c s log (some []) route h =
          fill_info-IsCoherent c s ((next.serve uid method path r s).1) log
            ((next.serve uid method path r s).0) route h
      info_entry-IsCoherent c s log (some (x ∷ bytes)) route h = h

      config_entry-IsCoherent :
          (c : store.Cache) (s : next.State) (log : List Exchange) (o : Option Text)
          → is_info_collections method path ≡ false
          → is_change method ≡ false
          → IsCoherent (c, (s, log))
          → IsCoherent (config_by_entry f store (logged next) uid method path r (c, (s, log)) o).1
      config_entry-IsCoherent c s log none other read h =
          fill_config-IsCoherent c s ((next.serve uid method path r s).1) log
            ((next.serve uid method path r s).0) other read h
      config_entry-IsCoherent c s log (some []) other read h =
          fill_config-IsCoherent c s ((next.serve uid method path r s).1) log
            ((next.serve uid method path r s).0) other read h
      config_entry-IsCoherent c s log (some (x ∷ bytes)) other read h = h

      passed-IsCoherent :
          (c : store.Cache) (s : next.State) (log : List Exchange) (change : Bool)
          → is_info_collections method path ≡ false
          → is_change method ≡ change
          → IsCoherent (c, (s, log))
          → IsCoherent
              (passed f store
                (logged next)
                ((logged next).serve uid method path r (s, log))
                (clear_if f store (logged next) change uid c)).1
      passed-IsCoherent c s log true other e h =
          set_entry uid [] c s _ log _ (λ user apart. others_told (exchange _) log user apart)
            (λ proper. inr (inl refl)) h
      passed-IsCoherent c s log false other e h = all_moved c s _ log _ (idle _ log other e) h

  -- Whatever the handler behind the cache answers, and while the store gives back what was set last
  -- under a name or loses it, requests that are served one after the other keep the entries coherent:
  -- of every user but one named config, what is cached, if anything is and it was not cleared, is the
  -- list and the first 13 bytes of the time that this handler told last, and since then no change of
  -- the user was served.
  pub cache_serve_http_lem :
      (session : Option Text) (method path : Text) (r : Request) (w : Cached f store (logged next))
      → IsCoherent w
      → IsCoherent (cache_serve_http f store (logged next) session method path r w).1
  unfolding cache_serve_http info_collection info_configuration
  cache_serve_http_lem none method path r (c, (s, log)) h = h
  cache_serve_http_lem (some uid) method path r (c, (s, log)) h =
      elim (Bool-cases (is_info_collections method path)) [
        | inl info ↦
            rw (info, if◌then◌else◌)
              (info_entry-IsCoherent uid method path r c s log (store.get uid c) info h)
        | inr other ↦
            rw (other, if◌then◌else◌)
              (elim (Bool-cases (is_info_configuration method path)) [
                | inl config ↦
                    rw (config, if◌then◌else◌)
                      (config_entry-IsCoherent uid method path r c s log
                        (store.get (codes "config") c) other (get_no_change method (ground arith))
                        h)
                | inr rest ↦
                    rw (rest, if◌then◌else◌)
                      (passed-IsCoherent uid method path r c s log (is_change method) other refl h)
              ])
      ]
