-- ===== src/Web/Pool/Stop.antt =====
-- web/syncPoolHandler_elements.go: stopHandlers and cleanupHandlers, the elements and the handlers after them.
use go_syncstorage.Prelude.{
  ℕ, zero, suc, ◌-◌, ◌≡◌, ◌⊎◌, refl, ap, ◌∙◌, true, none, some, List, [], ◌∷◌, arith, ◌==◌, length,
  Bool-cases, Option-cases, inl, inr,
}
use go_syncstorage.Prelude.Text.{Text, text_eq, text_eq_iff}
use go_syncstorage.Prelude.Assoc.{find_key}
use go_syncstorage.Web.Pool.{
  Element, Pool, back, member, stop_http, forget, cleanup_handlers, stop_handlers,
}
use go_syncstorage.Web.Pool.Recent.{find_uid, find_node-back}
use go_syncstorage.Web.Pool.Removal.{find_uid-remove_node, find_uid-find_node}
use go_syncstorage.Web.Pool.Invariant.{IsValid, forget-IsValid, number_of}
use go_syncstorage.Web.Pool.Create.{stopped_now}
use go_syncstorage.Web.Pool.Eviction.{cleanup_handlers_lem, take_none}

member-cons : (n m : ℕ) (l : List ℕ) → member n l ≡ true → member n (m ∷ l) ≡ true
unfolding member
member-cons n m l h = elim (Bool-cases (m == n)) [ inl e ↦ rw e refl | inr e ↦ rw e h ]

-- A stopped handler stays stopped.
cleanup_handlers-stopped :
    (n m : ℕ) (p : Pool)
    → member m p.stopped ≡ true
    → member m (cleanup_handlers n p).stopped ≡ true
unfolding cleanup_handlers forget
cleanup_handlers-stopped zero m p h = h
cleanup_handlers-stopped (suc n) m p h = elim (Option-cases (back p.lru)) [
  | inl e ↦ rw (e, cleanup_handlers) h
  | inr (x, e) ↦
      rw (e, cleanup_handlers)
        (cleanup_handlers-stopped n m (forget x (stop_http x p))
          (member-cons m x.handler p.stopped h))
]

-- The element that a user has in a valid pool is the back one if the users are the same.
back_of_user :
    (u : Text) (e x : Element) (p : Pool)
    → IsValid p
    → find_uid u p.lru ≡ some e
    → back p.lru ≡ some x
    → text_eq u x.uid ≡ true
    → e ≡ x
back_of_user u e x p v h b t =
    let at : find_uid x.uid p.lru ≡ some x =
      find_uid-find_node x p.lru v.distinct (find_node-back p.lru v.distinct b) in
    let user : find_uid u p.lru ≡ some x = rw ((text_eq_iff u x.uid).0 t) at in cc

-- An element of a valid pool is kept by cleanupHandlers or its handler is stopped.
kept_or_stopped :
    (n : ℕ) (u : Text) (e : Element) (p : Pool)
    → IsValid p
    → find_uid u p.lru ≡ some e
    → (find_uid u (cleanup_handlers n p).lru ≡ some e)
      ⊎ (member e.handler (cleanup_handlers n p).stopped ≡ true)
unfolding cleanup_handlers forget
kept_or_stopped zero u e p v h = inl h
kept_or_stopped (suc n) u e p v h = elim (Option-cases (back p.lru)) [
  | inl b ↦ rw (b, cleanup_handlers) (inl h)
  | inr (x, b) ↦
      let node = find_node-back p.lru v.distinct b in
      rw (b, cleanup_handlers)
        (elim (Bool-cases (text_eq u x.uid)) [
          | inl t ↦ inr (
              cleanup_handlers-stopped n e.handler (forget x (stop_http x p))
                (rw (back_of_user u e x p v h b t) (stopped_now x p)))
          | inr t ↦
              kept_or_stopped n u e (forget x (stop_http x p)) (forget-IsValid x p v node)
                (find_uid-remove_node u x p.lru v.distinct node ∙ rw t h)
        ])
]

find_uid_empty : {l : List Element} (u : Text) → l ≡ [] → find_uid u l ≡ none
unfolding find_uid
find_uid_empty u e = rw e refl

-- Stopping the handlers of a valid pool leaves no element in its list nor in its two maps, and the
-- handler of every user who had one is stopped.
pub stop_handlers_lem :
    (p : Pool)
    → IsValid p
    → ((stop_handlers p).lru ≡ [])
      × ((u : Text) → find_key u (stop_handlers p).elements ≡ none)
      × ((u : Text) → find_key u (stop_handlers p).lrumap ≡ none)
      × ((u : Text) (e : Element)
          → find_uid u p.lru ≡ some e
          → member e.handler (stop_handlers p).stopped ≡ true)
unfolding stop_handlers
stop_handlers_lem p v =
    let (v', l, k) = cleanup_handlers_lem (length p.lru) p v in
    let empty : (cleanup_handlers (length p.lru) p).lru ≡ [] =
      l ∙ take_none (length p.lru - length p.lru) p.lru (omega arith) in
    let nobody = λ (u : Text). find_uid_empty u empty in
    (
      empty,
      λ u. v'.elements_of u ∙ nobody u,
      λ u. v'.nodes_of u ∙ ap number_of (nobody u),
      λ u e h. elim (kept_or_stopped (length p.lru) u e p v h) [
        | inl still ↦ absurd (let none_left = nobody u in cc)
        | inr stopped ↦ stopped
      ],
    )
