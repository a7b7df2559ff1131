-- ===== src/Web/Pool/Eviction.antt =====
-- Which elements cleanupHandlers takes out, and the pool that it leaves.
use go_syncstorage.Prelude.{
  ℕ, zero, suc, ◌+◌, ◌-◌, ◌/◌, ◌≤◌, ◌≡◌, refl, ap, sym, ◌∙◌, Bool, true, false, Option, none, some,
  List, [], ◌∷◌, arith, ltb, if◌then◌else◌, length, length-take, take, Bool-cases, Option-cases,
  inl, inr,
}
use go_syncstorage.Prelude.Text.{Text, text_eq}
use go_syncstorage.Web.Pool.{
  Element, Pool, find_node, remove_node, back, stop_http, forget, cleanup_handlers, make_room,
}
use go_syncstorage.Web.Pool.Recent.{Distinct, find_uid, find_node-back, Apart-find_node}
use go_syncstorage.Web.Pool.Removal.{remove_node-head, remove_node-tail, find_uid-remove_node}
use go_syncstorage.Web.Pool.Invariant.{IsValid, forget-IsValid}

take-take : {A : Type 0} (i j : ℕ) (l : List A) → i ≤ j → take i (take j l) ≡ take i l
take-take zero j l h = refl
take-take (suc i) (suc j) [] h = refl
take-take (suc i) (suc j) (x ∷ l) h = ap (◌∷◌ x) (take-take i j l (omega arith))
take-take (suc i) zero l h = absurd (omega arith)

take_whole : {A : Type 0} (l : List A) → take (length l) l ≡ l
take_whole [] = refl
take_whole (x ∷ l) = ap (◌∷◌ x) (take_whole l)

pub take_none : {A : Type 0} (k : ℕ) (l : List A) → k ≡ 0 → take k l ≡ []
take_none k l e = rw e refl

take_nil : {A : Type 0} (k : ℕ) → take {A = A} k [] ≡ []
take_nil zero = refl
take_nil (suc k) = refl

remove_node_nil : (n : ℕ) → remove_node n [] ≡ []
unfolding remove_node
remove_node_nil n = refl

-- Removing the back is keeping all but the last.
remove_node-back :
    (l : List Element) {e : Element}
    → Distinct l
    → back l ≡ some e
    → remove_node e.handler l ≡ take (length l - 1) l
remove_node-back [] d h = absurd (unfold back in cc)
remove_node-back (x ∷ []) {e = e} d h =
    let same : x ≡ e = unfold back in cc in
    rw (← same) (
      remove_node-head x []
      ∙ remove_node_nil x.handler
      ∙ sym (take_none (length (x ∷ []) - 1) (x ∷ []) (omega arith)))
remove_node-back (x ∷ y ∷ l) {e = e} (a, d) h =
    let h' : back (y ∷ l) ≡ some e = unfold back in h in
    let node = find_node-back (y ∷ l) d h' in
    let index : suc (suc (length l)) - 1 ≡ suc (suc (length l) - 1) = omega arith in
    rw (index, remove_node-tail x e (y ∷ l) ((Apart-find_node x (y ∷ l) e.handler a node).1))
      (ap (◌∷◌ x) (remove_node-back (y ∷ l) d h'))

back-none : (l : List Element) → back l ≡ none → l ≡ []
unfolding back
back-none [] h = refl
back-none (x ∷ []) h = absurd (cc)
back-none (x ∷ y ∷ l) h = absurd (let e = back-none (y ∷ l) h in cc)

-- What cleanupHandlers leaves as it was
pub record Keeps (p q : Pool) : Type 0 where
  pub base : q.base ≡ p.base
  pub made : q.made ≡ p.made
  pub size : q.max_pool_size ≡ p.max_pool_size
  pub absent : (u : Text) → find_uid u p.lru ≡ none → find_uid u q.lru ≡ none

absent_after : (b : Bool) {o : Option Element} → o ≡ none → (if b then none else o) ≡ none
absent_after true h = refl
absent_after false h = h

Keeps-forgotten :
    {q : Pool} (e : Element) (p : Pool)
    → IsValid p
    → find_node e.handler p.lru ≡ some e
    → Keeps (forget e (stop_http e p)) q
    → Keeps p q
unfolding forget
Keeps-forgotten e p v node k = record {
  base = k.base;
  made = k.made;
  size = k.size;
  absent = λ u h.
      k.absent u
        (find_uid-remove_node u e p.lru v.distinct node ∙ absent_after (text_eq u e.uid) h);
}

-- Taking from the list without its back
without_back :
    (n : ℕ) (e : Element) (l : List Element)
    → Distinct l
    → back l ≡ some e
    → take (length (remove_node e.handler l) - n) (remove_node e.handler l)
      ≡ take (length l - suc n) l
without_back n e l d h =
    let size : length (take (length l - 1) l) - n ≡ length l - suc n =
      omega (arith, length-take (length l - 1) l) in
    rw (remove_node-back l d h, size) (take-take (length l - suc n) (length l - 1) l (omega arith))

-- Cleaning `n` handlers of a valid pool leaves a valid pool with the elements that were used most
-- recently, all but `n` of them, and makes nobody present.
pub cleanup_handlers_lem :
    (n : ℕ) (p : Pool)
    → IsValid p
    → IsValid (cleanup_handlers n p)
      × ((cleanup_handlers n p).lru ≡ take (length p.lru - n) p.lru)
      × Keeps p (cleanup_handlers n p)
unfolding cleanup_handlers forget
cleanup_handlers_lem zero p v =
    let whole : length p.lru - 0 ≡ length p.lru = omega arith in
    (
      v,
      rw (whole) (sym (take_whole p.lru)),
      record { base = refl; made = refl; size = refl; absent = λ u h. h },
    )
cleanup_handlers_lem (suc n) p v = elim (Option-cases (back p.lru)) [
  | inl h ↦
      rw (h, cleanup_handlers)
        (
          v,
          rw (back-none p.lru h) (sym (take_nil (0 - suc n))),
          record { base = refl; made = refl; size = refl; absent = λ u h. h },
        )
  | inr (e, h) ↦
      let node = find_node-back p.lru v.distinct h in
      let (v', l, k) =
        cleanup_handlers_lem n (forget e (stop_http e p)) (forget-IsValid e p v node) in
      rw (h, cleanup_handlers)
        (v', l ∙ without_back n e p.lru v.distinct h, Keeps-forgotten e p v node k)
]

-- The list of a valid pool after room was made in it
abbrev pub kept : Pool → List Element
kept p =
    if ltb p.max_pool_size (length p.lru)
    then take (length p.lru - (1 + p.max_pool_size / 10)) p.lru
    else p.lru

pub make_room_lem :
    (p : Pool)
    → IsValid p
    → IsValid (make_room p) × ((make_room p).lru ≡ kept p) × Keeps p (make_room p)
unfolding make_room
make_room_lem p v = elim (Bool-cases (ltb p.max_pool_size (length p.lru))) [
  | inl full ↦ rw full (cleanup_handlers_lem (1 + p.max_pool_size / 10) p v)
  | inr fits ↦
      rw fits (v, refl, record { base = refl; made = refl; size = refl; absent = λ u h. h })
]

-- Whatever the size was, there is room for one more.
pub length-kept :
    (p : Pool) → length p.lru ≤ suc p.max_pool_size → length (kept p) ≤ p.max_pool_size
length-kept p h = elim (Bool-cases (ltb p.max_pool_size (length p.lru))) [
  | inl full ↦
      rw full (omega (arith, length-take (length p.lru - (1 + p.max_pool_size / 10)) p.lru))
  | inr fits ↦ rw fits (ground arith)
]
