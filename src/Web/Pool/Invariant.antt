-- ===== src/Web/Pool/Invariant.antt =====
-- What holds of a pool between two calls: its two maps are views of the list of recently used
-- elements, which holds one handler for each of its users.
use go_syncstorage.Prelude.{
  ℕ, ◌<◌, ◌≡◌, refl, ap, sym, ◌∙◌, Bool, true, false, Option, none, some, List, ◌∷◌, arith, ◌==◌,
  if◌then◌else◌, Bool-cases, inl, inr, ==_iff,
}
use go_syncstorage.Prelude.Text.{Text, text_eq, text_eq_iff}
use go_syncstorage.Prelude.Assoc.{find_key, find_key-remove_key}
use go_syncstorage.Web.Pool.{
  Element, Pool, new_handler_pool, find_node, remove_node, member, stop_http, forget,
}
use go_syncstorage.Web.Pool.Recent.{Distinct, All, find_uid, find_node-find_uid}
use go_syncstorage.Web.Pool.Removal.{
  find_uid-remove_node, Distinct-remove_node, Apart-removed, All-remove_node, All-find_node,
}

abbrev pub number_of : Option Element → Option ℕ
number_of none = none
number_of (some e) = some e.handler

-- A handler that was made
abbrev pub IsMade : ℕ → Element → Type 0
IsMade made e = e.handler < made

pub record IsValid (p : Pool) : Type 0 where
  pub elements_of : (u : Text) → find_key u p.elements ≡ find_uid u p.lru
  pub nodes_of : (u : Text) → find_key u p.lrumap ≡ number_of (find_uid u p.lru)
  pub distinct : Distinct p.lru
  pub numbered : All (IsMade p.made) p.lru
  pub stopped_made : (n : ℕ) → member n p.stopped ≡ true → n < p.made

pub new_handler_pool-IsValid :
    (base : List Text) (max_pool_size : ℕ) → IsValid (new_handler_pool base max_pool_size)
unfolding new_handler_pool find_uid member
new_handler_pool-IsValid base max_pool_size = record {
  elements_of = λ u. refl;
  nodes_of = λ u. refl;
  distinct = tt;
  numbered = tt;
  stopped_made = λ n h. absurd (cc);
}

number_after :
    (b : Bool) (o : Option Element)
    → number_of (if b then none else o) ≡ (if b then none else number_of o)
number_after true o = refl
number_after false o = refl

-- Stopping an element of the pool and taking it out keeps a pool valid.
pub forget-IsValid :
    (e : Element) (p : Pool)
    → IsValid p
    → find_node e.handler p.lru ≡ some e
    → IsValid (forget e (stop_http e p))
unfolding forget
forget-IsValid e p v h =
    let gone = λ (u : Text). find_uid-remove_node u e p.lru v.distinct h in
    let made = All-find_node (IsMade p.made) e.handler p.lru e v.numbered h in
    record {
      elements_of = λ u. rw (find_key-remove_key e.uid u p.elements, v.elements_of u, gone u) refl;
      nodes_of = λ u.
          rw (find_key-remove_key e.uid u p.lrumap, v.nodes_of u, gone u)
            (sym (number_after (text_eq u e.uid) (find_uid u p.lru)));
      distinct = Distinct-remove_node e.handler p.lru v.distinct;
      numbered = All-remove_node (IsMade p.made) e.handler p.lru v.numbered;
      stopped_made = λ n s. elim (Bool-cases (e.handler == n)) [
        | inl same ↦ rw (← (==_iff e.handler n).0 same) made
        | inr other ↦ v.stopped_made n (unfold member in ground arith)
      ];
    }

-- So does stopping one of its handlers.
pub stop_http-IsValid :
    (e : Element) (p : Pool)
    → IsValid p
    → find_node e.handler p.lru ≡ some e
    → IsValid (stop_http e p)
stop_http-IsValid e p v h =
    let made = All-find_node (IsMade p.made) e.handler p.lru e v.numbered h in
    record {
      elements_of = v.elements_of;
      nodes_of = v.nodes_of;
      distinct = v.distinct;
      numbered = v.numbered;
      stopped_made = λ n s. elim (Bool-cases (e.handler == n)) [
        | inl same ↦ rw (← (==_iff e.handler n).0 same) made
        | inr other ↦ v.stopped_made n (unfold member in ground arith)
      ];
    }

moved_same :
    (u : Text) (e : Element) (l : List Element)
    → Distinct l
    → find_uid e.uid l ≡ some e
    → find_uid u (e ∷ remove_node e.handler l) ≡ find_uid u l
unfolding find_uid
moved_same u e l d h = elim (Bool-cases (text_eq u e.uid)) [
  | inl same ↦ rw (same, (text_eq_iff u e.uid).0 same) (sym h)
  | inr other ↦
      rw other (find_uid-remove_node u e l d (find_node-find_uid l e.uid d h) ∙ rw other refl)
]

-- Moving an element to the front keeps a pool valid.
pub moved-IsValid :
    (e : Element) (p : Pool)
    → IsValid p
    → find_uid e.uid p.lru ≡ some e
    → IsValid (record p { lru = e ∷ remove_node e.handler p.lru })
moved-IsValid e p v h =
    let node = find_node-find_uid p.lru e.uid v.distinct h in
    let same = λ (u : Text). moved_same u e p.lru v.distinct h in
    record {
      elements_of = λ u. v.elements_of u ∙ sym (same u);
      nodes_of = λ u. v.nodes_of u ∙ ap number_of (sym (same u));
      distinct =
          (Apart-removed e p.lru v.distinct node, Distinct-remove_node e.handler p.lru v.distinct);
      numbered = (
        All-find_node (IsMade p.made) e.handler p.lru e v.numbered node,
        All-remove_node (IsMade p.made) e.handler p.lru v.numbered,
      );
      stopped_made = v.stopped_made;
    }
