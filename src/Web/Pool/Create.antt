-- ===== src/Web/Pool/Create.antt =====
-- web/syncPoolHandler_elements.go: getElement for a user who has no element.
use go_syncstorage.Prelude.{
  ℕ, suc, ◌+◌, ◌≤◌, ◌≡◌, refl, sym, ◌∙◌, Bool, true, false, Option, none, some, List, [], ◌∷◌,
  arith, if◌then◌else◌, length, Bool-cases, inl, inr,
}
use go_syncstorage.Prelude.Text.{Text, codes, text_eq}
use go_syncstorage.Prelude.Assoc.{find_key-remove_key}
use go_syncstorage.Web.Pool.{
  Element, Pool, PoolError, no_data_dir, no_db, Got, got, failed, Files, member, is_stopped,
  stop_http, make_room, fresh, insert_element, open_element, path_and_file, memory_only,
  create_element,
}
use go_syncstorage.Web.Pool.Recent.{Apart, All, find_uid}
use go_syncstorage.Web.Pool.Invariant.{IsValid, IsMade, number_of}

-- A new element is apart from those of a list without its user.
Apart-fresh :
    (uid : Text) (made : ℕ) (l : List Element)
    → find_uid uid l ≡ none
    → All (IsMade made) l
    → Apart (record { uid = uid; handler = made }) l
unfolding find_uid
Apart-fresh uid made [] h r = tt
Apart-fresh uid made (x ∷ l) h (m, r) = elim (Bool-cases (text_eq uid x.uid)) [
  | inl same ↦ absurd (ground arith)
  | inr other ↦ (other, omega arith, Apart-fresh uid made l (ground arith) r)
]

IsMade-more : (made : ℕ) (l : List Element) → All (IsMade made) l → All (IsMade (made + 1)) l
IsMade-more made [] r = tt
IsMade-more made (x ∷ l) (m, r) = (omega arith, IsMade-more made l r)

put_after :
    {A : Type 0} (b : Bool) (a : A) {o : Option A} (o' : Option A)
    → o ≡ (if b then none else o')
    → (if b then some a else o) ≡ (if b then some a else o')
put_after true a o' h = refl
put_after false a o' h = h

number_put :
    (b : Bool) (e : Element) (o : Option Element)
    → number_of (if b then some e else o) ≡ (if b then some e.handler else number_of o)
number_put true e o = refl
number_put false e o = refl

-- The number of the next handler is not that of a stopped one.
pub not_stopped : (p : Pool) → IsValid p → member p.made p.stopped ≡ false
not_stopped p v = elim (Bool-cases (member p.made p.stopped)) [
  | inl s ↦ absurd (omega (arith, v.stopped_made p.made s))
  | inr n ↦ n
]

-- Putting in a new element of a user who has none keeps a pool valid.
pub insert_element-IsValid :
    (uid : Text) (p : Pool) → IsValid p → find_uid uid p.lru ≡ none → IsValid (insert_element uid p)
unfolding insert_element find_uid
insert_element-IsValid uid p v h = record {
  elements_of = λ u.
      put_after (text_eq u uid) (fresh uid p) (find_uid u p.lru)
        (find_key-remove_key uid u p.elements ∙ rw (v.elements_of u) refl);
  nodes_of = λ u.
      put_after (text_eq u uid) p.made (number_of (find_uid u p.lru))
        (find_key-remove_key uid u p.lrumap ∙ rw (v.nodes_of u) refl)
      ∙ sym (number_put (text_eq u uid) (fresh uid p) (find_uid u p.lru));
  distinct = (Apart-fresh uid p.made p.lru h v.numbered, v.distinct);
  numbered = (omega arith, IsMade-more p.made p.lru v.numbered);
  stopped_made = λ n s. omega (arith, v.stopped_made n s);
}

-- What a call of getElement returned, with the pool behind it: nothing happened, or room was made
-- and no database was opened, or one was
pub data Created (uid : Text) (p : Pool) : Got × Pool → Type 0 where
  untouched : (e : PoolError) → Created uid p (failed e, p)
  emptied : (e : PoolError) → Created uid p (failed e, make_room p)
  opened : Created uid p (got (fresh uid (make_room p)) true, insert_element uid (make_room p))

open_element-Created :
    (b : Bool) (uid : Text) (p : Pool) → Created uid p (open_element b uid (make_room p))
unfolding open_element
open_element-Created true uid p = opened
open_element-Created false uid p = emptied no_db

pub inserted_size :
    (uid : Text) (p : Pool)
    → length p.lru ≤ p.max_pool_size
    → length ((insert_element uid p).lru) ≤ suc ((insert_element uid p).max_pool_size)
unfolding insert_element
inserted_size uid p h = omega arith

pub inserted_first : (uid : Text) (p : Pool) → (insert_element uid p).lru ≡ fresh uid p ∷ p.lru
unfolding insert_element
inserted_first uid p = refl

pub stopped_now : (e : Element) (p : Pool) → is_stopped e.handler (stop_http e p) ≡ true
unfolding member
stopped_now e p = ground arith

module _ (files : Files) where
  pub create_element-Created : (uid : Text) (p : Pool) → Created uid p (create_element files uid p)
  unfolding create_element
  create_element-Created uid p = elim (Bool-cases (memory_only p.base)) [
    | inl memory ↦ rw memory (open_element-Created (files.open_db (codes ":memory:")) uid p)
    | inr disk ↦ rw disk (elim (Bool-cases (files.make_dir ((path_and_file files uid p.base).0))) [
      | inl there ↦ rw there (open_element-Created _ uid p)
      | inr missing ↦ rw missing (untouched no_data_dir)
    ])
  ]
