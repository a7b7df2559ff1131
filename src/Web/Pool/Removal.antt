-- ===== src/Web/Pool/Removal.antt =====
-- What is left of the list of recently used elements when a node is taken out of it.
use go_syncstorage.Prelude.{
  ℕ, suc, ◌≡◌, ◌≢◌, ◌⊎◌, refl, ap, sym, false, none, some, List, [], ◌∷◌, arith, ◌==◌,
  if◌then◌else◌, length, Bool-cases, inl, inr,
}
use go_syncstorage.Prelude.Text.{Text, text_eq, text_eq_iff, text_eq_refl, text_eq-swap}
use go_syncstorage.Web.Pool.{Element, find_node, remove_node}
use go_syncstorage.Web.Pool.Recent.{
  Apart, Distinct, All, find_uid, remove_node-Apart, find_uid-Apart, found_cases, Apart-find_node,
}

pub remove_node-head :
    (e : Element) (l : List Element) → remove_node e.handler (e ∷ l) ≡ remove_node e.handler l
unfolding remove_node
remove_node-head e l = ground arith

pub remove_node-tail :
    (x e : Element) (l : List Element)
    → e.handler ≢ x.handler
    → remove_node e.handler (x ∷ l) ≡ x ∷ remove_node e.handler l
unfolding remove_node
remove_node-tail x e l d = ground arith

-- An element at its own node is the first one, or it stands in the rest.
at_node :
    (x e : Element) (l : List Element)
    → find_node e.handler (x ∷ l) ≡ some e
    → (x ≡ e) ⊎ (find_node e.handler l ≡ some e)
unfolding find_node
at_node x e l h = elim (found_cases (x.handler == e.handler) h) [
  | inl (same, e) ↦ inl e
  | inr (other, rest) ↦ inr rest
]

first_removed :
    (u : Text) (x : Element) (l : List Element)
    → Apart x l
    → find_uid u l ≡ (if text_eq u x.uid then none else find_uid u (x ∷ l))
unfolding find_uid
first_removed u x l a = elim (Bool-cases (text_eq u x.uid)) [
  | inl same ↦ rw (same, (text_eq_iff u x.uid).0 same) (find_uid-Apart x l a)
  | inr other ↦ rw other refl
]

later_removed :
    (u : Text) (x e : Element) (l l' : List Element)
    → text_eq x.uid e.uid ≡ false
    → find_uid u l' ≡ (if text_eq u e.uid then none else find_uid u l)
    → find_uid u (x ∷ l') ≡ (if text_eq u e.uid then none else find_uid u (x ∷ l))
unfolding find_uid
later_removed u x e l l' t ih = elim (Bool-cases (text_eq u x.uid)) [
  | inl same ↦
      let apart : text_eq u e.uid ≡ false = rw ((text_eq_iff u x.uid).0 same) t in
      rw (same, apart) refl
  | inr other ↦ rw (other, ih) refl
]

-- Removing the node of an element removes its user, and nobody else.
pub find_uid-remove_node :
    (u : Text) (e : Element) (l : List Element)
    → Distinct l
    → find_node e.handler l ≡ some e
    → find_uid u (remove_node e.handler l) ≡ (if text_eq u e.uid then none else find_uid u l)
find_uid-remove_node u e [] d h = absurd (unfold find_node in cc)
find_uid-remove_node u e (x ∷ l) (a, d) h = elim (at_node x e l h) [
  | inl same ↦ rw (← same, remove_node-head x l, remove_node-Apart x l a) (first_removed u x l a)
  | inr rest ↦
      let (t, n) = Apart-find_node x l e.handler a rest in
      rw (remove_node-tail x e l n)
        (later_removed u x e l (remove_node e.handler l) t (find_uid-remove_node u e l d rest))
]

pub Apart-remove_node :
    (x : Element) (n : ℕ) (l : List Element) → Apart x l → Apart x (remove_node n l)
unfolding remove_node
Apart-remove_node x n [] a = a
Apart-remove_node x n (y ∷ l) (t, d, a) = elim (Bool-cases (y.handler == n)) [
  | inl same ↦ rw same (Apart-remove_node x n l a)
  | inr other ↦ rw other (t, d, Apart-remove_node x n l a)
]

pub Distinct-remove_node : (n : ℕ) (l : List Element) → Distinct l → Distinct (remove_node n l)
unfolding remove_node
Distinct-remove_node n [] d = d
Distinct-remove_node n (y ∷ l) (a, d) = elim (Bool-cases (y.handler == n)) [
  | inl same ↦ rw same (Distinct-remove_node n l d)
  | inr other ↦ rw other (Apart-remove_node y n l a, Distinct-remove_node n l d)
]

-- An element is apart from the list without it.
pub Apart-removed :
    (e : Element) (l : List Element)
    → Distinct l
    → find_node e.handler l ≡ some e
    → Apart e (remove_node e.handler l)
Apart-removed e [] d h = absurd (unfold find_node in cc)
Apart-removed e (x ∷ l) (a, d) h = elim (at_node x e l h) [
  | inl same ↦ rw (← same, remove_node-head x l, remove_node-Apart x l a) a
  | inr rest ↦
      let (t, n) = Apart-find_node x l e.handler a rest in
      rw (remove_node-tail x e l n)
        (text_eq-swap x.uid e.uid t, λ h. n (sym h), Apart-removed e l d rest)
]

pub length-remove_node :
    (e : Element) (l : List Element)
    → Distinct l
    → find_node e.handler l ≡ some e
    → suc (length (remove_node e.handler l)) ≡ length l
length-remove_node e [] d h = absurd (unfold find_node in cc)
length-remove_node e (x ∷ l) (a, d) h = elim (at_node x e l h) [
  | inl same ↦ rw (← same, remove_node-head x l, remove_node-Apart x l a) refl
  | inr rest ↦
      let (t, n) = Apart-find_node x l e.handler a rest in
      rw (remove_node-tail x e l n) (ap suc (length-remove_node e l d rest))
]

pub All-remove_node :
    (P : Element → Type 0) (n : ℕ) (l : List Element) → All P l → All P (remove_node n l)
unfolding remove_node
All-remove_node P n [] a = a
All-remove_node P n (y ∷ l) (p, a) = elim (Bool-cases (y.handler == n)) [
  | inl same ↦ rw same (All-remove_node P n l a)
  | inr other ↦ rw other (p, All-remove_node P n l a)
]

pub All-find_node :
    (P : Element → Type 0) (n : ℕ) (l : List Element) (e : Element)
    → All P l
    → find_node n l ≡ some e
    → P e
unfolding find_node
All-find_node P n [] e a h = absurd (cc)
All-find_node P n (y ∷ l) e (p, a) h = elim (found_cases (y.handler == n) h) [
  | inl (same, e) ↦ rw (← e) p
  | inr (other, rest) ↦ All-find_node P n l e a rest
]

-- The element at a node is the one that its user has.
pub find_uid-find_node :
    (e : Element) (l : List Element)
    → Distinct l
    → find_node e.handler l ≡ some e
    → find_uid e.uid l ≡ some e
unfolding find_uid
find_uid-find_node e [] d h = absurd (unfold find_node in cc)
find_uid-find_node e (x ∷ l) (a, d) h = elim (at_node x e l h) [
  | inl same ↦ rw (← same, text_eq_refl x.uid) refl
  | inr rest ↦
      let (t, n) = Apart-find_node x l e.handler a rest in
      rw (text_eq-swap x.uid e.uid t) (find_uid-find_node e l d rest)
]
