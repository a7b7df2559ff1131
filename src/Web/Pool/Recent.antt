-- ===== src/Web/Pool/Recent.antt =====
-- The list of recently used elements: what finding and removing a node do to it.
use go_syncstorage.Prelude.{
  ℕ, ◌≡◌, ◌≢◌, ◌⊎◌, refl, Bool, true, false, Option, none, some, List, [], ◌∷◌, arith, ◌==◌,
  if◌then◌else◌, inl, inr, ==_iff,
}
use go_syncstorage.Prelude.Text.{Text, text_eq, text_eq_iff}
use go_syncstorage.Web.Pool.{Element, find_node, remove_node, back}

-- The element of a user
unfoldable pub find_uid : Text → List Element → Option Element
find_uid u [] = none
find_uid u (e ∷ l) = if text_eq u e.uid then some e else find_uid u l

-- No element of the list has the user or the handler of `e`.
abbrev pub Apart : Element → List Element → Type 0
Apart e [] = Unit
Apart e (x ∷ l) = (text_eq e.uid x.uid ≡ false) × (x.handler ≢ e.handler) × Apart e l

abbrev pub Distinct : List Element → Type 0
Distinct [] = Unit
Distinct (e ∷ l) = Apart e l × Distinct l

abbrev pub All : (Element → Type 0) → List Element → Type 0
All P [] = Unit
All P (e ∷ l) = P e × All P l

pub remove_node-Apart : (e : Element) (l : List Element) → Apart e l → remove_node e.handler l ≡ l
unfolding remove_node
remove_node-Apart e [] a = refl
remove_node-Apart e (x ∷ l) (t, n, a) = ground (arith, remove_node-Apart e l a)

pub find_uid-Apart : (e : Element) (l : List Element) → Apart e l → find_uid e.uid l ≡ none
unfolding find_uid
find_uid-Apart e [] a = refl
find_uid-Apart e (x ∷ l) (t, n, a) = rw t (find_uid-Apart e l a)

-- What a search that succeeded met at the head
pub found_cases :
    {A : Type 0} (b : Bool) {x e : A} {o : Option A}
    → (if b then some x else o) ≡ some e
    → ((b ≡ true) × (x ≡ e)) ⊎ ((b ≡ false) × (o ≡ some e))
found_cases true h = inl (refl, cc)
found_cases false h = inr (refl, h)

pub Apart-find_node :
    (x : Element) (l : List Element) (n : ℕ) {e : Element}
    → Apart x l
    → find_node n l ≡ some e
    → (text_eq x.uid e.uid ≡ false) × (e.handler ≢ x.handler)
unfolding find_node
Apart-find_node x [] n a h = absurd (cc)
Apart-find_node x (y ∷ l) n (t, d, a) h = elim (found_cases (y.handler == n) h) [
  | inl (same, e) ↦ rw (← e) (t, d)
  | inr (other, rest) ↦ Apart-find_node x l n a rest
]

pub find_node-handler :
    (l : List Element) (n : ℕ) {e : Element} → find_node n l ≡ some e → e.handler ≡ n
unfolding find_node
find_node-handler [] n h = absurd (cc)
find_node-handler (y ∷ l) n h = elim (found_cases (y.handler == n) h) [
  | inl (same, e) ↦ rw (← e) ((==_iff y.handler n).0 same)
  | inr (other, rest) ↦ find_node-handler l n rest
]

pub find_uid-uid : (u : Text) (l : List Element) {e : Element} → find_uid u l ≡ some e → u ≡ e.uid
unfolding find_uid
find_uid-uid u [] h = absurd (cc)
find_uid-uid u (y ∷ l) h = elim (found_cases (text_eq u y.uid) h) [
  | inl (same, e) ↦ rw (← e) ((text_eq_iff u y.uid).0 same)
  | inr (other, rest) ↦ find_uid-uid u l rest
]

Apart-find_uid :
    (x : Element) (l : List Element) (u : Text) {e : Element}
    → Apart x l
    → find_uid u l ≡ some e
    → (text_eq x.uid e.uid ≡ false) × (e.handler ≢ x.handler)
unfolding find_uid
Apart-find_uid x [] u a h = absurd (cc)
Apart-find_uid x (y ∷ l) u (t, d, a) h = elim (found_cases (text_eq u y.uid) h) [
  | inl (same, e) ↦ rw (← e) (t, d)
  | inr (other, rest) ↦ Apart-find_uid x l u a rest
]

find_node-head : (e : Element) (l : List Element) → find_node e.handler (e ∷ l) ≡ some e
unfolding find_node
find_node-head e l = ground arith

find_node-tail :
    (x e : Element) (l : List Element)
    → e.handler ≢ x.handler
    → find_node e.handler (x ∷ l) ≡ find_node e.handler l
unfolding find_node
find_node-tail x e l d = ground arith

-- The node of a user's element holds that element.
pub find_node-find_uid :
    (l : List Element) (u : Text) {e : Element}
    → Distinct l
    → find_uid u l ≡ some e
    → find_node e.handler l ≡ some e
unfolding find_uid
find_node-find_uid [] u d h = absurd (cc)
find_node-find_uid (y ∷ l) u {e = e} (a, d) h = elim (found_cases (text_eq u y.uid) h) [
  | inl (same, e') ↦ rw (← e') (find_node-head y l)
  | inr (other, rest) ↦
      rw (find_node-tail y e l ((Apart-find_uid y l u a rest).1)) (find_node-find_uid l u d rest)
]

-- The back element is in the list, at its own node.
pub find_node-back :
    (l : List Element) {e : Element} → Distinct l → back l ≡ some e → find_node e.handler l ≡ some e
unfolding back
find_node-back [] d h = absurd (cc)
find_node-back (x ∷ []) {e = e} d h = let same : x ≡ e = cc in rw (← same) (find_node-head x [])
find_node-back (x ∷ y ∷ l) {e = e} (a, d) h =
    let rest = find_node-back (y ∷ l) d h in
    rw (find_node-tail x e (y ∷ l) ((Apart-find_node x (y ∷ l) e.handler a rest).1)) rest
