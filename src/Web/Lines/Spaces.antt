-- ===== src/Web/Lines/Spaces.antt =====
-- web/syncUserHandler_misc.go: the texts that strings.TrimSpace empties.
use mathlib.Core.List.Memᴰ
use mathlib.Core.List.{append-nil, Memᴰ, reverse, reverse-append, reverse-reverse, append_assoc}
use go_syncstorage.Prelude.{
  ℕ, zero, suc, ◌≤◌, ◌≡◌, refl, sym, ap, ◌∙◌, inl, inr, true, false, none, some, List, [], ◌∷◌,
  ◌++◌, map, length, arith, ◌⊎◌, Option-cases, length-append,
}
use go_syncstorage.Prelude.Text.{Text}
use go_syncstorage.Web.Lines.{
  spaces, without_prefix, without_any, first_of, trim_rounds, trim_left, trim_space, is_blank,
}
use go_syncstorage.Web.Lines.Code.{
  is_code, spaces_code, without_prefix-split, without_any-append, code_long, without_any-nil,
}

abbrev pub joined : List Text → Text
joined [] = []
joined (w ∷ ws) = w ++ joined ws

-- All are of the given texts.
abbrev pub AreIn : List Text → List Text → Type 0
AreIn ps [] = Unit
AreIn ps (w ∷ ws) = Memᴰ w ps × AreIn ps ws

-- A text of nothing but white space characters
abbrev pub IsSpaces : Text → Type 0
IsSpaces s = (ws : List Text) × AreIn spaces ws × (s ≡ joined ws)

trim_rounds-none :
    (ps : List Text) (k : ℕ) (s : Text) → without_any ps s ≡ none → trim_rounds ps (suc k) s ≡ s
unfolding trim_rounds
trim_rounds-none ps k s h = rw (trim_rounds, h) refl

trim_rounds-some :
    (ps : List Text) (k : ℕ) (s : Text) {rest : Text}
    → without_any ps s ≡ some rest
    → trim_rounds ps (suc k) s ≡ trim_rounds ps k rest
unfolding trim_rounds
trim_rounds-some ps k s h = rw (trim_rounds, h) refl

-- One round for each byte is enough.
trim_rounds-joined :
    (ps ws : List Text) (k : ℕ)
    → is_code ps ≡ true
    → AreIn ps ws
    → length (joined ws) ≤ k
    → trim_rounds ps k (joined ws) ≡ []
unfolding trim_rounds
trim_rounds-joined ps [] zero h all enough = refl
trim_rounds-joined ps [] (suc k) h all enough = trim_rounds-none ps k [] (without_any-nil ps h)
trim_rounds-joined ps (w ∷ ws) zero h (m, all) enough =
    let long = code_long ps w h m in let e = length-append w (joined ws) in absurd (omega arith)
trim_rounds-joined ps (w ∷ ws) (suc k) h (m, all) enough =
    let long = code_long ps w h m in
    let e = length-append w (joined ws) in
    trim_rounds-some ps k (w ++ joined ws) (without_any-append ps w (joined ws) h m)
    ∙ trim_rounds-joined ps ws k h all (omega arith)

without_any-split :
    (ps : List Text) (s rest : Text)
    → without_any ps s ≡ some rest
    → (w : Text) × Memᴰ w ps × (s ≡ w ++ rest)
unfolding without_any
without_any-split [] s rest h = absurd (cc)
without_any-split (p ∷ ps) s rest h = elim (Option-cases (without_prefix p s)) [
  | inl none_there ↦
      let later : without_any ps s ≡ some rest = rw (none_there, first_of) at h in
      let (w, m, e) = without_any-split ps s rest later in (w, Memᴰ.tail m, e)
  | inr (r, there) ↦
      let same : some r ≡ some rest = rw (there, first_of) at h in
      let e : r ≡ rest = ground arith in
      (p, Memᴰ.head refl, without_prefix-split p s rest (there ∙ same))
]

-- What was taken away
trim_rounds-split :
    (ps : List Text) (k : ℕ) (s : Text)
    → (ws : List Text) × AreIn ps ws × (s ≡ joined ws ++ trim_rounds ps k s)
unfolding trim_rounds
trim_rounds-split ps zero s = ([], tt, refl)
trim_rounds-split ps (suc k) s = elim (Option-cases (without_any ps s)) [
  | inl none_there ↦ ([], tt, sym (trim_rounds-none ps k s none_there))
  | inr (rest, there) ↦
      let (w, m, e) = without_any-split ps s rest there in
      let (ws, all, e2) = trim_rounds-split ps k rest in
      (
        w ∷ ws,
        (m, all),
        rw (trim_rounds-some ps k s there)
            (e ∙ ap (λ t. w ++ t) e2 ∙ sym (append_assoc w (joined ws) (trim_rounds ps k rest))),
      )
]

-- The reverses
joined-append : (us ws : List Text) → joined (us ++ ws) ≡ joined us ++ joined ws
joined-append [] ws = refl
joined-append (u ∷ us) ws =
    ap (λ t. u ++ t) (joined-append us ws) ∙ sym (append_assoc u (joined us) (joined ws))

AreIn-append : (ps us ws : List Text) → AreIn ps us → AreIn ps ws → AreIn ps (us ++ ws)
AreIn-append ps [] ws a b = b
AreIn-append ps (u ∷ us) ws (m, a) b = (m, AreIn-append ps us ws a b)

Mem-reverse : (ps : List Text) (w : Text) → Memᴰ w (map reverse ps) → Memᴰ (reverse w) ps
Mem-reverse [] w m = elim m [ ]
Mem-reverse (p ∷ ps) w m = elim (Memᴰ.cases_cons m) [
  | inl e ↦ Memᴰ.head (ap reverse e ∙ reverse-reverse p)
  | inr later ↦ Memᴰ.tail (Mem-reverse ps w later)
]

reversed :
    (ps ws : List Text)
    → AreIn (map reverse ps) ws
    → (us : List Text) × AreIn ps us × (reverse (joined ws) ≡ joined us)
reversed ps [] all = ([], tt, refl)
reversed ps (w ∷ ws) (m, all) =
    let (us, in_ps, e) = reversed ps ws all in
    (
      us ++ reverse w ∷ [],
      AreIn-append ps us (reverse w ∷ []) in_ps (Mem-reverse ps w m, tt),
      reverse-append w (joined ws)
          ∙ ap (λ t. t ++ reverse w) e
          ∙ sym (
              joined-append us (reverse w ∷ [])
              ∙ ap (λ t. joined us ++ t) (append-nil (reverse w))),
    )

cases_text : (s : Text) → (s ≡ []) ⊎ ((c : ℕ) × (t : Text) × (s ≡ c ∷ t))
cases_text [] = inl refl
cases_text (c ∷ s) = inr (c, s, refl)

pub is_blank-empty : (s : Text) → is_blank s ≡ true → trim_space s ≡ []
is_blank-empty s h = elim (cases_text (trim_space s)) [
  | inl e ↦ e
  | inr (c, t, e) ↦ let wrong : false ≡ true = rw (is_blank, e) at h in absurd (cc)
]

pub trim_space-IsSpaces : (s : Text) → trim_space s ≡ [] → IsSpaces s
unfolding trim_space trim_left
trim_space-IsSpaces s h =
    let backwards = map reverse spaces in
    let t = trim_left spaces s in
    let r = trim_left backwards (reverse t) in
    let gone : r ≡ [] = sym (reverse-reverse r) ∙ ap reverse h in
    let (us, all_us, at_end) = trim_rounds-split backwards (length (reverse t)) (reverse t) in
    let (vs, all_vs, e) = reversed spaces us all_us in
    let (ws, all_ws, at_start) = trim_rounds-split spaces (length s) s in
    let end : reverse t ≡ joined us =
      at_end ∙ ap (λ x. joined us ++ x) gone ∙ append-nil (joined us) in
    let whole : t ≡ joined vs = sym (reverse-reverse t) ∙ ap reverse end ∙ e in
    (
      ws ++ vs,
      AreIn-append spaces ws vs all_ws all_vs,
      at_start ∙ ap (λ x. joined ws ++ x) whole ∙ sym (joined-append ws vs),
    )

trim_space-joined : (ws : List Text) → AreIn spaces ws → trim_space (joined ws) ≡ []
unfolding trim_space trim_left trim_rounds
trim_space-joined ws all =
    rw (trim_rounds-joined spaces ws (length (joined ws)) spaces_code all (omega arith)) refl

pub is_blank-spaces : (s : Text) → IsSpaces s → is_blank s ≡ true
is_blank-spaces s (ws, all, e) = rw (e, is_blank, trim_space-joined ws all) refl
