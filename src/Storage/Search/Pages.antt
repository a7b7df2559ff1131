-- ===== src/Storage/Search/Pages.antt =====
-- The pages of a search.
use mathlib.Core.List.{Perm}
use go_syncstorage.Prelude.{
  ℕ, zero, suc, ◌+◌, ◌-◌, ◌<◌, ◌≤◌, ◌^◌, ◌≡◌, refl, ap, true, false, List, [], ◌∷◌, map, arith, ltb,
  length, take, drop, length-take, length-drop, ltb→lt, if◌then◌else◌, inl, inr, Bool-cases,
}
use go_syncstorage.Prelude.Int.{ℤ, pos, add_int-pos, le_int}
use go_syncstorage.Prelude.Text.{Text}
use go_syncstorage.Storage.Checks.{offset_ok, limit_ok, newer_ok}
use go_syncstorage.Storage.Data.{BsoRow, GetResults, SortType, ok}
use go_syncstorage.Storage.Driver.{World, query_closing, now}
use go_syncstorage.Storage.Driver.Reliable.{IsReliable, time_of}
use go_syncstorage.Storage.Bso.{keep_rows, bso_of}
use go_syncstorage.Storage.Search.{wanted, limit_rows, selected, limit_asked, page_of, get_bsos}
use go_syncstorage.Storage.Search.Order.{IsSorted, order_by-IsSorted, order_by-perm}

-- A page: `limit` rows behind `offset`, and where the next page begins if there is one.
abbrev pub page : ℕ → ℕ → List BsoRow → GetResults
page limit offset rows = record {
  bsos = map bso_of (take limit (drop offset rows));
  more = ltb (limit + offset) (length rows);
  offset = if ltb (limit + offset) (length rows) then pos (limit + offset) else pos 0;
}

ltb-false : (a b : ℕ) → ltb a b ≡ false → b ≤ a
ltb-false a b h = ground arith

take-take-suc : {A : Type 0} (n : ℕ) (xs : List A) → take n (take (suc n) xs) ≡ take n xs
take-take-suc zero xs = refl
take-take-suc (suc n) [] = refl
take-take-suc (suc n) (x ∷ xs) = ap (◌∷◌ x) (take-take-suc n xs)

take_all : {A : Type 0} (n : ℕ) (xs : List A) → length xs ≤ n → take n xs ≡ xs
take_all zero [] h = refl
take_all zero (x ∷ xs) h = absurd (omega arith)
take_all (suc n) [] h = refl
take_all (suc n) (x ∷ xs) h = ap (◌∷◌ x) (take_all n xs (omega arith))

-- One row more than the limit came: there are more.
page_of-more :
    (l o : ℕ) (got : List BsoRow)
    → l + o < 2 ^ 63
    → length got ≡ suc l
    → page_of (pos l) (pos o) got
      ≡ record { bsos = map bso_of (take l got); more = true; offset = pos (l + o) }
unfolding page_of
page_of-more l o got fits e =
    rw (e, add_int-pos l o fits)
      (let last : suc l - 1 ≡ l = omega arith in
        let over : ltb (l + 0) (suc l + 0) ≡ true = ground arith in rw (last, over) (ground arith))

page_of-last :
    (l o : ℕ) (got : List BsoRow)
    → length got ≤ l
    → page_of (pos l) (pos o) got ≡ record { bsos = map bso_of got; more = false; offset = pos 0 }
unfolding page_of
page_of-last l o got h = ground arith

page_of-take :
    (l o : ℕ) (rows : List BsoRow)
    → l + o < 2 ^ 63
    → page_of (pos l) (pos o) (take (suc l) (drop o rows)) ≡ page l o rows
page_of-take l o rows fits = elim (Bool-cases (ltb (l + o) (length rows))) [
  | inl e ↦
      let full : length (take (suc l) (drop o rows)) ≡ suc l =
        omega (arith, length-take (suc l) (drop o rows), length-drop o rows, ltb→lt _ _ e) in
      rw (page_of-more l o (take (suc l) (drop o rows)) fits full, take-take-suc l (drop o rows), e)
        refl
  | inr e ↦
      let few : length (drop o rows) ≤ l = omega (arith, length-drop o rows, ltb-false _ _ e) in
      let got : take (suc l) (drop o rows) ≡ drop o rows = take_all (suc l) _ (omega arith) in
      rw (got, page_of-last l o (drop o rows) few, take_all l (drop o rows) few, e) refl
]

limits_accepted :
    (l o n : ℕ) → (offset_ok (pos o) ≡ true) × (limit_ok (pos l) ≡ true) × (newer_ok (pos n) ≡ true)
unfolding offset_ok limit_ok newer_ok
limits_accepted l o n = (ground arith, ground arith, ground arith)

limit_asked-pos : (l : ℕ) → l + 1 < 2 ^ 63 → limit_asked (pos l) ≡ pos (suc l)
unfolding limit_asked
limit_asked-pos l fits =
    let asked : le_int (pos 0) (pos l) ≡ true = ground arith in
    rw (asked, if◌then◌else◌, add_int-pos l 1 fits) (ap pos (omega arith))

get_bsos-page :
    (c : ℕ) (ids : List Text) (older : ℤ) (newer : ℕ) (sort : SortType) (l o : ℕ) (w : World)
    → IsReliable w
    → l + o + 1 < 2 ^ 63
    → (get_bsos c ids older (pos newer) sort (pos l) (pos o) w).0
      ≡ ok (page l o (selected c ids older (pos newer) sort (time_of w) w.tables.bso))
unfolding get_bsos query_closing now
get_bsos-page c ids older newer sort l o w h fits =
    let (offset_accepted, limit_accepted, newer_accepted) = limits_accepted l o newer in
    rw (offset_accepted, limit_accepted, newer_accepted, if◌then◌else◌, h w.calls)
      (rw (limit_asked-pos l (omega arith)) (
        unfold limit_rows in
        ap ok (
          page_of-take l o (selected c ids older (pos newer) sort (time_of w) w.tables.bso)
            (omega arith))))

-- GetBSOs with a limit, while the driver works, returns the page of that limit and offset of the
-- rows of the collection that lie between the times, have not expired and, if ids are given, have one
-- of the first hundred of them; these rows stand in the order asked for. `more` is set exactly when
-- rows follow the page, and `offset` is then where they begin.
pub get_bsos_lem :
    (c : ℕ) (ids : List Text) (older : ℤ) (newer : ℕ) (sort : SortType) (l o : ℕ) (w : World)
    → IsReliable w
    → l + o + 1 < 2 ^ 63
    → let rows = selected c ids older (pos newer) sort (time_of w) w.tables.bso in
      ((get_bsos c ids older (pos newer) sort (pos l) (pos o) w).0 ≡ ok (page l o rows))
      × IsSorted sort rows
      × Perm rows (keep_rows (wanted c ids older (pos newer) (time_of w)) w.tables.bso)
unfolding selected
get_bsos_lem c ids older newer sort l o w h fits = (
  get_bsos-page c ids older newer sort l o w h fits,
  order_by-IsSorted sort _,
  order_by-perm sort _,
)
