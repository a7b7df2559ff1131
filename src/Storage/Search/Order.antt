-- ===== src/Storage/Search/Order.antt =====
-- syncstorage/db.go: the order of GetBSOs.
use mathlib.Core.List.{Perm}
use mathlib.Core.List.Perm
use go_syncstorage.Prelude.{
  ◌≡◌, refl, true, false, List, [], ◌∷◌, arith, inl, inr, Bool-cases, if◌then◌else◌,
}
use go_syncstorage.Storage.Data.{BsoRow, SortType}
use go_syncstorage.Storage.Search.{in_order, insert_sorted, order_by}

abbrev pub AllAfter : SortType → BsoRow → List BsoRow → Type 0
AllAfter sort r [] = Unit
AllAfter sort r (s ∷ rows) = (in_order sort r s ≡ true) × AllAfter sort r rows

-- Every row may stand before all that follow it.
abbrev pub IsSorted : SortType → List BsoRow → Type 0
IsSorted sort [] = Unit
IsSorted sort (r ∷ rows) = AllAfter sort r rows × IsSorted sort rows

in_order_trans :
    (sort : SortType) (a b c : BsoRow)
    → in_order sort a b ≡ true
    → in_order sort b c ≡ true
    → in_order sort a c ≡ true
unfolding in_order
in_order_trans SortType.sort_none a b c h k = refl
in_order_trans SortType.sort_newest a b c h k = ground arith
in_order_trans SortType.sort_oldest a b c h k = ground arith
in_order_trans SortType.sort_index a b c h k = ground arith

in_order_total :
    (sort : SortType) (a b : BsoRow) → in_order sort a b ≡ false → in_order sort b a ≡ true
unfolding in_order
in_order_total SortType.sort_none a b h = refl
in_order_total SortType.sort_newest a b h = ground arith
in_order_total SortType.sort_oldest a b h = ground arith
in_order_total SortType.sort_index a b h = ground arith

AllAfter-trans :
    (sort : SortType) (a b : BsoRow) (rows : List BsoRow)
    → in_order sort a b ≡ true
    → AllAfter sort b rows
    → AllAfter sort a rows
AllAfter-trans sort a b [] h k = tt
AllAfter-trans sort a b (c ∷ rows) h k =
    (in_order_trans sort a b c h k.0, AllAfter-trans sort a b rows h k.1)

AllAfter-insert_sorted :
    (sort : SortType) (a r : BsoRow) (rows : List BsoRow)
    → in_order sort a r ≡ true
    → AllAfter sort a rows
    → AllAfter sort a (insert_sorted sort r rows)
unfolding insert_sorted
AllAfter-insert_sorted sort a r [] h k = (h, tt)
AllAfter-insert_sorted sort a r (s ∷ rows) h k = elim (Bool-cases (in_order sort r s)) [
  | inl e ↦ rw (e, if◌then◌else◌) (h, k)
  | inr e ↦ rw (e, if◌then◌else◌) (k.0, AllAfter-insert_sorted sort a r rows h k.1)
]

insert_sorted-IsSorted :
    (sort : SortType) (r : BsoRow) (rows : List BsoRow)
    → IsSorted sort rows
    → IsSorted sort (insert_sorted sort r rows)
unfolding insert_sorted
insert_sorted-IsSorted sort r [] h = (tt, tt)
insert_sorted-IsSorted sort r (s ∷ rows) h = elim (Bool-cases (in_order sort r s)) [
  | inl e ↦ rw (e, if◌then◌else◌) ((e, AllAfter-trans sort r s rows e h.0), h)
  | inr e ↦
      rw (e, if◌then◌else◌)
        (
          AllAfter-insert_sorted sort s r rows (in_order_total sort r s e) h.0,
          insert_sorted-IsSorted sort r rows h.1,
        )
]

pub order_by-IsSorted : (sort : SortType) (rows : List BsoRow) → IsSorted sort (order_by sort rows)
unfolding order_by
order_by-IsSorted sort [] = tt
order_by-IsSorted sort (r ∷ rows) =
    insert_sorted-IsSorted sort r (order_by sort rows) (order_by-IsSorted sort rows)

insert_sorted-perm :
    (sort : SortType) (r : BsoRow) (rows : List BsoRow)
    → Perm (insert_sorted sort r rows) (r ∷ rows)
unfolding insert_sorted
insert_sorted-perm sort r [] = Perm.refl (r ∷ [])
insert_sorted-perm sort r (s ∷ rows) = elim (Bool-cases (in_order sort r s)) [
  | inl e ↦ rw (e, if◌then◌else◌) (Perm.refl (r ∷ s ∷ rows))
  | inr e ↦
      rw (e, if◌then◌else◌)
        (Perm.trans (Perm.cons s (insert_sorted-perm sort r rows)) (Perm.swap r s rows))
]

pub order_by-perm : (sort : SortType) (rows : List BsoRow) → Perm (order_by sort rows) rows
unfolding order_by
order_by-perm sort [] = Perm.refl []
order_by-perm sort (r ∷ rows) =
    Perm.trans (insert_sorted-perm sort r (order_by sort rows))
      (Perm.cons r (order_by-perm sort rows))
