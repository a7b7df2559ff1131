-- ===== src/Storage/Operation/Writes.antt =====
-- A well-formed database, and the statements that keep it so.
use mathlib.Core.Path.{subst}
use go_syncstorage.Prelude.{
  ℕ, ◌≡◌, Bool, true, false, Option, none, List, [], ◌∷◌, arith, inl, inr, Option-cases,
}
use go_syncstorage.Prelude.Int.{ℤ}
use go_syncstorage.Prelude.Text.{Text}
use go_syncstorage.Storage.Checks.{sort_index_ok}
use go_syncstorage.Storage.Data.{Tables, PutBsoInput, PostResults, ok}
use go_syncstorage.Storage.Driver.{exec}
use go_syncstorage.Storage.Driver.Keeps.{
  Keeps, Keeps-pure, Keeps-throw, Keeps-query, Keeps-exec, Keeps-if, Keeps-attempt, Keeps-bind,
  keeps_rules,
}
use go_syncstorage.Storage.Keys.{
  replace_key, set_key, touch_collection, touch_storage, touch_collection_and_storage,
}
use go_syncstorage.Storage.Bso.{
  given_and_not, all_none, bso_exists, insert_bso, new_row, assignments, update_bso, store_bso,
  refusal, unless_refused, put_bso_tx, add_outcome, post_each,
}
use go_syncstorage.Storage.Bso.Invariant.{
  RowsValid, IsValidRow, update_rows-RowsValid, assignments-IsValidSet, new_row-IsValidRow,
  insert_row-ok,
}
use go_syncstorage.Storage.Collections.Invariant.{CollectionsValid, touch_rows-CollectionsValid}
use go_syncstorage.Storage.Batch.Invariant.{BatchesValid}

-- A well-formed database
pub record IsValid (t : Tables) : Type 0 where
  pub rows : RowsValid t.bso
  pub collections : CollectionsValid t.last_collection_id t.collections
  pub batches : BatchesValid t.last_batch_id t.batches

-- A statement that cannot be refused, by what it makes of the tables
pub Keeps-write :
    {A : Type 0} (f : Tables → A) (g : Tables → Tables)
    → ((t : Tables) → IsValid t → IsValid (g t))
    → Keeps IsValid (exec (λ t. ok (f t, g t)))
Keeps-write f g k = Keeps-exec _ (λ t v a t' e. let p : g t ≡ t' = cc in subst IsValid p (k t v))

pub set_key-IsValid : (k v : Text) → Keeps IsValid (set_key k v)
unfolding set_key replace_key
set_key-IsValid k v =
    Keeps-write _ _
      (λ t h. record { rows = h.rows; collections = h.collections; batches = h.batches })

pub touch_collection-IsValid : (c m : ℕ) → Keeps IsValid (touch_collection c m)
unfolding touch_collection
touch_collection-IsValid c m = Keeps-write _ _ (λ t h. record {
  rows = h.rows;
  collections = touch_rows-CollectionsValid t.last_collection_id c m t.collections h.collections;
  batches = h.batches;
})

pub touch-IsValid : (c m : ℕ) → Keeps IsValid (touch_collection_and_storage c m)
unfolding touch_collection_and_storage touch_storage
touch-IsValid c m = search (keeps_rules, touch_collection-IsValid, set_key-IsValid)

pub update_bso-IsValid :
    (c : ℕ) (i : Text) (m : ℕ) (payload : Option Text) (sort_index ttl : Option ℤ)
    → given_and_not sort_index_ok sort_index ≡ false
    → Keeps IsValid (update_bso c i m payload sort_index ttl)
unfolding update_bso
update_bso-IsValid c i m payload sort_index ttl ok_index =
    Keeps-if (all_none payload sort_index ttl) _ _ (Keeps-throw _) (
      Keeps-write _ _ (λ t h. record {
        rows =
            update_rows-RowsValid c i (assignments m payload sort_index ttl) t.bso
              (assignments-IsValidSet m payload sort_index ttl ok_index) h.rows;
        collections = h.collections;
        batches = h.batches;
      }))

pub insert_bso-IsValid :
    (c : ℕ) (i : Text) (m : ℕ) (payload : Text) (sort_index ttl : ℤ)
    → IsValidRow (new_row c i m payload sort_index ttl)
    → Keeps IsValid (insert_bso c i m payload sort_index ttl)
unfolding insert_bso
insert_bso-IsValid c i m payload sort_index ttl valid = Keeps-exec _ (λ t v u t' e.
    let r = new_row c i m payload sort_index ttl in
    let (absent, result) = insert_row-ok r t u t' e in
    rw result
      (record { rows = (valid, absent, v.rows); collections = v.collections; batches = v.batches }))

pub store_bso-IsValid :
    (b : Bool) (c : ℕ) (i : Text) (m : ℕ) (payload : Option Text) (sort_index ttl : Option ℤ)
    → refusal i payload sort_index ttl ≡ none
    → Keeps IsValid (store_bso b c i m payload sort_index ttl)
unfolding store_bso
store_bso-IsValid true c i m payload sort_index ttl h =
    update_bso-IsValid c i m payload sort_index ttl (unfold refusal in ground arith)
store_bso-IsValid false c i m payload sort_index ttl h =
    insert_bso-IsValid c i m _ _ _ (new_row-IsValidRow c i m payload sort_index ttl _ h)

pub bso_exists-IsValid : (c : ℕ) (i : Text) → Keeps IsValid (bso_exists c i)
unfolding bso_exists
bso_exists-IsValid c i = Keeps-query _

pub put_bso_tx-IsValid :
    (c : ℕ) (i : Text) (m : ℕ) (payload : Option Text) (sort_index ttl : Option ℤ)
    → Keeps IsValid (put_bso_tx c i m payload sort_index ttl)
unfolding put_bso_tx
put_bso_tx-IsValid c i m payload sort_index ttl =
    elim (Option-cases (refusal i payload sort_index ttl)) [
      | inl accepted ↦
          rw (accepted, unless_refused)
            (Keeps-bind _ _ (bso_exists-IsValid c i)
              (λ b. store_bso-IsValid b c i m payload sort_index ttl accepted))
      | inr (e, refused) ↦ rw (refused, unless_refused) (Keeps-throw e)
    ]

pub post_each-IsValid :
    (c m : ℕ) (input : List PutBsoInput) (results : PostResults)
    → Keeps IsValid (post_each c m input results)
unfolding post_each
post_each-IsValid c m [] results = Keeps-pure results
post_each-IsValid c m (d ∷ input) results =
    Keeps-bind _ _ (Keeps-attempt _ (put_bso_tx-IsValid c d.id m d.payload d.sort_index d.ttl))
      (λ r. post_each-IsValid c m input (add_outcome results d.id r))
