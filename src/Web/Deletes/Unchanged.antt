-- ===== src/Web/Deletes/Unchanged.antt =====
-- web/syncUserHandler.go: the replies of the deletions, and the tables after them.
use go_syncstorage.Prelude.{
  ℕ, suc, ◌≡◌, refl, ◌∙◌, Bool, true, false, Option, none, some, List, [], ◌∷◌, ltb, length,
  if◌then◌else◌, Option-cases, inl, inr,
}
use go_syncstorage.Prelude.Text.{Text}
use go_syncstorage.Storage.Data.{Bso, Result, ok, err}
use go_syncstorage.Storage.Driver.{World, M}
use go_syncstorage.Storage.Driver.Keeps.{IsAtomic, IsAtomic-transaction}
use go_syncstorage.Storage.Erase.{delete_bso, delete_bsos}
use go_syncstorage.Storage.Collections.{delete_collection}
use go_syncstorage.Web.Http.{Request, Problem, Floats}
use go_syncstorage.Web.ReadOnly.{
  getcid-IsReadOnly, get_bso-IsReadOnly, get_collection_modified-IsReadOnly,
}
use go_syncstorage.Storage.Driver.ReadOnly.{IsReadOnly}
use go_syncstorage.Web.Reply.{
  Reply, refused, failed, answered, crashed, Handler, reply, call, unless_sent, is_not_found,
}
use go_syncstorage.Web.Deletes.{
  no_id, no_collection, too_many, deletion, extract_bso_id, delete_found, delete_in, h_bso_delete,
  delete_listed, delete_some_or_all, delete_unless_sent, delete_collection_found,
  h_collection_delete,
}

-- DELETE of the BSO in the path, or of a collection with its limit of listed BSOs
pub data DeleteRoute : Type 0 where
  of_bso : Option Text → DeleteRoute
  of_collection : ℕ → DeleteRoute

abbrev pub IsSuccess : Reply ℕ → Type 0
IsSuccess (answered m) = Unit
IsSuccess _ = ⊥

-- A handler that changes tables only if it tells of success
pub record IsGuarded (h : Handler ℕ) : Type 0 where
  pub at : (w : World) → ¬ (IsSuccess ((h w).0)) → (h w).1.tables ≡ w.tables

reply-IsGuarded : (r : Reply ℕ) → IsGuarded (reply r)
reply-IsGuarded r = record { at = λ w n. refl }

call-IsGuarded :
    {A : Type 0} (m : M A) (k : Result A → Handler ℕ)
    → IsReadOnly m
    → ((r : Result A) → IsGuarded (k r))
    → IsGuarded (call m k)
call-IsGuarded m k o g = record { at = λ w n. (g ((m w).0)).at ((m w).1) n ∙ o.at w }

-- A deletion whose error changes nothing
told :
    (m : M ℕ) (w : World) (r : Result ℕ)
    → (m w).0 ≡ r
    → IsAtomic m
    → ¬ (IsSuccess ((deletion r (m w).1).0))
    → (deletion r (m w).1).1.tables ≡ w.tables
told m w (ok t) e a n = absurd (n tt)
told m w (err x) e a n = a.at w x e

deletion-IsGuarded : (m : M ℕ) → IsAtomic m → IsGuarded (call m deletion)
deletion-IsGuarded m a = record { at = λ w n. told m w ((m w).0) refl a n }

unless_sent-IsGuarded :
    (o : Option Problem) (k : Handler ℕ) → IsGuarded k → IsGuarded (unless_sent o k)
unless_sent-IsGuarded none k g = g
unless_sent-IsGuarded (some p) k g = reply-IsGuarded (refused p)

if-IsGuarded :
    (b : Bool) (h k : Handler ℕ) → IsGuarded h → IsGuarded k → IsGuarded (if b then h else k)
if-IsGuarded true h k g f = g
if-IsGuarded false h k g f = f

delete_bsos-IsAtomic : (c : ℕ) (id : Text) (ids : List Text) → IsAtomic (delete_bsos c id ids)
unfolding delete_bsos
delete_bsos-IsAtomic c id ids = IsAtomic-transaction _

delete_bso-IsAtomic : (c : ℕ) (id : Text) → IsAtomic (delete_bso c id)
unfolding delete_bso
delete_bso-IsAtomic c id = delete_bsos-IsAtomic c id []

delete_collection-IsAtomic : (c : ℕ) → IsAtomic (delete_collection c)
unfolding delete_collection
delete_collection-IsAtomic c = IsAtomic-transaction _

module _ (f : Floats) (r : Request) where
  delete_found-IsGuarded : (c : ℕ) (b : Result Bso) → IsGuarded (delete_found f r c b)
  delete_found-IsGuarded c (err e) = reply-IsGuarded _
  delete_found-IsGuarded c (ok b) =
      unless_sent-IsGuarded _ _ (deletion-IsGuarded _ (delete_bso-IsAtomic c b.id))

  delete_in-IsGuarded : (id : Text) (c : Result ℕ) → IsGuarded (delete_in f r id c)
  delete_in-IsGuarded id (err e) =
      if-IsGuarded (is_not_found e) _ _ (reply-IsGuarded (failed 406 e))
        (call-IsGuarded _ _ (get_bso-IsReadOnly 0 id) (delete_found-IsGuarded 0))
  delete_in-IsGuarded id (ok c) =
      call-IsGuarded _ _ (get_bso-IsReadOnly c id) (delete_found-IsGuarded c)

  delete_listed-IsGuarded :
      (max c : ℕ) (ids : Text × List Text) → IsGuarded (delete_listed f r max c ids)
  delete_listed-IsGuarded max c (id, ids) =
      if-IsGuarded (ltb max (suc (length ids))) _ _ (reply-IsGuarded too_many)
        (deletion-IsGuarded _ (delete_bsos-IsAtomic c id ids))

  delete_some_or_all-IsGuarded :
      (max c : ℕ) (ids : Option (List Text)) → IsGuarded (delete_some_or_all f r max c ids)
  delete_some_or_all-IsGuarded max c none = deletion-IsGuarded _ (delete_collection-IsAtomic c)
  delete_some_or_all-IsGuarded max c (some []) = reply-IsGuarded crashed
  delete_some_or_all-IsGuarded max c (some (ids ∷ more)) = delete_listed-IsGuarded max c _

  delete_unless_sent-IsGuarded :
      (max c : ℕ) (m : Result ℕ) → IsGuarded (delete_unless_sent f r max c m)
  delete_unless_sent-IsGuarded max c (err e) = reply-IsGuarded _
  delete_unless_sent-IsGuarded max c (ok m) =
      unless_sent-IsGuarded _ _ (delete_some_or_all-IsGuarded max c _)

  delete_collection_found-IsGuarded :
      (max : ℕ) (c : Result ℕ) → IsGuarded (delete_collection_found f r max c)
  delete_collection_found-IsGuarded max (err e) =
      if-IsGuarded (is_not_found e) _ _ (reply-IsGuarded no_collection)
        (reply-IsGuarded (failed 500 e))
  delete_collection_found-IsGuarded max (ok c) =
      call-IsGuarded _ _ (get_collection_modified-IsReadOnly c) (delete_unless_sent-IsGuarded max c)

  h_bso_delete-IsGuarded :
      (collection : Text) (id : Option Text) → IsGuarded (h_bso_delete f r collection id)
  unfolding h_bso_delete
  h_bso_delete-IsGuarded collection id = elim (Option-cases (extract_bso_id id)) [
    | inl e ↦ rw (h_bso_delete, e) (reply-IsGuarded no_id)
    | inr (b, e) ↦
        rw (h_bso_delete, e)
          (call-IsGuarded _ _ (getcid-IsReadOnly collection) (delete_in-IsGuarded b))
  ]

  h_collection_delete-IsGuarded :
      (max : ℕ) (collection : Text) → IsGuarded (h_collection_delete f r max collection)
  unfolding h_collection_delete
  h_collection_delete-IsGuarded max collection =
      call-IsGuarded _ _ (getcid-IsReadOnly collection) (delete_collection_found-IsGuarded max)

  abbrev pub delete_route : DeleteRoute → Text → Handler ℕ
  delete_route (of_bso id) collection = h_bso_delete f r collection id
  delete_route (of_collection max) collection = h_collection_delete f r max collection

  delete_route-IsGuarded :
      (route : DeleteRoute) (collection : Text) → IsGuarded (delete_route route collection)
  delete_route-IsGuarded (of_bso id) collection = h_bso_delete-IsGuarded collection id
  delete_route-IsGuarded (of_collection max) collection =
      h_collection_delete-IsGuarded max collection

  -- A DELETE of a BSO, of a collection, or of BSOs listed in its query, that is answered by anything
  -- but success, for whichever reason and wherever the driver failed, leaves the tables as they were.
  pub delete_route_lem :
      (route : DeleteRoute) (collection : Text) (w : World)
      → ¬ (IsSuccess ((delete_route route collection w).0))
      → (delete_route route collection w).1.tables ≡ w.tables
  delete_route_lem route collection w n = (delete_route-IsGuarded route collection).at w n
