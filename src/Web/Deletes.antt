-- ===== src/Web/Deletes.antt =====
-- web/syncUserHandler.go: hBsoDELETE and hCollectionDELETE, over the storage of the user. A success
-- has the time of the deletion, which the header X-Last-Modified and the body carry.
pub mod Unchanged
use go_syncstorage.Prelude.{
  ℕ, suc, Bool, true, false, Option, none, some, List, [], ◌∷◌, ◌==◌, ltb, length, if◌then◌else◌,
}
use go_syncstorage.Prelude.Int.{ℤ, pos}
use go_syncstorage.Prelude.Text.{Text, codes}
use go_syncstorage.Storage.Checks.{bso_id_ok}
use go_syncstorage.Storage.Data.{Bso, Result, ok, err}
use go_syncstorage.Storage.Driver.{now}
use go_syncstorage.Storage.Bso.{get_bso}
use go_syncstorage.Storage.Erase.{delete_bso, delete_bsos}
use go_syncstorage.Storage.Collections.{
  get_collection_modified, delete_collection, delete_everything,
}
use go_syncstorage.Web.Http.{Request, Problem, send_request_problem, Floats}
use go_syncstorage.Web.NotModified.{sent_not_modified}
use go_syncstorage.Web.Reply.{
  Reply, refused, failed, answered, crashed, Handler, reply, call, internal_error, unless_sent,
  is_not_found,
}
use go_syncstorage.Web.UserHandler.{getcid}

-- The refusals that the handlers write themselves
abbrev pub no_id_problem : Problem
no_id_problem = send_request_problem [] 404 (codes "Could not extract bso id from URL")

abbrev pub no_id : Reply ℕ
no_id = refused no_id_problem

abbrev pub no_collection : Reply ℕ
no_collection = refused (send_request_problem [] 404 (codes "Collection not found"))

abbrev pub too_many : Reply ℕ
too_many = refused (send_request_problem [] 400 (codes "Exceeded max allowed records"))

abbrev pub deletion : Result ℕ → Handler ℕ
deletion (ok modified) = reply (answered modified)
deletion (err e) = internal_error e

abbrev pub everything_deleted : Result (Unit {0}) → Handler ℕ
everything_deleted (ok _) = call now deletion
everything_deleted (err e) = internal_error e

-- extractBsoId
unfoldable pub extract_bso_id : Option Text → Option Text
extract_bso_id none = none
extract_bso_id (some id) = if bso_id_ok id then some id else none

-- strings.Split(s, ","): the first part, and the others
unfoldable pub split_commas : Text → Text × List Text
split_commas [] = ([], [])
split_commas (c ∷ s) =
    let (part, parts) = split_commas s in
    if c == b',' then ([], part ∷ parts) else (c ∷ part, parts)

module _ (f : Floats) (r : Request) where
  -- hBsoDELETE once the BSO was looked for
  abbrev pub delete_found : ℕ → Result Bso → Handler ℕ
  delete_found cid (err e) = reply (failed (if is_not_found e then 404 else 500) e)
  delete_found cid (ok bso) =
      unless_sent (sent_not_modified f r (pos bso.modified)) (call (delete_bso cid bso.id) deletion)

  -- hBsoDELETE once the collection was looked for; any error but ErrNotFound goes on with id 0
  abbrev pub delete_in : Text → Result ℕ → Handler ℕ
  delete_in id (err e) =
      if is_not_found e then reply (failed 406 e) else call (get_bso 0 id) (delete_found 0)
  delete_in id (ok cid) = call (get_bso cid id) (delete_found cid)

  -- hBsoDELETE, with the collection and the id in the path
  unfoldable pub h_bso_delete : Text → Option Text → Handler ℕ
  unfolding extract_bso_id
  h_bso_delete collection id = elim (extract_bso_id id) [
    | none ↦ reply no_id
    | some bid ↦ call (getcid collection false) (delete_in bid)
  ]

  -- The ids of the query: at most `max` of them are deleted
  abbrev pub delete_listed : ℕ → ℕ → Text × List Text → Handler ℕ
  delete_listed max cid (id, ids) =
      if ltb max (suc (length ids)) then reply too_many else call (delete_bsos cid id ids) deletion

  abbrev pub delete_some_or_all : ℕ → ℕ → Option (List Text) → Handler ℕ
  delete_some_or_all max cid none = call (delete_collection cid) deletion
  delete_some_or_all max cid (some []) = reply crashed
  delete_some_or_all max cid (some (ids ∷ _)) = delete_listed max cid (split_commas ids)

  abbrev pub delete_unless_sent : ℕ → ℕ → Result ℕ → Handler ℕ
  delete_unless_sent max cid (err e) = internal_error e
  delete_unless_sent max cid (ok modified) =
      unless_sent (sent_not_modified f r (pos modified))
        (delete_some_or_all max cid (r.query (codes "ids")))

  abbrev pub delete_collection_found : ℕ → Result ℕ → Handler ℕ
  delete_collection_found max (err e) =
      if is_not_found e then reply no_collection else internal_error e
  delete_collection_found max (ok cid) =
      call (get_collection_modified cid) (delete_unless_sent max cid)

  -- hCollectionDELETE, with MaxPOSTRecords and the collection in the path
  unfoldable pub h_collection_delete : ℕ → Text → Handler ℕ
  unfolding split_commas
  h_collection_delete max collection = call (getcid collection false) (delete_collection_found max)

-- hDeleteEverything; the answer's time is that of a second reading of the clock
unfoldable pub h_delete_everything : Text → Handler ℕ
h_delete_everything date = call (delete_everything date) everything_deleted
