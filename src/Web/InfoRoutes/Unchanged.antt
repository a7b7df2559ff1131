-- ===== src/Web/InfoRoutes/Unchanged.antt =====
-- web/syncUserHandler.go: the GET handlers and the tables.
use go_syncstorage.Prelude.{ℕ, ◌≡◌, false, Option, none, some, List}
use go_syncstorage.Prelude.Int.{ℤ, pos}
use go_syncstorage.Prelude.Text.{Text}
use go_syncstorage.Storage.Data.{Bso, GetResults, Result, ok, err}
use go_syncstorage.Storage.Driver.{World}
use go_syncstorage.Web.Http.{Request, Floats}
use go_syncstorage.Web.Accept.{Accepted, accept, not_acceptable, format_of}
use go_syncstorage.Web.BsoRoutes.{when_accepted, with_bso_id, get_found, get_in, h_bso_get}
use go_syncstorage.Web.Deletes.{extract_bso_id}
use go_syncstorage.Web.Listing.{
  Param, param, bad, Search, list_found, list_unless_sent, list_searched, list_form, list_in,
  h_collection_get, search_of,
}
use go_syncstorage.Web.ReadOnly.{
  Reads, Reads-reply, Reads-call, Reads-unless_sent, Reads-if, getcid-IsReadOnly,
  get_bso-IsReadOnly, get_collection_modified-IsReadOnly, get_bsos-IsReadOnly,
  info_collections-IsReadOnly, info_collection_usage-IsReadOnly, info_collection_counts-IsReadOnly,
  last_modified-IsReadOnly,
}
use go_syncstorage.Web.NotModified.{sent_not_modified}
use go_syncstorage.Web.UserHandler.{getcid}
use go_syncstorage.Web.Reply.{Handler, answered, is_not_found, is_panic}
use go_syncstorage.Web.InfoRoutes.{
  told_modified, with_results, usage_found, usage_unless_sent, h_info_quota, h_info_collections,
  h_info_collection_counts, h_info_collection_usage,
}

accepted-Reads :
    {B : Type 0} (a : Accepted) (k : Text → Handler B)
    → ((header : Text) → Reads (k header))
    → Reads (when_accepted a k)
accepted-Reads (accept header) k g = g header
accepted-Reads (not_acceptable p) k g = Reads-reply _

module _ (f : Floats) (media_type : Text → Text) (r : Request) where
  get_found-Reads : (header : Text) (o : Result Bso) → Reads (get_found f media_type r header o)
  get_found-Reads header (ok b) =
      Reads-unless_sent (sent_not_modified f r (pos b.modified)) _
        (Reads-reply (answered (record { bso = b; format = format_of header })))
  get_found-Reads header (err e) = Reads-if (is_not_found e) _ _ (Reads-reply _) (Reads-reply _)

  get_in-Reads : (header id : Text) (c : Result ℕ) → Reads (get_in f media_type r header id c)
  get_in-Reads header id (ok c) = Reads-call _ _ (get_bso-IsReadOnly c id) (get_found-Reads header)
  get_in-Reads header id (err e) = Reads-if (is_not_found e) _ _ (Reads-reply _) (Reads-reply _)

  id_given-Reads :
      (collection header : Text) (id : Option Text)
      → Reads (
          with_bso_id id λ i. λ w.
            get_in f media_type r header i
              ((getcid collection false w).0)
              ((getcid collection false w).1))
  id_given-Reads collection header none = Reads-reply _
  id_given-Reads collection header (some i) =
      Reads-call _ _ (getcid-IsReadOnly collection) (get_in-Reads header i)

  bso_get-Reads :
      (collection : Text) (id : Option Text) → Reads (h_bso_get f media_type r collection id)
  unfolding h_bso_get
  bso_get-Reads collection id =
      accepted-Reads _ _ (λ header. id_given-Reads collection header (extract_bso_id id))

  list_found-Reads :
      (header : Text) (s : Search) (m : ℕ) (o : Result GetResults)
      → Reads (list_found f media_type r header s m o)
  list_found-Reads header s m (ok b) = Reads-reply _
  list_found-Reads header s m (err e) = Reads-if (is_panic e) _ _ (Reads-reply _) (Reads-reply _)

  list_unless_sent-Reads :
      (header : Text) (s : Search) (c : ℕ) (m : Result ℕ)
      → Reads (list_unless_sent f media_type r header s c m)
  list_unless_sent-Reads header s c (ok m) = Reads-unless_sent _ _ (
      Reads-call _ _ (get_bsos-IsReadOnly c s.ids s.older s.newer s.sort s.limit s.offset)
        (list_found-Reads header s m))
  list_unless_sent-Reads header s c (err e) = Reads-reply _

  list_searched-Reads :
      (header : Text) (c : ℕ) (s : Param Search) → Reads (list_searched f media_type r header c s)
  list_searched-Reads header c (bad reason) = Reads-reply _
  list_searched-Reads header c (param s) =
      Reads-call _ _ (get_collection_modified-IsReadOnly c) (list_unless_sent-Reads header s c)

  list_form-Reads :
      (header : Text) (c : ℕ) (e : Option Text) → Reads (list_form f media_type r header c e)
  list_form-Reads header c none = list_searched-Reads header c (search_of f r)
  list_form-Reads header c (some reason) = Reads-reply _

  list_in-Reads :
      (header : Text) (e : Option Text) (c : Result ℕ) → Reads (list_in f media_type r header e c)
  list_in-Reads header e (ok c) = list_form-Reads header c e
  list_in-Reads header e (err x) = Reads-if (is_not_found x) _ _ (Reads-reply _) (Reads-reply _)

  collection_get-Reads :
      (e : Option Text) (collection : Text) → Reads (h_collection_get f media_type r e collection)
  unfolding h_collection_get
  collection_get-Reads e collection =
      accepted-Reads _ _
        (λ header. Reads-call _ _ (getcid-IsReadOnly collection) (list_in-Reads header e))

  told_modified-Reads :
      {A : Type 0} (told : A) (m : Result ℤ) → Reads (told_modified f media_type r told m)
  told_modified-Reads told (ok m) =
      Reads-unless_sent (sent_not_modified f r m) _
        (Reads-reply (answered (record { modified = m; told = told })))
  told_modified-Reads told (err e) = Reads-reply _

  with_results-Reads :
      {A B : Type 0} (g : A → B) (o : Result A) → Reads (with_results f media_type r g o)
  with_results-Reads g (ok a) = Reads-call _ _ last_modified-IsReadOnly (told_modified-Reads (g a))
  with_results-Reads g (err e) = Reads-reply _

  usage_found-Reads :
      (m : ℤ) (header : Text) (o : Result (List (Text × ℕ)))
      → Reads (usage_found f media_type r m header o)
  usage_found-Reads m header (ok usage) = Reads-reply _
  usage_found-Reads m header (err e) = Reads-reply _

  usage_unless_sent-Reads :
      (header : Text) (m : Result ℤ) → Reads (usage_unless_sent f media_type r header m)
  usage_unless_sent-Reads header (ok m) =
      Reads-unless_sent _ _
        (Reads-call _ _ info_collection_usage-IsReadOnly (usage_found-Reads m header))
  usage_unless_sent-Reads header (err e) = Reads-reply _

  quota-Reads : Reads (h_info_quota f media_type r)
  unfolding h_info_quota
  quota-Reads = Reads-call _ _ info_collection_usage-IsReadOnly (with_results-Reads _)

  collections-Reads : Reads (h_info_collections f media_type r)
  unfolding h_info_collections
  collections-Reads =
      accepted-Reads _ _
        (λ header. Reads-call _ _ info_collections-IsReadOnly (with_results-Reads _))

  counts-Reads : Reads (h_info_collection_counts f media_type r)
  unfolding h_info_collection_counts
  counts-Reads =
      accepted-Reads _ _
        (λ header. Reads-call _ _ info_collection_counts-IsReadOnly (with_results-Reads _))

  usage-Reads : Reads (h_info_collection_usage f media_type r)
  unfolding h_info_collection_usage
  usage-Reads =
      accepted-Reads _ _
        (λ header. Reads-call _ _ last_modified-IsReadOnly (usage_unless_sent-Reads header))

  -- No GET changes a table, whatever the request is, whatever is answered and wherever the driver
  -- fails: of a BSO, of a collection, and of the quota, the times, the counts and the usage of all
  -- collections.
  pub reading_routes_lem :
      (collection : Text) (id form_error : Option Text) (w : World)
      → ((h_bso_get f media_type r collection id w).1.tables ≡ w.tables)
        × ((h_collection_get f media_type r form_error collection w).1.tables ≡ w.tables)
        × ((h_info_quota f media_type r w).1.tables ≡ w.tables)
        × ((h_info_collections f media_type r w).1.tables ≡ w.tables)
        × ((h_info_collection_counts f media_type r w).1.tables ≡ w.tables)
        × ((h_info_collection_usage f media_type r w).1.tables ≡ w.tables)
  reading_routes_lem collection id form_error w = (
    (bso_get-Reads collection id).at w,
    (collection_get-Reads form_error collection).at w,
    quota-Reads.at w,
    collections-Reads.at w,
    counts-Reads.at w,
    usage-Reads.at w,
  )
