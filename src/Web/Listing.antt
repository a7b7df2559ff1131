-- ===== src/Web/Listing.antt =====
-- web/syncUserHandler.go: hCollectionGET. The form is that of the query.
use go_syncstorage.Prelude.{
  ℕ, suc, Bool, true, false, Option, none, some, List, [], ◌∷◌, ◌++◌, ltb, length, if◌then◌else◌,
}
use go_syncstorage.Prelude.Int.{ℤ, pos, negsuc, lt_int}
use go_syncstorage.Prelude.Text.{Text, codes, text_eq}
use go_syncstorage.Storage.Checks.{max_timestamp, bso_id_ok, newer_ok, offset_ok}
use go_syncstorage.Storage.Data.{Bso, GetResults, SortType, Result, ok, err}
use go_syncstorage.Storage.Search.{get_bsos}
use go_syncstorage.Storage.Collections.{get_collection_modified}
use go_syncstorage.Strconv.{parse_int}
use go_syncstorage.Web.Http.{Request, send_request_problem, Floats, convert_timestamp}
use go_syncstorage.Web.Accept.{accept_header_ok, Format, format_of}
use go_syncstorage.Web.BsoRoutes.{when_accepted}
use go_syncstorage.Web.Deletes.{split_commas}
use go_syncstorage.Web.Lines.{trim_space}
use go_syncstorage.Web.NotModified.{sent_not_modified}
use go_syncstorage.Web.Reply.{
  refused, answered, crashed, Handler, reply, call, internal_error, unless_sent, is_not_found,
  is_panic,
}
use go_syncstorage.Web.UserHandler.{getcid}

-- Form.Get
abbrev pub first_value : Option (List Text) → Text
first_value none = []
first_value (some []) = []
first_value (some (v ∷ vs)) = v

abbrev pub form_get : Request → Text → Text
form_get r key = first_value (r.query key)

-- A parameter that was read, or the reason of a refusal (status 400), without the text of the error
-- of strconv that the code adds to it
pub data Param (A : Type 0) : Type 0 where
  param : A → Param A
  bad : Text → Param A

abbrev pub after_param : {A B : Type 0} → Param A → (A → Param B) → Param B
after_param (param a) k = k a
after_param (bad reason) k = bad reason

abbrev pub add_id : Text → Param (List Text) → Param (List Text)
add_id id (param ids) = param (id ∷ ids)
add_id id (bad reason) = bad reason

-- The loop over the ids, up to the first one that is not valid
unfoldable pub trimmed_ids : List Text → Param (List Text)
trimmed_ids [] = param []
trimmed_ids (id ∷ ids) =
    let rest = trimmed_ids ids in
    if bso_id_ok (trim_space id)
    then add_id (trim_space id) rest
    else bad (codes "Invalid bso id " ++ trim_space id)

abbrev pub listed_ids : Text × List Text → Param (List Text)
listed_ids (id, ids) =
    if ltb 100 (suc (length ids))
    then bad (codes "Too many ids provided")
    else trimmed_ids (id ∷ ids)

abbrev pub ids_of : Text → Param (List Text)
ids_of [] = param []
ids_of (c ∷ s) = listed_ids (split_commas (c ∷ s))

abbrev pub limit_from : Option ℤ → Param ℤ
limit_from none = bad (codes "Invalid limit value")
limit_from (some n) = if lt_int n (pos 0) then bad (codes "Invalid limit value") else param n

-- Without a limit, -1, which is none
abbrev pub limit_of : Text → Param ℤ
limit_of [] = param (negsuc 0)
limit_of (c ∷ s) = limit_from (parse_int (c ∷ s))

abbrev pub offset_from : Option ℤ → Param ℤ
offset_from none = bad (codes "Invalid offset value")
offset_from (some n) = if offset_ok n then param n else bad (codes "Invalid offset value")

abbrev pub offset_of : Text → Param ℤ
offset_of [] = param (pos 0)
offset_of (c ∷ s) = offset_from (parse_int (c ∷ s))

unfoldable pub sort_of : Text → Param SortType
sort_of [] = param SortType.sort_newest
sort_of (c ∷ s) =
    if text_eq (c ∷ s) (codes "newest")
    then param SortType.sort_newest
    else if text_eq (c ∷ s) (codes "oldest")
    then param SortType.sort_oldest
    else if text_eq (c ∷ s) (codes "index")
    then param SortType.sort_index
    else bad (codes "Invalid sort value")

-- The parameters of the search
pub record Search : Type 0 where
  pub ids : List Text
  pub older : ℤ
  pub newer : ℤ
  pub full : Bool
  pub limit : ℤ
  pub offset : ℤ
  pub sort : SortType

abbrev pub is_given_text : Text → Bool
is_given_text [] = false
is_given_text (c ∷ s) = true

module _ (f : Floats) where
  -- The value of `newer`, which is not set yet, is checked, and not that of `older`.
  abbrev pub older_from : Option ℤ → Param ℤ
  older_from none = bad (codes "Invalid older param format")
  older_from (some older) =
      if newer_ok (pos 0) then param older else bad (codes "Invalid older value")

  abbrev pub older_of : Text → Param ℤ
  older_of [] = param (pos max_timestamp)
  older_of (c ∷ s) = older_from (convert_timestamp f (c ∷ s))

  abbrev pub newer_from : Option ℤ → Param ℤ
  newer_from none = bad (codes "Invalid newer param format")
  newer_from (some newer) =
      if newer_ok newer then param newer else bad (codes "Invalid newer value")

  abbrev pub newer_of : Text → Param ℤ
  newer_of [] = param (pos 0)
  newer_of (c ∷ s) = newer_from (convert_timestamp f (c ∷ s))

  -- The parameters in the order in which they are read
  unfoldable pub search_of : Request → Param Search
  unfolding trimmed_ids sort_of
  search_of r = after_param (ids_of (form_get r (codes "ids"))) λ ids.
      after_param (older_of (form_get r (codes "older"))) λ older.
        after_param (newer_of (form_get r (codes "newer"))) λ newer.
          after_param (limit_of (form_get r (codes "limit"))) λ limit.
            after_param (offset_of (form_get r (codes "offset"))) λ offset.
              after_param (sort_of (form_get r (codes "sort"))) λ sort. param (record {
                ids = ids;
                older = older;
                newer = newer;
                full = is_given_text (form_get r (codes "full"));
                limit = limit;
                offset = offset;
                sort = sort;
              })

-- X-Weave-Next-Offset
abbrev pub next_offset : GetResults → Option ℤ
next_offset results = if results.more then some results.offset else none

-- A list of BSOs, or of their ids
pub data Listed : Type 0 where
  bsos : List Bso → Listed
  ids_only : List Text → Listed

unfoldable pub ids_of_bsos : List Bso → List Text
ids_of_bsos [] = []
ids_of_bsos (b ∷ list) = b.id ∷ ids_of_bsos list

-- What hCollectionGET answers: an empty array for a collection that is not there, or the time in
-- X-Last-Modified, X-Weave-Records, X-Weave-Next-Offset, and the list in the form that is accepted
pub data Page : Type 0 where
  empty_array : Page
  page : ℕ → ℕ → Option ℤ → Listed → Format → Page

module _ (f : Floats) (media_type : Text → Text) (r : Request) where
  abbrev pub list_found : Text → Search → ℕ → Result GetResults → Handler Page
  list_found header s modified (err e) = if is_panic e then reply crashed else internal_error e
  list_found header s modified (ok results) = reply (
      answered (
        page modified (length results.bsos) (next_offset results)
          (if s.full then bsos results.bsos else ids_only (ids_of_bsos results.bsos))
          (format_of header)))

  abbrev pub list_unless_sent : Text → Search → ℕ → Result ℕ → Handler Page
  list_unless_sent header s cid (err e) = internal_error e
  list_unless_sent header s cid (ok modified) = unless_sent (sent_not_modified f r (pos modified)) (
      call (get_bsos cid s.ids s.older s.newer s.sort s.limit s.offset)
        (list_found header s modified))

  abbrev pub list_searched : Text → ℕ → Param Search → Handler Page
  list_searched header cid (bad reason) = reply (refused (send_request_problem [] 400 reason))
  list_searched header cid (param s) =
      call (get_collection_modified cid) (list_unless_sent header s cid)

  -- The form could not be read, for the reason given, or it could.
  abbrev pub list_form : Text → ℕ → Option Text → Handler Page
  list_form header cid (some reason) =
      reply (refused (send_request_problem [] 400 (codes "Bad query parameters: " ++ reason)))
  list_form header cid none = list_searched header cid (search_of f r)

  abbrev pub list_in : Text → Option Text → Result ℕ → Handler Page
  list_in header form_error (ok cid) = list_form header cid form_error
  list_in header form_error (err e) =
      if is_not_found e then reply (answered empty_array) else internal_error e

  -- hCollectionGET, with the error of ParseForm and the collection in the path
  unfoldable pub h_collection_get : Option Text → Text → Handler Page
  unfolding accept_header_ok search_of ids_of_bsos format_of
  h_collection_get form_error collection =
      when_accepted (accept_header_ok media_type r)
        λ header. call (getcid collection false) (list_in header form_error)
