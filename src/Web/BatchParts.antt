-- ===== src/Web/BatchParts.antt =====
-- web/syncUserHandler.go: the parts of hCollectionPOSTBatch that call no storage: the sizes in the
-- headers, the BSOs that a batch takes, their text and the failures.
use go_syncstorage.Prelude.{
  ℕ, Bool, false, ◌||◌, not, Option, none, some, List, [], ◌∷◌, ◌++◌, if◌then◌else◌,
}
use go_syncstorage.Prelude.Int.{ℤ, pos, lt_int}
use go_syncstorage.Prelude.Text.{Text, codes}
use go_syncstorage.Prelude.Assoc.{find_key, put_key}
use go_syncstorage.Strconv.{parse_int}
use go_syncstorage.Storage.Checks.{bso_id_ok, sort_index_ok, ttl_ok}
use go_syncstorage.Storage.Data.{PutBsoInput, Error}
use go_syncstorage.Storage.Erase.{contains}
use go_syncstorage.Storage.Bso.{given_and_not}
use go_syncstorage.Web.Http.{Request, send_request_problem}
use go_syncstorage.Web.Body.{
  Json, Failures, Reason, said, stored, Parsed, parsed, parse_into_bso, too_large,
}
use go_syncstorage.Web.BsoRoutes.{Config}
use go_syncstorage.Web.Post.{PostAnswer}
use go_syncstorage.Web.Reply.{Reply, refused, weave_error, weave_size_limit_exceeded}

abbrev pub size_limit : Reply PostAnswer
size_limit = weave_error weave_size_limit_exceeded

-- A header with a size: the refusal that it leads to
abbrev pub size_from : Text → ℕ → Option ℤ → Option (Reply PostAnswer)
size_from name max none =
    some (refused (send_request_problem [] 400 (codes "Invalid integer value for " ++ name)))
size_from name max (some n) = if lt_int (pos max) n then some size_limit else none

abbrev pub size_given : Text → ℕ → Text → Option (Reply PostAnswer)
size_given name max [] = none
size_given name max (c ∷ s) = size_from name max (parse_int (c ∷ s))

abbrev pub or_refusal :
    Option (Reply PostAnswer) → Option (Reply PostAnswer) → Option (Reply PostAnswer)
or_refusal none o = o
or_refusal (some p) o = some p

unfoldable pub check_sizes : Request → List (Text × ℕ) → Option (Reply PostAnswer)
check_sizes r [] = none
check_sizes r ((name, max) ∷ more) =
    or_refusal (size_given name max (r.header name)) (check_sizes r more)

-- The headers, in the order in which they are looked at, with their limits
abbrev pub size_limits : Config → List (Text × ℕ)
size_limits c =
    (codes "X-Weave-Total-Records", c.max_total_records)
    ∷ (codes "X-Weave-Total-Bytes", c.max_total_bytes)
    ∷ (codes "X-Weave-Records", c.max_post_records)
    ∷ (codes "X-Weave-Bytes", c.max_post_bytes)
    ∷ []

-- Why a BSO does not come into a batch, and under which id that is told; a TTL hides a sort index.
unfoldable pub batch_refusal : PutBsoInput → Option (Text × Text)
batch_refusal b =
    if not (bso_id_ok b.id)
    then some (codes "na", codes "Invalid BSO id " ++ b.id)
    else if given_and_not ttl_ok b.ttl
    then some (b.id, codes "Invalid TTL for: " ++ b.id)
    else if given_and_not sort_index_ok b.sort_index
    then some (b.id, codes "Invalid sort index for: " ++ b.id)
    else none

abbrev pub with_reasons : Option (List Reason) → List Reason → List Reason
with_reasons none reasons = reasons
with_reasons (some earlier) reasons = earlier ++ reasons

-- failures[id] = append(failures[id], reasons...)
abbrev pub add_reasons : Text → List Reason → Failures → Failures
add_reasons id reasons failures = put_key id (with_reasons (find_key id failures) reasons) failures

abbrev pub filtered :
    List PutBsoInput × Failures → PutBsoInput → Option (Text × Text) → List PutBsoInput × Failures
filtered (good, failures) b none = (good ++ b ∷ [], failures)
filtered (good, failures) b (some (id, reason)) = (good, add_reasons id (said reason ∷ []) failures)

-- The loop that makes filteredBSOs and failures
unfoldable pub filter_bsos :
    List PutBsoInput → List PutBsoInput × Failures → List PutBsoInput × Failures
unfolding batch_refusal
filter_bsos [] found = found
filter_bsos (b ∷ list) found = filter_bsos list (filtered found b (batch_refusal b))

abbrev pub append_encoded : Option Text → Option Text → Option Text
append_encoded (some a) (some b) = some (a ++ b)
append_encoded _ _ = none

-- The failures of the storage are added to earlier ones with their ids; of several for one id only
-- the newest, which stands in front, counts.
unfoldable pub append_failures : List Text → List (Text × Error) → Failures → Failures
unfolding contains
append_failures seen [] failures = failures
append_failures seen ((id, e) ∷ more) failures =
    let rest = append_failures (id ∷ seen) more failures in
    if contains seen id then rest else add_reasons id (stored e ∷ []) rest

unfoldable pub sent_ids : List PutBsoInput → List Text
sent_ids [] = []
sent_ids (b ∷ list) = b.id ∷ sent_ids list

-- The check of the bytes of a batch: the sum begins anew with each BSO.
unfoldable pub some_too_large : ℕ → List PutBsoInput → Bool
some_too_large max [] = false
some_too_large max (b ∷ list) = too_large max b.payload || some_too_large max list

abbrev pub add_decoded : Parsed PutBsoInput → Option (List PutBsoInput) → Option (List PutBsoInput)
add_decoded (parsed b) (some list) = some (b ∷ list)
add_decoded _ _ = none

module _ (j : Json) where
  unfoldable pub encode_all : List PutBsoInput → Option Text
  encode_all [] = some []
  encode_all (b ∷ list) = append_encoded (j.encode b) (encode_all list)

  unfoldable pub decode_all : List Text → Option (List PutBsoInput)
  unfolding parse_into_bso
  decode_all [] = some []
  decode_all (raw ∷ more) = add_decoded (parse_into_bso j raw) (decode_all more)
