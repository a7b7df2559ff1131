-- ===== src/Web/BatchId.antt =====
-- web/syncUserHandler_misc.go: the batch named by a request, and the text form of a batch number.
use go_syncstorage.Prelude.{
  ◌≡◌, Bool, true, false, Option, none, some, List, [], ◌∷◌, arith, leb, length, if◌then◌else◌,
  drop,
}
use go_syncstorage.Prelude.Int.{ℤ}
use go_syncstorage.Prelude.Text.{Text, codes}
use go_syncstorage.Strconv.{itoa, parse_int, parse_int-itoa, InRange, itoa_long}
use go_syncstorage.Web.Http.{Request}

pub record BatchQuery : Type 0 where
  pub batch_found : Bool
  pub batch_id : Text
  pub batch_commit : Bool

-- The first value of the key, if there is one
unfoldable pub batch_named : Option (List Text) → Bool × Text
batch_named none = (false, [])
batch_named (some []) = (false, [])
batch_named (some (v ∷ vs)) = (true, v)

abbrev pub is_given : Option (List Text) → Bool
is_given none = false
is_given (some vs) = true

-- GetBatchIdAndCommit
unfoldable pub get_batch_id_and_commit : Request → BatchQuery
get_batch_id_and_commit r =
    let (found, id) = batch_named (r.query (codes "batch")) in
    record {
      batch_found = found;
      batch_id = id;
      batch_commit = is_given (r.query (codes "commit"));
    }

-- batchIdInt
unfoldable pub batch_id_int : Text → Option ℤ
batch_id_int s = if leb 2 (length s) then parse_int (drop 1 s) else none

-- batchIdString
unfoldable pub batch_id_string : ℤ → Text
batch_id_string n = b'b' ∷ itoa n

-- Every batch number, a negative one included, is read back from the id that a client is given.
pub batch_id_int-batch_id_string : (n : ℤ) → InRange n → batch_id_int (batch_id_string n) ≡ some n
unfolding batch_id_int batch_id_string
batch_id_int-batch_id_string n h =
    let long : leb 2 (length (b'b' ∷ itoa n)) ≡ true = ground (arith, itoa_long n) in
    rw long (parse_int-itoa n h)
