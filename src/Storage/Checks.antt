-- ===== src/Storage/Checks.antt =====
-- syncstorage/utils.go: the clock in hundredths of a second, and the checks of client values.
use go_syncstorage.Prelude.{
  ℕ, ◌+◌, ◌-◌, ◌*◌, ◌/◌, ◌%◌, ◌≤◌, ◌<◌, ◌≡◌, Bool, ◌&&◌, ◌||◌, List, [], ◌∷◌, arith, leb, ◌==◌,
  length, if◌then◌else◌, true, false,
}
use go_syncstorage.Prelude.Int.{ℤ, pos, negsuc, le_int}
use go_syncstorage.Prelude.Text.{Text}

-- MaxTimestamp
abbrev pub max_timestamp : ℕ
max_timestamp = 4070822400000

-- DEFAULT_BSO_TTL, 100 years in milliseconds
abbrev pub default_bso_ttl : ℕ
default_bso_ttl = 100 * 365 * 24 * 60 * 60 * 1000

-- Now(), for a clock that shows `nanos` nanoseconds since the epoch
unfoldable pub now_of : ℕ → ℕ
now_of nanos = let ms = nanos / 1000 / 1000 in ms + 10 - ms % 10

-- [[:print:]]
unfoldable pub is_print : ℕ → Bool
is_print c = leb 32 c && leb c 126

-- [\w-\.]
unfoldable pub is_name_char : ℕ → Bool
is_name_char c =
    leb b'0' c && leb c b'9'
    || leb b'A' c && leb c b'Z'
    || leb b'a' c && leb c b'z'
    || c == b'_'
    || c == b'-'
    || c == b'.'

pub all_bytes : (ℕ → Bool) → Text → Bool
all_bytes p [] = true
all_bytes p (c ∷ s) = p c && all_bytes p s

-- ^[class]{1,max}$
unfoldable pub match_class : (ℕ → Bool) → ℕ → Text → Bool
unfolding all_bytes
match_class class max s = leb 1 (length s) && leb (length s) max && all_bytes class s

-- BSOIdOk
unfoldable pub bso_id_ok : Text → Bool
unfolding match_class is_print
bso_id_ok s = match_class is_print 64 s

-- ValidateBSOId
unfoldable pub validate_bso_id : List Text → Bool
validate_bso_id [] = true
validate_bso_id (id ∷ ids) = if bso_id_ok id then validate_bso_id ids else false

-- CollectionNameOk
unfoldable pub collection_name_ok : Text → Bool
unfolding match_class is_name_char
collection_name_ok s = match_class is_name_char 32 s

-- SortIndexOk
unfoldable pub sort_index_ok : ℤ → Bool
sort_index_ok i = le_int (negsuc 999999998) i && le_int i (pos 99999999)

-- TTLOk
unfoldable pub ttl_ok : ℤ → Bool
ttl_ok ttl = le_int (pos 0) ttl

-- LimitOk
unfoldable pub limit_ok : ℤ → Bool
limit_ok limit = le_int (negsuc 0) limit

-- OffsetOk
unfoldable pub offset_ok : ℤ → Bool
offset_ok offset = le_int (pos 0) offset

-- NewerOk
unfoldable pub newer_ok : ℤ → Bool
newer_ok newer = le_int (pos 0) newer

-- Now() is a whole number of hundredths of a second, later than the clock by at most one of them.
pub now_of_bounds :
    (nanos : ℕ)
    → (now_of nanos % 10 ≡ 0)
      × (nanos / 1000000 < now_of nanos)
      × (now_of nanos ≤ nanos / 1000000 + 10)
unfolding now_of
now_of_bounds nanos = (omega arith, omega arith, omega arith)
