-- ===== src/Config.antt =====
-- config/config.go: the checks of the values that init makes once envconfig has read them, and
-- server.go: the limits and the pool's times that main makes of them. The environment, the operating
-- system and the data directory are parameters.
pub mod Accepted
use go_syncstorage.Prelude.{
  ℕ, Bool, true, false, ◌||◌, ◌&&◌, not, Option, none, some, List, [], ◌∷◌, if◌then◌else◌,
}
use go_syncstorage.Prelude.Int.{ℤ, pos, lt_int, le_int, mul_int}
use go_syncstorage.Prelude.Text.{Text, codes, text_eq}

-- UserHandlerConfig
pub record UserHandlerConfig : Type 0 where
  pub max_request_bytes : ℤ
  pub max_post_records : ℤ
  pub max_post_bytes : ℤ
  pub max_total_records : ℤ
  pub max_total_bytes : ℤ
  pub max_batch_ttl : ℤ
  pub max_record_payload_bytes : ℤ

-- PoolConfig
pub record PoolConfig : Type 0 where
  pub num : ℤ
  pub max_size : ℤ
  pub purge_min_hours : ℤ
  pub purge_max_hours : ℤ
  pub vacuum_kb : ℤ

-- Config, as far as init looks at it
pub record Values : Type 0 where
  pub log_level : Text
  pub hostname : Text
  pub port : ℤ
  pub data_dir : Text
  pub pool : PoolConfig
  pub limit : UserHandlerConfig
  pub info_cache_size : ℤ
  pub hawk_timestamp_max_skew : ℤ

-- What init asks of the operating system: a data directory's state, its cleaned name, the host's name
-- and the number of processors. Of a `hidden` directory os.Stat tells another error than its absence.
pub data Directory : Type 0 where
  absent hidden file read_only writable : Directory

pub record Host : Type 0 where
  pub directory : Text → Directory
  pub clean : Text → Text
  pub hostname : Text
  pub num_cpu : ℤ

-- The end of the process with a message, or by a panic, or the configuration
pub data Configured : Type 0 where
  fatal : Text → Configured
  crashed : Configured
  configured : Values → Configured

abbrev pub require : Bool → Text → Configured → Configured
require true message rest = rest
require false message rest = fatal message

abbrev pub is_level : Text → Bool
is_level s =
    text_eq s (codes "panic")
    || text_eq s (codes "fatal")
    || text_eq s (codes "error")
    || text_eq s (codes "warn")
    || text_eq s (codes "info")
    || text_eq s (codes "debug")

abbrev pub in_memory : Text → Bool
in_memory s = text_eq s (codes ":memory:")

-- The checks of the numbers, in their order, with their messages
abbrev pub number_checks : Values → List (Bool × Text)
number_checks v =
    (not (lt_int v.limit.max_post_records (pos 1)), codes "LIMIT_MAX_POST_RECORDS must be >= 1")
    ∷ (not (lt_int v.limit.max_post_bytes (pos 1)), codes "LIMIT_MAX_MAX_POST_BYTES must be >= 1")
    ∷ (not (lt_int v.limit.max_total_records (pos 1)), codes "LIMIT_MAX_TOTAL_RECORDS must be >= 1")
    ∷ (not (lt_int v.limit.max_total_bytes (pos 1)), codes "LIMIT_MAX_TOTAL_BYTES must be >= 1")
    ∷ (not (lt_int v.limit.max_batch_ttl (pos 10)), codes "LIMIT_MAX_BATCH_TTL must be >= 10")
    ∷ (
      not (lt_int v.limit.max_record_payload_bytes (pos 1)),
      codes "LIMIT_MAX_RECORD_PAYLOAD_BYTES must be >= 1",
    )
    ∷ (not (lt_int v.info_cache_size (pos 0)), codes "INFO_CACHE_SIZE must be >= 0")
    ∷ (not (lt_int v.pool.vacuum_kb (pos 0)), codes "POOL_VACUUM_KB must be >= 0")
    ∷ (not (le_int v.pool.purge_min_hours (pos 0)), codes "POOL_MIN_HOURS must be > 0")
    ∷ (not (le_int v.pool.purge_max_hours (pos 0)), codes "POOL_MAX_HOURS must be > 0")
    ∷ (
      not (lt_int v.pool.purge_max_hours v.pool.purge_min_hours),
      codes "POOL_MAX_HOURS must be > POOL_MIN_HOURS",
    )
    ∷ (
      not (lt_int v.hawk_timestamp_max_skew (pos 60)),
      codes "HAWK_TIMESTAMP_MAX_SKEW must be >= 60",
    )
    ∷ []

unfoldable pub require_all : List (Bool × Text) → Configured → Configured
require_all [] rest = rest
require_all ((b, message) ∷ more) rest =
    let later = require_all more rest in require b message later

module _ (h : Host) where
  abbrev pub or_host : Text → Text
  or_host [] = h.hostname
  or_host (c ∷ s) = c ∷ s

  -- The values that are set where none, or none that can be used, was given
  abbrev pub filled_in : Values → Values
  filled_in v = record v {
    hostname = or_host v.hostname;
    data_dir = if in_memory v.data_dir then v.data_dir else h.clean v.data_dir;
    pool = record v.pool { num = if le_int v.pool.num (pos 0) then h.num_cpu else v.pool.num };
  }

  abbrev pub with_directory : Directory → Configured → Configured
  with_directory absent rest = fatal (codes "Config Error: DATA_DIR does not exist")
  with_directory hidden rest = crashed
  with_directory file rest = fatal (codes "Config Error: DATA_DIR is not a directory")
  with_directory read_only rest = fatal (codes "Config Error: DATA_DIR is not writable")
  with_directory writable rest = rest

  abbrev pub check_directory : Text → Configured → Configured
  check_directory dir rest = if in_memory dir then rest else with_directory (h.directory dir) rest

  -- init
  unfoldable pub configure : Values → Configured
  unfolding require_all
  configure v =
      require (not (lt_int v.port (pos 1) || lt_int (pos 65535) v.port))
        (codes "Config.Error: PORT invalid")
        (check_directory v.data_dir (
          require (is_level v.log_level)
            (codes "Config Error: LOG_LEVEL must be [panic, fatal, error, warn, info, debug]")
            (require_all (number_checks (filled_in v)) (configured (filled_in v)))))

-- The limits that main hands to the handlers of users; the batch's TTL in milliseconds
unfoldable pub sync_limits : Values → UserHandlerConfig
sync_limits v = record v.limit { max_batch_ttl = mul_int v.limit.max_batch_ttl (pos 1000) }
