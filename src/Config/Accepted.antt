-- ===== src/Config/Accepted.antt =====
-- config/config.go: the configurations that init accepts.
use go_syncstorage.Prelude.{
  ◌≡◌, refl, ◌⊎◌, inl, inr, Bool, true, false, ◌||◌, not, List, [], ◌∷◌, arith, if◌then◌else◌,
  Bool-cases,
}
use go_syncstorage.Prelude.Int.{ℤ, pos, lt_int, le_int}
use go_syncstorage.Prelude.Text.{Text}
use go_syncstorage.Config.{
  Values, Directory, absent, hidden, file, read_only, writable, Host, Configured, fatal, crashed,
  configured, require, is_level, in_memory, number_checks, require_all, filled_in, with_directory,
  check_directory, configure,
}

-- The values that are safe to start with
pub record IsAcceptable (h : Host) (v : Values) : Type 0 where
  pub port : (le_int (pos 1) v.port ≡ true) × (le_int v.port (pos 65535) ≡ true)
  pub directory : (in_memory v.data_dir ≡ true) ⊎ (h.directory v.data_dir ≡ writable)
  pub level : is_level v.log_level ≡ true
  pub post_records : le_int (pos 1) v.limit.max_post_records ≡ true
  pub post_bytes : le_int (pos 1) v.limit.max_post_bytes ≡ true
  pub total_records : le_int (pos 1) v.limit.max_total_records ≡ true
  pub total_bytes : le_int (pos 1) v.limit.max_total_bytes ≡ true
  pub batch_ttl : le_int (pos 10) v.limit.max_batch_ttl ≡ true
  pub payload_bytes : le_int (pos 1) v.limit.max_record_payload_bytes ≡ true
  pub cache_size : le_int (pos 0) v.info_cache_size ≡ true
  pub vacuum : le_int (pos 0) v.pool.vacuum_kb ≡ true
  pub purge :
      (lt_int (pos 0) v.pool.purge_min_hours ≡ true)
      × (le_int v.pool.purge_min_hours v.pool.purge_max_hours ≡ true)
  pub skew : le_int (pos 60) v.hawk_timestamp_max_skew ≡ true

abbrev AllTrue : List (Bool × Text) → Type 0
AllTrue [] = Unit
AllTrue ((b, message) ∷ more) = (b ≡ true) × AllTrue more

require-configured :
    (b : Bool) (message : Text) (rest : Configured) (c : Values)
    → require b message rest ≡ configured c
    → (b ≡ true) × (rest ≡ configured c)
require-configured true message rest c e = (refl, e)
require-configured false message rest c e = absurd (cc)

require_all-configured :
    (checks : List (Bool × Text)) (rest : Configured) (c : Values)
    → require_all checks rest ≡ configured c
    → AllTrue checks × (rest ≡ configured c)
unfolding require_all
require_all-configured [] rest c e = (tt, e)
require_all-configured ((b, message) ∷ more) rest c e =
    let (holds, later) = require-configured b message (require_all more rest) c e in
    let (others, done) = require_all-configured more rest c later in ((holds, others), done)

require_all-true :
    (checks : List (Bool × Text)) (rest : Configured)
    → AllTrue checks
    → require_all checks rest ≡ rest
unfolding require_all
require_all-true [] rest all = refl
require_all-true ((b, message) ∷ more) rest (holds, all) =
    rw (holds, require_all-true more rest all) refl

not_less : (a b : ℤ) → not (lt_int a b) ≡ true → le_int b a ≡ true
not_less a b e = ground arith

not_more : (a b : ℤ) → not (le_int a b) ≡ true → lt_int b a ≡ true
not_more a b e = ground arith

less_not : (a b : ℤ) → le_int b a ≡ true → not (lt_int a b) ≡ true
less_not a b e = ground arith

more_not : (a b : ℤ) → lt_int b a ≡ true → not (le_int a b) ≡ true
more_not a b e = ground arith

above : (a b : ℤ) → lt_int (pos 0) a ≡ true → le_int a b ≡ true → lt_int (pos 0) b ≡ true
above a b e l = ground arith

directory-configured :
    (h : Host) (dir : Text) (rest : Configured) (c : Values)
    → check_directory h dir rest ≡ configured c
    → ((in_memory dir ≡ true) ⊎ (h.directory dir ≡ writable)) × (rest ≡ configured c)
directory-configured h dir rest c e = elim (Bool-cases (in_memory dir)) [
  | inl memory ↦ (inl memory, rw (memory, if◌then◌else◌) at e)
  | inr disk ↦
      let (usable, done) = go (h.directory dir) (rw (disk, if◌then◌else◌) at e) in
      (inr usable, done)
]
  where
    go :
        (d : Directory)
        → with_directory h d rest ≡ configured c
        → (d ≡ writable) × (rest ≡ configured c)
    go absent e = absurd (cc)
    go hidden e = absurd (cc)
    go file e = absurd (cc)
    go read_only e = absurd (cc)
    go writable e = (refl, e)

directory-usable :
    (h : Host) (dir : Text) (rest : Configured)
    → (in_memory dir ≡ true) ⊎ (h.directory dir ≡ writable)
    → check_directory h dir rest ≡ rest
directory-usable h dir rest (inl memory) = rw (memory) refl
directory-usable h dir rest (inr usable) = elim (Bool-cases (in_memory dir)) [
  | inl memory ↦ rw (memory) refl
  | inr disk ↦ rw (disk, if◌then◌else◌, usable) refl
]

port_bounds :
    (p : ℤ)
    → not (lt_int p (pos 1) || lt_int (pos 65535) p) ≡ true
    → (le_int (pos 1) p ≡ true) × (le_int p (pos 65535) ≡ true)
port_bounds p e = (ground arith, ground arith)

port_fits :
    (p : ℤ)
    → le_int (pos 1) p ≡ true
    → le_int p (pos 65535) ≡ true
    → not (lt_int p (pos 1) || lt_int (pos 65535) p) ≡ true
port_fits p low high = ground arith

acceptable : (h : Host) (v c : Values) → configure h v ≡ configured c → IsAcceptable h v
unfolding configure
acceptable h v c e =
    let (port, e1) = require-configured _ _ _ c e in
    let (directory, e2) = directory-configured h v.data_dir _ c e1 in
    let (level, e3) = require-configured _ _ _ c e2 in
    let ((a1, (a2, (a3, (a4, (a5, (a6, (a7, (a8, (a9, (a10, (a11, (a12, u)))))))))))), e4) =
      require_all-configured (number_checks (filled_in h v)) _ c e3 in
    record {
      port = port_bounds v.port port;
      directory = directory;
      level = level;
      post_records = not_less v.limit.max_post_records (pos 1) a1;
      post_bytes = not_less v.limit.max_post_bytes (pos 1) a2;
      total_records = not_less v.limit.max_total_records (pos 1) a3;
      total_bytes = not_less v.limit.max_total_bytes (pos 1) a4;
      batch_ttl = not_less v.limit.max_batch_ttl (pos 10) a5;
      payload_bytes = not_less v.limit.max_record_payload_bytes (pos 1) a6;
      cache_size = not_less v.info_cache_size (pos 0) a7;
      vacuum = not_less v.pool.vacuum_kb (pos 0) a8;
      purge = (
        not_more v.pool.purge_min_hours (pos 0) a9,
        not_less v.pool.purge_max_hours v.pool.purge_min_hours a11,
      );
      skew = not_less v.hawk_timestamp_max_skew (pos 60) a12;
    }

checks_hold : (h : Host) (v : Values) → IsAcceptable h v → AllTrue (number_checks (filled_in h v))
checks_hold h v a =
    let (min, max) = a.purge in
    (
      less_not v.limit.max_post_records (pos 1) a.post_records,
      (
        less_not v.limit.max_post_bytes (pos 1) a.post_bytes,
        (
          less_not v.limit.max_total_records (pos 1) a.total_records,
          (
            less_not v.limit.max_total_bytes (pos 1) a.total_bytes,
            (
              less_not v.limit.max_batch_ttl (pos 10) a.batch_ttl,
              (
                less_not v.limit.max_record_payload_bytes (pos 1) a.payload_bytes,
                (
                  less_not v.info_cache_size (pos 0) a.cache_size,
                  (
                    less_not v.pool.vacuum_kb (pos 0) a.vacuum,
                    (
                      more_not v.pool.purge_min_hours (pos 0) min,
                      (
                        more_not v.pool.purge_max_hours (pos 0)
                            (above v.pool.purge_min_hours v.pool.purge_max_hours min max),
                        (
                          less_not v.pool.purge_max_hours v.pool.purge_min_hours max,
                          (less_not v.hawk_timestamp_max_skew (pos 60) a.skew, tt),
                        ),
                      ),
                    ),
                  ),
                ),
              ),
            ),
          ),
        ),
      ),
    )

accepted : (h : Host) (v : Values) → IsAcceptable h v → configure h v ≡ configured (filled_in h v)
unfolding configure
accepted h v a =
    rw
      (
        port_fits v.port a.port.0 a.port.1,
        directory-usable h v.data_dir _ a.directory,
        a.level,
        require_all-true (number_checks (filled_in h v)) _ (checks_hold h v a),
      )
      refl

-- The process ended: with a message, or by a panic.
abbrev pub IsEnd : Configured → Type 0
IsEnd (fatal message) = Unit
IsEnd crashed = Unit
IsEnd (configured c) = ⊥

configure-cases :
    (h : Host) (v : Values) (o : Configured)
    → configure h v ≡ o
    → (IsAcceptable h v × (configure h v ≡ configured (filled_in h v)))
      ⊎ ((¬ (IsAcceptable h v)) × IsEnd (configure h v))
configure-cases h v (fatal message) e = inr ((λ a. absurd (cc (e, accepted h v a))), rw e tt)
configure-cases h v crashed e = inr ((λ a. absurd (cc (e, accepted h v a))), rw e tt)
configure-cases h v (configured c) e = let a = acceptable h v c e in inl (a, accepted h v a)

-- With acceptable values the program starts, with these values and with what was not given filled in;
-- with any other values the process ends. Acceptable are: a port; a data directory that can be
-- written, or none; a known level for the log; limits of at least 1 for the records and bytes of a
-- POST and of a batch and for the bytes of a payload, and of at least 10 s for a batch; a size of the
-- cache and of the space that is vacuumed of at least 0; times between purges of more than no hours,
-- the smaller one not above the larger one; a skew of at least 60 s.
pub configure_lem :
    (h : Host) (v : Values)
    → (IsAcceptable h v × (configure h v ≡ configured (filled_in h v)))
      ⊎ ((¬ (IsAcceptable h v)) × IsEnd (configure h v))
configure_lem h v = configure-cases h v (configure h v) refl
