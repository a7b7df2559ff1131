-- ===== src/Tests/Start.antt =====
-- The configuration, the log's writer and the check of bodies at concrete values.
use go_syncstorage.Prelude.{ℕ, ◌≡◌, ◌≢◌, ◌⊎◌, refl, [], ◌++◌}
use go_syncstorage.Prelude.Int.{pos}
use go_syncstorage.Prelude.Text.{Text, codes}
use go_syncstorage.Config.{Values, Host, writable, configured, configure, filled_in}
use go_syncstorage.Config.Accepted.{IsAcceptable, IsEnd, configure_lem}
use go_syncstorage.Web.Crypto.{iv_key, zero_iv, known_bad_payload, catch_bad_crypto}
use go_syncstorage.Web.Crypto.Known.{IsKnownBad, catch_bad_crypto_lem}
use go_syncstorage.Web.Body.{Body}
use go_syncstorage.Web.Reply.{Handler, refused, answered}
use go_syncstorage.Tests.Data.{start}
use go_syncstorage.Tests.Json.{body_of}

abbrev host : Host
host = record {
  directory = λ dir. writable;
  clean = λ dir. dir;
  hostname = codes "h";
  num_cpu = pos 4;
}

-- The defaults
abbrev defaults : Values
defaults = record {
  log_level = codes "info";
  hostname = [];
  port = pos 8000;
  data_dir = codes "/tmp/sync";
  pool = record {
    num = pos 0;
    max_size = pos 25;
    purge_min_hours = pos 168;
    purge_max_hours = pos 336;
    vacuum_kb = pos 0;
  };
  limit = record {
    max_request_bytes = pos 2097152;
    max_post_records = pos 100;
    max_post_bytes = pos 2097152;
    max_total_records = pos 1000;
    max_total_bytes = pos 20971520;
    max_batch_ttl = pos 7200;
    max_record_payload_bytes = pos 2097152;
  };
  info_cache_size = pos 0;
  hawk_timestamp_max_skew = pos 60;
}

configure_lem_example :
    (IsAcceptable host defaults × (configure host defaults ≡ configured (filled_in host defaults)))
    ⊎ ((¬ (IsAcceptable host defaults)) × IsEnd (configure host defaults))
configure_lem_example = configure_lem host defaults

abbrev body : Text
body = codes "{" ++ (iv_key ++ (codes "  " ++ (zero_iv ++ codes "}")))

abbrev pass_on : Body → Handler ℕ
pass_on sent w = (answered 1, w)

catch_bad_crypto_lem_example :
    ((codes "crypto" ≡ codes "crypto")
      × IsKnownBad body
      × (catch_bad_crypto (codes "crypto") (body_of body) pass_on start
          ≡ (refused known_bad_payload, start)))
    ⊎ (((codes "crypto" ≢ codes "crypto") ⊎ (¬ (IsKnownBad body)))
        × (catch_bad_crypto (codes "crypto") (body_of body) pass_on start
            ≡ pass_on (body_of body) start))
catch_bad_crypto_lem_example =
    catch_bad_crypto_lem pass_on (codes "crypto") (body_of body) start refl
