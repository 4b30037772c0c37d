-- ===== src/Tests/Engine.antt =====
-- The C interface on concrete arguments.
use nuvio_engine.Common.{ℕ, ◌≡◌, refl, none, some, Bytes, Option, arith}
use nuvio_engine.Text.{codes}
use nuvio_engine.Core.Runtime.{Runtime, init}
use nuvio_engine.Core.Engine.{
  normalize_torrent_id, config_v1_size, config_v5_size, stats_size, event_size,
  torrent_request_v2_size,
}
use nuvio_engine.Core.Engine.Ids.{IsId, IsNormalized, normalize_torrent_id-IsNormalized}
use nuvio_engine.Core.Engine.Create.{Config, check_config}
use nuvio_engine.Core.Engine.Requests.{TorrentRequest, StreamRequest}
use nuvio_engine.Core.Engine.Compatibility.{Agree, check_config_agree}

sizes_run :
    (config_v1_size ≡ 56)
    × (config_v5_size ≡ 88)
    × (event_size ≡ 960)
    × (stats_size ≡ 328)
    × (torrent_request_v2_size ≡ 40)
unfolding config_v1_size config_v5_size event_size stats_size torrent_request_v2_size
sizes_run = (refl, refl, refl, refl, refl)

abbrev capitals : Bytes
capitals = codes "ABCDEFABCDEFABCDEFABCDEFABCDEFABCDEFAB12"

normalize_run :
    normalize_torrent_id (some capitals) ≡ some (codes "abcdefabcdefabcdefabcdefabcdefabcdefab12")
unfolding normalize_torrent_id
normalize_run = refl

normalize_torrent_id-IsNormalized_example :
    IsNormalized (normalize_torrent_id (some capitals))
    × ((cs : Bytes) → IsId cs → normalize_torrent_id (some cs) ≡ some cs)
normalize_torrent_id-IsNormalized_example = normalize_torrent_id-IsNormalized (some capitals)

-- Two records of the first version whose later fields differ.
abbrev first_version : ℕ → Config
first_version beyond = record {
  struct_size = 56;
  data_directory = some (codes "/d");
  cache_directory = some (codes "/c");
  memory_cache_capacity_bytes = 5;
  disk_cache_capacity_bytes = 6;
  listen_port = 0;
  upload_mode = 2;
  upload_limit_bytes_per_second = 9;
  stream_inactivity_timeout_milliseconds = beyond;
  warm_torrent_timeout_milliseconds = beyond;
  tls_ca_bundle_path = none;
  torrent_profile = beyond;
}

first_version-Agree : Agree (first_version 0) (first_version 77)
unfolding config_v5_size
first_version-Agree = record {
  struct_size = refl;
  data_directory = refl;
  cache_directory = refl;
  memory = refl;
  disk = refl;
  listen_port = refl;
  upload_mode = refl;
  upload_limit = refl;
  second = λ h. ground arith;
  third = λ h. ground arith;
  fourth = λ h. refl;
  fifth = λ h. ground arith;
}

check_config_agree_example : check_config (first_version 0) ≡ check_config (first_version 77)
check_config_agree_example =
    check_config_agree (first_version 0) (first_version 77) first_version-Agree

abbrev engine : Option (Runtime ℕ)
engine = some (init (some 0) (codes "/c") 256 1024)

abbrev magnet_request : TorrentRequest
magnet_request = record {
  struct_size = 40;
  magnet_uri = some (codes "magnet:?xt=urn:btih:1");
  source_type = 0;
  torrent_data = none;
  torrent_data_size = 0;
}

abbrev stream_request : StreamRequest
stream_request = record {
  struct_size = 32;
  torrent_id = some capitals;
  file_index = 3;
  filename_hint = none;
}
