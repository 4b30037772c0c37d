-- ===== src/Core/Engine/Compatibility.antt =====
-- src/core/engine.cpp: records of callers that were built against an older header.
use nuvio_engine.Common.{
  ℕ, ◌≤◌, ◌≡◌, refl, Bool, true, false, not, ◌||◌, [], none, some, Bytes, arith, ltb, leb,
  if◌then◌else◌,
}
use nuvio_engine.Core.Runtime.Types.{invalid_argument, incompatible_abi}
use nuvio_engine.Core.Engine.{
  config_v1_size, config_v2_size, config_v3_size, config_v4_size, config_v5_size,
}
use nuvio_engine.Core.Engine.Create.{
  Config, ProtocolBackendConfig, Checked, refused, accepted, ◌>>=◌, valid_upload_configuration,
  valid_torrent_profile, config_init_sized, check_directory, profile_of, stream_timeout_of,
  warm_timeout_of, tls_path_of, settings, check_values, check_config, default_memory_cache_capacity,
  default_disk_cache_capacity, default_stream_inactivity_timeout_milliseconds,
  default_warm_torrent_timeout_milliseconds, default_torrent_profile,
}

-- Two configurations of the same size that agree on the fields that the caller has.
pub record Agree (c d : Config) : Type 0 where
  pub struct_size : c.struct_size ≡ d.struct_size
  pub data_directory : c.data_directory ≡ d.data_directory
  pub cache_directory : c.cache_directory ≡ d.cache_directory
  pub memory : c.memory_cache_capacity_bytes ≡ d.memory_cache_capacity_bytes
  pub disk : c.disk_cache_capacity_bytes ≡ d.disk_cache_capacity_bytes
  pub listen_port : c.listen_port ≡ d.listen_port
  pub upload_mode : c.upload_mode ≡ d.upload_mode
  pub upload_limit : c.upload_limit_bytes_per_second ≡ d.upload_limit_bytes_per_second
  pub second :
      config_v2_size ≤ c.struct_size
      → c.stream_inactivity_timeout_milliseconds ≡ d.stream_inactivity_timeout_milliseconds
  pub third :
      config_v3_size ≤ c.struct_size
      → c.warm_torrent_timeout_milliseconds ≡ d.warm_torrent_timeout_milliseconds
  pub fourth : config_v4_size ≤ c.struct_size → c.tls_ca_bundle_path ≡ d.tls_ca_bundle_path
  pub fifth : config_v5_size ≤ c.struct_size → c.torrent_profile ≡ d.torrent_profile

module _ (c d : Config) (h : Agree c d) where
  same_stream_timeout : stream_timeout_of c ≡ stream_timeout_of d
  unfolding stream_timeout_of
  same_stream_timeout = ground (arith, h.second, h.struct_size)

  same_warm_timeout : warm_timeout_of c ≡ warm_timeout_of d
  unfolding warm_timeout_of
  same_warm_timeout = ground (arith, h.third, h.struct_size)

  same_profile : profile_of c ≡ profile_of d
  unfolding profile_of
  same_profile = ground (arith, h.fifth, h.struct_size)

  same_tls_path : tls_path_of c ≡ tls_path_of d
  unfolding tls_path_of
  same_tls_path = ground (arith, h.fourth, h.struct_size)

  same_settings :
      (state download tls : Bytes) → settings c state download tls ≡ settings d state download tls
  unfolding settings
  same_settings state download tls = λ i. record {
    upload_mode = h.upload_mode i;
    upload_limit_bytes_per_second = h.upload_limit i;
    state_directory = state;
    download_directory = download;
    listen_port = h.listen_port i;
    memory_cache_capacity_bytes = h.memory i;
    disk_cache_capacity_bytes = h.disk i;
    stream_inactivity_timeout_milliseconds = same_stream_timeout i;
    warm_torrent_timeout_milliseconds = same_warm_timeout i;
    torrent_profile = same_profile i;
    tls_ca_bundle_path = tls;
  }

  same_upload : valid_upload_configuration c ≡ valid_upload_configuration d
  unfolding valid_upload_configuration
  same_upload = ground (arith, h.upload_mode, h.upload_limit)

  same_values :
      (state download : Bytes) → check_values c state download ≡ check_values d state download
  unfolding check_values
  same_values state download = λ i.
      if not (same_upload i) || not (valid_torrent_profile (same_profile i))
      then refused invalid_argument
      else same_tls_path i >>= (λ tls. accepted (same_settings state download tls i))

  -- The fields behind the size of the caller's record have no influence on the checks or on the
  -- backend's configuration.
  pub check_config_agree : check_config c ≡ check_config d
  unfolding check_config
  check_config_agree = λ i.
      if ltb (h.struct_size i) config_v1_size
      then refused incompatible_abi
      else check_directory (h.data_directory i) >>= (λ state.
        check_directory (h.cache_directory i) >>= (λ download. same_values state download i))

-- The configuration that `nuvio_engine_config_init_sized` leaves, with the two directories set.
unfoldable pub initialized : ℕ → Bytes → Bytes → Config
unfolding config_init_sized
initialized struct_size state download = record (config_init_sized struct_size) {
  data_directory = some state;
  cache_directory = some download;
}

-- The backend's configuration by default.
abbrev pub defaults : Bytes → Bytes → ProtocolBackendConfig
defaults state download = record {
  upload_mode = 1;
  upload_limit_bytes_per_second = 0;
  state_directory = state;
  download_directory = download;
  listen_port = 0;
  memory_cache_capacity_bytes = default_memory_cache_capacity;
  disk_cache_capacity_bytes = default_disk_cache_capacity;
  stream_inactivity_timeout_milliseconds = default_stream_inactivity_timeout_milliseconds;
  warm_torrent_timeout_milliseconds = default_warm_torrent_timeout_milliseconds;
  torrent_profile = default_torrent_profile;
  tls_ca_bundle_path = [];
}

not_below : (m n : ℕ) → n ≤ m → ltb m n ≡ false
not_below m n h = ground arith

if_same : {A : Type 0} (b : Bool) (x : A) → (if b then x else x) ≡ x
if_same true x = refl
if_same false x = refl

if_twice : {A : Type 0} (b : Bool) (x y : A) → (if b then (if b then x else y) else x) ≡ x
if_twice true x y = refl
if_twice false x y = refl

-- The same, field by field.
abbrev filled : ℕ → Bytes → Bytes → Config
filled struct_size state download = record {
  struct_size = struct_size;
  data_directory = some state;
  cache_directory = some download;
  memory_cache_capacity_bytes = default_memory_cache_capacity;
  disk_cache_capacity_bytes = default_disk_cache_capacity;
  listen_port = 0;
  upload_mode = 1;
  upload_limit_bytes_per_second = 0;
  stream_inactivity_timeout_milliseconds =
      if leb config_v2_size struct_size then default_stream_inactivity_timeout_milliseconds else 0;
  warm_torrent_timeout_milliseconds =
      if leb config_v3_size struct_size then default_warm_torrent_timeout_milliseconds else 0;
  tls_ca_bundle_path = none;
  torrent_profile = if leb config_v5_size struct_size then default_torrent_profile else 0;
}

module _ (struct_size : ℕ) (state download : Bytes) where
  initialized-filled :
      config_v1_size ≤ struct_size
      → initialized struct_size state download ≡ filled struct_size state download
  unfolding initialized config_v1_size
  initialized-filled h =
      rw (not_below struct_size 4 (omega arith), not_below struct_size config_v1_size h) refl

  filled_values :
      check_values (filled struct_size state download) state download
      ≡ accepted (defaults state download)
  unfolding check_values
  filled_values =
      let nothing : Checked Bytes = accepted [] in
      λ i.
        if not (
          valid_torrent_profile
            (if_twice (leb config_v5_size struct_size) default_torrent_profile 0 i))
        then refused invalid_argument
        else if_same (leb config_v4_size struct_size) nothing i >>= (λ tls. accepted (record {
          upload_mode = 1;
          upload_limit_bytes_per_second = 0;
          state_directory = state;
          download_directory = download;
          listen_port = 0;
          memory_cache_capacity_bytes = default_memory_cache_capacity;
          disk_cache_capacity_bytes = default_disk_cache_capacity;
          stream_inactivity_timeout_milliseconds =
              if_twice (leb config_v2_size struct_size)
                default_stream_inactivity_timeout_milliseconds 0 i;
          warm_torrent_timeout_milliseconds =
              if_twice (leb config_v3_size struct_size) default_warm_torrent_timeout_milliseconds 0
                i;
          torrent_profile = if_twice (leb config_v5_size struct_size) default_torrent_profile 0 i;
          tls_ca_bundle_path = tls;
        }))

  -- A record of any version that is initialized and given two directories passes the checks, and
  -- the backend gets the defaults.
  pub check_config-initialized :
      config_v1_size ≤ struct_size
      → check_directory (some state) ≡ accepted state
      → check_directory (some download) ≡ accepted download
      → check_config (initialized struct_size state download) ≡ accepted (defaults state download)
  unfolding check_config
  check_config-initialized h s d =
      rw (initialized-filled h, not_below struct_size config_v1_size h, s, d) filled_values
