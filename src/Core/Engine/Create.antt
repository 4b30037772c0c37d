-- ===== src/Core/Engine/Create.antt =====
-- src/core/engine.cpp: the configuration: `nuvio_engine_config_init_sized` and
-- `nuvio_engine_create`. The library that implements the backend is given.
use nuvio_engine.Common.{
  ℕ, ◌*◌, Bool, true, false, ◌||◌, not, [], ◌∷◌, Option, none, some, Bytes, take, ltb, leb, ◌==◌,
  if◌then◌else◌,
}
use nuvio_engine.Core.Runtime.Types.{
  Status, invalid_argument, incompatible_abi, allocation_failed, initialization_failed,
}
use nuvio_engine.Core.Runtime as R
use nuvio_engine.Core.Engine.{
  bounded_string_length, config_v1_size, config_v2_size, config_v3_size, config_v4_size,
  config_v5_size,
}

-- `nuvio_engine_config` without its reserved fields; `tls_ca_bundle_path` is none where it is null.
pub record Config : Type 0 where
  pub struct_size : ℕ
  pub data_directory : Option Bytes
  pub cache_directory : Option Bytes
  pub memory_cache_capacity_bytes : ℕ
  pub disk_cache_capacity_bytes : ℕ
  pub listen_port : ℕ
  pub upload_mode : ℕ
  pub upload_limit_bytes_per_second : ℕ
  pub stream_inactivity_timeout_milliseconds : ℕ
  pub warm_torrent_timeout_milliseconds : ℕ
  pub tls_ca_bundle_path : Option Bytes
  pub torrent_profile : ℕ

-- `ProtocolBackendConfig` of src/torrent/protocol_backend.hpp.
pub record ProtocolBackendConfig : Type 0 where
  pub upload_mode : ℕ
  pub upload_limit_bytes_per_second : ℕ
  pub state_directory : Bytes
  pub download_directory : Bytes
  pub listen_port : ℕ
  pub memory_cache_capacity_bytes : ℕ
  pub disk_cache_capacity_bytes : ℕ
  pub stream_inactivity_timeout_milliseconds : ℕ
  pub warm_torrent_timeout_milliseconds : ℕ
  pub torrent_profile : ℕ
  pub tls_ca_bundle_path : Bytes

abbrev pub default_memory_cache_capacity : ℕ
default_memory_cache_capacity = 67108864

abbrev pub default_disk_cache_capacity : ℕ
default_disk_cache_capacity = 2147483648

abbrev pub default_stream_inactivity_timeout_milliseconds : ℕ
default_stream_inactivity_timeout_milliseconds = 30000

abbrev pub default_warm_torrent_timeout_milliseconds : ℕ
default_warm_torrent_timeout_milliseconds = 60000

-- `NUVIO_ENGINE_TORRENT_PROFILE_BALANCED`.
abbrev pub default_torrent_profile : ℕ
default_torrent_profile = 1

-- The modes are 0 for disabled, 1 for unlimited and 2 for limited.
unfoldable pub valid_upload_configuration : Config → Bool
valid_upload_configuration config =
    if (config.upload_mode == 0) || (config.upload_mode == 1)
    then config.upload_limit_bytes_per_second == 0
    else if config.upload_mode == 2
    then ltb 0 config.upload_limit_bytes_per_second
    else false

unfoldable pub valid_torrent_profile : ℕ → Bool
valid_torrent_profile profile = (profile == 0) || (profile == 1) || (profile == 2)

-- The record when `memset` has cleared it.
abbrev pub cleared : ℕ → Config
cleared struct_size = record {
  struct_size = struct_size;
  data_directory = none;
  cache_directory = none;
  memory_cache_capacity_bytes = 0;
  disk_cache_capacity_bytes = 0;
  listen_port = 0;
  upload_mode = 0;
  upload_limit_bytes_per_second = 0;
  stream_inactivity_timeout_milliseconds = 0;
  warm_torrent_timeout_milliseconds = 0;
  tls_ca_bundle_path = none;
  torrent_profile = 0;
}

-- `nuvio_engine_config_init_sized` of a record of so many bytes; the fields behind them, which the
-- caller does not have, are zero.
unfoldable pub config_init_sized : ℕ → Config
unfolding config_v1_size config_v2_size config_v3_size config_v5_size
config_init_sized struct_size =
    if ltb struct_size 4
    then cleared 0
    else if ltb struct_size config_v1_size
    then cleared struct_size
    else record (cleared struct_size) {
      memory_cache_capacity_bytes = default_memory_cache_capacity;
      disk_cache_capacity_bytes = default_disk_cache_capacity;
      upload_mode = 1;
      stream_inactivity_timeout_milliseconds =
          if leb config_v2_size struct_size
          then default_stream_inactivity_timeout_milliseconds
          else 0;
      warm_torrent_timeout_milliseconds =
          if leb config_v3_size struct_size then default_warm_torrent_timeout_milliseconds else 0;
      torrent_profile = if leb config_v5_size struct_size then default_torrent_profile else 0;
    }

-- What a check of the arguments ends with: a status for the caller, or a value.
pub data Checked (A : Type 0) : Type 0 where
  refused : Status → Checked A
  accepted : A → Checked A

infixl 5 ◌>>=◌
abbrev pub ◌>>=◌ : {A B : Type 0} → Checked A → (A → Checked B) → Checked B
refused status >>= f = refused status
accepted a >>= f = f a

-- A text that is neither null nor empty, up to its end.
unfoldable pub text_of : Bytes → Bytes
text_of [] = []
text_of (c ∷ cs) = if c == 0 then [] else c ∷ text_of cs

unfoldable pub check_directory : Option Bytes → Checked Bytes
unfolding text_of
check_directory none = refused invalid_argument
check_directory (some []) = refused invalid_argument
check_directory (some (c ∷ cs)) =
    if c == 0 then refused invalid_argument else accepted (text_of (c ∷ cs))

unfoldable pub profile_of : Config → ℕ
unfolding config_v5_size
profile_of config =
    if leb config_v5_size config.struct_size
    then config.torrent_profile
    else default_torrent_profile

unfoldable pub stream_timeout_of : Config → ℕ
unfolding config_v2_size
stream_timeout_of config =
    if leb config_v2_size config.struct_size
    then config.stream_inactivity_timeout_milliseconds
    else default_stream_inactivity_timeout_milliseconds

unfoldable pub warm_timeout_of : Config → ℕ
unfolding config_v3_size
warm_timeout_of config =
    if leb config_v3_size config.struct_size
    then config.warm_torrent_timeout_milliseconds
    else default_warm_torrent_timeout_milliseconds

-- A text of at least one byte and at most so many.
unfoldable pub bounded_text : ℕ → Bytes → Checked Bytes
unfolding bounded_string_length
bounded_text maximum text =
    let length = bounded_string_length text maximum in
    if (length == 0) || ltb maximum length
    then refused invalid_argument
    else accepted (take length text)

unfoldable pub check_tls_path : Option Bytes → Checked Bytes
unfolding bounded_text
check_tls_path none = accepted []
check_tls_path (some path) = bounded_text (16 * 1024) path

-- The path of the certificates, which only a record of the fourth version has.
unfoldable pub tls_path_of : Config → Checked Bytes
unfolding config_v4_size check_tls_path
tls_path_of config =
    if leb config_v4_size config.struct_size
    then check_tls_path config.tls_ca_bundle_path
    else accepted []

-- The configuration of the backend, from directories and a path that are checked.
unfoldable pub settings : Config → Bytes → Bytes → Bytes → ProtocolBackendConfig
unfolding profile_of stream_timeout_of warm_timeout_of
settings config state download tls = record {
  upload_mode = config.upload_mode;
  upload_limit_bytes_per_second = config.upload_limit_bytes_per_second;
  state_directory = state;
  download_directory = download;
  listen_port = config.listen_port;
  memory_cache_capacity_bytes = config.memory_cache_capacity_bytes;
  disk_cache_capacity_bytes = config.disk_cache_capacity_bytes;
  stream_inactivity_timeout_milliseconds = stream_timeout_of config;
  warm_torrent_timeout_milliseconds = warm_timeout_of config;
  torrent_profile = profile_of config;
  tls_ca_bundle_path = tls;
}

unfoldable pub check_values : Config → Bytes → Bytes → Checked ProtocolBackendConfig
unfolding valid_upload_configuration valid_torrent_profile profile_of tls_path_of settings
check_values config state download =
    if not (valid_upload_configuration config) || not (valid_torrent_profile (profile_of config))
    then refused invalid_argument
    else tls_path_of config >>= (λ tls. accepted (settings config state download tls))

-- The checks of `nuvio_engine_create` on a configuration. All the refusals behind that of the ABI
-- have the same status.
unfoldable pub check_config : Config → Checked ProtocolBackendConfig
unfolding config_v1_size check_directory check_values
check_config config =
    if ltb config.struct_size config_v1_size
    then refused incompatible_abi
    else check_directory config.data_directory >>= (λ state.
      check_directory config.cache_directory >>= (λ download. check_values config state download))

-- What the construction of the backend and the runtime ends with: an engine, `std::bad_alloc`, or
-- another exception. The backend is none in a build without one.
pub data Construction (B : Type 0) : Type 0 where
  made : Option B → Construction B
  out_of_memory raised : Construction B

-- The status, and the runtime of the engine that the caller gets; the engine's own copies of the
-- settings are never read again.
unfoldable pub constructed :
    {B : Type 0}
    → (ProtocolBackendConfig → Construction B)
    → Checked ProtocolBackendConfig
    → Status × Option (R.Runtime B)
unfolding R.init
constructed create_backend (refused status) = (status, none)
constructed create_backend (accepted config) = elim (create_backend config) [
  | made backend ↦ (Status.ok, some (R.init backend config.download_directory 256 1024))
  | out_of_memory ↦ (allocation_failed, none)
  | raised ↦ (initialization_failed, none)
]

-- `nuvio_engine_create`: whether the caller gave a place for the engine, and the configuration.
unfoldable pub create :
    {B : Type 0}
    → (ProtocolBackendConfig → Construction B)
    → Bool
    → Option Config
    → Status × Option (R.Runtime B)
unfolding constructed check_config
create create_backend false config = (invalid_argument, none)
create create_backend true none = (invalid_argument, none)
create create_backend true (some config) = constructed create_backend (check_config config)
