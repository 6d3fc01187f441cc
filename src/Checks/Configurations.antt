-- ===== src/Checks/Configurations.antt =====
-- The configuration, read from a small file.
use telemetrics_client.Base.{
  ℕ, ◌+◌, ◌-◌, ◌*◌, ◌^◌, ◌≤◌, ◌<◌, ◌≡◌, ◌⊎◌, refl, true, false, [], ◌∷◌, some, none, if◌then◌else◌,
}
use telemetrics_client.Base.Bytes.{Bytes, codes, equal}
use telemetrics_client.Base.Int.{pos, negsuc}
use telemetrics_client.Configuration.{
  Configuration, ConfigState, ConfigSystem, Settings, find_config_file, load_config,
  initialize_config, reload_config, get_cmd_line_config_file, set_default_config_values,
}
use telemetrics_client.Configuration.Bounds.{spool_configs_fit}
use telemetrics_client.Configuration.Loading.{reload_config_fresh}
use telemetrics_client.Configuration.Values.{
  config_value, clamp, clamp_run_time, record_expiry_config, spool_max_size_config,
  spool_process_time_config,
}

abbrev decimal_value : ℕ → Bytes → ℕ
decimal_value acc [] = acc
decimal_value acc (c ∷ cs) = decimal_value (acc * 10 + (c - 48)) cs

-- A file of three settings.
abbrev settings : Settings
settings key =
    if equal key (codes "spool_process_time")
    then some (codes "30")
    else if equal key (codes "rate_limit_strategy")
    then some (codes "Drop")
    else if equal key (codes "record_retention_enabled")
    then some (codes "True")
    else none

abbrev pub system : ConfigSystem
system = record {
  server_addr = codes "http://127.0.0.1/v2/collector";
  local_state_dir = codes "/var";
  default_config_file = codes "/usr/share/default_state/telemetrics/telemetrics.conf";
  etc_readable = true;
  default_readable = true;
  ini_file_parse = λ file. some settings;
  strtoll = λ text. some (pos (decimal_value 0 text));
}

-- No file can be read.
abbrev bare : ConfigSystem
bare = record system { etc_readable = false; default_readable = false }

abbrev blank : Configuration
blank = record { str_values = []; int_values = []; bool_values = []; initialized = false }

abbrev first_state : ConfigState
first_state = record { config_file = none; cmd_line_cfg = false; config = blank }

-- The defaults, as `initialize_config` leaves them.
abbrev default_state : ConfigState
default_state = record first_state {
  config = record (set_default_config_values bare blank) { initialized = true };
}

reload_config_fresh_example : reload_config system first_state ≡ reload_config system default_state
unfolding get_cmd_line_config_file
reload_config_fresh_example = reload_config_fresh system first_state default_state refl refl

spool_configs_fit_example :
    ((pos 1200 ≡ negsuc 0) ⊎ ((n : ℕ) × (pos 1200 ≡ pos n) × (n * 60 < 2 ^ 63)))
    × ((pos 5120 ≡ negsuc 0) ⊎ ((n : ℕ) × (pos 5120 ≡ pos n) × (n * 1024 < 2 ^ 63)))
    × ((n : ℕ) × (pos 120 ≡ pos n) × (120 ≤ n) × (n ≤ 300))
unfolding record_expiry_config spool_max_size_config spool_process_time_config config_value
    initialize_config load_config find_config_file set_default_config_values clamp clamp_run_time
spool_configs_fit_example =
    spool_configs_fit bare first_state default_state first_state default_state first_state
      default_state (pos 1200) (pos 5120) (pos 120) refl refl refl

-- The state after the strategy "Drop" of the file was read.
abbrev dropping : ConfigState
dropping = record {
  config_file = some (codes "/etc/telemetrics/telemetrics.conf");
  cmd_line_cfg = false;
  config = record {
    str_values =
        codes "http://127.0.0.1/v2/collector"
        ∷ codes "/run/telem-0"
        ∷ codes "/var/spool/telemetry"
        ∷ codes "drop"
        ∷ []
        ∷ codes "X-Telemetry-TID: 6907c830-eed9-4ce9-81ae-76daf8d88f0f"
        ∷ [];
    int_values = pos 1200 ∷ pos 5120 ∷ pos 30 ∷ pos 15 ∷ pos 20 ∷ pos 1000 ∷ negsuc 0 ∷ [];
    bool_values = true ∷ true ∷ true ∷ true ∷ [];
    initialized = true;
  };
}
