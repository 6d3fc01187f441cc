-- ===== src/Configuration/Values.antt =====
-- src/configuration.c: the getters. Each initializes the configuration first; the result comes with
-- the state.
use telemetrics_client.Base.{
  ℕ, ◌/◌, Bool, true, false, not, ◌&&◌, ◌||◌, [], map, if◌then◌else◌, get_or, set,
}
use telemetrics_client.Base.Bytes.{Bytes, codes, equal}
use telemetrics_client.Base.Int.{ℤ, pos, negsuc, ltb_ℤ}
use telemetrics_client.Base.Run.{Run, done, ◌>>=◌}
use telemetrics_client.Common.{tm_spool_run_max, tm_spool_run_min}
use telemetrics_client.Configuration.{
  Configuration, ConfigState, ConfigSystem, initialize_config, to_lower,
}

-- LONG_MAX
abbrev pub long_max : ℕ
long_max = 9223372036854775807

abbrev pub tm_max_window_length : ℕ
tm_max_window_length = 60

-- A value read after the configuration is initialized.
unfoldable pub config_value :
    {A : Type 0} → (Configuration → A) → ConfigSystem → ConfigState → Run (A × ConfigState)
config_value read sys s = initialize_config sys s >>= (λ s'. done (read s'.config, s'))

-- intValues[i], and so on; the arrays have all their elements once they are initialized.
abbrev pub int_value : ℕ → Configuration → ℤ
int_value i config = get_or config.int_values i (pos 0)

abbrev pub str_value : ℕ → Configuration → Bytes
str_value i config = get_or config.str_values i []

abbrev pub bool_value : ℕ → Configuration → Bool
bool_value i config = get_or config.bool_values i false

is_negative : ℤ → Bool
is_negative (negsuc n) = true
is_negative (pos n) = false

-- At most `limit`, and -1 for a negative value.
unfoldable pub clamp : ℕ → ℤ → ℤ
unfolding is_negative
clamp limit val =
    let clamped = if ltb_ℤ (pos limit) val then pos limit else val in
    if is_negative clamped then negsuc 0 else clamped

unfoldable pub record_expiry_config : ConfigSystem → ConfigState → Run (ℤ × ConfigState)
record_expiry_config = config_value (λ config. clamp (long_max / 60) (int_value 0 config))

unfoldable pub spool_max_size_config : ConfigSystem → ConfigState → Run (ℤ × ConfigState)
spool_max_size_config = config_value (λ config. clamp (long_max / 1024) (int_value 1 config))

unfoldable pub clamp_run_time : ℤ → ℤ
clamp_run_time val =
    if ltb_ℤ val (pos tm_spool_run_min)
    then pos tm_spool_run_min
    else if ltb_ℤ (pos tm_spool_run_max) val
    then pos tm_spool_run_max
    else val

unfoldable pub spool_process_time_config : ConfigSystem → ConfigState → Run (ℤ × ConfigState)
spool_process_time_config = config_value (λ config. clamp_run_time (int_value 2 config))

unfoldable pub window_length : ℤ → ℤ
unfolding is_negative
window_length val =
    if is_negative val || not (ltb_ℤ val (pos tm_max_window_length)) then negsuc 0 else val

unfoldable pub record_window_length_config : ConfigSystem → ConfigState → Run (ℤ × ConfigState)
record_window_length_config = config_value (λ config. window_length (int_value 3 config))

unfoldable pub byte_window_length_config : ConfigSystem → ConfigState → Run (ℤ × ConfigState)
byte_window_length_config = config_value (λ config. window_length (int_value 4 config))

unfoldable pub record_burst_limit_config : ConfigSystem → ConfigState → Run (ℤ × ConfigState)
record_burst_limit_config = config_value (int_value 5)

unfoldable pub byte_burst_limit_config : ConfigSystem → ConfigState → Run (ℤ × ConfigState)
byte_burst_limit_config = config_value (int_value 6)

unfoldable pub server_addr_config : ConfigSystem → ConfigState → Run (Bytes × ConfigState)
server_addr_config = config_value (str_value 0)

unfoldable pub socket_path_config : ConfigSystem → ConfigState → Run (Bytes × ConfigState)
socket_path_config = config_value (str_value 1)

unfoldable pub spool_dir_config : ConfigSystem → ConfigState → Run (Bytes × ConfigState)
spool_dir_config = config_value (str_value 2)

unfoldable pub get_cainfo_config : ConfigSystem → ConfigState → Run (Bytes × ConfigState)
get_cainfo_config = config_value (str_value 4)

unfoldable pub get_tidheader_config : ConfigSystem → ConfigState → Run (Bytes × ConfigState)
get_tidheader_config = config_value (str_value 5)

unfoldable pub rate_limit_enabled_config : ConfigSystem → ConfigState → Run (Bool × ConfigState)
rate_limit_enabled_config = config_value (bool_value 0)

unfoldable pub daemon_recycling_enabled_config :
    ConfigSystem → ConfigState → Run (Bool × ConfigState)
daemon_recycling_enabled_config = config_value (bool_value 1)

unfoldable pub record_retention_enabled_config :
    ConfigSystem → ConfigState → Run (Bool × ConfigState)
record_retention_enabled_config = config_value (bool_value 2)

unfoldable pub record_server_delivery_enabled_config :
    ConfigSystem → ConfigState → Run (Bool × ConfigState)
record_server_delivery_enabled_config = config_value (bool_value 3)

-- The strategy, once it is in lower case.
unfoldable pub known_strategy : Bytes → Bytes
known_strategy val =
    if not (equal val (codes "spool")) && not (equal val (codes "drop")) then codes "spool" else val

-- The text is put in lower case in its place.
unfoldable pub lower_strategy : Configuration → Configuration
lower_strategy config = record config {
  str_values = set config.str_values 3 (map to_lower (str_value 3 config));
}

unfoldable pub rate_limit_strategy_config : ConfigSystem → ConfigState → Run (Bytes × ConfigState)
rate_limit_strategy_config sys s = do
  s' ← initialize_config sys s
  let config = lower_strategy s'.config
  done (known_strategy (str_value 3 config), record s' { config = config })
