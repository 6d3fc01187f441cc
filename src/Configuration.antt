-- ===== src/Configuration.antt =====
-- src/configuration.c: the values that the daemons take from a configuration file. Parsing the file
-- is libnica's, and `strtoll` and the directories are given from outside: they are parameters.
pub mod Values
pub mod Loading
pub mod Bounds
use telemetrics_client.Base.{
  ℕ, zero, suc, ◌+◌, ◌-◌, ◌*◌, ◌^◌, ◌/◌, Bool, true, false, not, ◌&&◌, ◌||◌, List, [], ◌∷◌, ◌++◌,
  Option, none, some, map, ltb, leb, ◌==◌, if◌then◌else◌, get_or, set,
}
use telemetrics_client.Base.Bytes.{Bytes, codes, equal}
use telemetrics_client.Base.Int.{ℤ, pos, negsuc, ltb_ℤ, is_zero}
use telemetrics_client.Base.Run.{Run, done, exit, fault, ◌>>=◌}
use telemetrics_client.Common.{tm_spool_run_max, tm_spool_run_min}

-- struct configuration, without the field config_file, which nothing uses.
pub record Configuration : Type 0 where
  pub str_values : List Bytes
  pub int_values : List ℤ
  pub bool_values : List Bool
  pub initialized : Bool

-- The file's static variables.
pub record ConfigState : Type 0 where
  pub config_file : Option Bytes
  pub cmd_line_cfg : Bool
  pub config : Configuration

-- The "settings" section of a parsed file: the value of a key.
abbrev pub Settings : Type 0
Settings = Bytes → Option Bytes

-- What the system gives: the paths that the build sets, whether the two files can be read, the
-- parsed files, and `strtoll(ptr, NULL, 10)`, `none` when it sets errno.
pub record ConfigSystem : Type 0 where
  pub server_addr : Bytes
  pub local_state_dir : Bytes
  pub default_config_file : Bytes
  pub etc_readable : Bool
  pub default_readable : Bool
  pub ini_file_parse : Bytes → Option Settings
  pub strtoll : Bytes → Option ℤ

abbrev pub etc_config_file : Bytes
etc_config_file = codes "/etc/telemetrics/telemetrics.conf"

-- What `stat` says: an errno, or whether the file is regular.
pub data StatResult : Type 0 where
  stat_failed : ℕ → StatResult
  stat_regular : Bool → StatResult

-- -n
abbrev pub negative : ℕ → ℤ
negative zero = pos 0
negative (suc n) = negsuc n

abbrev pub einval : ℕ
einval = 22

stat_verdict : StatResult → ℤ
stat_verdict (stat_failed errno) = negative errno
stat_verdict (stat_regular true) = pos 0
stat_verdict (stat_regular false) = negative einval

unfoldable pub validate_config_file : Bytes → StatResult → ℤ
unfolding stat_verdict
validate_config_file [] st = negative einval
validate_config_file (c ∷ cs) st = if c == b'/' then stat_verdict st else negative einval

-- The result, and the state.
unfoldable pub set_config_file : Bytes → StatResult → ConfigState → ℤ × ConfigState
set_config_file filename st s =
    let ret = validate_config_file filename st in
    if is_zero ret
    then (ret, record s { config_file = some filename; cmd_line_cfg = true })
    else (ret, s)

unfoldable pub get_cmd_line_config_file : ConfigState → Option Bytes
get_cmd_line_config_file s = if s.cmd_line_cfg then s.config_file else none

abbrev pub config_key_str : List Bytes
config_key_str =
    codes "server"
    ∷ codes "socket_path"
    ∷ codes "spool_dir"
    ∷ codes "rate_limit_strategy"
    ∷ codes "cainfo"
    ∷ codes "tidheader"
    ∷ []

abbrev pub config_key_int : List Bytes
config_key_int =
    codes "record_expiry"
    ∷ codes "spool_max_size"
    ∷ codes "spool_process_time"
    ∷ codes "record_window_length"
    ∷ codes "byte_window_length"
    ∷ codes "record_burst_limit"
    ∷ codes "byte_burst_limit"
    ∷ []

abbrev pub config_key_bool : List Bytes
config_key_bool =
    codes "rate_limit_enabled"
    ∷ codes "daemon_recycling_enabled"
    ∷ codes "record_retention_enabled"
    ∷ codes "record_server_delivery_enabled"
    ∷ []

abbrev pub config_str_default : ConfigSystem → List Bytes
config_str_default sys =
    sys.server_addr
    ∷ codes "/run/telem-0"
    ∷ (sys.local_state_dir ++ codes "/spool/telemetry")
    ∷ codes "spool"
    ∷ []
    ∷ codes "X-Telemetry-TID: 6907c830-eed9-4ce9-81ae-76daf8d88f0f"
    ∷ []

abbrev pub config_int_default : List ℤ
config_int_default = pos 1200 ∷ pos 5120 ∷ pos 120 ∷ pos 15 ∷ pos 20 ∷ pos 1000 ∷ negsuc 0 ∷ []

abbrev pub config_bool_default : List Bool
config_bool_default = true ∷ true ∷ false ∷ true ∷ []

unfoldable pub set_default_config_values : ConfigSystem → Configuration → Configuration
set_default_config_values sys config = record config {
  str_values = config_str_default sys;
  int_values = config_int_default;
  bool_values = config_bool_default;
}

-- tolower in the C locale.
unfoldable pub to_lower : ℕ → ℕ
to_lower c = if leb 65 c && leb c 90 then c + 32 else c

-- strcasecmp(a, b) == 0
unfoldable pub equal_nocase : Bytes → Bytes → Bool
equal_nocase a b = equal (map to_lower a) (map to_lower b)

unfoldable pub parse_bool : Bytes → Option Bool
parse_bool text =
    if equal_nocase text (codes "TRUE") || equal text (codes "1")
    then some true
    else if equal_nocase text (codes "FALSE") || equal text (codes "0")
    then some false
    else none

-- The value of one key: its text is parsed, or the default stands.
abbrev pub value_or : {A : Type 0} → (Bytes → Option A) → A → Option Bytes → Option A
value_or parse default none = some default
value_or parse default (some text) = parse text

unfoldable pub read_values :
    {A : Type 0} → (Bytes → Option A) → Settings → List Bytes → List A → Option (List A)
read_values parse settings (key ∷ keys) (default ∷ defaults) =
    elim (value_or parse default (settings key)) [
      | none ↦ none
      | some value ↦ elim (read_values parse settings keys defaults) [
        | none ↦ none
        | some values ↦ some (value ∷ values)
      ]
    ]
read_values parse settings _ _ = some []

-- The three loops, strings first.
unfoldable pub read_settings : ConfigSystem → Settings → Configuration → Option Configuration
read_settings sys settings config =
    elim (read_values (λ text. some text) settings config_key_str (config_str_default sys)) [
      | none ↦ none
      | some strs ↦ elim (read_values sys.strtoll settings config_key_int config_int_default) [
        | none ↦ none
        | some ints ↦ elim (read_values parse_bool settings config_key_bool config_bool_default) [
          | none ↦ none
          | some bools ↦
              some (record config { str_values = strs; int_values = ints; bool_values = bools })
        ]
      ]
    ]

-- `none` is the result false, on which the caller ends the process.
unfoldable pub read_config_from_file : ConfigSystem → Bytes → Configuration → Option Configuration
read_config_from_file sys file config = elim (sys.ini_file_parse file) [
  | none ↦ none
  | some settings ↦ read_settings sys settings config
]

-- The file given before, or the first of the two that can be read.
unfoldable pub find_config_file : ConfigSystem → Option Bytes → Option Bytes
find_config_file sys (some file) = some file
find_config_file sys none =
    if sys.etc_readable
    then some etc_config_file
    else if sys.default_readable
    then some sys.default_config_file
    else none

-- exit(EXIT_FAILURE) on the result false.
abbrev pub or_exit : Option Configuration → Run Configuration
or_exit none = exit
or_exit (some config) = done config

unfoldable pub load_config : ConfigSystem → Option Bytes → Configuration → Run Configuration
load_config sys none config = done (set_default_config_values sys config)
load_config sys (some file) config = or_exit (read_config_from_file sys file config)

unfoldable pub initialize_config : ConfigSystem → ConfigState → Run ConfigState
initialize_config sys s =
    if s.config.initialized
    then done s
    else load_config sys (find_config_file sys s.config_file) s.config >>= (λ config.
      done (record s {
        config_file = find_config_file sys s.config_file;
        config = record config { initialized = true };
      }))

unfoldable pub reload_config : ConfigSystem → ConfigState → Run ConfigState
reload_config sys s = initialize_config sys (record s {
  config_file = if s.cmd_line_cfg then s.config_file else none;
  config = record s.config { initialized = false };
})
