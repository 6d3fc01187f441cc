-- ===== src/Configuration/Loading.antt =====
-- When the configuration is read, and what is read for each key.
use telemetrics_client.Base.{
  ℕ, zero, suc, ◌≡◌, refl, sym, ap, ◌∙◌, Bool, true, false, List, [], ◌∷◌, Option, none, some,
  get_elem?, if_cases, inl, inr, some_first,
}
use telemetrics_client.Base.Bytes.{Bytes}
use telemetrics_client.Base.Int.{ℤ}
use telemetrics_client.Base.Run.{Run, done, exit, fault, ◌>>=◌, >>=-eq-done}
use telemetrics_client.Configuration.{
  Configuration, ConfigState, ConfigSystem, Settings, value_or, read_values, read_settings,
  read_config_from_file, find_config_file, load_config, initialize_config, reload_config,
  set_default_config_values, get_cmd_line_config_file, or_exit, parse_bool, config_key_str,
  config_key_int, config_key_bool, config_str_default, config_int_default, config_bool_default,
}

-- If read_values gives values, then the one at the place of a key is what its text parses to, or
-- the default at that place when the settings do not have the key.
pub read_values-get_elem? :
    {A : Type 0} (parse : Bytes → Option A) (settings : Settings) (keys : List Bytes)
    (defaults values : List A) (i : ℕ) (key : Bytes) (default : A)
    → read_values parse settings keys defaults ≡ some values
    → get_elem? keys i ≡ some key
    → get_elem? defaults i ≡ some default
    → get_elem? values i ≡ value_or parse default (settings key)
unfolding read_values
read_values-get_elem? parse settings [] defaults values i key default e k d = absurd cc
read_values-get_elem? parse settings (key' ∷ keys) [] values i key default e k d = absurd cc
read_values-get_elem? parse settings (key' ∷ keys) (default' ∷ defaults) values zero key default e k
      d =
    let (v, got, e1) = some_first (value_or parse default' (settings key')) _ e in
    let (vs, _, e2) = some_first (read_values parse settings keys defaults) _ e1 in
    let same : v ∷ vs ≡ values = cc in
    let same_key : key' ≡ key = cc in
    let same_default : default' ≡ default = cc in
    rw (sym same, sym same_key, sym same_default) (sym got)
read_values-get_elem? parse settings (key' ∷ keys) (default' ∷ defaults) values (suc i) key default
      e k d =
    let (v, _, e1) = some_first (value_or parse default' (settings key')) _ e in
    let (vs, more, e2) = some_first (read_values parse settings keys defaults) _ e1 in
    let same : v ∷ vs ≡ values = cc in
    rw (sym same) (read_values-get_elem? parse settings keys defaults vs i key default more k d)

-- The configuration once it is marked.
abbrev marked : Configuration → Run Configuration
marked config = done (record config { initialized = true })

read_settings-marked :
    (sys : ConfigSystem) (settings : Settings) (old new : Configuration)
    (strs : Option (List Bytes)) (ints : Option (List ℤ)) (bools : Option (List Bool))
    → read_values (λ text. some text) settings config_key_str (config_str_default sys) ≡ strs
    → read_values sys.strtoll settings config_key_int config_int_default ≡ ints
    → read_values parse_bool settings config_key_bool config_bool_default ≡ bools
    → (or_exit (read_settings sys settings old) >>= marked)
      ≡ (or_exit (read_settings sys settings new) >>= marked)
unfolding read_settings
read_settings-marked sys settings old new none ints bools e f g = rw (e, read_settings) refl
read_settings-marked sys settings old new (some strs) none bools e f g =
    rw (e, f, read_settings) refl
read_settings-marked sys settings old new (some strs) (some ints) none e f g =
    rw (e, f, g, read_settings) refl
read_settings-marked sys settings old new (some strs) (some ints) (some bools) e f g =
    rw (e, f, g, read_settings) refl

file_marked :
    (sys : ConfigSystem) (file : Bytes) (settings : Option Settings) (old new : Configuration)
    → sys.ini_file_parse file ≡ settings
    → (load_config sys (some file) old >>= marked) ≡ (load_config sys (some file) new >>= marked)
unfolding load_config read_config_from_file
file_marked sys file none old new e = rw (e, load_config, read_config_from_file) refl
file_marked sys file (some settings) old new e =
    rw (e, load_config, read_config_from_file)
      (read_settings-marked sys settings old new _ _ _ refl refl refl)

load_config-marked :
    (sys : ConfigSystem) (file : Option Bytes) (old new : Configuration)
    → (load_config sys file old >>= marked) ≡ (load_config sys file new >>= marked)
load_config-marked sys none old new = unfold load_config set_default_config_values in refl
load_config-marked sys (some file) old new = file_marked sys file _ old new refl

pub initialized_stays :
    (sys : ConfigSystem) (s : ConfigState)
    → s.config.initialized ≡ true
    → initialize_config sys s ≡ done s
unfolding initialize_config
initialized_stays sys s ready = rw ready refl

pub initialize_config_marks :
    (sys : ConfigSystem) (s s' : ConfigState)
    → initialize_config sys s ≡ done s'
    → s'.config.initialized ≡ true
unfolding initialize_config
initialize_config_marks sys s s' e = elim (if_cases s.config.initialized e) [
  | inl (ready, stays) ↦ let same : s ≡ s' = cc in rw (sym same) ready
  | inr (_, e') ↦
      let (config, _, e2) =
        >>=-eq-done (load_config sys (find_config_file sys s.config_file) s.config) _ e' in
      cc
]

-- Once initialize_config has returned, the configuration is not read again, whatever has changed in
-- the system, and the choice of the command line stands.
pub initialize_config_once :
    (sys later : ConfigSystem) (s s' : ConfigState)
    → initialize_config sys s ≡ done s'
    → (initialize_config later s' ≡ done s') × (s'.cmd_line_cfg ≡ s.cmd_line_cfg)
unfolding initialize_config
initialize_config_once sys later s s' e = elim (if_cases s.config.initialized e) [
  | inl (ready, stays) ↦ let same : s ≡ s' = cc in rw (sym same) (rw ready (refl, refl))
  | inr (_, e') ↦
      let (config, _, e2) =
        >>=-eq-done (load_config sys (find_config_file sys s.config_file) s.config) _ e' in
      let same : (record s {
        config_file = find_config_file sys s.config_file;
        config = record config { initialized = true };
      })
          ≡ s' =
        cc in
      rw (sym same) (refl, refl)
]

marked_then :
    (run : Run Configuration) (f : Configuration → ConfigState)
    → (run >>= (λ config. done (f (record config { initialized = true }))))
      ≡ (run >>= marked >>= (λ config. done (f config)))
marked_then (done config) f = refl
marked_then exit f = refl
marked_then fault f = refl

-- What a reload gives depends on the command line alone: two states with the same choice and the
-- same file from the command line, whatever configuration they hold, have the same outcome.
pub reload_config_fresh :
    (sys : ConfigSystem) (s t : ConfigState)
    → s.cmd_line_cfg ≡ t.cmd_line_cfg
    → get_cmd_line_config_file s ≡ get_cmd_line_config_file t
    → reload_config sys s ≡ reload_config sys t
unfolding reload_config initialize_config get_cmd_line_config_file
reload_config_fresh sys s t chosen given =
    let file = find_config_file sys (get_cmd_line_config_file t) in
    let after : Configuration → ConfigState =
      λ config. record { config_file = file; cmd_line_cfg = t.cmd_line_cfg; config = config } in
    let start : Configuration → Configuration = λ config. record config { initialized = false } in
    rw (given, chosen)
      (marked_then (load_config sys file (start s.config)) after
        ∙ ap (λ run. run >>= (λ config. done (after config)))
            (load_config-marked sys file (start s.config) (start t.config))
        ∙ sym (marked_then (load_config sys file (start t.config)) after))
