-- ===== src/RecordGen/Options.antt =====
-- src/probes/telem_record_gen.c: the options of telem-record-gen and their validation. They come as
-- getopt_long gives them, with the results of tm_set_config_file.
use telemetrics_client.Base.{
  ℕ, ◌+◌, ◌-◌, ◌*◌, ◌%◌, ◌^◌, Bool, true, false, ◌&&◌, List, [], ◌∷◌, Option, none, some, ltb, leb,
  ◌==◌, if◌then◌else◌, length,
}
use telemetrics_client.Base.Bytes.{Bytes}
use telemetrics_client.Common.{max_class_length}
use telemetrics_client.Oops.Numbers.{skip_spaces, strip_sign}
use telemetrics_client.Util.{scan_classification, validate_event_id}

-- The static variables.
pub record GenOptions : Type 0 where
  pub severity : ℕ
  pub opt_class : Option Bytes
  pub opt_payload : Option Bytes
  pub payload_version : ℕ
  pub opt_payload_file : Option Bytes
  pub opt_event_id : Option Bytes
  pub opt_echo : Bool
  pub opt_nopost : Bool

abbrev pub defaults : GenOptions
defaults = record {
  severity = 1;
  opt_class = none;
  opt_payload = none;
  payload_version = 1;
  opt_payload_file = none;
  opt_event_id = none;
  opt_echo = false;
  opt_nopost = false;
}

-- An option with its argument; `config_file` with whether tm_set_config_file takes the path.
pub data GenOption : Type 0 where
  help version echo no_post unknown : GenOption
  severity class payload payload_file record_version event_id : Bytes → GenOption
  config_file : Bool → GenOption

-- The options, `return false`, or the end of the process with a status.
pub data Parsed : Type 0 where
  parsed : GenOptions → Parsed
  failed : Parsed
  exits : ℕ → Parsed

-- The decimal number of the digits behind `n`, and what follows them.
unfoldable pub decimal_from : ℕ → Bytes → ℕ × Bytes
decimal_from n [] = (n, [])
decimal_from n (c ∷ cs) =
    let more = decimal_from (n * 10 + (c - b'0')) cs in
    if leb b'0' c && leb c b'9' then more else (n, c ∷ cs)

unfoldable pub decimal_starts : Bytes → Bool
decimal_starts [] = false
decimal_starts (c ∷ cs) = leb b'0' c && leb c b'9'

abbrev pub ulong_max : ℕ
ulong_max = 2 ^ 64 - 1

-- strtoul(s, &rest, 10) and `rest`; none if errno is set.
unfoldable pub strtoul_10 : Bytes → Option (ℕ × Bytes)
unfolding decimal_from decimal_starts skip_spaces strip_sign
strtoul_10 s =
    let (minus, digits) = strip_sign (skip_spaces s) in
    let (n, rest) = decimal_from 0 digits in
    if decimal_starts digits
    then if ltb ulong_max n then none else some (if minus then (2 ^ 64 - n) % 2 ^ 64 else n, rest)
    else some (0, s)

-- (uint32_t)tmp, if nothing stands behind the number.
unfoldable pub number_option : Option (ℕ × Bytes) → Option ℕ
number_option none = none
number_option (some (n, [])) = some (n % 2 ^ 32)
number_option (some (n, c ∷ cs)) = none

unfoldable pub with_severity : GenOptions → Option ℕ → Parsed
with_severity g none = failed
with_severity g (some n) = parsed (record g { severity = n })

unfoldable pub with_version : GenOptions → Option ℕ → Parsed
with_version g none = failed
with_version g (some n) = parsed (record g { payload_version = n })

-- The body of the loop over the options.
unfoldable pub parse_option : GenOptions → GenOption → Parsed
unfolding strtoul_10 number_option with_severity with_version
parse_option g help = exits 0
parse_option g version = exits 0
parse_option g (severity text) = with_severity g (number_option (strtoul_10 text))
parse_option g (class text) = parsed (record g { opt_class = some text })
parse_option g (payload text) = parsed (record g { opt_payload = some text })
parse_option g (payload_file text) = parsed (record g { opt_payload_file = some text })
parse_option g (record_version text) = with_version g (number_option (strtoul_10 text))
parse_option g (event_id text) = parsed (record g { opt_event_id = some text })
parse_option g echo = parsed (record g { opt_echo = true })
parse_option g no_post = parsed (record g { opt_nopost = true })
parse_option g (config_file taken) = if taken then parsed g else exits 1
parse_option g unknown = parsed g

unfoldable pub parse_options : GenOptions → List GenOption → Parsed
unfolding parse_option
parse_options g [] = parsed g
parse_options g (o ∷ os) = elim (parse_option g o) [
  | parsed g' ↦ parse_options g' os
  | failed ↦ failed
  | exits status ↦ exits status
]

unfoldable pub is_ascii : Bytes → Bool
is_ascii [] = true
is_ascii (c ∷ cs) = ltb c 128 && is_ascii cs

unfoldable pub two_slashes : Option ℕ → Bool
two_slashes none = false
two_slashes (some slashes) = slashes == 2

-- The loop over the parts is that of validate_classification.
unfoldable pub class_accepted : Option Bytes → Bool
unfolding is_ascii two_slashes scan_classification
class_accepted none = false
class_accepted (some []) = false
class_accepted (some (c ∷ cs)) =
    leb (length (c ∷ cs)) max_class_length
    && (is_ascii (c ∷ cs) && two_slashes (scan_classification 0 0 (c ∷ cs)))

-- The two tests are those of validate_event_id.
unfoldable pub event_id_accepted : Option Bytes → Bool
unfolding validate_event_id
event_id_accepted none = true
event_id_accepted (some id) = validate_event_id (some id) == 0

unfoldable pub validate_opts : GenOptions → Bool
unfolding class_accepted event_id_accepted
validate_opts g =
    class_accepted g.opt_class
    && ((leb 1 g.severity && leb g.severity 4) && event_id_accepted g.opt_event_id)
