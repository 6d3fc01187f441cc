-- ===== src/Record/RoundTrip.antt =====
-- What the probe daemon stages, the post daemon reads back.
use mathlib.Core.List.{append_assoc}
use telemetrics_client.Base.{◌≡◌, ◌∙◌, refl, List, [], ◌∷◌, ◌++◌, Option, some, none, arith}
use telemetrics_client.Base.Bytes.{
  Bytes, Lacks, Lacks-append, c_string_all, is_prefix→append, c_string,
}
use telemetrics_client.Common.{header_names}
use telemetrics_client.Record.{read_u32}
use telemetrics_client.Record.Lines.{
  IsLine, AreHeaders, fgets_chomp-newline, read_headers-stage_headers,
}
use telemetrics_client.Record.Probd.{stage_headers, stage_record}
use telemetrics_client.Record.Staged.{read_rest, read_config, read_record}

-- The path of a configuration file that was given on a command line.
abbrev pub IsConfig : Option Bytes → Type 0
IsConfig none = Unit
IsConfig (some cfg_file) = IsLine cfg_file

read_rest-stage :
    (cfg : Option Bytes) (hs : List Bytes) (body : Bytes)
    → AreHeaders header_names hs
    → Lacks 0 body
    → read_rest cfg (stage_headers hs ++ (body ++ b'\n' ∷ []))
      ≡ some (record { headers = hs; body = body ++ b'\n' ∷ []; cfg_file = cfg })
unfolding read_rest c_string
read_rest-stage cfg hs [] a l =
    rw (read_headers-stage_headers header_names hs (b'\n' ∷ []) a, read_rest) refl
read_rest-stage cfg hs (c ∷ body) a l =
    let kept =
      c_string_all (c ∷ body ++ b'\n' ∷ [])
        (Lacks-append 0 (c ∷ body) (b'\n' ∷ []) l (ground arith, tt)) in
    rw (read_headers-stage_headers header_names hs (c ∷ body ++ b'\n' ∷ []) a, read_rest) (rw kept)

-- No header's first bytes are those of the configuration prefix.
read_config_skips :
    (hs : List Bytes) (rest : Bytes)
    → AreHeaders header_names hs
    → read_record (some (stage_headers hs ++ rest)) ≡ read_rest none (stage_headers hs ++ rest)
unfolding read_record read_config stage_headers read_u32 header_names
read_config_skips [] rest a = absurd a
read_config_skips (h ∷ hs) rest a = let (t, e) = is_prefix→append _ h a.0.named in rw e

-- A record staged with headers that each start with their name and fit on a line, a payload without
-- NUL and a configuration path, if any, that fits on a line, is read back whole: the same headers,
-- the same configuration file, and the payload with the newline that staging added.
pub read_record-stage_record :
    (hs : List Bytes) (body : Bytes) (cfg : Option Bytes)
    → AreHeaders header_names hs
    → Lacks 0 body
    → IsConfig cfg
    → read_record (some (stage_record hs body cfg))
      ≡ some (record { headers = hs; body = body ++ b'\n' ∷ []; cfg_file = cfg })
unfolding stage_record
read_record-stage_record hs body none a l c =
    read_config_skips hs _ a ∙ read_rest-stage none hs body a l
read_record-stage_record hs body (some path) a l c =
    unfold read_record read_config read_u32 in
    rw (append_assoc path (b'\n' ∷ []) (stage_headers hs ++ (body ++ b'\n' ∷ [])))
      (rw (fgets_chomp-newline path _ c, read_config) (read_rest-stage (some path) hs body a l))
