-- ===== src/Client/Values.antt =====
-- src/telemetry.c: the values of the headers that are read from files of the system. A file is its
-- bytes, or none when it does not open.
use telemetrics_client.Base.{
  ℕ, zero, suc, Bool, true, false, List, [], ◌∷◌, ◌++◌, Option, none, some, ltb, ◌==◌,
  if◌then◌else◌, length, take, drop,
}
use telemetrics_client.Base.Bytes.{Bytes, codes, c_string, is_prefix, after, push_byte}
use telemetrics_client.Base.Run.{Run, done, fault}
use telemetrics_client.Record.Payload.{is_space}
use telemetrics_client.Record.Staged.{take_line}

abbrev pub small_line_buf : ℕ
small_line_buf = 80

-- What the calls of fgets on a stream give, one after the other, with a buffer of `size` bytes more
-- than two; the next line has room for `room` bytes after its first.
unfoldable pub fgets_lines : ℕ → ℕ → Bytes → List Bytes
fgets_lines size room [] = []
fgets_lines size zero (c ∷ cs) = (c ∷ []) ∷ fgets_lines size size cs
fgets_lines size (suc room) (c ∷ cs) =
    let ends = (c ∷ []) ∷ fgets_lines size size cs in
    let goes_on = push_byte c (fgets_lines size room cs) in if c == b'\n' then ends else goes_on

-- fgets(buf, SMALL_LINE_BUF, fs) until the end of the file.
abbrev pub small_lines : Bytes → List Bytes
small_lines = fgets_lines 78 78

unfoldable pub skip_spaces : Bytes → Bytes
skip_spaces [] = []
skip_spaces (c ∷ cs) = let rest = skip_spaces cs in if is_space c then rest else c ∷ cs

-- The bytes before the first white space.
unfoldable pub take_word : Bytes → Bytes
take_word [] = []
take_word (c ∷ cs) = let rest = take_word cs in if is_space c then [] else c ∷ rest

-- sscanf(buf, prefix "%s", word): the word, if the prefix stands there and a word follows.
unfoldable pub scan_word : Bytes → Bytes → Bytes
unfolding skip_spaces take_word
scan_word prefix buf =
    if is_prefix prefix (c_string buf)
    then take_word (skip_spaces (drop (length prefix) (c_string buf)))
    else []

-- The word of the first line that gives one, or the empty text.
unfoldable pub scan_lines : Bytes → List Bytes → Bytes
scan_lines prefix [] = []
scan_lines prefix (line ∷ lines) =
    let rest = scan_lines prefix lines in
    elim (scan_word prefix line) [ [] ↦ rest | c ∷ cs ↦ c ∷ cs ]

unfoldable pub or_default : Bytes → Bytes → Bytes
or_default default [] = default
or_default default (c ∷ cs) = c ∷ cs

-- version_file(): the site's file, or the distribution's.
unfoldable pub version_file : Option Bytes → Option Bytes → Option Bytes
version_file none dist = dist
version_file (some site) dist = some site

unfoldable pub join_variant : Bytes → Bytes → Bytes
join_variant name [] = name
join_variant name (c ∷ cs) = take 79 (name ++ b'_' ∷ c ∷ cs)

-- With no file the text stays empty: "unknown" is written to another buffer.
unfoldable pub system_name : Option Bytes → Bytes
unfolding join_variant scan_lines or_default
system_name none = []
system_name (some file) =
    join_variant (or_default (codes "unknown") (scan_lines (codes "ID=") (small_lines file)))
      (scan_lines (codes "VARIANT_ID=") (small_lines file))

-- char version[40]
unfoldable pub fit_version : Bytes → Run Bytes
unfolding or_default
fit_version word = if ltb (length word) 40 then done (or_default (codes "0") word) else fault

unfoldable pub system_build : Option Bytes → Run Bytes
unfolding scan_lines fit_version
system_build none = done (codes "0")
system_build (some file) = fit_version (scan_lines (codes "VERSION_ID=") (small_lines file))

-- The text from the first ':' of the first line with this name on.
unfoldable pub find_attribute : List Bytes → Option Bytes
find_attribute [] = none
find_attribute (line ∷ lines) =
    let rest = find_attribute lines in
    if is_prefix (codes "model name") (c_string line) then after b':' (c_string line) else rest

-- From behind the blank after ':', without the last byte.
unfoldable pub attribute_value : Option Bytes → Bytes
attribute_value none = codes "blank"
attribute_value (some []) = codes "blank"
attribute_value (some (c ∷ [])) = codes "blank"
attribute_value (some (c ∷ d ∷ ds)) = take (length ds) (d ∷ ds)

-- `none`: the file does not open, and the header fails with -1.
unfoldable pub cpu_model : Option Bytes → Option Bytes
unfolding find_attribute attribute_value
cpu_model none = none
cpu_model (some file) = some (attribute_value (find_attribute (small_lines file)))

unfoldable pub all_blank : Bytes → Bool
all_blank [] = true
all_blank (c ∷ cs) = let rest = all_blank cs in if c == b' ' then rest else false

-- The line without its last byte; a line that starts with NUL has a length of 0, and the byte before
-- the buffer is written.
unfoldable pub zap_last : Bytes → Run Bytes
zap_last [] = fault
zap_last (c ∷ cs) = done (take (length cs) (c ∷ cs))

unfoldable pub or_blank : Bytes → Bytes
unfolding all_blank
or_blank text = if all_blank text then codes "blank" else text

-- get_dmi_value, where `key` names the file that is missing. fgets has 79 bytes.
unfoldable pub get_dmi_value : Bytes → Option Bytes → Run Bytes
unfolding zap_last or_blank
get_dmi_value key none = done (codes "no_" ++ (key ++ codes "_file"))
get_dmi_value key (some []) = done (codes "blank")
get_dmi_value key (some (c ∷ cs)) = elim (zap_last (c_string (take_line 78 (c ∷ cs)).0)) [
  | done text ↦ done (or_blank text)
  | other ↦ fault
]
