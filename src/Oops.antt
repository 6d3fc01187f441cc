-- ===== src/Oops.antt =====
-- src/probes/oops_parser.c and src/probes/klog_scanner.c: how a kernel log is cut into oops messages.
-- Allocation succeeds. The patterns are in Patterns, the log's buffer in Scanner.
pub mod Patterns
pub mod Scanner
pub mod Entire
pub mod Texts
pub mod Parsing
pub mod Numbers
pub mod Frames
pub mod Cpu
pub mod Registers
pub mod Payload
use telemetrics_client.Base.{
  ℕ, zero, suc, Bool, true, false, not, ◌&&◌, ◌||◌, List, [], ◌∷◌, ◌++◌, Option, none, some, ltb,
  leb, ◌==◌, if◌then◌else◌, length, map,
}
use telemetrics_client.Base.Bytes.{Bytes, codes, c_string, is_prefix}
use telemetrics_client.Base.Run.{Run, done, fault, ◌>>=◌}
use telemetrics_client.Configuration.{to_lower}
use telemetrics_client.Oops.Patterns.{OopsPattern, oops_patterns_arr, Regexec, find_pattern}
use telemetrics_client.Record.Payload.{is_space}

abbrev pub max_lines : ℕ
max_lines = 100

-- `length` is the length of `lines`.
pub record OopsLogMsg : Type 0 where
  pub lines : List Bytes
  pub pattern : Option OopsPattern

-- The static variables, and the messages that `oops_handler` was given, the newest first.
pub record ParserState : Type 0 where
  pub oops_msg : OopsLogMsg
  pub in_stack_dump : Bool
  pub handled : List OopsLogMsg

-- While the text goes on and `stop` is not there; then behind `stop`.
unfoldable pub skip_past : ℕ → Bytes → Bytes
skip_past stop [] = []
skip_past stop (c ∷ cs) =
    let rest = skip_past stop cs in if c == 0 then c ∷ cs else if c == stop then cs else rest

unfoldable pub skip_log_level : Bytes → Bytes
unfolding skip_past
skip_log_level [] = []
skip_log_level (c ∷ cs) = if c == b'<' then skip_past b'>' (c ∷ cs) else c ∷ cs

unfoldable pub skip_timestamp : Bytes → Bytes
unfolding skip_past
skip_timestamp [] = []
skip_timestamp (c ∷ cs) = if c == b'[' then skip_past b']' (c ∷ cs) else c ∷ cs

unfoldable pub skip_space : Bytes → Bytes
skip_space [] = []
skip_space (c ∷ cs) = if is_space c then cs else c ∷ cs

-- strstr(s, needle) != NULL, for C strings.
unfoldable pub contains : Bytes → Bytes → Bool
contains needle [] = is_prefix needle []
contains needle (c ∷ cs) = is_prefix needle (c ∷ cs) || contains needle cs

unfoldable pub str_starts_with_casei : Bytes → Bytes → Bool
str_starts_with_casei line substr = is_prefix (map to_lower substr) (map to_lower line)

-- lines[length] = strndup(line, ...); a write behind the array faults.
unfoldable pub push_line : Bytes → OopsLogMsg → Run OopsLogMsg
push_line line msg =
    if ltb (length msg.lines) max_lines
    then done (record msg { lines = msg.lines ++ c_string line ∷ [] })
    else fault

unfoldable pub handle_msg_end : ParserState → ParserState
handle_msg_end s = record s { oops_msg = record s.oops_msg { lines = [] } }

-- A line while no oops has started.
unfoldable pub start_oops : ParserState → Bytes → Option OopsPattern → Run ParserState
unfolding push_line
start_oops s start none = done s
start_oops s start (some pattern) =
    push_line start (record s.oops_msg { pattern = some pattern })
    >>= (λ msg. done (record s { oops_msg = msg; in_stack_dump = false }))

-- A stack dump ends with a line that is no frame.
unfoldable pub leaves_dump : Bytes → Bool
leaves_dump start =
    not (is_prefix (codes " ") start)
    || (ltb (length (c_string start)) 8
        || (contains (codes "Code:") (c_string start)
            || contains (codes "Instruction Dump::") (c_string start)))

-- Whether the line ends the oops, and `in_stack_dump` after it.
unfoldable pub scan_end : ParserState → Bytes → Bool × Bool
unfolding contains leaves_dump
scan_end s start =
    if leb max_lines (length s.oops_msg.lines)
    then (true, s.in_stack_dump)
    else if contains (codes "[ end trace") (c_string start)
    then (true, s.in_stack_dump)
    else if not s.in_stack_dump
    then (false, is_prefix (codes "Call Trace:") start)
    else if leaves_dump start
    then (true, false)
    else (false, true)

-- The pattern is set while there are lines.
unfoldable pub is_alsa : Option OopsPattern → Run Bool
unfolding str_starts_with_casei
is_alsa none = fault
is_alsa (some pattern) =
    done (pattern.is_regex && str_starts_with_casei pattern.begin_line (codes "^ALSA"))

-- If a new oops starts, this one has ended.
unfoldable pub new_starts : OopsLogMsg → Bytes → Run Bool
unfolding contains is_alsa
new_starts msg start =
    if contains (codes "WARNING:") (c_string start)
      || contains (codes "Unable to handle") (c_string start)
    then is_alsa msg.pattern >>= (λ alsa. done (not alsa))
    else done false

-- The handler is called, or the line is stored.
unfoldable pub end_or_store : ParserState → Bytes → Bool → Run ParserState
unfolding push_line handle_msg_end
end_or_store s start true = done (handle_msg_end (record s { handled = s.oops_msg ∷ s.handled }))
end_or_store s start false =
    push_line start s.oops_msg >>= (λ msg. done (record s { oops_msg = msg }))

-- A line in the middle of an oops.
unfoldable pub continue_oops : ParserState → Bytes → Run ParserState
unfolding scan_end new_starts end_or_store
continue_oops s start =
    let (end_found, dump) = scan_end s start in
    new_starts s.oops_msg start
    >>= (λ starts. end_or_store (record s { in_stack_dump = dump }) start (end_found || starts))

-- `line` holds `size` bytes, and a NUL follows.
unfoldable pub parse_single_line : Regexec → ParserState → Bytes → Run ParserState
unfolding start_oops continue_oops
parse_single_line regexec s line =
    let start = skip_space (skip_timestamp (skip_log_level line)) in
    if length s.oops_msg.lines == 0
    then start_oops s start (find_pattern regexec oops_patterns_arr start)
    else continue_oops s start
