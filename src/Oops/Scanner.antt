-- ===== src/Oops/Scanner.antt =====
-- `handle_entire_oops` of src/probes/oops_parser.c, and src/probes/klog_scanner.c.
use telemetrics_client.Base.{
  ℕ, List, [], ◌∷◌, ◌++◌, Option, none, some, ◌==◌, if◌then◌else◌, length,
}
use telemetrics_client.Base.Bytes.{Bytes, c_string}
use telemetrics_client.Base.Run.{Run, done, fault, ◌>>=◌}
use telemetrics_client.Oops.{OopsLogMsg, ParserState, push_line, parse_single_line}
use telemetrics_client.Oops.Patterns.{OopsPattern, oops_patterns_arr, Regexec, find_pattern}

-- A byte before the first line, or before the rest that no newline ends.
unfoldable pub push_front : ℕ → List Bytes × Bytes → List Bytes × Bytes
push_front c ([], rest) = ([], c ∷ rest)
push_front c (line ∷ lines, rest) = ((c ∷ line) ∷ lines, rest)

-- The lines of a buffer that memchr finds the newline of, and what is left behind the last.
unfoldable pub cut_lines : Bytes → List Bytes × Bytes
unfolding push_front
cut_lines [] = ([], [])
cut_lines (c ∷ cs) =
    let (lines, rest) = cut_lines cs in
    if c == b'\n' then ([] ∷ lines, rest) else push_front c (lines, rest)

-- The loop that copies the lines into the array; a last line without a newline is ended by a NUL
-- behind the buffer.
unfoldable pub store_lines : List Bytes → Bytes → OopsLogMsg → Run OopsLogMsg
unfolding push_line
store_lines [] [] msg = done msg
store_lines [] (c ∷ cs) msg = fault
store_lines (line ∷ lines) rest msg = push_line line msg >>= (λ m. store_lines lines rest m)

unfoldable pub store_oops :
    List Bytes → Bytes → Bytes → Option OopsPattern → Run (Option OopsLogMsg)
unfolding store_lines
store_oops lines rest line none = done none
store_oops lines rest line (some pattern) =
    store_lines (line ∷ lines) rest (record { lines = []; pattern = some pattern })
    >>= (λ msg. done (some msg))

unfoldable pub entire_from : Regexec → List Bytes → Bytes → Run (Option OopsLogMsg)
unfolding store_oops
entire_from regexec [] rest = done none
entire_from regexec (line ∷ lines) rest =
    store_oops lines rest line (find_pattern regexec oops_patterns_arr line)

-- None is the result false.
unfoldable pub handle_entire_oops : Regexec → Bytes → Run (Option OopsLogMsg)
unfolding entire_from cut_lines
handle_entire_oops regexec buf = let (lines, rest) = cut_lines buf in entire_from regexec lines rest

-- The contents that klog_process_oops_msgs puts together.
unfoldable pub klog_contents : List Bytes → Bytes
klog_contents [] = []
klog_contents (line ∷ lines) = c_string line ++ (b'\n' ∷ klog_contents lines)

-- Up to the payload: the message in which the oops is found again.
unfoldable pub klog_process_oops_msgs : Regexec → OopsLogMsg → Run (Option OopsLogMsg)
unfolding klog_contents handle_entire_oops
klog_process_oops_msgs regexec msg = handle_entire_oops regexec (klog_contents msg.lines)

-- The loop over the lines that ends when the handler was called; the rest without a newline is not
-- parsed.
unfoldable pub parse_lines : Regexec → ParserState → List Bytes → Run ParserState
unfolding parse_single_line
parse_lines regexec s [] = done s
parse_lines regexec s (line ∷ lines) = parse_single_line regexec s line >>= (λ t.
    let more = parse_lines regexec t lines in
    if length t.handled == length s.handled then more else done t)

unfoldable pub split_buf_by_line : Regexec → ParserState → Bytes → Run ParserState
unfolding parse_lines cut_lines
split_buf_by_line regexec s buf = let (lines, rest) = cut_lines buf in parse_lines regexec s lines
