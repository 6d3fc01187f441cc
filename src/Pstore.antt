-- ===== src/Pstore.antt =====
-- src/probes/pstore_probe.c: the parts of a crash dump, put together and handed to the oops parser.
-- Allocation succeeds; the hash table that collects the chunks of a dump is that of libnica, so a dump
-- begins with its list of chunks.
pub mod Pieces
pub mod Dumps
pub mod Parts
use telemetrics_client.Base.{
  ℕ, zero, suc, ◌+◌, ◌-◌, ◌/◌, ◌%◌, Bool, true, false, ◌&&◌, List, [], ◌∷◌, ◌++◌, Option, none,
  some, ltb, ◌==◌, if◌then◌else◌, length, set, take, replicate,
}
use telemetrics_client.Base.Bytes.{Bytes, after}
use telemetrics_client.Base.Int.{ℤ, pos, negsuc, sub_ℕ}
use telemetrics_client.Base.Run.{Run, done, exit, fault, ◌>>=◌}
use telemetrics_client.Oops.{ParserState, handle_msg_end, parse_single_line}
use telemetrics_client.Oops.Patterns.{Regexec}

unfoldable pub extend_line : ℕ → Option (Bytes × Bytes) → Option (Bytes × Bytes)
extend_line c none = none
extend_line c (some (line, rest)) = some (c ∷ line, rest)

-- The first line and what stands behind its newline.
unfoldable pub split_line : Bytes → Option (Bytes × Bytes)
unfolding extend_line
split_line [] = none
split_line (c ∷ cs) = if c == b'\n' then some ([], cs) else extend_line c (split_line cs)

-- The loop of handle_crash_dump, with at most `fuel` turns; none if it needs more.
unfoldable pub dump_loop : ℕ → Regexec → ParserState → Bytes → Option (Run ParserState)
unfolding split_line parse_single_line
dump_loop zero regexec s [] = some (done s)
dump_loop zero regexec s (c ∷ cs) = none
dump_loop (suc fuel) regexec s [] = some (done s)
dump_loop (suc fuel) regexec s (c ∷ cs) = elim (split_line (c ∷ cs)) [
  | none ↦ dump_loop fuel regexec s (c ∷ cs)
  | some (line, rest) ↦ elim (parse_single_line regexec s line) [
    | done t ↦ dump_loop fuel regexec t rest
    | exit ↦ some exit
    | fault ↦ some fault
  ]
]

-- The cleanup drops the message that no line has ended.
unfoldable pub cleaned_up : Option (Run ParserState) → Option (Run ParserState)
unfolding handle_msg_end
cleaned_up none = none
cleaned_up (some r) = some (r >>= (λ s. done (handle_msg_end s)))

unfoldable pub handle_crash_dump : ℕ → Regexec → ParserState → Bytes → Option (Run ParserState)
unfolding dump_loop cleaned_up
handle_crash_dump fuel regexec s dump = cleaned_up (dump_loop fuel regexec s dump)

-- The count and the part in the id of a file's name.
unfoldable pub parse_id : ℕ → ℕ × ℕ
parse_id id = (id % 1000, id / 1000 % 100)

-- Behind the header's line, if there is one.
unfoldable pub without_header : Bytes → Bytes
without_header contents = elim (after b'\n' contents) [ none ↦ contents | some rest ↦ rest ]

-- None where the file cannot be read whole.
unfoldable pub read_contents : Option Bytes → Option Bytes
unfolding without_header
read_contents none = none
read_contents (some contents) = some (without_header contents)

pub record Chunk : Type 0 where
  pub contents : Option Bytes
  pub count : ℤ
  pub part : ℤ

-- An element for a file `dmesg-efi-<id>`.
unfoldable pub make_chunk : ℕ → Option Bytes → Chunk
unfolding parse_id read_contents
make_chunk id file = record {
  contents = read_contents file;
  count = sub_ℕ (parse_id id).0 1;
  part = sub_ℕ (parse_id id).1 1;
}

unfoldable pub size_of : Option Bytes → ℕ
size_of none = 0
size_of (some contents) = length contents

-- The greater one of `part` and `max`, where none is -1.
unfoldable pub max_with : Option ℕ → ℤ → Option ℕ
max_with none (negsuc n) = none
max_with none (pos n) = some n
max_with (some m) (negsuc n) = some m
max_with (some m) (pos n) = if ltb m n then some n else some m

-- The first loop over the list: the greatest part and the sum of the sizes.
unfoldable pub measure : Option ℕ → ℕ → List Chunk → Option ℕ × ℕ
unfolding max_with size_of
measure max_part totalsize [] = (max_part, totalsize)
measure max_part totalsize (e ∷ es) =
    measure (max_with max_part e.part) (totalsize + size_of e.contents) es

-- parts[elem->part] = elem, by its contents.
unfoldable pub place_chunk : List (Option Bytes) → Chunk → ℤ → Run (List (Option Bytes))
place_chunk parts e (negsuc n) = fault
place_chunk parts e (pos n) = if ltb n (length parts) then done (set parts n e.contents) else fault

unfoldable pub place_chunks : List (Option Bytes) → List Chunk → Run (List (Option Bytes))
unfolding place_chunk
place_chunks parts [] = done parts
place_chunks parts (e ∷ es) = place_chunk parts e e.part >>= (λ ps. place_chunks ps es)

-- A part that is missing or empty gives the dump up; else the parts are copied, the last one first.
unfoldable pub combine : List (Option Bytes) → Option Bytes
combine [] = some []
combine (none ∷ parts) = none
combine (some [] ∷ parts) = none
combine (some (c ∷ cs) ∷ parts) = elim (combine parts) [
  | none ↦ none
  | some later ↦ some (later ++ c ∷ cs)
]

-- `totalsize` bytes, the rest of them as malloc left them.
unfoldable pub in_dump : ℕ → Bytes → Option Bytes → Option Bytes
in_dump totalsize left_over none = none
in_dump totalsize left_over (some text) = some (text ++ take (totalsize - length text) left_over)

-- assert(max_part > 0), and the array of parts.
unfoldable pub assemble_up_to : Bytes → List Chunk → Option ℕ × ℕ → Run (Option Bytes)
unfolding place_chunks combine in_dump
assemble_up_to left_over chunks (none, totalsize) = exit
assemble_up_to left_over chunks (some zero, totalsize) = exit
assemble_up_to left_over chunks (some (suc m), totalsize) =
    place_chunks (replicate (suc (suc m)) none) chunks
    >>= (λ parts. done (in_dump totalsize left_over (combine parts)))

-- The dump of a list of chunks; none if parts are missing.
unfoldable pub assemble : Bytes → List Chunk → Run (Option Bytes)
unfolding assemble_up_to measure
assemble left_over chunks = assemble_up_to left_over chunks (measure none 0 chunks)
