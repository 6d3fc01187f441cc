-- ===== src/Record/Staged.antt =====
-- src/iorecord.c: `read_record` over the bytes of a staged file. A stream is what is left to read.
use telemetrics_client.Base.{
  ℕ, zero, suc, List, [], ◌∷◌, Option, none, some, ◌==◌, if◌then◌else◌, drop,
}
use telemetrics_client.Base.Bytes.{Bytes, c_string}
use telemetrics_client.Base.Run.{done, exit, fault}
use telemetrics_client.Common.{cfg_prefix_length, header_names, path_max}
use telemetrics_client.Record.{StagedRecord, read_u32, cfg_prefix_32bit}
use telemetrics_client.Util.{get_header}

-- char line[PATH_MAX + 1], and `fgets` leaves room for the NUL: PATH_MAX is larger than LINE_MAX.
-- Up to `n` bytes, ending with the first newline.
unfoldable pub take_line : ℕ → Bytes → Bytes × Bytes
take_line zero stream = ([], stream)
take_line (suc n) [] = ([], [])
take_line (suc n) (c ∷ cs) =
    let (line, rest) = take_line n cs in if c == b'\n' then (c ∷ [], cs) else (c ∷ line, rest)

-- fgets(line, path_max + 1, stream): the buffer up to its NUL, and the rest of the stream.
unfoldable pub fgets : Bytes → Option (Bytes × Bytes)
fgets [] = none
fgets (c ∷ cs) = some (take_line path_max (c ∷ cs))

-- The C string in the buffer, cut at its newline.
unfoldable pub chomp : Bytes → Bytes
chomp [] = []
chomp (c ∷ cs) = if c == b'\n' then [] else c ∷ chomp cs

-- `_fgets`
unfoldable pub fgets_chomp : Bytes → Option (Bytes × Bytes)
fgets_chomp stream = elim (fgets stream) [
  | none ↦ none
  | some (line, rest) ↦ some (chomp (c_string line), rest)
]

-- The loop over the header names.
unfoldable pub read_headers : List Bytes → Bytes → Option (List Bytes × Bytes)
read_headers [] stream = some ([], stream)
read_headers (name ∷ names) stream = elim (fgets_chomp stream) [
  | none ↦ none
  | some (line, rest) ↦ elim (get_header (some line) name) [
    | none ↦ none
    | some header ↦ elim (read_headers names rest) [
      | none ↦ none
      | some (headers, body) ↦ some (header ∷ headers, body)
    ]
  ]
]

-- The headers and the payload; `fread` of no byte is an error.
unfoldable pub read_rest : Option Bytes → Bytes → Option StagedRecord
read_rest cfg_file stream = elim (read_headers header_names stream) [
  | none ↦ none
  | some (headers, []) ↦ none
  | some (headers, c ∷ cs) ↦
      some (record { headers = headers; body = c_string (c ∷ cs); cfg_file = cfg_file })
]

-- After the first four bytes: a configuration path, or back to the start.
unfoldable pub read_config : Bytes → ℕ → Option StagedRecord
read_config stream prefix =
    if prefix == cfg_prefix_32bit
    then (elim (fgets_chomp (drop cfg_prefix_length stream)) [
      | none ↦ none
      | some (line, rest) ↦ read_rest (some line) rest
    ])
    else read_rest none stream

-- `none` is the result false: the file does not open, or does not hold a record.
unfoldable pub read_record : Option Bytes → Option StagedRecord
read_record none = none
read_record (some file) = elim (read_u32 file) [
  | done prefix ↦ read_config file prefix
  | exit ↦ none
  | fault ↦ none
]
