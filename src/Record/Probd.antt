-- ===== src/Record/Probd.antt =====
-- src/telemdaemon.c: `process_record` over a client's buffer, and `stage_record`.
-- `mkstemp` and `fdopen` succeed; the staged file is given by its bytes.
use telemetrics_client.Base.{
  ℕ, zero, suc, ◌+◌, ◌-◌, ◌%◌, ◌^◌, List, [], ◌∷◌, ◌++◌, Option, none, some, ◌==◌, if◌then◌else◌,
  length, take, drop, leb,
}
use telemetrics_client.Base.Bytes.{Bytes, codes, equal}
use telemetrics_client.Base.Run.{Run, done, exit, fault, ◌>>=◌}
use telemetrics_client.Common.{cfg_prefix, cfg_prefix_length, header_names}
use telemetrics_client.Record.{read_u32, cfg_prefix_32bit, tokens_from}
use telemetrics_client.Util.{get_header}

-- The bytes that `stage_record` writes.
unfoldable pub stage_headers : List Bytes → Bytes
stage_headers [] = []
stage_headers (h ∷ hs) = h ++ (b'\n' ∷ stage_headers hs)

unfoldable pub stage_config : Option Bytes → Bytes
stage_config none = []
stage_config (some cfg_file) = cfg_prefix ++ (cfg_file ++ b'\n' ∷ [])

unfoldable pub stage_record : List Bytes → Bytes → Option Bytes → Bytes
unfolding stage_headers stage_config
stage_record headers body cfg_file =
    stage_config cfg_file ++ (stage_headers headers ++ (body ++ b'\n' ∷ []))

-- A C string that must end inside the buffer.
unfoldable pub c_string_in : Bytes → Run Bytes
c_string_in [] = fault
c_string_in (c ∷ cs) =
    let rest = c_string_in cs in if c == 0 then done [] else rest >>= (λ s. done (c ∷ s))

-- strndup(msg, n): it reads `n` bytes, or up to a NUL.
unfoldable pub strndup_in : ℕ → Bytes → Run Bytes
strndup_in zero msg = done []
strndup_in (suc n) [] = fault
strndup_in (suc n) (c ∷ cs) =
    let rest = strndup_in n cs in if c == 0 then done [] else rest >>= (λ s. done (c ∷ s))

-- What the daemon puts for the machine id: the override, cut to 32 bytes, or the id that
-- `get_machine_id` scanned from its file, or "0".
unfoldable pub machine_id : Option Bytes → Option Bytes → Bytes
machine_id (some machine_id_override) stored = take 32 machine_id_override
machine_id none (some id) = id
machine_id none none = b'0' ∷ []

unfoldable pub machine_id_name : Bytes
machine_id_name = codes "machine_id"

-- `machine_id_replace`, for the header of that name.
unfoldable pub replace_header : Bytes → Bytes → Bytes → Bytes
replace_header id name header =
    if equal name machine_id_name then machine_id_name ++ (codes ": " ++ id) else header

-- The loop over the header names and the tokens; `none` is the exit with incorrect headers.
unfoldable pub take_headers : Bytes → List Bytes → List Bytes → Option (List Bytes)
take_headers id [] toks = some []
take_headers id (name ∷ names) [] = none
take_headers id (name ∷ names) (tok ∷ toks) = elim (get_header (some tok) name) [
  | none ↦ none
  | some header ↦ elim (take_headers id names toks) [
    | none ↦ none
    | some headers ↦ some (replace_header id name header ∷ headers)
  ]
]

-- The text at `msg + header_size`, which may stand past the end of the buffer.
unfoldable pub body_at : ℕ → Bytes → Run Bytes
body_at header_size msg =
    if leb header_size (length msg) then c_string_in (drop header_size msg) else fault

unfoldable pub stage_all : Option Bytes → ℕ → Bytes → Option (List Bytes) → Run (Option Bytes)
stage_all cfg_file header_size msg none = done none
stage_all cfg_file header_size msg (some headers) =
    body_at header_size msg >>= (λ body. done (some (stage_record headers body cfg_file)))

-- From the header size on; `size` is that of the whole buffer.
unfoldable pub process_rest : Bytes → ℕ → ℕ → Option Bytes → Bytes → Run (Option Bytes)
unfolding stage_all
process_rest id size cfg_info_size cfg_file buf = do
  header_size ← read_u32 buf
  let message_size = (size + 2 ^ 64 - (cfg_info_size + header_size)) % 2 ^ 64
  let msg = drop 4 buf
  if message_size == 0
      then exit
      else strndup_in header_size msg >>= (λ temp_headers.
        stage_all cfg_file header_size msg
          (take_headers id header_names (tokens_from [] temp_headers)))

-- The staged file, if the headers are correct.
unfoldable pub process_record : Bytes → Bytes → Run (Option Bytes)
process_record id buf = do
  prefix ← read_u32 buf
  if prefix == cfg_prefix_32bit
      then c_string_in (drop cfg_prefix_length buf) >>= (λ cfg_file.
        let cfg_info_size = cfg_prefix_length + length cfg_file + 1 in
        process_rest id (length buf) cfg_info_size (some cfg_file) (drop cfg_info_size buf))
      else process_rest id (length buf) 0 none buf
