-- ===== src/Spool.antt =====
-- src/spool.c: the spooled records are sent, oldest first. The directory is listed as one entry for
-- each file, with what the calls on that file give at the time it is processed.
pub mod Transmission
pub mod Passes
pub mod Removal
pub mod Progresses
use telemetrics_client.Base.{
  ℕ, zero, suc, ◌+◌, ◌-◌, ◌*◌, Bool, true, false, not, ◌&&◌, ◌||◌, List, [], ◌∷◌, Option, none,
  some, ltb, leb, ◌==◌, if◌then◌else◌, length, take, drop,
}
use telemetrics_client.Base.Bytes.{Bytes, codes, equal, c_string}
use telemetrics_client.Base.Int.{ℤ, pos, negsuc, ltb_ℤ, ◌-ℤ◌}
use telemetrics_client.Base.Run.{Run, done, exit, fault, ◌>>=◌}
use telemetrics_client.Common.{
  cfg_prefix_length, header_names, tm_spool_max_process_records, tm_spool_max_send_records,
}
use telemetrics_client.PostDaemon.Process.{FileStatus, is_expired, file_size}
use telemetrics_client.PostDaemon.{Backend}
use telemetrics_client.Record.Staged.{fgets, fgets_chomp, chomp}
use telemetrics_client.Record.{read_u32, cfg_prefix_32bit}
use telemetrics_client.Util.{get_header}

-- One file of the spool: its name, its bytes unless it does not open, what `stat` says unless it
-- fails, with st_size, the time it is processed, and what `get_directory_size` would say after.
pub record SpoolEntry : Type 0 where
  pub name : Bytes
  pub content : Option Bytes
  pub status : Option FileStatus
  pub size : ℕ
  pub current_time : ℕ
  pub directory_size : ℤ

-- The counters that the loop hands on.
pub record Progress : Type 0 where
  pub records_processed : ℕ
  pub records_sent : ℕ
  pub current_spool_size : ℤ

-- Whether the post succeeded, and whether the file was unlinked.
abbrev pub Outcome : Type 0
Outcome = Bool × Bool

-- strtok(line, "\n") on the buffer: leading newlines stay, the next one becomes its end.
unfoldable pub strtok_line : Bytes → Bytes
strtok_line [] = []
strtok_line (c ∷ cs) = if c == b'\n' then c ∷ strtok_line cs else c ∷ chomp cs

-- The loop over the header names.
unfoldable pub transmit_headers : List Bytes → Bytes → Option (List Bytes × Bytes)
transmit_headers [] stream = some ([], stream)
transmit_headers (name ∷ names) stream = elim (fgets stream) [
  | none ↦ none
  | some (line, rest) ↦ elim (get_header (some (strtok_line (c_string line))) name) [
    | none ↦ none
    | some header ↦ elim (transmit_headers names rest) [
      | none ↦ none
      | some (headers, body) ↦ some (header ∷ headers, body)
    ]
  ]
]

-- The buffer of `capacity` zero bytes after `fread`, as a C string: `none` if nothing was read. A
-- full buffer has no NUL, and the string runs out of it. No capacity stands for a `malloc` of zero
-- or fewer bytes.
unfoldable pub read_payload : ℕ → Bytes → Run (Option Bytes)
read_payload capacity rest =
    if length (take capacity rest) == 0
    then done none
    else if length (c_string (take capacity rest)) == capacity
    then fault
    else done (some (c_string (take capacity rest)))

-- post_record_http and the unlink; after `read_error` the flag is still true.
unfoldable pub transmit_payload : Backend → Option Bytes → List Bytes → Option Bytes → Run Outcome
transmit_payload post cfg_file headers none = done (true, false)
transmit_payload post cfg_file headers (some payload) =
    post headers payload cfg_file >>= (λ sent. done (sent, sent))

-- From the headers on: `total` is the length of the file, so that the offset is what was read.
unfoldable pub transmit_rest : Backend → ℕ → ℕ → Option Bytes → Bytes → Run Outcome
transmit_rest post total size cfg_file stream = elim (transmit_headers header_names stream) [
  | none ↦ done (true, false)
  | some (headers, rest) ↦
      read_payload (size + 1 - (total - length rest)) rest
      >>= transmit_payload post cfg_file headers
]

unfoldable pub transmit_config : Backend → ℕ → ℕ → Bytes → ℕ → Run Outcome
transmit_config post total size file prefix =
    if prefix == cfg_prefix_32bit
    then (elim (fgets_chomp (drop cfg_prefix_length file)) [
      | none ↦ done (true, false)
      | some (line, rest) ↦ transmit_rest post total size (some line) rest
    ])
    else transmit_rest post total size none file

unfoldable pub transmit_spooled_record : Backend → Option Bytes → ℕ → Run Outcome
transmit_spooled_record post none size = done (true, false)
transmit_spooled_record post (some file) size = elim (read_u32 file) [
  | done prefix ↦ transmit_config post (length file) size file prefix
  | exit ↦ done (true, false)
  | fault ↦ done (true, false)
]

-- -ENOMEM
unfoldable pub is_enomem : ℤ → Bool
is_enomem (negsuc n) = n == 11
is_enomem (pos n) = false

unfoldable pub get_spool_dir_size : ℤ → Run ℤ
unfolding is_enomem
get_spool_dir_size directory_size = if is_enomem directory_size then exit else done directory_size

-- The size after a record was sent.
unfoldable pub deduct : SpoolEntry → FileStatus → ℤ → Run ℤ
deduct entry st current_spool_size =
    let rest =
      if ltb_ℤ (pos 0) current_spool_size
      then current_spool_size -ℤ file_size st
      else current_spool_size in
    if ltb_ℤ rest (pos 0) then get_spool_dir_size entry.directory_size else done rest

-- What follows the attempt; the Boolean result says whether the file was unlinked.
unfoldable pub after_transmission :
    SpoolEntry → FileStatus → Progress → Outcome → Run (Progress × Bool)
after_transmission entry st p (false, removed) = done (p, removed)
after_transmission entry st p (true, removed) = do
  size ← deduct entry st p.current_spool_size
  done (record p { records_sent = suc p.records_sent; current_spool_size = size }, removed)

unfoldable pub is_invalid_expiry : ℤ → Bool
is_invalid_expiry (negsuc zero) = true
is_invalid_expiry _ = false

-- With the file's status known.
unfoldable pub process_spooled_known :
    Backend → ℤ → SpoolEntry → Progress → FileStatus → Run (Progress × Bool)
process_spooled_known post expiry entry p st =
    if is_expired entry.current_time expiry st
    then done (p, true)
    else if leb p.records_sent tm_spool_max_send_records
    then (transmit_spooled_record post entry.content entry.size >>= after_transmission entry st p)
    else done (p, false)

unfoldable pub process_spooled_status :
    Backend → ℤ → SpoolEntry → Progress → Option FileStatus → Run (Progress × Bool)
unfolding is_invalid_expiry
process_spooled_status post expiry entry p none = done (p, false)
process_spooled_status post expiry entry p (some st) =
    if is_invalid_expiry expiry then exit else process_spooled_known post expiry entry p st

-- entry->d_name is "." or "..", which `directory_filter` leaves out too.
unfoldable pub is_dots : Bytes → Bool
is_dots name = equal name (codes ".") || equal name (codes "..")

unfoldable pub directory_filter : SpoolEntry → Bool
directory_filter entry = not (is_dots entry.name)

-- The counters, and whether the file is gone. `expiry` is record_expiry_config().
unfoldable pub process_spooled_record : Backend → ℤ → SpoolEntry → Progress → Run (Progress × Bool)
process_spooled_record post expiry entry p =
    if is_dots entry.name
    then done (p, false)
    else process_spooled_status post expiry entry
        (record p { records_processed = suc p.records_processed }) entry.status

-- The loop, with the names of the files that are gone.
unfoldable pub spool_loop :
    Backend → ℤ → List SpoolEntry → Progress → List Bytes → Run (Progress × List Bytes)
spool_loop post expiry [] p gone = done (p, gone)
spool_loop post expiry (entry ∷ entries) p gone =
    process_spooled_record post expiry entry p >>= (λ (p', removed).
      let gone' = if removed then entry.name ∷ gone else gone in
      let rest = spool_loop post expiry entries p' gone' in
      if p'.records_sent == 0
      then done (p', gone')
      else if p'.records_processed == tm_spool_max_process_records
      then done (p', gone')
      else rest)

-- By the time of modification, oldest first; files without a status are equal to all.
unfoldable pub compare_times : Option FileStatus → Option FileStatus → ℤ
compare_times (some a) (some b) =
    if ltb a.mtime b.mtime then negsuc 0 else if ltb b.mtime a.mtime then pos 1 else pos 0
compare_times _ _ = pos 0

unfoldable pub spool_record_compare : SpoolEntry → SpoolEntry → ℤ
unfolding compare_times
spool_record_compare a b = compare_times a.status b.status

unfoldable pub filter_entries : List SpoolEntry → List SpoolEntry
filter_entries [] = []
filter_entries (entry ∷ entries) =
    let rest = filter_entries entries in if directory_filter entry then entry ∷ rest else rest

-- `directory` is `none` when `scandir` fails; `qsort` is the C library's.
unfoldable pub spool_records_loop :
    ((SpoolEntry → SpoolEntry → ℤ) → List SpoolEntry → List SpoolEntry)
    → Backend
    → ℤ
    → Option (List SpoolEntry)
    → ℤ
    → Run (Progress × List Bytes)
spool_records_loop qsort post expiry none size =
    done (record { records_processed = 0; records_sent = 0; current_spool_size = size }, [])
spool_records_loop qsort post expiry (some directory) size =
    spool_loop post expiry (qsort spool_record_compare (filter_entries directory))
      (record { records_processed = 0; records_sent = 0; current_spool_size = size }) []
