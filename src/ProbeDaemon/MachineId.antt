-- ===== src/ProbeDaemon/MachineId.antt =====
-- src/telemdaemon.c: the machine id, its override and its expiry. A file is its bytes, or none when
-- it does not open.
use telemetrics_client.Base.{
  ℕ, ◌*◌, ◌+◌, ◌≤◌, inl, inr, [], ◌∷◌, Option, none, some, ltb, ◌==◌, if◌then◌else◌, length, take,
  take_shortens, arith, Bool-cases,
}
use telemetrics_client.Base.Bytes.{
  Bytes, Lacks, Lacks-take, Lacks-c_string, c_string, c_string_ends, length-c_string,
}
use telemetrics_client.Base.Int.{ℤ, pos, negsuc}
use telemetrics_client.Client.Values.{skip_spaces, take_word}
use telemetrics_client.Record.Delivery.{IsId}
use telemetrics_client.Record.Payload.{is_space}
use telemetrics_client.Record.Probd.{machine_id}
use telemetrics_client.Record.Staged.{chomp}

-- fread of 32 bytes into a zeroed buffer of 33, cut at the first newline.
unfoldable pub read_machine_id_override : Option Bytes → Option Bytes
read_machine_id_override none = none
read_machine_id_override (some []) = none
read_machine_id_override (some (c ∷ cs)) = some (c_string (chomp (take 32 (c ∷ cs))))

unfoldable pub found_id : Bytes → Option Bytes
found_id [] = none
found_id (c ∷ cs) = some (c_string (c ∷ cs))

-- fscanf with "%32s"; none is the result false.
unfoldable pub get_machine_id : Option Bytes → Option Bytes
unfolding found_id skip_spaces take_word
get_machine_id none = none
get_machine_id (some file) = found_id (take 32 (take_word (skip_spaces file)))

-- The status, and the new contents of the file. It does not open, or the write fails, or neither.
pub data IdFile : Type 0 where
  closed : IdFile
  broken_write : IdFile
  writable : IdFile

unfoldable pub machine_id_write : IdFile → Bytes → ℤ × Option Bytes
machine_id_write closed new_id = (negsuc 0, none)
machine_id_write broken_write new_id = (negsuc 0, some [])
machine_id_write writable new_id = (pos 0, some new_id)

-- `random_id` is what get_random_id gives.
unfoldable pub generate_machine_id : Option Bytes → IdFile → ℤ × Option Bytes
unfolding machine_id_write
generate_machine_id none file = (negsuc 0, none)
generate_machine_id (some new_id) file = machine_id_write file new_id

-- stat of the file, with its time of modification.
pub data IdStat : Type 0 where
  absent : IdStat
  stat_fails : IdStat
  modified : ℕ → IdStat

abbrev pub tm_machine_id_expiry : ℕ
tm_machine_id_expiry = 3 * 24 * 60 * 60

unfoldable pub update_machine_id : IdStat → ℕ → Option Bytes → IdFile → ℤ × Option Bytes
unfolding generate_machine_id
update_machine_id absent now random_id file = generate_machine_id random_id file
update_machine_id stat_fails now random_id file = (negsuc 0, none)
update_machine_id (modified mtime) now random_id file =
    if ltb (mtime + tm_machine_id_expiry) now
    then generate_machine_id random_id file
    else (pos 0, none)

chomp_line : (s : Bytes) → Lacks b'\n' (chomp s) × (length (chomp s) ≤ length s)
unfolding chomp
chomp_line [] = (tt, omega arith)
chomp_line (c ∷ cs) =
    let (line, shorter) = chomp_line cs in
    elim (Bool-cases (c == b'\n')) [
      | inl ends ↦ rw ends (tt, omega arith)
      | inr goes_on ↦ rw goes_on ((ground (arith, goes_on), line), omega (arith, shorter))
    ]

take_word_line : (s : Bytes) → Lacks b'\n' (take_word s)
unfolding take_word is_space
take_word_line [] = tt
take_word_line (c ∷ cs) = elim (Bool-cases (is_space c)) [
  | inl space ↦ rw space tt
  | inr solid ↦ rw solid (ground (arith, solid), take_word_line cs)
]

text-IsId : (s : Bytes) → Lacks b'\n' s → length s ≤ 32 → IsId (c_string s)
text-IsId s line short = record {
  no_newline = Lacks-c_string b'\n' s line;
  no_nul = c_string_ends s;
  short = omega (arith, length-c_string s, short);
}

take-IsId : (s : Bytes) → IsId s → IsId (take 32 s)
take-IsId s i = record {
  no_newline = Lacks-take b'\n' 32 s i.no_newline;
  no_nul = Lacks-take 0 32 s i.no_nul;
  short = omega (arith, take_shortens 32 s);
}

found_id-IsId : (s : Bytes) → Lacks b'\n' s → length s ≤ 32 → IsId (machine_id none (found_id s))
unfolding found_id machine_id
found_id-IsId [] line short = omega arith
found_id-IsId (c ∷ cs) line short = text-IsId (c ∷ cs) line short

get_machine_id-IsId : (stored : Option Bytes) → IsId (machine_id none (get_machine_id stored))
unfolding get_machine_id machine_id
get_machine_id-IsId none = omega arith
get_machine_id-IsId (some file) =
    let word = take_word (skip_spaces file) in
    found_id-IsId (take 32 word) (Lacks-take b'\n' 32 word (take_word_line (skip_spaces file)))
      (omega (arith, take_shortens 32 word))

-- The id that the daemon puts into a record is at most 32 bytes on one line, whatever the two files
-- hold.
pub machine_id-IsId :
    (override stored : Option Bytes)
    → IsId (machine_id (read_machine_id_override override) (get_machine_id stored))
unfolding read_machine_id_override machine_id
machine_id-IsId none stored = get_machine_id-IsId stored
machine_id-IsId (some []) stored = get_machine_id-IsId stored
machine_id-IsId (some (c ∷ cs)) stored =
    let (line, shorter) = chomp_line (take 32 (c ∷ cs)) in
    take-IsId _ (
      text-IsId (chomp (take 32 (c ∷ cs))) line (omega (arith, shorter, take_shortens 32 (c ∷ cs))))
