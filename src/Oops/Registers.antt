-- ===== src/Oops/Registers.antt =====
-- `parse_registers` and `append_registers_to_bt` of src/probes/oops_parser.c.
use telemetrics_client.Base.{
  ℕ, zero, suc, ◌+◌, ◌-◌, ◌/◌, ◌%◌, Bool, false, not, ◌&&◌, List, [], ◌∷◌, ◌++◌, Option, none, some,
  ltb, ◌==◌, if◌then◌else◌, length, drop,
}
use telemetrics_client.Base.Bytes.{Bytes, codes, is_prefix}
use telemetrics_client.Base.Run.{Run, done, fault}
use telemetrics_client.Oops.{skip_space, str_starts_with_casei}
use telemetrics_client.Oops.Numbers.{skip_spaces, strtoll_16}
use telemetrics_client.Record.Payload.{is_space}

unfoldable pub registers : List Bytes
registers =
    codes "RIP"
    ∷ codes "RSP"
    ∷ codes "CR0"
    ∷ codes "CR2"
    ∷ codes "CR3"
    ∷ codes "CR4"
    ∷ codes "DR0"
    ∷ codes "DR1"
    ∷ codes "DR2"
    ∷ codes "DR3"
    ∷ codes "DR6"
    ∷ codes "DR7"
    ∷ codes "EFLAGS"
    ∷ codes "RAX"
    ∷ codes "RBX"
    ∷ codes "RCX"
    ∷ codes "RDX"
    ∷ codes "RSI"
    ∷ codes "RDI"
    ∷ codes "RBP"
    ∷ codes "R08"
    ∷ codes "R09"
    ∷ codes "R10"
    ∷ codes "R11"
    ∷ codes "R12"
    ∷ codes "R13"
    ∷ codes "R14"
    ∷ codes "R15"
    ∷ codes "FS"
    ∷ codes "GS"
    ∷ codes "knlGS"
    ∷ codes "CS"
    ∷ codes "ES"
    ∷ []

pub record Register : Type 0 where
  pub reg_name : Bytes
  pub reg_value : ℕ

-- What a turn of the loop over a line does: it leaves the loop, it goes on behind a text with no
-- value, or with a value.
pub data RegisterTurn : Type 0 where
  ends : RegisterTurn
  skips : Bytes → RegisterTurn
  stores : ℕ → Bytes → RegisterTurn

unfoldable pub find_register : List Bytes → Bytes → Option Bytes
find_register [] line = none
find_register (name ∷ names) line =
    let later = find_register names line in
    if str_starts_with_casei line name then some name else later

unfoldable pub skip_colon : Bytes → Bytes
skip_colon [] = []
skip_colon (c ∷ cs) = if c == b':' then cs else c ∷ cs

-- Where `b` stands, or the end of the text: strchrnul(s, b).
unfoldable pub from_byte : ℕ → Bytes → Bytes
from_byte b [] = []
from_byte b (c ∷ cs) = if c == b then c ∷ cs else from_byte b cs

unfoldable pub head_is : ℕ → Bytes → Bool
head_is b [] = false
head_is b (c ∷ cs) = c == b

-- A value that a colon follows is a segment.
unfoldable pub behind_segment : ℕ → Bytes → ℕ × Bytes
unfolding strtoll_16
behind_segment value [] = (value, [])
behind_segment value (c ∷ cs) = if c == b':' then strtoll_16 cs else (value, c ∷ cs)

unfoldable pub in_parentheses : ℕ → Bytes → RegisterTurn
in_parentheses value [] = ends
in_parentheses value (c ∷ cs) = stores value (c ∷ cs)

unfoldable pub in_angles : ℕ → Bytes → RegisterTurn
in_angles value [] = skips []
in_angles value (c ∷ cs) = if c == b'>' then stores value cs else skips (c ∷ cs)

unfoldable pub in_brackets : ℕ → Bytes → RegisterTurn
unfolding head_is
in_brackets value rest =
    if not (head_is b'>' rest) && not (head_is b']' (drop 1 rest))
    then skips rest
    else stores value (drop 2 rest)

unfoldable pub is_at : ℕ → Bytes → RegisterTurn
unfolding strtoll_16
is_at value [] = stores value []
is_at value (c ∷ cs) = stores (strtoll_16 (c ∷ cs)).0 []

-- By what follows the value.
unfoldable pub close_value : ℕ → Bytes → RegisterTurn
unfolding in_parentheses in_angles in_brackets is_at from_byte head_is strtoll_16
close_value value [] = stores value []
close_value value (c ∷ cs) =
    if c == b'('
    then in_parentheses value (from_byte b')' (c ∷ cs))
    else if c == b'<'
    then in_angles (strtoll_16 cs).0 (strtoll_16 cs).1
    else if c == b'[' && head_is b'<' cs
    then in_brackets (strtoll_16 (c ∷ cs)).0 (strtoll_16 (c ∷ cs)).1
    else if is_prefix (codes "is at") (c ∷ cs)
    then is_at value (from_byte b'+' (c ∷ cs))
    else if not (is_space c)
    then skips (c ∷ cs)
    else stores value (c ∷ cs)

-- Behind the name, its colon and one space.
unfoldable pub read_value : Bytes → RegisterTurn
unfolding close_value behind_segment strtoll_16
read_value [] = ends
read_value (c ∷ cs) =
    let (value, rest) = strtoll_16 (c ∷ cs) in
    let (value', rest') = behind_segment value rest in close_value value' rest'

unfoldable pub behind_name : Bytes → Bytes → Bytes
unfolding skip_colon skip_space
behind_name name line = skip_space (skip_colon (drop (length name) line))

-- The loop, on fuel; `fault` stands for a loop that does not end.
unfoldable pub parse_registers : ℕ → Bytes → List Register → Run (List Register)
unfolding skip_spaces find_register read_value behind_name
parse_registers zero line regs = fault
parse_registers (suc fuel) line regs = elim (find_register registers (skip_spaces line)) [
  | none ↦ done regs
  | some name ↦ elim (read_value (behind_name name (skip_spaces line))) [
    | ends ↦ done regs
    | skips rest ↦ parse_registers fuel rest regs
    | stores value rest ↦
        parse_registers fuel rest (record { reg_name = name; reg_value = value } ∷ regs)
  ]
]

-- PRIx64, with `fuel` digits at most.
unfoldable pub hex_text : ℕ → ℕ → Bytes
hex_text zero n = []
hex_text (suc fuel) n =
    let d = n % 16 in
    let last = (if ltb d 10 then b'0' + d else b'a' + d - 10) ∷ [] in
    let more = hex_text fuel (n / 16) ++ last in if ltb n 16 then last else more

unfoldable pub register_text : Bool → Register → Bytes
unfolding hex_text
register_text override r =
    codes "Register "
    ++ (r.reg_name
        ++ (codes ": "
            ++ ((if override
                  then hex_text 16 r.reg_value
                  else if r.reg_value == 0
                  then codes "Zero"
                  else codes "Non-zero")
                ++ b'\n' ∷ [])))

-- `override` if TM_PRIVACY_FILTERS_OVERRIDE can be accessed.
unfoldable pub append_registers_to_bt : Bool → List Register → Bytes
unfolding register_text
append_registers_to_bt override [] = []
append_registers_to_bt override (r ∷ rs) =
    register_text override r ++ append_registers_to_bt override rs
