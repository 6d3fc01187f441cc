-- ===== src/Oops/Payload/Fields.antt =====
-- What is read from a line of registers such as `RAX: 0000000000000002 RBX: ffffffff81c1a080`.
use telemetrics_client.Base.{
  if◌then◌else◌, ℕ, zero, suc, ◌≤◌, ◌<◌, ◌≡◌, refl, sym, ◌∙◌, Bool, false, ◌||◌, List, [], ◌∷◌,
  ◌++◌, some, ltb, length, drop, map, get_elem?, length-append, arith,
}
use telemetrics_client.Base.Bytes.{hex_char, Bytes, codes, is_prefix}
use telemetrics_client.Base.Run.{done}
use telemetrics_client.Configuration.{to_lower}
use telemetrics_client.Oops.{skip_space, str_starts_with_casei}
use telemetrics_client.Oops.Numbers.{skip_spaces, to_uint64, llong_max}
use telemetrics_client.Oops.Registers.{
  Register, stores, registers, find_register, skip_colon, read_value, behind_name, parse_registers,
}
use telemetrics_client.Record.Payload.{is_space}
use telemetrics_client.Oops.Payload.Values.{AreDigits, number, Apart, read_value-digits}

-- A line of modules or of a processor.
abbrev pub is_other : Bytes → Bool
is_other line =
    str_starts_with_casei line (codes "Modules linked in: ")
    || (str_starts_with_casei line (codes "CPU: ") || str_starts_with_casei line (codes "PID: "))

-- The name is the first of the table that the text starts with, and neither a space nor the start
-- of another line starts it.
abbrev IsFound : Bytes → Type 0
IsFound name =
    ((rest : Bytes) → find_register registers (name ++ (b':' ∷ rest)) ≡ some name)
    × ((rest : Bytes) → skip_spaces (name ++ rest) ≡ name ++ rest)
    × ((rest : Bytes) → is_other (name ++ rest) ≡ false)

abbrev AreFound : List Bytes → Type 0
AreFound [] = Unit
AreFound (name ∷ names) = IsFound name × AreFound names

registers-AreFound : AreFound registers
unfolding registers find_register str_starts_with_casei is_prefix skip_spaces is_space to_lower
registers-AreFound = search

AreFound-get :
    (names : List Bytes) (i : ℕ) (name : Bytes)
    → AreFound names
    → get_elem? names i ≡ some name
    → IsFound name
AreFound-get [] i name h e = cc
AreFound-get (n ∷ names) zero name h e = let same : n ≡ name = cc in rw (sym same) h.0
AreFound-get (n ∷ names) (suc i) name h e = AreFound-get names i name h.1 e

-- A register's name by its place in the table, and the digits of its value.
pub record Field : Type 0 where
  pub place : ℕ
  pub name : Bytes
  pub first : ℕ
  pub others : List ℕ
  pub named : get_elem? registers place ≡ some name
  pub digits : AreDigits (first ∷ others)

abbrev pub digits_text : Field → Bytes → Bytes
digits_text f rest = hex_char f.first ∷ (map hex_char f.others ++ rest)

-- The fields, each behind a space.
abbrev pub spaced : List Field → Bytes
spaced [] = []
spaced (f ∷ fs) = b' ' ∷ (f.name ++ (b':' ∷ b' ' ∷ digits_text f (spaced fs)))

abbrev pub fields_line : Field → List Field → Bytes
fields_line f fs = f.name ++ (b':' ∷ b' ' ∷ digits_text f (spaced fs))

-- The value of the digits, or the greatest long long if that is less.
abbrev pub stored : Field → Register
stored f = record {
  reg_name = f.name;
  reg_value =
      if ltb llong_max (number 0 (f.first ∷ f.others))
      then llong_max
      else number 0 (f.first ∷ f.others);
}

-- One after the other, in front of those before.
abbrev pub stored_all : List Field → List Register → List Register
stored_all [] regs = regs
stored_all (f ∷ fs) regs = stored_all fs (stored f ∷ regs)

Apart-spaced : (fs : List Field) → Apart (spaced fs)
Apart-spaced [] = tt
Apart-spaced (f ∷ fs) = refl

drop-name : (name s : Bytes) → drop (length name) (name ++ s) ≡ s
drop-name [] s = refl
drop-name (c ∷ name) s = drop-name name s

behind_name-digits :
    (name : Bytes) (d : ℕ) (s : Bytes)
    → d < 16
    → behind_name name (name ++ (b':' ∷ b' ' ∷ hex_char d ∷ s)) ≡ hex_char d ∷ s
unfolding behind_name skip_colon skip_space is_space
behind_name-digits name d s h = rw (drop-name name (b':' ∷ b' ' ∷ hex_char d ∷ s)) refl

-- A turn that finds a name and reads a value.
parse_registers-stores :
    (fuel : ℕ) (line : Bytes) (regs : List Register) (name : Bytes) (value : ℕ) (rest : Bytes)
    → find_register registers (skip_spaces line) ≡ some name
    → read_value (behind_name name (skip_spaces line)) ≡ stores value rest
    → parse_registers (suc fuel) line regs
      ≡ parse_registers fuel rest (record { reg_name = name; reg_value = value } ∷ regs)
unfolding parse_registers
parse_registers-stores fuel line regs name value rest found read =
    rw (found, parse_registers) (rw (read, parse_registers) refl)

parse_registers-field :
    (fuel : ℕ) (f : Field) (fs : List Field) (regs : List Register)
    → parse_registers (suc fuel) (fields_line f fs) regs
      ≡ parse_registers fuel (spaced fs) (stored f ∷ regs)
unfolding to_uint64
parse_registers-field fuel f fs regs =
    let found = AreFound-get registers f.place f.name registers-AreFound f.named in
    let line = digits_text f (spaced fs) in
    let plain = found.1 (b':' ∷ b' ' ∷ line) in
    let value = to_uint64 false (number 0 (f.first ∷ f.others)) in
    parse_registers-stores fuel (fields_line f fs) regs f.name value (spaced fs)
      (rw plain (found.0 (b' ' ∷ line)))
      (rw (plain, behind_name-digits f.name f.first (map hex_char f.others ++ spaced fs) f.digits.0)
        (read_value-digits f.first f.others (spaced fs) f.digits (Apart-spaced fs)))

parse_registers-space :
    (fuel : ℕ) (line : Bytes) (regs : List Register)
    → parse_registers fuel (b' ' ∷ line) regs ≡ parse_registers fuel line regs
unfolding parse_registers skip_spaces is_space
parse_registers-space zero line regs = refl
parse_registers-space (suc fuel) line regs = refl

parse_registers-spaced :
    (fuel : ℕ) (fs : List Field) (regs : List Register)
    → length fs < fuel
    → parse_registers fuel (spaced fs) regs ≡ done (stored_all fs regs)
parse_registers-spaced zero fs regs h = elim h [ ]
parse_registers-spaced (suc fuel) [] regs h =
    unfold parse_registers find_register registers skip_spaces str_starts_with_casei is_prefix in
    refl
parse_registers-spaced (suc fuel) (f ∷ fs) regs h =
    parse_registers-space (suc fuel) (fields_line f fs) regs
    ∙ parse_registers-field fuel f fs regs
    ∙ parse_registers-spaced fuel fs (stored f ∷ regs) (omega arith)

pub fields_line-not_other : (f : Field) (fs : List Field) → is_other (fields_line f fs) ≡ false
fields_line-not_other f fs =
    (AreFound-get registers f.place f.name registers-AreFound f.named).2
      (b':' ∷ b' ' ∷ digits_text f (spaced fs))

length-spaced : (fs : List Field) → length fs ≤ length (spaced fs)
length-spaced [] = omega arith
length-spaced (f ∷ fs) = omega (
  arith,
  length-spaced fs,
  length-append f.name (b':' ∷ b' ' ∷ digits_text f (spaced fs)),
  length-append (map hex_char f.others) (spaced fs),
)

-- A line of registers, each as its name in the table, ": " and hexadecimal digits as the kernel prints
-- them, with a space between two: the loop reads every one of them in order, with the number of its
-- digits as the value, but 2 ^ 63 - 1 for every number above it.
pub parse_registers-fields :
    (f : Field) (fs : List Field) (regs : List Register)
    → parse_registers (suc (length (fields_line f fs))) (fields_line f fs) regs
      ≡ done (stored_all (f ∷ fs) regs)
parse_registers-fields f fs regs =
    parse_registers-field (length (fields_line f fs)) f fs regs
    ∙ parse_registers-spaced (length (fields_line f fs)) fs (stored f ∷ regs) (
        omega (
          arith,
          length-spaced fs,
          length-append f.name (b':' ∷ b' ' ∷ digits_text f (spaced fs)),
          length-append (map hex_char f.others) (spaced fs),
        ))
