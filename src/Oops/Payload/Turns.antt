-- ===== src/Oops/Payload/Turns.antt =====
-- Each turn of the loop over the registers of a line goes on behind the name of a register.
use telemetrics_client.Base.{
  ℕ, zero, suc, ◌-◌, ◌≤◌, ◌<◌, sym, if_cases, ◌≡◌, inl, inr, refl, Bool, true, false, List, [], ◌∷◌,
  some, not, ◌&&◌, if◌then◌else◌, ◌==◌, length, drop, length-drop, arith, Option-cases, length-map,
  map,
}
use telemetrics_client.Base.Bytes.{Bytes, codes, is_prefix}
use telemetrics_client.Base.Run.{done}
use telemetrics_client.Configuration.{to_lower}
use telemetrics_client.Oops.{str_starts_with_casei}
use telemetrics_client.Oops.Numbers.{skip_spaces, strtoll_16}
use telemetrics_client.Oops.Registers.{
  Register, RegisterTurn, ends, skips, stores, registers, find_register, skip_colon, from_byte,
  behind_segment, in_parentheses, in_angles, in_brackets, is_at, close_value, read_value,
  behind_name, parse_registers, head_is,
}
use telemetrics_client.Record.Payload.{is_space}
use telemetrics_client.Oops.Payload.Lengths.{
  length-skip_spaces, length-strtoll_16, length-skip_colon, length-skip_space, length-from_byte,
}

-- What the turn goes on with has at most `n` bytes.
abbrev Within : ℕ → RegisterTurn → Type 0
Within n ends = Unit
Within n (skips rest) = length rest ≤ n
Within n (stores value rest) = length rest ≤ n

Within-if :
    (n : ℕ) (b : Bool) (t u : RegisterTurn)
    → Within n t
    → Within n u
    → Within n (if b then t else u)
Within-if n true t u h k = h
Within-if n false t u h k = k

Within-in_parentheses : (n value : ℕ) (s : Bytes) → length s ≤ n → Within n (in_parentheses value s)
unfolding in_parentheses
Within-in_parentheses n value [] h = tt
Within-in_parentheses n value (c ∷ cs) h = h

Within-in_angles : (n value : ℕ) (s : Bytes) → length s ≤ n → Within n (in_angles value s)
unfolding in_angles
Within-in_angles n value [] h = h
Within-in_angles n value (c ∷ cs) h = ground (arith, h)

Within-in_brackets : (n value : ℕ) (s : Bytes) → length s ≤ n → Within n (in_brackets value s)
unfolding in_brackets
Within-in_brackets n value s h = ground (arith, h, length-drop 2 s)

Within-is_at : (n value : ℕ) (s : Bytes) → Within n (is_at value s)
unfolding is_at
Within-is_at n value [] = omega arith
Within-is_at n value (c ∷ cs) = omega arith

Within-close_value : (n value : ℕ) (s : Bytes) → length s ≤ n → Within n (close_value value s)
unfolding close_value
Within-close_value n value [] h = h
Within-close_value n value (c ∷ cs) h =
    Within-if n (c == b'(') _ _
      (Within-in_parentheses n value (from_byte b')' (c ∷ cs))
        (omega (arith, h, length-from_byte b')' (c ∷ cs))))
      (Within-if n (c == b'<') _ _
        (Within-in_angles n (strtoll_16 cs).0 (strtoll_16 cs).1
          (omega (arith, h, length-strtoll_16 cs)))
        (Within-if n (c == b'[' && head_is b'<' cs) _ _
          (Within-in_brackets n (strtoll_16 (c ∷ cs)).0 (strtoll_16 (c ∷ cs)).1
            (omega (arith, h, length-strtoll_16 (c ∷ cs))))
          (Within-if n (is_prefix (codes "is at") (c ∷ cs)) _ _
            (Within-is_at n value (from_byte b'+' (c ∷ cs)))
            (Within-if n (not (is_space c)) _ _ h h))))

Within-behind_segment :
    (n value : ℕ) (s : Bytes) → length s ≤ n → length (behind_segment value s).1 ≤ n
unfolding behind_segment
Within-behind_segment n value [] h = h
Within-behind_segment n value (c ∷ cs) h = ground (arith, h, length-strtoll_16 cs)

Within-read_value : (n : ℕ) (s : Bytes) → length s ≤ n → Within n (read_value s)
unfolding read_value
Within-read_value n [] h = tt
Within-read_value n (c ∷ cs) h = Within-close_value n _ _ (
    Within-behind_segment n (strtoll_16 (c ∷ cs)).0 (strtoll_16 (c ∷ cs)).1
      (omega (arith, h, length-strtoll_16 (c ∷ cs))))

length-is_prefix : (p s : Bytes) → is_prefix p s ≡ true → length p ≤ length s
unfolding is_prefix
length-is_prefix [] s h = omega arith
length-is_prefix (d ∷ p) [] h = cc
length-is_prefix (d ∷ p) (c ∷ s) h = ground (arith, length-is_prefix p s)

abbrev AreNamed : List Bytes → Type 0
AreNamed [] = Unit
AreNamed (name ∷ names) = (1 ≤ length name) × AreNamed names

registers-AreNamed : AreNamed registers
unfolding registers
registers-AreNamed = omega arith

find_register_found :
    (names : List Bytes) (line : Bytes) {name : Bytes}
    → AreNamed names
    → find_register names line ≡ some name
    → (1 ≤ length name) × (length name ≤ length line)
unfolding find_register str_starts_with_casei
find_register_found [] line named e = cc
find_register_found (n ∷ names) line {name} named e =
    elim (if_cases (is_prefix (map to_lower n) (map to_lower line)) e) [
      | inl (starts, same) ↦
          let eq : n ≡ name = cc in
          rw (sym eq) (
            omega (
              arith,
              named.0,
              length-is_prefix (map to_lower n) (map to_lower line) starts,
              length-map n to_lower,
              length-map line to_lower,
            ))
      | inr (_, later) ↦ find_register_found names line named.1 later
    ]

-- Behind the name of a register a turn has fewer bytes than before it.
pub Within-turn :
    (line name : Bytes)
    → find_register registers (skip_spaces line) ≡ some name
    → (1 ≤ length line)
      × Within (length line - 1) (read_value (behind_name name (skip_spaces line)))
unfolding behind_name
Within-turn line name e =
    let (one, fits) = find_register_found registers (skip_spaces line) registers-AreNamed e in
    (
      omega (arith, one, fits, length-skip_spaces line),
      Within-read_value (length line - 1) (behind_name name (skip_spaces line)) (
          omega (
            arith,
            one,
            fits,
            length-skip_space (skip_colon (drop (length name) (skip_spaces line))),
            length-skip_colon (drop (length name) (skip_spaces line)),
            length-drop (length name) (skip_spaces line),
            length-skip_spaces line,
          )),
    )

turn_cases :
    (fuel n : ℕ) (name : Bytes) (t : RegisterTurn) (regs : List Register)
    → Within n t
    → ((rest : Bytes) (rs : List Register)
        → length rest ≤ n
        → (r : List Register) × (parse_registers fuel rest rs ≡ done r))
    → (r : List Register) × (elim t [
      | ends ↦ done regs
      | skips rest ↦ parse_registers fuel rest regs
      | stores value rest ↦
          parse_registers fuel rest (record { reg_name = name; reg_value = value } ∷ regs)
    ]
        ≡ done r)
turn_cases fuel n name ends regs h go = (regs, refl)
turn_cases fuel n name (skips rest) regs h go = go rest regs h
turn_cases fuel n name (stores value rest) regs h go =
    go rest (record { reg_name = name; reg_value = value } ∷ regs) h

-- The loop over the registers of a line ends, with one turn more than the line has bytes at most:
-- every turn goes on behind the name that it found.
pub parse_registers_returns :
    (fuel : ℕ) (line : Bytes) (regs : List Register)
    → length line < fuel
    → (r : List Register) × (parse_registers fuel line regs ≡ done r)
unfolding parse_registers
parse_registers_returns zero line regs h = elim h [ ]
parse_registers_returns (suc fuel) line regs h =
    elim (Option-cases (find_register registers (skip_spaces line))) [
      | inl none_is ↦ (regs, rw (none_is, parse_registers) refl)
      | inr (name, found) ↦
          let (some_left, within) = Within-turn line name found in
          rw (found, parse_registers)
            (turn_cases fuel (length line - 1) name
              (read_value (behind_name name (skip_spaces line))) regs within
              (λ rest rs shorter.
                parse_registers_returns fuel rest rs (omega (arith, shorter, some_left, h))))
    ]
