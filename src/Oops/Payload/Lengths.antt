-- ===== src/Oops/Payload/Lengths.antt =====
-- src/probes/oops_parser.c: what is left of a line behind a number or a byte is no longer than it.
use telemetrics_client.Base.{
  ℕ, ◌+◌, ◌≤◌, inl, inr, [], ◌∷◌, ◌*◌, length, arith, Bool-cases, Option-cases,
}
use telemetrics_client.Base.Bytes.{Bytes}
use telemetrics_client.Oops.{skip_space}
use telemetrics_client.Oops.Numbers.{
  skip_spaces, hex_digit, hex_from, strip_sign, strip_0x, strtoll_digits, strtoll_16, starts_digit,
}
use telemetrics_client.Oops.Registers.{skip_colon, from_byte}

pub length-skip_spaces : (s : Bytes) → length (skip_spaces s) ≤ length s
unfolding skip_spaces
length-skip_spaces [] = omega arith
length-skip_spaces (c ∷ cs) = ground (arith, length-skip_spaces cs)

length-hex_from : (n : ℕ) (s : Bytes) → length (hex_from n s).1 ≤ length s
unfolding hex_from
length-hex_from n [] = omega arith
length-hex_from n (c ∷ cs) = elim (Option-cases (hex_digit c)) [
  | inl other ↦ rw (other, hex_from) (omega arith)
  | inr (d, digit) ↦ rw (digit, hex_from) (omega (arith, length-hex_from (n * 16 + d) cs))
]

length-strip_sign : (s : Bytes) → length (strip_sign s).1 ≤ length s
unfolding strip_sign
length-strip_sign [] = omega arith
length-strip_sign (c ∷ cs) = ground arith

length-strip_0x : (s : Bytes) → length (strip_0x s) ≤ length s
unfolding strip_0x
length-strip_0x [] = omega arith
length-strip_0x (a ∷ []) = omega arith
length-strip_0x (a ∷ b ∷ cs) = ground arith

-- The rest of the text is no longer than the text.
pub length-strtoll_16 : (s : Bytes) → length (strtoll_16 s).1 ≤ length s
unfolding strtoll_16 strtoll_digits
length-strtoll_16 s = elim (Bool-cases (starts_digit (strip_0x (strip_sign (skip_spaces s)).1))) [
  | inl number ↦ rw number (
      omega (
        arith,
        length-hex_from 0 (strip_0x (strip_sign (skip_spaces s)).1),
        length-strip_0x (strip_sign (skip_spaces s)).1,
        length-strip_sign (skip_spaces s),
        length-skip_spaces s,
      ))
  | inr other ↦ rw other (omega arith)
]

pub length-skip_colon : (s : Bytes) → length (skip_colon s) ≤ length s
unfolding skip_colon
length-skip_colon [] = omega arith
length-skip_colon (c ∷ cs) = ground arith

pub length-skip_space : (s : Bytes) → length (skip_space s) ≤ length s
unfolding skip_space
length-skip_space [] = omega arith
length-skip_space (c ∷ cs) = ground arith

pub length-from_byte : (b : ℕ) (s : Bytes) → length (from_byte b s) ≤ length s
unfolding from_byte
length-from_byte b [] = omega arith
length-from_byte b (c ∷ cs) = ground (arith, length-from_byte b cs)
