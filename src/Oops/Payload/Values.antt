-- ===== src/Oops/Payload/Values.antt =====
-- src/probes/oops_parser.c: what strtoll reads from the digits of a register.
use telemetrics_client.Base.{
  ℕ, ◌+◌, ◌*◌, ◌<◌, ◌≡◌, refl, true, false, List, [], ◌∷◌, ◌++◌, some, map, arith,
}
use telemetrics_client.Base.Bytes.{hex_char, Bytes, is_prefix}
use telemetrics_client.Oops.Numbers.{
  skip_spaces, hex_digit, hex_from, strip_sign, strip_0x, strtoll_digits, strtoll_16, starts_digit,
  to_uint64,
}
use telemetrics_client.Oops.Registers.{stores, behind_segment, close_value, read_value}
use telemetrics_client.Record.Payload.{is_space}

abbrev pub AreDigits : List ℕ → Type 0
AreDigits [] = Unit
AreDigits (d ∷ ds) = (d < 16) × AreDigits ds

-- The number of the digits behind `n`.
abbrev pub number : ℕ → List ℕ → ℕ
number n [] = n
number n (d ∷ ds) = number (n * 16 + d) ds

-- The text ends, or a space follows.
abbrev pub Apart : Bytes → Type 0
Apart [] = Unit
Apart (c ∷ cs) = c ≡ b' '

hex_digit-hex_char : (d : ℕ) → d < 16 → hex_digit (hex_char d) ≡ some d
unfolding hex_digit
hex_digit-hex_char d h = ground arith

hex_from-digits :
    (n : ℕ) (ds : List ℕ) (rest : Bytes)
    → AreDigits ds
    → Apart rest
    → hex_from n (map hex_char ds ++ rest) ≡ (number n ds, rest)
unfolding hex_from
hex_from-digits n [] [] h a = refl
hex_from-digits n [] (c ∷ cs) h a = rw a (unfold hex_digit in refl)
hex_from-digits n (d ∷ ds) rest h a =
    rw (hex_digit-hex_char d h.0, hex_from) (hex_from-digits (n * 16 + d) ds rest h.1 a)

skip_spaces-digits : (d : ℕ) (s : Bytes) → d < 16 → skip_spaces (hex_char d ∷ s) ≡ hex_char d ∷ s
unfolding skip_spaces is_space
skip_spaces-digits d s h = ground arith

strip_sign-digits :
    (d : ℕ) (s : Bytes) → d < 16 → strip_sign (hex_char d ∷ s) ≡ (false, hex_char d ∷ s)
unfolding strip_sign
strip_sign-digits d s h = ground arith

strip_0x-digits :
    (d : ℕ) (ds : List ℕ) (rest : Bytes)
    → AreDigits ds
    → Apart rest
    → strip_0x (hex_char d ∷ (map hex_char ds ++ rest)) ≡ hex_char d ∷ (map hex_char ds ++ rest)
unfolding strip_0x
strip_0x-digits d [] [] h a = refl
strip_0x-digits d [] (c ∷ cs) h a = ground (arith, a)
strip_0x-digits d (e ∷ ds) rest h a = ground (arith, h.0)

starts_digit-digits : (d : ℕ) (s : Bytes) → d < 16 → starts_digit (hex_char d ∷ s) ≡ true
unfolding starts_digit
starts_digit-digits d s h = rw (hex_digit-hex_char d h, starts_digit) refl

strtoll_16-digits :
    (d : ℕ) (ds : List ℕ) (rest : Bytes)
    → AreDigits (d ∷ ds)
    → Apart rest
    → strtoll_16 (hex_char d ∷ (map hex_char ds ++ rest))
      ≡ (to_uint64 false (number 0 (d ∷ ds)), rest)
unfolding strtoll_16 strtoll_digits
strtoll_16-digits d ds rest h a =
    rw
      (
        skip_spaces-digits d (map hex_char ds ++ rest) h.0,
        strip_sign-digits d (map hex_char ds ++ rest) h.0,
        strip_0x-digits d ds rest h.1 a,
        starts_digit-digits d (map hex_char ds ++ rest) h.0,
        hex_from-digits 0 (d ∷ ds) rest h a,
      )
      refl

close_value-Apart :
    (value : ℕ) (rest : Bytes) → Apart rest → close_value value rest ≡ stores value rest
unfolding close_value is_prefix is_space
close_value-Apart value [] a = refl
close_value-Apart value (c ∷ cs) a = rw a refl

behind_segment-Apart :
    (value : ℕ) (rest : Bytes) → Apart rest → behind_segment value rest ≡ (value, rest)
unfolding behind_segment
behind_segment-Apart value [] a = refl
behind_segment-Apart value (c ∷ cs) a = rw a refl

pub read_value-digits :
    (d : ℕ) (ds : List ℕ) (rest : Bytes)
    → AreDigits (d ∷ ds)
    → Apart rest
    → read_value (hex_char d ∷ (map hex_char ds ++ rest))
      ≡ stores (to_uint64 false (number 0 (d ∷ ds))) rest
unfolding read_value
read_value-digits d ds rest h a =
    rw
      (
        strtoll_16-digits d ds rest h a,
        behind_segment-Apart (to_uint64 false (number 0 (d ∷ ds))) rest a,
      )
      (close_value-Apart (to_uint64 false (number 0 (d ∷ ds))) rest a)
