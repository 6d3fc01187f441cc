-- ===== src/Oops/Numbers.antt =====
-- `strtoll` with base 16, as src/probes/oops_parser.c calls it, and the texts around a number.
use telemetrics_client.Base.{
  ℕ, ◌+◌, ◌-◌, ◌*◌, ◌^◌, ◌%◌, Bool, true, false, ◌&&◌, ◌||◌, [], ◌∷◌, Option, none, some, ltb, leb,
  ◌==◌, if◌then◌else◌,
}
use telemetrics_client.Base.Bytes.{Bytes}
use telemetrics_client.Record.Payload.{is_space}

unfoldable pub skip_spaces : Bytes → Bytes
skip_spaces [] = []
skip_spaces (c ∷ cs) = if is_space c then skip_spaces cs else c ∷ cs

unfoldable pub hex_digit : ℕ → Option ℕ
hex_digit c =
    if leb b'0' c && leb c b'9'
    then some (c - b'0')
    else if leb b'a' c && leb c b'f'
    then some (c - b'a' + 10)
    else if leb b'A' c && leb c b'F'
    then some (c - b'A' + 10)
    else none

-- The number that the digits spell behind `n`, and what follows them.
unfoldable pub hex_from : ℕ → Bytes → ℕ × Bytes
hex_from n [] = (n, [])
hex_from n (c ∷ cs) = elim (hex_digit c) [ none ↦ (n, c ∷ cs) | some d ↦ hex_from (n * 16 + d) cs ]

unfoldable pub starts_digit : Bytes → Bool
unfolding hex_digit
starts_digit [] = false
starts_digit (c ∷ cs) = elim (hex_digit c) [ none ↦ false | some d ↦ true ]

unfoldable pub strip_sign : Bytes → Bool × Bytes
strip_sign [] = (false, [])
strip_sign (c ∷ cs) =
    if c == b'-' then (true, cs) else if c == b'+' then (false, cs) else (false, c ∷ cs)

-- "0x" is a part of the number if a digit follows.
unfoldable pub strip_0x : Bytes → Bytes
unfolding starts_digit
strip_0x (a ∷ b ∷ cs) =
    if a == b'0' && (b == b'x' || b == b'X') && starts_digit cs then cs else a ∷ b ∷ cs
strip_0x s = s

abbrev pub llong_max : ℕ
llong_max = 2 ^ 63 - 1

-- A value outside the range of long long is its nearer end; then the cast to uint64_t.
unfoldable pub to_uint64 : Bool → ℕ → ℕ
to_uint64 false n = if ltb llong_max n then llong_max else n
to_uint64 true n = (2 ^ 64 - (if ltb (2 ^ 63) n then 2 ^ 63 else n)) % 2 ^ 64

unfoldable pub strtoll_digits : Bytes → Bool → Bytes → ℕ × Bytes
unfolding hex_from starts_digit to_uint64
strtoll_digits s minus digits =
    let (n, rest) = hex_from 0 digits in
    if starts_digit digits then (to_uint64 minus n, rest) else (0, s)

-- (uint64_t)strtoll(s, &rest, 16) and `rest`.
unfoldable pub strtoll_16 : Bytes → ℕ × Bytes
unfolding strtoll_digits strip_0x strip_sign skip_spaces
strtoll_16 s =
    let (minus, digits) = strip_sign (skip_spaces s) in strtoll_digits s minus (strip_0x digits)
