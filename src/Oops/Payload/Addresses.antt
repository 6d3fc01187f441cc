-- ===== src/Oops/Payload/Addresses.antt =====
-- src/probes/oops_parser.c: an address with no space behind it leaves nothing for a function name.
use telemetrics_client.Base.{
  ℕ, ◌+◌, ◌*◌, ◌≡◌, inl, inr, refl, false, [], ◌∷◌, ◌==◌, arith, Bool-cases, Option-cases,
}
use telemetrics_client.Base.Bytes.{Bytes}
use telemetrics_client.Oops.Frames.{skip_word, frame_addr}
use telemetrics_client.Oops.Numbers.{
  skip_spaces, hex_digit, hex_from, strip_sign, strip_0x, strtoll_digits, strtoll_16, starts_digit,
}
use telemetrics_client.Record.Payload.{is_space}

abbrev pub NoSpace : Bytes → Type 0
NoSpace [] = Unit
NoSpace (c ∷ cs) = (is_space c ≡ false) × NoSpace cs

NoSpace-skip_spaces : (s : Bytes) → NoSpace s → NoSpace (skip_spaces s)
unfolding skip_spaces
NoSpace-skip_spaces [] h = tt
NoSpace-skip_spaces (c ∷ cs) h = rw h.0 h

NoSpace-hex_from : (n : ℕ) (s : Bytes) → NoSpace s → NoSpace (hex_from n s).1
unfolding hex_from
NoSpace-hex_from n [] h = tt
NoSpace-hex_from n (c ∷ cs) h = elim (Option-cases (hex_digit c)) [
  | inl other ↦ rw (other, hex_from) h
  | inr (d, digit) ↦ rw (digit, hex_from) (NoSpace-hex_from (n * 16 + d) cs h.1)
]

NoSpace-strip_sign : (s : Bytes) → NoSpace s → NoSpace (strip_sign s).1
unfolding strip_sign
NoSpace-strip_sign [] h = tt
NoSpace-strip_sign (c ∷ cs) h = ground (arith, h)

NoSpace-strip_0x : (s : Bytes) → NoSpace s → NoSpace (strip_0x s)
unfolding strip_0x
NoSpace-strip_0x [] h = tt
NoSpace-strip_0x (a ∷ []) h = h
NoSpace-strip_0x (a ∷ b ∷ cs) h = ground (arith, h)

NoSpace-strtoll_16 : (s : Bytes) → NoSpace s → NoSpace (strtoll_16 s).1
unfolding strtoll_16 strtoll_digits
NoSpace-strtoll_16 s h =
    let digits = strip_0x (strip_sign (skip_spaces s)).1 in
    elim (Bool-cases (starts_digit digits)) [
      | inl number ↦ rw number (
          NoSpace-hex_from 0 digits
            (NoSpace-strip_0x _ (NoSpace-strip_sign _ (NoSpace-skip_spaces s h))))
      | inr other ↦ rw other h
    ]

pub skip_word-NoSpace : (s : Bytes) → NoSpace s → skip_word s ≡ []
unfolding skip_word
skip_word-NoSpace [] h = refl
skip_word-NoSpace (c ∷ cs) h = rw h.0 (skip_word-NoSpace cs h.1)

pub frame_addr-NoSpace : (s : Bytes) → NoSpace s → NoSpace (frame_addr s).1
unfolding frame_addr
frame_addr-NoSpace [] h = tt
frame_addr-NoSpace (c ∷ cs) h = elim (Bool-cases (c == b'<')) [
  | inl number ↦ rw number (NoSpace-strtoll_16 cs h.1)
  | inr other ↦ rw other h
]
