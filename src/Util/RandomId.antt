-- ===== src/Util/RandomId.antt =====
-- src/util.c: random ids.
use telemetrics_client.Base.{
  ℕ, zero, suc, ◌+◌, ◌*◌, ◌/◌, ◌%◌, ◌≤◌, ◌≡◌, ◌⊎◌, refl, ap, ◌∙◌, true, [], ◌∷◌, ◌++◌, Option, none,
  some, ◌==◌, if◌then◌else◌, if_cases, inl, inr, sym, length, length-append, take, drop, arith,
}
use telemetrics_client.Base.Bytes.{Bytes, hex_char}
use telemetrics_client.Common.{event_id_alphab}
use telemetrics_client.Util.{is_member, span_length}

-- "%.*x" of a number with at most so many digits.
unfoldable pub hex_digits : ℕ → ℕ → Bytes
hex_digits zero n = []
hex_digits (suc k) n = hex_digits k (n / 16) ++ hex_char (n % 16) ∷ []

-- The uint64_t of eight bytes in memory.
unfoldable pub from_le : Bytes → ℕ
from_le [] = 0
from_le (b ∷ bs) = b + 256 * from_le bs

-- With what `read` gives of /dev/urandom for 16 bytes; none if it does not open.
unfoldable pub get_random_id : Option Bytes → Option Bytes
unfolding hex_digits from_le
get_random_id none = none
get_random_id (some bytes) =
    if length bytes == 16
    then some (hex_digits 16 (from_le (take 8 bytes)) ++ hex_digits 16 (from_le (drop 8 bytes)))
    else none

-- Only digits and letters from a to f.
abbrev pub AreHex : Bytes → Type 0
AreHex [] = Unit
AreHex (c ∷ cs) = (((b'0' ≤ c) × (c ≤ b'9')) ⊎ ((b'a' ≤ c) × (c ≤ b'f'))) × AreHex cs

AreHex-append : (s t : Bytes) → AreHex s → AreHex t → AreHex (s ++ t)
AreHex-append [] t h k = k
AreHex-append (c ∷ s) t h k = (h.0, AreHex-append s t h.1 k)

length-hex_digits : (k n : ℕ) → length (hex_digits k n) ≡ k
unfolding hex_digits
length-hex_digits zero n = refl
length-hex_digits (suc k) n =
    length-append (hex_digits k (n / 16)) _ ∙ omega (arith, length-hex_digits k (n / 16))

hex_digits-AreHex : (k n : ℕ) → AreHex (hex_digits k n)
unfolding hex_digits
hex_digits-AreHex zero n = tt
hex_digits-AreHex (suc k) n =
    AreHex-append (hex_digits k (n / 16)) _ (hex_digits-AreHex k (n / 16)) (ground arith)

-- All of it is in the alphabet of event ids.
pub span_length-AreHex : (s : Bytes) → AreHex s → span_length s event_id_alphab ≡ length s
unfolding span_length
span_length-AreHex [] h = refl
span_length-AreHex (c ∷ cs) h =
    let inside : is_member c event_id_alphab ≡ true = unfold is_member in ground (arith, h.0) in
    rw inside (ap suc (span_length-AreHex cs h.1))

-- A random id has 32 digits.
pub get_random_id_valid :
    (urandom : Option Bytes) (id : Bytes)
    → get_random_id urandom ≡ some id
    → AreHex id × (length id ≡ 32)
unfolding get_random_id
get_random_id_valid none id e = absurd cc
get_random_id_valid (some bytes) id e = elim (if_cases (length bytes == 16) e) [
  | inr (_, short) ↦ absurd cc
  | inl (_, whole) ↦
      let m = from_le (take 8 bytes) in
      let n = from_le (drop 8 bytes) in
      let same : hex_digits 16 m ++ hex_digits 16 n ≡ id = cc in
      rw (sym same) (
        AreHex-append (hex_digits 16 m) (hex_digits 16 n) (hex_digits-AreHex 16 m)
            (hex_digits-AreHex 16 n),
        omega (
          arith,
          length-append (hex_digits 16 m) (hex_digits 16 n),
          length-hex_digits 16 m,
          length-hex_digits 16 n,
        ),
      )
]
