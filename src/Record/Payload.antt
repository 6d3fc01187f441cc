-- ===== src/Record/Payload.antt =====
-- src/telemetry.c: `tm_set_payload`, and that it keeps a record sound. Allocation succeeds.
use telemetrics_client.Base.{
  ℕ, zero, ◌≤◌, ◌≡◌, ◌↔◌, ◌⊎◌, inl, inr, refl, Bool, true, false, not, ◌&&◌, ◌||◌, List, [], ◌∷◌,
  ltb, leb, ◌==◌, if◌then◌else◌, length, arith, Bool-cases,
}
use telemetrics_client.Base.Bytes.{Bytes, Lacks}
use telemetrics_client.Base.Int.{ℤ, pos, negsuc}
use telemetrics_client.Common.{max_payload_length}
use telemetrics_client.Record.Packets.{IsSound}
use telemetrics_client.Record.Wire.{TelemRecord}

-- isprint and isspace in the C locale, false for a negative char.
unfoldable pub is_print : ℕ → Bool
is_print c = leb 32 c && leb c 126

unfoldable pub is_space : ℕ → Bool
is_space c = c == 32 || (leb 9 c && leb c 13)

-- -EINVAL
abbrev pub minus_einval : ℤ
minus_einval = negsuc 21

unfoldable pub payload_is_ascii : Bytes → ℤ
payload_is_ascii [] = pos 0
payload_is_ascii (c ∷ cs) =
    let rest = payload_is_ascii cs in
    if not (is_print c) && not (is_space c) then minus_einval else rest

is_nonzero : ℤ → Bool
is_nonzero (pos zero) = false
is_nonzero _ = true

unfoldable pub tm_set_payload : Bytes → TelemRecord → ℤ × TelemRecord
unfolding is_nonzero
tm_set_payload payload r =
    if ltb max_payload_length (length payload)
    then (minus_einval, r)
    else if is_nonzero (payload_is_ascii payload)
    then (minus_einval, r)
    else (pos 0, record r { payload = payload; payload_size = length payload })

-- A text that is taken is the payload, and the headers stay.
pub tm_set_payload_taken :
    (payload : Bytes) (r s : TelemRecord)
    → tm_set_payload payload r ≡ (pos 0, s)
    → s ≡ record r { payload = payload; payload_size = length payload }
unfolding tm_set_payload
tm_set_payload_taken payload r s e = elim (Bool-cases (ltb max_payload_length (length payload))) [
  | inl long ↦ absurd (ground (arith, e, long))
  | inr short ↦ elim (Bool-cases (is_nonzero (payload_is_ascii payload))) [
    | inl strange ↦ absurd (ground (arith, e, short, strange))
    | inr fine ↦
        let whole : tm_set_payload payload r
            ≡ (pos 0, record r { payload = payload; payload_size = length payload }) =
          rw (short, fine) refl in
        cc
  ]
]

-- Printable characters and white space.
abbrev pub IsText : Bytes → Type 0
IsText [] = Unit
IsText (c ∷ cs) = (((32 ≤ c) × (c ≤ 126)) ⊎ ((9 ≤ c) × (c ≤ 13))) × IsText cs

payload_is_ascii_iff :
    (s : Bytes)
    → ((payload_is_ascii s ≡ pos 0) × IsText s)
      ⊎ ((payload_is_ascii s ≡ minus_einval) × (IsText s → ⊥))
unfolding payload_is_ascii is_print is_space
payload_is_ascii_iff [] = inl (refl, tt)
payload_is_ascii_iff (c ∷ cs) = elim (Bool-cases (not (is_print c) && not (is_space c))) [
  | inl strange ↦ inr (ground arith, λ h. ground (arith, h.0, strange))
  | inr fine ↦ elim (payload_is_ascii_iff cs) [
    | inl (zero_is, texts) ↦ inl (ground (arith, zero_is, fine), (ground (arith, fine), texts))
    | inr (einval_is, none) ↦ inr (ground (arith, einval_is, fine), λ h. none h.1)
  ]
]

pub tm_set_payload_takes :
    (payload : Bytes) (r : TelemRecord)
    → length payload ≤ 8192
    → IsText payload
    → tm_set_payload payload r
      ≡ (pos 0, record r { payload = payload; payload_size = length payload })
unfolding tm_set_payload
tm_set_payload_takes payload r short texts = elim (payload_is_ascii_iff payload) [
  | inl (zero_is, _) ↦
      let fits : ltb 8192 (length payload) ≡ false = ground (arith, short) in
      rw (fits, zero_is) refl
  | inr (_, strange) ↦ absurd (strange texts)
]

-- tm_set_payload with a C string keeps a sound record sound, whether it accepts the text or not; it
-- returns 0 exactly when the text has at most 8192 bytes, all of them printable or white space, and
-- otherwise leaves the record as it is.
pub tm_set_payload-IsSound :
    (payload : Bytes) (r : TelemRecord) (hs : List Bytes)
    → Lacks 0 payload
    → IsSound r hs
    → IsSound (tm_set_payload payload r).1 hs
      × (((tm_set_payload payload r).0 ≡ pos 0) ↔ ((length payload ≤ 8192) × IsText payload))
      × (((tm_set_payload payload r).0 ≡ pos 0) ⊎ ((tm_set_payload payload r).1 ≡ r))
unfolding tm_set_payload
tm_set_payload-IsSound payload r hs l s = elim (Bool-cases (ltb 8192 (length payload))) [
  | inl long ↦ rw long (s, (λ h. absurd cc, λ h. absurd (ground (arith, long, h.0))), inr refl)
  | inr short ↦ elim (payload_is_ascii_iff payload) [
    | inl (zero_is, texts) ↦
        rw (short, zero_is)
          (
            record {
              lines = s.lines;
              named = s.named;
              header_size = s.header_size;
              payload_size = refl;
              payload_text = l;
            },
            (λ h. (ground (arith, short), texts), λ h. refl),
            inl refl,
          )
    | inr (einval_is, strange) ↦
        rw (short, einval_is) (s, (λ h. absurd cc, λ h. absurd (strange h.1)), inr refl)
  ]
]
