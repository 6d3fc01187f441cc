-- ===== src/Journal/RoundTrip.antt =====
-- An entry that was serialized is parsed back.
use mathlib.Core.List.{append_assoc}
use native.Mathlib.Nat.{pow-suc}
use telemetrics_client.Base.{
  ℕ, zero, suc, ◌+◌, ◌-◌, ◌*◌, ◌/◌, ◌%◌, ◌^◌, ◌≤◌, ◌<◌, ◌≡◌, refl, true, false, ◌&&◌, ◌||◌, [], ◌∷◌,
  ◌++◌, some, ltb, leb, ◌==◌, arith, Bool-cases, inl, inr,
}
use telemetrics_client.Base.Bytes.{Bytes, Lacks}
use telemetrics_client.Journal.{
  JournalEntry, digits, decimal, separator, serialize_journal_entry, atoll_from, cut_field,
  parse_fields, deserialize_journal_entry,
}

-- Only decimal digits.
abbrev AreDigits : Bytes → Type 0
AreDigits [] = Unit
AreDigits (c ∷ cs) = (b'0' ≤ c) × (c ≤ b'9') × AreDigits cs

AreDigits-append : (s t : Bytes) → AreDigits s → AreDigits t → AreDigits (s ++ t)
AreDigits-append [] t h k = k
AreDigits-append (c ∷ s) t h k = (h.0, h.1, AreDigits-append s t h.2 k)

digits-AreDigits : (fuel n : ℕ) → AreDigits (digits fuel n)
unfolding digits
digits-AreDigits zero n = tt
digits-AreDigits (suc fuel) n = elim (Bool-cases (ltb n 10)) [
  | inl one ↦ rw one (ground arith)
  | inr many ↦ rw many (AreDigits-append _ _ (digits-AreDigits fuel (n / 10)) (ground arith))
]

AreDigits-Lacks : (b : ℕ) (s : Bytes) → b < b'0' → AreDigits s → Lacks b s
AreDigits-Lacks b [] h d = tt
AreDigits-Lacks b (c ∷ s) h d = (omega arith, AreDigits-Lacks b s h d.2)

atoll_from-append :
    (value : ℕ) (s t : Bytes)
    → AreDigits s
    → atoll_from value (s ++ t) ≡ atoll_from (atoll_from value s) t
unfolding atoll_from
atoll_from-append value [] t d = refl
atoll_from-append value (c ∷ s) t d =
    let digit : (leb b'0' c && leb c b'9') ≡ true = ground arith in
    rw digit (atoll_from-append (value * 10 + (c - b'0')) s t d.2)

atoll_from-digits : (fuel n : ℕ) → n < 10 ^ fuel → atoll_from 0 (digits fuel n) ≡ n
unfolding digits atoll_from
atoll_from-digits zero n h = omega arith
atoll_from-digits (suc fuel) n h = elim (Bool-cases (ltb n 10)) [
  | inl one ↦ rw one (ground arith)
  | inr many ↦
      let smaller : n / 10 < 10 ^ fuel = omega (arith, pow-suc 10 fuel) in
      rw
        (
          many,
          atoll_from-append 0 (digits fuel (n / 10)) ((b'0' + n % 10) ∷ [])
              (digits-AreDigits fuel (n / 10)),
          atoll_from-digits fuel (n / 10) smaller,
        )
        (ground arith)
]

-- A text that may stand in a field of an entry.
pub record IsField (s : Bytes) : Type 0 where
  pub no_separator : Lacks separator s
  pub no_newline : Lacks b'\n' s
  pub no_nul : Lacks 0 s

cut_field-mark :
    (s rest : Bytes) (mark : ℕ)
    → IsField s
    → ((mark == separator) || (mark == b'\n')) ≡ true
    → cut_field (s ++ mark ∷ rest) ≡ (s, some rest)
unfolding cut_field
cut_field-mark [] rest mark f m = rw m
cut_field-mark (c ∷ s) rest mark f m =
    let later : cut_field (s ++ mark ∷ rest) ≡ (s, some rest) =
      cut_field-mark s rest mark
        (record {
          no_separator = f.no_separator.1;
          no_newline = f.no_newline.1;
          no_nul = f.no_nul.1;
        })
        m in
    let plain : (c == separator || c == b'\n') ≡ false =
      ground (arith, f.no_separator.0, f.no_newline.0) in
    rw (later, plain)

pub record IsEntry (e : JournalEntry) : Type 0 where
  pub record_id : IsField e.record_id
  pub timestamp : e.timestamp < 2 ^ 63
  pub classification : IsField e.classification
  pub event_id : IsField e.event_id
  pub boot_id : IsField e.boot_id

pub decimal-IsField : (n : ℕ) → IsField (decimal n)
unfolding decimal
decimal-IsField n = record {
  no_separator = AreDigits-Lacks separator (digits 20 n) (omega arith) (digits-AreDigits 20 n);
  no_newline = AreDigits-Lacks b'\n' (digits 20 n) (omega arith) (digits-AreDigits 20 n);
  no_nul = AreDigits-Lacks 0 (digits 20 n) (omega arith) (digits-AreDigits 20 n);
}

atoll_from-decimal : (n : ℕ) → n < 10 ^ 20 → atoll_from 0 (decimal n) ≡ n
unfolding decimal
atoll_from-decimal n h = atoll_from-digits 20 n h

-- The line of an entry, as `save_entry` writes it.
unfoldable pub entry_line : JournalEntry → Bytes
entry_line e = serialize_journal_entry e ++ b'\n' ∷ []

entry_line-split :
    (e : JournalEntry)
    → entry_line e
      ≡ e.record_id
        ++ (separator
            ∷ (decimal e.timestamp
                ++ (separator
                    ∷ (e.classification
                        ++ (separator ∷ (e.event_id ++ (separator ∷ (e.boot_id ++ b'\n' ∷ []))))))))
unfolding entry_line serialize_journal_entry
entry_line-split e = simp append_assoc

parse_fields-entry : (e : JournalEntry) → IsEntry e → parse_fields (entry_line e) ≡ some e
unfolding parse_fields
parse_fields-entry e i =
    let small : e.timestamp < 10 ^ 20 = omega (arith, i.timestamp) in
    rw (entry_line-split e) (
      rw (
        cut_field-mark e.record_id _ separator i.record_id refl,
        cut_field-mark (decimal e.timestamp) _ separator (decimal-IsField e.timestamp) refl,
        cut_field-mark e.classification _ separator i.classification refl,
        cut_field-mark e.event_id _ separator i.event_id refl,
        cut_field-mark e.boot_id [] b'\n' i.boot_id refl,
        atoll_from-decimal e.timestamp small,
      ))

parse_fields-deserialize :
    (s : Bytes) (e : JournalEntry)
    → parse_fields s ≡ some e
    → deserialize_journal_entry (some s) ≡ some e
unfolding deserialize_journal_entry parse_fields cut_field
parse_fields-deserialize [] e h = cc
parse_fields-deserialize (c ∷ cs) e h = h

-- An entry whose texts hold no separator, newline or NUL is read back from its line unchanged.
pub deserialize-entry_line :
    (e : JournalEntry) → IsEntry e → deserialize_journal_entry (some (entry_line e)) ≡ some e
deserialize-entry_line e i = parse_fields-deserialize (entry_line e) e (parse_fields-entry e i)
