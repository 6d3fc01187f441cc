-- ===== src/Journal.antt =====
-- src/journal/journal.c: the journal of records, one line to an entry.
-- The journal file is given by its bytes; `time_t` values are natural numbers, and `%lld` prints
-- at most twenty digits of them.
pub mod RoundTrip
pub mod Store
pub mod Files
pub mod Prune
pub mod Append
pub mod Print
use telemetrics_client.Base.{
  ℕ, zero, suc, ◌+◌, ◌-◌, ◌*◌, ◌/◌, ◌%◌, Bool, true, false, ◌&&◌, ◌||◌, List, [], ◌∷◌, ◌++◌, Option,
  none, some, ltb, leb, ◌==◌, if◌then◌else◌,
}
use telemetrics_client.Base.Bytes.{Bytes, push_byte}

pub record JournalEntry : Type 0 where
  pub record_id : Bytes
  pub timestamp : ℕ
  pub classification : Bytes
  pub event_id : Bytes
  pub boot_id : Bytes

-- "%lld" with `fuel` digits at most.
unfoldable pub digits : ℕ → ℕ → Bytes
digits zero n = []
digits (suc fuel) n =
    let more = digits fuel (n / 10) ++ (b'0' + n % 10) ∷ [] in
    if ltb n 10 then (b'0' + n) ∷ [] else more

unfoldable pub decimal : ℕ → Bytes
unfolding digits
decimal n = digits 20 n

-- The record separator, '\036'.
abbrev pub separator : ℕ
separator = 0x1e

unfoldable pub serialize_journal_entry : JournalEntry → Bytes
serialize_journal_entry e =
    e.record_id
    ++ (separator
        ∷ (decimal e.timestamp
            ++ (separator
                ∷ (e.classification ++ (separator ∷ (e.event_id ++ (separator ∷ e.boot_id)))))))

-- `atoll` on the digits; a text that starts with a space or a sign does not come from `decimal`.
pub atoll_from : ℕ → Bytes → ℕ
atoll_from value [] = value
atoll_from value (c ∷ cs) =
    let rest = atoll_from (value * 10 + (c - b'0')) cs in
    if leb b'0' c && leb c b'9' then rest else value

-- One round of the loop: the field, and the rest behind its separator; `none` is the case that the
-- offset lies past the end.
unfoldable pub cut_field : Bytes → Bytes × Option Bytes
cut_field [] = ([], none)
cut_field (c ∷ cs) =
    let (field, rest) = cut_field cs in
    if c == separator || c == b'\n' then ([], some cs) else (c ∷ field, rest)

next_field : Option Bytes → Option (Bytes × Option Bytes)
next_field none = none
next_field (some s) = some (cut_field s)

infixl 5 ◌>>=◌
abbrev ◌>>=◌ : {A B : Type 0} → Option A → (A → Option B) → Option B
none >>= f = none
some a >>= f = f a

unfoldable pub parse_fields : Bytes → Option JournalEntry
unfolding next_field
parse_fields s = do
  (record_id, after_id) ← next_field (some s)
  (timestamp, after_time) ← next_field after_id
  (classification, after_class) ← next_field after_time
  (event_id, after_event) ← next_field after_class
  (boot_id, _) ← next_field after_event
  some (record {
    record_id = record_id;
    timestamp = atoll_from 0 timestamp;
    classification = classification;
    event_id = event_id;
    boot_id = boot_id;
  })

-- The line is a C string; `none` is the result -1.
unfoldable pub deserialize_journal_entry : Option Bytes → Option JournalEntry
deserialize_journal_entry none = none
deserialize_journal_entry (some []) = none
deserialize_journal_entry (some (c ∷ cs)) = parse_fields (c ∷ cs)

-- The lines that `getline` returns one after the other, each with its newline.
unfoldable pub get_lines : Bytes → List Bytes
unfolding push_byte
get_lines [] = []
get_lines (c ∷ cs) =
    let rest = get_lines cs in if c == b'\n' then (c ∷ []) ∷ rest else push_byte c rest
