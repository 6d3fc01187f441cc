-- ===== src/Journal/Print.antt =====
-- src/journal/journal.c: the entries that `print_journal` shows, and what it writes.
-- What localtime makes of a time, if its year fits, what strftime makes of that, and the records kept by their ids are given; reading
-- and seeking in an open file succeed.
pub mod Filters
pub mod Shown
use telemetrics_client.Base.{
  ℕ, suc, ◌+◌, ◌-◌, Bool, true, false, not, List, [], ◌∷◌, ◌++◌, Option, none, some, ltb,
  if◌then◌else◌, length, take, drop, replicate,
}
use telemetrics_client.Base.Bytes.{Bytes, codes, c_string, equal, is_prefix}
use telemetrics_client.Base.Int.{ℤ, pos, negsuc}
use telemetrics_client.Base.Run.{Run, done, fault, ◌>>=◌}
use telemetrics_client.Journal.{JournalEntry, deserialize_journal_entry, get_lines}
use telemetrics_client.Journal.Store.{TelemJournal, skip_n_lines}

-- The filters, none where a null pointer is given, and what the system answers.
pub record Printing : Type 0 where
  pub classification : Option Bytes
  pub record_id : Option Bytes
  pub event_id : Option Bytes
  pub boot_id : Option Bytes
  pub include_record : Bool
  pub localtime : ℕ → Option Bytes
  pub strftime : Bytes → Option Bytes
  pub retained : Bytes → Option Bytes

-- The filter is given, and strcmp tells it from the text.
unfoldable pub differs : Option Bytes → Bytes → Bool
differs none text = false
differs (some filter) text = not (equal text filter)

unfoldable pub ends_in_star : Bytes → Bool
ends_in_star class = equal (drop (length class - 2) class) (codes "/*")

-- strcmp reads from two bytes before the end, which may lie before the text.
unfoldable pub is_class_prefix : Bytes → Run Bool
is_class_prefix class = if ltb (length class) 2 then fault else done (ends_in_star class)

-- Of a class that ends in "/*" all but the "*" is compared.
unfoldable pub class_differs : Option Bytes → Bytes → Run Bool
class_differs none text = done false
class_differs (some class) text = do
  prefix ← is_class_prefix class
  done (
      if prefix
      then not (is_prefix (take (length class - 1) class) text)
      else not (equal text class))

-- Whether a filter leads to `skip_print`.
unfoldable pub is_skipped : Printing → JournalEntry → Run Bool
unfolding class_differs
is_skipped p e =
    if differs p.record_id e.record_id
    then done true
    else if differs p.boot_id e.boot_id
    then done true
    else if differs p.event_id e.event_id
    then done true
    else class_differs p.classification e.classification

-- "%-30s"
unfoldable pub padded : Bytes → Bytes
padded text = text ++ replicate (30 - length text) b' '

unfoldable pub print_record : Option Bytes → Bytes
print_record none = []
print_record (some content) = content

-- What is written for an entry with this time.
unfoldable pub entry_text : Printing → JournalEntry → Bytes → Bytes
unfolding padded print_record
entry_text p e str_time =
    (padded e.classification
      ++ (b' ' ∷ str_time
          ++ (b' ' ∷ e.record_id ++ (b' ' ∷ e.event_id ++ (b' ' ∷ e.boot_id ++ b'\n' ∷ [])))))
    ++ (if p.include_record then print_record (p.retained e.record_id) else [])

unfoldable pub timed_text : Printing → JournalEntry → Option Bytes → Option Bytes
timed_text p e none = none
timed_text p e (some str_time) = some (entry_text p e str_time)

-- The result of localtime is read unchecked.
unfoldable pub dated_text : Printing → JournalEntry → Option Bytes → Run (Option Bytes)
unfolding timed_text
dated_text p e none = fault
dated_text p e (some ts) = done (timed_text p e (p.strftime ts))

-- One round of the loop; `none` where nothing is shown. An empty line has no entry.
unfoldable pub print_entry : Printing → Option JournalEntry → Run (Option Bytes)
unfolding dated_text
print_entry p none = done none
print_entry p (some e) = do
  skip ← is_skipped p e
  if skip then done none else dated_text p e (p.localtime e.timestamp)

-- The counter and the output, with one round's in front.
unfoldable pub count_text : Option Bytes → ℕ × Bytes → ℕ × Bytes
count_text none (count, out) = (count, out)
count_text (some text) (count, out) = (suc count, text ++ out)

unfoldable pub print_lines : Printing → List Bytes → Run (ℕ × Bytes)
unfolding print_entry count_text
print_lines p [] = done (0, [])
print_lines p (line ∷ lines) = do
  text ← print_entry p (deserialize_journal_entry (some (c_string line)))
  rest ← print_lines p lines
  done (count_text text rest)

unfoldable pub print_rest : Printing → Bool × List Bytes × List Bytes → Run (ℤ × Bytes)
unfolding print_lines
print_rest p (false, _, lines) = done (negsuc 0, [])
print_rest p (true, _, lines) = do (count, out) ← print_lines p lines; done (pos count, out)

-- The result and the output; `opens` tells whether the file could be opened.
unfoldable pub print_journal : Bool → Printing → Option TelemJournal → Run (ℤ × Bytes)
unfolding print_rest
print_journal opens p none = done (negsuc 0, [])
print_journal opens p (some j) =
    if opens
    then print_rest p
        (skip_n_lines (j.record_count - j.record_count_limit) (get_lines j.file) false)
    else done (negsuc 0, [])
