-- ===== src/Journal/Print/Shown.antt =====
-- What `print_journal` shows of a journal.
use telemetrics_client.Base.{
  ℕ, suc, ◌-◌, ◌≡◌, ◌⊎◌, inl, inr, ◌∙◌, refl, ap, true, false, List, [], ◌∷◌, ◌++◌, map, Option,
  none, some, length, drop, arith, Option-cases,
}
use telemetrics_client.Base.Bytes.{Bytes}
use telemetrics_client.Base.Int.{pos}
use telemetrics_client.Base.Run.{done}
use telemetrics_client.Journal.{JournalEntry, get_lines}
use telemetrics_client.Journal.Print.{
  Printing, entry_text, print_entry, timed_text, dated_text, print_lines, print_journal, count_text,
  print_rest,
}
use telemetrics_client.Journal.Files.{whole_line, get_lines-unlines}
use telemetrics_client.Journal.Prune.{
  IsJournal, AreEntries, AreEntries-drop, texts_of, texts_of-AreTexts, line_entry,
  skip_n_lines-entries,
}
use telemetrics_client.Journal.Store.{TelemJournal}
use telemetrics_client.Journal.Print.Filters.{Matches, IsLong, is_skipped_cases}

-- Of these entries so many are shown, with this output: those that match and whose time fits.
pub data Shows (p : Printing) : List JournalEntry → ℕ → Bytes → Type 0 where
  ends : Shows p [] 0 []
  shows :
      {e : JournalEntry} {es : List JournalEntry} {n : ℕ} {out ts str_time : Bytes}
      → Matches p e
      → p.localtime e.timestamp ≡ some ts
      → p.strftime ts ≡ some str_time
      → Shows p es n out
      → Shows p (e ∷ es) (suc n) (entry_text p e str_time ++ out)
  hides :
      {e : JournalEntry} {es : List JournalEntry} {n : ℕ} {out : Bytes}
      → (¬ Matches p e)
        ⊎ ((ts : Bytes) × (p.localtime e.timestamp ≡ some ts) × (p.strftime ts ≡ none))
      → Shows p es n out
      → Shows p (e ∷ es) n out

-- localtime has an answer for the time of each entry.
abbrev pub AreDated : Printing → List JournalEntry → Type 0
AreDated p [] = Unit
AreDated p (e ∷ es) = ((ts : Bytes) × (p.localtime e.timestamp ≡ some ts)) × AreDated p es

print_entry-Shows :
    (p : Printing) (e : JournalEntry) (es : List JournalEntry) (rest : ℕ × Bytes)
    → IsLong p.classification
    → (ts : Bytes) × (p.localtime e.timestamp ≡ some ts)
    → Shows p es rest.0 rest.1
    → (text : Option Bytes) × (print_entry p (some e) ≡ done text)
      × (let all = count_text text rest in Shows p (e ∷ es) all.0 all.1)
unfolding print_entry timed_text dated_text count_text
print_entry-Shows p e es rest l (ts, dated) s = elim (is_skipped_cases p e l) [
  | inl (skips, apart) ↦ (none, rw skips refl, hides (inl apart) s)
  | inr (keeps, wanted) ↦ elim (Option-cases (p.strftime ts)) [
    | inl long ↦ (none, rw (keeps, dated, long) refl, hides (inr (ts, dated, long)) s)
    | inr (str_time, fits) ↦
        (some (entry_text p e str_time), rw (keeps, dated, fits) refl, shows wanted dated fits s)
  ]
]

print_lines-Shows :
    (p : Printing) (es : List JournalEntry)
    → IsLong p.classification
    → AreDated p es
    → AreEntries es
    → (shown : ℕ × Bytes) × (print_lines p (map whole_line (texts_of es)) ≡ done shown)
      × Shows p es shown.0 shown.1
unfolding print_lines
print_lines-Shows p [] l d a = ((0, []), refl, ends)
print_lines-Shows p (e ∷ es) l d a =
    let (rest, printed, s) = print_lines-Shows p es l d.1 a.1 in
    let (text, one, t) = print_entry-Shows p e es rest l d.0 s in
    (count_text text rest, rw (line_entry e a.0, one, printed) refl, t)

-- When the file of an open journal holds just the lines of its entries and can be opened, localtime has
-- an answer for the times of the newest entries up to the limit, and the class to look for, if any, has
-- two bytes or more: print_journal writes, of the newest entries up to the
-- limit, in their order, exactly those that agree with every filter and whose time strftime can write,
-- and returns how many they are, whatever lines their records add. A class that ends in "/*" takes in all classes below it.
pub print_journal-Shows :
    (p : Printing) (j : TelemJournal) (es : List JournalEntry)
    → IsJournal j es
    → IsLong p.classification
    → AreDated p (drop (length es - j.record_count_limit) es)
    → (count : ℕ) × (out : Bytes) × (print_journal true p (some j) ≡ done (pos count, out))
      × Shows p (drop (length es - j.record_count_limit) es) count out
unfolding print_journal print_rest
print_journal-Shows p j es i l d =
    let n = length es - j.record_count_limit in
    let lines : get_lines j.file ≡ map whole_line (texts_of es) =
      ap get_lines i.file ∙ get_lines-unlines (texts_of es) (texts_of-AreTexts es i.fit) in
    let skip = skip_n_lines-entries n es false i.fit (omega arith) in
    let (shown, printed, s) = print_lines-Shows p (drop n es) l d (AreEntries-drop n es i.fit) in
    (shown.0, shown.1, rw (i.counted, lines, skip, printed) refl, s)
