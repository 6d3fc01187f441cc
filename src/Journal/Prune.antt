-- ===== src/Journal/Prune.antt =====
-- `new_journal_entry` and `prune_journal` keep a journal well formed.
use telemetrics_client.Base.{
  ℕ, zero, suc, ◌≤◌, ◌≡◌, ◌≢◌, refl, ap, sym, true, Bool, List, [], ◌∷◌, ◌++◌, map, some, leb,
  if◌then◌else◌, length, length-map, take, drop, arith,
}
use telemetrics_client.Base.Bytes.{Bytes, Lacks, Lacks-append, c_string}
use telemetrics_client.Journal.Files.{
  whole_line, unlines, IsText, AreTexts, drop-map, take-map, c_string-whole_line,
}
use telemetrics_client.Journal.RoundTrip.{
  IsEntry, entry_line, decimal-IsField, deserialize-entry_line,
}
use telemetrics_client.Journal.Store.{TelemJournal, opened, skipped_ids, skip_n_lines, PruneFiles}
use telemetrics_client.Journal.{
  JournalEntry, decimal, separator, serialize_journal_entry, deserialize_journal_entry,
}

abbrev pub AreEntries : List JournalEntry → Type 0
AreEntries [] = Unit
AreEntries (e ∷ es) = IsEntry e × AreEntries es

pub AreEntries-append :
    (a b : List JournalEntry) → AreEntries a → AreEntries b → AreEntries (a ++ b)
AreEntries-append [] b h k = k
AreEntries-append (e ∷ a) b h k = (h.0, AreEntries-append a b h.1 k)

pub AreEntries-drop : (n : ℕ) (es : List JournalEntry) → AreEntries es → AreEntries (drop n es)
AreEntries-drop zero es a = a
AreEntries-drop (suc n) [] a = tt
AreEntries-drop (suc n) (e ∷ es) a = AreEntries-drop n es a.1

AreEntries-take : (n : ℕ) (es : List JournalEntry) → AreEntries es → AreEntries (take n es)
AreEntries-take zero es a = tt
AreEntries-take (suc n) [] a = tt
AreEntries-take (suc n) (e ∷ es) a = (a.0, AreEntries-take n es a.1)

abbrev pub texts_of : List JournalEntry → List Bytes
texts_of es = map serialize_journal_entry es

serialize-Lacks :
    (b : ℕ) (e : JournalEntry)
    → b ≢ separator
    → Lacks b e.record_id
    → Lacks b (decimal e.timestamp)
    → Lacks b e.classification
    → Lacks b e.event_id
    → Lacks b e.boot_id
    → Lacks b (serialize_journal_entry e)
unfolding serialize_journal_entry
serialize-Lacks b e ne i t c v o =
    let apart : separator ≢ b = λ p. ne (sym p) in
    Lacks-append b e.record_id _ i (
      apart,
      Lacks-append b (decimal e.timestamp) _ t (
        apart,
        Lacks-append b e.classification _ c (apart, Lacks-append b e.event_id _ v (apart, o)),
      ),
    )

serialize-IsText : (e : JournalEntry) → IsEntry e → IsText (serialize_journal_entry e)
serialize-IsText e i =
    let d = decimal-IsField e.timestamp in
    (
      serialize-Lacks b'\n' e (omega arith) i.record_id.no_newline d.no_newline
          i.classification.no_newline i.event_id.no_newline i.boot_id.no_newline,
      serialize-Lacks 0 e (omega arith) i.record_id.no_nul d.no_nul i.classification.no_nul
          i.event_id.no_nul i.boot_id.no_nul,
    )

pub texts_of-AreTexts : (es : List JournalEntry) → AreEntries es → AreTexts (texts_of es)
texts_of-AreTexts [] a = tt
texts_of-AreTexts (e ∷ es) a = (serialize-IsText e a.0, texts_of-AreTexts es a.1)

-- The journal's file holds these entries, one to a line, and the journal knows how many.
pub record IsJournal (j : TelemJournal) (es : List JournalEntry) : Type 0 where
  pub file : j.file ≡ unlines (texts_of es)
  pub fit : AreEntries es
  pub counted : j.record_count ≡ length es
  pub usable : j.fptr ≡ opened

-- All file operations succeed.
abbrev pub Succeeds : PruneFiles → Type 0
Succeeds fs = (fs.tmp_open ≡ 0) × (fs.close ≡ 0) × (fs.rename ≡ 0) × (fs.reopens ≡ true)

abbrev pub ids_of : List JournalEntry → List Bytes
ids_of es = map (λ e. e.record_id) es

-- What comes back from the line of an entry.
pub line_entry :
    (e : JournalEntry)
    → IsEntry e
    → deserialize_journal_entry (some (c_string (whole_line (serialize_journal_entry e)))) ≡ some e
line_entry e i =
    let read : deserialize_journal_entry (some (whole_line (serialize_journal_entry e))) ≡ some e =
      unfold entry_line in deserialize-entry_line e i in
    rw (c_string-whole_line (serialize_journal_entry e) (serialize-IsText e i).1) read

skipped_ids-entries :
    (es : List JournalEntry)
    → AreEntries es
    → skipped_ids (map whole_line (texts_of es)) ≡ ids_of es
unfolding skipped_ids
skipped_ids-entries [] a = refl
skipped_ids-entries (e ∷ es) a = rw (line_entry e a.0, skipped_ids-entries es a.1)

take-texts_of : (n : ℕ) (es : List JournalEntry) → take n (texts_of es) ≡ texts_of (take n es)
take-texts_of zero es = refl
take-texts_of (suc n) [] = refl
take-texts_of (suc n) (e ∷ es) = ap (◌∷◌ (serialize_journal_entry e)) (take-texts_of n es)

drop-texts_of : (n : ℕ) (es : List JournalEntry) → drop n (texts_of es) ≡ texts_of (drop n es)
drop-texts_of zero es = refl
drop-texts_of (suc n) [] = refl
drop-texts_of (suc n) (e ∷ es) = drop-texts_of n es

-- The lines to skip and the lines to keep.
pub skip_n_lines-entries :
    (n : ℕ) (es : List JournalEntry) (callback : Bool)
    → AreEntries es
    → n ≤ length es
    → skip_n_lines n (map whole_line (texts_of es)) callback
      ≡ (true, (if callback then ids_of (take n es) else []), map whole_line (texts_of (drop n es)))
unfolding skip_n_lines
skip_n_lines-entries n es callback a h =
    let lines = map whole_line (texts_of es) in
    let enough : leb n (length lines) ≡ true =
      ground (arith, length-map (texts_of es) whole_line, length-map es serialize_journal_entry) in
    rw
      (
        enough,
        take-map n (texts_of es),
        take-texts_of n es,
        drop-map n (texts_of es),
        drop-texts_of n es,
      )
      (rw (skipped_ids-entries (take n es) (AreEntries-take n es a)))
