-- ===== src/Journal/Store.antt =====
-- src/journal/journal.c: the operations on an open journal. The effects of one call come back as
-- values; what the system answers (random id, boot id, results of file operations) is an argument.
use telemetrics_client.Base.{
  ℕ, ◌+◌, ◌-◌, Bool, true, false, not, List, [], ◌∷◌, ◌++◌, Option, none, some, ltb, leb, ◌==◌,
  if◌then◌else◌, length, take, drop,
}
use telemetrics_client.Base.Bytes.{Bytes, c_string}
use telemetrics_client.Base.Int.{ℤ, pos, negsuc}
use telemetrics_client.Base.Run.{Run, done, fault, ◌>>=◌}
use telemetrics_client.Journal.{
  JournalEntry, serialize_journal_entry, deserialize_journal_entry, get_lines,
}
use telemetrics_client.Util.{validate_classification, validate_event_id}

-- The state of `fptr`: an open file, a null pointer, or a pointer to a closed file.
pub data FilePtr : Type 0 where
  opened null dangling : FilePtr

pub record TelemJournal : Type 0 where
  pub fptr : FilePtr
  pub file : Bytes
  pub latest_record_id : Option Bytes
  pub record_count : ℕ
  pub record_count_limit : ℕ
  pub prune_callback : Bool

abbrev pub record_limit : ℕ
record_limit = 100

abbrev pub deviation : ℕ
deviation = 50

-- BOOTID_LEN - 1
abbrev pub boot_id_text : ℕ
boot_id_text = 36

-- `open_journal`, where `fopen` and `read_boot_id` succeed; `file` is what the file holds.
unfoldable pub open_journal : Bytes → TelemJournal
open_journal file = record {
  fptr = opened;
  file = file;
  latest_record_id = none;
  record_count = length (get_lines file);
  record_count_limit = record_limit;
  prune_callback = false;
}

-- `save_entry`: the result (true for 0) and the file. Writing to a closed file is undefined.
unfoldable pub save_entry : FilePtr → Bytes → JournalEntry → Run (Bool × Bytes)
save_entry null file entry = done (false, file)
save_entry dangling file entry = fault
save_entry opened file entry = done (true, file ++ (serialize_journal_entry entry ++ b'\n' ∷ []))

-- From the point where the entry is complete.
unfoldable pub store_entry : TelemJournal → JournalEntry → Run (ℤ × TelemJournal)
store_entry j entry = do
  (saved, file) ← save_entry j.fptr j.file entry
  if saved
      then done (
        pos 0,
        record j {
          file = file;
          latest_record_id = some entry.record_id;
          record_count = j.record_count + 1;
        },
      )
      else done (negsuc 0, record j { latest_record_id = some entry.record_id })

-- With the random record id and the boot id that could be read, or not.
unfoldable pub fill_entry :
    TelemJournal → Bytes → ℕ → Bytes → Option Bytes → Option Bytes → Run (ℤ × TelemJournal)
unfolding store_entry
fill_entry j classification timestamp event_id none boot_id = done (pos 1, j)
fill_entry j classification timestamp event_id (some record_id) none = done (pos 1, j)
fill_entry j classification timestamp event_id (some record_id) (some boot_id) =
    store_entry j (record {
      record_id = record_id;
      timestamp = timestamp;
      classification = classification;
      event_id = event_id;
      boot_id = take boot_id_text boot_id;
    })

-- The result is 0 for success, 1 for values that are not valid or not at hand, -1 if nothing could
-- be written.
unfoldable pub new_journal_entry :
    TelemJournal → Bytes → ℕ → Bytes → Option Bytes → Option Bytes → Run (ℤ × TelemJournal)
unfolding fill_entry
new_journal_entry j classification timestamp event_id random_id boot_id = do
  invalid ← validate_classification (some classification)
  if not (invalid == 0)
      then done (pos 1, j)
      else if not (validate_event_id (some event_id) == 0)
      then done (pos 1, j)
      else fill_entry j classification timestamp event_id random_id boot_id

-- The record ids that `found_record` is called with for these lines.
unfoldable pub found_ids : Option JournalEntry → List Bytes
found_ids none = []
found_ids (some entry) = entry.record_id ∷ []

unfoldable pub skipped_ids : List Bytes → List Bytes
unfolding found_ids
skipped_ids [] = []
skipped_ids (line ∷ lines) =
    found_ids (deserialize_journal_entry (some (c_string line))) ++ skipped_ids lines

-- `skip_n_lines`: whether there were `n` lines, the ids given to the callback, the lines left.
unfoldable pub skip_n_lines : ℕ → List Bytes → Bool → Bool × List Bytes × List Bytes
skip_n_lines n lines callback =
    (leb n (length lines), (if callback then skipped_ids (take n lines) else []), drop n lines)

-- `copy_to_tmp`: "%s" writes each line up to its first NUL.
unfoldable pub copy_lines : List Bytes → Bytes
copy_lines [] = []
copy_lines (line ∷ lines) = c_string line ++ copy_lines lines

-- How the file operations of one `prune_journal` go: 0 or the error of opening, closing, renaming,
-- and whether the journal could be opened again.
pub record PruneFiles : Type 0 where
  pub tmp_open : ℕ
  pub close : ℕ
  pub rename : ℕ
  pub reopens : Bool

-- EADDRNOTAVAIL
abbrev pub eaddrnotavail : ℕ
eaddrnotavail = 99

-- After the copy was written.
unfoldable pub replace_file : PruneFiles → TelemJournal → Bytes → ℕ → ℕ × TelemJournal
replace_file fs j kept count =
    if not (fs.close == 0)
    then (fs.close, record j { fptr = dangling })
    else if not (fs.rename == 0)
    then (fs.rename, record j { fptr = dangling })
    else if not fs.reopens
    then (0, record j { fptr = null; file = kept })
    else (0, record j { fptr = opened; file = kept; record_count = j.record_count - count })

unfoldable pub prune_lines :
    PruneFiles → TelemJournal → ℕ → Bool × List Bytes × List Bytes → ℕ × TelemJournal
unfolding replace_file
prune_lines fs j count (enough, ids, rest) =
    if not enough
    then (eaddrnotavail, j)
    else if not (fs.tmp_open == 0)
    then (fs.tmp_open, j)
    else replace_file fs j (copy_lines rest) count

-- The result, the journal, and the record ids given to the callback, for an open file.
unfoldable pub prune_journal : PruneFiles → TelemJournal → (ℕ × TelemJournal) × List Bytes
unfolding prune_lines
prune_journal fs j =
    let count = j.record_count - j.record_count_limit in
    let skip = skip_n_lines count (get_lines j.file) j.prune_callback in
    if ltb (deviation + j.record_count_limit) j.record_count
    then (prune_lines fs j count skip, skip.1)
    else ((0, j), [])
