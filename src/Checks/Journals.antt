-- ===== src/Checks/Journals.antt =====
-- The journal and the post daemon at concrete states.
use telemetrics_client.Base.{
  ℕ, leb, ◌^◌, ◌≡◌, refl, true, List, [], ◌∷◌, ◌++◌, some, none, replicate, arith, if◌then◌else◌,
}
use telemetrics_client.Base.Bytes.{Bytes, codes}
use telemetrics_client.Base.Int.{pos}
use telemetrics_client.Base.Run.{done}
use telemetrics_client.Journal.Append.{new_journal_entry-IsJournal}
use telemetrics_client.Journal.Files.{unlines}
use telemetrics_client.Journal.Print.{Printing, print_journal}
use telemetrics_client.Journal.Print.Shown.{Shows, print_journal-Shows}
use telemetrics_client.Journal.Prune.{IsJournal, texts_of}
use telemetrics_client.Journal.RoundTrip.{IsEntry}
use telemetrics_client.Journal.Store.{TelemJournal, opened, PruneFiles, new_journal_entry}
use telemetrics_client.Journal.{JournalEntry}
use telemetrics_client.Util.{validate_classification, validate_event_id}

abbrev sample_entry : JournalEntry
sample_entry = record {
  record_id = codes "00000000000000010000000000000002";
  timestamp = 1511716400;
  classification = codes "org.clearlinux/hello/world";
  event_id = codes "0123456789abcdef0123456789abcdef";
  boot_id = codes "6907c830-eed9-4ce9-81ae-76daf8d88f0f";
}

sample_entry-IsEntry : IsEntry sample_entry
sample_entry-IsEntry = ground arith

-- Two entries over a limit of one, with no slack used up.
abbrev small_journal : TelemJournal
small_journal = record {
  fptr = opened;
  file = unlines (texts_of (sample_entry ∷ sample_entry ∷ []));
  latest_record_id = none;
  record_count = 2;
  record_count_limit = 1;
  prune_callback = true;
}

small_journal-IsJournal : IsJournal small_journal (sample_entry ∷ sample_entry ∷ [])
small_journal-IsJournal = record {
  file = refl;
  fit = (sample_entry-IsEntry, (sample_entry-IsEntry, tt));
  counted = refl;
  usable = refl;
}

new_journal_entry-IsJournal_example :
    (j' : TelemJournal) × (new_journal_entry small_journal sample_entry.classification
        sample_entry.timestamp sample_entry.event_id
        (some sample_entry.record_id)
        (some sample_entry.boot_id)
      ≡ done (pos 0, j'))
    × IsJournal j' ((sample_entry ∷ sample_entry ∷ []) ++ sample_entry ∷ [])
    × (j'.latest_record_id ≡ some sample_entry.record_id)
    × (j'.record_count_limit ≡ small_journal.record_count_limit)
new_journal_entry-IsJournal_example =
    new_journal_entry-IsJournal small_journal (sample_entry ∷ sample_entry ∷ []) sample_entry
      sample_entry.boot_id small_journal-IsJournal sample_entry-IsEntry
      (unfold validate_classification in refl) (unfold validate_event_id in refl) refl

abbrev all_well : PruneFiles
all_well = record { tmp_open = 0; close = 0; rename = 0; reopens = true }

abbrev full : List JournalEntry
full = replicate 51 sample_entry

-- 51 entries over a limit of none.
full_journal : TelemJournal
full_journal = record {
  fptr = opened;
  file = unlines (texts_of full);
  latest_record_id = none;
  record_count = 51;
  record_count_limit = 0;
  prune_callback = true;
}

-- The classes below org.clearlinux, with the records.
abbrev printing : Printing
printing = record {
  classification = some (codes "org.clearlinux/*");
  record_id = none;
  event_id = some sample_entry.event_id;
  boot_id = none;
  include_record = true;
  localtime = λ t. if leb t (2 ^ 55) then some (codes "17-11-26") else none;
  strftime = λ ts. some (codes "Sun 2017-11-26 17:13:20 UTC");
  retained = λ id. some (codes "a record");
}

print_journal-Shows_example :
    (count : ℕ) × (out : Bytes) × (print_journal true printing (some small_journal)
      ≡ done (pos count, out))
    × Shows printing (sample_entry ∷ []) count out
print_journal-Shows_example =
    print_journal-Shows printing small_journal (sample_entry ∷ sample_entry ∷ [])
      small_journal-IsJournal (omega arith) ((codes "17-11-26", refl), tt)
