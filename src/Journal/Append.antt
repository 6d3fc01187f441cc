-- ===== src/Journal/Append.antt =====
-- `new_journal_entry` on every branch.
use mathlib.Core.List.{map-append}
use telemetrics_client.Base.{
  ℕ, ◌+◌, ◌≡◌, ◌≢◌, ◌⊎◌, refl, true, List, [], ◌∷◌, ◌++◌, Option, some, none, length-append, take,
  arith,
}
use telemetrics_client.Base.Bytes.{Bytes}
use telemetrics_client.Base.Int.{pos}
use telemetrics_client.Base.Run.{done, ◌>>=◌}
use telemetrics_client.Journal.Files.{unlines, unlines-append}
use telemetrics_client.Journal.Prune.{IsJournal, texts_of, AreEntries-append}
use telemetrics_client.Journal.RoundTrip.{IsEntry}
use telemetrics_client.Journal.Store.{TelemJournal, boot_id_text, save_entry, new_journal_entry}
use telemetrics_client.Journal.{JournalEntry, serialize_journal_entry}
use telemetrics_client.Util.{validate_classification, validate_event_id}

unlines-entry :
    (es : List JournalEntry) (e : JournalEntry)
    → unlines (texts_of (es ++ e ∷ []))
      ≡ unlines (texts_of es) ++ (serialize_journal_entry e ++ b'\n' ∷ [])
unlines-entry es e =
    rw
      (
        map-append serialize_journal_entry es (e ∷ []),
        unlines-append (texts_of es) (serialize_journal_entry e ∷ []),
      )
      (unfold unlines in refl)

-- For an open journal whose file holds just the lines of its entries, and an entry whose texts fit
-- in a line: with a valid classification and event id, and the random id and boot id at hand, the
-- call returns 0 and the journal has one entry more, the last, made of these values; its id is
-- remembered.
pub new_journal_entry-IsJournal :
    (j : TelemJournal) (es : List JournalEntry) (e : JournalEntry) (boot_id : Bytes)
    → IsJournal j es
    → IsEntry e
    → validate_classification (some e.classification) ≡ done 0
    → validate_event_id (some e.event_id) ≡ 0
    → e.boot_id ≡ take boot_id_text boot_id
    → (j' : TelemJournal) × (new_journal_entry j e.classification e.timestamp e.event_id
          (some e.record_id)
          (some boot_id)
        ≡ done (pos 0, j'))
      × IsJournal j' (es ++ e ∷ [])
      × (j'.latest_record_id ≡ some e.record_id)
      × (j'.record_count_limit ≡ j.record_count_limit)
unfolding new_journal_entry
new_journal_entry-IsJournal j es e boot_id i fit valid event boot =
    let text = serialize_journal_entry e ++ b'\n' ∷ [] in
    let saved : save_entry j.fptr j.file e ≡ done (true, j.file ++ text) =
      rw i.usable (unfold save_entry in refl) in
    (
      record j {
        file = j.file ++ text;
        latest_record_id = some e.record_id;
        record_count = j.record_count + 1;
      },
      rw (valid, event, ← boot) (rw (saved, ◌>>=◌)),
      record {
        file = rw i.file (rw (unlines-entry es e));
        fit = AreEntries-append es (e ∷ []) i.fit (fit, tt);
        counted = omega (arith, i.counted, length-append es (e ∷ []));
        usable = i.usable;
      },
      refl,
      refl,
    )

-- With a classification that is checked within its bounds, if it or the event id is not valid, or
-- without a random id or a boot id, the call returns 1 and the journal is as before.
pub new_journal_entry_refuses :
    (j : TelemJournal) (classification event_id : Bytes) (timestamp verdict : ℕ)
    (random_id boot_id : Option Bytes)
    → validate_classification (some classification) ≡ done verdict
    → (verdict ≢ 0)
      ⊎ (validate_event_id (some event_id) ≢ 0)
      ⊎ (random_id ≡ none)
      ⊎ (boot_id ≡ none)
    → new_journal_entry j classification timestamp event_id random_id boot_id ≡ done (pos 1, j)
unfolding new_journal_entry
new_journal_entry_refuses j classification event_id timestamp verdict none boot_id v why =
    rw v (ground arith)
new_journal_entry_refuses j classification event_id timestamp verdict (some r) none v why =
    rw v (ground arith)
new_journal_entry_refuses j classification event_id timestamp verdict (some r) (some b) v why =
    rw v (ground arith)
