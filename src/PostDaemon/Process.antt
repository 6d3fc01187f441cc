-- ===== src/PostDaemon/Process.antt =====
-- src/telempostdaemon.c: `process_staged_record` on one file of the staging directory.
pub mod Frames
pub mod Deliveries
pub mod Removal
use telemetrics_client.Base.{
  ℕ, zero, suc, ◌+◌, ◌-◌, ◌*◌, Bool, true, false, not, ◌&&◌, ◌||◌, List, [], ◌∷◌, ◌++◌, Option,
  none, some, ltb, leb, ◌==◌, if◌then◌else◌, get_elem?,
}
use telemetrics_client.Base.Bytes.{Bytes, equal}
use telemetrics_client.Base.Int.{ℤ, pos, negsuc, sub_ℕ, ltb_ℤ, ◌+ℤ◌, ◌-ℤ◌}
use telemetrics_client.Base.Run.{Run, done, exit, fault, ◌>>=◌}
use telemetrics_client.Common.{tm_classification, tm_event_id}
use telemetrics_client.Journal.Store.{TelemJournal, new_journal_entry}
use telemetrics_client.PostDaemon.{
  TelemPostDaemon, DeliveryClock, Backend, inside_direct_spool_window, windows_length_value_check,
  deliver_record,
}
use telemetrics_client.Record.Staged.{read_record}
use telemetrics_client.Record.{StagedRecord}
use telemetrics_client.Util.{get_header_value}

-- What `stat` says of a file.
pub record FileStatus : Type 0 where
  pub is_regular : Bool
  pub mtime : ℕ
  pub blocks : ℕ
  pub owned : Bool

-- One staged file: its bytes, unless it does not open, and its status, unless `stat` fails.
pub record StagedFile : Type 0 where
  pub content : Option Bytes
  pub status : Option FileStatus

-- What one call reads of its surroundings: the clock, the ids for a journal entry, and the
-- configured expiry (minutes) and largest spool size (KiB), -1 for none.
pub record Surroundings : Type 0 where
  pub start_time : ℕ
  pub window_time : ℕ
  pub clock : DeliveryClock
  pub random_id : Option Bytes
  pub boot_id : Option Bytes
  pub record_expiry : ℤ
  pub spool_max_size : ℤ

-- n * 60
abbrev pub to_seconds : ℤ → ℤ
to_seconds (pos n) = pos (n * 60)
to_seconds (negsuc n) = negsuc (n * 60 + 59)

-- Not a regular file, older than the expiry, or another user's.
unfoldable pub is_expired : ℕ → ℤ → FileStatus → Bool
is_expired current_time expiry st =
    not st.is_regular || (ltb_ℤ (to_seconds expiry) (sub_ℕ current_time st.mtime) || not st.owned)

unfoldable pub file_size : FileStatus → ℤ
file_size st = pos (st.blocks * 512)

-- The journal after an entry for these header values.
journal_entry :
    Surroundings → Option TelemJournal → Option Bytes → Option Bytes → Run (Option TelemJournal)
journal_entry env (some j) (some classification) (some event_id) = do
  (_, j') ← new_journal_entry j classification env.start_time event_id env.random_id env.boot_id
  done (some j')
journal_entry env journal _ _ = done journal

pub journal_after : Surroundings → TelemPostDaemon → List Bytes → Run (Option TelemJournal)
unfolding journal_entry
journal_after env d headers =
    journal_entry env d.record_journal (get_header_value (get_elem? headers tm_classification))
      (get_header_value (get_elem? headers tm_event_id))

unfoldable pub save_entry_to_journal :
    Surroundings → TelemPostDaemon → List Bytes → Run TelemPostDaemon
unfolding journal_after
save_entry_to_journal env d headers = do
  journal ← journal_after env d headers
  done (record d { record_journal = journal })

-- A file of the retention directory is written.
abbrev pub write : Bytes → Bytes → (Bytes → Option Bytes) → Bytes → Option Bytes
write id text files k = if equal k id then some text else files k

latest_id : Option TelemJournal → Option Bytes
latest_id none = none
latest_id (some j) = j.latest_record_id

copy_under : Option Bytes → Bytes → (Bytes → Option Bytes) → Bytes → Option Bytes
copy_under none body files = files
copy_under (some id) body files = write id (body ++ b'\n' ∷ []) files

-- `fopen` succeeds.
unfoldable pub save_local_copy : TelemPostDaemon → Bytes → TelemPostDaemon
unfolding latest_id copy_under
save_local_copy d body = record d {
  retained = copy_under (latest_id d.record_journal) body d.retained;
}

unfoldable pub apply_retention_policies : TelemPostDaemon → Bytes → TelemPostDaemon
apply_retention_policies d body = if d.record_retention_enabled then save_local_copy d body else d

-- Journal and local copy, for a record that is no retry.
unfoldable pub record_first_time :
    Surroundings → Bool → TelemPostDaemon → StagedRecord → Run TelemPostDaemon
record_first_time env true d r = done d
record_first_time env false d r = do
  d' ← save_entry_to_journal env d r.headers
  done (apply_retention_policies d' r.body)

is_limited : ℤ → Bool
is_limited (negsuc zero) = false
is_limited _ = true

-- n * 1024
abbrev pub to_bytes : ℤ → ℤ
to_bytes (pos n) = pos (n * 1024)
to_bytes (negsuc n) = negsuc (n * 1024 + 1023)

unfoldable pub spool_is_full : Surroundings → ℤ → Bool
unfolding is_limited
spool_is_full env current_spool_size =
    is_limited env.spool_max_size && not (ltb_ℤ current_spool_size (to_bytes env.spool_max_size))

-- From the delivery policies on.
unfoldable pub dispatch :
    Backend → Surroundings → TelemPostDaemon → StagedRecord → Run (Bool × TelemPostDaemon)
dispatch post env d r =
    if not d.record_server_delivery_enabled
    then done (true, d)
    else if inside_direct_spool_window d env.window_time
    then done (spool_is_full env d.current_spool_size, d)
    else if not (windows_length_value_check d)
    then exit
    else deliver_record post env.clock d r.headers r.body r.cfg_file

-- `end_processing_file`: the size of a file that will be removed is taken off again.
unfoldable pub end_processing : ℤ → Bool × TelemPostDaemon → Bool × TelemPostDaemon
end_processing size (ret, d) =
    (ret, (if ret then record d { current_spool_size = d.current_spool_size -ℤ size } else d))

-- With the record read and its status known.
unfoldable pub process_known :
    Backend
    → Surroundings
    → Bool
    → TelemPostDaemon
    → FileStatus
    → StagedRecord
    → Run (Bool × TelemPostDaemon)
process_known post env is_retry d st r =
    if is_expired env.start_time env.record_expiry st
    then done (true, d)
    else record_first_time env is_retry d r >>= (λ d'. dispatch post env d' r)

process_status :
    Backend
    → Surroundings
    → Bool
    → TelemPostDaemon
    → Option FileStatus
    → StagedRecord
    → Run (Bool × TelemPostDaemon)
process_status post env is_retry d none r = done (end_processing (pos 0) (true, d))
process_status post env is_retry d (some st) r =
    let counted = record d { current_spool_size = d.current_spool_size +ℤ file_size st } in
    process_known post env is_retry counted st r >>= (λ x. done (end_processing (file_size st) x))

process_read :
    Backend
    → Surroundings
    → Bool
    → TelemPostDaemon
    → Option FileStatus
    → Option StagedRecord
    → Run (Bool × TelemPostDaemon)
unfolding process_status
process_read post env is_retry d status none = done (end_processing (pos 0) (true, d))
process_read post env is_retry d status (some r) = process_status post env is_retry d status r

-- The result true lets the caller remove the file.
unfoldable pub process_staged_record :
    Backend → Surroundings → Bool → TelemPostDaemon → StagedFile → Run (Bool × TelemPostDaemon)
unfolding process_read
process_staged_record post env is_retry d file =
    process_read post env is_retry d file.status (read_record file.content)
