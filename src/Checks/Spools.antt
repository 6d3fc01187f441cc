-- ===== src/Checks/Spools.antt =====
-- The spool at concrete files.
use telemetrics_client.Base.{ℕ, ◌≤◌, ◌≡◌, refl, true, false, [], ◌∷◌, some, none, length, arith}
use telemetrics_client.Base.Bytes.{Bytes, codes, equal, c_string, is_prefix}
use telemetrics_client.Base.Int.{ℤ, pos}
use telemetrics_client.Base.Run.{done}
use telemetrics_client.Checks.Samples.{texts, texts-AreHeaders}
use telemetrics_client.PostDaemon.{Backend}
use telemetrics_client.PostDaemon.Process.{FileStatus, is_expired}
use telemetrics_client.Record.Probd.{stage_record}
use telemetrics_client.Record.RoundTrip.{read_record-stage_record}
use telemetrics_client.Record.Staged.{
  read_record, read_config, read_rest, read_headers, fgets_chomp, fgets, take_line, chomp,
}
use telemetrics_client.Record.{StagedRecord, read_u32}
use telemetrics_client.Util.{get_header}
use telemetrics_client.Common.{header_names}
use telemetrics_client.Spool.{
  SpoolEntry, Progress, transmit_spooled_record, is_dots, is_invalid_expiry, is_enomem,
  process_spooled_record, spool_loop, spool_records_loop, filter_entries, directory_filter,
}
use telemetrics_client.Spool.Passes.{IsWithin, spool_records_loop-IsWithin}
use telemetrics_client.Spool.Progresses.{
  Returns, spool_loop-Returns, spool_loop_refused, process_spooled_record_unread,
}
use telemetrics_client.Spool.Removal.{IsSized}
use telemetrics_client.Spool.Transmission.{transmit_outcome, transmit_spooled_record-read_record}

abbrev accepts : Backend
accepts headers body cfg = done true

abbrev rejects : Backend
rejects headers body cfg = done false

abbrev status : FileStatus
status = record { is_regular = true; mtime = 900; blocks = 8; owned = true }

abbrev staged : Bytes
staged = stage_record texts (codes "hello") none

abbrev staged_as : StagedRecord
staged_as = record { headers = texts; body = codes "hello\n"; cfg_file = none }

abbrev spooled : Bytes → ℕ → SpoolEntry
spooled text now = record {
  name = codes "aBcDeF";
  content = some text;
  status = some status;
  size = length text;
  current_time = now;
  directory_size = pos 4096;
}

abbrev first_progress : ℤ → Progress
first_progress size = record { records_processed = 0; records_sent = 0; current_spool_size = size }

staged_reads : read_record (some staged) ≡ some staged_as
staged_reads = read_record-stage_record texts (codes "hello") none texts-AreHeaders (omega arith) tt

spooled-IsSized : (text : Bytes) (now : ℕ) → IsSized (spooled text now)
spooled-IsSized text now file e = let same : text ≡ file = cc in rw same refl

transmit_spooled_record-read_record_example :
    transmit_spooled_record accepts (some staged) (length staged)
    ≡ transmit_outcome accepts (read_record (some staged))
transmit_spooled_record-read_record_example = transmit_spooled_record-read_record accepts staged

spool_loop_refused_example :
    spool_loop rejects (pos 1200) (spooled staged 1000 ∷ []) (first_progress (pos 4096)) []
    ≡ done (record { records_processed = 1; records_sent = 0; current_spool_size = pos 4096 }, [])
unfolding is_invalid_expiry is_dots equal is_expired
spool_loop_refused_example =
    spool_loop_refused rejects (pos 1200) (spooled staged 1000) [] (pos 4096) status staged
      staged_as refl refl refl refl refl refl staged_reads refl

-- The record's configuration file is not there, so that the spooled file goes.
abbrev unsent : Bytes
unsent = stage_record texts (codes "hello") (some (codes "/gone"))

spool_loop-Returns_example :
    Returns
      (spool_loop accepts (pos 1200) (spooled staged 1000 ∷ []) (first_progress (pos 4096)) [])
unfolding is_invalid_expiry is_enomem
spool_loop-Returns_example =
    spool_loop-Returns accepts (pos 1200) (spooled staged 1000 ∷ []) (first_progress (pos 4096)) []
      refl
      (
        record {
          sized = spooled-IsSized staged 1000;
          has_memory = refl;
          posts = λ r e. (true, refl);
        },
        tt,
      )

nothing_reads : read_record (some (codes "nothing")) ≡ none
unfolding read_record read_u32 read_config read_rest read_headers header_names fgets_chomp fgets
    take_line chomp c_string get_header is_prefix
nothing_reads = refl

-- The pass that `spool_loop_refused_example` describes.
pass :
    spool_records_loop
      (λ compare entries. entries)
      rejects
      (pos 1200)
      (some (spooled staged 1000 ∷ []))
      (pos 4096)
    ≡ done (record { records_processed = 1; records_sent = 0; current_spool_size = pos 4096 }, [])
unfolding spool_records_loop filter_entries directory_filter is_invalid_expiry is_dots equal
    is_expired
pass =
    spool_loop_refused rejects (pos 1200) (spooled staged 1000) [] (pos 4096) status staged
      staged_as refl refl refl refl refl refl staged_reads refl

spool_records_loop-IsWithin_example :
    IsWithin (record { records_processed = 1; records_sent = 0; current_spool_size = pos 4096 })
    × (1 ≤ 60)
spool_records_loop-IsWithin_example =
    spool_records_loop-IsWithin (λ compare entries. entries) rejects (pos 1200)
      (some (spooled staged 1000 ∷ [])) (pos 4096)
      (record { records_processed = 1; records_sent = 0; current_spool_size = pos 4096 }) [] pass

process_spooled_record_unread_example :
    process_spooled_record accepts
      (pos 1200)
      (spooled (codes "nothing") 1000)
      (first_progress (pos 8192))
    ≡ done
        (record { records_processed = 1; records_sent = 1; current_spool_size = pos 4096 }, false)
unfolding is_invalid_expiry is_dots equal is_expired
process_spooled_record_unread_example =
    process_spooled_record_unread accepts (pos 1200) (spooled (codes "nothing") 1000)
      (first_progress (pos 8192)) status (codes "nothing") 8192 refl refl refl refl refl refl
      nothing_reads (omega arith) refl (omega arith) (omega arith)
