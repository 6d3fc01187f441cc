-- ===== src/Spool/Removal.antt =====
-- Which files a pass over the spool lets go, and that a pass comes to its end.
use telemetrics_client.Base.{◌≡◌, true, some, length}
use telemetrics_client.Base.Bytes.{Bytes}
use telemetrics_client.Base.Run.{done}
use telemetrics_client.PostDaemon.{Backend}
use telemetrics_client.Record.{StagedRecord}
use telemetrics_client.Record.Staged.{read_record}
use telemetrics_client.Spool.{SpoolEntry}

-- The file did not change its length between `stat` and `fread`.
abbrev pub IsSized : SpoolEntry → Type 0
IsSized entry = (file : Bytes) → entry.content ≡ some file → entry.size ≡ length file

-- The record in the file is one of these.
abbrev pub Accepted : (StagedRecord → Type 0) → SpoolEntry → Type 0
Accepted Taken entry =
    (file : Bytes) × (r : StagedRecord) × (entry.content ≡ some file)
    × (read_record (some file) ≡ some r)
    × Taken r

-- The backend took the record.
abbrev TakenBy : Backend → StagedRecord → Type 0
TakenBy post r = post r.headers r.body r.cfg_file ≡ done true
