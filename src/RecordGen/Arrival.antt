-- ===== src/RecordGen/Arrival.antt =====
-- A record of telem-record-gen on its way to the post daemon.
use telemetrics_client.Base.Bytes.{Bytes}
