-- ===== src/Checks/Arrivals.antt =====
-- A record of telem-record-gen from its options to the post daemon.
use telemetrics_client.Base.{false, [], ◌∷◌, none}
use telemetrics_client.Base.Bytes.{Bytes, codes}
use telemetrics_client.Base.Run.{done, exit, fault, ◌>>=◌}
use telemetrics_client.Checks.Clients.{system, calls}
use telemetrics_client.Checks.Tools.{options}
use telemetrics_client.Client.Socket.{takes}
use telemetrics_client.RecordGen.{Posting, instanciate_record, send_made}

abbrev posting : Posting
posting = record {
  opted_out = false;
  calls = calls;
  writes = takes 200 ∷ takes 800 ∷ [];
  cfg_file = none;
}

-- The bytes that the client sends.
abbrev out : Bytes
out = elim (instanciate_record system 7 options (codes "text") >>= λ m. send_made posting m) [
  | done (status, bytes) ↦ bytes
  | exit ↦ []
  | fault ↦ []
]
