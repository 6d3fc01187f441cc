-- ===== src/Checks/Records.antt =====
-- A record from the client to the post daemon, at a concrete record.
use telemetrics_client.Base.{◌≡◌, refl, [], ◌∷◌, ◌++◌, some, arith}
use telemetrics_client.Base.Bytes.{Bytes, codes}
use telemetrics_client.Checks.Samples.{texts, texts-AreHeaders}
use telemetrics_client.Common.{header_names}
use telemetrics_client.Record.Delivery.{IsId}
use telemetrics_client.Record.Packets.{IsSound, header_lines}
use telemetrics_client.Record.Lines.{IsLine}
use telemetrics_client.Record.Probd.{stage_record}
use telemetrics_client.Record.RoundTrip.{read_record-stage_record}
use telemetrics_client.Record.Staged.{read_record}
use telemetrics_client.Record.Wire.{TelemRecord, concat}

unfoldable pub sample : TelemRecord
sample = record {
  headers = header_lines texts;
  payload = codes "hello";
  header_size = 235;
  payload_size = 5;
}

pub sample-IsSound : IsSound sample texts
unfolding sample texts header_names concat header_lines
sample-IsSound = record {
  lines = refl;
  named = texts-AreHeaders;
  header_size = refl;
  payload_size = refl;
  payload_text = omega arith;
}

abbrev path : Bytes
path = codes "/etc/t.conf"

path-IsLine : IsLine path
path-IsLine = omega arith

abbrev pub override : Bytes
override = codes "0123abcd"

pub override-IsId : IsId override
override-IsId = omega arith

read_record-stage_record_example :
    read_record (some (stage_record texts (codes "hello") (some path)))
    ≡ some (record { headers = texts; body = codes "hello" ++ b'\n' ∷ []; cfg_file = some path })
read_record-stage_record_example =
    read_record-stage_record texts (codes "hello") (some path) texts-AreHeaders (omega arith)
      path-IsLine
