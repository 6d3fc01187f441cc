-- ===== src/Checks/Clients.antt =====
-- The client library at concrete systems, records and sockets.
use telemetrics_client.Base.{
  set, ◌⊎◌, ◌≢◌, ◌≡◌, refl, true, false, List, [], ◌∷◌, ◌++◌, some, none, get_elem?, arith,
}
use telemetrics_client.Base.Bytes.{Bytes, codes, is_prefix, c_string, after, push_byte}
use telemetrics_client.Base.Int.{pos, negsuc}
use telemetrics_client.Base.Run.{done}
use telemetrics_client.Client.Creation.{HasHeaders, tm_create_record-HasHeaders}
use telemetrics_client.Client.Fields.{IsUsable}
use telemetrics_client.Client.Attributes.{StartsText}
use telemetrics_client.Client.Words.{ShortVersion}
use telemetrics_client.Record.Payload.{is_space}
use telemetrics_client.Client.Values.{
  version_file, scan_lines, scan_word, fgets_lines, skip_spaces, take_word,
}
use telemetrics_client.Client.Headers.{
  ClientSystem, made, tm_create_record, clamp_severity, or_unknown,
}
use telemetrics_client.Client.Sending.{AreSocketErrnos, tm_send_record_sent}
use telemetrics_client.Client.Socket.{
  takes, fails, ready, SocketCalls, tm_get_socket, tm_write_socket, tm_send_record, minus,
}
use telemetrics_client.Client.Writing.{outcomes, tm_write_socket_finishes}
use telemetrics_client.Journal.{decimal}
use telemetrics_client.Record.Wire.{concat, TelemRecord, packet}
use telemetrics_client.Record.{le32}
use telemetrics_client.Checks.Samples.{texts}
use telemetrics_client.Client.EventId.{tm_set_event_id, tm_set_event_id-HasHeaders}
use telemetrics_client.Common.{header_names}
use telemetrics_client.Record.Packets.{header_lines}
use telemetrics_client.Util.{validate_event_id, validate_classification, scan_classification}

abbrev pub system : ClientSystem
system = record {
  machine = some (codes "x86_64");
  release = some (codes "5.10.1");
  site_version = none;
  dist_version = some (codes "ID=clear\nVERSION_ID=33000\n");
  cpuinfo = some (codes "model name\t: A CPU\n");
  sys_vendor = some (codes "Vendor\n");
  product_name = none;
  product_version = some (codes "1\n");
  board_name = some (codes "B\n");
  board_vendor = none;
  bios_version = some (codes "2.0\n");
  now = 1600000000;
  random_id = some (codes "0123456789abcdef0123456789abcdef");
}

pub system-IsUsable : IsUsable system
unfolding StartsText or_unknown ShortVersion version_file scan_lines scan_word fgets_lines push_byte
    skip_spaces take_word is_space is_prefix c_string after
system-IsUsable = record {
  machine = omega arith;
  release = omega arith;
  version = omega arith;
  cpuinfo = (_, refl);
  sys_vendor = ground arith;
  product_name = tt;
  product_version = ground arith;
  board_name = ground arith;
  board_vendor = tt;
  bios_version = ground arith;
  random_id = (_, refl, omega arith);
}

tm_create_record-HasHeaders_example :
    (r : TelemRecord) × (hs : List Bytes) × (tm_create_record system 7 9 (codes "a/b/c") 1
      ≡ done (made r))
    × HasHeaders r hs
    × (get_elem? hs 1 ≡ some (codes "classification" ++ (codes ": " ++ codes "a/b/c")))
    × (get_elem? hs 2 ≡ some (codes "severity" ++ (codes ": " ++ decimal (clamp_severity 9))))
    × (get_elem? hs 14 ≡ some (codes "event_id" ++ (codes ": " ++ system-IsUsable.random_id.0)))
unfolding validate_classification scan_classification
tm_create_record-HasHeaders_example =
    tm_create_record-HasHeaders system 7 9 (codes "a/b/c") 1 system-IsUsable refl (omega arith)
      (omega arith)

tm_write_socket_finishes_example :
    tm_write_socket 0 (outcomes ((2, 0) ∷ (0, 0) ∷ (100, 7) ∷ [])) (codes "abc")
    ≡ (some (pos 0), codes "abc")
tm_write_socket_finishes_example =
    tm_write_socket_finishes ((2, 0) ∷ (0, 0) ∷ (100, 7) ∷ []) (codes "abc") (omega arith)
      (omega arith)

-- The socket still connects when connect returns.
abbrev pub calls : SocketCalls
calls = record {
  fd = 5;
  socket_fails = none;
  timeout_fails = none;
  connect_fails = some 115;
  selected = ready;
  query_fails = none;
  so_error = 0;
  get_flags_fails = none;
  set_flags_fails = none;
}

pub calls-AreSocketErrnos : AreSocketErrnos calls
calls-AreSocketErrnos = record {
  socket = tt;
  timeout = tt;
  connect = omega arith;
  select = λ errno e. absurd cc;
  query = tt;
  get_flags = tt;
  set_flags = tt;
}

abbrev short_record : TelemRecord
short_record = record { headers = []; payload = codes "hi"; header_size = 0; payload_size = 2 }

abbrev sent : Bytes
sent = 11 ∷ 0 ∷ 0 ∷ 0 ∷ 0 ∷ 0 ∷ 0 ∷ 0 ∷ b'h' ∷ b'i' ∷ 0 ∷ []

tm_send_record_sent_example :
    (false ≡ false) × (tm_get_socket calls ≡ (pos 5, true)) × (packet short_record none ≡ done sent)
unfolding tm_send_record tm_write_socket tm_get_socket minus le32
tm_send_record_sent_example =
    tm_send_record_sent false calls (takes 3 ∷ fails 11 ∷ takes 20 ∷ []) short_record none sent
      calls-AreSocketErrnos (omega arith) refl

abbrev default_header : Bytes
default_header = codes "event_id: 00000000000000000000000000000000"

abbrev with_id : List Bytes
with_id = set texts 14 default_header

abbrev created : TelemRecord
created = record {
  headers = header_lines with_id;
  payload = [];
  header_size = 266;
  payload_size = 0;
}

created-HasHeaders : HasHeaders created with_id
unfolding texts header_names header_lines concat is_prefix
created-HasHeaders = record { lines = refl; named = ground arith; header_size = refl }

abbrev new_id : Bytes
new_id = codes "0123456789abcdef0123456789abcdef"

tm_set_event_id-HasHeaders_example :
    ((validate_event_id (some new_id) ≡ 0)
      × ((tm_set_event_id (some new_id) created).0 ≡ pos 0)
      × HasHeaders
          (tm_set_event_id (some new_id) created).1
          (set with_id 14 (codes "event_id" ++ (codes ": " ++ new_id))))
    ⊎ ((validate_event_id (some new_id) ≢ 0)
        × (tm_set_event_id (some new_id) created ≡ (negsuc 0, created)))
unfolding texts header_names
tm_set_event_id-HasHeaders_example =
    tm_set_event_id-HasHeaders created with_id default_header new_id created-HasHeaders refl refl
