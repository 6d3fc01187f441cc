-- ===== src/Checks/Daemons.antt =====
-- The probe daemon at concrete clients.
use telemetrics_client.Base.{
  ◌≡◌, ◌≤◌, ◌⊎◌, refl, sym, true, false, [], ◌∷◌, ◌++◌, some, none, length, drop, arith,
}
use telemetrics_client.Base.Bytes.{Bytes, codes, c_string}
use telemetrics_client.Base.Int.{pos}
use telemetrics_client.Base.Run.{done, ◌>>=◌}
use telemetrics_client.Checks.Clients.{calls, calls-AreSocketErrnos}
use telemetrics_client.Checks.Records.{sample, sample-IsSound, override}
use telemetrics_client.Checks.Samples.{texts, texts-AreHeaders}
use telemetrics_client.Client.Creation.{HasHeaders}
use telemetrics_client.Client.Socket.{takes, tm_send_record, tm_write_socket, tm_get_socket, minus}
use telemetrics_client.Common.{header_names}
use telemetrics_client.ProbeDaemon.{
  initialize_probe_daemon, TelemDaemon, add_client, add_pollfd, pollfds_room, find_client,
  del_pollfd, remove_client,
}
use telemetrics_client.Util.{reallocate, validate_event_id}
use telemetrics_client.ProbeDaemon.Moves.{Moves, view}
use telemetrics_client.ProbeDaemon.Refinement.{serve_pass-Moves}
use telemetrics_client.ProbeDaemon.Counts.{count}
use telemetrics_client.ProbeDaemon.EndToEnd.{record_arrives}
use telemetrics_client.ProbeDaemon.Loop.{
  hang_up, Events, goes_on, serve_pass, serve_from, serve_turn, serve_next, serve_entry,
  accept_client, serve_client, check_signal, is_signalled, poll, set_revents, start,
}
use telemetrics_client.ProbeDaemon.MachineId.{
  modified, absent, writable, update_machine_id, generate_machine_id, machine_id_write,
  read_machine_id_override, get_machine_id,
}
use telemetrics_client.ProbeDaemon.Handling.{Stuck}
use telemetrics_client.ProbeDaemon.Rounds.{AfterRound, IsUnreadable, main_round-Reached}
use telemetrics_client.ProbeDaemon.Main.{
  Refresh, MainState, Round, reports, Reached, begins, IsPossible, main_round, begin,
  refresh_machine_id, rewritten,
}
use telemetrics_client.ProbeDaemon.Receive.{
  arrives, receive_record, receive_size, process_sized, stage_file, terminate_client, handle_client,
}
use telemetrics_client.ProbeDaemon.Streams.{receive_record-bytes_of, bytes_of}
use telemetrics_client.ProbeDaemon.Identity.{update_machine_id-identity}
use telemetrics_client.Util.RandomId.{get_random_id, hex_digits, from_le}
use telemetrics_client.Record.{le32}
use telemetrics_client.Record.Packets.{header_lines}
use telemetrics_client.Record.Payload.{tm_set_payload, payload_is_ascii, is_print, is_space}
use telemetrics_client.Record.Probd.{process_record, machine_id}
use telemetrics_client.Record.Staged.{read_record, chomp}
use telemetrics_client.Record.Tokens.{replace_headers}
use telemetrics_client.Record.Wire.{concat, record_size, cfg_field, cfg_field_size, fill, packet}

receive_record-bytes_of_example :
    receive_record override
      (arrives 9 (0 ∷ 0 ∷ 0 ∷ 1 ∷ 2 ∷ []) ∷ arrives 3 [] ∷ arrives 4 (5 ∷ 6 ∷ []) ∷ [])
    ≡ (process_record override (1 ∷ 2 ∷ 3 ∷ 4 ∷ 5 ∷ []) >>= λ file. done (true, file))
receive_record-bytes_of_example =
    receive_record-bytes_of override 9 (0 ∷ 0 ∷ 0 ∷ 1 ∷ 2 ∷ [])
      (arrives 3 [] ∷ arrives 4 (5 ∷ 6 ∷ []) ∷ []) (1 ∷ 2 ∷ 3 ∷ 4 ∷ 5 ∷ []) (6 ∷ []) (omega arith)
      (λ e. absurd cc) (omega arith) (unfold le32 in refl)

-- A daemon with one client; another connects, and the first closes its connection.
abbrev serving : TelemDaemon
serving = record {
  pollfds =
      record { fd = 3; revents = false }
      ∷ record { fd = 4; revents = false }
      ∷ record { fd = 6; revents = false }
      ∷ [];
  current_alloc = 32;
  clients = 6 ∷ [];
  machine_id_override = none;
  staged = [];
  last_record_received = 10;
}

abbrev events : Events
events = record { accepted = some 7; received = λ fd. []; stored_id = none; served_at = 20 }

-- The daemon after that pass.
abbrev served : TelemDaemon
served = record {
  pollfds =
      record { fd = 3; revents = false }
      ∷ record { fd = 4; revents = true }
      ∷ record { fd = 7; revents = false }
      ∷ [];
  current_alloc = 32;
  clients = 7 ∷ [];
  machine_id_override = none;
  staged = [];
  last_record_received = 20;
}

serve_pass-Moves_example : Moves (some 7) (view serving) (view served)
unfolding serve_pass serve_from serve_turn serve_next serve_entry accept_client serve_client
    check_signal is_signalled poll set_revents add_client add_pollfd pollfds_room reallocate
    find_client handle_client receive_record receive_size process_sized stage_file terminate_client
    del_pollfd remove_client
serve_pass-Moves_example =
    serve_pass-Moves 4 (false ∷ true ∷ true ∷ []) events (hang_up true ∷ []) serving
      (goes_on (hang_up true ∷ []) served) refl

abbrev packet_bytes : Bytes
packet_bytes = le32 249 ++ (le32 235 ++ (concat (header_lines texts) ++ (codes "hello" ++ 0 ∷ [])))

sample-HasHeaders : HasHeaders sample texts
sample-HasHeaders = record {
  lines = sample-IsSound.lines;
  named = texts-AreHeaders;
  header_size = sample-IsSound.header_size;
}

sample_taken : tm_set_payload (codes "hello") sample ≡ (pos 0, sample)
unfolding tm_set_payload payload_is_ascii is_print is_space sample
sample_taken = refl

sample_small : record_size sample none ≤ 13500
unfolding record_size sample cfg_field_size
sample_small = omega arith

sample_sent :
    tm_send_record false calls (takes 100 ∷ takes 200 ∷ []) sample none
    ≡ done (some (pos 0), packet_bytes)
unfolding tm_send_record tm_write_socket tm_get_socket minus le32 sample concat header_lines texts
    header_names cfg_field cfg_field_size record_size fill packet
sample_sent = refl

packet_starts :
    (3 ≤ length (drop 1 packet_bytes))
    × (bytes_of (arrives 249 (drop 1 packet_bytes) ∷ []) ≡ packet_bytes ++ [])
unfolding le32 concat header_lines texts header_names
packet_starts = (omega arith, refl)

record_arrives_example :
    (file : Bytes) × (receive_record (codes "0123abcd") (arrives 249 (drop 1 packet_bytes) ∷ [])
      ≡ done (true, some file))
    × (read_record (some file)
        ≡ some (record {
          headers = replace_headers (codes "0123abcd") header_names texts;
          body = codes "hello" ++ b'\n' ∷ [];
          cfg_file = none;
        }))
unfolding machine_id read_machine_id_override get_machine_id chomp c_string
record_arrives_example =
    record_arrives sample sample texts (codes "hello") none (some (codes "0123abcd\n")) none false
      calls (takes 100 ∷ takes 200 ∷ []) packet_bytes 249 (drop 1 packet_bytes) [] []
      sample-HasHeaders (omega arith) sample_taken tt sample_small calls-AreSocketErrnos
      (omega arith) sample_sent packet_starts.0 packet_starts.1

-- Ten seconds after the start a client connects.
abbrev refresh : Refresh
refresh = record {
  now = 20;
  stat = absent;
  random_id = some (codes "0123456789abcdef0123456789abcdef");
  file = writable;
  later = 20;
}

abbrev begun : MainState
begun = record {
  daemon = record serving {
    pollfds = record { fd = 3; revents = false } ∷ record { fd = 4; revents = false } ∷ [];
    clients = [];
  };
  machine_id_file = refresh.random_id;
  last_refresh_time = 20;
}

begun-Reached : Reached 3 4 true begun
unfolding begin start add_pollfd pollfds_room initialize_probe_daemon reallocate refresh_machine_id
    rewritten update_machine_id generate_machine_id machine_id_write
begun-Reached = begins 10 none refresh none refl

begun-IsPossible : IsPossible 3 4 (reports (false ∷ true ∷ []) events (hang_up true ∷ [])) begun
unfolding count receive_record receive_size process_sized
begun-IsPossible = record { fresh = λ fd e. let same : 7 ≡ fd = cc in rw (sym same) refl }

main_round-Reached_example :
    ((round : Round) × (main_round 4 true
          (reports (false ∷ true ∷ []) events (hang_up true ∷ []))
          refresh
          begun
        ≡ done (some round))
      × AfterRound 3 4 true
          (reports (false ∷ true ∷ []) events (hang_up true ∷ []))
          refresh
          begun
          round)
    ⊎ (Stuck
          (main_round 4 true (reports (false ∷ true ∷ []) events (hang_up true ∷ [])) refresh begun)
        × IsUnreadable (reports (false ∷ true ∷ []) events (hang_up true ∷ [])))
main_round-Reached_example =
    main_round-Reached 3 4 true (reports (false ∷ true ∷ []) events (hang_up true ∷ [])) refresh
      begun (omega arith) begun-Reached (omega arith) begun-IsPossible

abbrev random_bytes : Bytes
random_bytes =
    0xef ∷ 0xcd ∷ 0xab ∷ 0x89 ∷ 0x67 ∷ 0x45 ∷ 0x23 ∷ 0x01 ∷ 0xef ∷ 0xcd ∷ 0xab ∷ 0x89 ∷ 0x67 ∷ 0x45
    ∷ 0x23 ∷ 0x01 ∷ []

abbrev random_id : Bytes
random_id = codes "0123456789abcdef0123456789abcdef"

-- Three days and a second later.
update_machine_id-identity_example :
    (update_machine_id (modified 0) 259201 (get_random_id (some random_bytes)) writable
      ≡ (pos 0, some random_id))
    × (machine_id none (get_machine_id (some random_id)) ≡ random_id)
    × (validate_event_id (some random_id) ≡ 0)
update_machine_id-identity_example =
    update_machine_id-identity (modified 0) 259201 (some random_bytes) random_id (omega arith)
      (unfold get_random_id hex_digits from_le in refl)
