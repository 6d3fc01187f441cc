-- ===== src/ProbeDaemon/Receive.antt =====
-- src/telemdaemon.c: `handle_client`. What is left to receive from a client is the list of what its
-- socket gives to one `recv` after the other.
use telemetrics_client.Base.{
  ℕ, ◌+◌, ◌-◌, ◌*◌, Bool, true, false, ◌||◌, List, [], ◌∷◌, ◌++◌, Option, none, some, ltb, leb,
  if◌then◌else◌, length, take, drop,
}
use telemetrics_client.Base.Bytes.{Bytes}
use telemetrics_client.Base.Run.{Run, done, ◌>>=◌}
use telemetrics_client.Common.{
  record_size_len, cfg_prefix_length, max_payload_length, num_headers, path_max,
}
use telemetrics_client.ProbeDaemon.{TelemDaemon, remove_client, del_pollfd}
use telemetrics_client.Record.{read_u32}
use telemetrics_client.Record.Probd.{process_record, machine_id}

-- Bytes have arrived, or recv fails; at the end of the list the client has closed the connection.
pub data Received : Type 0 where
  arrives : ℕ → Bytes → Received
  broken : Received

abbrev pub max_record_size : ℕ
max_record_size = 2 * 4 + cfg_prefix_length + path_max + max_payload_length + num_headers * 80

-- What a recv leaves of the bytes that have arrived.
unfoldable pub put_back : Bytes → List Received → List Received
put_back [] stream = stream
put_back (c ∷ cs) stream = arrives c cs ∷ stream

-- The peek, and the recv of the record size behind it. With less than four bytes the size is not
-- determined.
unfoldable pub receive_size : List Received → Run (Option (ℕ × List Received))
unfolding put_back
receive_size [] = done none
receive_size (broken ∷ stream) = done none
receive_size (arrives c cs ∷ stream) =
    read_u32 (take record_size_len (c ∷ cs))
    >>= (λ size. done (some (size, put_back (drop record_size_len (c ∷ cs)) stream)))

-- The loop of recv until `size` more bytes are there; none is an error or an early end.
unfoldable pub receive_body : ℕ → List Received → Option Bytes
receive_body size [] = none
receive_body size (broken ∷ stream) = none
receive_body size (arrives c cs ∷ stream) =
    let more = receive_body (size - length (c ∷ cs)) stream in
    if leb size (length (c ∷ cs))
    then some (take size (c ∷ cs))
    else (elim more [ none ↦ none | some rest ↦ some ((c ∷ cs) ++ rest) ])

unfoldable pub process_body : Bytes → Option Bytes → Run (Bool × Option Bytes)
process_body id none = done (false, none)
process_body id (some buf) = process_record id buf >>= (λ file. done (true, file))

unfoldable pub process_sized : Bytes → Option (ℕ × List Received) → Run (Bool × Option Bytes)
unfolding process_body receive_body
process_sized id none = done (false, none)
process_sized id (some (record_size, stream)) =
    if leb record_size record_size_len || ltb max_record_size record_size
    then done (false, none)
    else process_body id (receive_body (record_size - record_size_len) stream)

-- Up to `end_client`: whether a record was processed, and the file that it was staged in.
unfoldable pub receive_record : Bytes → List Received → Run (Bool × Option Bytes)
unfolding process_sized receive_size
receive_record id stream = receive_size stream >>= process_sized id

unfoldable pub terminate_client : ℕ → ℕ → TelemDaemon → Run TelemDaemon
terminate_client index place daemon =
    del_pollfd index daemon >>= (λ d. done (remove_client place d))

unfoldable pub stage_file : Option Bytes → TelemDaemon → TelemDaemon
stage_file none daemon = daemon
stage_file (some file) daemon = record daemon { staged = file ∷ daemon.staged }

-- `stored_id` is what get_machine_id finds.
unfoldable pub handle_client :
    Option Bytes → ℕ → ℕ → List Received → TelemDaemon → Run (Bool × TelemDaemon)
unfolding stage_file terminate_client receive_record
handle_client stored_id index place stream daemon =
    receive_record (machine_id daemon.machine_id_override stored_id) stream
    >>= (λ (processed, file).
        terminate_client index place (stage_file file daemon) >>= (λ d. done (processed, d)))
