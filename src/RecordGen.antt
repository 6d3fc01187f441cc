-- ===== src/RecordGen.antt =====
-- src/probes/telem_record_gen.c: the payload, the record and the run of the command telem-record-gen.
-- The texts of help and version, of stderr and of the log are left out.
pub mod Options
pub mod Instances
pub mod Arrival
use telemetrics_client.Base.{
  ℕ, zero, ◌+◌, ◌-◌, Bool, true, false, List, [], ◌∷◌, ◌++◌, Option, none, some, if◌then◌else◌,
  take,
}
use telemetrics_client.Base.Bytes.{Bytes, c_string}
use telemetrics_client.Base.Int.{ℤ, pos, negsuc}
use telemetrics_client.Base.Run.{Run, done}
use telemetrics_client.Base.Run
use telemetrics_client.Client.EventId.{tm_set_event_id}
use telemetrics_client.Client.Headers.{ClientSystem, Made, made, refused, tm_create_record, ◌>>=◌}
use telemetrics_client.Client.Socket.{SocketCalls, Wrote, tm_send_record}
use telemetrics_client.Common.{max_payload_length}
use telemetrics_client.Record.Payload.{tm_set_payload}
use telemetrics_client.Record.Wire.{TelemRecord, concat}
use telemetrics_client.RecordGen.Options.{
  GenOptions, defaults, GenOption, severity, class, payload, Parsed, parsed, failed, exits,
  parse_options, validate_opts,
}

-- A file that does not open, or what fread gives of it and whether it fails.
pub data ReadFile : Type 0 where
  missing : ReadFile
  contents : Bytes → Bool → ReadFile

-- The C string in the zeroed buffer after at most MAX_PAYLOAD_LENGTH - 1 bytes are in it.
unfoldable pub in_buffer : Bytes → Bytes
in_buffer text = c_string (take (max_payload_length - 1) text)

unfoldable pub get_payload_from_file : ReadFile → Option Bytes
unfolding in_buffer
get_payload_from_file missing = none
get_payload_from_file (contents [] true) = none
get_payload_from_file (contents [] false) = some []
get_payload_from_file (contents (c ∷ cs) fails) = some (in_buffer (c ∷ cs))

-- The file, the option or the standard input.
unfoldable pub get_payload : GenOptions → ReadFile → Bytes → Option Bytes
unfolding get_payload_from_file in_buffer
get_payload g file stdin = elim g.opt_payload_file [
  | some path ↦ get_payload_from_file file
  | none ↦ elim g.opt_payload [ some text ↦ some (in_buffer text) | none ↦ some (in_buffer stdin) ]
]

-- The record, if the status is not negative.
unfoldable pub of_status : ℤ × TelemRecord → Made
of_status (pos n, r) = made r
of_status (negsuc n, r) = refused (negsuc n)

unfoldable pub with_event_id : Option Bytes → TelemRecord → Run Made
unfolding tm_set_event_id of_status
with_event_id none r = done (made r)
with_event_id (some id) r = done (of_status (tm_set_event_id (some id) r))

-- The class is there, as validate_opts has seen.
unfoldable pub class_of : GenOptions → Bytes
class_of g = elim g.opt_class [ none ↦ [] | some text ↦ text ]

unfoldable pub instanciate_record : ClientSystem → ℕ → GenOptions → Bytes → Run Made
unfolding with_event_id tm_set_payload of_status class_of
instanciate_record sys left_over g text =
    tm_create_record sys left_over g.severity (class_of g) g.payload_version
    >>= (λ r. with_event_id g.opt_event_id r)
    >>= (λ r. done (of_status (tm_set_payload text r)))

-- What print_record writes to the standard output.
unfoldable pub record_text : Made → Bytes
unfolding concat
record_text (refused status) = []
record_text (made r) = concat r.headers ++ (r.payload ++ b'\n' ∷ [])

-- What the client library meets in one call, besides the system of tm_create_record.
pub record Posting : Type 0 where
  pub opted_out : Bool
  pub calls : SocketCalls
  pub writes : List Wrote
  pub cfg_file : Option Bytes

unfoldable pub send_made : Posting → Made → Run (Option ℤ × Bytes)
unfolding tm_send_record
send_made p (refused status) = done (some status, [])
send_made p (made r) = tm_send_record p.opted_out p.calls p.writes r p.cfg_file

-- The exit status, if the last write has come back; the standard output; what was sent.
pub record GenRun : Type 0 where
  pub status : Option ℕ
  pub printed : Bytes
  pub sent : Bytes

unfoldable pub exit_of : Option ℤ → Option ℕ
exit_of none = none
exit_of (some (pos zero)) = some 0
exit_of (some _) = some 1

abbrev ended : ℕ → GenRun
ended status = record { status = some status; printed = []; sent = [] }

-- From the payload on; each of the two records has its own view of the system.
unfoldable pub run_payload :
    ClientSystem → ClientSystem → ℕ → Posting → GenOptions → Option Bytes → Run GenRun
unfolding instanciate_record record_text send_made exit_of
run_payload shown sys left_over p g none = done (ended 1)
run_payload shown sys left_over p g (some text) =
    Run.◌>>=◌
      (if g.opt_echo
        then Run.◌>>=◌ (instanciate_record shown left_over g text) (λ m. done (record_text m))
        else done [])
      (λ printed.
        if g.opt_nopost
        then done (record { status = some 0; printed = printed; sent = [] })
        else Run.◌>>=◌ (instanciate_record sys left_over g text) (λ m.
          Run.◌>>=◌ (send_made p m) (λ (status, sent).
            done (record { status = exit_of status; printed = printed; sent = sent }))))

unfoldable pub run_parsed :
    ClientSystem → ClientSystem → ℕ → Posting → ReadFile → Bytes → Parsed → Run GenRun
unfolding run_payload validate_opts get_payload
run_parsed shown sys left_over p file stdin failed = done (ended 1)
run_parsed shown sys left_over p file stdin (exits status) = done (ended status)
run_parsed shown sys left_over p file stdin (parsed g) =
    if validate_opts g
    then run_payload shown sys left_over p g (get_payload g file stdin)
    else done (ended 1)

unfoldable pub main :
    ClientSystem → ClientSystem → ℕ → Posting → ReadFile → Bytes → List GenOption → Run GenRun
unfolding run_parsed parse_options
main shown sys left_over p file stdin options =
    run_parsed shown sys left_over p file stdin (parse_options defaults options)
