-- ===== src/ProbeDaemon/EndToEnd.antt =====
-- A record from the client's calls through the socket and the probe daemon to the post daemon.
use mathlib.Core.List.{append_assoc}
use telemetrics_client.Base.{
  ℕ, ◌+◌, ◌≤◌, ◌<◌, ◌^◌, ◌≡◌, ◌≢◌, refl, sym, ap, ◌∙◌, Bool, true, List, [], ◌∷◌, ◌++◌, Option,
  none, some, length, length-append, drop, arith,
}
use telemetrics_client.Base.Bytes.{Bytes, Lacks}
use telemetrics_client.Base.Int.{pos}
use telemetrics_client.Base.Run.{done, ◌>>=◌}
use telemetrics_client.Client.Creation.{HasHeaders}
use telemetrics_client.Client.Sending.{AreSocketErrnos, tm_send_record_sent}
use telemetrics_client.Client.Socket.{Wrote, SocketCalls, tm_send_record}
use telemetrics_client.Client.Writing.{AreErrnos}
use telemetrics_client.Common.{header_names, record_size_len}
use telemetrics_client.ProbeDaemon.MachineId.{
  read_machine_id_override, get_machine_id, machine_id-IsId,
}
use telemetrics_client.ProbeDaemon.Receive.{Received, arrives, max_record_size, receive_record}
use telemetrics_client.ProbeDaemon.Streams.{bytes_of, receive_record-bytes_of}
use telemetrics_client.Record.{le32}
use telemetrics_client.Record.Delivery.{IsId, delivery}
use telemetrics_client.Record.Packets.{
  IsSound, tail_of, packet-IsSound, concat-header_lines, length-cfg_field, length-tail_of,
}
use telemetrics_client.Record.Payload.{tm_set_payload, tm_set_payload_taken}
use telemetrics_client.Record.Probd.{process_record, machine_id}
use telemetrics_client.Record.RoundTrip.{IsConfig}
use telemetrics_client.Record.Staged.{read_record}
use telemetrics_client.Record.Tokens.{replace_headers}
use telemetrics_client.Record.Wire.{TelemRecord, packet, record_size, cfg_field, concat}

-- Headers with a payload that tm_set_payload took make a sound record.
pub set_payload-IsSound :
    (payload : Bytes) (r s : TelemRecord) (hs : List Bytes)
    → HasHeaders r hs
    → Lacks 0 payload
    → tm_set_payload payload r ≡ (pos 0, s)
    → IsSound s hs × (s.payload ≡ payload)
set_payload-IsSound payload r s hs h l e = rw (tm_set_payload_taken payload r s e) (
  record {
    lines = h.lines;
    named = h.named;
    header_size = h.header_size;
    payload_size = refl;
    payload_text = l;
  },
  refl,
)

-- What follows the record size.
body_of : TelemRecord → List Bytes → Option Bytes → Bytes
body_of r hs cfg = cfg_field cfg ++ tail_of r hs

length-body_of :
    (r : TelemRecord) (hs : List Bytes) (cfg : Option Bytes)
    → IsSound r hs
    → length (body_of r hs cfg) + 4 ≡ record_size r cfg
unfolding record_size body_of
length-body_of r hs cfg s = omega (
  arith,
  length-append (cfg_field cfg) (tail_of r hs),
  length-cfg_field cfg,
  length-tail_of r hs,
  s.header_size,
  ap length (ap concat s.lines ∙ concat-header_lines hs),
  s.payload_size,
)

body_of_nonempty : (r : TelemRecord) (hs : List Bytes) (cfg : Option Bytes) → body_of r hs cfg ≢ []
unfolding body_of tail_of cfg_field le32
body_of_nonempty r hs none e = absurd cc
body_of_nonempty r hs (some path) e = absurd cc

done-inj : {m n : Bytes} → done m ≡ done n → m ≡ n
done-inj e = cc

-- The packet has the size that it names.
pub length-sent :
    (r : TelemRecord) (hs : List Bytes) (cfg : Option Bytes) (out : Bytes)
    → IsSound r hs
    → packet r cfg ≡ done out
    → length out ≡ record_size r cfg
unfolding body_of le32
length-sent r hs cfg out s made =
    let whole = done-inj (sym made ∙ packet-IsSound r hs cfg s) in
    ap length whole ∙ omega (arith, length-body_of r hs cfg s)

-- What the daemon makes of the body.
process_body-IsSound :
    (r : TelemRecord) (hs : List Bytes) (cfg : Option Bytes) (id : Bytes)
    → IsSound r hs
    → IsConfig cfg
    → IsId id
    → record_size r cfg < 2 ^ 24
    → (file : Bytes) × (process_record id (body_of r hs cfg) ≡ done (some file))
      × (read_record (some file)
          ≡ some (record {
            headers = replace_headers id header_names hs;
            body = r.payload ++ b'\n' ∷ [];
            cfg_file = cfg;
          }))
unfolding body_of le32
process_body-IsSound r hs cfg id s c i small =
    let (file, processed, reads) = delivery r hs cfg id s c i small in
    let made : (packet r cfg >>= λ buf. process_record id (drop record_size_len buf))
        ≡ process_record id (cfg_field cfg ++ tail_of r hs) =
      rw (packet-IsSound r hs cfg s) refl in
    (file, sym made ∙ processed, reads)

-- A C string that tm_set_payload takes as the payload of a record with its headers, sent with status
-- 0 where no errno is 0, in a packet of at most 13500 bytes and with a configuration path, if any,
-- that fits on a line: in whatever pieces the bytes come in behind the first four, the probe daemon,
-- whatever its two files of machine ids hold, stages the record, and the post daemon reads back the
-- client's headers, with the machine id in its place, the configuration path, and the payload with a
-- newline behind it.
pub record_arrives :
    (r s : TelemRecord) (hs : List Bytes) (payload : Bytes) (cfg override stored : Option Bytes)
    (opted_out : Bool) (calls : SocketCalls) (writes : List Wrote) (out : Bytes) (c : ℕ)
    (cs : Bytes) (stream : List Received) (rest : Bytes)
    → HasHeaders r hs
    → Lacks 0 payload
    → tm_set_payload payload r ≡ (pos 0, s)
    → IsConfig cfg
    → record_size s cfg ≤ max_record_size
    → AreSocketErrnos calls
    → AreErrnos writes
    → tm_send_record opted_out calls writes s cfg ≡ done (some (pos 0), out)
    → 3 ≤ length cs
    → bytes_of (arrives c cs ∷ stream) ≡ out ++ rest
    → let id = machine_id (read_machine_id_override override) (get_machine_id stored) in
      (file : Bytes) × (receive_record id (arrives c cs ∷ stream) ≡ done (true, some file))
      × (read_record (some file)
          ≡ some (record {
            headers = replace_headers id header_names hs;
            body = payload ++ b'\n' ∷ [];
            cfg_file = cfg;
          }))
unfolding body_of
record_arrives r s hs payload cfg override stored opted_out calls writes out c cs stream rest h l
      set conf small sock errs sent first bytes =
    let id = machine_id (read_machine_id_override override) (get_machine_id stored) in
    let i = machine_id-IsId override stored in
    let (sound, same) = set_payload-IsSound payload r s hs h l set in
    let (_, _, made) = tm_send_record_sent opted_out calls writes s cfg out sock errs sent in
    let (file, processed, reads) =
      process_body-IsSound s hs cfg id sound conf i (omega (arith, small)) in
    let body = body_of s hs cfg in
    let size = length-body_of s hs cfg sound in
    let whole : out ≡ le32 (length body + 4) ++ body =
      done-inj (sym made ∙ packet-IsSound s hs cfg sound) ∙ ap (λ n. le32 n ++ body) (sym size) in
    let received =
      receive_record-bytes_of id c cs stream body rest first (body_of_nonempty s hs cfg)
        (omega (arith, small, size))
        (bytes ∙ ap (λ b. b ++ rest) whole ∙ append_assoc (le32 (length body + 4)) body rest) in
    (file, received ∙ rw processed refl, rw (sym same) reads)
