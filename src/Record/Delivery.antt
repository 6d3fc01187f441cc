-- ===== src/Record/Delivery.antt =====
-- From `tm_send_record` in the client through `process_record` in the probe daemon to
-- `read_record` in the post daemon.
use mathlib.Core.List.{append_assoc}
use telemetrics_client.Base.{
  ℕ, ◌+◌, ◌-◌, ◌<◌, ◌≤◌, ◌^◌, ◌%◌, ◌≡◌, ◌∙◌, refl, ap, true, false, List, [], ◌∷◌, ◌++◌, Option,
  some, none, ◌==◌, length, length-append, drop, leb, arith, Bool-cases, inl, inr,
}
use telemetrics_client.Base.Bytes.{
  Bytes, codes, Lacks, Lacks-append, is_prefix-append, equal, equal→eq,
}
use telemetrics_client.Base.Run.{done, ◌>>=◌}
use telemetrics_client.Common.{header_names, cfg_prefix, cfg_prefix_length, record_size_len}
use telemetrics_client.Record.{le32, read_u32, cfg_prefix_32bit}
use telemetrics_client.Record.Lines.{IsHeader, AreHeaders}
use telemetrics_client.Record.Probd.{
  c_string_in, stage_headers, stage_record, process_rest, process_record, body_at, replace_header,
  machine_id_name,
}
use telemetrics_client.Record.RoundTrip.{IsConfig, read_record-stage_record}
use telemetrics_client.Record.Staged.{read_record}
use telemetrics_client.Record.Tokens.{
  read_u32-le32, c_string_in-nul, strndup_in-append, drop-append, Lacks-stage_headers,
  tokens_from-stage_headers, replace_headers, take_headers-named, AreNames,
}
use telemetrics_client.Record.Wire.{TelemRecord, concat, cfg_field, record_size, packet}
use telemetrics_client.Record.Packets.{
  concat-header_lines, IsSound, tail_of, packet-IsSound, length-tail_of,
}

header_names-AreNames : AreNames header_names
unfolding header_names
header_names-AreNames = ground arith

body_at-tail :
    (s payload : Bytes)
    → Lacks 0 payload
    → body_at (length s) (s ++ (payload ++ 0 ∷ [])) ≡ done payload
unfolding body_at
body_at-tail s payload l =
    let inside : leb (length s) (length (s ++ (payload ++ 0 ∷ []))) ≡ true =
      ground (arith, length-append s (payload ++ 0 ∷ [])) in
    rw (inside, drop-append s (payload ++ 0 ∷ [])) (c_string_in-nul payload [] l)

-- The buffer from the header size on.
pub process_rest-tail_of :
    (r : TelemRecord) (hs : List Bytes) (id : Bytes) (cfg : Option Bytes) (size cfg_info_size : ℕ)
    → IsSound r hs
    → length (tail_of r hs) < 2 ^ 24
    → size ≡ cfg_info_size + length (tail_of r hs)
    → process_rest id size cfg_info_size cfg (tail_of r hs)
      ≡ done (some (stage_record (replace_headers id header_names hs) r.payload cfg))
unfolding process_rest
process_rest-tail_of r hs id cfg size cfg_info_size s small e =
    let block = stage_headers hs in
    let msg = block ++ (r.payload ++ 0 ∷ []) in
    let texts : concat r.headers ≡ block = ap concat s.lines ∙ concat-header_lines hs in
    let n : r.header_size ≡ length block = s.header_size ∙ ap length texts in
    let whole = length-tail_of r hs in
    let read : read_u32 (tail_of r hs) ≡ done (length block) =
      unfold tail_of in rw n (read_u32-le32 (length block) msg (omega arith)) in
    let rest : drop 4 (tail_of r hs) ≡ msg = unfold tail_of le32 in refl in
    let some_left : ((size + 2 ^ 64 - (cfg_info_size + length block)) % 2 ^ 64 == 0) ≡ false =
      ground arith in
    rw (read, ◌>>=◌, rest, some_left)
      (rw
        (strndup_in-append block (r.payload ++ 0 ∷ [])
          (Lacks-stage_headers header_names hs s.named))
        (rw
          (
            tokens_from-stage_headers header_names hs header_names-AreNames s.named,
            take_headers-named id header_names hs s.named,
          )
          (rw (body_at-tail block r.payload s.payload_text))))

-- A buffer that starts with the header size.
process_record-plain :
    (r : TelemRecord) (hs : List Bytes) (id : Bytes)
    → IsSound r hs
    → length (tail_of r hs) < 2 ^ 24
    → r.header_size < 2 ^ 24
    → process_record id (tail_of r hs)
      ≡ done (some (stage_record (replace_headers id header_names hs) r.payload none))
unfolding process_record
process_record-plain r hs id s small n =
    let read : read_u32 (tail_of r hs) ≡ done r.header_size =
      unfold tail_of in read_u32-le32 r.header_size _ (omega arith) in
    let plain : (r.header_size == cfg_prefix_32bit) ≡ false = ground arith in
    rw (read, ◌>>=◌, plain)
      (process_rest-tail_of r hs id none (length (tail_of r hs)) 0 s small (omega arith))

-- A buffer that starts with a configuration path.
process_record-config :
    (r : TelemRecord) (hs : List Bytes) (id path : Bytes)
    → IsSound r hs
    → Lacks 0 path
    → length (tail_of r hs) < 2 ^ 24
    → process_record id (cfg_field (some path) ++ tail_of r hs)
      ≡ done (some (stage_record (replace_headers id header_names hs) r.payload (some path)))
unfolding process_record cfg_field read_u32
process_record-config r hs id path s l small =
    let rest = tail_of r hs in
    let split : (path ++ 0 ∷ []) ++ rest ≡ path ++ 0 ∷ rest = append_assoc path (0 ∷ []) rest in
    let field = cfg_prefix ++ (path ++ 0 ∷ []) in
    let size : cfg_prefix_length + length path + 1 ≡ length field =
      omega (arith, length-append path (0 ∷ [])) in
    rw (ap c_string_in split ∙ c_string_in-nul path rest l) (
      rw (size, drop-append field rest)
        (process_rest-tail_of r hs id (some path) _ (length field) s small
          (length-append field rest)))

sizes-tail_of :
    (r : TelemRecord) (hs : List Bytes) (cfg : Option Bytes)
    → IsSound r hs
    → record_size r cfg < 2 ^ 24
    → (length (tail_of r hs) < 2 ^ 24) × (r.header_size < 2 ^ 24)
unfolding record_size
sizes-tail_of r hs cfg s small =
    let texts : concat r.headers ≡ stage_headers hs = ap concat s.lines ∙ concat-header_lines hs in
    omega (arith, length-tail_of r hs, s.header_size, ap length texts, s.payload_size)

-- What the daemon makes of the packet of a sound record: it stages the record's headers, with the
-- machine id replaced, its payload and its configuration file.
pub process_record-packet :
    (r : TelemRecord) (hs : List Bytes) (cfg : Option Bytes) (id : Bytes)
    → IsSound r hs
    → IsConfig cfg
    → record_size r cfg < 2 ^ 24
    → (packet r cfg >>= λ buf. process_record id (drop record_size_len buf))
      ≡ done (some (stage_record (replace_headers id header_names hs) r.payload cfg))
process_record-packet r hs none id s c small =
    let sizes = sizes-tail_of r hs none s small in
    rw (packet-IsSound r hs none s)
      (unfold le32 cfg_field in process_record-plain r hs id s sizes.0 sizes.1)
process_record-packet r hs (some path) id s c small =
    let sizes = sizes-tail_of r hs (some path) s small in
    rw (packet-IsSound r hs (some path) s)
      (unfold le32 in process_record-config r hs id path s c.no_nul sizes.0)

-- A machine id as the daemon puts it: 32 characters at most, on one line.
pub record IsId (id : Bytes) : Type 0 where
  pub no_newline : Lacks b'\n' id
  pub no_nul : Lacks 0 id
  pub short : length id ≤ 32

replace_header-IsHeader :
    (id name h : Bytes) → IsId id → IsHeader name h → IsHeader name (replace_header id name h)
unfolding replace_header machine_id_name
replace_header-IsHeader id name h i a = elim (Bool-cases (equal name machine_id_name)) [
  | inr other ↦ rw other a
  | inl same ↦
      rw (same, equal→eq name machine_id_name same)
        (record {
          named = is_prefix-append machine_id_name _;
          line =
              unfold machine_id_name in
              record {
                no_newline =
                    Lacks-append b'\n' (codes "machine_id: ") id (omega arith) i.no_newline;
                no_nul = Lacks-append 0 (codes "machine_id: ") id (omega arith) i.no_nul;
                fits = omega (arith, i.short);
              };
        })
]

pub replace_headers-AreHeaders :
    (id : Bytes) (names hs : List Bytes)
    → IsId id
    → AreHeaders names hs
    → AreHeaders names (replace_headers id names hs)
unfolding replace_headers
replace_headers-AreHeaders id [] [] i a = tt
replace_headers-AreHeaders id [] (h ∷ hs) i a = absurd a
replace_headers-AreHeaders id (name ∷ names) [] i a = absurd a
replace_headers-AreHeaders id (name ∷ names) (h ∷ hs) i a =
    (replace_header-IsHeader id name h i a.0, replace_headers-AreHeaders id names hs i a.1)

-- A sound record of less than 16 MiB, with a configuration path, if any, that fits on a line, and a
-- machine id of at most 32 bytes on one line, goes through: the probe daemon stages the client's
-- packet, and the post daemon reads from the staged file the same headers, but for the machine id,
-- the same configuration file, and the payload with a newline behind it.
pub delivery :
    (r : TelemRecord) (hs : List Bytes) (cfg : Option Bytes) (id : Bytes)
    → IsSound r hs
    → IsConfig cfg
    → IsId id
    → record_size r cfg < 2 ^ 24
    → (file : Bytes) × ((packet r cfg >>= λ buf. process_record id (drop record_size_len buf))
        ≡ done (some file))
      × (read_record (some file)
          ≡ some (record {
            headers = replace_headers id header_names hs;
            body = r.payload ++ b'\n' ∷ [];
            cfg_file = cfg;
          }))
delivery r hs cfg id s c i small = (
  stage_record (replace_headers id header_names hs) r.payload cfg,
  process_record-packet r hs cfg id s c small,
  read_record-stage_record _ r.payload cfg (replace_headers-AreHeaders id header_names hs i s.named)
      s.payload_text c,
)
