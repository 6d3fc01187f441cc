-- ===== src/Record/Packets.antt =====
-- The packet of a sound record, piece by piece.
use mathlib.Core.List.{append_assoc}
use telemetrics_client.Base.{
  ℕ, ◌+◌, ◌-◌, ◌≡◌, ◌∙◌, refl, ap, true, List, [], ◌∷◌, ◌++◌, Option, some, none, length,
  length-append, take, leb, arith,
}
use telemetrics_client.Base.Bytes.{Bytes, Lacks}
use telemetrics_client.Base.Run.{done}
use telemetrics_client.Common.{header_names}
use telemetrics_client.Record.{le32}
use telemetrics_client.Record.Lines.{AreHeaders}
use telemetrics_client.Record.Probd.{stage_headers}
use telemetrics_client.Record.Tokens.{take_all}
use telemetrics_client.Record.Wire.{
  TelemRecord, concat, cfg_field, cfg_field_size, record_size, fill, packet,
}

-- The client's header strings: each text with its newline.
unfoldable pub header_lines : List Bytes → List Bytes
header_lines [] = []
header_lines (h ∷ hs) = (h ++ b'\n' ∷ []) ∷ header_lines hs

pub concat-header_lines : (hs : List Bytes) → concat (header_lines hs) ≡ stage_headers hs
unfolding concat header_lines stage_headers
concat-header_lines [] = refl
concat-header_lines (h ∷ hs) =
    rw (append_assoc h (b'\n' ∷ []) (concat (header_lines hs)), concat-header_lines hs)

-- A record as `tm_create_record` and `tm_set_payload` leave it: the texts `hs` with a newline each,
-- the sizes in step with the contents.
pub record IsSound (r : TelemRecord) (hs : List Bytes) : Type 0 where
  pub lines : r.headers ≡ header_lines hs
  pub named : AreHeaders header_names hs
  pub header_size : r.header_size ≡ length (concat r.headers)
  pub payload_size : r.payload_size ≡ length r.payload
  pub payload_text : Lacks 0 r.payload

pub length-le32 : (n : ℕ) (rest : Bytes) → length (le32 n ++ rest) ≡ 4 + length rest
unfolding le32
length-le32 n rest = omega arith

pub length-cfg_field : (cfg : Option Bytes) → length (cfg_field cfg) ≡ cfg_field_size cfg
unfolding cfg_field cfg_field_size
length-cfg_field none = refl
length-cfg_field (some path) = rw (length-append path (0 ∷ [])) (omega arith)

-- What follows the configuration field.
unfoldable pub tail_of : TelemRecord → List Bytes → Bytes
tail_of r hs = le32 r.header_size ++ (stage_headers hs ++ (r.payload ++ 0 ∷ []))

fill_one : (n : ℕ) (s : Bytes) → n ≡ length s + 1 → fill n s ≡ done (s ++ 0 ∷ [])
unfolding fill
fill_one n s e =
    let one : n - length s ≡ 1 = omega arith in
    let fits : leb (length s) n ≡ true = ground arith in rw (fits, one)

packet_size :
    (r : TelemRecord) (hs : List Bytes) (cfg : Option Bytes)
    → IsSound r hs
    → concat r.headers ≡ stage_headers hs
    → record_size r cfg
      ≡ length (
          le32 (record_size r cfg)
          ++ (cfg_field cfg ++ (le32 r.header_size ++ (stage_headers hs ++ r.payload))))
        + 1
unfolding record_size
packet_size r hs cfg s texts =
    let inner = le32 r.header_size ++ (stage_headers hs ++ r.payload) in
    omega (
      arith,
      length-le32 (record_size r cfg) (cfg_field cfg ++ inner),
      length-append (cfg_field cfg) inner,
      length-cfg_field cfg,
      length-le32 r.header_size (stage_headers hs ++ r.payload),
      length-append (stage_headers hs) r.payload,
      s.header_size,
      ap length texts,
      s.payload_size,
    )

pub packet-IsSound :
    (r : TelemRecord) (hs : List Bytes) (cfg : Option Bytes)
    → IsSound r hs
    → packet r cfg ≡ done (le32 (record_size r cfg) ++ (cfg_field cfg ++ tail_of r hs))
unfolding packet tail_of
packet-IsSound r hs cfg s =
    let texts : concat r.headers ≡ stage_headers hs = ap concat s.lines ∙ concat-header_lines hs in
    let all : take r.payload_size r.payload ≡ r.payload = rw s.payload_size (take_all r.payload) in
    rw (texts, all)
      (fill_one (record_size r cfg) _ (packet_size r hs cfg s texts) ∙ ap done (simp append_assoc))

pub length-tail_of :
    (r : TelemRecord) (hs : List Bytes)
    → length (tail_of r hs) ≡ 4 + length (stage_headers hs) + length r.payload + 1
unfolding tail_of
length-tail_of r hs = omega (
  arith,
  length-le32 r.header_size (stage_headers hs ++ (r.payload ++ 0 ∷ [])),
  length-append (stage_headers hs) (r.payload ++ 0 ∷ []),
  length-append r.payload (0 ∷ []),
)
