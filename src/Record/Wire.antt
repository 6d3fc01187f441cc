-- ===== src/Record/Wire.antt =====
-- src/telemetry.c: the packet of `tm_send_record`.
use telemetrics_client.Base.{
  ℕ, ◌+◌, ◌-◌, ◌*◌, List, [], ◌∷◌, ◌++◌, Option, none, some, if◌then◌else◌, length, replicate, leb,
  take,
}
use telemetrics_client.Base.Bytes.{Bytes}
use telemetrics_client.Base.Run.{Run, done, fault}
use telemetrics_client.Common.{cfg_prefix, cfg_prefix_length}
use telemetrics_client.Record.{le32}

-- struct telem_record; a header is the text "name: value\n", an unset payload is no model value.
pub record TelemRecord : Type 0 where
  pub headers : List Bytes
  pub payload : Bytes
  pub header_size : ℕ
  pub payload_size : ℕ

unfoldable pub concat : List Bytes → Bytes
concat [] = []
concat (h ∷ hs) = h ++ concat hs

unfoldable pub cfg_field : Option Bytes → Bytes
cfg_field none = []
cfg_field (some cfg_file_name) = cfg_prefix ++ (cfg_file_name ++ 0 ∷ [])

unfoldable pub cfg_field_size : Option Bytes → ℕ
cfg_field_size none = 0
cfg_field_size (some cfg_file_name) = length cfg_file_name + 1 + cfg_prefix_length

unfoldable pub record_size : TelemRecord → Option Bytes → ℕ
record_size r cfg = 2 * 4 + (r.header_size + r.payload_size + cfg_field_size cfg) + 1

-- The pieces are copied one behind the other into a zeroed buffer of `record_size` bytes.
unfoldable pub fill : ℕ → Bytes → Run Bytes
fill size pieces =
    if leb (length pieces) size then done (pieces ++ replicate (size - length pieces) 0) else fault

unfoldable pub packet : TelemRecord → Option Bytes → Run Bytes
unfolding fill record_size concat cfg_field cfg_field_size
packet r cfg = fill (record_size r cfg) (
    le32 (record_size r cfg)
    ++ (cfg_field cfg
        ++ (le32 r.header_size ++ (concat r.headers ++ take r.payload_size r.payload))))
