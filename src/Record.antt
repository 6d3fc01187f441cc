-- ===== src/Record.antt =====
-- A telemetry record on its way: src/telemetry.c sends it (Wire), src/telemdaemon.c stages it in a
-- file (Probd), src/iorecord.c reads that file back (Staged).
pub mod Wire
pub mod Staged
pub mod Probd
pub mod Lines
pub mod RoundTrip
pub mod Tokens
pub mod Packets
pub mod Delivery
pub mod Payload
use telemetrics_client.Base.{
  ℕ, zero, suc, ◌+◌, ◌*◌, ◌/◌, ◌%◌, Bool, List, [], ◌∷◌, ◌++◌, Option, ◌==◌, if◌then◌else◌,
}
use telemetrics_client.Base.Bytes.{Bytes}
use telemetrics_client.Base.Run.{Run, done, fault}

-- What `read_record` hands to its caller: headers without the newline, and C strings.
pub record StagedRecord : Type 0 where
  pub headers : List Bytes
  pub body : Bytes
  pub cfg_file : Option Bytes

-- The four bytes of a uint32_t in memory, least significant first.
unfoldable pub le32 : ℕ → Bytes
le32 n = n % 256 ∷ n / 256 % 256 ∷ n / 65536 % 256 ∷ n / 16777216 % 256 ∷ []

-- `*(uint32_t *)p`
unfoldable pub read_u32 : Bytes → Run ℕ
read_u32 (a ∷ b ∷ c ∷ d ∷ rest) = done (a + 256 * b + 65536 * c + 16777216 * d)
read_u32 _ = fault

abbrev pub cfg_prefix_32bit : ℕ
cfg_prefix_32bit = 0x3a474643

-- strtok(s, "\n") and its later calls: the non-empty texts between newlines.
unfoldable pub tokens_from : Bytes → Bytes → List Bytes
tokens_from [] [] = []
tokens_from (w ∷ ws) [] = (w ∷ ws) ∷ []
tokens_from [] (c ∷ cs) = tokens_from (if c == b'\n' then [] else c ∷ []) cs
tokens_from (w ∷ ws) (c ∷ cs) =
    let next = tokens_from [] cs in
    let more = tokens_from ((w ∷ ws) ++ c ∷ []) cs in if c == b'\n' then (w ∷ ws) ∷ next else more
