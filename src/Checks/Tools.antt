-- ===== src/Checks/Tools.antt =====
-- The command and the pstore probe at concrete inputs.
use telemetrics_client.Base.{
  ℕ, zero, suc, ◌<◌, ◌≡◌, inl, inr, refl, true, false, List, [], ◌∷◌, ◌++◌, some, none, arith,
  length, get_elem?,
}
use telemetrics_client.Base.Bytes.{Bytes, codes}
use telemetrics_client.Base.Int.{pos}
use telemetrics_client.Base.Run.{done}
use telemetrics_client.Checks.Clients.{system, system-IsUsable}
use telemetrics_client.Client.Creation.{HasHeaders}
use telemetrics_client.Client.Fields.{IsUsable}
use telemetrics_client.Client.Headers.{made}
use telemetrics_client.Client.Lines.{IsValue}
use telemetrics_client.Journal.{decimal}
use telemetrics_client.Oops.{ParserState}
use telemetrics_client.Pstore.{Chunk, size_of, assemble, parse_id}
use telemetrics_client.Pstore.Parts.{assemble-pieces}
use telemetrics_client.Pstore.Pieces.{AreFilled, AreParts, Has, whole, sizes}
use telemetrics_client.Record.Payload.{is_space}
use telemetrics_client.Record.Wire.{TelemRecord}
use telemetrics_client.RecordGen.{instanciate_record}
use telemetrics_client.RecordGen.Options.{
  GenOptions, validate_opts, parse_options, defaults, parsed, severity,
}
use telemetrics_client.RecordGen.Instances.{chosen_id, instanciate_record-HasHeaders}

abbrev pub options : GenOptions
options = record {
  severity = 3;
  opt_class = some (codes "a/b/c");
  opt_payload = none;
  payload_version = 1;
  opt_payload_file = none;
  opt_event_id = some (codes "fedcba9876543210fedcba9876543210");
  opt_echo = false;
  opt_nopost = false;
}

pub options_valid : validate_opts options ≡ true
unfolding validate_opts
options_valid = refl

abbrev pub random_id : Bytes
random_id = codes "0123456789abcdef0123456789abcdef"

pub random_id-IsValue : IsValue 32 random_id
random_id-IsValue = omega arith

abbrev pub usable : IsUsable system
usable = record system-IsUsable { random_id = (random_id, refl, random_id-IsValue) }

instanciate_record-HasHeaders_example :
    (r : TelemRecord) × (hs : List Bytes) × (instanciate_record system 7 options (codes "text")
      ≡ done (made r))
    × HasHeaders r hs
    × (r.payload ≡ codes "text")
    × (r.payload_size ≡ length (codes "text"))
    × (get_elem? hs 1 ≡ some (codes "classification" ++ (codes ": " ++ codes "a/b/c")))
    × (get_elem? hs 2 ≡ some (codes "severity" ++ (codes ": " ++ decimal 3)))
    × (get_elem? hs 14
        ≡ some (codes "event_id" ++ (codes ": " ++ chosen_id options.opt_event_id random_id)))
instanciate_record-HasHeaders_example =
    instanciate_record-HasHeaders system 7 options (codes "a/b/c") (codes "text") usable refl refl
      options_valid (omega arith) (omega arith) (omega arith) (omega arith)

abbrev parser : ParserState
parser = record {
  oops_msg = record { lines = []; pattern = none };
  in_stack_dump = false;
  handled = [];
}

-- The id of dmesg-efi-143994262108001: part 8, count 1.
id_parts : parse_id 143994262108001 ≡ (1, 8)
unfolding parse_id
id_parts = refl

abbrev chunk : ℕ → Bytes → Chunk
chunk k text = record { contents = some text; count = pos 0; part = pos k }

abbrev chunks : List Chunk
chunks = chunk 1 (codes "start ") ∷ chunk 0 (codes "end\n") ∷ []

abbrev pieces : List Bytes
pieces = codes "end\n" ∷ codes "start " ∷ []

chunks-Has : (k : ℕ) → k < length pieces → Has k chunks
chunks-Has zero h = inr (inl refl)
chunks-Has (suc zero) h = inl refl
chunks-Has (suc (suc k)) h = absurd (omega arith)

chunks-AreParts : AreParts pieces chunks
chunks-AreParts = (
  record { place = 1; piece = codes "start "; part = refl; there = refl; contents = refl },
  (record { place = 0; piece = codes "end\n"; part = refl; there = refl; contents = refl }, tt),
)

pieces-AreFilled : AreFilled pieces
pieces-AreFilled = ground arith

sizes_add_up : sizes chunks ≡ length (whole pieces)
unfolding size_of
sizes_add_up = refl

-- A number of 33 bits is cut to its last 32.
severity_wraps :
    parse_options defaults (severity (codes "4294967299") ∷ [])
    ≡ parsed (record defaults { severity = 3 })
unfolding parse_options is_space
severity_wraps = refl

assemble-pieces_example : assemble [] chunks ≡ done (some (whole pieces))
assemble-pieces_example =
    assemble-pieces [] (codes "end\n") (codes "start ") [] chunks pieces-AreFilled chunks-AreParts
      chunks-Has sizes_add_up
