-- ===== src/Client/Creation.antt =====
-- `tm_create_record` gives a record with its fifteen headers, one on each line.
use telemetrics_client.Base.{
  ℕ, ◌+◌, ◌≡◌, refl, ap, ◌∙◌, List, [], ◌∷◌, ◌++◌, some, length, length-append, get_elem?, arith,
  replicate,
}
use telemetrics_client.Base.Bytes.{Bytes, codes, Lacks}
use telemetrics_client.Base.Run.{done}
use telemetrics_client.Client.Attributes.{get_dmi_value-IsValue, cpu_model-IsValue}
use telemetrics_client.Client.Fields.{
  IsUsable, headers_of, header_texts, header_texts_lines, headers_of-AreHeaders,
  header_names-AreNames, weaken, decimal-IsValue, host_type-IsValue, board_value-IsValue,
  classification_short, values, AreValues,
}
use telemetrics_client.Client.Headers.{
  ClientSystem, made, put_header, set_header, set_read, set_found, or_unknown, host_type,
  board_value, clamp_severity, set_record_format_header, set_classification_header,
  set_severity_header, set_machine_id_header, set_timestamp_header, set_arch_header,
  set_host_type_header, set_system_build_header, set_kernel_version_header,
  set_payload_format_header, set_system_name_header, set_board_name_header, set_cpu_model_header,
  set_bios_version_header, set_event_id_header, allocate_header, tm_create_record,
}
use telemetrics_client.Client.Lines.{IsValue}
use telemetrics_client.Client.Values.{
  version_file, system_name, system_build, cpu_model, get_dmi_value,
}
use telemetrics_client.Client.Words.{system_name-IsValue, system_build-IsValue}
use telemetrics_client.Common.{header_names, num_headers}
use telemetrics_client.Journal.{decimal}
use telemetrics_client.Record.Lines.{AreHeaders}
use telemetrics_client.Record.Packets.{header_lines}
use telemetrics_client.Record.Wire.{TelemRecord, concat}
use telemetrics_client.Util.{validate_classification}

-- The headers `hs`, one on each line, and their size.
pub record HasHeaders (r : TelemRecord) (hs : List Bytes) : Type 0 where
  pub lines : r.headers ≡ header_lines hs
  pub named : AreHeaders header_names hs
  pub header_size : r.header_size ≡ length (concat r.headers)

-- The record before its first header.
abbrev blank : ℕ → TelemRecord
blank left_over = record {
  headers = replicate num_headers [];
  payload = [];
  header_size = 0;
  payload_size = left_over;
}

-- The record with the headers of these values, set in their order.
filled : ℕ → List Bytes → TelemRecord
filled left_over
      (v0 ∷ v1 ∷ v2 ∷ v3 ∷ v4 ∷ v5 ∷ v6 ∷ v7 ∷ v8 ∷ v9 ∷ v10 ∷ v11 ∷ v12 ∷ v13 ∷ v14 ∷ []) =
    put_header 14 (codes "event_id") v14 (
      put_header 13 (codes "bios_version") v13 (
        put_header 12 (codes "cpu_model") v12 (
          put_header 11 (codes "board_name") v11 (
            put_header 10 (codes "system_name") v10 (
              put_header 9 (codes "payload_format_version") v9 (
                put_header 8 (codes "kernel_version") v8 (
                  put_header 7 (codes "build") v7 (
                    put_header 6 (codes "host_type") v6 (
                      put_header 5 (codes "arch") v5 (
                        put_header 4 (codes "creation_timestamp") v4 (
                          put_header 3 (codes "machine_id") v3 (
                            put_header 2 (codes "severity") v2 (
                              put_header 1 (codes "classification") v1 (
                                put_header 0 (codes "record_format_version") v0
                                  (blank left_over)))))))))))))))
filled left_over _ = blank left_over

allocate_filled :
    (sys : ClientSystem) (left_over severity : ℕ) (classification : Bytes) (version : ℕ)
    (host build board cpu bios id : Bytes)
    → validate_classification (some classification) ≡ done 0
    → host_type sys ≡ done host
    → system_build (version_file sys.site_version sys.dist_version) ≡ done build
    → board_value sys ≡ done board
    → cpu_model sys.cpuinfo ≡ some cpu
    → get_dmi_value (codes "bv") sys.bios_version ≡ done bios
    → sys.random_id ≡ some id
    → tm_create_record sys left_over severity classification version
      ≡ done (
          made (
            filled left_over
              (values sys severity classification version host build board cpu bios id)))
unfolding tm_create_record allocate_header filled set_record_format_header set_classification_header
    set_severity_header set_machine_id_header set_timestamp_header set_arch_header
    set_host_type_header set_system_build_header set_kernel_version_header set_payload_format_header
    set_system_name_header set_board_name_header set_cpu_model_header set_bios_version_header
    set_event_id_header set_header set_read set_found
allocate_filled sys left_over severity classification version host build board cpu bios id c h b o p
      d i =
    rw (c, h, b, o, p, d, i) refl

abbrev sizes : List Bytes → ℕ
sizes [] = 0
sizes (h ∷ hs) = length h + sizes hs

length-concat : (hs : List Bytes) → length (concat hs) ≡ sizes hs
unfolding concat
length-concat [] = omega arith
length-concat (h ∷ hs) = omega (arith, length-append h (concat hs), length-concat hs)

filled_headers :
    (left_over : ℕ) (v0 v1 v2 v3 v4 v5 v6 v7 v8 v9 v10 v11 v12 v13 v14 : Bytes)
    → let vs = v0 ∷ v1 ∷ v2 ∷ v3 ∷ v4 ∷ v5 ∷ v6 ∷ v7 ∷ v8 ∷ v9 ∷ v10 ∷ v11 ∷ v12 ∷ v13 ∷ v14 ∷ [] in
      ((filled left_over vs).headers ≡ header_texts header_names vs)
      × ((filled left_over vs).header_size ≡ length (concat (filled left_over vs).headers))
unfolding filled put_header header_texts header_names
filled_headers left_over v0 v1 v2 v3 v4 v5 v6 v7 v8 v9 v10 v11 v12 v13 v14 =
    let vs = v0 ∷ v1 ∷ v2 ∷ v3 ∷ v4 ∷ v5 ∷ v6 ∷ v7 ∷ v8 ∷ v9 ∷ v10 ∷ v11 ∷ v12 ∷ v13 ∷ v14 ∷ [] in
    (refl, omega (arith, length-concat (filled left_over vs).headers))

values-AreValues :
    (sys : ClientSystem) (severity : ℕ) (classification : Bytes) (version : ℕ)
    (host build board cpu bios id : Bytes)
    → IsUsable sys
    → IsValue 300 classification
    → IsValue 300 host
    → IsValue 79 build
    → IsValue 300 board
    → IsValue 79 cpu
    → IsValue 79 bios
    → IsValue 32 id
    → AreValues header_names
        (values sys severity classification version host build board cpu bios id)
unfolding header_names
values-AreValues sys severity classification version host build board cpu bios id u c h b o p d i =
    let machine = weaken 64 (or_unknown sys.machine) (omega arith) u.machine in
    let release = weaken 64 (or_unknown sys.release) (omega arith) u.release in
    let file = version_file sys.site_version sys.dist_version in
    let name = weaken 79 (system_name file) (omega arith) (system_name-IsValue file) in
    let model = weaken 79 cpu (omega arith) p in
    let firmware = weaken 79 bios (omega arith) d in
    let event = weaken 32 id (omega arith) i in
    let built = weaken 79 build (omega arith) b in
    let format = decimal-IsValue version in
    let time = decimal-IsValue sys.now in
    let level = decimal-IsValue (clamp_severity severity) in
    (
      decimal-IsValue 4,
      (
        c,
        (
          level,
          (
            omega arith,
            (
              time,
              (
                machine,
                (h, (built, (release, (format, (name, (o, (model, (firmware, (event, tt))))))))),
              ),
            ),
          ),
        ),
      ),
    )

-- On a usable system, tm_create_record with a classification that is valid and holds no newline and
-- no NUL succeeds: the record has a header for each name in order, each on one line, with the
-- classification, the severity, clamped to 1 to 4, and the random id as the event id in their places,
-- and header_size is the length of all headers.
pub tm_create_record-HasHeaders :
    (sys : ClientSystem) (left_over severity : ℕ) (classification : Bytes) (version : ℕ)
    (u : IsUsable sys)
    → validate_classification (some classification) ≡ done 0
    → Lacks b'\n' classification
    → Lacks 0 classification
    → (r : TelemRecord) × (hs : List Bytes) × (tm_create_record sys left_over severity
          classification version
        ≡ done (made r))
      × HasHeaders r hs
      × (get_elem? hs 1 ≡ some (codes "classification" ++ (codes ": " ++ classification)))
      × (get_elem? hs 2
          ≡ some (codes "severity" ++ (codes ": " ++ decimal (clamp_severity severity))))
      × (get_elem? hs 14 ≡ some (codes "event_id" ++ (codes ": " ++ u.random_id.0)))
unfolding headers_of header_names
tm_create_record-HasHeaders sys left_over severity classification version u valid line text =
    let (host, h, host_is) = host_type-IsValue sys u in
    let (build, b, build_is) =
      system_build-IsValue (version_file sys.site_version sys.dist_version) u.version in
    let (board, o, board_is) = board_value-IsValue sys u in
    let (file, opens) = u.cpuinfo in
    let (cpu, p, cpu_is) = cpu_model-IsValue file in
    let (bios, d, bios_is) =
      get_dmi_value-IsValue (codes "bv") sys.bios_version (omega arith) u.bios_version in
    let (id, i, id_is) = u.random_id in
    let given : IsValue 300 classification = record {
      no_newline = line;
      no_nul = text;
      short = omega (arith, classification_short classification valid);
    } in
    let vs = values sys severity classification version host build board cpu bios id in
    let (lines, size) =
      filled_headers left_over (decimal 4) classification (decimal (clamp_severity severity))
        (codes "FFFFFFFF") (decimal sys.now) (or_unknown sys.machine) host build
        (or_unknown sys.release) (decimal version)
        (system_name (version_file sys.site_version sys.dist_version)) board cpu bios id in
    (
      filled left_over vs,
      headers_of header_names vs,
      allocate_filled sys left_over severity classification version host build board cpu bios id
          valid h b o (ap cpu_model opens ∙ p) d i,
      record {
        lines = lines ∙ header_texts_lines header_names vs;
        named = headers_of-AreHeaders header_names vs header_names-AreNames (
            values-AreValues sys severity classification version host build board cpu bios id u
              given host_is build_is board_is cpu_is bios_is id_is);
        header_size = size;
      },
      refl,
      refl,
      refl,
    )
