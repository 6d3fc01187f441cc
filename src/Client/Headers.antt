-- ===== src/Client/Headers.antt =====
-- src/telemetry.c: the set_*_header functions, allocate_header and tm_create_record. The files of the
-- system do not change during a call.
use telemetrics_client.Base.{
  ℕ, ◌+◌, [], ◌∷◌, ◌++◌, Option, none, some, ltb, ◌==◌, if◌then◌else◌, length, set, replicate,
}
use telemetrics_client.Base.Bytes.{Bytes, codes}
use telemetrics_client.Base.Int.{ℤ, negsuc}
use telemetrics_client.Base.Run.{Run, done, exit, fault}
use telemetrics_client.Base.Run
use telemetrics_client.Client.Values.{
  version_file, system_name, system_build, cpu_model, get_dmi_value,
}
use telemetrics_client.Common.{num_headers}
use telemetrics_client.Journal.{decimal}
use telemetrics_client.Record.Payload.{minus_einval}
use telemetrics_client.Record.Wire.{TelemRecord}
use telemetrics_client.Util.{validate_classification}

-- What the system gives to one call of tm_create_record: two of the texts of uname, os-release of the
-- site and of the distribution, /proc/cpuinfo, the files under /sys/class/dmi/id, the time and
-- get_random_id.
pub record ClientSystem : Type 0 where
  pub machine : Option Bytes
  pub release : Option Bytes
  pub site_version : Option Bytes
  pub dist_version : Option Bytes
  pub cpuinfo : Option Bytes
  pub sys_vendor : Option Bytes
  pub product_name : Option Bytes
  pub product_version : Option Bytes
  pub board_name : Option Bytes
  pub board_vendor : Option Bytes
  pub bios_version : Option Bytes
  pub now : ℕ
  pub random_id : Option Bytes

-- A record, or a negative status.
pub data Made : Type 0 where
  made : TelemRecord → Made
  refused : ℤ → Made

-- The next header is set if the status is not negative.
infixl 5 ◌>>=◌
abbrev pub ◌>>=◌ : Run Made → (TelemRecord → Run Made) → Run Made
done (made r) >>= f = f r
done (refused status) >>= f = done (refused status)
exit >>= f = exit
fault >>= f = fault

-- "%s: %s\n"
unfoldable pub header_text : Bytes → Bytes → Bytes
header_text prefix value = prefix ++ (codes ": " ++ (value ++ b'\n' ∷ []))

unfoldable pub put_header : ℕ → Bytes → Bytes → TelemRecord → TelemRecord
put_header ind prefix value r = record r {
  headers = set r.headers ind (header_text prefix value);
  header_size = r.header_size + length (header_text prefix value);
}

unfoldable pub set_header : ℕ → Bytes → Bytes → TelemRecord → Run Made
set_header ind prefix value r = done (made (put_header ind prefix value r))

-- A value whose reading can leave its buffer.
unfoldable pub set_read : ℕ → Bytes → Run Bytes → TelemRecord → Run Made
unfolding set_header
set_read ind prefix value r = Run.◌>>=◌ value (λ v. set_header ind prefix v r)

unfoldable pub set_record_format_header : TelemRecord → Run Made
set_record_format_header = set_header 0 (codes "record_format_version") (decimal 4)

classified : Bytes → ℕ → TelemRecord → Run Made
classified classification verdict r =
    if verdict == 1
    then done (refused minus_einval)
    else set_header 1 (codes "classification") classification r

unfoldable pub set_classification_header : Bytes → TelemRecord → Run Made
unfolding classified
set_classification_header classification r =
    Run.◌>>=◌ (validate_classification (some classification))
      (λ verdict. classified classification verdict r)

unfoldable pub clamp_severity : ℕ → ℕ
clamp_severity severity = if ltb 4 severity then 4 else if ltb severity 1 then 1 else severity

unfoldable pub set_severity_header : ℕ → TelemRecord → Run Made
set_severity_header severity = set_header 2 (codes "severity") (decimal (clamp_severity severity))

unfoldable pub set_machine_id_header : TelemRecord → Run Made
set_machine_id_header = set_header 3 (codes "machine_id") (codes "FFFFFFFF")

unfoldable pub set_timestamp_header : ClientSystem → TelemRecord → Run Made
set_timestamp_header sys = set_header 4 (codes "creation_timestamp") (decimal sys.now)

unfoldable pub or_unknown : Option Bytes → Bytes
or_unknown none = codes "unknown"
or_unknown (some text) = text

unfoldable pub set_arch_header : ClientSystem → TelemRecord → Run Made
set_arch_header sys = set_header 5 (codes "arch") (or_unknown sys.machine)

unfoldable pub host_type : ClientSystem → Run Bytes
host_type sys = Run.◌>>=◌ (get_dmi_value (codes "sv") sys.sys_vendor) (λ sv.
    Run.◌>>=◌ (get_dmi_value (codes "pn") sys.product_name) (λ pn.
      Run.◌>>=◌ (get_dmi_value (codes "pvr") sys.product_version)
        (λ pvr. done (sv ++ b'|' ∷ pn ++ b'|' ∷ pvr))))

unfoldable pub set_host_type_header : ClientSystem → TelemRecord → Run Made
set_host_type_header sys = set_read 6 (codes "host_type") (host_type sys)

unfoldable pub set_system_build_header : ClientSystem → TelemRecord → Run Made
set_system_build_header sys =
    set_read 7 (codes "build") (system_build (version_file sys.site_version sys.dist_version))

unfoldable pub set_kernel_version_header : ClientSystem → TelemRecord → Run Made
set_kernel_version_header sys = set_header 8 (codes "kernel_version") (or_unknown sys.release)

unfoldable pub set_payload_format_header : ℕ → TelemRecord → Run Made
set_payload_format_header payload_version =
    set_header 9 (codes "payload_format_version") (decimal payload_version)

unfoldable pub set_system_name_header : ClientSystem → TelemRecord → Run Made
set_system_name_header sys =
    set_header 10 (codes "system_name")
      (system_name (version_file sys.site_version sys.dist_version))

unfoldable pub board_value : ClientSystem → Run Bytes
board_value sys =
    Run.◌>>=◌ (get_dmi_value (codes "bn") sys.board_name)
      (λ bn. Run.◌>>=◌ (get_dmi_value (codes "bv") sys.board_vendor) (λ bv. done (bn ++ b'|' ∷ bv)))

unfoldable pub set_board_name_header : ClientSystem → TelemRecord → Run Made
set_board_name_header sys = set_read 11 (codes "board_name") (board_value sys)

-- -1 for a file that does not open, and for no random id.
unfoldable pub set_found : ℕ → Bytes → Option Bytes → TelemRecord → Run Made
unfolding set_header
set_found ind prefix none r = done (refused (negsuc 0))
set_found ind prefix (some value) r = set_header ind prefix value r

unfoldable pub set_cpu_model_header : ClientSystem → TelemRecord → Run Made
set_cpu_model_header sys = set_found 12 (codes "cpu_model") (cpu_model sys.cpuinfo)

unfoldable pub set_bios_version_header : ClientSystem → TelemRecord → Run Made
set_bios_version_header sys =
    set_read 13 (codes "bios_version") (get_dmi_value (codes "bv") sys.bios_version)

unfoldable pub set_event_id_header : ClientSystem → TelemRecord → Run Made
set_event_id_header sys = set_found 14 (codes "event_id") sys.random_id

unfoldable pub allocate_header : ClientSystem → ℕ → Bytes → ℕ → TelemRecord → Run Made
allocate_header sys severity classification payload_version r = do
  r0 ← set_record_format_header r
  r1 ← set_classification_header classification r0
  r2 ← set_severity_header severity r1
  r3 ← set_machine_id_header r2
  r4 ← set_timestamp_header sys r3
  r5 ← set_arch_header sys r4
  r6 ← set_host_type_header sys r5
  r7 ← set_system_build_header sys r6
  r8 ← set_kernel_version_header sys r7
  r9 ← set_payload_format_header payload_version r8
  r10 ← set_system_name_header sys r9
  r11 ← set_board_name_header sys r10
  r12 ← set_cpu_model_header sys r11
  r13 ← set_bios_version_header sys r12
  set_event_id_header sys r13

-- payload_size is what malloc left there, until a payload is set.
unfoldable pub tm_create_record : ClientSystem → ℕ → ℕ → Bytes → ℕ → Run Made
tm_create_record sys left_over severity classification payload_version =
    allocate_header sys severity classification payload_version (record {
      headers = replicate num_headers [];
      payload = [];
      header_size = 0;
      payload_size = left_over;
    })
