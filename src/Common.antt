-- ===== src/Common.antt =====
-- src/common.c and src/common.h: the constants and the table of header names.
use telemetrics_client.Base.{ℕ, ◌*◌, List, [], ◌∷◌, get_or}
use telemetrics_client.Base.Bytes.{Bytes, codes}

abbrev pub num_headers : ℕ
num_headers = 15

abbrev pub tm_classification : ℕ
tm_classification = 1

abbrev pub tm_machine_id : ℕ
tm_machine_id = 3

abbrev pub tm_event_id : ℕ
tm_event_id = 14

abbrev pub path_max : ℕ
path_max = 4096

-- RECORD_SIZE_LEN, sizeof(uint32_t)
abbrev pub record_size_len : ℕ
record_size_len = 4

abbrev pub cfg_prefix : Bytes
cfg_prefix = codes "CFG:"

abbrev pub cfg_prefix_length : ℕ
cfg_prefix_length = 4

-- Record headers, in the order in which they are sent.
unfoldable pub header_names : List Bytes
header_names =
    codes "record_format_version"
    ∷ codes "classification"
    ∷ codes "severity"
    ∷ codes "machine_id"
    ∷ codes "creation_timestamp"
    ∷ codes "arch"
    ∷ codes "host_type"
    ∷ codes "build"
    ∷ codes "kernel_version"
    ∷ codes "payload_format_version"
    ∷ codes "system_name"
    ∷ codes "board_name"
    ∷ codes "cpu_model"
    ∷ codes "bios_version"
    ∷ codes "event_id"
    ∷ []

-- `assert(ind >= 0 && ind < NUM_HEADERS)` holds at every call, where `ind` counts up to
-- NUM_HEADERS.
pub get_header_name : ℕ → Bytes
get_header_name ind = get_or header_names ind []

abbrev pub max_payload_length : ℕ
max_payload_length = 8192

abbrev pub max_class_length : ℕ
max_class_length = 122

abbrev pub max_subcat_length : ℕ
max_subcat_length = 40

abbrev pub event_id_len : ℕ
event_id_len = 32

abbrev pub event_id_alphab : Bytes
event_id_alphab = codes "0123456789abcdef"

-- seconds
abbrev pub tm_daemon_exit_time : ℕ
tm_daemon_exit_time = 5 * 60

abbrev pub tm_spool_run_max : ℕ
tm_spool_run_max = tm_daemon_exit_time

abbrev pub tm_spool_run_min : ℕ
tm_spool_run_min = 2 * 60

abbrev pub tm_spool_max_send_records : ℕ
tm_spool_max_send_records = 50

abbrev pub tm_spool_max_process_records : ℕ
tm_spool_max_process_records = 60
