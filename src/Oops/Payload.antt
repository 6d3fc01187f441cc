-- ===== src/Oops/Payload.antt =====
-- `parse_backtrace` and `parse_payload` of src/probes/oops_parser.c, and what
-- `klog_process_oops_msgs` of src/probes/klog_scanner.c sends.
pub mod Addresses
pub mod Lengths
pub mod Turns
pub mod Values
pub mod Fields
pub mod TraceLines
pub mod Traces
pub mod Versions
pub mod Unset
use mathlib.Core.List.{reverse}
use telemetrics_client.Base.{
  ℕ, suc, Bool, true, false, ◌&&◌, ◌||◌, List, [], ◌∷◌, ◌++◌, Option, none, some, if◌then◌else◌,
  length, drop,
}
use telemetrics_client.Base.Bytes.{Bytes, codes, is_prefix}
use telemetrics_client.Base.Run.{Run, done, fault, ◌>>=◌}
use telemetrics_client.Journal.{decimal}
use telemetrics_client.Oops.{OopsLogMsg, str_starts_with_casei}
use telemetrics_client.Oops.Cpu.{parse_kernel_cpu_line}
use telemetrics_client.Oops.Frames.{FrameText, StackFrame, stack_frame_append}
use telemetrics_client.Oops.Patterns.{OopsPattern, Regexec}
use telemetrics_client.Oops.Registers.{Register, parse_registers, append_registers_to_bt}
use telemetrics_client.Oops.Scanner.{klog_process_oops_msgs}

-- The variables of the loop over the lines; the frames and the registers with the last one first.
pub record Backtrace : Type 0 where
  pub frames : List StackFrame
  pub registers : List Register
  pub modules : Option Bytes
  pub kernel_version : Option Bytes
  pub tainted : Option Bytes
  pub in_trace : Bool

unfoldable pub no_backtrace : Backtrace
no_backtrace = record {
  frames = [];
  registers = [];
  modules = none;
  kernel_version = none;
  tainted = none;
  in_trace = true;
}

unfoldable pub or_else : Option Bytes → Option Bytes → Option Bytes
or_else none old = old
or_else (some new) old = some new

-- A line outside the trace. The loop over its registers has fuel for each byte.
unfoldable pub scan_other : Backtrace → Bytes → Run Backtrace
unfolding or_else parse_kernel_cpu_line parse_registers
scan_other b line =
    if str_starts_with_casei line (codes "Modules linked in: ")
    then done (record b { modules = some (drop 19 line) })
    else if str_starts_with_casei line (codes "CPU: ") || str_starts_with_casei line (codes "PID: ")
    then parse_kernel_cpu_line line >>= (λ (version, tainted). done (record b {
      kernel_version = or_else version b.kernel_version;
      tainted = or_else tainted b.tainted;
    }))
    else parse_registers (suc (length line)) line b.registers
      >>= (λ regs. done (record b { registers = regs }))

unfoldable pub scan_line : Backtrace → Bytes → Run Backtrace
unfolding scan_other stack_frame_append
scan_line b line =
    if b.in_trace && is_prefix (codes " ") line
    then done (record b { frames = stack_frame_append b.frames line })
    else scan_other (record b { in_trace = false }) line

unfoldable pub scan_lines : Backtrace → List Bytes → Run Backtrace
unfolding scan_line
scan_lines b [] = done b
scan_lines b (line ∷ lines) = scan_line b line >>= (λ b'. scan_lines b' lines)

unfoldable pub labelled : Bytes → Option Bytes → Bytes
labelled label none = []
labelled label (some text) = label ++ (text ++ b'\n' ∷ [])

-- "#%d %s - [%s]\n"
unfoldable pub frame_line : ℕ → FrameText → Bytes
frame_line k f =
    b'#' ∷ decimal k ++ (b' ' ∷ f.function ++ (codes " - [" ++ (f.module_name ++ codes "]\n")))

-- A frame whose fields are not initialised is read all the same.
unfoldable pub frame_lines : ℕ → List StackFrame → Run Bytes
unfolding frame_line
frame_lines k [] = done []
frame_lines k (f ∷ fs) = elim f.text [
  | none ↦ fault
  | some text ↦ frame_lines (suc k) fs >>= (λ rest. done (frame_line k text ++ rest))
]

unfoldable pub trace_title : List StackFrame → Bytes
trace_title [] = []
trace_title (f ∷ fs) = codes "Backtrace :\n"

unfoldable pub print_backtrace : Bool → Backtrace → Run Bytes
unfolding labelled frame_lines trace_title append_registers_to_bt
print_backtrace override b = frame_lines 1 b.frames >>= (λ trace. done (
    labelled (codes "Kernel Version : ") b.kernel_version
    ++ (labelled (codes "Tainted : ") b.tainted
        ++ (labelled (codes "Modules : ") b.modules
            ++ (trace_title b.frames ++ (append_registers_to_bt override b.registers ++ trace))))))

-- The lines behind the first, from the last one on.
unfoldable pub parse_backtrace : Bool → List Bytes → Run Bytes
unfolding scan_lines print_backtrace no_backtrace
parse_backtrace override others =
    scan_lines no_backtrace (reverse others) >>= (λ b. print_backtrace override b)

unfoldable pub parse_payload : Bool → List Bytes → Run Bytes
unfolding parse_backtrace
parse_payload override [] = fault
parse_payload override (reason ∷ others) =
    parse_backtrace override others
    >>= (λ backtrace. done (codes "Crash Report:\nReason: " ++ (reason ++ (b'\n' ∷ backtrace))))

-- The arguments of send_data.
pub record Report : Type 0 where
  pub payload : Bytes
  pub classification : Bytes
  pub severity : ℕ

unfoldable pub report_of : Bool → OopsLogMsg → Option OopsPattern → Run Report
unfolding parse_payload
report_of override msg none = fault
report_of override msg (some pattern) = parse_payload override msg.lines >>= (λ payload.
    done (record {
      payload = payload;
      classification = pattern.classification;
      severity = pattern.severity;
    }))

unfoldable pub report_found : Bool → Option OopsLogMsg → Run (Option Report)
unfolding report_of
report_found override none = done none
report_found override (some msg) =
    report_of override msg msg.pattern >>= (λ report. done (some report))

-- The whole of klog_process_oops_msgs; none sends nothing.
unfoldable pub klog_report : Bool → Regexec → OopsLogMsg → Run (Option Report)
unfolding klog_process_oops_msgs report_found
klog_report override regexec msg =
    klog_process_oops_msgs regexec msg >>= (λ found. report_found override found)
