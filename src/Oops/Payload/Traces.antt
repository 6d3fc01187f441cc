-- ===== src/Oops/Payload/Traces.antt =====
-- The payload of an oops message with lines of registers and a stack trace.
use mathlib.Core.List.{reverse, reverse-append}
use telemetrics_client.Base.{
  or_left, or_right, ℕ, suc, ◌≡◌, refl, ◌&&◌, if_true, if_false, sym, ap, ◌∙◌, Bool, true, false,
  ◌||◌, List, [], ◌∷◌, ◌++◌, some, length, map,
}
use telemetrics_client.Configuration.{to_lower}
use telemetrics_client.Base.Bytes.{Bytes, codes, is_prefix}
use telemetrics_client.Base.Run.{done, ◌>>=◌, bind_congr, bind_assoc, bind_done}
use telemetrics_client.Oops.{str_starts_with_casei}
use telemetrics_client.Oops.Entire.{IsOops, klog_process_oops_msgs-IsOops}
use telemetrics_client.Oops.Numbers.{skip_spaces}
use telemetrics_client.Oops.Patterns.{OopsPattern, Regexec}
use telemetrics_client.Oops.Payload.{
  Backtrace, no_backtrace, scan_other, scan_line, scan_lines, frame_lines, print_backtrace,
  parse_backtrace, parse_payload, report_of, report_found, klog_report,
}
use telemetrics_client.Oops.Payload.Fields.{
  Field, fields_line, stored_all, parse_registers-fields, is_other, fields_line-not_other,
}
use telemetrics_client.Oops.Registers.{
  Register, append_registers_to_bt, parse_registers, registers, find_register,
}
use telemetrics_client.Record.Payload.{is_space}
use telemetrics_client.Oops.Payload.TraceLines.{
  TraceLine, trace_line, frame_of, numbered, stack_frame_append-trace_line,
}

scan_lines-append :
    (b : Backtrace) (xs ys : List Bytes)
    → scan_lines b (xs ++ ys) ≡ (scan_lines b xs >>= (λ b'. scan_lines b' ys))
unfolding scan_lines
scan_lines-append b [] ys = refl
scan_lines-append b (x ∷ xs) ys =
    bind_congr (scan_line b x) _ _ (λ b' _. scan_lines-append b' xs ys)
    ∙ sym (bind_assoc (scan_line b x) (λ b'. scan_lines b' xs) (λ b'. scan_lines b' ys))

pub scan_lines-reverse :
    (b : Backtrace) (x : Bytes) (xs : List Bytes)
    → scan_lines b (reverse (x ∷ xs)) ≡ (scan_lines b (reverse xs) >>= (λ b'. scan_line b' x))
unfolding scan_lines
scan_lines-reverse b x xs =
    ap (λ ls. scan_lines b ls) (reverse-append (x ∷ []) xs)
    ∙ scan_lines-append b (reverse xs) (x ∷ [])
    ∙ bind_congr (scan_lines b (reverse xs)) _ _ (λ b' _. bind_done (scan_line b' x))

scan_line-trace :
    (b : Backtrace) (t : TraceLine)
    → b.in_trace ≡ true
    → scan_line b (trace_line t) ≡ done (record b { frames = frame_of t ∷ b.frames })
unfolding scan_line is_prefix
scan_line-trace b t e =
    if_true (b.in_trace && is_prefix (codes " ") (trace_line t)) _ _ (rw e refl)
    ∙ ap (λ fs. done (record b { frames = fs })) (stack_frame_append-trace_line b.frames t)

-- A line that is neither of modules nor of a processor is a line of registers.
scan_other-plain :
    (b : Backtrace) (line : Bytes) (regs : List Register)
    → is_other line ≡ false
    → parse_registers (suc (length line)) line b.registers ≡ done regs
    → scan_other b line ≡ done (record b { registers = regs })
unfolding scan_other
scan_other-plain b line regs plain read =
    if_false (str_starts_with_casei line (codes "Modules linked in: ")) _ _ (or_left _ _ plain)
    ∙ if_false
        (str_starts_with_casei line (codes "CPU: ") || str_starts_with_casei line (codes "PID: ")) _
        _ (or_right _ _ plain)
    ∙ ap (λ r. r >>= (λ rs. done (record b { registers = rs }))) read

abbrev title : Bytes
title = codes "Call Trace:"

no_frame : (b : Bool) → (b && is_prefix (codes " ") title) ≡ false
unfolding is_prefix
no_frame true = refl
no_frame false = refl

parse_registers-title :
    (n : ℕ) (regs : List Register) → parse_registers (suc n) title regs ≡ done regs
unfolding parse_registers registers find_register skip_spaces str_starts_with_casei is_prefix
    is_space to_lower
parse_registers-title n regs = refl

title-not_other : is_other title ≡ false
unfolding str_starts_with_casei is_prefix to_lower
title-not_other = refl

scan_line-title :
    (b : Backtrace) → scan_line b (codes "Call Trace:") ≡ done (record b { in_trace = false })
unfolding scan_line
scan_line-title b =
    if_false (b.in_trace && is_prefix (codes " ") title) _ _ (no_frame b.in_trace)
    ∙ scan_other-plain (record b { in_trace = false }) title b.registers title-not_other
        (parse_registers-title (length title) b.registers)

scan_other-registers :
    (b : Backtrace) (f : Field) (fs : List Field)
    → scan_other b (fields_line f fs)
      ≡ done (record b { registers = stored_all (f ∷ fs) b.registers })
scan_other-registers b f fs =
    scan_other-plain b (fields_line f fs) _ (fields_line-not_other f fs)
      (parse_registers-fields f fs b.registers)

-- A line of registers.
pub record RegisterLine : Type 0 where
  pub first : Field
  pub others : List Field

abbrev pub register_line : RegisterLine → Bytes
register_line l = fields_line l.first l.others

scan_line-registers :
    (b : Backtrace) (l : RegisterLine)
    → b.in_trace ≡ false
    → scan_line b (register_line l)
      ≡ done (record b { registers = stored_all (l.first ∷ l.others) b.registers })
unfolding scan_line
scan_line-registers b l e =
    if_false (b.in_trace && is_prefix (codes " ") (register_line l)) _ _ (rw e refl)
    ∙ ap (λ t. scan_other (record b { in_trace = t }) (register_line l)) (sym e)
    ∙ scan_other-registers b l.first l.others

-- What the lines of the trace leave behind, and then the title of the trace.
abbrev traced : List TraceLine → Backtrace
traced ts = record no_backtrace { frames = map frame_of ts }

scan_lines-trace :
    (ts : List TraceLine) → scan_lines no_backtrace (reverse (map trace_line ts)) ≡ done (traced ts)
unfolding scan_lines no_backtrace
scan_lines-trace [] = refl
scan_lines-trace (t ∷ ts) =
    scan_lines-reverse no_backtrace (trace_line t) (map trace_line ts)
    ∙ ap (λ r. r >>= (λ b. scan_line b (trace_line t))) (scan_lines-trace ts)
    ∙ scan_line-trace (traced ts) t refl

scan_lines-title :
    (ts : List TraceLine)
    → scan_lines no_backtrace (reverse (title ∷ map trace_line ts))
      ≡ done (record (traced ts) { in_trace = false })
scan_lines-title ts =
    scan_lines-reverse no_backtrace title (map trace_line ts)
    ∙ ap (λ r. r >>= (λ b. scan_line b title)) (scan_lines-trace ts)
    ∙ scan_line-title (traced ts)

-- The lines are read from the last one on.
abbrev pub registers_of : List RegisterLine → List Register
registers_of [] = []
registers_of (l ∷ ls) = stored_all (l.first ∷ l.others) (registers_of ls)

abbrev pub message_lines : List RegisterLine → List TraceLine → List Bytes
message_lines [] ts = title ∷ map trace_line ts
message_lines (l ∷ ls) ts = register_line l ∷ message_lines ls ts

scanned : List RegisterLine → List TraceLine → Backtrace
scanned ls ts = record (traced ts) { registers = registers_of ls; in_trace = false }

scan_lines-message :
    (ls : List RegisterLine) (ts : List TraceLine)
    → scan_lines no_backtrace (reverse (message_lines ls ts)) ≡ done (scanned ls ts)
unfolding scanned
scan_lines-message [] ts = scan_lines-title ts ∙ unfold no_backtrace in refl
scan_lines-message (l ∷ ls) ts =
    scan_lines-reverse no_backtrace (register_line l) (message_lines ls ts)
    ∙ ap (λ r. r >>= (λ b. scan_line b (register_line l))) (scan_lines-message ls ts)
    ∙ scan_line-registers (scanned ls ts) l refl

frame_lines-trace :
    (k : ℕ) (ts : List TraceLine) → frame_lines k (map frame_of ts) ≡ done (numbered k ts)
unfolding frame_lines
frame_lines-trace k [] = refl
frame_lines-trace k (t ∷ ts) = rw (frame_lines-trace (suc k) ts) refl

abbrev pub payload_text : Bool → Bytes → List RegisterLine → List TraceLine → Bytes
payload_text override reason ls ts =
    codes "Crash Report:\nReason: "
    ++ (reason
        ++ (b'\n'
            ∷ (codes "Backtrace :\n"
                ++ (append_registers_to_bt override (registers_of ls) ++ numbered 1 ts))))

print_backtrace-scanned :
    (override : Bool) (ls : List RegisterLine) (t : TraceLine) (ts : List TraceLine)
    → print_backtrace override (scanned ls (t ∷ ts))
      ≡ done (
          codes "Backtrace :\n"
          ++ (append_registers_to_bt override (registers_of ls) ++ numbered 1 (t ∷ ts)))
unfolding print_backtrace scanned no_backtrace
print_backtrace-scanned override ls t ts = rw (frame_lines-trace 1 (t ∷ ts)) refl

pub parse_payload-message :
    (override : Bool) (reason : Bytes) (ls : List RegisterLine) (t : TraceLine)
    (ts : List TraceLine)
    → parse_payload override (reason ∷ message_lines ls (t ∷ ts))
      ≡ done (payload_text override reason ls (t ∷ ts))
unfolding parse_payload parse_backtrace
parse_payload-message override reason ls t ts =
    rw (scan_lines-message ls (t ∷ ts), print_backtrace-scanned override ls t ts) refl

-- An oops message of 1 to 100 lines of text, whose pattern is the first that matches its first line:
-- the reason, then lines of registers, each with one register or more, then `Call Trace:` and one or
-- more lines of a stack trace without addresses. klog_process_oops_msgs sends a report with the
-- pattern's classification and severity. Its payload holds the reason, the registers of every line,
-- and the functions of the trace in their order, numbered from 1.
pub klog_report-message :
    (override : Bool) (regexec : Regexec) (pattern : OopsPattern) (reason : Bytes)
    (ls : List RegisterLine) (t : TraceLine) (ts : List TraceLine)
    → IsOops regexec (record { lines = reason ∷ message_lines ls (t ∷ ts); pattern = some pattern })
    → klog_report override regexec
        (record { lines = reason ∷ message_lines ls (t ∷ ts); pattern = some pattern })
      ≡ done (
          some (record {
            payload = payload_text override reason ls (t ∷ ts);
            classification = pattern.classification;
            severity = pattern.severity;
          }))
unfolding klog_report report_found report_of
klog_report-message override regexec pattern reason ls t ts is =
    rw (klog_process_oops_msgs-IsOops regexec _ is, parse_payload-message override reason ls t ts)
      refl
