-- ===== src/Checks/Payloads.antt =====
-- The payload of an oops message at a concrete message.
use telemetrics_client.Base.{◌≡◌, refl, false, [], ◌∷◌, ◌++◌, some, arith, length, get_elem?, suc}
use telemetrics_client.Base.Bytes.{codes, is_prefix}
use telemetrics_client.Base.Run.{done, fault}
use telemetrics_client.Oops.{OopsLogMsg}
use telemetrics_client.Oops.Entire.{IsOops}
use telemetrics_client.Oops.Patterns.{
  Regexec, OopsPattern, prefix, tm_medium, oops_patterns_arr, pattern_matches, find_pattern,
}
use telemetrics_client.Oops.Payload.{klog_report, parse_payload}
use telemetrics_client.Oops.Payload.Fields.{Field, fields_line, stored_all, parse_registers-fields}
use telemetrics_client.Oops.Payload.Traces.{
  RegisterLine, message_lines, payload_text, klog_report-message,
}
use telemetrics_client.Oops.Payload.TraceLines.{TraceLine}
use telemetrics_client.Oops.Payload.Unset.{parse_payload-unset}
use telemetrics_client.Oops.Payload.Addresses.{NoSpace}
use telemetrics_client.Oops.Payload.Versions.{IsWord}
use telemetrics_client.Oops.Registers.{parse_registers, registers}
use telemetrics_client.Record.Payload.{is_space}

-- No regular expression matches.
abbrev pub regexec : Regexec
regexec pattern text = false

rax_named : get_elem? registers 13 ≡ some (codes "RAX")
unfolding registers
rax_named = refl

rbx_named : get_elem? registers 14 ≡ some (codes "RBX")
unfolding registers
rbx_named = refl

-- RAX: 02
abbrev rax : Field
rax = record {
  place = 13;
  name = codes "RAX";
  first = 0;
  others = 2 ∷ [];
  named = rax_named;
  digits = omega arith;
}

-- RBX: ffffffff81c1a080, above the greatest long long.
abbrev rbx : Field
rbx = record {
  place = 14;
  name = codes "RBX";
  first = 15;
  others = 15 ∷ 15 ∷ 15 ∷ 15 ∷ 15 ∷ 15 ∷ 15 ∷ 8 ∷ 1 ∷ 12 ∷ 1 ∷ 10 ∷ 0 ∷ 8 ∷ 0 ∷ [];
  named = rbx_named;
  digits = omega arith;
}

line_text : fields_line rax (rbx ∷ []) ≡ codes "RAX: 02 RBX: ffffffff81c1a080"
line_text = refl

parse_registers-fields_example :
    parse_registers (suc (length (fields_line rax (rbx ∷ [])))) (fields_line rax (rbx ∷ [])) []
    ≡ done (stored_all (rax ∷ rbx ∷ []) [])
parse_registers-fields_example = parse_registers-fields rax (rbx ∷ []) []

rbx_value :
    stored_all (rbx ∷ []) []
    ≡ record { reg_name = codes "RBX"; reg_value = 9223372036854775807 } ∷ []
rbx_value = refl

initcall_no_space : is_space b'd' ≡ false
unfolding is_space
initcall_no_space = refl

abbrev initcall : TraceLine
initcall = record {
  first = b'd';
  others = codes "o_one_initcall";
  offset = codes "0xb8/0x1e0";
  no_space = initcall_no_space;
  no_mark = omega arith;
  no_bracket = omega arith;
  no_plus = omega arith;
}

abbrev line : RegisterLine
line = record { first = rax; others = rbx ∷ [] }

abbrev matched : OopsPattern
matched = prefix (codes "WARNING: ") (codes "org.clearlinux/kernel/warning") tm_medium

abbrev message : OopsLogMsg
message = record {
  lines = codes "WARNING: at x.c" ∷ message_lines (line ∷ []) (initcall ∷ []);
  pattern = some matched;
}

message-IsOops : IsOops regexec message
unfolding find_pattern pattern_matches oops_patterns_arr is_prefix
message-IsOops = record {
  start = codes "WARNING: at x.c";
  others = message_lines (line ∷ []) (initcall ∷ []);
  matched = matched;
  lines = refl;
  found = refl;
  pattern = refl;
  bounded = omega arith;
  texts = omega arith;
}

klog_report-message_example :
    klog_report false regexec message
    ≡ done (
        some (record {
          payload = payload_text false (codes "WARNING: at x.c") (line ∷ []) (initcall ∷ []);
          classification = matched.classification;
          severity = matched.severity;
        }))
klog_report-message_example =
    klog_report-message false regexec matched (codes "WARNING: at x.c") (line ∷ []) initcall []
      message-IsOops

version-IsWord : IsWord (codes "4.0.5")
unfolding is_space
version-IsWord = ground arith

address-NoSpace : NoSpace (codes "<ffffffffa1002128>]")
unfolding is_space
address-NoSpace = search

parse_payload-unset_example :
    parse_payload false (codes "BUG:" ∷ ([] ++ (codes " [" ++ codes "<ffffffffa1002128>]") ∷ []))
    ≡ fault
parse_payload-unset_example =
    parse_payload-unset false (codes "BUG:") [] (codes "<ffffffffa1002128>]") address-NoSpace
