-- ===== src/Checks/Logs.antt =====
-- The oops parser at a concrete log.
use telemetrics_client.Base.{◌≡◌, refl, false, [], ◌∷◌, some, arith, inr}
use telemetrics_client.Base.Bytes.{Bytes, codes}
use telemetrics_client.Base.Run.{done}
use telemetrics_client.Oops.{OopsLogMsg, ParserState}
use telemetrics_client.Oops.Entire.{IsOops}
use telemetrics_client.Oops.Parsing.{IsParser, split_buf_by_line-IsParser}
use telemetrics_client.Oops.Patterns.{
  Regexec, prefix, tm_medium, oops_patterns_arr, pattern_matches, find_pattern,
}
use telemetrics_client.Oops.Scanner.{split_buf_by_line}
use telemetrics_client.Base.Bytes.{is_prefix}

-- No regular expression matches.
abbrev regexec : Regexec
regexec pattern text = false

abbrev warning : OopsLogMsg
warning = record {
  lines = codes "WARNING: at x.c" ∷ codes "Call Trace:" ∷ [];
  pattern = some (prefix (codes "WARNING: ") (codes "org.clearlinux/kernel/warning") tm_medium);
}

warning-IsOops : IsOops regexec warning
unfolding find_pattern pattern_matches oops_patterns_arr is_prefix
warning-IsOops = record {
  start = codes "WARNING: at x.c";
  others = codes "Call Trace:" ∷ [];
  matched = prefix (codes "WARNING: ") (codes "org.clearlinux/kernel/warning") tm_medium;
  lines = refl;
  found = refl;
  pattern = refl;
  bounded = omega arith;
  texts = omega arith;
}

abbrev log : Bytes
log = codes "<6>[ 1.0] usb\n<4>[ 2.0] more frames\n<4>[ 3.0] ---[ end trace 1 ]---\nrest"

abbrev parser : ParserState
parser = record { oops_msg = warning; in_stack_dump = false; handled = [] }

split_buf_by_line-IsParser_example :
    (t : ParserState) × (split_buf_by_line regexec parser log ≡ done t) × IsParser regexec t
split_buf_by_line-IsParser_example =
    split_buf_by_line-IsParser regexec parser log
      (record { oops = inr warning-IsOops; handled = tt })
