-- ===== src/Oops/Patterns.antt =====
-- src/probes/oops_parser.c: the patterns that start an oops.
use telemetrics_client.Base.{ℕ, Bool, true, false, List, [], ◌∷◌, Option, none, some, if◌then◌else◌}
use telemetrics_client.Base.Bytes.{Bytes, codes, c_string, is_prefix}

pub record OopsPattern : Type 0 where
  pub begin_line : Bytes
  pub classification : Bytes
  pub severity : ℕ
  pub is_regex : Bool

-- TM_MEDIUM and TM_CRITICAL of enum tm_severity.
abbrev pub tm_medium : ℕ
tm_medium = 2

abbrev pub tm_critical : ℕ
tm_critical = 4

-- An entry whose last field is false or left out, and one whose last field is true.
abbrev pub prefix : Bytes → Bytes → ℕ → OopsPattern
prefix begin classification severity = record {
  begin_line = begin;
  classification = classification;
  severity = severity;
  is_regex = false;
}

abbrev pub regex : Bytes → Bytes → ℕ → OopsPattern
regex begin classification severity = record {
  begin_line = begin;
  classification = classification;
  severity = severity;
  is_regex = true;
}

unfoldable pub oops_patterns_arr : List OopsPattern
oops_patterns_arr =
    prefix (codes "NETDEV WATCHDOG: ") (codes "org.clearlinux/kernel/warning") tm_medium
    ∷ prefix (codes "sysctl table check failed: ") (codes "org.clearlinux/kernel/warning") tm_medium
    ∷ prefix (codes "IRQ handler type mismatch for IRQ") (codes "org.clearlinux/kernel/warning")
        tm_medium
    ∷ regex (codes "^ALSA (.*): BUG(.*)") (codes "crash/kernel/bug") tm_medium
    ∷ regex (codes "irq [[:digit:]]+: nobody cared") (codes "crash/kernel/warning") tm_medium
    ∷ prefix (codes "WARNING: ") (codes "org.clearlinux/kernel/warning") tm_medium
    ∷ prefix (codes "general protection fault: ") (codes "org.clearlinux/kernel/bug") tm_critical
    ∷ prefix (codes "BUG: unable to handle kernel ") (codes "org.clearlinux/kernel/bug") tm_critical
    ∷ prefix (codes "BUG:") (codes "org.clearlinux/kernel/bug") tm_critical
    ∷ prefix (codes "kernel BUG at") (codes "org.clearlinux/kernel/bug") tm_critical
    ∷ prefix (codes "general protection fault:") (codes "org.clearlinux/kernel/bug") tm_critical
    ∷ prefix (codes "do_IRQ: stack overflow:") (codes "org.clearlinux/kernel/stackoverflow")
        tm_critical
    ∷ prefix (codes "RTNL: assertion failed") (codes "org.clearlinux/kernel/warning") tm_medium
    ∷ prefix (codes "Eeek! page_mapcount(page) went negative!") (codes "org.clearlinux/kernel/bug")
        tm_critical
    ∷ prefix (codes "near stack overflow (cur:") (codes "org.clearlinux/kernel/bug") tm_critical
    ∷ prefix (codes "double fault") (codes "org.clearlinux/kernel/bug") tm_critical
    ∷ prefix (codes "Badness") (codes "org.clearlinux/kernel/bug") tm_critical
    ∷ prefix (codes "list_del corruption.") (codes "org.clearlinux/kernel/warning") tm_medium
    ∷ prefix (codes "list_add corruption.") (codes "org.clearlinux/kernel/warning") tm_medium
    ∷ prefix (codes "ACPI Error:") (codes "org.clearlinux/kernel/warning") tm_medium
    ∷ prefix (codes "Kernel panic - not syncing:") (codes "org.clearlinux/kernel/panic") tm_critical
    ∷ []

-- regcomp with REG_ICASE and regexec: the pattern and the text.
abbrev pub Regexec : Type 0
Regexec = Bytes → Bytes → Bool

-- `line` is what stands up to `line_end`, where a NUL follows.
unfoldable pub pattern_matches : Regexec → OopsPattern → Bytes → Bool
pattern_matches regexec pattern line =
    if pattern.is_regex
    then regexec pattern.begin_line (c_string line)
    else is_prefix pattern.begin_line line

-- The loop over the patterns: the first that matches.
unfoldable pub find_pattern : Regexec → List OopsPattern → Bytes → Option OopsPattern
unfolding pattern_matches
find_pattern regexec [] line = none
find_pattern regexec (pattern ∷ patterns) line =
    let later = find_pattern regexec patterns line in
    if pattern_matches regexec pattern line then some pattern else later
