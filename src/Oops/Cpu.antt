-- ===== src/Oops/Cpu.antt =====
-- `parse_kernel_cpu_line` of src/probes/oops_parser.c.
use telemetrics_client.Base.{
  ℕ, Bool, true, false, [], ◌∷◌, Option, none, some, ◌==◌, if◌then◌else◌, take, drop,
}
use telemetrics_client.Base.Bytes.{Bytes, codes, is_prefix}
use telemetrics_client.Base.Run.{Run, done, fault, ◌>>=◌}
use telemetrics_client.Record.Payload.{is_space}

abbrev pub num_tainted_flags : ℕ
num_tainted_flags = 16

-- strstr(s, needle)
unfoldable pub strstr : Bytes → Bytes → Option Bytes
strstr [] needle = if is_prefix needle [] then some [] else none
strstr (c ∷ cs) needle = if is_prefix needle (c ∷ cs) then some (c ∷ cs) else strstr cs needle

-- The first '#' with what follows it, and what stands before it in reverse.
unfoldable pub split_hash : Bytes → Bytes → Option (Bytes × Bytes)
split_hash back [] = none
split_hash back (c ∷ cs) = if c == b'#' then some (back, c ∷ cs) else split_hash (c ∷ back) cs

-- Back to the nearest space.
unfoldable pub scan_back : Bytes → Bytes → Option Bytes
scan_back [] word = none
scan_back (c ∷ back) word = if is_space c then some word else scan_back back (c ∷ word)

-- `first` if no byte stands before the line.
unfoldable pub version_before : Bool → Option (Bytes × Bytes) → Run (Option Bytes)
unfolding scan_back
version_before first none = done none
version_before true (some ([], hash)) = fault
version_before false (some ([], hash)) = done none
version_before first (some (c ∷ back, hash)) =
    done (if is_space c then scan_back back (c ∷ hash) else none)

unfoldable pub kernel_version_in : Bool → Bytes → Run (Option Bytes)
unfolding version_before split_hash
kernel_version_in first line = version_before first (split_hash [] line)

-- One byte behind the start of the flags; where there are none it is behind the text.
unfoldable pub behind_flag : Bytes → Run (Option Bytes)
unfolding kernel_version_in
behind_flag [] = fault
behind_flag (c ∷ cs) = kernel_version_in false cs

-- The places of " Not tainted " and "Tainted: ".
unfoldable pub cpu_line : Bytes → Option Bytes → Option Bytes → Run (Option Bytes × Option Bytes)
unfolding kernel_version_in behind_flag
cpu_line line (some end) _ =
    kernel_version_in false (drop 12 end)
    >>= (λ version. done (version, some (codes "Not tainted")))
cpu_line line none (some end) =
    behind_flag (drop 9 end)
    >>= (λ version. done (version, some (take num_tainted_flags (drop 9 end))))
cpu_line line none none = kernel_version_in true line >>= (λ version. done (version, none))

-- The kernel version and the flags; none leaves what was found before.
unfoldable pub parse_kernel_cpu_line : Bytes → Run (Option Bytes × Option Bytes)
unfolding cpu_line strstr
parse_kernel_cpu_line line =
    cpu_line line (strstr line (codes " Not tainted ")) (strstr line (codes "Tainted: "))
