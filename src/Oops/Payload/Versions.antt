-- ===== src/Oops/Payload/Versions.antt =====
-- The kernel version in a line such as `CPU: 3 PID: 0 Comm: init Not tainted 4.0.5-300 #1`.
use mathlib.Core.List.{append_assoc, reverse, reverse-append}
use telemetrics_client.Base.{
  ℕ, ◌≡◌, ◌≢◌, refl, sym, ap, ◌∙◌, false, [], ◌∷◌, ◌++◌, some, ◌==◌, arith, if_false,
}
use telemetrics_client.Base.Bytes.{Bytes, Lacks, codes, is_prefix}
use telemetrics_client.Base.Run.{done}
use telemetrics_client.Oops.Cpu.{
  strstr, split_hash, scan_back, version_before, kernel_version_in, cpu_line, parse_kernel_cpu_line,
}
use telemetrics_client.Record.Payload.{is_space}

-- No space and no '#'.
abbrev pub IsWord : Bytes → Type 0
IsWord [] = Unit
IsWord (c ∷ cs) = ((is_space c ≡ false) × (c ≢ b'#')) × IsWord cs

abbrev needle : Bytes
needle = codes " Not tainted "

-- The needle's second byte is `N`.
no_match : (c : ℕ) (s t : Bytes) → Lacks b'N' s → is_prefix needle (c ∷ (s ++ b' ' ∷ t)) ≡ false
unfolding is_prefix
no_match c [] t h = ground arith
no_match c (d ∷ s) t h = ground (arith, h.0)

strstr-needle :
    (s t : Bytes) → Lacks b'N' s → strstr (s ++ (needle ++ t)) needle ≡ some (needle ++ t)
unfolding strstr
strstr-needle [] t h = unfold is_prefix in refl
strstr-needle (c ∷ s) t h =
    if_false (is_prefix needle (c ∷ (s ++ (needle ++ t)))) _ _
      (no_match c s (codes "Not tainted " ++ t) h.1)
    ∙ strstr-needle s t h.1

reverse-cons : (c : ℕ) (s back : Bytes) → reverse (c ∷ s) ++ back ≡ reverse s ++ c ∷ back
reverse-cons c s back =
    ap (λ r. r ++ back) (reverse-append (c ∷ []) s) ∙ append_assoc (reverse s) (c ∷ []) back

split_hash-word :
    (back s t : Bytes)
    → IsWord s
    → split_hash back (s ++ (codes " #" ++ t)) ≡ some (b' ' ∷ (reverse s ++ back), b'#' ∷ t)
unfolding split_hash
split_hash-word back [] t h = refl
split_hash-word back (c ∷ s) t h =
    if_false (c == b'#') _ _ (ground (arith, h.0.1))
    ∙ split_hash-word (c ∷ back) s t h.1
    ∙ ap (λ r. some (b' ' ∷ r, b'#' ∷ t)) (sym (reverse-cons c s back))

scan_back-word :
    (s back word : Bytes)
    → IsWord s
    → scan_back (reverse s ++ back) word ≡ scan_back back (s ++ word)
scan_back-word [] back word h = refl
scan_back-word (c ∷ s) back word h =
    ap (λ b. scan_back b word) (reverse-cons c s back)
    ∙ scan_back-word s (c ∷ back) word h.1
    ∙ unfold scan_back in if_false (is_space c) _ _ h.0.0

kernel_version_in-word :
    (version rest : Bytes)
    → IsWord version
    → kernel_version_in false (b' ' ∷ (version ++ (codes " #" ++ rest)))
      ≡ done (some (version ++ (codes " #" ++ rest)))
unfolding kernel_version_in
kernel_version_in-word version rest h =
    let found : split_hash [] (b' ' ∷ (version ++ (codes " #" ++ rest)))
        ≡ some (b' ' ∷ (reverse version ++ b' ' ∷ []), b'#' ∷ rest) =
      unfold split_hash in split_hash-word (b' ' ∷ []) version rest h in
    ap (λ o. version_before false o) found
    ∙ unfold version_before is_space in
      ap (λ o. done o)
        (scan_back-word version (b' ' ∷ []) (b' ' ∷ b'#' ∷ rest) h ∙ unfold scan_back in refl)

-- A line with the text ` Not tainted `, before which no `N` stands, and behind it a version without a
-- space or `#`, a space and `#`: parse_kernel_cpu_line gives `Not tainted` as the flags, and the text
-- from the version to the end of the line, whatever else the line holds.
pub parse_kernel_cpu_line-version :
    (s version rest : Bytes)
    → Lacks b'N' s
    → IsWord version
    → parse_kernel_cpu_line (s ++ (codes " Not tainted " ++ (version ++ (codes " #" ++ rest))))
      ≡ done (some (version ++ (codes " #" ++ rest)), some (codes "Not tainted"))
unfolding parse_kernel_cpu_line cpu_line
parse_kernel_cpu_line-version s version rest h w =
    rw (strstr-needle s (version ++ (codes " #" ++ rest)) h, kernel_version_in-word version rest w)
      refl
