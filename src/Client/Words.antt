-- ===== src/Client/Words.antt =====
-- The words of os-release hold no newline and no NUL, and are short.
use telemetrics_client.Base.{
  ℕ, ◌≤◌, ◌<◌, ◌≡◌, inl, inr, refl, List, [], ◌∷◌, ◌++◌, Option, none, some, length, length-drop,
  take_shortens, take, drop, arith, Bool-cases,
}
use telemetrics_client.Base.Bytes.{
  Bytes, codes, c_string, is_prefix, Lacks, Lacks-append, Lacks-take, Lacks-drop, c_string_ends,
  length-c_string,
}
use telemetrics_client.Base.Run.{done}
use telemetrics_client.Client.Values.{
  small_lines, skip_spaces, take_word, scan_word, scan_lines, or_default, join_variant, system_name,
  fit_version, system_build,
}
use telemetrics_client.Record.Payload.{is_space}
use telemetrics_client.Client.Lines.{IsValue, AreLines, small_lines-AreLines}

take_word-IsValue : (s : Bytes) → Lacks 0 s → IsValue (length s) (take_word s)
unfolding take_word is_space
take_word-IsValue [] h = record { no_newline = tt; no_nul = tt; short = omega arith }
take_word-IsValue (c ∷ cs) h =
    let v = take_word-IsValue cs h.1 in
    elim (Bool-cases (is_space c)) [
      | inl space ↦ rw space (record { no_newline = tt; no_nul = tt; short = omega arith })
      | inr solid ↦ rw solid (record {
        no_newline = (ground (arith, solid), v.no_newline);
        no_nul = (h.0, v.no_nul);
        short = omega (arith, v.short);
      })
    ]

skip_spaces-Lacks :
    (b : ℕ) (s : Bytes) → Lacks b s → Lacks b (skip_spaces s) × (length (skip_spaces s) ≤ length s)
unfolding skip_spaces
skip_spaces-Lacks b [] h = (tt, omega arith)
skip_spaces-Lacks b (c ∷ cs) h =
    let (l, s) = skip_spaces-Lacks b cs h.1 in
    elim (Bool-cases (is_space c)) [
      | inl space ↦ rw space (l, omega (arith, s))
      | inr solid ↦ rw solid (h, omega arith)
    ]

IsValue-weaken : (m n : ℕ) (s : Bytes) → m ≤ n → IsValue m s → IsValue n s
IsValue-weaken m n s h v = record {
  no_newline = v.no_newline;
  no_nul = v.no_nul;
  short = omega (arith, h, v.short);
}

IsValue-empty : (n : ℕ) → IsValue n []
IsValue-empty n = record { no_newline = tt; no_nul = tt; short = omega arith }

scan_word-IsValue : (n : ℕ) (prefix buf : Bytes) → length buf ≤ n → IsValue n (scan_word prefix buf)
unfolding scan_word
scan_word-IsValue n prefix buf h =
    let tail = drop (length prefix) (c_string buf) in
    let text = Lacks-drop 0 (length prefix) (c_string buf) (c_string_ends buf) in
    let (solid, shorter) = skip_spaces-Lacks 0 tail text in
    elim (Bool-cases (is_prefix prefix (c_string buf))) [
      | inl fits ↦ rw fits (
          IsValue-weaken (length (skip_spaces tail)) n (take_word (skip_spaces tail))
            (omega
              (arith, shorter, length-drop (length prefix) (c_string buf), length-c_string buf))
            (take_word-IsValue (skip_spaces tail) solid))
      | inr other ↦ rw other (IsValue-empty n)
    ]

first_word-IsValue :
    (n : ℕ) (word rest : Bytes)
    → IsValue n word
    → IsValue n rest
    → IsValue n (elim word [ [] ↦ rest | c ∷ cs ↦ c ∷ cs ])
first_word-IsValue n [] rest v w = w
first_word-IsValue n (c ∷ cs) rest v w = v

scan_lines-IsValue :
    (first rest : ℕ) (prefix : Bytes) (ls : List Bytes)
    → first ≤ 79
    → rest ≤ 79
    → AreLines first rest ls
    → IsValue 79 (scan_lines prefix ls)
unfolding scan_lines
scan_lines-IsValue first rest prefix [] f r a = IsValue-empty 79
scan_lines-IsValue first rest prefix (l ∷ ls) f r a =
    first_word-IsValue 79 (scan_word prefix l) (scan_lines prefix ls)
      (scan_word-IsValue 79 prefix l (omega (arith, a.0.1)))
      (scan_lines-IsValue rest rest prefix ls r r a.1)

or_default-IsValue :
    (n : ℕ) (default s : Bytes) → IsValue n default → IsValue n s → IsValue n (or_default default s)
unfolding or_default
or_default-IsValue n default [] v w = v
or_default-IsValue n default (c ∷ cs) v w = w

take-IsValue : (n m : ℕ) (s : Bytes) → Lacks b'\n' s → Lacks 0 s → n ≤ m → IsValue m (take n s)
take-IsValue n m s l k h = record {
  no_newline = Lacks-take b'\n' n s l;
  no_nul = Lacks-take 0 n s k;
  short = omega (arith, take_shortens n s);
}

join_variant-IsValue :
    (name variant : Bytes)
    → IsValue 79 name
    → IsValue 79 variant
    → IsValue 79 (join_variant name variant)
unfolding join_variant
join_variant-IsValue name [] v w = v
join_variant-IsValue name (c ∷ cs) v w =
    take-IsValue 79 79 (name ++ b'_' ∷ c ∷ cs)
      (Lacks-append b'\n' name (b'_' ∷ c ∷ cs) v.no_newline (ground arith, w.no_newline))
      (Lacks-append 0 name (b'_' ∷ c ∷ cs) v.no_nul (ground arith, w.no_nul)) (omega arith)

words : (prefix file : Bytes) → IsValue 79 (scan_lines prefix (small_lines file))
words prefix file =
    scan_lines-IsValue 79 79 prefix (small_lines file) (omega arith) (omega arith)
      (small_lines-AreLines file)

pub system_name-IsValue : (file : Option Bytes) → IsValue 79 (system_name file)
unfolding system_name
system_name-IsValue none = IsValue-empty 79
system_name-IsValue (some file) =
    join_variant-IsValue _ _
      (or_default-IsValue 79 (codes "unknown") _ (omega arith) (words (codes "ID=") file))
      (words (codes "VARIANT_ID=") file)

-- os-release names a version of at most 39 bytes, or none.
unfoldable pub ShortVersion : Option Bytes → Type 0
ShortVersion none = Unit
ShortVersion (some file) = length (scan_lines (codes "VERSION_ID=") (small_lines file)) < 40

pub system_build-IsValue :
    (file : Option Bytes)
    → ShortVersion file
    → (v : Bytes) × (system_build file ≡ done v) × IsValue 79 v
unfolding system_build fit_version ShortVersion
system_build-IsValue none h = (codes "0", refl, omega arith)
system_build-IsValue (some file) h = (
  or_default (codes "0") (scan_lines (codes "VERSION_ID=") (small_lines file)),
  ground (arith, h),
  or_default-IsValue 79 (codes "0") _ (omega arith) (words (codes "VERSION_ID=") file),
)
