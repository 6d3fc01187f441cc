-- ===== src/Oops/Texts.antt =====
-- The texts that the oops parser works on: what is skipped, cut and matched.
use telemetrics_client.Base.{ℕ, ◌≡◌, ◌≢◌, inl, inr, refl, List, [], ◌∷◌, ◌==◌, arith, Bool-cases}
use telemetrics_client.Base.Bytes.{Bytes, Lacks, c_string, c_string_all, c_string_ends, is_prefix}
use telemetrics_client.Oops.{skip_past, skip_log_level, skip_timestamp, skip_space}
use telemetrics_client.Oops.Patterns.{
  OopsPattern, oops_patterns_arr, Regexec, pattern_matches, find_pattern,
}
use telemetrics_client.Record.Payload.{is_space}
use telemetrics_client.Oops.Scanner.{cut_lines, push_front}

Lacks-skip_past : (b stop : ℕ) (s : Bytes) → Lacks b s → Lacks b (skip_past stop s)
unfolding skip_past
Lacks-skip_past b stop [] h = tt
Lacks-skip_past b stop (c ∷ cs) h = ground (arith, Lacks-skip_past b stop cs h.1, h)

pub Lacks-skip_log_level : (b : ℕ) (s : Bytes) → Lacks b s → Lacks b (skip_log_level s)
unfolding skip_log_level
Lacks-skip_log_level b [] h = tt
Lacks-skip_log_level b (c ∷ cs) h = elim (Bool-cases (c == b'<')) [
  | inl level ↦ rw level (Lacks-skip_past b b'>' (c ∷ cs) h)
  | inr plain ↦ rw plain h
]

pub Lacks-skip_timestamp : (b : ℕ) (s : Bytes) → Lacks b s → Lacks b (skip_timestamp s)
unfolding skip_timestamp
Lacks-skip_timestamp b [] h = tt
Lacks-skip_timestamp b (c ∷ cs) h = elim (Bool-cases (c == b'[')) [
  | inl stamped ↦ rw stamped (Lacks-skip_past b b']' (c ∷ cs) h)
  | inr plain ↦ rw plain h
]

pub Lacks-skip_space : (b : ℕ) (s : Bytes) → Lacks b s → Lacks b (skip_space s)
unfolding skip_space
Lacks-skip_space b [] h = tt
Lacks-skip_space b (c ∷ cs) h = elim (Bool-cases (is_space c)) [
  | inl space ↦ rw space h.1
  | inr plain ↦ rw plain h
]

-- A pattern without NUL matches the text up to its NUL, or not at all.
is_prefix-c_string : (p s : Bytes) → Lacks 0 p → is_prefix p (c_string s) ≡ is_prefix p s
unfolding is_prefix c_string
is_prefix-c_string [] s h = refl
is_prefix-c_string (d ∷ p) [] h = refl
is_prefix-c_string (d ∷ p) (c ∷ cs) h = elim (Bool-cases (c == 0)) [
  | inl ends ↦ ground (arith, ends, h.0)
  | inr goes_on ↦ rw (goes_on, is_prefix, is_prefix-c_string p cs h.1) refl
]

abbrev pub AreNulFree : List OopsPattern → Type 0
AreNulFree [] = Unit
AreNulFree (p ∷ ps) = Lacks 0 p.begin_line × AreNulFree ps

pub oops_patterns-AreNulFree : AreNulFree oops_patterns_arr
unfolding oops_patterns_arr
oops_patterns-AreNulFree = omega arith

pattern_matches-c_string :
    (regexec : Regexec) (p : OopsPattern) (s : Bytes)
    → Lacks 0 p.begin_line
    → pattern_matches regexec p (c_string s) ≡ pattern_matches regexec p s
unfolding pattern_matches
pattern_matches-c_string regexec p s h =
    rw (c_string_all (c_string s) (c_string_ends s), is_prefix-c_string p.begin_line s h) refl

pub find_pattern-c_string :
    (regexec : Regexec) (ps : List OopsPattern) (s : Bytes)
    → AreNulFree ps
    → find_pattern regexec ps (c_string s) ≡ find_pattern regexec ps s
unfolding find_pattern
find_pattern-c_string regexec [] s h = refl
find_pattern-c_string regexec (p ∷ ps) s h =
    rw (pattern_matches-c_string regexec p s h.0, find_pattern-c_string regexec ps s h.1) refl

abbrev pub AreLines : List Bytes → Type 0
AreLines [] = Unit
AreLines (l ∷ ls) = Lacks b'\n' l × AreLines ls

push_front-AreLines :
    (c : ℕ) (cut : List Bytes × Bytes) → c ≢ b'\n' → AreLines cut.0 → AreLines (push_front c cut).0
unfolding push_front
push_front-AreLines c ([], rest) h k = tt
push_front-AreLines c (l ∷ ls, rest) h k = ((h, k.0), k.1)

pub cut_lines-AreLines : (buf : Bytes) → AreLines (cut_lines buf).0
unfolding cut_lines
cut_lines-AreLines [] = tt
cut_lines-AreLines (c ∷ cs) = elim (Bool-cases (c == b'\n')) [
  | inl ends ↦ rw ends (tt, cut_lines-AreLines cs)
  | inr other ↦
      rw other
        (push_front-AreLines c (cut_lines cs) (ground (arith, other)) (cut_lines-AreLines cs))
]
