-- ===== src/Client/Attributes.antt =====
-- The values of /proc/cpuinfo and of the DMI files hold no newline and no NUL, and are short.
use telemetrics_client.Base.{
  ℕ, suc, ◌≤◌, ◌≡◌, ◌≢◌, inl, inr, refl, List, [], ◌∷◌, ◌++◌, Option, none, some, ◌==◌, length,
  length-append, take_shortens, take, arith, Bool-cases,
}
use telemetrics_client.Base.Bytes.{
  Bytes, codes, c_string, is_prefix, after, Lacks, Lacks-append, Lacks-take, Lacks-after,
  c_string_ends, length-c_string,
}
use telemetrics_client.Base.Run.{done}
use telemetrics_client.Client.Values.{
  small_lines, find_attribute, attribute_value, cpu_model, all_blank, zap_last, or_blank,
  get_dmi_value,
}
use telemetrics_client.Record.Staged.{take_line}
use telemetrics_client.Client.Lines.{
  IsValue, Ended, LineOf, AreLines, small_lines-AreLines, take_line-LineOf, Ended-c_string,
  Ended-after, Ended-init,
}

-- What is behind the ':' of a line.
abbrev IsTail : Option Bytes → Type 0
IsTail none = Unit
IsTail (some s) = Ended s × Lacks 0 s × (length s ≤ 79)

IsTail-after : (l : Bytes) (o : Option Bytes) → LineOf 79 l → after b':' (c_string l) ≡ o → IsTail o
IsTail-after l none h e = tt
IsTail-after l (some s) h e =
    let (ended, shorter) = Ended-after b':' (c_string l) s (Ended-c_string l h.0) e in
    (
      ended,
      Lacks-after 0 b':' (c_string l) s (c_string_ends l) e,
      omega (arith, shorter, length-c_string l, h.1),
    )

find_attribute-IsTail : (ls : List Bytes) → AreLines 79 79 ls → IsTail (find_attribute ls)
unfolding find_attribute
find_attribute-IsTail [] a = tt
find_attribute-IsTail (l ∷ ls) a = elim (Bool-cases (is_prefix (codes "model name") (c_string l))) [
  | inl named ↦ rw named (IsTail-after l _ a.0 refl)
  | inr other ↦ rw other (find_attribute-IsTail ls a.1)
]

attribute_value-IsValue : (o : Option Bytes) → IsTail o → IsValue 79 (attribute_value o)
unfolding attribute_value
attribute_value-IsValue none h = omega arith
attribute_value-IsValue (some []) h = omega arith
attribute_value-IsValue (some (c ∷ [])) h = omega arith
attribute_value-IsValue (some (c ∷ d ∷ ds)) h = record {
  no_newline = Ended-init d ds h.0.1;
  no_nul = Lacks-take 0 (length ds) (d ∷ ds) h.1.1;
  short = omega (arith, take_shortens (length ds) (d ∷ ds), h.2);
}

pub cpu_model-IsValue :
    (file : Bytes) → (v : Bytes) × (cpu_model (some file) ≡ some v) × IsValue 79 v
unfolding cpu_model
cpu_model-IsValue file = (
  _,
  refl,
  attribute_value-IsValue _ (find_attribute-IsTail (small_lines file) (small_lines-AreLines file)),
)

or_blank-IsValue : (s : Bytes) → IsValue 79 s → IsValue 79 (or_blank s)
unfolding or_blank
or_blank-IsValue s v = elim (Bool-cases (all_blank s)) [
  | inl blank ↦ rw blank (omega arith)
  | inr text ↦ rw text v
]

-- A file of the DMI directory does not start with NUL.
unfoldable pub StartsText : Option Bytes → Type 0
StartsText none = Unit
StartsText (some []) = Unit
StartsText (some (c ∷ cs)) = c ≢ 0

zap_line :
    (s : Bytes)
    → Ended s
    → Lacks 0 s
    → length s ≤ 79
    → s ≢ []
    → (v : Bytes) × (zap_last s ≡ done v) × IsValue 79 v
unfolding zap_last
zap_line [] e l h n = absurd (n refl)
zap_line (c ∷ cs) e l h n = (
  take (length cs) (c ∷ cs),
  refl,
  record {
    no_newline = Ended-init c cs e;
    no_nul = Lacks-take 0 (length cs) (c ∷ cs) l;
    short = omega (arith, take_shortens (length cs) (c ∷ cs), h);
  },
)

line_starts : (n c : ℕ) (cs : Bytes) → c ≢ 0 → c_string (take_line (suc n) (c ∷ cs)).0 ≢ []
unfolding take_line c_string
line_starts n c cs h = elim (Bool-cases (c == b'\n')) [
  | inl ends ↦ rw ends (λ e. ground (arith, h, e))
  | inr goes_on ↦ rw goes_on (λ e. ground (arith, h, e))
]

get_dmi_zapped :
    (key : Bytes) (c : ℕ) (cs v : Bytes)
    → zap_last (c_string (take_line 78 (c ∷ cs)).0) ≡ done v
    → get_dmi_value key (some (c ∷ cs)) ≡ done (or_blank v)
unfolding get_dmi_value
get_dmi_zapped key c cs v e = rw (e, get_dmi_value) refl

pub get_dmi_value-IsValue :
    (key : Bytes) (file : Option Bytes)
    → IsValue 3 key
    → StartsText file
    → (v : Bytes) × (get_dmi_value key file ≡ done v) × IsValue 79 v
unfolding get_dmi_value StartsText
get_dmi_value-IsValue key none k h = (
  codes "no_" ++ (key ++ codes "_file"),
  refl,
  record {
    no_newline = ground (arith, Lacks-append b'\n' key (codes "_file") k.no_newline (omega arith));
    no_nul = ground (arith, Lacks-append 0 key (codes "_file") k.no_nul (omega arith));
    short = omega (arith, length-append key (codes "_file"), k.short);
  },
)
get_dmi_value-IsValue key (some []) k h = (codes "blank", refl, omega arith)
get_dmi_value-IsValue key (some (c ∷ cs)) k h =
    let (ended, short) = take_line-LineOf 78 (c ∷ cs) in
    let line = c_string (take_line 78 (c ∷ cs)).0 in
    let (v, zapped, is) =
      zap_line line (Ended-c_string _ ended) (c_string_ends _)
        (omega (arith, short, length-c_string (take_line 78 (c ∷ cs)).0)) (line_starts 77 c cs h) in
    (or_blank v, get_dmi_zapped key c cs v zapped, or_blank-IsValue v is)
