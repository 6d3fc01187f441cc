-- ===== src/Record/Lines.antt =====
-- Lines in a stream: what `fgets` and `_fgets` read back of a line that was written.
use telemetrics_client.Common.{path_max}
use mathlib.Core.List.{append_assoc}
use telemetrics_client.Base.{
  ℕ, zero, suc, ◌<◌, ◌≡◌, refl, ap, true, List, [], ◌∷◌, ◌++◌, some, length, arith,
}
use telemetrics_client.Base.Bytes.{Bytes, Lacks, Lacks-append, c_string, c_string_all, is_prefix}
use telemetrics_client.Record.Staged.{take_line, fgets, chomp, fgets_chomp, read_headers}
use telemetrics_client.Record.Probd.{stage_headers}
use telemetrics_client.Util.{get_header}

-- A text that fits on one line of the reader's buffer.
pub record IsLine (s : Bytes) : Type 0 where
  pub no_newline : Lacks b'\n' s
  pub no_nul : Lacks 0 s
  pub fits : length s < path_max

pub record IsHeader (name h : Bytes) : Type 0 where
  pub named : is_prefix name h ≡ true
  pub line : IsLine h

-- One header for each name, in order.
abbrev pub AreHeaders : List Bytes → List Bytes → Type 0
AreHeaders [] [] = Unit
AreHeaders (name ∷ names) (h ∷ hs) = IsHeader name h × AreHeaders names hs
AreHeaders _ _ = ⊥

take_line-newline :
    (n : ℕ) (s rest : Bytes)
    → Lacks b'\n' s
    → length s < n
    → take_line n (s ++ b'\n' ∷ rest) ≡ (s ++ b'\n' ∷ [], rest)
unfolding take_line
take_line-newline zero s rest l h = absurd (omega arith)
take_line-newline (suc n) [] rest l h = ground arith
take_line-newline (suc n) (c ∷ s) rest l h =
    rw (take_line-newline n s rest l.1 (omega arith)) (ground arith)

chomp-newline : (s rest : Bytes) → Lacks b'\n' s → chomp (s ++ b'\n' ∷ rest) ≡ s
unfolding chomp
chomp-newline [] rest l = refl
chomp-newline (c ∷ s) rest l = ground (arith, chomp-newline s rest)

fgets-newline :
    (s rest : Bytes)
    → Lacks b'\n' s
    → length s < path_max
    → fgets (s ++ b'\n' ∷ rest) ≡ some (s ++ b'\n' ∷ [], rest)
unfolding fgets
fgets-newline [] rest l h = ap some (take_line-newline path_max [] rest l h)
fgets-newline (c ∷ s) rest l h = ap some (take_line-newline path_max (c ∷ s) rest l h)

pub fgets_chomp-newline :
    (s rest : Bytes) → IsLine s → fgets_chomp (s ++ b'\n' ∷ rest) ≡ some (s, rest)
unfolding fgets_chomp
fgets_chomp-newline s rest l =
    let whole : c_string (s ++ b'\n' ∷ []) ≡ s ++ b'\n' ∷ [] =
      c_string_all _ (Lacks-append 0 s (b'\n' ∷ []) l.no_nul (ground arith, tt)) in
    rw (
      fgets-newline s rest l.no_newline l.fits,
      fgets_chomp,
      whole,
      chomp-newline s [] l.no_newline,
    )

-- The reader's loop reads back the headers that were written line by line.
pub read_headers-stage_headers :
    (names hs : List Bytes) (rest : Bytes)
    → AreHeaders names hs
    → read_headers names (stage_headers hs ++ rest) ≡ some (hs, rest)
unfolding read_headers stage_headers get_header
read_headers-stage_headers [] [] rest a = refl
read_headers-stage_headers [] (h ∷ hs) rest a = absurd a
read_headers-stage_headers (name ∷ names) [] rest a = absurd a
read_headers-stage_headers (name ∷ names) (h ∷ hs) rest a =
    rw (append_assoc h (b'\n' ∷ stage_headers hs) rest) (
      rw (
        fgets_chomp-newline h (stage_headers hs ++ rest) a.0.line,
        read_headers,
        a.0.named,
        read_headers-stage_headers names hs rest a.1,
      ))
