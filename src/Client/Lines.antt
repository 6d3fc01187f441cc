-- ===== src/Client/Lines.antt =====
-- The lines that fgets reads from the files of the system, and values short enough for a header.
use telemetrics_client.Base.{
  ℕ, zero, suc, ◌≤◌, ◌≡◌, ◌≢◌, inl, inr, sym, List, [], ◌∷◌, some, ◌==◌, length, take, arith,
  Bool-cases, if_cases,
}
use telemetrics_client.Base.Bytes.{Bytes, c_string, after, Lacks, push_byte}
use telemetrics_client.Client.Values.{fgets_lines, small_lines}
use telemetrics_client.Record.Staged.{take_line}

pub record IsValue (n : ℕ) (s : Bytes) : Type 0 where
  pub no_newline : Lacks b'\n' s
  pub no_nul : Lacks 0 s
  pub short : length s ≤ n

-- Only the last byte may be a newline.
abbrev pub Ended : Bytes → Type 0
Ended [] = Unit
Ended (c ∷ []) = Unit
Ended (c ∷ d ∷ s) = (c ≢ b'\n') × Ended (d ∷ s)

-- A line of at most `n` bytes.
abbrev pub LineOf : ℕ → Bytes → Type 0
LineOf n s = Ended s × (length s ≤ n)

abbrev pub AreLines : ℕ → ℕ → List Bytes → Type 0
AreLines first rest [] = Unit
AreLines first rest (l ∷ ls) = LineOf first l × AreLines rest rest ls

pub Ended-cons : (c : ℕ) (s : Bytes) → c ≢ b'\n' → Ended s → Ended (c ∷ s)
Ended-cons c [] h e = tt
Ended-cons c (d ∷ s) h e = (h, e)

push_byte-AreLines :
    (c first rest : ℕ) (ls : List Bytes)
    → c ≢ b'\n'
    → AreLines first rest ls
    → AreLines (suc first) rest (push_byte c ls)
unfolding push_byte
push_byte-AreLines c first rest [] h a = ((tt, omega arith), tt)
push_byte-AreLines c first rest (l ∷ ls) h a = ((Ended-cons c l h a.0.0, omega (arith, a.0.1)), a.1)

fgets_lines-AreLines :
    (size room : ℕ) (s : Bytes) → AreLines (suc room) (suc size) (fgets_lines size room s)
unfolding fgets_lines
fgets_lines-AreLines size room [] = tt
fgets_lines-AreLines size zero (c ∷ cs) = ((tt, omega arith), fgets_lines-AreLines size size cs)
fgets_lines-AreLines size (suc room) (c ∷ cs) = elim (Bool-cases (c == b'\n')) [
  | inl ends ↦ rw ends ((tt, omega arith), fgets_lines-AreLines size size cs)
  | inr goes_on ↦ rw goes_on (
      push_byte-AreLines c (suc room) (suc size) (fgets_lines size room cs)
        (ground (arith, goes_on)) (fgets_lines-AreLines size room cs))
]

pub small_lines-AreLines : (s : Bytes) → AreLines 79 79 (small_lines s)
small_lines-AreLines s = fgets_lines-AreLines 78 78 s

pub Ended-c_string : (s : Bytes) → Ended s → Ended (c_string s)
unfolding c_string
Ended-c_string [] h = tt
Ended-c_string (c ∷ []) h = elim (Bool-cases (c == 0)) [
  | inl nul ↦ rw nul tt
  | inr byte ↦ rw byte tt
]
Ended-c_string (c ∷ d ∷ s) h = elim (Bool-cases (c == 0)) [
  | inl nul ↦ rw nul tt
  | inr byte ↦ rw byte (Ended-cons c (c_string (d ∷ s)) h.0 (Ended-c_string (d ∷ s) h.1))
]

Ended-tail : (c : ℕ) (s : Bytes) → Ended (c ∷ s) → Ended s
Ended-tail c [] h = tt
Ended-tail c (d ∷ s) h = h.1

pub Ended-after :
    (m : ℕ) (s t : Bytes) → Ended s → after m s ≡ some t → Ended t × (length t ≤ length s)
unfolding after
Ended-after m [] t h e = cc
Ended-after m (c ∷ s) t h e = elim (if_cases (c == m) e) [
  | inl (_, here) ↦ let same : s ≡ t = cc in rw (sym same) (Ended-tail c s h, omega arith)
  | inr (_, later) ↦
      let (ended, shorter) = Ended-after m s t (Ended-tail c s h) later in
      (ended, omega (arith, shorter))
]

-- Without its last byte such a line has no newline.
pub Ended-init : (c : ℕ) (s : Bytes) → Ended (c ∷ s) → Lacks b'\n' (take (length s) (c ∷ s))
Ended-init c [] h = tt
Ended-init c (d ∷ s) h = (h.0, Ended-init d s h.1)

pub take_line-LineOf : (n : ℕ) (s : Bytes) → LineOf n (take_line n s).0
unfolding take_line
take_line-LineOf zero s = (tt, omega arith)
take_line-LineOf (suc n) [] = (tt, omega arith)
take_line-LineOf (suc n) (c ∷ cs) = elim (Bool-cases (c == b'\n')) [
  | inl ends ↦ rw ends (tt, omega arith)
  | inr goes_on ↦
      let (ended, short) = take_line-LineOf n cs in
      rw goes_on
        (Ended-cons c (take_line n cs).0 (ground (arith, goes_on)) ended, omega (arith, short))
]
